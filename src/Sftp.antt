-- ===== src/Sftp.antt =====
-- src/sftp/mod.rs: the SFTP subsystem. The constants; the children are the file attributes, the
-- packets, the paths, the file system below them, and the handler of requests.
pub mod Attrs
pub mod Messages
pub mod Path
pub mod FileSystem
pub mod Handler
pub mod Examples
use swift_ssh.Prelude.{ℕ}

abbrev pub fxp_init : ℕ
fxp_init = 1

abbrev pub fxp_version : ℕ
fxp_version = 2

abbrev pub fxp_open : ℕ
fxp_open = 3

abbrev pub fxp_close : ℕ
fxp_close = 4

abbrev pub fxp_read : ℕ
fxp_read = 5

abbrev pub fxp_write : ℕ
fxp_write = 6

abbrev pub fxp_lstat : ℕ
fxp_lstat = 7

abbrev pub fxp_opendir : ℕ
fxp_opendir = 11

abbrev pub fxp_readdir : ℕ
fxp_readdir = 12

abbrev pub fxp_remove : ℕ
fxp_remove = 13

abbrev pub fxp_mkdir : ℕ
fxp_mkdir = 14

abbrev pub fxp_rmdir : ℕ
fxp_rmdir = 15

abbrev pub fxp_realpath : ℕ
fxp_realpath = 16

abbrev pub fxp_stat : ℕ
fxp_stat = 17

abbrev pub fxp_status : ℕ
fxp_status = 101

abbrev pub fxp_handle : ℕ
fxp_handle = 102

abbrev pub fxp_data : ℕ
fxp_data = 103

abbrev pub fxp_name : ℕ
fxp_name = 104

abbrev pub fxp_attrs : ℕ
fxp_attrs = 105

abbrev pub fx_ok : ℕ
fx_ok = 0

abbrev pub fx_eof : ℕ
fx_eof = 1

abbrev pub fx_no_such_file : ℕ
fx_no_such_file = 2

abbrev pub fx_permission_denied : ℕ
fx_permission_denied = 3

abbrev pub fx_failure : ℕ
fx_failure = 4

abbrev pub fx_op_unsupported : ℕ
fx_op_unsupported = 8

abbrev pub fxf_write : ℕ
fxf_write = 0x00000002

abbrev pub fxf_creat : ℕ
fxf_creat = 0x00000008

abbrev pub fxf_trunc : ℕ
fxf_trunc = 0x00000010

abbrev pub attr_size : ℕ
attr_size = 0x00000001

abbrev pub attr_uidgid : ℕ
attr_uidgid = 0x00000002

abbrev pub attr_permissions : ℕ
attr_permissions = 0x00000004

abbrev pub attr_acmodtime : ℕ
attr_acmodtime = 0x00000008

abbrev pub sftp_version : ℕ
sftp_version = 3
