-- ===== src/Sftp/Handler.antt =====
-- `SftpHandler` of src/sftp/mod.rs: the requests of an SFTP client on the disk of the server.
-- The children hold the methods that answer requests. A method gives its response, with the handler and the disk where it changes them.
pub mod Dirs
pub mod Files
pub mod Requests
pub mod Answers
pub mod Moves
pub mod Replies
pub mod Resolve
pub mod Confined
pub mod Reach
pub mod Handles
use swift_ssh.Prelude.{
  ℕ, ◌+◌, ◌%◌, ◌^◌, min, Bool, true, false, Option, none, some, List, [], ◌∷◌, map, ltb, ◌==◌, ◌||◌,
  bit_or, if◌then◌else◌,
}
use swift_ssh.Error.{SshResult, ok, err, panic, sftp, msg, ok_or}
use swift_ssh.HashMap.{HashMap, bytes_key, get, insert, remove}
use swift_ssh.Packet.Utf8.{to_string_lossy}
use swift_ssh.Packet.Buf.{to_be_bytes, read_string, read_utf8, read_u32}
use swift_ssh.Sftp
use swift_ssh.Sftp.Attrs.{FileAttrs, default_attrs, has, read_u64_be}
use swift_ssh.Sftp.Messages.{
  SftpPacket, build_sftp_status, build_sftp_handle, build_sftp_data, build_sftp_name,
  build_sftp_attrs,
}
use swift_ssh.Sftp.Path.{is_absolute, without_slash, join_path, normalize_path, starts_with}
use swift_ssh.Sftp.FileSystem.{Metadata, FileSystem}

pub record SftpHandler : Type 0 where
  pub next_handle : ℕ
  -- the path and the flags of an open file
  pub open_files : HashMap (List ℕ) (List ℕ × ℕ)
  -- the path of an open directory, and whether it has been listed
  pub open_dirs : HashMap (List ℕ) (List ℕ × Bool)
  pub root : List ℕ

-- `SftpHandler::new`
unfoldable pub new : List ℕ → SftpHandler
new root = record { next_handle = 0; open_files = []; open_dirs = []; root = root }

-- `self.next_handle += 1` wraps around in a release build.
unfoldable pub alloc_handle : SftpHandler → List ℕ × SftpHandler
alloc_handle h =
    (to_be_bytes h.next_handle, record h { next_handle = (h.next_handle + 1) % 2 ^ 32 })

unfoldable pub metadata_to_attrs : Metadata → FileAttrs
metadata_to_attrs meta =
    let flags = bit_or Sftp.attr_size Sftp.attr_permissions in
    record default_attrs {
      flags = bit_or flags Sftp.attr_uidgid;
      size = some meta.len;
      permissions = some meta.mode;
      uid = some meta.uid;
      gid = some meta.gid;
    }

-- `match r { Ok(a) => .., Err(_) => return .. }`; nothing that it is applied to panics.
unfoldable pub or_return {ℓ κ} : {A : Type ℓ} {B : Type κ} → SshResult A → B → (A → B) → B
or_return (ok a) answer go_on = go_on a
or_return (err e) answer go_on = answer
or_return panic answer go_on = answer

-- the same for what gives `None` or an error of the standard library
unfoldable pub else_return {ℓ κ} : {A : Type ℓ} {B : Type κ} → Option A → B → (A → B) → B
else_return (some a) answer go_on = go_on a
else_return none answer go_on = answer

-- `.unwrap_or_else(..)`
unfoldable pub unwrap_or {ℓ} : {A : Type ℓ} → Option A → A → A
unwrap_or (some a) b = a
unwrap_or none b = b

-- the path that the client's is resolved to, before the check
unfoldable pub requested_path : SftpHandler → List ℕ → List ℕ
requested_path h requested =
    if is_absolute requested
    then join_path h.root (without_slash requested)
    else join_path h.root requested

module _ (FS : FileSystem) where
  -- `canonicalize`, or the lexical normal form of a path that does not exist
  unfoldable pub canonical : FS.Disk → List ℕ → List ℕ
  canonical disk path = unwrap_or (FS.canonicalize disk path) (normalize_path path)

  unfoldable pub resolve_path : SftpHandler → FS.Disk → List ℕ → SshResult (List ℕ)
  resolve_path h disk requested =
      let resolved = canonical disk (requested_path h requested) in
      if starts_with resolved (canonical disk h.root)
      then ok resolved
      else err (sftp (msg "Access denied: path outside root"))
