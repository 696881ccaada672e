-- ===== src/Sftp/Handler/Moves.antt =====
-- What a request of the subsystem may do to the handler and to the disk, and how it is answered, as a
-- step relation. It is indexed by the request and the answer.
use swift_ssh.Prelude.{ℕ, ◌≡◌, ◌≢◌, ◌⊎◌, Bool, true, false, some, List, String}
use swift_ssh.Error.{ok}
use swift_ssh.HashMap.{bytes_key, get, insert, remove}
use swift_ssh.Sftp
use swift_ssh.Packet.Buf.{read_utf8, read_string, read_u32}
use swift_ssh.Sftp.Attrs.{has, read_u64_be}
use swift_ssh.Sftp.Messages.{SftpPacket, build_sftp_status, build_sftp_handle}
use swift_ssh.Sftp.FileSystem.{FileSystem}
use swift_ssh.Sftp.Handler.{SftpHandler, resolve_path}
use swift_ssh.Sftp.Handler.Dirs.{add_dir, list_dir}
use swift_ssh.Sftp.Handler.Files.{add_file}
use swift_ssh.Sftp.Handler.Answers.{IsAnswer}

-- The handler after a directory has been listed, and after a handle has been closed.
abbrev pub mark_listed : SftpHandler → List ℕ → List ℕ → SftpHandler
mark_listed h handle path = record h { open_dirs = insert handle (path, true) h.open_dirs }

abbrev pub without_handle : SftpHandler → List ℕ → SftpHandler
without_handle h handle = record h {
  open_files = remove handle h.open_files;
  open_dirs = remove handle h.open_dirs;
}

-- A path that the client names in a request of the type `kind`, and what it resolves to.
pub record Asked (FS : FileSystem) (h : SftpHandler) (disk : FS.Disk) (pkt : SftpPacket) (kind : ℕ)
    : Type 0 where
  pub requested : List ℕ
  pub rest : List ℕ
  pub path : List ℕ
  pub kind_is : pkt.packet_type ≡ kind
  pub names : read_utf8 pkt.payload ≡ ok (requested, rest)
  pub resolved : resolve_path FS h disk requested ≡ ok path

-- A handle that the client names in a request of the type `kind`.
pub record Named (pkt : SftpPacket) (kind : ℕ) : Type 0 where
  pub handle : List ℕ
  pub rest : List ℕ
  pub kind_is : pkt.packet_type ≡ kind
  pub names : read_string pkt.payload ≡ ok (handle, rest)

-- A WRITE through a handle that was opened with the flag WRITE.
pub record ToWrite (h : SftpHandler) (pkt : SftpPacket) : Type 0 where
  pub named : Named pkt Sftp.fxp_write
  pub offset : ℕ
  pub behind : List ℕ
  pub bytes : List ℕ
  pub rest : List ℕ
  pub path : List ℕ
  pub flags : ℕ
  pub at : read_u64_be named.rest ≡ some (offset, behind)
  pub sent : read_string behind ≡ ok (bytes, rest)
  pub opened : get named.handle h.open_files ≡ some (path, flags)
  pub allowed : has flags Sftp.fxf_write ≡ true

-- The requests that only ask.
abbrev pub IsQuery : ℕ → Type 0
IsQuery kind =
    (kind ≡ Sftp.fxp_realpath)
    ⊎ ((kind ≡ Sftp.fxp_stat) ⊎ ((kind ≡ Sftp.fxp_lstat) ⊎ (kind ≡ Sftp.fxp_read)))

-- A status that tells of an error.
pub record IsRefusal (pkt answer : SftpPacket) : Type 0 where
  pub code : ℕ
  pub text : String
  pub error : code ≢ Sftp.fx_ok
  pub status : answer ≡ build_sftp_status pkt.request_id code text

-- The status that tells how a call of the file system went.
abbrev pub reported : ℕ → Bool → String → SftpPacket
reported id true text = build_sftp_status id Sftp.fx_ok "OK"
reported id false text = build_sftp_status id Sftp.fx_failure text

-- What the request `pkt` with the answer `answer` does. What is opened, made or removed is what the
-- client's path resolves to, what is written is what the client sent, to the file of a handle that was
-- opened with the flag WRITE, and each only on a request of that type.
pub data Move (FS : FileSystem) (h : SftpHandler) (disk : FS.Disk) (pkt answer : SftpPacket)
    : SftpHandler → FS.Disk → Type 0 where
  query : IsQuery pkt.packet_type → Move FS h disk pkt answer h disk
  refuse : IsRefusal pkt answer → Move FS h disk pkt answer h disk
  open_dir :
      (q : Asked FS h disk pkt Sftp.fxp_opendir)
      → FS.is_dir disk q.path ≡ true
      → answer ≡ build_sftp_handle pkt.request_id (add_dir h q.path).0
      → Move FS h disk pkt answer (add_dir h q.path).1 disk
  open_file :
      (q : Asked FS h disk pkt Sftp.fxp_open) (flags : ℕ) (rest : List ℕ)
      → read_u32 q.rest ≡ ok (flags, rest)
      → answer ≡ build_sftp_handle pkt.request_id (add_file h q.path flags).0
      → Move FS h disk pkt answer (add_file h q.path flags).1 disk
  list :
      (q : Named pkt Sftp.fxp_readdir) (path : List ℕ)
      → get q.handle h.open_dirs ≡ some (path, false)
      → answer ≡ list_dir FS disk pkt.request_id path
      → Move FS h disk pkt answer (mark_listed h q.handle path) disk
  close :
      (q : Named pkt Sftp.fxp_close)
      → answer ≡ build_sftp_status pkt.request_id Sftp.fx_ok "OK"
      → Move FS h disk pkt answer (without_handle h q.handle) disk
  mkdir :
      (q : Asked FS h disk pkt Sftp.fxp_mkdir) (text : String)
      → answer ≡ reported pkt.request_id (FS.create_dir disk q.path).0 text
      → Move FS h disk pkt answer h (FS.create_dir disk q.path).1
  rmdir :
      (q : Asked FS h disk pkt Sftp.fxp_rmdir) (text : String)
      → answer ≡ reported pkt.request_id (FS.remove_dir disk q.path).0 text
      → Move FS h disk pkt answer h (FS.remove_dir disk q.path).1
  unlink :
      (q : Asked FS h disk pkt Sftp.fxp_remove) (text : String)
      → answer ≡ reported pkt.request_id (FS.remove_file disk q.path).0 text
      → Move FS h disk pkt answer h (FS.remove_file disk q.path).1
  open_only :
      (q : ToWrite h pkt)
      → IsRefusal pkt answer
      → Move FS h disk pkt answer h
          (FS.open_write disk (has q.flags Sftp.fxf_creat) (has q.flags Sftp.fxf_trunc) q.path).1
  write :
      (q : ToWrite h pkt) (f g : FS.File) (text : String)
      → (FS.open_write disk (has q.flags Sftp.fxf_creat) (has q.flags Sftp.fxf_trunc) q.path).0
        ≡ some f
      → FS.seek
          (FS.open_write disk (has q.flags Sftp.fxf_creat) (has q.flags Sftp.fxf_trunc) q.path).1
          f
          q.offset
        ≡ some g
      → answer
        ≡ reported pkt.request_id
            (FS.write_all
              (FS.open_write disk
                (has q.flags Sftp.fxf_creat)
                (has q.flags Sftp.fxf_trunc)
                q.path).1
              g
              q.bytes).0
            text
      → Move FS h disk pkt answer h
          (FS.write_all
            (FS.open_write disk (has q.flags Sftp.fxf_creat) (has q.flags Sftp.fxf_trunc) q.path).1
            g
            q.bytes).1

-- A response to the request, and a move of it.
abbrev pub Replies :
    (FS : FileSystem) (h : SftpHandler) (disk : FS.Disk) (pkt : SftpPacket)
    → SftpPacket × SftpHandler × FS.Disk
    → Type 0
Replies FS h disk pkt r = IsAnswer pkt.request_id r.0 × Move FS h disk pkt r.0 r.1 r.2
