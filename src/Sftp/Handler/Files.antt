-- ===== src/Sftp/Handler/Files.antt =====
-- The requests of `SftpHandler` on open files, of src/sftp/mod.rs.
use swift_ssh.Prelude.{ℕ, min, List, [], ◌∷◌, if◌then◌else◌}
use swift_ssh.HashMap.{bytes_key, get, insert, remove}
use swift_ssh.Packet.Buf.{read_string, read_utf8, read_u32}
use swift_ssh.Sftp
use swift_ssh.Sftp.Attrs.{has, read_u64_be}
use swift_ssh.Sftp.Messages.{SftpPacket, build_sftp_status, build_sftp_handle, build_sftp_data}
use swift_ssh.Sftp.FileSystem.{FileSystem}
use swift_ssh.Sftp.Handler.{SftpHandler, alloc_handle, or_return, else_return, resolve_path}

unfoldable pub handle_close : SftpHandler → SftpPacket → SftpPacket × SftpHandler
handle_close h pkt =
    or_return (read_string pkt.payload)
      (build_sftp_status pkt.request_id Sftp.fx_failure "Bad handle", h)
      λ (handle, _). (
        build_sftp_status pkt.request_id Sftp.fx_ok "OK",
        record h { open_files = remove handle h.open_files; open_dirs = remove handle h.open_dirs },
      )

-- a new entry of `open_files`
unfoldable pub add_file : SftpHandler → List ℕ → ℕ → List ℕ × SftpHandler
add_file h resolved flags =
    let (handle, h) = alloc_handle h in
    (handle, record h { open_files = insert handle (resolved, flags) h.open_files })

-- `Ok(0)` and `Ok(n)` of the read
unfoldable pub read_answer : ℕ → List ℕ → SftpPacket
read_answer request_id [] = build_sftp_status request_id Sftp.fx_eof "EOF"
read_answer request_id (b ∷ bytes) = build_sftp_data request_id (b ∷ bytes)

module _ (FS : FileSystem) where
  -- The attributes are read to no effect.
  unfoldable pub handle_open : SftpHandler → FS.Disk → SftpPacket → SftpPacket × SftpHandler
  handle_open h disk pkt =
      or_return (read_utf8 pkt.payload)
        (build_sftp_status pkt.request_id Sftp.fx_failure "Bad path", h)
        λ (path_str, c).
          or_return (read_u32 c) (build_sftp_status pkt.request_id Sftp.fx_failure "Bad flags", h)
            λ (flags, _).
              or_return (resolve_path FS h disk path_str)
                (build_sftp_status pkt.request_id Sftp.fx_no_such_file "Path error", h)
                λ resolved.
                  let (handle, h) = add_file h resolved flags in
                  (build_sftp_handle pkt.request_id handle, h)

  unfoldable pub read_file : FS.Disk → ℕ → List ℕ → ℕ → ℕ → SftpPacket
  read_file disk request_id path offset length =
      else_return (FS.open_read disk path)
        (build_sftp_status request_id Sftp.fx_no_such_file "Cannot open")
        λ file.
          else_return (FS.seek disk file offset)
            (build_sftp_status request_id Sftp.fx_failure "Seek failed")
            λ file.
              else_return (FS.read disk file (min length 32768))
                (build_sftp_status request_id Sftp.fx_failure "Read error")
                λ bytes. read_answer request_id bytes

  unfoldable pub handle_read : SftpHandler → FS.Disk → SftpPacket → SftpPacket
  handle_read h disk pkt =
      or_return (read_string pkt.payload)
        (build_sftp_status pkt.request_id Sftp.fx_failure "Bad handle")
        λ (handle, c).
          else_return (read_u64_be c)
            (build_sftp_status pkt.request_id Sftp.fx_failure "Bad offset")
            λ (offset, c).
              or_return (read_u32 c) (build_sftp_status pkt.request_id Sftp.fx_failure "Bad length")
                λ (length, _).
                  else_return (get handle h.open_files)
                    (build_sftp_status pkt.request_id Sftp.fx_failure "Invalid handle")
                    λ (path, _). read_file disk pkt.request_id path offset length

  -- what an open file is given, once it has been found
  unfoldable pub write_chunk : FS.Disk → ℕ → FS.File → ℕ → List ℕ → SftpPacket × FS.Disk
  write_chunk disk request_id file offset bytes =
      else_return (FS.seek disk file offset)
        (build_sftp_status request_id Sftp.fx_failure "Seek failed", disk)
        λ file.
          let (written, disk) = FS.write_all disk file bytes in
          if written
          then (build_sftp_status request_id Sftp.fx_ok "OK", disk)
          else (build_sftp_status request_id Sftp.fx_failure "Write error", disk)

  unfoldable pub write_file : FS.Disk → ℕ → List ℕ → ℕ → ℕ → List ℕ → SftpPacket × FS.Disk
  write_file disk request_id path flags offset bytes =
      if has flags Sftp.fxf_write
      then (let (opened, disk) =
            FS.open_write disk (has flags Sftp.fxf_creat) (has flags Sftp.fxf_trunc) path in
          else_return opened
            (build_sftp_status request_id Sftp.fx_permission_denied "Cannot open", disk)
            λ file. write_chunk disk request_id file offset bytes)
      else (build_sftp_status request_id Sftp.fx_permission_denied "Not opened for writing", disk)

  unfoldable pub handle_write : SftpHandler → FS.Disk → SftpPacket → SftpPacket × FS.Disk
  handle_write h disk pkt =
      or_return (read_string pkt.payload)
        (build_sftp_status pkt.request_id Sftp.fx_failure "Bad handle", disk)
        λ (handle, c).
          else_return (read_u64_be c)
            (build_sftp_status pkt.request_id Sftp.fx_failure "Bad offset", disk)
            λ (offset, c).
              or_return (read_string c)
                (build_sftp_status pkt.request_id Sftp.fx_failure "Bad data", disk)
                λ (bytes, _).
                  else_return (get handle h.open_files)
                    (build_sftp_status pkt.request_id Sftp.fx_failure "Invalid handle", disk)
                    λ (path, flags). write_file disk pkt.request_id path flags offset bytes
