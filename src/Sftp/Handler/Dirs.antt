-- ===== src/Sftp/Handler/Dirs.antt =====
-- The requests of `SftpHandler` on paths and directories, of src/sftp/mod.rs.
use swift_ssh.Prelude.{
  String, ℕ, Bool, true, false, Option, none, some, List, [], ◌∷◌, map, if◌then◌else◌,
}
use swift_ssh.HashMap.{bytes_key, get, insert}
use swift_ssh.Packet.Utf8.{to_string_lossy}
use swift_ssh.Packet.Buf.{read_string, read_utf8}
use swift_ssh.Sftp
use swift_ssh.Sftp.Attrs.{FileAttrs, default_attrs}
use swift_ssh.Sftp.Messages.{
  SftpPacket, build_sftp_status, build_sftp_handle, build_sftp_name, build_sftp_attrs,
}
use swift_ssh.Sftp.FileSystem.{Metadata, FileSystem}
use swift_ssh.Sftp.Handler.{
  SftpHandler, alloc_handle, metadata_to_attrs, or_return, else_return, resolve_path,
}

-- a new entry of `open_dirs`
unfoldable pub add_dir : SftpHandler → List ℕ → List ℕ × SftpHandler
add_dir h resolved =
    let (handle, h) = alloc_handle h in
    (handle, record h { open_dirs = insert handle (resolved, false) h.open_dirs })

-- an entry of a directory, as it is listed; `unwrap_or_default`
unfoldable pub listed : List ℕ × Option Metadata → List ℕ × FileAttrs
listed (name, none) = (to_string_lossy name, default_attrs)
listed (name, some meta) = (to_string_lossy name, metadata_to_attrs meta)

module _ (FS : FileSystem) where
  unfoldable pub handle_realpath : SftpHandler → FS.Disk → SftpPacket → SftpPacket
  handle_realpath h disk pkt =
      or_return (read_utf8 pkt.payload)
        (build_sftp_status pkt.request_id Sftp.fx_failure "Bad path")
        λ (path_str, _).
          or_return (resolve_path FS h disk path_str)
            (build_sftp_status pkt.request_id Sftp.fx_no_such_file "Not found")
            λ resolved.
              build_sftp_name pkt.request_id ((to_string_lossy resolved, default_attrs) ∷ [])

  unfoldable pub handle_stat : SftpHandler → FS.Disk → SftpPacket → SftpPacket
  handle_stat h disk pkt =
      or_return (read_utf8 pkt.payload)
        (build_sftp_status pkt.request_id Sftp.fx_failure "Bad path")
        λ (path_str, _).
          or_return (resolve_path FS h disk path_str)
            (build_sftp_status pkt.request_id Sftp.fx_no_such_file "Not found")
            λ resolved.
              else_return (FS.metadata disk resolved)
                (build_sftp_status pkt.request_id Sftp.fx_no_such_file "Not found")
                λ meta. build_sftp_attrs pkt.request_id (metadata_to_attrs meta)

  unfoldable pub handle_opendir : SftpHandler → FS.Disk → SftpPacket → SftpPacket × SftpHandler
  handle_opendir h disk pkt =
      or_return (read_utf8 pkt.payload)
        (build_sftp_status pkt.request_id Sftp.fx_failure "Bad path", h)
        λ (path_str, _).
          or_return (resolve_path FS h disk path_str)
            (build_sftp_status pkt.request_id Sftp.fx_no_such_file "Not found", h)
            λ resolved.
              if FS.is_dir disk resolved
              then (let (handle, h) = add_dir h resolved in
                  (build_sftp_handle pkt.request_id handle, h))
              else (build_sftp_status pkt.request_id Sftp.fx_no_such_file "Not a directory", h)

  unfoldable pub list_dir : FS.Disk → ℕ → List ℕ → SftpPacket
  list_dir disk request_id dir_path =
      else_return (FS.read_dir disk dir_path)
        (build_sftp_status request_id Sftp.fx_permission_denied "Cannot read dir")
        λ entries. build_sftp_name request_id (map listed entries)

  unfoldable pub handle_readdir : SftpHandler → FS.Disk → SftpPacket → SftpPacket × SftpHandler
  handle_readdir h disk pkt =
      or_return (read_string pkt.payload)
        (build_sftp_status pkt.request_id Sftp.fx_failure "Bad handle", h)
        λ (handle, _).
          else_return (get handle h.open_dirs)
            (build_sftp_status pkt.request_id Sftp.fx_failure "Invalid handle", h)
            λ (path, already_listed).
              if already_listed
              then (build_sftp_status pkt.request_id Sftp.fx_eof "End of directory", h)
              else (
                list_dir disk pkt.request_id path,
                record h { open_dirs = insert handle (path, true) h.open_dirs },
              )

  -- `Ok(())` is answered by the status OK, an error by the failure that the message tells.
  unfoldable pub done : ℕ → String → Bool × FS.Disk → SftpPacket × FS.Disk
  done request_id failed (true, disk) = (build_sftp_status request_id Sftp.fx_ok "OK", disk)
  done request_id failed (false, disk) = (build_sftp_status request_id Sftp.fx_failure failed, disk)

  unfoldable pub handle_mkdir : SftpHandler → FS.Disk → SftpPacket → SftpPacket × FS.Disk
  handle_mkdir h disk pkt =
      or_return (read_utf8 pkt.payload)
        (build_sftp_status pkt.request_id Sftp.fx_failure "Bad path", disk)
        λ (path_str, _).
          or_return (resolve_path FS h disk path_str)
            (build_sftp_status pkt.request_id Sftp.fx_permission_denied "Bad path", disk)
            λ resolved. done pkt.request_id "mkdir failed" (FS.create_dir disk resolved)

  unfoldable pub handle_rmdir : SftpHandler → FS.Disk → SftpPacket → SftpPacket × FS.Disk
  handle_rmdir h disk pkt =
      or_return (read_utf8 pkt.payload)
        (build_sftp_status pkt.request_id Sftp.fx_failure "Bad path", disk)
        λ (path_str, _).
          or_return (resolve_path FS h disk path_str)
            (build_sftp_status pkt.request_id Sftp.fx_permission_denied "Bad path", disk)
            λ resolved. done pkt.request_id "rmdir failed" (FS.remove_dir disk resolved)

  unfoldable pub handle_remove : SftpHandler → FS.Disk → SftpPacket → SftpPacket × FS.Disk
  handle_remove h disk pkt =
      or_return (read_utf8 pkt.payload)
        (build_sftp_status pkt.request_id Sftp.fx_failure "Bad path", disk)
        λ (path_str, _).
          or_return (resolve_path FS h disk path_str)
            (build_sftp_status pkt.request_id Sftp.fx_permission_denied "Bad path", disk)
            λ resolved. done pkt.request_id "remove failed" (FS.remove_file disk resolved)
