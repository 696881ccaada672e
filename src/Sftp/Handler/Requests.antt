-- ===== src/Sftp/Handler/Requests.antt =====
-- `SftpHandler::handle_request` of src/sftp/mod.rs.
use swift_ssh.Prelude.{◌==◌, ◌||◌, if◌then◌else◌}
use swift_ssh.HashMap.{bytes_key}
use swift_ssh.Sftp
use swift_ssh.Sftp.Messages.{SftpPacket, build_sftp_status}
use swift_ssh.Sftp.FileSystem.{FileSystem}
use swift_ssh.Sftp.Handler.{SftpHandler}
use swift_ssh.Sftp.Handler.Dirs.{
  handle_realpath, handle_stat, handle_opendir, handle_readdir, handle_mkdir, handle_rmdir,
  handle_remove,
}
use swift_ssh.Sftp.Handler.Files.{handle_close, handle_open, handle_read, handle_write}

module _ (FS : FileSystem) where
  -- a response of a method that changes nothing, the handler, or the disk
  abbrev only_answer : SftpHandler → FS.Disk → SftpPacket → SftpPacket × SftpHandler × FS.Disk
  only_answer h disk answer = (answer, h, disk)

  abbrev with_handler : FS.Disk → SftpPacket × SftpHandler → SftpPacket × SftpHandler × FS.Disk
  with_handler disk (answer, h) = (answer, h, disk)

  abbrev with_disk : SftpHandler → SftpPacket × FS.Disk → SftpPacket × SftpHandler × FS.Disk
  with_disk h (answer, disk) = (answer, h, disk)

  unfoldable pub handle_request :
      SftpHandler → FS.Disk → SftpPacket → SftpPacket × SftpHandler × FS.Disk
  handle_request h disk pkt =
      if pkt.packet_type == Sftp.fxp_realpath
      then only_answer h disk (handle_realpath FS h disk pkt)
      else if pkt.packet_type == Sftp.fxp_stat || pkt.packet_type == Sftp.fxp_lstat
      then only_answer h disk (handle_stat FS h disk pkt)
      else if pkt.packet_type == Sftp.fxp_opendir
      then with_handler disk (handle_opendir FS h disk pkt)
      else if pkt.packet_type == Sftp.fxp_readdir
      then with_handler disk (handle_readdir FS h disk pkt)
      else if pkt.packet_type == Sftp.fxp_close
      then with_handler disk (handle_close h pkt)
      else if pkt.packet_type == Sftp.fxp_open
      then with_handler disk (handle_open FS h disk pkt)
      else if pkt.packet_type == Sftp.fxp_read
      then only_answer h disk (handle_read FS h disk pkt)
      else if pkt.packet_type == Sftp.fxp_write
      then with_disk h (handle_write FS h disk pkt)
      else if pkt.packet_type == Sftp.fxp_mkdir
      then with_disk h (handle_mkdir FS h disk pkt)
      else if pkt.packet_type == Sftp.fxp_rmdir
      then with_disk h (handle_rmdir FS h disk pkt)
      else if pkt.packet_type == Sftp.fxp_remove
      then with_disk h (handle_remove FS h disk pkt)
      else only_answer h disk
          (build_sftp_status pkt.request_id Sftp.fx_op_unsupported "Unsupported operation")
