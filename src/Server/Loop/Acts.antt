-- ===== src/Server/Loop/Acts.antt =====
-- Every message of the channel loop in src/bin/server.rs does one of three things.
use swift_ssh.Prelude.{ℕ, refl, Option, none, some, List, ascii, bytes_eq}
use swift_ssh.Error.{SshResult, ok, err, panic}
use swift_ssh.Packet.Types.{
  MessageType, channel_success, channel_failure, channel_open, channel_request, channel_data,
  channel_window_adjust, channel_eof, channel_close,
}
use swift_ssh.Packet.Buf.{read_utf8}
use swift_ssh.Crypto.{Crates}
use swift_ssh.Connection.Messages.{ChannelRequestMsg, parse_data, parse_request}
use swift_ssh.Sftp.Messages.{SftpPacket}
use swift_ssh.Sftp.FileSystem.{FileSystem}
use swift_ssh.Sftp.Handler.Requests.{handle_request}
use swift_ssh.Prelude.{if-holds}
use swift_ssh.Server.Commands.{Output, execute_command}
use swift_ssh.Server.Loop.{Conn, remote_of, sftp_request}
use swift_ssh.Server.Loop.Requests.{
  on_granted, on_unknown, Outcome, parsed, on_exec, dispatch_request, on_sftp, on_message,
}
use swift_ssh.Server.Loop.Effects.{
  Change, Answered, Sent, Good, Good-Answered, bind-Good, send-Sent, reply-Sent, send_output-Sent,
  subsystem-Sent, close-Sent, window_adjust-Answered, eof-Answered, open-Answered,
}

module _ (crates : Crates) (FS : FileSystem)
    (spawn : FS.Disk → List ℕ → List (List ℕ) → Output × FS.Disk) where
  open crates use {Cipher}

  -- The disk is left alone, or a command has run on it, or the SFTP handler has.
  pub data Act (c : Conn Cipher) (disk : FS.Disk) : Outcome crates FS spawn → Type 0 where
    quiet : (r : SshResult (Conn Cipher)) → Good crates (Answered crates c) r → Act c disk (r, disk)
    ran :
        (r : SshResult (Conn Cipher)) (command : List ℕ)
        → Good crates (Answered crates c) r
        → Act c disk (r, (execute_command spawn disk command).1)
    served :
        (r : SshResult (Conn Cipher)) (pkt : SftpPacket)
        → Good crates
            (Sent crates
              (record c { sftp_handler = (handle_request FS c.sftp_handler disk pkt).1 }))
            r
        → Act c disk (r, (handle_request FS c.sftp_handler disk pkt).2)

  module _ (fill : ℕ → ℕ → List ℕ) (c : Conn Cipher) (disk : FS.Disk) where
    parsed-Act :
        {A : Type 0} (r : SshResult A) (go_on : A → Outcome crates FS spawn)
        → ((a : A) → Act c disk (go_on a))
        → Act c disk (parsed crates FS spawn r disk go_on)
    parsed-Act (ok a) go_on k = k a
    parsed-Act (err e) go_on k = Act.quiet (err e) tt
    parsed-Act panic go_on k = Act.quiet panic tt

    idle : Act c disk (ok c, disk)
    idle = Act.quiet (ok c) (record { reader = refl; handler = refl; change = Change.same })

    sent : (r : SshResult (Conn Cipher)) → Good crates (Sent crates c) r → Act c disk (r, disk)
    sent r s = Act.quiet r (Good-Answered crates c r s)

    exec-Act : (m : ChannelRequestMsg) → Act c disk (on_exec crates FS spawn fill m c disk)
    unfolding on_exec
    exec-Act m = parsed-Act (read_utf8 m.bytes) _ λ command. Act.ran _ command.0 (
        Good-Answered crates c _
          (send_output-Sent crates fill m (execute_command spawn disk command.0).0 c))

    request-Act :
        (m : ChannelRequestMsg) → Act c disk (dispatch_request crates FS spawn fill m c disk)
    unfolding dispatch_request on_granted on_unknown
    request-Act m =
        if-holds (Act c disk) (bytes_eq m.request_type (ascii "exec")) (λ _. exec-Act m)
          λ _.
            if-holds (Act c disk) (bytes_eq m.request_type (ascii "shell"))
              (λ _. sent _ (reply-Sent crates (fill 0) channel_success m c))
              λ _.
                if-holds (Act c disk) (bytes_eq m.request_type (ascii "subsystem"))
                  (λ _. sent _ (subsystem-Sent crates fill m c))
                  λ _.
                    if-holds (Act c disk) (bytes_eq m.request_type (ascii "pty-req"))
                      (λ _. sent _ (reply-Sent crates (fill 0) channel_success m c))
                      λ _. sent _ (reply-Sent crates (fill 0) channel_failure m c)

    sftp-Act :
        (recipient : ℕ) (request : Option SftpPacket)
        → Act c disk (on_sftp crates FS spawn fill recipient request c disk)
    unfolding on_sftp
    sftp-Act recipient none = idle
    sftp-Act recipient (some pkt) = Act.served _ pkt (
        bind-Good crates (Sent crates _) (remote_of c.channels recipient) _
          λ id _. send-Sent crates (fill 0) _ _)

    -- Whatever the client sends.
    pub on_message-Act :
        (kind : Option MessageType) (payload : List ℕ)
        → Act c disk (on_message crates FS spawn fill kind c disk payload)
    unfolding on_message
    on_message-Act (some channel_open) payload = Act.quiet _ (open-Answered crates fill c payload)
    on_message-Act (some channel_request) payload =
        parsed-Act (parse_request payload) _ λ m. request-Act m
    on_message-Act (some channel_data) payload =
        parsed-Act (parse_data payload) _ λ m. sftp-Act m.recipient_channel (sftp_request m.bytes)
    on_message-Act (some channel_window_adjust) payload =
        Act.quiet _ (window_adjust-Answered crates c payload)
    on_message-Act (some channel_eof) payload = Act.quiet _ (eof-Answered crates c payload)
    on_message-Act (some channel_close) payload = sent _ (close-Sent crates fill c payload)
    on_message-Act _ payload = idle
