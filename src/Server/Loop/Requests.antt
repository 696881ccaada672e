-- ===== src/Server/Loop/Requests.antt =====
-- The messages of the channel loop in src/bin/server.rs.
use swift_ssh.Prelude.{ℕ, true, not, Option, none, some, List, ascii, bytes_eq, if◌then◌else◌}
use swift_ssh.Error.{SshResult, ok, err, panic, ◌>>=◌}
use swift_ssh.Packet.Types.{
  MessageType, channel_success, channel_failure, channel_open, channel_request, channel_data,
  channel_window_adjust, channel_eof, channel_close, default_window_size, default_max_packet_size,
}
use swift_ssh.Packet.Buf.{read_utf8, read_u32}
use swift_ssh.Crypto.{Crates}
use swift_ssh.Connection.Channel.{
  ChannelManager, Channel, accept_channel, find_by_remote_id, update_by_remote_id, saturating_add,
}
use swift_ssh.Connection.Messages.{
  ChannelRequestMsg, parse_open, parse_data, parse_request, build_channel_open_confirmation,
  build_channel_data, build_channel_eof, build_channel_close,
}
use swift_ssh.Sftp.Messages
use swift_ssh.Sftp.Messages.{SftpPacket}
use swift_ssh.Sftp.FileSystem.{FileSystem}
use swift_ssh.Sftp.Handler.Requests.{handle_request}
use swift_ssh.Server.Commands.{Output, execute_command}
use swift_ssh.Server.Loop.{Conn, remote_of, sftp_request, send, reply_if_wanted}

-- `if let Some(ch) = channels.find_by_remote_id_mut(recipient)`
unfoldable pub change_channel : ChannelManager → ℕ → (Channel → Channel) → ChannelManager
change_channel m recipient f = record m { channels = update_by_remote_id recipient f m.channels }

-- `ch.remote_window = ch.remote_window.saturating_add(bytes_to_add)`
unfoldable pub add_window : ℕ → Channel → Channel
add_window bytes_to_add ch = record ch {
  remote_window = saturating_add ch.remote_window bytes_to_add;
}

-- `ch.eof_received = true`
unfoldable pub mark_eof : Channel → Channel
mark_eof ch = record ch { eof_received = true }

module _ (crates : Crates) where
  open crates use {Cipher}

  -- CHANNEL_OPEN
  unfoldable pub on_open : (ℕ → ℕ → List ℕ) → Conn Cipher → List ℕ → SshResult (Conn Cipher)
  on_open fill c payload = do
    m ← parse_open payload
    let (local_id, channels) =
        accept_channel c.channels m.sender_channel m.channel_type m.initial_window m.max_packet
    send crates (fill 0)
        (build_channel_open_confirmation m.sender_channel local_id default_window_size
          default_max_packet_size)
        (record c { channels = channels })

  -- the answer to "exec": DATA, EOF and CLOSE behind SUCCESS
  unfoldable pub send_output :
      (ℕ → ℕ → List ℕ) → ChannelRequestMsg → List ℕ → Conn Cipher → SshResult (Conn Cipher)
  send_output fill m output c = do
    remote_id ← remote_of c.channels m.recipient_channel
    c ← reply_if_wanted crates (fill 0) channel_success m c
    c ← send crates (fill 1) (build_channel_data remote_id output) c
    c ← send crates (fill 2) (build_channel_eof remote_id) c
    send crates (fill 3) (build_channel_close remote_id) c

  -- "shell" and "pty-req"
  unfoldable pub on_granted :
      (ℕ → ℕ → List ℕ) → ChannelRequestMsg → Conn Cipher → SshResult (Conn Cipher)
  on_granted fill m c = reply_if_wanted crates (fill 0) channel_success m c

  unfoldable pub on_unknown :
      (ℕ → ℕ → List ℕ) → ChannelRequestMsg → Conn Cipher → SshResult (Conn Cipher)
  on_unknown fill m c = reply_if_wanted crates (fill 0) channel_failure m c

  unfoldable pub on_subsystem :
      (ℕ → ℕ → List ℕ) → ChannelRequestMsg → Conn Cipher → SshResult (Conn Cipher)
  on_subsystem fill m c = do
    (subsystem, _) ← read_utf8 m.bytes
    if bytes_eq subsystem (ascii "sftp")
        then reply_if_wanted crates (fill 0) channel_success m c
        else reply_if_wanted crates (fill 0) channel_failure m c

  -- CHANNEL_WINDOW_ADJUST
  unfoldable pub on_window_adjust : Conn Cipher → List ℕ → SshResult (Conn Cipher)
  unfolding change_channel add_window
  on_window_adjust c payload = do
    (recipient, rest) ← read_u32 payload
    (bytes_to_add, _) ← read_u32 rest
    ok (record c { channels = change_channel c.channels recipient (add_window bytes_to_add) })

  -- CHANNEL_EOF
  unfoldable pub on_eof : Conn Cipher → List ℕ → SshResult (Conn Cipher)
  unfolding change_channel mark_eof
  on_eof c payload = do
    (recipient, _) ← read_u32 payload
    ok (record c { channels = change_channel c.channels recipient mark_eof })

  -- a channel that is not closed is closed back
  unfoldable pub close_back :
      (ℕ → ℕ → List ℕ) → Option Channel → Conn Cipher → SshResult (Conn Cipher)
  close_back fill none c = ok c
  close_back fill (some ch) c =
      if not ch.closed then send crates (fill 0) (build_channel_close ch.remote_id) c else ok c

  -- CHANNEL_CLOSE
  unfoldable pub on_close : (ℕ → ℕ → List ℕ) → Conn Cipher → List ℕ → SshResult (Conn Cipher)
  on_close fill c payload = do
    (recipient, _) ← read_u32 payload
    close_back fill (find_by_remote_id c.channels recipient) c

  module _ (FS : FileSystem) (spawn : FS.Disk → List ℕ → List (List ℕ) → Output × FS.Disk) where
    -- what runs on the disk gives a connection, or an error, and the disk
    abbrev pub Outcome : Type 0
    Outcome = SshResult (Conn Cipher) × FS.Disk

    -- `?` in front of what needs the disk
    abbrev pub parsed {ℓ} : {A : Type ℓ} → SshResult A → FS.Disk → (A → Outcome) → Outcome
    parsed (ok m) disk go_on = go_on m
    parsed (err e) disk go_on = (err e, disk)
    parsed panic disk go_on = (panic, disk)

    -- "exec": the command runs before its channel is looked up.
    unfoldable pub on_exec : (ℕ → ℕ → List ℕ) → ChannelRequestMsg → Conn Cipher → FS.Disk → Outcome
    on_exec fill m c disk = parsed (read_utf8 m.bytes) disk λ (command, _).
        let (output, after) = execute_command spawn disk command in
        (send_output fill m output c, after)

    -- CHANNEL_REQUEST
    unfoldable pub dispatch_request :
        (ℕ → ℕ → List ℕ) → ChannelRequestMsg → Conn Cipher → FS.Disk → Outcome
    dispatch_request fill m c disk =
        if bytes_eq m.request_type (ascii "exec")
        then on_exec fill m c disk
        else if bytes_eq m.request_type (ascii "shell")
        then (on_granted fill m c, disk)
        else if bytes_eq m.request_type (ascii "subsystem")
        then (on_subsystem fill m c, disk)
        else if bytes_eq m.request_type (ascii "pty-req")
        then (on_granted fill m c, disk)
        else (on_unknown fill m c, disk)

    -- The request of an SFTP client: it is handled before its channel is looked up.
    unfoldable pub on_sftp :
        (ℕ → ℕ → List ℕ) → ℕ → Option SftpPacket → Conn Cipher → FS.Disk → Outcome
    on_sftp fill recipient none c disk = (ok c, disk)
    on_sftp fill recipient (some pkt) c disk =
        let (response, handler, after) = handle_request FS c.sftp_handler disk pkt in
        (
          remote_of c.channels recipient >>= λ remote_id.
              send crates (fill 0) (build_channel_data remote_id (Messages.encode response))
                (record c { sftp_handler = handler }),
          after,
        )

    -- One message of the client, all but DISCONNECT. IGNORE and what is not expected are dropped.
    unfoldable pub on_message :
        (ℕ → ℕ → List ℕ) → Option MessageType → Conn Cipher → FS.Disk → List ℕ → Outcome
    on_message fill (some channel_open) c disk payload = (on_open fill c payload, disk)
    on_message fill (some channel_request) c disk payload =
        parsed (parse_request payload) disk λ m. dispatch_request fill m c disk
    on_message fill (some channel_data) c disk payload =
        parsed (parse_data payload) disk
          λ m. on_sftp fill m.recipient_channel (sftp_request m.bytes) c disk
    on_message fill (some channel_window_adjust) c disk payload = (on_window_adjust c payload, disk)
    on_message fill (some channel_eof) c disk payload = (on_eof c payload, disk)
    on_message fill (some channel_close) c disk payload = (on_close fill c payload, disk)
    on_message fill _ c disk payload = (ok c, disk)
