-- ===== src/Server/Loop.antt =====
-- The channel loop of `handle_connection` in src/bin/server.rs. `fill n` are the random bytes of the
-- n-th packet that is sent in a round. A round gives the disk also when it ends with an error.
pub mod Requests
pub mod Run
pub mod Effects
pub mod Acts
pub mod Table
pub mod Ends
pub mod Sound
pub mod Replies
pub mod Executed
pub mod Numbers
pub mod Examples
use swift_ssh.Prelude.{
  String, ℕ, zero, suc, ◌+◌, Bool, true, false, ◌&&◌, Option, none, some, List, [], ◌∷◌, length,
  take, drop, ascii, bytes_eq, leb, ◌==◌, if◌then◌else◌,
}
use swift_ssh.Error.{SshResult, ok, err, panic, channel, msg, ok_or, ◌>>=◌}
use swift_ssh.Packet.Types.{MessageType, channel_success, channel_failure}
use swift_ssh.Packet.Buf.{write_u32}
use swift_ssh.Packet.Codec.{SshPacket, new}
use swift_ssh.Crypto.{Crates}
use swift_ssh.Transport.Io.{send_packet, first_u32}
use swift_ssh.Connection.Channel.{ChannelManager, Channel, find_by_remote_id}
use swift_ssh.Connection.Messages.{ChannelRequestMsg, build_channel_data}
use swift_ssh.Sftp.Messages
use swift_ssh.Sftp.Messages.{SftpPacket}
use swift_ssh.Sftp.Handler.{SftpHandler}
use swift_ssh.Server.{Link}

-- What the loop keeps: the connection, the table of channels, and the SFTP handler, which is one for
-- all of the channels.
pub record Conn (C : Type 0) : Type 0 where
  pub link : Link C
  pub channels : ChannelManager
  pub sftp_handler : SftpHandler

-- `find_by_remote_id(..).ok_or_else(..)?`, and the `remote_id` of what is found
unfoldable pub remote_of : ChannelManager → ℕ → SshResult ℕ
remote_of channels recipient = do
  ch ← ok_or (find_by_remote_id channels recipient) (channel (msg "Unknown channel"))
  ok ch.remote_id

-- CHANNEL_SUCCESS or CHANNEL_FAILURE
unfoldable pub reply_packet : MessageType → ℕ → SshPacket
reply_packet kind remote_id = new kind (write_u32 [] remote_id)

-- what decodes
abbrev pub decoded : SshResult SftpPacket → Option SftpPacket
decoded (ok pkt) = some pkt
decoded _ = none

-- The SFTP packet that the data of a channel start with, if they hold all of it.
unfoldable pub sftp_request : List ℕ → Option SftpPacket
sftp_request bytes =
    if leb 9 (length bytes)
    then (let sftp_len = first_u32 bytes in
        if leb (sftp_len + 4) (length bytes) && leb 5 sftp_len
        then decoded (Messages.decode (take sftp_len (drop 4 bytes)))
        else none)
    else none

module _ (crates : Crates) where
  open crates use {Cipher}

  unfoldable pub send : (ℕ → List ℕ) → SshPacket → Conn Cipher → SshResult (Conn Cipher)
  send fill pkt c = do
    (w, k) ← send_packet crates fill c.link.writer pkt c.link.keys
    ok (record c { link = record { reader = c.link.reader; writer = w; keys = k } })

  -- `if msg.want_reply`: the channel is looked up and answered.
  unfoldable pub reply_if_wanted :
      (ℕ → List ℕ) → MessageType → ChannelRequestMsg → Conn Cipher → SshResult (Conn Cipher)
  unfolding send
  reply_if_wanted fill kind m c =
      if m.want_reply
      then (do
        remote_id ← remote_of c.channels m.recipient_channel
        send fill (reply_packet kind remote_id) c)
      else ok c
