-- ===== src/Client/Session/Opened.antt =====
-- The session channel that a client of src/bin/client.rs opens at a server of src/bin/server.rs.
use swift_ssh.Prelude.{ℕ, suc, ◌≡◌, refl, some, List, [], ◌++◌, append-nil, ascii, arith}
use swift_ssh.Error.{IoError, ok}
use swift_ssh.HashMap.{nat_key, get, insert}
use swift_ssh.Packet.Types.{as_u8, from_u8, default_window_size, default_max_packet_size}
use swift_ssh.Packet.Utf8.{is_utf8}
use swift_ssh.Packet.Buf.{
  read_u32, read_u32_be, read_exact, write_u32, write_string, write_utf8, to_be_bytes,
}
use swift_ssh.Packet.Codec.{SshPacket, new}
use swift_ssh.Crypto.{Crates}
use swift_ssh.Session.{SessionKeys}
use swift_ssh.Transport.Io.Cut.{IsPacket}
use swift_ssh.Transport.Io.Plain.{Room}
use swift_ssh.Transport.Io.Exchange.{Exchanged}
use swift_ssh.Connection.Channel
use swift_ssh.Connection.Channel.{
  ChannelManager, open_channel, accept_channel, get_channel, confirm_channel, with_channel, confirm,
  new_channel,
}
use swift_ssh.Connection.Messages.{build_channel_open, build_channel_open_confirmation, parse_open}
use swift_ssh.Connection.Messages.RoundTrip.{parse_open-build_channel_open}
use swift_ssh.Sftp.FileSystem.{FileSystem}
use swift_ssh.Sftp.Handler
use swift_ssh.Server.Commands.{Output}
use swift_ssh.Server.Loop.{send}
use swift_ssh.Server.Loop.Requests.{on_open, on_message}
use swift_ssh.Server.Loop.Run.{is_disconnect, on_packet, round, channel_loop}
use swift_ssh.Client.Session.{send_on, unwrap, recv_confirmation, read_confirmation, open_session}
use swift_ssh.Client.Session.Login.{link}

-- the first message of the session channel, as the client builds it
abbrev pub opening : SshPacket
opening = build_channel_open (ascii "session") 0 default_window_size default_max_packet_size

-- the server's answer to it
abbrev pub confirmation : SshPacket
confirmation = build_channel_open_confirmation 0 0 default_window_size default_max_packet_size

-- the server's table with the one channel
abbrev pub one_channel : ChannelManager
one_channel =
    (accept_channel Channel.new 0 (ascii "session") default_window_size default_max_packet_size).1

pub opening-IsPacket : IsPacket opening
unfolding build_channel_open new as_u8 write_u32 write_utf8 write_string to_be_bytes
opening-IsPacket = record { number = omega arith; bytes = omega arith }

pub opening-Room : Room opening
unfolding build_channel_open new write_u32 write_utf8 write_string to_be_bytes
opening-Room = omega arith

pub confirmation-IsPacket : IsPacket confirmation
unfolding build_channel_open_confirmation new as_u8 write_u32 to_be_bytes
confirmation-IsPacket = record { number = omega arith; bytes = omega arith }

pub confirmation-Room : Room confirmation
unfolding build_channel_open_confirmation new write_u32 to_be_bytes
confirmation-Room = omega arith

parsed_opening :
    parse_open opening.payload
    ≡ ok (record {
      channel_type = ascii "session";
      sender_channel = 0;
      initial_window = default_window_size;
      max_packet = default_max_packet_size;
    })
parsed_opening = rw (append-nil opening.payload) at (
    parse_open-build_channel_open (ascii "session") 0 default_window_size default_max_packet_size []
      (unfold is_utf8 in refl) (omega arith) (omega arith) (omega arith) (omega arith))

-- the client's channel, before the server's answer to it and after
abbrev asked_channel : Channel.Channel
asked_channel = new_channel 0 (ascii "session")

abbrev client_channel : Channel.Channel
client_channel = record asked_channel {
  remote_id = 0;
  remote_window = default_window_size;
  remote_max_packet = default_max_packet_size;
}

-- the client's table with the one channel
abbrev pub client_channels : ChannelManager
client_channels = record (open_channel Channel.new (ascii "session")).1 {
  channels = insert 0 client_channel (open_channel Channel.new (ascii "session")).1.channels;
}

asked_lem :
    get_channel
      (open_channel Channel.new (ascii "session")).1
      (open_channel Channel.new (ascii "session")).0
    ≡ some asked_channel
unfolding get_channel open_channel Channel.new get insert
asked_lem = refl

confirm_channel_lem :
    confirm_channel
      (open_channel Channel.new (ascii "session")).1
      (open_channel Channel.new (ascii "session")).0
      0
      default_window_size
      default_max_packet_size
    ≡ ok client_channels
unfolding confirm_channel with_channel confirm open_channel Channel.new get insert
confirm_channel_lem = refl

module _ (crates : Crates) (fc fs : ℕ → List ℕ) (sent_c sent_s rest : List ℕ) (e : IoError) where
  open crates use {Cipher}

  module _ (kc ks : SessionKeys Cipher)
      (x : Exchanged crates fc fs sent_c sent_s opening confirmation kc ks) where
    confirmed :
        read_confirmation crates confirmation.payload
        ≡ ok (0, default_window_size, default_max_packet_size)
    unfolding read_confirmation build_channel_open_confirmation new write_u32 to_be_bytes read_u32
        read_u32_be read_exact
    confirmed = refl

    pub open_session-opening :
        open_session crates fc Channel.new (link crates (x.wire_down ++ rest) e sent_c kc)
        ≡ ok (0, client_channels, link crates rest e (sent_c ++ x.wire_up) x.client)
    unfolding open_session send_on unwrap recv_confirmation new_channel
        build_channel_open_confirmation insert open_channel as_u8 Channel.new
    open_session-opening =
        rw (asked_lem, x.asks, x.learns rest e, confirmed, confirm_channel_lem) refl

    pub channel_loop-opening :
        (FS : FileSystem) (spawn : FS.Disk → List ℕ → List (List ℕ) → Output × FS.Disk) (fuel : ℕ)
        (random : ℕ → ℕ → ℕ → List ℕ) (disk : FS.Disk) (h : Handler.SftpHandler)
        → random fuel 0 ≡ fs
        → channel_loop crates FS spawn
            (suc fuel)
            random
            (record {
              link = link crates (x.wire_up ++ rest) e sent_s ks;
              channels = Channel.new;
              sftp_handler = h;
            })
            disk
          ≡ channel_loop crates FS spawn fuel random
              (record {
                link = link crates rest e (sent_s ++ x.wire_down) x.server;
                channels = one_channel;
                sftp_handler = h;
              })
              disk
    unfolding channel_loop round on_packet is_disconnect on_message on_open send new from_u8
        accept_channel build_channel_open insert Channel.new as_u8
    channel_loop-opening FS spawn fuel random disk h same =
        rw (x.hears rest e, parsed_opening, same, x.answers) refl
