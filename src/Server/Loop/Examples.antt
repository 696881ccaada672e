-- ===== src/Server/Loop/Examples.antt =====
-- The theorems on the channel loop at small inputs.
use swift_ssh.Prelude.{
  ℕ, suc, ◌+◌, ◌≡◌, ◌≢◌, refl, true, Option, none, some, List, [], ◌∷◌, ◌++◌, length, ascii, arith,
}
use swift_ssh.Error.{ok, err, channel, msg, unexpected_eof, connection_closed}
use swift_ssh.HashMap.{insert, find_value}
use swift_ssh.Packet.Types.{as_u8, from_u8}
use swift_ssh.Packet.Utf8.{is_utf8, to_string_lossy}
use swift_ssh.Packet.Codec.{new, padding_len, deserialize, serialize}
use swift_ssh.Packet.Codec.Shape.{framed, padding_of, block, packet_length_of}
use swift_ssh.Packet.Buf.{
  to_be_bytes, write_utf8, write_string, read_exact, read_string, read_u32, read_u32_be, read_u8,
  read_utf8, write_u32, write_u8,
}
use swift_ssh.Packet.Examples.{zeros}
use swift_ssh.Crypto.{apply, compute_hmac, verify_hmac}
use swift_ssh.Crypto.Examples.{toy, toy_stream, toy_mac}
use swift_ssh.Session.{is_encrypted, next_recv_seq, next_send_seq}
use swift_ssh.Transport.Io.{
  recv_packet, block_size_of, first_u32, decrypt_with, remaining_of, check_mac, encrypt_with,
  packet_mac, read_rest, send_packet, write_mac, write_u32_be,
}
use swift_ssh.Transport.Io.Receive.{reader}
use swift_ssh.Transport.Io.Cut.{IsPacket}
use swift_ssh.Transport.Io.Plain.{Room}
use swift_ssh.Transport.Examples.{keys, keys-Synced, zeros-IsFill}
use swift_ssh.Transport.Stream.{read_or, closed_or_io, flush, io_error, take_exact, write_all}
use swift_ssh.Connection.Channel
use swift_ssh.Connection.Channel.{
  Channel, ChannelManager, new_channel, accept_channel, find_by_remote_id,
}
use swift_ssh.Connection.Messages.{
  build_channel_open, build_channel_data, parse_open, build_channel_open_confirmation,
}
use swift_ssh.Sftp
use swift_ssh.Sftp.Messages.{SftpPacket, build_sftp_status, new_packet}
use swift_ssh.Sftp.Handler
use swift_ssh.Sftp.Handler.Requests.{handle_request}
use swift_ssh.Sftp.FileSystem.Toy.{Tree, toy_files, toy_files-IsLawful}
use swift_ssh.Sftp.Examples.{disk, srv, base, Kept, Elsewhere, kept, disk-Kept}
use swift_ssh.Server.{Link}
use swift_ssh.Server.Examples.{keys_at}
use swift_ssh.Server.Commands.{
  Output, streams, execute_command, run_parts, split_whitespace, output_text,
}
use swift_ssh.Server.Connection.{fresh}
use swift_ssh.Server.Loop.{Conn, send, remote_of, sftp_request}
use swift_ssh.Server.Loop.Requests.{Outcome, on_message, on_open}
use swift_ssh.Server.Loop.Run.{is_disconnect, on_packet, round, channel_loop}
use swift_ssh.Server.Loop.Ends.{channel_loop_ends}
use swift_ssh.Server.Loop.Sound.{Left, channel_loop_sound}
use swift_ssh.Server.Loop.Executed.{Executed, exec-Executed}
use swift_ssh.Server.Loop.Numbers.{accept_channel-remote_of, init_unsupported}

-- A command that prints two letters.
abbrev prints : Tree → List ℕ → List (List ℕ) → Output × Tree
prints t program args = (streams (ascii "hi") [], t)

abbrev fills : ℕ → ℕ → ℕ → List ℕ
fills a b = zeros

-- The client opens a channel, and closes the connection.
abbrev link : Link ℕ
link = record {
  reader = reader (framed zeros 8 (build_channel_open (ascii "session") 5 100 200)) unexpected_eof;
  writer = record { sent = []; up = true };
  keys = keys_at 0 0;
}

channel_loop_ends_example :
    channel_loop toy toy_files prints
      (suc (length link.reader.pending))
      fills
      (fresh toy toy_files prints srv link)
      disk
    ≢ none
channel_loop_ends_example =
    channel_loop_ends toy toy_files prints (suc (length link.reader.pending)) fills
      (fresh toy toy_files prints srv link) disk (omega arith)

-- how it ends
abbrev end_of : Option (Outcome toy toy_files prints) → Outcome toy toy_files prints
end_of (some o) = o
end_of none = (err connection_closed, disk)

abbrev new_conn : Conn ℕ
new_conn = record { link = link; channels = Channel.new; sftp_handler = Handler.new srv }

abbrev end : Outcome toy toy_files prints
end = end_of (channel_loop toy toy_files prints 3 fills new_conn disk)

ended : channel_loop toy toy_files prints 3 fills new_conn disk ≡ some end
unfolding channel_loop round on_packet is_disconnect from_u8 on_message on_open parse_open send
    accept_channel new_channel build_channel_open_confirmation build_channel_open insert framed
    padding_of block packet_length_of to_be_bytes write_utf8 write_string write_u32 write_u8
    padding_len deserialize new serialize as_u8 is_utf8 is_encrypted next_recv_seq next_send_seq
    read_utf8 read_u32 read_exact read_string read_u32_be apply compute_hmac verify_hmac recv_packet
    block_size_of first_u32 decrypt_with remaining_of check_mac encrypt_with packet_mac read_rest
    send_packet write_mac write_u32_be read_or closed_or_io flush io_error take_exact write_all
    Channel.new Handler.new read_u8
ended = refl

channel_loop_sound_example :
    Left toy toy_files prints toy_files-IsLawful base srv Kept Elsewhere kept
      (λ t program args k. k)
      end
channel_loop_sound_example =
    channel_loop_sound toy toy_files prints toy_files-IsLawful base srv Kept Elsewhere kept
      (λ t program args k. k) 3 fills link disk end (omega arith) disk-Kept ended

abbrev accepted : ChannelManager
accepted = (accept_channel Channel.new 5 (ascii "session") 100 200).1

abbrev with_session : Conn ℕ
with_session = record new_conn { channels = accepted }

abbrev session : Channel
session = record (new_channel 0 (ascii "session")) {
  remote_id = 5;
  remote_window = 100;
  remote_max_packet = 200;
}

known : find_by_remote_id accepted 5 ≡ some session
unfolding find_by_remote_id find_value accept_channel insert Channel.new
known = refl

ls_output : (execute_command prints disk (ascii "ls")).0 ≡ ascii "hi"
unfolding execute_command run_parts split_whitespace output_text to_string_lossy
ls_output = refl

hi-IsPacket : IsPacket (build_channel_data 5 (ascii "hi"))
unfolding build_channel_data new as_u8 write_u32 write_string to_be_bytes
hi-IsPacket = record { number = omega arith; bytes = omega arith }

hi-Room : Room (build_channel_data 5 (ascii "hi"))
unfolding build_channel_data new write_u32 write_string to_be_bytes
hi-Room = omega arith

exec-Executed_example :
    Executed toy toy_files prints
      (fills 0)
      (reader [] unexpected_eof)
      []
      keys
      keys
      accepted
      (Handler.new srv)
      disk
      5
      (ascii "ls")
      true
exec-Executed_example =
    exec-Executed toy toy_files prints toy_stream toy_mac (fills 0) (reader [] unexpected_eof) []
      keys keys accepted (Handler.new srv) disk 5 (ascii "ls") true session (λ n. zeros-IsFill)
      (omega arith) (unfold is_utf8 in refl) (omega arith) known (rw ls_output hi-IsPacket)
      (rw ls_output hi-Room) keys-Synced keys-Synced

told_zero : 5 ≢ (accept_channel Channel.new 5 (ascii "session") 100 200).0
unfolding accept_channel Channel.new
told_zero = λ e. absurd (omega arith)

none_yet :
    find_by_remote_id Channel.new (accept_channel Channel.new 5 (ascii "session") 100 200).0 ≡ none
unfolding find_by_remote_id find_value Channel.new
none_yet = refl

accept_channel-remote_of_example :
    (remote_of (accept_channel Channel.new 5 (ascii "session") 100 200).1 5 ≡ ok 5)
    × (remote_of
          (accept_channel Channel.new 5 (ascii "session") 100 200).1
          (accept_channel Channel.new 5 (ascii "session") 100 200).0
        ≡ err (channel (msg "Unknown channel")))
accept_channel-remote_of_example =
    accept_channel-remote_of Channel.new 5 (ascii "session") 100 200 told_zero none_yet

init_unsupported_example :
    (sftp_request (
        (to_be_bytes (length (ascii "x") + 5) ++ (Sftp.fxp_init ∷ to_be_bytes 6 ++ ascii "x"))
        ++ (1 ∷ []))
      ≡ some (new_packet Sftp.fxp_init 6 (ascii "x")))
    × (handle_request toy_files (Handler.new srv) disk (new_packet Sftp.fxp_init 6 (ascii "x")) ≡ (
      build_sftp_status 6 Sftp.fx_op_unsupported "Unsupported operation",
      Handler.new srv,
      disk,
    ))
    × ((pkt : SftpPacket)
        → (handle_request toy_files (Handler.new srv) disk pkt).0.packet_type ≢ Sftp.fxp_version)
init_unsupported_example =
    init_unsupported toy_files (Handler.new srv) disk 6 (ascii "x") (1 ∷ []) (omega arith)
      (omega arith)
