-- ===== src/Connection/Messages.antt =====
-- The packet builders and parsers of src/connection/mod.rs.
pub mod RoundTrip
use swift_ssh.Prelude.{ℕ, Bool, List, [], ◌∷◌, ascii}
use swift_ssh.Error.{SshResult, ok, ◌>>=◌}
use swift_ssh.Packet.Types.{
  MessageType, channel_open, channel_open_confirmation, channel_open_failure, channel_data,
  channel_window_adjust, channel_eof, channel_close, channel_request,
}
use swift_ssh.Packet.Buf.{
  write_string, write_utf8, write_bool, write_u32, read_string, read_utf8, read_bool, read_u32,
}
use swift_ssh.Packet.Codec.{SshPacket, new}

unfoldable pub build_channel_open : List ℕ → ℕ → ℕ → ℕ → SshPacket
unfolding new
build_channel_open channel_type sender_channel initial_window max_packet =
    let p1 = write_utf8 [] channel_type in
    let p2 = write_u32 p1 sender_channel in
    let p3 = write_u32 p2 initial_window in let p4 = write_u32 p3 max_packet in new channel_open p4

unfoldable pub build_channel_open_confirmation : ℕ → ℕ → ℕ → ℕ → SshPacket
unfolding new
build_channel_open_confirmation recipient_channel sender_channel initial_window max_packet =
    let p1 = write_u32 [] recipient_channel in
    let p2 = write_u32 p1 sender_channel in
    let p3 = write_u32 p2 initial_window in
    let p4 = write_u32 p3 max_packet in new channel_open_confirmation p4

unfoldable pub build_channel_open_failure : ℕ → ℕ → List ℕ → SshPacket
unfolding new
build_channel_open_failure recipient_channel reason_code description =
    let p1 = write_u32 [] recipient_channel in
    let p2 = write_u32 p1 reason_code in
    let p3 = write_utf8 p2 description in
    let p4 = write_utf8 p3 (ascii "en") in new channel_open_failure p4

unfoldable pub build_channel_data : ℕ → List ℕ → SshPacket
unfolding new
build_channel_data recipient_channel bytes =
    let p1 = write_u32 [] recipient_channel in let p2 = write_string p1 bytes in new channel_data p2

unfoldable pub build_window_adjust : ℕ → ℕ → SshPacket
unfolding new
build_window_adjust recipient_channel bytes_to_add =
    let p1 = write_u32 [] recipient_channel in
    let p2 = write_u32 p1 bytes_to_add in new channel_window_adjust p2

unfoldable pub build_channel_eof : ℕ → SshPacket
unfolding new
build_channel_eof recipient_channel = let p1 = write_u32 [] recipient_channel in new channel_eof p1

unfoldable pub build_channel_close : ℕ → SshPacket
unfolding new
build_channel_close recipient_channel =
    let p1 = write_u32 [] recipient_channel in new channel_close p1

unfoldable pub build_exec_request : ℕ → List ℕ → Bool → SshPacket
unfolding new
build_exec_request recipient_channel command want_reply =
    let p1 = write_u32 [] recipient_channel in
    let p2 = write_utf8 p1 (ascii "exec") in
    let p3 = write_bool p2 want_reply in let p4 = write_utf8 p3 command in new channel_request p4

unfoldable pub build_shell_request : ℕ → Bool → SshPacket
unfolding new
build_shell_request recipient_channel want_reply =
    let p1 = write_u32 [] recipient_channel in
    let p2 = write_utf8 p1 (ascii "shell") in
    let p3 = write_bool p2 want_reply in new channel_request p3

unfoldable pub build_pty_request : ℕ → List ℕ → ℕ → ℕ → ℕ → ℕ → Bool → SshPacket
unfolding new
build_pty_request recipient_channel term width_cols height_rows width_px height_px want_reply =
    let p1 = write_u32 [] recipient_channel in
    let p2 = write_utf8 p1 (ascii "pty-req") in
    let p3 = write_bool p2 want_reply in
    let p4 = write_utf8 p3 term in
    let p5 = write_u32 p4 width_cols in
    let p6 = write_u32 p5 height_rows in
    let p7 = write_u32 p6 width_px in
    let p8 = write_u32 p7 height_px in let p9 = write_string p8 (0 ∷ []) in new channel_request p9

pub record ChannelOpenMsg : Type 0 where
  pub channel_type : List ℕ
  pub sender_channel : ℕ
  pub initial_window : ℕ
  pub max_packet : ℕ

-- `ChannelOpenMsg::parse`
unfoldable pub parse_open : List ℕ → SshResult ChannelOpenMsg
parse_open payload = do
  (channel_type, c1) ← read_utf8 payload
  (sender_channel, c2) ← read_u32 c1
  (initial_window, c3) ← read_u32 c2
  (max_packet, c4) ← read_u32 c3
  ok (record {
    channel_type = channel_type;
    sender_channel = sender_channel;
    initial_window = initial_window;
    max_packet = max_packet;
  })

pub record ChannelDataMsg : Type 0 where
  pub recipient_channel : ℕ
  pub bytes : List ℕ

-- `ChannelDataMsg::parse`
unfoldable pub parse_data : List ℕ → SshResult ChannelDataMsg
parse_data payload = do
  (recipient_channel, c1) ← read_u32 payload
  (bytes, c2) ← read_string c1
  ok (record { recipient_channel = recipient_channel; bytes = bytes })

pub record ChannelRequestMsg : Type 0 where
  pub recipient_channel : ℕ
  pub request_type : List ℕ
  pub want_reply : Bool
  pub bytes : List ℕ

-- `ChannelRequestMsg::parse`; `payload[pos..]` is what the cursor has not read
unfoldable pub parse_request : List ℕ → SshResult ChannelRequestMsg
parse_request payload = do
  (recipient_channel, c1) ← read_u32 payload
  (request_type, c2) ← read_utf8 c1
  (want_reply, c3) ← read_bool c2
  ok (record {
    recipient_channel = recipient_channel;
    request_type = request_type;
    want_reply = want_reply;
    bytes = c3;
  })
