-- ===== src/Packet/Codec.antt =====
-- `SshPacket` of src/packet/codec.rs: the binary packet before encryption and without its MAC.
-- The random padding comes from `fill`: the bytes that `fill_bytes` puts into a buffer of that size.
pub mod Shape
pub mod RoundTrip
pub mod Frames
use swift_ssh.Prelude.{
  ℕ, ◌+◌, ◌-◌, ◌%◌, ◌^◌, max, Bool, List, [], ◌++◌, length, ltb, leb, ◌==◌, if◌then◌else◌,
}
use swift_ssh.Error.{
  SshResult, ok, err, panic, io, unexpected_eof, invalid_packet, msg, msg_num, ok_or, ◌>>=◌,
}
use swift_ssh.Packet.Types.{MessageType, as_u8, max_packet_size, min_padding}
use swift_ssh.Packet.Buf.{read_u32_be, read_u8, read_exact, write_u32, write_u8}

pub record SshPacket : Type 0 where
  pub msg_type : ℕ
  pub payload : List ℕ

-- `SshPacket::new`
unfoldable pub new : MessageType → List ℕ → SshPacket
new msg_type payload = record { msg_type = as_u8 msg_type; payload = payload }

-- The padding of a packet whose length would be `min_packet_len` with the least padding.
unfoldable pub padding_len : ℕ → ℕ → ℕ
padding_len block_size min_packet_len =
    let remainder = min_packet_len % block_size in
    if remainder == 0 then min_padding else min_padding + (block_size - remainder)

unfoldable pub serialize : (ℕ → List ℕ) → ℕ → SshPacket → SshResult (List ℕ)
serialize fill block_size' p =
    let block_size = max block_size' 8 in
    let payload_len = 1 + length p.payload in
    let padding = padding_len block_size (1 + payload_len + min_padding) in
    let packet_length = 1 + payload_len + padding in
    if ltb max_packet_size packet_length
    then err (invalid_packet (msg_num "Packet too large: {} bytes" packet_length))
    else ok (
        write_u8 (write_u8 (write_u32 [] (packet_length % 2 ^ 32)) (padding % 256)) p.msg_type
        ++ (p.payload ++ fill padding))

-- A difference of type usize that becomes the size of a `Vec`: below zero the subtraction aborts in a
-- debug build, and in a release build wraps around to a size that `vec!` panics at.
abbrev pub vec_size : ℕ → ℕ → SshResult ℕ
vec_size a b = if ltb a b then panic else ok (a - b)

-- behind the checks of the lengths: `read_u8` of the message number, and the rest of the payload
read_payload : ℕ → List ℕ → SshResult SshPacket
read_payload payload_length c = do
  (msg_type, c') ← ok_or (read_u8 c) (io unexpected_eof)
  size ← vec_size payload_length 1
  (payload, c'') ← ok_or (read_exact size c') (io unexpected_eof)
  ok (record { msg_type = msg_type; payload = payload })

-- behind the check that the packet is there
pub read_padded : ℕ → List ℕ → SshResult SshPacket
unfolding read_payload
read_padded packet_length c = do
  (padding_length, c') ← ok_or (read_u8 c) (io unexpected_eof)
  if leb packet_length padding_length
      then err (invalid_packet (msg "Invalid padding length"))
      else do
        payload_length ← vec_size packet_length (1 + padding_length)
        if payload_length == 0
            then err (invalid_packet (msg "Empty payload"))
            else read_payload payload_length c'

unfoldable pub deserialize : List ℕ → SshResult SshPacket
unfolding read_padded
deserialize bytes =
    if ltb (length bytes) 6 then err (invalid_packet (msg "Packet too short")) else do
      (packet_length, c) ← ok_or (read_u32_be bytes) (io unexpected_eof)
      if ltb max_packet_size packet_length
          then err (invalid_packet (msg_num "Packet length too large: {}" packet_length))
          else if ltb (length bytes) (4 + packet_length)
          then err (invalid_packet (msg "Incomplete packet data"))
          else read_padded packet_length c
