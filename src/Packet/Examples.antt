-- ===== src/Packet/Examples.antt =====
-- The packet theorems at small inputs.
use swift_ssh.Prelude.{
  ℕ, zero, suc, ◌+◌, ◌-◌, ◌%◌, ◌≤◌, ◌<◌, max, ◌≡◌, ◌↔◌, refl, List, [], ◌∷◌, ◌++◌, length,
  replicate, some, ascii, arith,
}
use swift_ssh.Error.{ok}
use swift_ssh.Packet.Types.{debug, as_u8, from_u8, max_packet_size}
use swift_ssh.Packet.Utf8.{is_utf8}
use swift_ssh.Packet.Numbers.{from_u8_iff}
use swift_ssh.Packet.Buf.{
  write_u8, write_u32, to_be_bytes, join, write_name_list, read_name_list, write_mpint, read_mpint,
}
use swift_ssh.Packet.Buf.Names.{read_name_list-write_name_list}
use swift_ssh.Packet.Buf.Mpint.{IsShortest, be_value, read_mpint-write_mpint}
use swift_ssh.Packet.Codec.{SshPacket, padding_len, serialize, deserialize}
use swift_ssh.Packet.Codec.Shape.{serialize_shape}
use swift_ssh.Packet.Codec.RoundTrip.{deserialize-serialize}
use swift_ssh.Packet.Codec.Frames.{Answers, IsFramed, deserialize-IsFramed}

abbrev pub zeros : ℕ → List ℕ
zeros n = replicate n 0

pub length-zeros : (n : ℕ) → length (zeros n) ≡ n
length-zeros zero = refl
length-zeros (suc n) = omega (arith, length-zeros n)

-- a packet of the debug message with three bytes
abbrev pub small_packet : SshPacket
small_packet = record { msg_type = 4; payload = 1 ∷ 2 ∷ 3 ∷ [] }

abbrev small_wire : List ℕ
small_wire = 0 ∷ 0 ∷ 0 ∷ 16 ∷ 11 ∷ 4 ∷ 1 ∷ 2 ∷ 3 ∷ zeros 11

small_wire_written : serialize zeros 8 small_packet ≡ ok small_wire
unfolding serialize padding_len write_u8 write_u32 to_be_bytes
small_wire_written = refl

from_u8_iff_example : (from_u8 4 ≡ some debug) ↔ (as_u8 debug ≡ 4)
from_u8_iff_example = from_u8_iff 4 debug

serialize_shape_example :
    ((length small_wire - 4) % max 8 8 ≡ 0)
    × (length small_wire ≤ 4 + max_packet_size)
    × (length small_packet.payload + 10 ≤ length small_wire)
    × (length small_wire < length small_packet.payload + 10 + max 8 8)
serialize_shape_example =
    serialize_shape zeros 8 small_packet small_wire length-zeros small_wire_written

deserialize-serialize_example : deserialize (small_wire ++ (9 ∷ [])) ≡ ok small_packet
deserialize-serialize_example =
    deserialize-serialize zeros 8 small_packet small_wire (9 ∷ []) length-zeros (omega arith)
      small_wire_written

deserialize-IsFramed_example :
    Answers small_wire (deserialize small_wire)
    × ((p : SshPacket) → (deserialize small_wire ≡ ok p) ↔ IsFramed small_wire p)
deserialize-IsFramed_example = deserialize-IsFramed small_wire

read_name_list-write_name_list_example :
    read_name_list (write_name_list [] (ascii "none" ∷ ascii "zlib" ∷ []) ++ (7 ∷ []))
    ≡ ok (ascii "none" ∷ ascii "zlib" ∷ [], 7 ∷ [])
unfolding is_utf8 join
read_name_list-write_name_list_example =
    read_name_list-write_name_list (ascii "none" ∷ ascii "zlib" ∷ []) (7 ∷ [])
      (omega arith, (omega arith, tt)) (refl, (refl, tt)) (omega arith) (λ e. cc)

read_mpint-write_mpint_example :
    (m : List ℕ) × (read_mpint (write_mpint [] (0 ∷ 200 ∷ 1 ∷ []) ++ (7 ∷ [])) ≡ ok (m, 7 ∷ []))
    × IsShortest m
    × (be_value 0 m ≡ be_value 0 (0 ∷ 200 ∷ 1 ∷ []))
read_mpint-write_mpint_example =
    read_mpint-write_mpint (0 ∷ 200 ∷ 1 ∷ []) (7 ∷ []) (omega arith) (omega arith)
