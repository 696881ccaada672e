-- ===== src/Sftp/Messages/Laws.antt =====
-- A packet of the subsystem is read as it was written.
use swift_ssh.Prelude.{
  ℕ, ◌+◌, ◌%◌, ◌^◌, ◌<◌, ◌≡◌, refl, ap, ◌∙◌, some, List, ◌∷◌, ◌++◌, length, drop, arith, Option,
  append_assoc,
}
use swift_ssh.Error.{ok}
use swift_ssh.Packet.Buf.{to_be_bytes, read_u32_be, write_u32, write_u8}
use swift_ssh.Packet.Buf.Laws.{read_u32_be-to_be_bytes}
use swift_ssh.Sftp.Messages.{SftpPacket, new_packet, encode, decode}

-- The bytes behind the length prefix.
unfoldable pub inner : SftpPacket → List ℕ
inner pkt = pkt.packet_type ∷ to_be_bytes pkt.request_id ++ pkt.payload

pub encode_lem :
    (pkt : SftpPacket)
    → encode pkt ≡ to_be_bytes ((1 + 4 + length pkt.payload) % 2 ^ 32) ++ inner pkt
unfolding encode inner write_u32 write_u8 to_be_bytes
encode_lem pkt = refl

pub decode-inner : (pkt : SftpPacket) → pkt.request_id < 2 ^ 32 → decode (inner pkt) ≡ ok pkt
unfolding decode inner to_be_bytes
decode-inner pkt h = ap (λ id. ok (new_packet pkt.packet_type id pkt.payload)) (omega arith)

drop-encode : (pkt : SftpPacket) → drop 4 (encode pkt) ≡ inner pkt
unfolding encode inner write_u32 write_u8 to_be_bytes
drop-encode pkt = refl

pub length-inner : (pkt : SftpPacket) → length (inner pkt) ≡ 5 + length pkt.payload
unfolding inner to_be_bytes
length-inner pkt = omega arith

-- The length prefix of an encoded packet, whose payload is below 2 ^ 32 - 5 bytes, tells how many
-- bytes of it are behind the prefix, and these are decoded to the packet.
pub decode-encode :
    (pkt : SftpPacket) (rest : List ℕ)
    → pkt.request_id < 2 ^ 32
    → length pkt.payload + 5 < 2 ^ 32
    → (read_u32_be (encode pkt ++ rest)
        ≡ some (length (drop 4 (encode pkt)), drop 4 (encode pkt) ++ rest))
      × (decode (drop 4 (encode pkt)) ≡ ok pkt)
decode-encode pkt rest hid hlen = rw drop-encode (
    (
      rw (encode_lem pkt, append_assoc) (prefix ∙ ap told (omega (arith, length-inner pkt))),
      decode-inner pkt hid,
    ))
  where
    told : ℕ → Option (ℕ × List ℕ)
    told n = some (n, inner pkt ++ rest)

    prefix :
        read_u32_be (to_be_bytes ((1 + 4 + length pkt.payload) % 2 ^ 32) ++ (inner pkt ++ rest))
        ≡ told ((1 + 4 + length pkt.payload) % 2 ^ 32)
    prefix = read_u32_be-to_be_bytes _ (inner pkt ++ rest) (omega arith)
