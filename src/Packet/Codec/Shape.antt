-- ===== src/Packet/Codec/Shape.antt =====
-- The size of what `serialize` writes, and when it refuses.
use swift_ssh.Prelude.{
  ℕ, ◌+◌, ◌-◌, ◌%◌, ◌^◌, ◌≤◌, ◌<◌, max, ◌≡◌, refl, sym, ap, ◌∙◌, List, [], ◌∷◌, ◌++◌, append_assoc,
  length, length-append, ltb, arith, lt→ltb, ge→ltb, ltb→lt, ltb_false→le, Bool-cases, inl, inr,
}
use swift_ssh.Error.{ok, err, invalid_packet, msg_num}
use swift_ssh.Packet.Types.{max_packet_size, min_padding}
use swift_ssh.Packet.Buf.{to_be_bytes, write_u32, write_u8}
use swift_ssh.Packet.Buf.Laws.{length-to_be_bytes}
use swift_ssh.Packet.Codec.{SshPacket, padding_len, serialize}
use native.Mathlib.Nat.{mod-lt, mod-add-mod, mod_self}

-- The block size that is used, the padding, and the packet length field.
unfoldable pub block : ℕ → ℕ
block block_size = max block_size 8

unfoldable pub padding_of : ℕ → SshPacket → ℕ
padding_of block_size p = padding_len (block block_size) (1 + (1 + length p.payload) + min_padding)

unfoldable pub packet_length_of : ℕ → SshPacket → ℕ
packet_length_of block_size p = 1 + (1 + length p.payload) + padding_of block_size p

pub padding_len_bounds : (b m : ℕ) → 0 < b → (4 ≤ padding_len b m) × (padding_len b m < 4 + b)
unfolding padding_len
padding_len_bounds b m h = ground (arith, mod-lt m h)

mod_fill : (b m : ℕ) → 0 < b → (m + (b - m % b)) % b ≡ 0
mod_fill b m h = sym (mod-add-mod m b (b - m % b)) ∙ ap (λ (n : ℕ). n % b) whole ∙ mod_self b
  where
    whole : m % b + (b - m % b) ≡ b
    whole = omega (arith, mod-lt m h)

-- The least length with the padding above the minimum is a multiple of the block.
pub padding_len_aligned : (b m : ℕ) → 0 < b → (m + (padding_len b m - 4)) % b ≡ 0
unfolding padding_len
padding_len_aligned b m h = ground (arith, mod_fill b m h)

pub padding_of_bounds :
    (bs : ℕ) (p : SshPacket) → (4 ≤ padding_of bs p) × (padding_of bs p < 4 + block bs)
unfolding padding_of block
padding_of_bounds bs p = padding_len_bounds (max bs 8) _ (omega arith)

-- The packet length in the code's least length and the padding above the minimum.
least : SshPacket → ℕ
least p = 1 + (1 + length p.payload) + min_padding

whole : (bs : ℕ) (p : SshPacket) → packet_length_of bs p ≡ least p + (padding_of bs p - 4)
unfolding packet_length_of least
whole bs p = omega (arith, padding_of_bounds bs p)

aligned : (bs : ℕ) (p : SshPacket) → (least p + (padding_of bs p - 4)) % block bs ≡ 0
unfolding padding_of block least
aligned bs p = padding_len_aligned (max bs 8) _ (omega arith)

pub packet_length_aligned : (bs : ℕ) (p : SshPacket) → packet_length_of bs p % block bs ≡ 0
packet_length_aligned bs p = rw (whole bs p) (aligned bs p)

-- What `serialize` writes: the length, the padding length, the message number, payload, padding.
unfoldable pub framed : (ℕ → List ℕ) → ℕ → SshPacket → List ℕ
framed fill bs p =
    to_be_bytes (packet_length_of bs p)
    ++ ((padding_of bs p % 256) ∷ p.msg_type ∷ (p.payload ++ fill (padding_of bs p)))

framed_lem :
    (fill : ℕ → List ℕ) (bs : ℕ) (p : SshPacket)
    → packet_length_of bs p ≤ max_packet_size
    → write_u8
          (write_u8 (write_u32 [] (packet_length_of bs p % 2 ^ 32)) (padding_of bs p % 256))
          p.msg_type
        ++ (p.payload ++ fill (padding_of bs p))
      ≡ framed fill bs p
unfolding framed write_u8 write_u32
framed_lem fill bs p h = rw small (simp append_assoc)
  where
    small : packet_length_of bs p % 2 ^ 32 ≡ packet_length_of bs p
    small = omega arith

pub serialize_ok :
    (fill : ℕ → List ℕ) (bs : ℕ) (p : SshPacket)
    → packet_length_of bs p ≤ max_packet_size
    → serialize fill bs p ≡ ok (framed fill bs p)
serialize_ok fill bs p h =
    rw (← framed_lem fill bs p h)
      (unfold serialize packet_length_of padding_of block in rw (ge→ltb _ _ h))

pub serialize_err :
    (fill : ℕ → List ℕ) (bs : ℕ) (p : SshPacket)
    → max_packet_size < packet_length_of bs p
    → serialize fill bs p
      ≡ err (invalid_packet (msg_num "Packet too large: {} bytes" (packet_length_of bs p)))
unfolding serialize packet_length_of padding_of block
serialize_err fill bs p h = rw (lt→ltb _ _ h)

pub length-framed :
    (fill : ℕ → List ℕ) (bs : ℕ) (p : SshPacket)
    → ((n : ℕ) → length (fill n) ≡ n)
    → length (framed fill bs p) ≡ 4 + packet_length_of bs p
unfolding framed packet_length_of
length-framed fill bs p fills = omega (
  arith,
  length-append (to_be_bytes (packet_length_of bs p))
      ((padding_of bs p % 256) ∷ p.msg_type ∷ (p.payload ++ fill (padding_of bs p))),
  length-to_be_bytes (packet_length_of bs p),
  length-append p.payload (fill (padding_of bs p)),
  fills (padding_of bs p),
)

-- A packet that is written is not too large, and is the framed one.
pub serialize-eq-ok :
    (fill : ℕ → List ℕ) (bs : ℕ) (p : SshPacket) {wire : List ℕ}
    → serialize fill bs p ≡ ok wire
    → (packet_length_of bs p ≤ max_packet_size) × (framed fill bs p ≡ wire)
serialize-eq-ok fill bs p h = elim (Bool-cases (ltb max_packet_size (packet_length_of bs p))) [
  | inl large ↦ cc (serialize_err fill bs p (ltb→lt _ _ large))
  | inr small ↦ (ltb_false→le _ _ small, cc (serialize_ok fill bs p (ltb_false→le _ _ small)))
]

-- What `serialize` writes, if it writes: behind the length field a whole number of blocks (of at
-- least 8 bytes), with 4 bytes of padding at least and less than a block more, and no more bytes
-- than `deserialize` accepts. `fill` fills the whole buffer that it is given.
pub serialize_shape :
    (fill : ℕ → List ℕ) (bs : ℕ) (p : SshPacket) (wire : List ℕ)
    → ((n : ℕ) → length (fill n) ≡ n)
    → serialize fill bs p ≡ ok wire
    → ((length wire - 4) % max bs 8 ≡ 0)
      × (length wire ≤ 4 + max_packet_size)
      × (length p.payload + 10 ≤ length wire)
      × (length wire < length p.payload + 10 + max bs 8)
serialize_shape fill bs p wire fills h =
    let (small, e) = serialize-eq-ok fill bs p h in
    let n : length wire ≡ 4 + packet_length_of bs p = rw (← e) (length-framed fill bs p fills) in
    let body : length wire - 4 ≡ packet_length_of bs p = omega arith in
    let (lo, hi) = padding_of_bounds bs p in
    let whole : packet_length_of bs p ≡ 2 + length p.payload + padding_of bs p =
      (unfold packet_length_of in omega arith) in
    let about : block bs ≡ max bs 8 = (unfold block in refl) in
    (rw (body, ← about) (packet_length_aligned bs p), omega arith, omega arith, omega arith)

-- `serialize` writes every packet whose payload leaves room for the framing, and no larger one.
pub serialize_total :
    (fill : ℕ → List ℕ) (bs : ℕ) (p : SshPacket)
    → length p.payload + 6 + max bs 8 ≤ max_packet_size + 1
    → serialize fill bs p ≡ ok (framed fill bs p)
serialize_total fill bs p h =
    serialize_ok fill bs p (unfold packet_length_of block in omega (arith, padding_of_bounds bs p))
