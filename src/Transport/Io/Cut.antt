-- ===== src/Transport/Io/Cut.antt =====
-- A packet's bytes cut at the first block, as `recv_packet` reads them.
use swift_ssh.Prelude.{
  ℕ, zero, suc, ◌+◌, ◌-◌, ◌%◌, ◌≤◌, ◌<◌, ◌≡◌, ◌^◌, ◌⊎◌, inl, inr, List, [], ◌∷◌, ◌++◌, append_assoc,
  length, take, drop, length-append, take-append-drop, length-take_of_le, length-drop, AreBytes,
  IsByte, All-append, arith,
}
use swift_ssh.Packet.Buf.{to_be_bytes}
use swift_ssh.Packet.Buf.Laws.{length-to_be_bytes}
use swift_ssh.Packet.Codec.{SshPacket}
use swift_ssh.Packet.Codec.Shape.{
  framed, block, padding_of, packet_length_of, packet_length_aligned, padding_of_bounds,
}
use swift_ssh.Session.{SessionKeys}
use swift_ssh.Transport.Io.{block_size_of, first_u32}
use swift_ssh.Transport.Io.Sync.{Matched}

-- A packet whose number and payload are bytes, and padding that is bytes of the size asked for.
pub record IsPacket (p : SshPacket) : Type 0 where
  pub number : IsByte p.msg_type
  pub bytes : AreBytes p.payload

pub record IsFill (fill : ℕ → List ℕ) : Type 0 where
  pub fills : (n : ℕ) → length (fill n) ≡ n
  pub bytes : (n : ℕ) → AreBytes (fill n)

-- What follows the length field.
unfoldable pub framed_tail : (ℕ → List ℕ) → ℕ → SshPacket → List ℕ
framed_tail fill bs p = (padding_of bs p % 256) ∷ p.msg_type ∷ (p.payload ++ fill (padding_of bs p))

pub framed_tail-AreBytes :
    (fill : ℕ → List ℕ) (bs : ℕ) (p : SshPacket)
    → IsFill fill
    → IsPacket p
    → AreBytes (framed_tail fill bs p)
unfolding framed_tail
framed_tail-AreBytes fill bs p hf hp =
    (omega arith, (hp.number, All-append IsByte p.payload _ hp.bytes (hf.bytes _)))

pub to_be_bytes-AreBytes : (v : ℕ) → AreBytes (to_be_bytes v)
unfolding to_be_bytes
to_be_bytes-AreBytes v = omega arith

pub take-AreBytes : (n : ℕ) (xs : List ℕ) → AreBytes xs → AreBytes (take n xs)
take-AreBytes zero xs h = tt
take-AreBytes (suc n) [] h = tt
take-AreBytes (suc n) (x ∷ xs) h = (h.0, take-AreBytes n xs h.1)

pub drop-AreBytes : (n : ℕ) (xs : List ℕ) → AreBytes xs → AreBytes (drop n xs)
drop-AreBytes zero xs h = h
drop-AreBytes (suc n) [] h = tt
drop-AreBytes (suc n) (x ∷ xs) h = drop-AreBytes n xs h.1

pub first_u32-to_be_bytes : (v : ℕ) (xs : List ℕ) → v < 2 ^ 32 → first_u32 (to_be_bytes v ++ xs) ≡ v
unfolding first_u32 to_be_bytes
first_u32-to_be_bytes v xs h = omega arith

-- The block sizes of the code: 8 bytes, and that of AES behind the key exchange.
pub block_size_cases :
    {C : Type 0} (keys : SessionKeys C) → (block_size_of keys ≡ 8) ⊎ (block_size_of keys ≡ 16)
unfolding block_size_of
block_size_cases keys = ground arith

pub Matched-block_size_of :
    {C : Type 0} (a b : SessionKeys C)
    → Matched a.ciphers b.ciphers
    → block_size_of a ≡ block_size_of b
unfolding block_size_of
Matched-block_size_of a b m = ground arith

module _ (fill : ℕ → List ℕ) (bs : ℕ) (p : SshPacket) where
  -- The first block and the rest of a framed packet.
  unfoldable pub first_part : List ℕ
  first_part = to_be_bytes (packet_length_of bs p) ++ take (bs - 4) (framed_tail fill bs p)

  unfoldable pub last_part : List ℕ
  last_part = drop (bs - 4) (framed_tail fill bs p)

  pub parts_lem : first_part ++ last_part ≡ framed fill bs p
  unfolding first_part last_part framed framed_tail
  parts_lem = rw (append_assoc, take-append-drop)

  module _ (hf : IsFill fill) (size : (bs ≡ 8) ⊎ (bs ≡ 16)) where
    length-framed_tail : length (framed_tail fill bs p) ≡ packet_length_of bs p
    unfolding framed_tail packet_length_of
    length-framed_tail =
        omega (arith, length-append p.payload (fill (padding_of bs p)), hf.fills (padding_of bs p))

    -- At least a block is there, and more than one.
    pub packet_length_big : bs < 4 + packet_length_of bs p
    packet_length_big = elim size [
      | inl e ↦ omega (arith, six)
      | inr e ↦ omega (arith, six, aligned e)
    ]
      where
        six : 6 ≤ packet_length_of bs p
        six = unfold packet_length_of in omega (arith, padding_of_bounds bs p)

        aligned : bs ≡ 16 → packet_length_of bs p % 16 ≡ 0
        aligned e =
            let sixteen : block bs ≡ 16 = unfold block in omega arith in
            rw sixteen at (packet_length_aligned bs p)

    pub length-first_part : length first_part ≡ bs
    unfolding first_part
    length-first_part = omega (
      arith,
      length-append (to_be_bytes (packet_length_of bs p)) (take (bs - 4) (framed_tail fill bs p)),
      length-to_be_bytes (packet_length_of bs p),
      length-take_of_le (bs - 4) (framed_tail fill bs p),
      length-framed_tail,
      packet_length_big,
      size,
    )

    pub length-last_part : bs + length last_part ≡ 4 + packet_length_of bs p
    unfolding last_part
    length-last_part = omega (
      arith,
      length-drop (bs - 4) (framed_tail fill bs p),
      length-framed_tail,
      packet_length_big,
      size,
    )

    module _ (hp : IsPacket p) where
      pub first_part-AreBytes : AreBytes first_part
      unfolding first_part
      first_part-AreBytes =
          All-append IsByte (to_be_bytes (packet_length_of bs p)) _ (to_be_bytes-AreBytes _)
            (take-AreBytes (bs - 4) _ (framed_tail-AreBytes fill bs p hf hp))

      pub last_part-AreBytes : AreBytes last_part
      unfolding last_part
      last_part-AreBytes = drop-AreBytes (bs - 4) _ (framed_tail-AreBytes fill bs p hf hp)
