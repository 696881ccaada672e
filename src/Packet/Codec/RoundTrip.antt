-- ===== src/Packet/Codec/RoundTrip.antt =====
-- `deserialize` on what `serialize` wrote.
use swift_ssh.Prelude.{
  refl, ℕ, ◌+◌, ◌-◌, ◌%◌, ◌≤◌, ◌≡◌, List, ◌∷◌, ◌++◌, append_assoc, length, length-append, false,
  ltb, leb, ◌==◌, arith, ge→ltb,
}
use swift_ssh.Error.{ok}
use swift_ssh.Packet.Types.{max_packet_size}
use swift_ssh.Packet.Buf.{to_be_bytes, read_u8}
use swift_ssh.Packet.Buf.Laws.{read_u32_be-to_be_bytes, read_exact-append, length-to_be_bytes}
use swift_ssh.Packet.Codec.{SshPacket, serialize, deserialize, read_payload, read_padded}
use swift_ssh.Packet.Codec.Shape.{
  framed, block, padding_of, packet_length_of, padding_of_bounds, serialize-eq-ok,
}

-- The reads behind the checks, on a packet's number, payload and whatever follows.
read_payload-append :
    (n : ℕ) (p : SshPacket) (rest : List ℕ)
    → n ≡ 1 + length p.payload
    → read_payload n (p.msg_type ∷ (p.payload ++ rest)) ≡ ok p
unfolding read_payload read_u8
read_payload-append n p rest e = rw (enough, size, read_exact-append p.payload rest) refl
  where
    enough : ltb n 1 ≡ false
    enough = ge→ltb _ _ (omega arith)

    size : n - 1 ≡ length p.payload
    size = omega arith

pub read_padded-append :
    (n pad : ℕ) (p : SshPacket) (rest : List ℕ)
    → n ≡ 2 + length p.payload + pad
    → read_padded n (pad ∷ p.msg_type ∷ (p.payload ++ rest)) ≡ ok p
unfolding read_padded read_u8
read_padded-append n pad p rest e =
    rw (more, enough, some_payload) (read_payload-append _ p rest (omega arith))
  where
    more : leb n pad ≡ false
    more = ground arith

    enough : ltb n (1 + pad) ≡ false
    enough = ge→ltb _ _ (omega arith)

    some_payload : (n - (1 + pad) == 0) ≡ false
    some_payload = ground arith

-- The same for the whole packet, whose length field and padding length are `n` and `pad`.
deserialize-append :
    (n pad : ℕ) (p : SshPacket) (rest : List ℕ)
    → n ≡ 2 + length p.payload + pad
    → n ≤ max_packet_size
    → pad ≤ length rest
    → deserialize (to_be_bytes n ++ (pad ∷ p.msg_type ∷ (p.payload ++ rest))) ≡ ok p
unfolding deserialize
deserialize-append n pad p rest e small there =
    rw (long, read_u32_be-to_be_bytes n _ (omega arith), not_large, complete)
      (read_padded-append n pad p rest e)
  where
    size :
        length (to_be_bytes n ++ (pad ∷ p.msg_type ∷ (p.payload ++ rest)))
        ≡ 6 + length p.payload + length rest
    size = omega (
      arith,
      length-append (to_be_bytes n) (pad ∷ p.msg_type ∷ (p.payload ++ rest)),
      length-to_be_bytes n,
      length-append p.payload rest,
    )

    long : ltb (length (to_be_bytes n ++ (pad ∷ p.msg_type ∷ (p.payload ++ rest)))) 6 ≡ false
    long = ge→ltb _ _ (omega (arith, size))

    complete :
        ltb (length (to_be_bytes n ++ (pad ∷ p.msg_type ∷ (p.payload ++ rest)))) (4 + n) ≡ false
    complete = ge→ltb _ _ (omega (arith, size))

    not_large : ltb max_packet_size n ≡ false
    not_large = ge→ltb _ _ small

pub deserialize-framed :
    (fill : ℕ → List ℕ) (bs : ℕ) (p : SshPacket) (rest : List ℕ)
    → ((n : ℕ) → length (fill n) ≡ n)
    → bs ≤ 252
    → packet_length_of bs p ≤ max_packet_size
    → deserialize (framed fill bs p ++ rest) ≡ ok p
unfolding framed
deserialize-framed fill bs p rest fills narrow small =
    rw (append_assoc, one_byte)
      (simp append_assoc (
        deserialize-append (packet_length_of bs p) (padding_of bs p) p
          (fill (padding_of bs p) ++ rest) (unfold packet_length_of in omega arith) small there))
  where
    one_byte : padding_of bs p % 256 ≡ padding_of bs p
    one_byte = unfold block in omega (arith, padding_of_bounds bs p)

    there : padding_of bs p ≤ length (fill (padding_of bs p) ++ rest)
    there = omega (arith, length-append (fill (padding_of bs p)) rest, fills (padding_of bs p))

-- What `serialize` wrote for a packet, whatever bytes follow it, `deserialize` reads back as that
-- packet, for every block size up to 252 (the code uses 8 and 16), if `fill` fills its buffer.
pub deserialize-serialize :
    (fill : ℕ → List ℕ) (bs : ℕ) (p : SshPacket) (wire rest : List ℕ)
    → ((n : ℕ) → length (fill n) ≡ n)
    → bs ≤ 252
    → serialize fill bs p ≡ ok wire
    → deserialize (wire ++ rest) ≡ ok p
deserialize-serialize fill bs p wire rest fills narrow h =
    let (small, e) = serialize-eq-ok fill bs p h in
    rw (← e) (deserialize-framed fill bs p rest fills narrow small)
