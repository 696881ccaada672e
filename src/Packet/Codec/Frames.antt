-- ===== src/Packet/Codec/Frames.antt =====
-- `deserialize` of src/packet/codec.rs on any bytes.
use swift_ssh.Prelude.{
  refl, some, ◌↔◌, drop, take-append-drop, length-drop, ℕ, ◌+◌, ◌-◌, ◌≤◌, ◌≡◌, List, [], ◌∷◌, ◌++◌,
  length, length-append, length-take_of_le, true, ltb, leb, ◌==◌, if◌then◌else◌, arith, inl, inr,
  Bool-cases, ltb_false→le, ge→ltb,
}
use swift_ssh.Error.{SshResult, msg, msg_num, ok, err, invalid_packet}
use swift_ssh.Packet.Types.{max_packet_size}
use swift_ssh.Packet.Buf.{read_u32_be, read_u8, read_exact}
use swift_ssh.Packet.Codec.{SshPacket, deserialize, read_payload, read_padded}
use swift_ssh.Packet.Codec.RoundTrip.{read_padded-append}

-- The bytes hold the packet: a length field of at most the packet size, the length of the padding, the
-- packet's number, its payload, and at least the padding. The length counts all this but itself.
pub record IsFramed (bytes : List ℕ) (p : SshPacket) : Type 0 where
  pub packet_length : ℕ
  pub padding_length : ℕ
  pub behind : List ℕ
  pub announced :
      read_u32_be bytes ≡ some (packet_length, padding_length ∷ p.msg_type ∷ (p.payload ++ behind))
  pub whole : packet_length ≡ 2 + length p.payload + padding_length
  pub small : packet_length ≤ max_packet_size
  pub there : padding_length ≤ length behind

-- What `deserialize` may answer: a packet that the bytes hold, or `invalid_packet`.
unfoldable pub Answers : List ℕ → SshResult SshPacket → Type 0
Answers bytes (ok p) = IsFramed bytes p
Answers bytes (err (invalid_packet m)) = Unit
Answers bytes _ = ⊥

leb_of_le : (a b : ℕ) → a ≤ b → leb a b ≡ true
leb_of_le a b h = ground arith

payload_Answers :
    (n pad m : ℕ) (rest bytes : List ℕ)
    → read_u32_be bytes ≡ some (n, pad ∷ m ∷ rest)
    → n ≤ max_packet_size
    → 2 + pad ≤ n
    → n ≤ 2 + length rest
    → Answers bytes (read_payload (n - (1 + pad)) (m ∷ rest))
unfolding Answers read_payload read_u8 read_exact
payload_Answers n pad m rest bytes announced small some_payload there =
    rw
      (
        ge→ltb (n - (1 + pad)) 1 (omega arith),
        leb_of_le (n - (1 + pad) - 1) (length rest) (omega arith),
      )
      (record {
        packet_length = n;
        padding_length = pad;
        behind = drop (n - (1 + pad) - 1) rest;
        announced = rw (take-append-drop (n - (1 + pad) - 1) rest) announced;
        whole = omega (arith, length-take_of_le (n - (1 + pad) - 1) rest);
        small = small;
        there = omega (arith, length-drop (n - (1 + pad) - 1) rest);
      })

padded_Answers :
    (n pad m : ℕ) (rest bytes : List ℕ)
    → read_u32_be bytes ≡ some (n, pad ∷ m ∷ rest)
    → n ≤ max_packet_size
    → n ≤ 2 + length rest
    → Answers bytes (read_padded n (pad ∷ m ∷ rest))
unfolding Answers read_padded read_u8
padded_Answers n pad m rest bytes announced small there = elim (Bool-cases (leb n pad)) [
  | inl wide ↦ rw wide tt
  | inr fits ↦
      rw (fits, ge→ltb n (1 + pad) (ground arith))
        (elim (Bool-cases (n - (1 + pad) == 0)) [
          | inl empty ↦ rw empty tt
          | inr full ↦
              rw full (payload_Answers n pad m rest bytes announced small (ground arith) there)
        ])
]

checked_Answers :
    (n pad m : ℕ) (rest bytes : List ℕ)
    → read_u32_be bytes ≡ some (n, pad ∷ m ∷ rest)
    → length bytes ≡ 6 + length rest
    → Answers bytes (
        if ltb max_packet_size n
        then err (invalid_packet (msg_num "Packet length too large: {}" n))
        else if ltb (length bytes) (4 + n)
        then err (invalid_packet (msg "Incomplete packet data"))
        else read_padded n (pad ∷ m ∷ rest))
unfolding Answers
checked_Answers n pad m rest bytes announced size = elim (Bool-cases (ltb max_packet_size n)) [
  | inl large ↦ rw large tt
  | inr small ↦ rw small (elim (Bool-cases (ltb (length bytes) (4 + n))) [
    | inl cut ↦ rw cut tt
    | inr whole ↦ rw whole (
        padded_Answers n pad m rest bytes announced (ltb_false→le _ _ small)
          (omega (arith, ltb_false→le _ _ whole)))
  ])
]

pub deserialize-Answers : (bytes : List ℕ) → Answers bytes (deserialize bytes)
unfolding Answers deserialize read_u32_be
deserialize-Answers [] = tt
deserialize-Answers (a ∷ []) = tt
deserialize-Answers (a ∷ b ∷ []) = tt
deserialize-Answers (a ∷ b ∷ c ∷ []) = tt
deserialize-Answers (a ∷ b ∷ c ∷ d ∷ []) = tt
deserialize-Answers (a ∷ b ∷ c ∷ d ∷ e ∷ []) = tt
deserialize-Answers (a ∷ b ∷ c ∷ d ∷ pad ∷ m ∷ rest) =
    rw (ge→ltb (length (a ∷ b ∷ c ∷ d ∷ pad ∷ m ∷ rest)) 6 (omega arith))
      (checked_Answers _ pad m rest (a ∷ b ∷ c ∷ d ∷ pad ∷ m ∷ rest) refl (omega arith))

length-announced :
    (bytes rest : List ℕ) (n : ℕ)
    → read_u32_be bytes ≡ some (n, rest)
    → length bytes ≡ 4 + length rest
unfolding read_u32_be
length-announced [] rest n e = absurd (ground arith)
length-announced (a ∷ []) rest n e = absurd (ground arith)
length-announced (a ∷ b ∷ []) rest n e = absurd (ground arith)
length-announced (a ∷ b ∷ c ∷ []) rest n e = absurd (ground arith)
length-announced (a ∷ b ∷ c ∷ d ∷ xs) rest n e = ground arith

deserialize-of_framed :
    (bytes : List ℕ) (p : SshPacket) → IsFramed bytes p → deserialize bytes ≡ ok p
unfolding deserialize
deserialize-of_framed bytes p f =
    rw
      (
        ge→ltb (length bytes) 6 (omega (arith, size, parts)),
        f.announced,
        ge→ltb max_packet_size f.packet_length f.small,
        ge→ltb (length bytes) (4 + f.packet_length) (omega (arith, size, parts, f.whole, f.there)),
      )
      (read_padded-append f.packet_length f.padding_length p f.behind f.whole)
  where
    size : length bytes ≡ 6 + length (p.payload ++ f.behind)
    size = omega (arith, length-announced bytes _ f.packet_length f.announced)

    parts : length (p.payload ++ f.behind) ≡ length p.payload + length f.behind
    parts = length-append p.payload f.behind

-- On any bytes `deserialize` returns a packet or the error `invalid_packet`: no subtraction of
-- lengths goes below zero, and every read, which could fail with an I/O error, finds the bytes that it
-- asks for. It returns exactly the packet that the bytes hold, and an error only if they hold none.
pub deserialize-IsFramed :
    (bytes : List ℕ)
    → Answers bytes (deserialize bytes)
      × ((p : SshPacket) → (deserialize bytes ≡ ok p) ↔ IsFramed bytes p)
deserialize-IsFramed bytes =
    (deserialize-Answers bytes, λ p. (λ e. holds p e, deserialize-of_framed bytes p))
  where
    holds : (p : SshPacket) → deserialize bytes ≡ ok p → IsFramed bytes p
    holds p e = unfold Answers in rw e at (deserialize-Answers bytes)
