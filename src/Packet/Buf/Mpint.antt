-- ===== src/Packet/Buf/Mpint.antt =====
-- Multiple precision integers: `write_mpint` and `read_mpint` of src/packet/codec.rs.
use swift_ssh.Prelude.{
  ℕ, ◌+◌, ◌*◌, ◌≤◌, ◌<◌, ◌≡◌, ◌⊎◌, refl, false, List, [], ◌∷◌, ◌++◌, length, AreBytes, arith, ◌==◌,
  if◌then◌else◌, Bool-cases, inl, inr,
}
use swift_ssh.Prelude.Bits.{high_bit}
use swift_ssh.Error.{ok}
use swift_ssh.Packet.Types.{max_packet_size}
use swift_ssh.Packet.Buf.{stripped, high_bit_set, write_mpint, read_mpint}
use swift_ssh.Packet.Buf.Laws.{string_bytes, read_string-string_bytes, Fits}

-- The bytes of the string that `write_mpint` writes.
unfoldable pub mpint_bytes : List ℕ → List ℕ
mpint_bytes val = let s = stripped val in if high_bit_set s then 0 ∷ s else s

-- The number that bytes stand for, most significant first, behind those read so far.
unfoldable pub be_value : ℕ → List ℕ → ℕ
be_value acc [] = acc
be_value acc (b ∷ bs) = be_value (acc * 256 + b) bs

-- The shortest form of a number with a clear top bit; zero is one zero byte.
abbrev pub IsShortest : List ℕ → Type 0
IsShortest [] = ⊥
IsShortest (b ∷ []) = b < 128
IsShortest (b ∷ c ∷ bs) = (b < 128) × ((0 < b) ⊎ (128 ≤ c))

stripped-AreBytes : (val : List ℕ) → AreBytes val → AreBytes (stripped val)
unfolding stripped
stripped-AreBytes [] h = omega arith
stripped-AreBytes (b ∷ bs) h = ground (arith, stripped-AreBytes bs h.1)

be_value-stripped : (val : List ℕ) → be_value 0 (stripped val) ≡ be_value 0 val
unfolding be_value stripped
be_value-stripped [] = refl
be_value-stripped (b ∷ bs) = ground (arith, be_value-stripped bs)

pub be_value-mpint_bytes : (val : List ℕ) → be_value 0 (mpint_bytes val) ≡ be_value 0 val
unfolding mpint_bytes be_value
be_value-mpint_bytes val = ground (arith, be_value-stripped val)

length-stripped : (val : List ℕ) → length (stripped val) ≤ length val + 1
unfolding stripped
length-stripped [] = omega arith
length-stripped (b ∷ bs) = ground (arith, length-stripped bs)

pub length-mpint_bytes : (val : List ℕ) → length (mpint_bytes val) ≤ length val + 2
unfolding mpint_bytes
length-mpint_bytes val = ground (arith, length-stripped val)

-- Nothing but a single zero starts with a zero.
NoLeadingZero : List ℕ → Type 0
NoLeadingZero [] = ⊥
NoLeadingZero (b ∷ []) = Unit
NoLeadingZero (b ∷ c ∷ bs) = 0 < b

nonzero_head : (b : ℕ) (bs : List ℕ) → (b == 0) ≡ false → NoLeadingZero (b ∷ bs)
unfolding NoLeadingZero
nonzero_head b [] h = tt
nonzero_head b (c ∷ bs) h = ground arith

stripped-NoLeadingZero : (val : List ℕ) → NoLeadingZero (stripped val)
unfolding stripped
stripped-NoLeadingZero [] = unfold NoLeadingZero in tt
stripped-NoLeadingZero (b ∷ bs) = elim (Bool-cases (b == 0)) [
  | inl z ↦ rw z (stripped-NoLeadingZero bs)
  | inr n ↦ rw n (nonzero_head b bs n)
]

-- with the zero byte in front where the top bit is set
shortest :
    (s : List ℕ) → AreBytes s → NoLeadingZero s → IsShortest (if high_bit_set s then 0 ∷ s else s)
unfolding high_bit_set NoLeadingZero
shortest [] h n = elim n [ ]
shortest (b ∷ []) h n = ground (arith, high_bit b h.0)
shortest (b ∷ c ∷ bs) h n = ground (arith, high_bit b h.0)

pub mpint_bytes-IsShortest : (val : List ℕ) → AreBytes val → IsShortest (mpint_bytes val)
unfolding mpint_bytes
mpint_bytes-IsShortest val h =
    shortest (stripped val) (stripped-AreBytes val h) (stripped-NoLeadingZero val)

pub write_mpint_lem :
    (buf val : List ℕ) → write_mpint buf val ≡ buf ++ string_bytes (mpint_bytes val)
unfolding write_mpint mpint_bytes string_bytes
write_mpint_lem buf val = elim (Bool-cases (high_bit_set (stripped val))) [
  | inl h ↦ rw h (ground arith)
  | inr h ↦ rw h
]

-- What `read_mpint` gets back is the shortest form, top bit clear, of the number that the written
-- bytes stand for, whatever follows it in the buffer. The bytes are less than 34999.
pub read_mpint-write_mpint :
    (val rest : List ℕ)
    → AreBytes val
    → length val + 2 ≤ max_packet_size
    → (m : List ℕ) × (read_mpint (write_mpint [] val ++ rest) ≡ ok (m, rest))
      × IsShortest m
      × (be_value 0 m ≡ be_value 0 val)
read_mpint-write_mpint val rest h fits = (
  mpint_bytes val,
  rw write_mpint_lem (unfold read_mpint in read_string-string_bytes (mpint_bytes val) rest room),
  mpint_bytes-IsShortest val h,
  be_value-mpint_bytes val,
)
  where
    room : Fits (mpint_bytes val)
    room = omega (arith, length-mpint_bytes val)
