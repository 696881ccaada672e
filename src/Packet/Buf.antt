-- ===== src/Packet/Buf.antt =====
-- `SshBuf` of src/packet/codec.rs: the SSH wire types in a byte buffer.
-- A `Vec<u8>` is the list of its bytes, and a cursor is the list of the bytes that it has not read.
pub mod Laws
pub mod Names
pub mod Mpint
use swift_ssh.Prelude.{
  ℕ, zero, suc, ◌+◌, ◌*◌, ◌/◌, ◌%◌, ◌^◌, bit_and, Bool, true, false, not, Option, none, some, List,
  [], ◌∷◌, ◌++◌, length, take, drop, ltb, leb, ◌==◌, if◌then◌else◌,
}
use swift_ssh.Error.{SshResult, ok, err, msg, invalid_packet, ok_or, ◌>>=◌}
use swift_ssh.Packet.Types.{max_packet_size}
use swift_ssh.Packet.Utf8.{is_utf8}

-- `u32::to_be_bytes`, which `write_u32::<BigEndian>` writes.
unfoldable pub to_be_bytes : ℕ → List ℕ
to_be_bytes v = (v / 2 ^ 24 % 256) ∷ (v / 2 ^ 16 % 256) ∷ (v / 2 ^ 8 % 256) ∷ (v % 256) ∷ []

-- `read_u32::<BigEndian>` on a cursor; `none` is the end of the data.
unfoldable pub read_u32_be : List ℕ → Option (ℕ × List ℕ)
read_u32_be (a ∷ b ∷ c ∷ d ∷ rest) = some (a * 2 ^ 24 + b * 2 ^ 16 + c * 2 ^ 8 + d, rest)
read_u32_be _ = none

-- `read_exact` into a buffer of `n` bytes.
unfoldable pub read_exact : ℕ → List ℕ → Option (List ℕ × List ℕ)
read_exact n cursor = if leb n (length cursor) then some (take n cursor, drop n cursor) else none

unfoldable pub write_string : List ℕ → List ℕ → List ℕ
write_string buf bytes = buf ++ (to_be_bytes (length bytes % 2 ^ 32) ++ bytes)

unfoldable pub write_utf8 : List ℕ → List ℕ → List ℕ
write_utf8 buf s = write_string buf s

-- `names.join(",")`
unfoldable pub join : List (List ℕ) → List ℕ
join [] = []
join (n ∷ []) = n
join (n ∷ m ∷ ns) = n ++ (b',' ∷ join (m ∷ ns))

unfoldable pub write_name_list : List ℕ → List (List ℕ) → List ℕ
write_name_list buf names = let joined = join names in write_utf8 buf joined

unfoldable pub write_bool : List ℕ → Bool → List ℕ
write_bool buf val = buf ++ (if val then 1 else 0) ∷ []

unfoldable pub write_u32 : List ℕ → ℕ → List ℕ
write_u32 buf val = buf ++ to_be_bytes val

unfoldable pub write_u8 : List ℕ → ℕ → List ℕ
write_u8 buf val = buf ++ val ∷ []

-- `&val[pos..]` for the first byte that is not zero, `&[0]` if there is none.
unfoldable pub stripped : List ℕ → List ℕ
stripped [] = 0 ∷ []
stripped (b ∷ bs) = if b == 0 then stripped bs else b ∷ bs

-- `stripped[0] & 0x80 != 0`
unfoldable pub high_bit_set : List ℕ → Bool
high_bit_set [] = false
high_bit_set (b ∷ bs) = not (bit_and b 0x80 == 0)

unfoldable pub write_mpint : List ℕ → List ℕ → List ℕ
write_mpint buf val =
    let s = stripped val in
    if high_bit_set s
    then buf ++ (to_be_bytes ((length s + 1) % 2 ^ 32) ++ 0 ∷ s)
    else buf ++ (to_be_bytes (length s % 2 ^ 32) ++ s)

unfoldable pub read_string : List ℕ → SshResult (List ℕ × List ℕ)
read_string cursor = do
  (len, c) ← ok_or (read_u32_be cursor) (invalid_packet (msg "Failed to read string length"))
  if ltb max_packet_size len
      then err (invalid_packet (msg "String too long"))
      else ok_or (read_exact len c) (invalid_packet (msg "Truncated string"))

unfoldable pub read_utf8 : List ℕ → SshResult (List ℕ × List ℕ)
read_utf8 cursor = do
  (bytes, c) ← read_string cursor
  if is_utf8 bytes then ok (bytes, c) else err (invalid_packet (msg "Invalid UTF-8 string"))

-- the first piece of `s.split(',')` takes the byte in front of it
abbrev push_front : ℕ → List (List ℕ) → List (List ℕ)
push_front b [] = (b ∷ []) ∷ []
push_front b (n ∷ ns) = (b ∷ n) ∷ ns

-- `s.split(',')`
unfoldable pub split : List ℕ → List (List ℕ)
split [] = [] ∷ []
split (b ∷ s) = if b == b',' then [] ∷ split s else push_front b (split s)

unfoldable pub split_names : List ℕ → List (List ℕ)
split_names [] = []
split_names (b ∷ s) = split (b ∷ s)

unfoldable pub read_name_list : List ℕ → SshResult (List (List ℕ) × List ℕ)
read_name_list cursor = do (s, c) ← read_utf8 cursor; ok (split_names s, c)

-- `cursor.read_u8()`
unfoldable pub read_u8 : List ℕ → Option (ℕ × List ℕ)
read_u8 [] = none
read_u8 (b ∷ rest) = some (b, rest)

unfoldable pub read_bool : List ℕ → SshResult (Bool × List ℕ)
read_bool cursor = do
  (b, c) ← ok_or (read_u8 cursor) (invalid_packet (msg "Failed to read bool"))
  ok (not (b == 0), c)

unfoldable pub read_u32 : List ℕ → SshResult (ℕ × List ℕ)
read_u32 cursor = ok_or (read_u32_be cursor) (invalid_packet (msg "Failed to read u32"))

unfoldable pub read_mpint : List ℕ → SshResult (List ℕ × List ℕ)
read_mpint cursor = read_string cursor
