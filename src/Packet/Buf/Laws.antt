-- ===== src/Packet/Buf/Laws.antt =====
-- What the writers of `SshBuf` append, and that the readers read it back whatever follows.
use swift_ssh.Prelude.{
  ℕ, zero, suc, ◌+◌, ◌*◌, ◌/◌, ◌%◌, ◌^◌, ◌≤◌, ◌<◌, ◌≡◌, refl, sym, Bool, true, false, Option, none,
  some, List, [], ◌∷◌, ◌++◌, append-nil, append_assoc, length, length-append, take, drop,
  take-length_append, drop-length_append, ltb, leb, ◌==◌, if◌then◌else◌, arith,
}
use swift_ssh.Error.{ok}
use swift_ssh.Packet.Types.{max_packet_size}
use swift_ssh.Packet.Utf8.{IsUtf8}
use swift_ssh.Packet.Buf.{
  to_be_bytes, read_u32_be, read_exact, write_string, write_utf8, write_bool, write_u32,
  read_string, read_utf8, read_bool, read_u8, read_u32,
}

-- The wire form of a string and of a boolean.
unfoldable pub string_bytes : List ℕ → List ℕ
string_bytes s = to_be_bytes (length s % 2 ^ 32) ++ s

unfoldable pub bool_bytes : Bool → List ℕ
bool_bytes b = (if b then 1 else 0) ∷ []

pub write_string_lem : (buf s : List ℕ) → write_string buf s ≡ buf ++ string_bytes s
unfolding write_string string_bytes
write_string_lem buf s = refl

pub write_utf8_lem : (buf s : List ℕ) → write_utf8 buf s ≡ buf ++ string_bytes s
unfolding write_utf8
write_utf8_lem buf s = write_string_lem buf s

pub write_u32_lem : (buf : List ℕ) (v : ℕ) → write_u32 buf v ≡ buf ++ to_be_bytes v
unfolding write_u32
write_u32_lem buf v = refl

pub write_bool_lem : (buf : List ℕ) (b : Bool) → write_bool buf b ≡ buf ++ bool_bytes b
unfolding write_bool bool_bytes
write_bool_lem buf b = refl

-- A payload as the concatenation of the wire forms of its fields.
pub ruleset write_laws =
    (write_string_lem, write_utf8_lem, write_u32_lem, write_bool_lem, append_assoc)

pub length-to_be_bytes : (v : ℕ) → length (to_be_bytes v) ≡ 4
unfolding to_be_bytes
length-to_be_bytes v = refl

pub read_u32_be-to_be_bytes :
    (v : ℕ) (rest : List ℕ) → v < 2 ^ 32 → read_u32_be (to_be_bytes v ++ rest) ≡ some (v, rest)
unfolding read_u32_be to_be_bytes
read_u32_be-to_be_bytes v rest h = ground arith

pub read_exact-append : (s rest : List ℕ) → read_exact (length s) (s ++ rest) ≡ some (s, rest)
unfolding read_exact
read_exact-append s rest =
    ground (arith, length-append s rest, take-length_append s rest, drop-length_append s rest)

pub read_u32-to_be_bytes :
    (v : ℕ) (rest : List ℕ) → v < 2 ^ 32 → read_u32 (to_be_bytes v ++ rest) ≡ ok (v, rest)
unfolding read_u32
read_u32-to_be_bytes v rest h = rw (read_u32_be-to_be_bytes v rest h)

pub read_bool-bool_bytes :
    (b : Bool) (rest : List ℕ) → read_bool (bool_bytes b ++ rest) ≡ ok (b, rest)
unfolding read_bool bool_bytes read_u8
read_bool-bool_bytes true rest = refl
read_bool-bool_bytes false rest = refl

-- The limit on a string is that of a packet, 35000 bytes.
abbrev pub Fits : List ℕ → Type 0
Fits s = length s ≤ max_packet_size

pub read_string-string_bytes :
    (s rest : List ℕ) → Fits s → read_string (string_bytes s ++ rest) ≡ ok (s, rest)
unfolding read_string string_bytes
read_string-string_bytes s rest h = rw append_assoc (
    rw (
      small,
      read_u32_be-to_be_bytes (length s) (s ++ rest) (omega arith),
      below,
      read_exact-append s rest,
    ))
  where
    small : length s % 2 ^ 32 ≡ length s
    small = omega arith

    below : ltb max_packet_size (length s) ≡ false
    below = ground arith

pub read_utf8-string_bytes :
    (s rest : List ℕ) → Fits s → IsUtf8 s → read_utf8 (string_bytes s ++ rest) ≡ ok (s, rest)
unfolding read_utf8
read_utf8-string_bytes s rest h u = rw (read_string-string_bytes s rest h, u)
