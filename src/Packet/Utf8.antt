-- ===== src/Packet/Utf8.antt =====
-- `String::from_utf8` of the standard library, which accepts the well-formed byte sequences of the
-- Unicode standard's table 3-7. A `String` or `&str` of the code is a list of bytes that it accepts.
use swift_ssh.Prelude.{
  ℕ, ◌≡◌, Bool, true, false, ◌&&◌, Option, none, some, List, [], ◌∷◌, ◌++◌, ltb, leb, ◌==◌,
  if◌then◌else◌,
}

-- What the next byte may be: any first byte, one of `n` last continuation bytes, or the restricted
-- second byte after 0xE0, 0xED, 0xF0 or 0xF4.
pub data Expect : Type 0 where
  start one two three after_e0 after_ed after_f0 after_f4 : Expect

between : ℕ → ℕ → ℕ → Bool
between lo hi b = leb lo b && leb b hi

first_byte : ℕ → Option Expect
first_byte b =
    if ltb b 0x80
    then some start
    else if between 0xc2 0xdf b
    then some one
    else if b == 0xe0
    then some after_e0
    else if b == 0xed
    then some after_ed
    else if between 0xe1 0xef b
    then some two
    else if b == 0xf0
    then some after_f0
    else if between 0xf1 0xf3 b
    then some three
    else if b == 0xf4
    then some after_f4
    else none

-- `b` lies in the range, and `next` is expected behind it.
within : ℕ → ℕ → ℕ → Expect → Option Expect
within lo hi b next = if between lo hi b then some next else none

utf8_step : Expect → ℕ → Option Expect
unfolding first_byte within between
utf8_step start b = first_byte b
utf8_step one b = within 0x80 0xbf b start
utf8_step two b = within 0x80 0xbf b one
utf8_step three b = within 0x80 0xbf b two
utf8_step after_e0 b = within 0xa0 0xbf b one
utf8_step after_ed b = within 0x80 0x9f b one
utf8_step after_f0 b = within 0x90 0xbf b two
utf8_step after_f4 b = within 0x80 0x8f b two

utf8_from : Option Expect → List ℕ → Bool
utf8_from none bs = false
utf8_from (some start) [] = true
utf8_from (some e) [] = false
utf8_from (some e) (b ∷ bs) = utf8_from (utf8_step e b) bs

unfoldable pub is_utf8 : List ℕ → Bool
unfolding utf8_from utf8_step
is_utf8 bs = utf8_from (some start) bs

-- A text of the code: a `String`, a `&str`.
abbrev pub IsUtf8 : List ℕ → Type 0
IsUtf8 bs = is_utf8 bs ≡ true

utf8_from-append :
    (e : Option Expect) (xs ys : List ℕ)
    → utf8_from e xs ≡ true
    → IsUtf8 ys
    → utf8_from e (xs ++ ys) ≡ true
unfolding utf8_from is_utf8
utf8_from-append none xs ys hx hy = cc
utf8_from-append (some start) [] ys hx hy = hy
utf8_from-append (some one) [] ys hx hy = cc
utf8_from-append (some two) [] ys hx hy = cc
utf8_from-append (some three) [] ys hx hy = cc
utf8_from-append (some after_e0) [] ys hx hy = cc
utf8_from-append (some after_ed) [] ys hx hy = cc
utf8_from-append (some after_f0) [] ys hx hy = cc
utf8_from-append (some after_f4) [] ys hx hy = cc
utf8_from-append (some e) (b ∷ xs) ys hx hy = utf8_from-append (utf8_step e b) xs ys hx hy

-- Texts can be joined.
pub append-IsUtf8 : (xs ys : List ℕ) → IsUtf8 xs → IsUtf8 ys → IsUtf8 (xs ++ ys)
unfolding is_utf8
append-IsUtf8 xs ys hx hy = utf8_from-append (some start) xs ys hx hy

-- `String::from_utf8_lossy`: U+FFFD stands for each longest start of a character that does not go on.
abbrev replacement : List ℕ
replacement = 0xef ∷ 0xbf ∷ 0xbd ∷ []

-- A first byte: the text that it makes, and what it leaves open.
lossy_begin : ℕ → List ℕ × Expect × List ℕ
lossy_begin b = elim (first_byte b) [
  | none ↦ (replacement, start, [])
  | some start ↦ (b ∷ [], start, [])
  | some e ↦ ([], e, b ∷ [])
]

-- A byte behind the `pending` ones, which wait for it unless `e` is `start`.
lossy_step : Expect → List ℕ → ℕ → List ℕ × Expect × List ℕ
unfolding lossy_begin
lossy_step start pending b = lossy_begin b
lossy_step e pending b = elim (utf8_step e b) [
  | none ↦ let (text, next, left) = lossy_begin b in (replacement ++ text, next, left)
  | some start ↦ (pending ++ b ∷ [], start, [])
  | some next ↦ ([], next, pending ++ b ∷ [])
]

lossy_from : Expect → List ℕ → List ℕ → List ℕ
unfolding lossy_step
lossy_from start pending [] = []
lossy_from e pending [] = replacement
lossy_from e pending (b ∷ bs) =
    let (text, next, left) = lossy_step e pending b in text ++ lossy_from next left bs

unfoldable pub to_string_lossy : List ℕ → List ℕ
unfolding lossy_from first_byte utf8_step
to_string_lossy bs = lossy_from start [] bs
