-- ===== src/Prelude/Bits.antt =====
-- Masks and exclusive or on bytes.
use Prim.Native.Nat.{ℕ, zero, suc, ◌*◌, ◌/◌, ◌≤◌, ◌<◌, bit_and, bit_xor}
use mathlib.Core.Path.{◌≡◌, refl}
use mathlib.Core.Bool.{Bool, true, false}
use native.Mathlib.Omega.{arith}
use swift_ssh.Prelude.Tests.{◌==◌, ==_iff, if◌then◌else◌}

-- The test holds of each of the bytes `0` to `last`, tried one by one.
tried : (ℕ → Bool) → ℕ → Bool
tried test zero = test zero
tried test (suc last) = if test (suc last) then tried test last else false

of_tried : (test : ℕ → Bool) (last b : ℕ) → tried test last ≡ true → b ≤ last → test b ≡ true
unfolding tried
of_tried test zero b h le = ground arith
of_tried test (suc last) b h le = ground (arith, of_tried test last b)

high_bit_table : tried (λ b. bit_and b 0x80 == b / 128 * 128) 255 ≡ true
unfolding tried
high_bit_table = refl

pub high_bit : (b : ℕ) → b < 256 → bit_and b 0x80 ≡ b / 128 * 128
high_bit b h = (==_iff _ _).0 (of_tried _ 255 b high_bit_table (omega arith))

xor_twice_table : tried (λ x. tried (λ k. bit_xor (bit_xor x k) k == x) 255) 255 ≡ true
unfolding tried
xor_twice_table = refl

pub xor_twice : (x k : ℕ) → x < 256 → k < 256 → bit_xor (bit_xor x k) k ≡ x
xor_twice x k hx hk =
    let row = of_tried _ 255 x xor_twice_table (omega arith) in
    (==_iff _ _).0 (of_tried _ 255 k row (omega arith))
