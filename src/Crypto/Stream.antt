-- ===== src/Crypto/Stream.antt =====
-- Encryption and decryption in counter mode, whole or in pieces.
use swift_ssh.Prelude.{ℕ, suc, ◌≡◌, ap, bit_xor, List, [], ◌∷◌, ◌++◌, length, AreBytes}
use swift_ssh.Prelude.Bits.{xor_twice}
use swift_ssh.Crypto.{Crates, apply}
use swift_ssh.Crypto.Laws.{IsStreamCipher}

module _ (crates : Crates) (laws : IsStreamCipher crates) where
  open crates use {Cipher}

  pub apply_nil : (c : Cipher) → apply crates c [] ≡ ([], c)
  unfolding apply
  apply_nil c = laws.apply_nil c

  pub apply_cons :
      (c : Cipher) (b : ℕ) (bs : List ℕ)
      → apply crates c (b ∷ bs) ≡ (
        bit_xor b (laws.keystream c) ∷ (apply crates (laws.next c) bs).0,
        (apply crates (laws.next c) bs).1,
      )
  unfolding apply
  apply_cons c b bs = laws.apply_cons c b bs

  pub length-apply : (c : Cipher) (bs : List ℕ) → length (apply crates c bs).0 ≡ length bs
  length-apply c [] = rw apply_nil
  length-apply c (b ∷ bs) = rw apply_cons (ap suc (length-apply (laws.next c) bs))

  -- A buffer may be cut anywhere: the second piece goes on from the state after the first.
  pub apply-append :
      (c : Cipher) (xs ys : List ℕ)
      → apply crates c (xs ++ ys) ≡ (
        (apply crates c xs).0 ++ (apply crates (apply crates c xs).1 ys).0,
        (apply crates (apply crates c xs).1 ys).1,
      )
  apply-append c [] ys = rw apply_nil
  apply-append c (x ∷ xs) ys = simp (apply_cons, apply-append (laws.next c) xs ys)

  -- Two ciphers in the same state: the second decrypts what the first encrypted, and they are in
  -- the same state again.
  pub apply_twice :
      (c : Cipher) (bs : List ℕ)
      → AreBytes bs
      → apply crates c (apply crates c bs).0 ≡ (bs, (apply crates c bs).1)
  apply_twice c [] h = rw (apply_nil, apply_nil)
  apply_twice c (b ∷ bs) h = simp (
    apply_cons,
    xor_twice b (laws.keystream c) h.0 (laws.keystream-IsByte c),
    apply_twice (laws.next c) bs h.1,
  )
