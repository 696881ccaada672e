-- ===== src/Crypto/Laws.antt =====
-- What the code relies on of the crates, as their documentation states it.
use swift_ssh.Prelude.{ℕ, ◌≡◌, ◌↔◌, true, bit_xor, List, [], ◌∷◌, length, IsByte}
use swift_ssh.Crypto.{Crates}

-- A stream cipher: every byte is combined by exclusive or with the next byte of a key stream, which
-- is fixed by the cipher's state; how the data are split over the calls does not matter.
pub record IsStreamCipher (crates : Crates) : Type 1 where
  pub keystream : crates.Cipher → ℕ
  pub next : crates.Cipher → crates.Cipher
  pub keystream-IsByte : (c : crates.Cipher) → IsByte (keystream c)
  pub apply_nil : (c : crates.Cipher) → crates.apply_keystream c [] ≡ ([], c)
  pub apply_cons :
      (c : crates.Cipher) (b : ℕ) (bs : List ℕ)
      → crates.apply_keystream c (b ∷ bs) ≡ (
        bit_xor b (keystream c) ∷ (crates.apply_keystream (next c) bs).0,
        (crates.apply_keystream (next c) bs).1,
      )

-- HMAC-SHA256 has 32 bytes, and `verify_slice` compares with it.
pub record IsMac (crates : Crates) : Type 1 where
  pub length-finalize : (key bytes : List ℕ) → length (crates.finalize key bytes) ≡ 32
  pub verify_slice_iff :
      (key bytes expected : List ℕ)
      → (crates.verify_slice key bytes expected ≡ true) ↔ (expected ≡ crates.finalize key bytes)

-- SHA-256 has 32 bytes.
pub record IsHash (crates : Crates) : Type 1 where
  pub length-sha256 : (bytes : List ℕ) → length (crates.sha256 bytes) ≡ 32

-- X25519: public keys and shared secrets have 32 bytes, and both sides agree on the secret.
pub record IsAgreement (crates : Crates) : Type 1 where
  pub length-public_key : (s : crates.Secret) → length (crates.public_key s) ≡ 32
  pub length-diffie_hellman :
      (s : crates.Secret) (p : List ℕ) → length (crates.diffie_hellman s p) ≡ 32
  pub diffie_hellman_comm :
      (a b : crates.Secret)
      → crates.diffie_hellman a (crates.public_key b)
        ≡ crates.diffie_hellman b (crates.public_key a)
