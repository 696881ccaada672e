-- ===== src/Crypto.antt =====
-- src/crypto/mod.rs: the AES-256-CTR wrapper, HMAC and key derivation.
-- The ciphers, the hash, the MAC and the key agreement come from other crates: a parameter.
pub mod Laws
pub mod Stream
pub mod Derive
pub mod Examples
use swift_ssh.Prelude.{
  ℕ, zero, suc, ◌+◌, ◌%◌, ◌^◌, Bool, ◌||◌, false, true, List, [], ◌∷◌, ◌++◌, length, take, ltb,
  ◌==◌, if◌then◌else◌, not,
}
use swift_ssh.Error.{SshResult, ok, err, encryption, mac_mismatch, msg_num, ◌>>=◌}
use swift_ssh.Packet.Buf.{to_be_bytes, stripped, high_bit_set}

-- What the code calls of the crates `aes`, `ctr`, `hmac`, `sha2` and `x25519_dalek`.
pub record Crates : Type 1 where
  pub Cipher : Type 0
  -- `Aes256Ctr::new(key, iv)`
  pub new_cipher : List ℕ → List ℕ → Cipher
  -- `cipher.apply_keystream(buf)`: the buffer and the cipher afterwards
  pub apply_keystream : Cipher → List ℕ → List ℕ × Cipher
  -- `Sha256::digest`; `update` adds to the data
  pub sha256 : List ℕ → List ℕ
  -- `HmacSha256::new_from_slice(key)`, `update(data)`, then `finalize` or `verify_slice(expected)`
  pub finalize : List ℕ → List ℕ → List ℕ
  pub verify_slice : List ℕ → List ℕ → List ℕ → Bool
  -- `EphemeralSecret`, `PublicKey::from(&secret)`, `secret.diffie_hellman(&public)`
  pub Secret : Type 0
  pub public_key : Secret → List ℕ
  pub diffie_hellman : Secret → List ℕ → List ℕ

-- `CipherPair`, over the type of the ciphers
pub record CipherPair (C : Type 0) : Type 0 where
  pub encrypt : C
  pub decrypt : C

-- `encode_mpint_for_hash`
unfoldable pub encode_mpint_for_hash : List ℕ → List ℕ
encode_mpint_for_hash bytes =
    let s = stripped bytes in
    if length s == 0 || high_bit_set s
    then to_be_bytes ((length s + 1) % 2 ^ 32) ++ (0 ∷ s)
    else to_be_bytes (length s % 2 ^ 32) ++ s

module _ (crates : Crates) where
  open crates use {Cipher, new_cipher, apply_keystream, sha256, finalize, verify_slice}

  -- `AesCipher::new`
  unfoldable pub aes_cipher : List ℕ → List ℕ → SshResult Cipher
  aes_cipher key iv =
      if not (length key == 32)
      then err (encryption (msg_num "AES-256 key must be 32 bytes, got {}" (length key)))
      else if not (length iv == 16)
      then err (encryption (msg_num "AES IV must be 16 bytes, got {}" (length iv)))
      else ok (new_cipher key iv)

  -- `AesCipher::apply`
  unfoldable pub apply : Cipher → List ℕ → List ℕ × Cipher
  apply cipher bytes = apply_keystream cipher bytes

  -- `CipherPair::new`
  unfoldable pub cipher_pair : List ℕ → List ℕ → List ℕ → List ℕ → SshResult (CipherPair Cipher)
  unfolding aes_cipher
  cipher_pair enc_key enc_iv dec_key dec_iv = do
    e ← aes_cipher enc_key enc_iv
    d ← aes_cipher dec_key dec_iv
    ok (record { encrypt = e; decrypt = d })

  unfoldable pub compute_hmac : List ℕ → List ℕ → List ℕ
  compute_hmac key bytes = finalize key bytes

  unfoldable pub verify_hmac : List ℕ → List ℕ → List ℕ → SshResult (Unit {0})
  verify_hmac key bytes expected =
      if verify_slice key bytes expected then ok tt else err mac_mismatch

  -- `while key.len() < needed` of `derive_key`; `front` is K || H. Each round adds a hash, so
  -- `needed` rounds are enough.
  unfoldable pub extend : ℕ → List ℕ → ℕ → List ℕ → List ℕ
  extend zero front needed key = key
  extend (suc fuel) front needed key =
      let rest = extend fuel front needed (key ++ sha256 (front ++ key)) in
      if ltb (length key) needed then rest else key

  unfoldable pub derive_key : List ℕ → List ℕ → ℕ → List ℕ → ℕ → List ℕ
  derive_key shared_secret exchange_hash key_char session_id needed =
      let k_mpint = encode_mpint_for_hash shared_secret in
      let first = sha256 (k_mpint ++ (exchange_hash ++ (key_char ∷ session_id))) in
      take needed (extend needed (k_mpint ++ exchange_hash) needed first)
