-- ===== src/Crypto/Examples.antt =====
-- A small cipher, hash and agreement that have the properties the code relies on, for examples.
use swift_ssh.Prelude.{
  ℕ, ◌≡◌, refl, bit_xor, List, [], ◌∷◌, length, take, arith, bytes_eq, bytes_eq_iff,
}
use swift_ssh.Packet.Buf.{write_mpint}
use swift_ssh.Packet.Examples.{zeros}
use swift_ssh.Crypto.{Crates, derive_key, encode_mpint_for_hash}
use swift_ssh.Crypto.Laws.{IsStreamCipher, IsMac, IsHash, IsAgreement}
use swift_ssh.Crypto.Derive.{
  rounds, key_front, key_first, derive_key-rounds, encode_mpint_for_hash-write_mpint,
}

-- A key stream that repeats one byte.
abbrev toy_apply : ℕ → List ℕ → List ℕ × ℕ
toy_apply c [] = ([], c)
toy_apply c (b ∷ bs) = (bit_xor b 7 ∷ (toy_apply c bs).0, (toy_apply c bs).1)

abbrev pub toy : Crates
toy = record {
  Cipher = ℕ;
  new_cipher = λ key iv. length key;
  apply_keystream = toy_apply;
  sha256 = λ bytes. zeros 32;
  finalize = λ key bytes. zeros 32;
  verify_slice = λ key bytes expected. bytes_eq expected (zeros 32);
  Secret = ℕ;
  public_key = λ s. zeros 32;
  diffie_hellman = λ s p. zeros 32;
}

abbrev pub toy_stream : IsStreamCipher toy
toy_stream = record {
  keystream = λ c. 7;
  next = λ c. c;
  keystream-IsByte = λ c. omega arith;
  apply_nil = λ c. refl;
  apply_cons = λ c b bs. refl;
}

abbrev pub toy_mac : IsMac toy
toy_mac = record {
  length-finalize = λ key bytes. refl;
  verify_slice_iff = λ key bytes expected. bytes_eq_iff expected (zeros 32);
}

abbrev pub toy_hash : IsHash toy
toy_hash = record { length-sha256 = λ bytes. refl }

abbrev pub toy_agreement : IsAgreement toy
toy_agreement = record {
  length-public_key = λ s. refl;
  length-diffie_hellman = λ s p. refl;
  diffie_hellman_comm = λ a b. refl;
}

encode_mpint_for_hash-write_mpint_example :
    encode_mpint_for_hash (0 ∷ 200 ∷ []) ≡ write_mpint [] (0 ∷ 200 ∷ [])
encode_mpint_for_hash-write_mpint_example = encode_mpint_for_hash-write_mpint (0 ∷ 200 ∷ [])

derive_key-rounds_example :
    derive_key toy (5 ∷ []) (zeros 32) b'A' (zeros 32) 48
    ≡ take 48 (
        rounds toy
          (key_front (5 ∷ []) (zeros 32))
          (key_first toy (5 ∷ []) (zeros 32) b'A' (zeros 32))
          1)
derive_key-rounds_example =
    derive_key-rounds toy toy_hash (5 ∷ []) (zeros 32) b'A' (zeros 32) 48 1 (omega arith)
