-- ===== src/Server/Keys.antt =====
-- The session keys: both directions are in step after the key exchange.
use swift_ssh.Prelude.{ℕ, ◌≡◌, refl, some, List, length}
use swift_ssh.Error.{ok}
use swift_ssh.Crypto.{Crates, cipher_pair}
use swift_ssh.Crypto.Laws.{IsHash}
use swift_ssh.Crypto.Derive.{length-derive_key}
use swift_ssh.Session.{SessionKeys}
use swift_ssh.Transport.Kex.{KexResult}
use swift_ssh.Transport.Io.Sync.{Synced}
use swift_ssh.Server.{session_keys, derived, keys_cs, keys_sc, server_keys, client_keys}

module _ (crates : Crates) (hash : IsHash crates) where
  open crates use {Cipher, new_cipher}

  length-derived : (result : KexResult) (c n : ℕ) → length (derived crates result c n) ≡ n
  unfolding derived
  length-derived result c n = length-derive_key crates hash _ _ c _ n

  cipher_pair_lem :
      (enc_key enc_iv dec_key dec_iv : List ℕ)
      → length enc_key ≡ 32
      → length enc_iv ≡ 16
      → length dec_key ≡ 32
      → length dec_iv ≡ 16
      → cipher_pair crates enc_key enc_iv dec_key dec_iv
        ≡ ok (record { encrypt = new_cipher enc_key enc_iv; decrypt = new_cipher dec_key dec_iv })
  unfolding cipher_pair
  cipher_pair_lem enc_key enc_iv dec_key dec_iv h1 h2 h3 h4 = rw (h1, h2, h3, h4)

  -- The keys with ciphers and MAC keys for both directions.
  abbrev both_ways :
      KexResult
      → SessionKeys Cipher
      → (List ℕ × List ℕ × List ℕ)
      → (List ℕ × List ℕ × List ℕ)
      → SessionKeys Cipher
  both_ways result keys send recv = record keys {
    session_id = some result.exchange_hash;
    ciphers =
        some (record { encrypt = new_cipher send.0 send.1; decrypt = new_cipher recv.0 recv.1 });
    send_mac_key = some send.2;
    recv_mac_key = some recv.2;
  }

  server_keys_lem :
      (result : KexResult) (keys : SessionKeys Cipher)
      → server_keys crates result keys
        ≡ ok (both_ways result keys (keys_sc crates result) (keys_cs crates result))
  unfolding server_keys session_keys keys_cs keys_sc
  server_keys_lem result keys = rw (
      cipher_pair_lem _ _ _ _ (length-derived result b'D' 32) (length-derived result b'B' 16)
        (length-derived result b'C' 32) (length-derived result b'A' 16))

  client_keys_lem :
      (result : KexResult) (keys : SessionKeys Cipher)
      → client_keys crates result keys
        ≡ ok (both_ways result keys (keys_cs crates result) (keys_sc crates result))
  unfolding client_keys session_keys keys_cs keys_sc
  client_keys_lem result keys = rw (
      cipher_pair_lem _ _ _ _ (length-derived result b'C' 32) (length-derived result b'A' 16)
        (length-derived result b'D' 32) (length-derived result b'B' 16))

  -- The keys that both sides derive from the same result of the key exchange: none of them is
  -- refused for its length, and if the sequence numbers are in step then what the server sends the
  -- client can receive, and what the client sends the server can receive.
  pub server_keys-client_keys :
      (result : KexResult) (ks kc : SessionKeys Cipher)
      → ks.send_seq ≡ kc.recv_seq
      → kc.send_seq ≡ ks.recv_seq
      → (ks' : SessionKeys Cipher) × (kc' : SessionKeys Cipher) × (server_keys crates result ks
          ≡ ok ks')
        × (client_keys crates result kc ≡ ok kc')
        × Synced ks' kc'
        × Synced kc' ks'
  server_keys-client_keys result ks kc h h' = (
    both_ways result ks (keys_sc crates result) (keys_cs crates result),
    both_ways result kc (keys_cs crates result) (keys_sc crates result),
    server_keys_lem result ks,
    client_keys_lem result kc,
    record { seq = h; mac = refl; ciphers = refl },
    record { seq = h'; mac = refl; ciphers = refl },
  )
