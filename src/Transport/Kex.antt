-- ===== src/Transport/Kex.antt =====
-- src/transport/kex.rs: the Curve25519 key exchange.
-- The ephemeral secret that is drawn, and the random cookie, are arguments.
pub mod Agreement
use swift_ssh.Prelude.{ℕ, false, Option, none, some, List, [], ◌∷◌, ◌++◌, ascii}
use swift_ssh.Error.{SshResult, ok, err, key_exchange, msg, ok_or, ◌>>=◌}
use swift_ssh.Packet.Buf.{
  write_string, write_utf8, write_name_list, write_mpint, write_bool, write_u32,
}
use swift_ssh.Crypto.{Crates}

abbrev pub kex_algorithms : List (List ℕ)
kex_algorithms = ascii "curve25519-sha256" ∷ []

abbrev pub host_key_algorithms : List (List ℕ)
host_key_algorithms = ascii "ssh-ed25519" ∷ ascii "rsa-sha2-256" ∷ []

abbrev pub encryption_algorithms : List (List ℕ)
encryption_algorithms = ascii "aes256-ctr" ∷ ascii "aes128-ctr" ∷ []

abbrev pub mac_algorithms : List (List ℕ)
mac_algorithms = ascii "hmac-sha2-256" ∷ []

abbrev pub compression_algorithms : List (List ℕ)
compression_algorithms = ascii "none" ∷ []

pub record KexResult : Type 0 where
  pub shared_secret : List ℕ
  pub exchange_hash : List ℕ

-- What is hashed: V_C, V_S, I_C, I_S, K_S, e, f as strings, and K as an mpint.
unfoldable pub transcript :
    List ℕ → List ℕ → List ℕ → List ℕ → List ℕ → List ℕ → List ℕ → List ℕ → List ℕ
transcript client_version server_version client_kexinit server_kexinit host_key client_pub
      server_pub secret =
    let b1 = write_utf8 [] client_version in
    let b2 = write_utf8 b1 server_version in
    let b3 = write_string b2 client_kexinit in
    let b4 = write_string b3 server_kexinit in
    let b5 = write_string b4 host_key in
    let b6 = write_string b5 client_pub in
    let b7 = write_string b6 server_pub in write_mpint b7 secret

module _ (crates : Crates) where
  open crates use {Secret, public_key, diffie_hellman, sha256}

  -- `KexClient`, and `KexServer`: a secret that is used once, and its public key
  pub record KexSide : Type 0 where
    pub secret : Option Secret
    pub ephemeral_pub : List ℕ

  -- `KexClient::new` and `KexServer::new`
  unfoldable pub new : Secret → KexSide
  new s = record { secret = some s; ephemeral_pub = public_key s }

  unfoldable pub compute_exchange_hash :
      List ℕ → List ℕ → List ℕ → List ℕ → List ℕ → List ℕ → List ℕ → List ℕ → List ℕ
  compute_exchange_hash v_c v_s i_c i_s k_s e f k = sha256 (transcript v_c v_s i_c i_s k_s e f k)

  -- `KexClient::complete`: the result, and the state with the secret taken
  unfoldable pub client_complete :
      KexSide
      → List ℕ
      → List ℕ
      → List ℕ
      → List ℕ
      → List ℕ
      → List ℕ
      → SshResult (KexResult × KexSide)
  unfolding compute_exchange_hash
  client_complete side server_pub client_version server_version client_kexinit server_kexinit
        host_key =
      do
        secret ← ok_or side.secret (key_exchange (msg "Key exchange already completed"))
        let shared = diffie_hellman secret server_pub
        ok (
          record {
            shared_secret = shared;
            exchange_hash =
                compute_exchange_hash client_version server_version client_kexinit server_kexinit
                  host_key side.ephemeral_pub server_pub shared;
          },
          record side { secret = none },
        )

  -- `KexServer::complete`
  unfoldable pub server_complete :
      KexSide
      → List ℕ
      → List ℕ
      → List ℕ
      → List ℕ
      → List ℕ
      → List ℕ
      → SshResult (KexResult × KexSide)
  unfolding compute_exchange_hash
  server_complete side client_pub client_version server_version client_kexinit server_kexinit
        host_key =
      do
        secret ← ok_or side.secret (key_exchange (msg "Key exchange already completed"))
        let shared = diffie_hellman secret client_pub
        ok (
          record {
            shared_secret = shared;
            exchange_hash =
                compute_exchange_hash client_version server_version client_kexinit server_kexinit
                  host_key client_pub side.ephemeral_pub shared;
          },
          record side { secret = none },
        )

-- `build_kexinit_payload`; `fill` is what `fill_bytes` puts into the cookie
unfoldable pub build_kexinit_payload : (ℕ → List ℕ) → List ℕ
build_kexinit_payload fill =
    let p0 = fill 16 in
    let p1 = write_name_list p0 kex_algorithms in
    let p2 = write_name_list p1 host_key_algorithms in
    let p3 = write_name_list p2 encryption_algorithms in
    let p4 = write_name_list p3 encryption_algorithms in
    let p5 = write_name_list p4 mac_algorithms in
    let p6 = write_name_list p5 mac_algorithms in
    let p7 = write_name_list p6 compression_algorithms in
    let p8 = write_name_list p7 compression_algorithms in
    let p9 = write_name_list p8 [] in
    let p10 = write_name_list p9 [] in let p11 = write_bool p10 false in write_u32 p11 0
