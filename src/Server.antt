-- ===== src/Server.antt =====
-- src/bin/server.rs: the server's side of a connection up to the authenticated session.
-- `random n` are the bytes of the n-th draw of random bytes.
pub mod Keys
pub mod Login
pub mod Counts
pub mod Greeting
pub mod Handshake
pub mod Commands
pub mod Loop
pub mod Connection
pub mod Examples
use swift_ssh.Prelude.{
  ℕ, zero, suc, Bool, true, false, not, Option, none, some, List, [], ◌∷◌, length, ascii, ◌==◌,
  if◌then◌else◌,
}
use swift_ssh.Error.{SshResult, ok, err, panic, Message, protocol, key_exchange, msg, ◌>>=◌}
use swift_ssh.Packet.Types.{
  MessageType, as_u8, kex_init, kex_ecdh_init, kex_ecdh_reply, new_keys, service_request,
  user_auth_request, ssh_version_string,
}
use swift_ssh.Packet.Buf.{read_string, read_utf8, write_string}
use swift_ssh.Packet.Codec.{SshPacket, new}
use swift_ssh.Crypto.{Crates, CipherPair, cipher_pair, compute_hmac, derive_key}
use swift_ssh.Session.{SessionKeys, new as new_session}
use swift_ssh.Transport.Stream.{Reader, Writer}
use swift_ssh.Transport.Io.{send_packet, recv_packet}
use swift_ssh.Transport.Version.{send_version_string, recv_version_string}
use swift_ssh.Transport.Kex.{
  KexResult, KexSide, new as new_side, server_complete, build_kexinit_payload,
}
use swift_ssh.Auth.{
  UserDatabase, AuthRequest, Credential, password, public_key, verify_password, is_key_authorized,
  build_auth_success, build_auth_failure, build_service_accept, parse,
}

abbrev pub host_key_blob : List ℕ
host_key_blob = ascii "swiftssh-server-host-key"

-- What the server keeps of a connection.
pub record Link (C : Type 0) : Type 0 where
  pub reader : Reader
  pub writer : Writer
  pub keys : SessionKeys C

-- `Credential::Password(..) => user_db.verify_password(..)`, and the public key likewise
unfoldable pub admits : UserDatabase → List ℕ → Credential → Bool
admits db username (password pass) = verify_password db username pass
admits db username (public_key algorithm key_blob signature) =
    is_key_authorized db username key_blob

-- The answer to an attempt.
unfoldable pub auth_reply : Bool → SshPacket
auth_reply true = build_auth_success
auth_reply false = build_auth_failure (ascii "password" ∷ ascii "publickey" ∷ []) false

-- `while !authenticated`: on to the next attempt, unless this one was admitted or failed
abbrev pub continue {ℓ} :
    {A : Type ℓ} → SshResult (Bool × A) → (A → Option (SshResult A)) → Option (SshResult A)
continue (ok (true, a)) again = some (ok a)
continue (ok (false, a)) again = again a
continue (err e) again = some (err e)
continue panic again = some panic

module _ (crates : Crates) where
  open crates use {Cipher, Secret}

  -- a packet of the number that is expected next
  unfoldable pub expect_packet :
      MessageType
      → Message
      → Reader
      → SessionKeys Cipher
      → SshResult (SshPacket × Reader × SessionKeys Cipher)
  expect_packet kind text r keys = do
    (pkt, r', keys') ← recv_packet crates r keys
    if pkt.msg_type == as_u8 kind then ok (pkt, r', keys') else err (protocol text)

  -- the keys that a side sends and receives with: the letters of its cipher key, IV and MAC key
  unfoldable pub session_keys :
      KexResult
      → SessionKeys Cipher
      → (List ℕ × List ℕ × List ℕ)
      → (List ℕ × List ℕ × List ℕ)
      → SshResult (SessionKeys Cipher)
  session_keys result keys (send_key, send_iv, send_mac) (recv_key, recv_iv, recv_mac) = do
    pair ← cipher_pair crates send_key send_iv recv_key recv_iv
    ok (record keys {
      session_id = some result.exchange_hash;
      ciphers = some pair;
      send_mac_key = some send_mac;
      recv_mac_key = some recv_mac;
    })

  unfoldable pub derived : KexResult → ℕ → ℕ → List ℕ
  derived result key_char needed =
      derive_key crates result.shared_secret result.exchange_hash key_char result.exchange_hash
        needed

  -- client to server: enc_key_cs, iv_cs, mac_key_cs; and server to client
  unfoldable pub keys_cs : KexResult → List ℕ × List ℕ × List ℕ
  unfolding derived
  keys_cs result = (derived result b'C' 32, derived result b'A' 16, derived result b'E' 32)

  unfoldable pub keys_sc : KexResult → List ℕ × List ℕ × List ℕ
  unfolding derived
  keys_sc result = (derived result b'D' 32, derived result b'B' 16, derived result b'F' 32)

  -- 'Derive session keys' of the server, and of the client
  unfoldable pub server_keys : KexResult → SessionKeys Cipher → SshResult (SessionKeys Cipher)
  unfolding session_keys keys_cs keys_sc
  server_keys result keys = session_keys result keys (keys_sc result) (keys_cs result)

  unfoldable pub client_keys : KexResult → SessionKeys Cipher → SshResult (SessionKeys Cipher)
  unfolding session_keys keys_cs keys_sc
  client_keys result keys = session_keys result keys (keys_cs result) (keys_sc result)

  -- the payload of KEX_ECDH_REPLY
  unfoldable pub reply_payload : List ℕ → List ℕ → List ℕ
  unfolding compute_hmac
  reply_payload server_ephemeral_pub exchange_hash =
      let p1 = write_string [] host_key_blob in
      let p2 = write_string p1 server_ephemeral_pub in
      let signature = compute_hmac crates (ascii "host-key-secret") exchange_hash in
      write_string p2 signature

  -- Steps 1 and 2 of the connection, up to the client's KEX_ECDH_INIT.
  pub record Hello : Type 0 where
    pub client_version : List ℕ
    pub client_kexinit : List ℕ
    pub ecdh_init : List ℕ
    pub link : Link Cipher

  unfoldable pub receive_hello : (ℕ → ℕ → List ℕ) → Reader → Writer → SshResult Hello
  receive_hello random r w = do
    w1 ← send_version_string w ssh_version_string
    (client_version, r1) ← recv_version_string r
    (w2, k1) ←
        send_packet crates (random 1) w1 (new kex_init (build_kexinit_payload (random 0)))
          new_session
    (kexinit_pkt, r2, k2) ← expect_packet kex_init (msg "Expected KEXINIT") r1 k1
    (ecdh_pkt, r3, k3) ← expect_packet kex_ecdh_init (msg "Expected KEX_ECDH_INIT") r2 k2
    ok (record {
      client_version = client_version;
      client_kexinit = kexinit_pkt.payload;
      ecdh_init = ecdh_pkt.payload;
      link = record { reader = r3; writer = w2; keys = k3 };
    })

  -- The server's part of the key exchange, on the client's public key.
  unfoldable pub agree : (ℕ → ℕ → List ℕ) → Secret → Hello → SshResult (KexResult × KexSide crates)
  unfolding new_side
  agree random secret hello = do
    (client_pub, c) ← read_string hello.ecdh_init
    if not (length client_pub == 32)
        then err (key_exchange (msg "Invalid client public key length"))
        else server_complete crates (new_side crates secret) client_pub hello.client_version
            ssh_version_string (as_u8 kex_init ∷ hello.client_kexinit)
            (as_u8 kex_init ∷ build_kexinit_payload (random 0)) host_key_blob

  -- KEX_ECDH_REPLY and NEWKEYS of the server, NEWKEYS of the client, and the new keys.
  unfoldable pub switch_keys :
      (ℕ → ℕ → List ℕ) → List ℕ → KexResult → Link Cipher → SshResult (Link Cipher)
  unfolding server_keys reply_payload
  switch_keys random server_pub result l = do
    (w3, k4) ←
        send_packet crates (random 2) l.writer
          (new kex_ecdh_reply (reply_payload server_pub result.exchange_hash)) l.keys
    (w4, k5) ← send_packet crates (random 3) w3 (new new_keys []) k4
    (newkeys_pkt, r4, k6) ← expect_packet new_keys (msg "Expected NEWKEYS") l.reader k5
    keys ← server_keys result k6
    ok (record { reader = r4; writer = w4; keys = keys })

  -- Version and key exchange.
  unfoldable pub handshake : (ℕ → ℕ → List ℕ) → Secret → Reader → Writer → SshResult (Link Cipher)
  unfolding receive_hello agree switch_keys new_side
  handshake random secret r w = do
    hello ← receive_hello random r w
    (result, kex) ← agree random secret hello
    switch_keys random (new_side crates secret).ephemeral_pub result hello.link

  -- The service request, whatever service it names.
  unfoldable pub accept_service : (ℕ → List ℕ) → Link Cipher → SshResult (Link Cipher)
  accept_service fill l = do
    (pkt, r, k) ← expect_packet service_request (msg "Expected SERVICE_REQUEST") l.reader l.keys
    (service_name, c) ← read_utf8 pkt.payload
    (w, k') ← send_packet crates fill l.writer (build_service_accept service_name) k
    ok (record { reader = r; writer = w; keys = k' })

  module _ (db : UserDatabase) where
    -- One round of the authentication loop: whether the user was admitted.
    unfoldable pub attempt : (ℕ → List ℕ) → Link Cipher → SshResult (Bool × Link Cipher)
    unfolding auth_reply
    attempt fill l = do
      (pkt, r, k) ←
          expect_packet user_auth_request (msg "Expected USERAUTH_REQUEST") l.reader l.keys
      request ← parse pkt.payload
      let granted = admits db request.username request.credential
      (w, k') ← send_packet crates fill l.writer (auth_reply granted) k
      ok (granted, record { reader = r; writer = w; keys = k' })

    -- The loop, as far as the fuel goes; every round takes bytes from the stream.
    unfoldable pub authenticate :
        ℕ → (ℕ → ℕ → List ℕ) → Link Cipher → Option (SshResult (Link Cipher))
    unfolding attempt
    authenticate zero random l = none
    authenticate (suc fuel) random l = continue (attempt (random fuel) l) (authenticate fuel random)
