-- ===== src/Server/Handshake.antt =====
-- What the handshake leaves behind: keys of this exchange, and counted packets.
use swift_ssh.Prelude.{
  ℕ, ◌≡◌, ◌≢◌, sym, ap, ◌∙◌, Bool, true, not, Bool-cases, inl, inr, some, List, ◌∷◌, length, ◌==◌,
  ==_iff, if◌then◌else◌,
}
use swift_ssh.Error.{SshResult, SshError, ok, err, msg, key_exchange, ok-injective, >>=-eq-ok}
use swift_ssh.Packet.Types.{as_u8, kex_init, ssh_version_string}
use swift_ssh.Packet.Buf.{read_string}
use swift_ssh.Crypto.{Crates, cipher_pair}
use swift_ssh.Session.{SessionKeys, is_encrypted}
use swift_ssh.Transport.Stream.{Reader, Writer}
use swift_ssh.Transport.Io.Reads.{guard-eq-ok}
use swift_ssh.Transport.Kex.{
  KexResult, KexSide, new as new_side, server_complete, build_kexinit_payload,
}
use swift_ssh.Server.{
  Link, host_key_blob, derived, session_keys, keys_cs, keys_sc, server_keys, Hello, receive_hello,
  agree, handshake,
}
use swift_ssh.Server.Counts.{Counts}
use swift_ssh.Server.Greeting.{
  Greeted, receive_hello-Greeted, Greeted-Counts, Switched, switch_keys-Switched, Switched-Counts,
}

guard-true-ne-ok :
    (c : Bool) (e : SshError) {A : Type 0} (m : SshResult A) {a : A}
    → c ≡ true
    → (if c then err e else m) ≢ ok a
guard-true-ne-ok c e m h = rw h (λ q. cc)

module _ (crates : Crates) where
  open crates use {Cipher, Secret}

  -- What `server_keys` sets, and that it leaves the counts alone.
  server_keys-eq-ok :
      (result : KexResult) (keys : SessionKeys Cipher) {keys' : SessionKeys Cipher}
      → server_keys crates result keys ≡ ok keys'
      → (is_encrypted keys' ≡ true)
        × (keys'.session_id ≡ some result.exchange_hash)
        × (keys'.send_mac_key ≡ some (derived crates result b'F' 32))
        × (keys'.recv_mac_key ≡ some (derived crates result b'E' 32))
        × Counts keys' keys.send_seq keys.recv_seq
  unfolding server_keys session_keys keys_cs keys_sc is_encrypted
  server_keys-eq-ok result keys {keys'} h =
      let (pair, e1, h1) =
        >>=-eq-ok
          (cipher_pair crates (derived crates result b'D' 32) (derived crates result b'B' 16)
            (derived crates result b'C' 32) (derived crates result b'A' 16))
          _ h in
      let same = sym (ok-injective h1) in
      (
        ap (λ (k : SessionKeys Cipher). is_encrypted k) same,
        ap (λ (k : SessionKeys Cipher). k.session_id) same,
        ap (λ (k : SessionKeys Cipher). k.send_mac_key) same,
        ap (λ (k : SessionKeys Cipher). k.recv_mac_key) same,
        (
          ap (λ (k : SessionKeys Cipher). k.send_seq) same,
          ap (λ (k : SessionKeys Cipher). k.recv_seq) same,
        ),
      )

  agree-eq-ok :
      (random : ℕ → ℕ → List ℕ) (secret : Secret) (hello : Hello crates)
      {k : KexResult × KexSide crates}
      → agree crates random secret hello ≡ ok k
      → (client_pub : List ℕ) × (rest : List ℕ) × (read_string hello.ecdh_init
          ≡ ok (client_pub, rest))
        × (length client_pub ≡ 32)
        × (server_complete crates
              (new_side crates secret)
              client_pub
              hello.client_version
              ssh_version_string
              (as_u8 kex_init ∷ hello.client_kexinit)
              (as_u8 kex_init ∷ build_kexinit_payload (random 0))
              host_key_blob
            ≡ ok k)
  unfolding agree
  agree-eq-ok random secret hello h =
      let (c, e1, h1) = >>=-eq-ok (read_string hello.ecdh_init) _ h in
      elim (Bool-cases (length c.0 == 32)) [
        | inl e ↦ (
          c.0,
          c.1,
          e1,
          (==_iff _ _).0 e,
          guard-eq-ok (not (length c.0 == 32))
              (key_exchange (msg "Invalid client public key length")) _ h1,
        )
        | inr e ↦ absurd (guard-true-ne-ok _ _ _ (ap not e) h1)
      ]

  -- The state behind a handshake on `r`: what the client sent there, that the key exchange was
  -- completed over just that and what was written to `w`, and the keys.
  pub record Established (random : ℕ → ℕ → List ℕ) (secret : Secret) (r : Reader) (w : Writer)
      (l : Link Cipher) : Type 0 where
    pub hello : Hello crates
    pub greeted : Greeted crates random r w hello
    pub client_pub : List ℕ
    pub rest : List ℕ
    pub sent_pub : read_string hello.ecdh_init ≡ ok (client_pub, rest)
    pub size : length client_pub ≡ 32
    pub result : KexResult
    pub side : KexSide crates
    pub completed :
        server_complete crates
          (new_side crates secret)
          client_pub
          hello.client_version
          ssh_version_string
          (as_u8 kex_init ∷ hello.client_kexinit)
          (as_u8 kex_init ∷ build_kexinit_payload (random 0))
          host_key_blob
        ≡ ok (result, side)
    pub switched_keys :
        Switched crates random (new_side crates secret).ephemeral_pub result hello.link l
    pub encrypted : is_encrypted l.keys ≡ true
    pub session : l.keys.session_id ≡ some result.exchange_hash
    pub send_mac : l.keys.send_mac_key ≡ some (derived crates result b'F' 32)
    pub recv_mac : l.keys.recv_mac_key ≡ some (derived crates result b'E' 32)
    pub counts : Counts l.keys 3 3

  -- A handshake that succeeds has read the client's version line, KEXINIT and public key of 32 bytes
  -- from the stream, in this order, has written its own version line and KEXINIT, and has completed
  -- the key exchange over these; it has sent the reply with the exchange hash and NEWKEYS, and
  -- received NEWKEYS. From then on both directions are encrypted and under the MAC keys of that
  -- exchange, whose hash is the session id. Three packets have been sent and received, and the
  -- sequence numbers go on from there.
  pub handshake-Established :
      (random : ℕ → ℕ → List ℕ) (secret : Secret) (r : Reader) (w : Writer) (l : Link Cipher)
      → handshake crates random secret r w ≡ ok l
      → Established random secret r w l
  unfolding handshake
  handshake-Established random secret r w l h =
      let (hello, e1, h1) = >>=-eq-ok (receive_hello crates random r w) _ h in
      let (k, e2, h2) = >>=-eq-ok (agree crates random secret hello) _ h1 in
      let greeted = receive_hello-Greeted crates random r w hello e1 in
      let (client_pub, rest, sent_pub, size, completed) = agree-eq-ok random secret hello e2 in
      let s = switch_keys-Switched crates random _ k.0 hello.link l h2 in
      let counted =
        Switched-Counts crates random _ k.0 hello.link l s
          (Greeted-Counts crates random r w hello greeted) in
      let (encrypted, session, send_mac, recv_mac, counts) =
        server_keys-eq-ok k.0 s.before s.derived_keys in
      record {
        hello = hello;
        greeted = greeted;
        client_pub = client_pub;
        rest = rest;
        sent_pub = sent_pub;
        size = size;
        result = k.0;
        side = k.1;
        completed = completed;
        switched_keys = s;
        encrypted = encrypted;
        session = session;
        send_mac = send_mac;
        recv_mac = recv_mac;
        counts = (counts.0 ∙ counted.0, counts.1 ∙ counted.1);
      }
