-- ===== src/Server/Greeting.antt =====
-- The messages of the server's handshake, one after the other, and how they are counted.
use swift_ssh.Prelude.{[], ℕ, ◌+◌, ◌%◌, ◌^◌, ◌≡◌, subst, ap, ◌∙◌, List, arith}
use swift_ssh.Error.{ok, Message, msg, ok-injective, >>=-eq-ok}
use swift_ssh.Packet.Types.{
  MessageType, kex_init, kex_ecdh_init, kex_ecdh_reply, new_keys, ssh_version_string,
}
use swift_ssh.Packet.Codec.{SshPacket, new}
use swift_ssh.Crypto.{Crates}
use swift_ssh.Session.{SessionKeys, new as new_session}
use swift_ssh.Transport.Stream.{Reader, Writer}
use swift_ssh.Transport.Io.{send_packet, recv_packet}
use swift_ssh.Transport.Version.{send_version_string, recv_version_string}
use swift_ssh.Transport.Kex.{KexResult, build_kexinit_payload}
use swift_ssh.Server.{
  Link, expect_packet, server_keys, reply_payload, Hello, receive_hello, switch_keys,
}
use swift_ssh.Server.Login.{expect_packet-eq-ok}
use swift_ssh.Server.Counts.{Counts, send_packet-Counts, recv_packet-Counts}

module _ (crates : Crates) where
  open crates use {Cipher, Secret}

  -- One packet sent and two received, from the new keys; and two sent and one received.
  counted :
      (a b c : SessionKeys Cipher)
      → Counts a 1 0
      → Counts b a.send_seq ((a.recv_seq + 1) % 2 ^ 32)
      → Counts c b.send_seq ((b.recv_seq + 1) % 2 ^ 32)
      → Counts c 1 2
  counted a b c ha hb hc = (omega (arith, ha, hb, hc), omega (arith, ha, hb, hc))

  switched :
      (a b c d : SessionKeys Cipher)
      → Counts a 1 2
      → Counts b ((a.send_seq + 1) % 2 ^ 32) a.recv_seq
      → Counts c ((b.send_seq + 1) % 2 ^ 32) b.recv_seq
      → Counts d c.send_seq ((c.recv_seq + 1) % 2 ^ 32)
      → Counts d 3 3
  switched a b c d ha hb hc hd = (omega (arith, ha, hb, hc, hd), omega (arith, ha, hb, hc, hd))

  -- What was written and read up to the client's KEX_ECDH_INIT: the server's version line and
  -- KEXINIT, then the client's version line, its KEXINIT, and the packet with its public key.
  pub record Greeted (random : ℕ → ℕ → List ℕ) (r : Reader) (w : Writer) (hello : Hello crates)
      : Type 0 where
    pub written : Writer
    pub behind_version : Reader
    pub behind_kexinit : Reader
    pub keys_1 : SessionKeys Cipher
    pub keys_2 : SessionKeys Cipher
    pub greeted : send_version_string w ssh_version_string ≡ ok written
    pub version : recv_version_string r ≡ ok (hello.client_version, behind_version)
    pub offered :
        send_packet crates
          (random 1)
          written
          (new kex_init (build_kexinit_payload (random 0)))
          new_session
        ≡ ok (hello.link.writer, keys_1)
    pub kexinit :
        recv_packet crates behind_version keys_1
        ≡ ok (new kex_init hello.client_kexinit, behind_kexinit, keys_2)
    pub ecdh_init :
        recv_packet crates behind_kexinit keys_2
        ≡ ok (new kex_ecdh_init hello.ecdh_init, hello.link.reader, hello.link.keys)

  expected :
      (kind : MessageType) (text : Message) (r : Reader) (keys : SessionKeys Cipher)
      (q : SshPacket × Reader × SessionKeys Cipher)
      → expect_packet crates kind text r keys ≡ ok q
      → recv_packet crates r keys ≡ ok (new kind q.0.payload, q.1, q.2)
  unfolding new
  expected kind text r keys q h =
      let (got, number) = expect_packet-eq-ok crates kind text r keys h in
      got ∙ ap (λ (n : ℕ). ok (record { msg_type = n; payload = q.0.payload }, q.1, q.2)) number

  pub receive_hello-Greeted :
      (random : ℕ → ℕ → List ℕ) (r : Reader) (w : Writer) (hello : Hello crates)
      → receive_hello crates random r w ≡ ok hello
      → Greeted random r w hello
  unfolding receive_hello
  receive_hello-Greeted random r w hello h =
      let (w1, e1, h1) = >>=-eq-ok (send_version_string w ssh_version_string) _ h in
      let (v, e2, h2) = >>=-eq-ok (recv_version_string r) _ h1 in
      let (s1, e3, h3) =
        >>=-eq-ok
          (send_packet crates (random 1) w1 (new kex_init (build_kexinit_payload (random 0)))
            new_session)
          _ h2 in
      let (p1, e4, h4) =
        >>=-eq-ok (expect_packet crates kex_init (msg "Expected KEXINIT") v.1 s1.1) _ h3 in
      let (p2, e5, h5) =
        >>=-eq-ok (expect_packet crates kex_ecdh_init (msg "Expected KEX_ECDH_INIT") p1.1 p1.2) _
          h4 in
      subst (λ (q : Hello crates). Greeted random r w q) (ok-injective h5)
        (record {
          written = w1;
          behind_version = v.1;
          behind_kexinit = p1.1;
          keys_1 = s1.1;
          keys_2 = p1.2;
          greeted = e1;
          version = e2;
          offered = e3;
          kexinit = expected _ _ _ _ p1 e4;
          ecdh_init = expected _ _ _ _ p2 e5;
        })

  pub Greeted-Counts :
      (random : ℕ → ℕ → List ℕ) (r : Reader) (w : Writer) (hello : Hello crates)
      → Greeted random r w hello
      → Counts hello.link.keys 1 2
  unfolding new_session
  Greeted-Counts random r w hello g =
      counted g.keys_1 g.keys_2 hello.link.keys (send_packet-Counts crates _ _ _ _ g.offered)
        (recv_packet-Counts crates _ _ g.kexinit) (recv_packet-Counts crates _ _ g.ecdh_init)

  -- What was written and read behind that: the reply with the exchange hash, NEWKEYS of both sides,
  -- and then the new keys.
  pub record Switched (random : ℕ → ℕ → List ℕ) (server_pub : List ℕ) (result : KexResult)
      (l l' : Link Cipher) : Type 0 where
    pub replied : Writer
    pub keys_4 : SessionKeys Cipher
    pub keys_5 : SessionKeys Cipher
    pub before : SessionKeys Cipher
    pub payload : List ℕ
    pub reply :
        send_packet crates
          (random 2)
          l.writer
          (new kex_ecdh_reply (reply_payload crates server_pub result.exchange_hash))
          l.keys
        ≡ ok (replied, keys_4)
    pub switches :
        send_packet crates (random 3) replied (new new_keys []) keys_4 ≡ ok (l'.writer, keys_5)
    pub client_switches :
        recv_packet crates l.reader keys_5 ≡ ok (new new_keys payload, l'.reader, before)
    pub derived_keys : server_keys crates result before ≡ ok l'.keys

  pub switch_keys-Switched :
      (random : ℕ → ℕ → List ℕ) (server_pub : List ℕ) (result : KexResult) (l l' : Link Cipher)
      → switch_keys crates random server_pub result l ≡ ok l'
      → Switched random server_pub result l l'
  unfolding switch_keys
  switch_keys-Switched random server_pub result l l' h =
      let (s2, e1, h1) =
        >>=-eq-ok
          (send_packet crates (random 2) l.writer
            (new kex_ecdh_reply (reply_payload crates server_pub result.exchange_hash)) l.keys)
          _ h in
      let (s3, e2, h2) =
        >>=-eq-ok (send_packet crates (random 3) s2.0 (new new_keys []) s2.1) _ h1 in
      let (p3, e3, h3) =
        >>=-eq-ok (expect_packet crates new_keys (msg "Expected NEWKEYS") l.reader s3.1) _ h2 in
      let (keys, e4, h4) = >>=-eq-ok (server_keys crates result p3.2) _ h3 in
      subst (λ (q : Link Cipher). Switched random server_pub result l q) (ok-injective h4)
        (record {
          replied = s2.0;
          keys_4 = s2.1;
          keys_5 = s3.1;
          before = p3.2;
          payload = p3.0.payload;
          reply = e1;
          switches = e2;
          client_switches = expected _ _ _ _ p3 e3;
          derived_keys = e4;
        })

  pub Switched-Counts :
      (random : ℕ → ℕ → List ℕ) (server_pub : List ℕ) (result : KexResult) (l l' : Link Cipher)
      (s : Switched random server_pub result l l')
      → Counts l.keys 1 2
      → Counts s.before 3 3
  Switched-Counts random server_pub result l l' s c =
      switched l.keys s.keys_4 s.keys_5 s.before c (send_packet-Counts crates _ _ _ _ s.reply)
        (send_packet-Counts crates _ _ _ _ s.switches)
        (recv_packet-Counts crates _ _ s.client_switches)
