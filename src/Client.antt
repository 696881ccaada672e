-- ===== src/Client.antt =====
-- src/bin/client.rs: the client's side of the version and key exchange.
-- `random n` are the bytes of the n-th draw of random bytes.
pub mod Steps
pub mod Payloads
pub mod Stages
pub mod Wires
pub mod Admitted
pub mod Opened
pub mod Ran
pub mod Joint
pub mod Session
pub mod Shell
pub mod Examples
use swift_ssh.Prelude.{ℕ, not, List, [], ◌∷◌, length, ◌==◌, if◌then◌else◌}
use swift_ssh.Error.{SshResult, ok, err, key_exchange, msg, ◌>>=◌}
use swift_ssh.Packet.Types.{
  as_u8, kex_init, kex_ecdh_init, kex_ecdh_reply, new_keys, ssh_version_string,
}
use swift_ssh.Packet.Buf.{read_string, write_string}
use swift_ssh.Packet.Codec.{new}
use swift_ssh.Crypto.{Crates}
use swift_ssh.Session.{SessionKeys, new as new_session}
use swift_ssh.Transport.Stream.{Reader, Writer}
use swift_ssh.Transport.Io.{send_packet}
use swift_ssh.Transport.Version.{send_version_string, recv_version_string}
use swift_ssh.Transport.Kex.{
  KexResult, KexSide, new as new_side, client_complete, build_kexinit_payload,
}
use swift_ssh.Server.{Link, expect_packet, client_keys}

module _ (crates : Crates) where
  open crates use {Cipher, Secret}

  -- What the server has offered, up to its KEX_ECDH_REPLY.
  pub record Offer : Type 0 where
    pub server_version : List ℕ
    pub server_kexinit : List ℕ
    pub reply : List ℕ
    pub link : Link Cipher

  unfoldable pub receive_offer : (ℕ → ℕ → List ℕ) → Secret → Reader → Writer → SshResult Offer
  unfolding new_side
  receive_offer random secret r w = do
    w1 ← send_version_string w ssh_version_string
    (server_version, r1) ← recv_version_string r
    (kexinit_pkt, r2, k1) ←
        expect_packet crates kex_init (msg "Expected KEXINIT from server") r1 new_session
    (w2, k2) ← send_packet crates (random 1) w1 (new kex_init (build_kexinit_payload (random 0))) k1
    (w3, k3) ←
        send_packet crates (random 2) w2
          (new kex_ecdh_init (write_string [] (new_side crates secret).ephemeral_pub)) k2
    (reply_pkt, r3, k4) ← expect_packet crates kex_ecdh_reply (msg "Expected KEX_ECDH_REPLY") r2 k3
    ok (record {
      server_version = server_version;
      server_kexinit = kexinit_pkt.payload;
      reply = reply_pkt.payload;
      link = record { reader = r3; writer = w3; keys = k4 };
    })

  -- The client's part of the key exchange, on the server's reply; the signature is not looked at.
  unfoldable pub accept_offer :
      (ℕ → ℕ → List ℕ) → Secret → Offer → SshResult (KexResult × KexSide crates)
  unfolding new_side
  accept_offer random secret offer = do
    (host_key_blob, c1) ← read_string offer.reply
    (server_pub, c2) ← read_string c1
    (signature, c3) ← read_string c2
    if not (length server_pub == 32)
        then err (key_exchange (msg "Invalid server public key length"))
        else client_complete crates (new_side crates secret) server_pub ssh_version_string
            offer.server_version (as_u8 kex_init ∷ build_kexinit_payload (random 0))
            (as_u8 kex_init ∷ offer.server_kexinit) host_key_blob

  -- NEWKEYS of both sides, and the new keys.
  unfoldable pub take_keys : (ℕ → ℕ → List ℕ) → KexResult → Link Cipher → SshResult (Link Cipher)
  unfolding client_keys
  take_keys random result l = do
    (newkeys_pkt, r4, k5) ← expect_packet crates new_keys (msg "Expected NEWKEYS") l.reader l.keys
    (w4, k6) ← send_packet crates (random 3) l.writer (new new_keys []) k5
    keys ← client_keys crates result k6
    ok (record { reader = r4; writer = w4; keys = keys })

  -- Steps 1 and 2 of `run_client`.
  unfoldable pub client_handshake :
      (ℕ → ℕ → List ℕ) → Secret → Reader → Writer → SshResult (Link Cipher)
  unfolding receive_offer accept_offer take_keys
  client_handshake random secret r w = do
    offer ← receive_offer random secret r w
    (result, kex) ← accept_offer random secret offer
    take_keys random result offer.link
