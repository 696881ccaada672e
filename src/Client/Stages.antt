-- ===== src/Client/Stages.antt =====
-- The stages of the handshake, each on what the other side sends.
use swift_ssh.Prelude.{ℕ, ◌≡◌, refl, List, [], ◌∷◌, ◌++◌, append-nil, length, arith}
use swift_ssh.Error.{IoError, ok, msg}
use swift_ssh.Packet.Types.{
  as_u8, kex_init, kex_ecdh_init, kex_ecdh_reply, new_keys, ssh_version_string,
}
use swift_ssh.Packet.Buf.{write_string}
use swift_ssh.Packet.Buf.Laws.{string_bytes, write_string_lem}
use swift_ssh.Packet.Codec.{new}
use swift_ssh.Packet.Codec.Shape.{framed}
use swift_ssh.Crypto.{Crates}
use swift_ssh.Crypto.Laws.{IsMac}
use swift_ssh.Session.{SessionKeys}
use swift_ssh.Transport.Io.Receive.{reader}
use swift_ssh.Transport.Io.Cut.{IsFill}
use swift_ssh.Transport.Io.Plain.{plain_keys, writer, Room, send_plain}
use swift_ssh.Transport.Kex.{
  KexResult, new as new_side, build_kexinit_payload, client_complete, server_complete,
}
use swift_ssh.Server.{
  Hello, agree, switch_keys, server_keys, client_keys, reply_payload, host_key_blob,
}
use swift_ssh.Client.{Offer, receive_offer, accept_offer, take_keys}
use swift_ssh.Client.Steps.{
  version_line, send_version_line, recv_version_line, build_kexinit_payload-Room, new_session_lem,
  expect_plain,
}
use swift_ssh.Client.Payloads.{
  read_string-write_string, signature_of, length-signature_of, reply_payload_lem,
}

module _ (crates : Crates) (mac : IsMac crates) where
  open crates use {Cipher, Secret}

  pub receive_offer_lem :
      (random : ℕ → ℕ → List ℕ) (secret : Secret) (f1 f2 : ℕ → List ℕ) (kexinit reply rest : List ℕ)
      (e : IoError)
      → IsFill f1
      → IsFill f2
      → length (random 0 16) ≡ 16
      → Room (new kex_init kexinit)
      → Room (new kex_ecdh_reply reply)
      → Room (new kex_ecdh_init (write_string [] (new_side crates secret).ephemeral_pub))
      → receive_offer crates random secret
          (reader
            (version_line
              ++ (framed f1 8 (new kex_init kexinit)
                  ++ (framed f2 8 (new kex_ecdh_reply reply) ++ rest)))
            e)
          (writer [])
        ≡ ok (record {
          server_version = ssh_version_string;
          server_kexinit = (new kex_init kexinit).payload;
          reply = (new kex_ecdh_reply reply).payload;
          link = record {
            reader = reader rest e;
            writer = writer (
                (version_line
                  ++ framed (random 1) 8 (new kex_init (build_kexinit_payload (random 0))))
                ++ framed
                    (random 2)
                    8
                    (new kex_ecdh_init (write_string [] (new_side crates secret).ephemeral_pub)));
            keys = plain_keys 2 2;
          };
        })
  unfolding receive_offer
  receive_offer_lem random secret f1 f2 kexinit reply rest e h1 h2 h h3 h4 h5 =
      rw
        (
          send_version_line,
          recv_version_line _ e,
          new_session_lem,
          expect_plain crates mac kex_init (msg "Expected KEXINIT from server") kexinit f1 _ e 0 0
              h1 h3,
          send_plain crates (random 1) version_line
              (new kex_init (build_kexinit_payload (random 0))) 0 1
              (build_kexinit_payload-Room (random 0) h),
          send_plain crates (random 2) _
              (new kex_ecdh_init (write_string [] (new_side crates secret).ephemeral_pub)) 1 1 h5,
          expect_plain crates mac kex_ecdh_reply (msg "Expected KEX_ECDH_REPLY") reply f2 rest e 2 1
              h2 h4,
        )
        refl

  pub new_keys-Room : Room (new new_keys [])
  unfolding new
  new_keys-Room = omega arith

  pub switch_keys_lem :
      (random : ℕ → ℕ → List ℕ) (server_pub : List ℕ) (result : KexResult) (f : ℕ → List ℕ)
      (sent rest : List ℕ) (e : IoError) (keys : SessionKeys Cipher)
      → IsFill f
      → Room (new kex_ecdh_reply (reply_payload crates server_pub result.exchange_hash))
      → server_keys crates result (plain_keys 3 3) ≡ ok keys
      → switch_keys crates random server_pub result (record {
        reader = reader (framed f 8 (new new_keys []) ++ rest) e;
        writer = writer sent;
        keys = plain_keys 1 2;
      })
        ≡ ok (record {
          reader = reader rest e;
          writer = writer (
              (sent
                ++ framed
                    (random 2)
                    8
                    (new kex_ecdh_reply (reply_payload crates server_pub result.exchange_hash)))
              ++ framed (random 3) 8 (new new_keys []));
          keys = keys;
        })
  unfolding switch_keys
  switch_keys_lem random server_pub result f sent rest e keys hf h1 h2 =
      rw
        (
          send_plain crates (random 2) sent
              (new kex_ecdh_reply (reply_payload crates server_pub result.exchange_hash)) 1 2 h1,
          send_plain crates (random 3) _ (new new_keys []) 2 2 new_keys-Room,
          expect_plain crates mac new_keys (msg "Expected NEWKEYS") [] f rest e 3 2 hf
              new_keys-Room,
          h2,
        )
        refl

  pub take_keys_lem :
      (random : ℕ → ℕ → List ℕ) (result : KexResult) (f : ℕ → List ℕ) (sent rest : List ℕ)
      (e : IoError) (keys : SessionKeys Cipher)
      → IsFill f
      → client_keys crates result (plain_keys 3 3) ≡ ok keys
      → take_keys crates random result (record {
        reader = reader (framed f 8 (new new_keys []) ++ rest) e;
        writer = writer sent;
        keys = plain_keys 2 2;
      })
        ≡ ok (record {
          reader = reader rest e;
          writer = writer (sent ++ framed (random 3) 8 (new new_keys []));
          keys = keys;
        })
  unfolding take_keys
  take_keys_lem random result f sent rest e keys hf h =
      rw
        (
          expect_plain crates mac new_keys (msg "Expected NEWKEYS") [] f rest e 2 2 hf
              new_keys-Room,
          send_plain crates (random 3) sent (new new_keys []) 2 3 new_keys-Room,
          h,
        )
        refl

  pub agree_lem :
      (random : ℕ → ℕ → List ℕ) (secret : Secret) (hello : Hello crates) (client_pub : List ℕ)
      → hello.ecdh_init ≡ write_string [] client_pub
      → length client_pub ≡ 32
      → agree crates random secret hello
        ≡ server_complete crates
            (new_side crates secret)
            client_pub
            hello.client_version
            ssh_version_string
            (as_u8 kex_init ∷ hello.client_kexinit)
            (as_u8 kex_init ∷ build_kexinit_payload (random 0))
            host_key_blob
  unfolding agree
  agree_lem random secret hello client_pub e h =
      rw
        (
          e,
          write_string_lem,
          ← append-nil (string_bytes client_pub),
          read_string-write_string crates mac client_pub [] (omega (arith, h)),
          h,
        )
        refl

  pub accept_offer_lem :
      (random : ℕ → ℕ → List ℕ) (secret : Secret) (offer : Offer crates) (server_pub hash : List ℕ)
      → offer.reply ≡ reply_payload crates server_pub hash
      → length server_pub ≡ 32
      → accept_offer crates random secret offer
        ≡ client_complete crates
            (new_side crates secret)
            server_pub
            ssh_version_string
            offer.server_version
            (as_u8 kex_init ∷ build_kexinit_payload (random 0))
            (as_u8 kex_init ∷ offer.server_kexinit)
            host_key_blob
  unfolding accept_offer
  accept_offer_lem random secret offer server_pub hash e h =
      rw
        (
          e,
          reply_payload_lem crates mac server_pub hash,
          read_string-write_string crates mac host_key_blob _ (omega arith),
          read_string-write_string crates mac server_pub _ (omega (arith, h)),
          ← append-nil (string_bytes (signature_of crates mac hash)),
          read_string-write_string crates mac (signature_of crates mac hash) []
              (omega (arith, length-signature_of crates mac hash)),
          h,
        )
        refl
