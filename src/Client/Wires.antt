-- ===== src/Client/Wires.antt =====
-- What each side writes in a handshake, and that the other side accepts it.
use swift_ssh.Prelude.{ℕ, ◌≡◌, refl, ap, ◌∙◌, List, [], ◌∷◌, ◌++◌, append_assoc, length}
use swift_ssh.Error.{IoError, ok}
use swift_ssh.Packet.Types.{
  as_u8, kex_init, kex_ecdh_init, kex_ecdh_reply, new_keys, ssh_version_string,
}
use swift_ssh.Packet.Buf.{write_string}
use swift_ssh.Packet.Codec.{new}
use swift_ssh.Packet.Codec.Shape.{framed}
use swift_ssh.Crypto.{Crates}
use swift_ssh.Crypto.Laws.{IsMac, IsAgreement}
use swift_ssh.Session.{SessionKeys}
use swift_ssh.Transport.Io.Receive.{reader}
use swift_ssh.Transport.Io.Cut.{IsFill}
use swift_ssh.Transport.Io.Plain.{plain_keys, writer}
use swift_ssh.Transport.Kex.{
  KexResult, KexSide, new as new_side, build_kexinit_payload, client_complete, server_complete,
}
use swift_ssh.Server.{
  Hello, receive_hello, agree, switch_keys, server_keys, client_keys, reply_payload, host_key_blob,
  handshake,
}
use swift_ssh.Client.{Offer, receive_offer, accept_offer, take_keys, client_handshake}
use swift_ssh.Client.Steps.{version_line, build_kexinit_payload-Room, receive_hello_lem}
use swift_ssh.Client.Stages.{
  receive_offer_lem, switch_keys_lem, take_keys_lem, agree_lem, accept_offer_lem,
}
use swift_ssh.Client.Payloads.{reply_payload-Room, ecdh_init-Room}

regroup : (v a b c more : List ℕ) → (((v ++ a) ++ b) ++ c) ++ more ≡ v ++ (a ++ (b ++ (c ++ more)))
regroup v a b c more = simp append_assoc

module _ (crates : Crates) (mac : IsMac crates) (agreement : IsAgreement crates)
    (random_s random_c : ℕ → ℕ → List ℕ) (secret_s secret_c : crates.Secret)
    (fs : (n : ℕ) → IsFill (random_s n)) (fc : (n : ℕ) → IsFill (random_c n)) where
  unfoldable pub pub_s : List ℕ
  pub_s = (new_side crates secret_s).ephemeral_pub

  unfoldable pub pub_c : List ℕ
  pub_c = (new_side crates secret_c).ephemeral_pub

  unfoldable pub kexinit_s : List ℕ
  kexinit_s = build_kexinit_payload (random_s 0)

  unfoldable pub kexinit_c : List ℕ
  kexinit_c = build_kexinit_payload (random_c 0)

  -- What the server writes, for a result of the key exchange, and what the client writes.
  unfoldable pub wire_s : KexResult → List ℕ
  wire_s result =
      ((version_line ++ framed (random_s 1) 8 (new kex_init kexinit_s))
        ++ framed (random_s 2) 8
            (new kex_ecdh_reply (reply_payload crates pub_s result.exchange_hash)))
      ++ framed (random_s 3) 8 (new new_keys [])

  unfoldable pub wire_c : List ℕ
  wire_c =
      ((version_line ++ framed (random_c 1) 8 (new kex_init kexinit_c))
        ++ framed (random_c 2) 8 (new kex_ecdh_init (write_string [] pub_c)))
      ++ framed (random_c 3) 8 (new new_keys [])

  length-pub_s : length pub_s ≡ 32
  unfolding pub_s new_side
  length-pub_s = agreement.length-public_key secret_s

  length-pub_c : length pub_c ≡ 32
  unfolding pub_c new_side
  length-pub_c = agreement.length-public_key secret_c

  hello_of : List ℕ → IoError → Hello crates
  hello_of more e = record {
    client_version = ssh_version_string;
    client_kexinit = kexinit_c;
    ecdh_init = write_string [] pub_c;
    link = record {
      reader = reader (framed (random_c 3) 8 (new new_keys []) ++ more) e;
      writer = writer (version_line ++ framed (random_s 1) 8 (new kex_init kexinit_s));
      keys = plain_keys 1 2;
    };
  }

  hello_lem :
      (more : List ℕ) (e : IoError)
      → receive_hello crates random_s (reader (wire_c ++ more) e) (writer []) ≡ ok (hello_of more e)
  unfolding hello_of wire_c kexinit_c kexinit_s new
  hello_lem more e =
      ap (λ (l : List ℕ). receive_hello crates random_s (reader l e) (writer []))
        (regroup version_line _ _ _ more)
      ∙ receive_hello_lem crates mac random_s (random_c 1) (random_c 2) kexinit_c
          (write_string [] pub_c) _ e (fc 1) (fc 2) ((fs 0).fills 16)
          (build_kexinit_payload-Room (random_c 0) ((fc 0).fills 16))
          (ecdh_init-Room crates mac pub_c length-pub_c)

  pub serves_lem :
      (result : KexResult) (side : KexSide crates) (keys : SessionKeys crates.Cipher)
      (more : List ℕ) (e : IoError)
      → server_complete crates
          (new_side crates secret_s)
          pub_c
          ssh_version_string
          ssh_version_string
          (as_u8 kex_init ∷ kexinit_c)
          (as_u8 kex_init ∷ kexinit_s)
          host_key_blob
        ≡ ok (result, side)
      → server_keys crates result (plain_keys 3 3) ≡ ok keys
      → handshake crates random_s secret_s (reader (wire_c ++ more) e) (writer [])
        ≡ ok (record { reader = reader more e; writer = writer (wire_s result); keys = keys })
  unfolding handshake
  serves_lem result side keys more e completed derived =
      rw (hello_lem more e, agreed, switched) refl
    where
      agreed : agree crates random_s secret_s (hello_of more e) ≡ ok (result, side)
      agreed =
          unfold hello_of kexinit_s in
          agree_lem crates mac random_s secret_s (hello_of more e) pub_c refl length-pub_c
          ∙ completed

      switched :
          switch_keys crates random_s
            (new_side crates secret_s).ephemeral_pub
            result
            (hello_of more e).link
          ≡ ok (record { reader = reader more e; writer = writer (wire_s result); keys = keys })
      switched =
          unfold hello_of wire_s pub_s in
          switch_keys_lem crates mac random_s pub_s result (random_c 3) _ more e keys (fc 3)
            (reply_payload-Room crates mac pub_s result.exchange_hash length-pub_s) derived

  offer_of : KexResult → List ℕ → IoError → Offer crates
  offer_of result more e = record {
    server_version = ssh_version_string;
    server_kexinit = kexinit_s;
    reply = reply_payload crates pub_s result.exchange_hash;
    link = record {
      reader = reader (framed (random_s 3) 8 (new new_keys []) ++ more) e;
      writer = writer (
          (version_line ++ framed (random_c 1) 8 (new kex_init kexinit_c))
          ++ framed (random_c 2) 8 (new kex_ecdh_init (write_string [] pub_c)));
      keys = plain_keys 2 2;
    };
  }

  offer_lem :
      (result : KexResult) (more : List ℕ) (e : IoError)
      → receive_offer crates random_c secret_c (reader (wire_s result ++ more) e) (writer [])
        ≡ ok (offer_of result more e)
  unfolding offer_of wire_s kexinit_c kexinit_s pub_c new
  offer_lem result more e =
      ap (λ (l : List ℕ). receive_offer crates random_c secret_c (reader l e) (writer []))
        (regroup version_line _ _ _ more)
      ∙ receive_offer_lem crates mac random_c secret_c (random_s 1) (random_s 2) kexinit_s
          (reply_payload crates pub_s result.exchange_hash) _ e (fs 1) (fs 2) ((fc 0).fills 16)
          (build_kexinit_payload-Room (random_s 0) ((fs 0).fills 16))
          (reply_payload-Room crates mac pub_s result.exchange_hash length-pub_s)
          (ecdh_init-Room crates mac pub_c length-pub_c)

  pub asks_lem :
      (result : KexResult) (side : KexSide crates) (keys : SessionKeys crates.Cipher)
      (more : List ℕ) (e : IoError)
      → client_complete crates
          (new_side crates secret_c)
          pub_s
          ssh_version_string
          ssh_version_string
          (as_u8 kex_init ∷ kexinit_c)
          (as_u8 kex_init ∷ kexinit_s)
          host_key_blob
        ≡ ok (result, side)
      → client_keys crates result (plain_keys 3 3) ≡ ok keys
      → client_handshake crates random_c secret_c (reader (wire_s result ++ more) e) (writer [])
        ≡ ok (record { reader = reader more e; writer = writer wire_c; keys = keys })
  unfolding client_handshake
  asks_lem result side keys more e completed derived =
      rw (offer_lem result more e, agreed, taken) refl
    where
      agreed : accept_offer crates random_c secret_c (offer_of result more e) ≡ ok (result, side)
      agreed =
          unfold offer_of kexinit_c in
          accept_offer_lem crates mac random_c secret_c (offer_of result more e) pub_s
            result.exchange_hash refl length-pub_s
          ∙ completed

      taken :
          take_keys crates random_c result (offer_of result more e).link
          ≡ ok (record { reader = reader more e; writer = writer wire_c; keys = keys })
      taken =
          unfold offer_of wire_c in
          take_keys_lem crates mac random_c result (random_s 3) _ more e keys (fs 3) derived
