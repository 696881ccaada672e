-- ===== src/Client/Joint.antt =====
-- The handshake of a client and a server that talk to each other.
use swift_ssh.Prelude.{ℕ, ◌≡◌, refl, List, [], ◌∷◌, ◌++◌}
use swift_ssh.Error.{IoError, ok}
use swift_ssh.Packet.Types.{as_u8, kex_init, ssh_version_string}
use swift_ssh.Crypto.{Crates}
use swift_ssh.Crypto.Laws.{IsMac, IsHash, IsAgreement}
use swift_ssh.Transport.Io.Receive.{reader}
use swift_ssh.Transport.Io.Cut.{IsFill}
use swift_ssh.Transport.Io.Sync.{Synced}
use swift_ssh.Transport.Io.Plain.{plain_keys, writer}
use swift_ssh.Transport.Kex.{build_kexinit_payload}
use swift_ssh.Transport.Kex.Agreement.{complete_agree}
use swift_ssh.Server.{host_key_blob, handshake}
use swift_ssh.Server.Keys.{server_keys-client_keys}
use swift_ssh.Client.{client_handshake}
use swift_ssh.Client.Wires
use swift_ssh.Client.Wires.{pub_s, pub_c, kexinit_s, kexinit_c, serves_lem, asks_lem}
use swift_ssh.Session.{SessionKeys}

-- Two ends that have shaken hands: each has read what the other wrote and left what is behind it.
pub record Connected (crates : Crates) (random_s random_c : ℕ → ℕ → List ℕ)
    (secret_s secret_c : crates.Secret) : Type 0 where
  pub wire_s : List ℕ
  pub wire_c : List ℕ
  pub server : SessionKeys crates.Cipher
  pub client : SessionKeys crates.Cipher
  pub serves :
      (more : List ℕ) (e : IoError)
      → handshake crates random_s secret_s (reader (wire_c ++ more) e) (writer [])
        ≡ ok (record { reader = reader more e; writer = writer wire_s; keys = server })
  pub asks :
      (more : List ℕ) (e : IoError)
      → client_handshake crates random_c secret_c (reader (wire_s ++ more) e) (writer [])
        ≡ ok (record { reader = reader more e; writer = writer wire_c; keys = client })
  pub down : Synced server client
  pub up : Synced client server

-- A client and a server that are connected to each other complete the handshake, whatever secrets
-- and random bytes they draw: each accepts what the other writes, leaves the bytes behind it, and
-- then each can receive what the other sends.
pub handshake-client_handshake :
    (crates : Crates) (mac : IsMac crates) (hash : IsHash crates) (agreement : IsAgreement crates)
    (random_s random_c : ℕ → ℕ → List ℕ) (secret_s secret_c : crates.Secret)
    → ((n : ℕ) → IsFill (random_s n))
    → ((n : ℕ) → IsFill (random_c n))
    → Connected crates random_s random_c secret_s secret_c
unfolding pub_s pub_c kexinit_s kexinit_c
handshake-client_handshake crates mac hash agreement random_s random_c secret_s secret_c fs fc =
    let (result, asked, served) =
      complete_agree crates agreement secret_c secret_s ssh_version_string ssh_version_string
        (as_u8 kex_init ∷ build_kexinit_payload (random_c 0))
        (as_u8 kex_init ∷ build_kexinit_payload (random_s 0)) host_key_blob in
    let (ks, kc, keys_s, keys_c, down, up) =
      server_keys-client_keys crates hash result (plain_keys 3 3) (plain_keys 3 3) refl refl in
    record {
      wire_s = Wires.wire_s crates mac agreement random_s random_c secret_s secret_c fs fc result;
      wire_c = Wires.wire_c crates mac agreement random_s random_c secret_s secret_c fs fc;
      server = ks;
      client = kc;
      serves = λ more e.
          serves_lem crates mac agreement random_s random_c secret_s secret_c fs fc result _ ks more
            e served keys_s;
      asks = λ more e.
          asks_lem crates mac agreement random_s random_c secret_s secret_c fs fc result _ kc more e
            asked keys_c;
      down = down;
      up = up;
    }
