-- ===== src/Client/Admitted.antt =====
-- From the first byte of a connection to the end of the login, src/bin/client.rs and
-- src/bin/server.rs together.
use swift_ssh.Prelude.{ℕ, suc, ◌≡◌, refl, true, arith, List, [], ◌++◌, append_assoc}
use swift_ssh.Error.{IoError, SshResult, ok, err, panic, ◌>>=◌}
use swift_ssh.Crypto.{Crates}
use swift_ssh.Crypto.Laws.{IsMac, IsHash, IsAgreement, IsStreamCipher}
use swift_ssh.Session.{SessionKeys}
use swift_ssh.Transport.Io.Receive.{reader}
use swift_ssh.Transport.Io.Cut.{IsPacket, IsFill}
use swift_ssh.Transport.Io.Sync.{Synced}
use swift_ssh.Transport.Io.Plain.{Room, writer}
use swift_ssh.Connection.Channel
use swift_ssh.Sftp.FileSystem.{FileSystem}
use swift_ssh.Auth.{UserDatabase, verify_password}
use swift_ssh.Auth.Requests.{IsText}
use swift_ssh.Server.{authenticate}
use swift_ssh.Server.Commands.{Output}
use swift_ssh.Server.Connection.{Draws, fresh, served_link, handle_connection}
use swift_ssh.Server.Loop.Run.{channel_loop}
use swift_ssh.Client.Joint.{handshake-client_handshake}
use swift_ssh.Client.Session.{login, open_session}
use swift_ssh.Client.Session.Login.{link, request_of, login_admitted}
use swift_ssh.Client.Shell.{connect}

-- The random bytes of the client up to the open channel: those of the handshake, and those of the packets
-- behind it.
pub record ClientDraws : Type 0 where
  pub of_handshake : ℕ → ℕ → List ℕ
  pub of_session : ℕ → ℕ → List ℕ

pub record IsDraws (draws : Draws) (drawn : ClientDraws) : Type 0 where
  pub handshake_s : (n : ℕ) → IsFill (draws.of_handshake n)
  pub handshake_c : (n : ℕ) → IsFill (drawn.of_handshake n)
  pub service : IsFill draws.of_service
  pub login : (n : ℕ) → IsFill (draws.of_login n)
  pub loop : (n k : ℕ) → IsFill (draws.of_loop n k)
  pub session : (n : ℕ) → IsFill (drawn.of_session n)

-- Two steps that succeed, in front of a third.
bind_bind-ok {ℓ} :
    {A B D : Type ℓ} (r : SshResult A) (f : A → SshResult B) (g : B → SshResult D) (b : B)
    → (r >>= f) ≡ ok b
    → (r >>= λ a. f a >>= g) ≡ g b
bind_bind-ok (ok a) f g b h = rw h refl
bind_bind-ok (err e) f g b h = absurd (ground arith)
bind_bind-ok panic f g b h = absurd (ground arith)

module _ (crates : Crates) (FS : FileSystem)
    (spawn : FS.Disk → List ℕ → List (List ℕ) → Output × FS.Disk) where
  open crates use {Cipher, Secret}

  -- Two ends behind the login: each has read what the other wrote and left what is behind it. The
  -- server is at its channel loop, with nothing open, and the client is about to open its channel.
  pub record Admitted (fuel : ℕ) (draws : Draws) (drawn : ClientDraws) (db : UserDatabase)
      (user pass : List ℕ) (secret_s secret_c : Secret) : Type 0 where
    pub wire_s : List ℕ
    pub wire_c : List ℕ
    pub server : SessionKeys Cipher
    pub client : SessionKeys Cipher
    pub serves :
        (disk : FS.Disk) (sftp_root more : List ℕ) (e : IoError)
        → handle_connection crates FS spawn
            (suc fuel)
            draws
            db
            sftp_root
            secret_s
            (reader (wire_c ++ more) e)
            (writer [])
            disk
          ≡ channel_loop crates FS spawn
              (suc fuel)
              draws.of_loop
              (fresh crates FS spawn sftp_root (link crates more e wire_s server))
              disk
    pub asks :
        (more : List ℕ) (e : IoError)
        → connect crates drawn.of_handshake drawn.of_session secret_c user pass
            (reader (wire_s ++ more) e)
            (writer [])
          ≡ (do
            (remote_id, channels, l) ←
                open_session crates
                  (drawn.of_session 2)
                  Channel.new
                  (link crates more e wire_c client)
            ok (remote_id, l))
    pub up : Synced client server
    pub down : Synced server client

  -- A client gets in that knows a password of the server's user database, whose name and password
  -- are texts and fit one packet: connected to each other, `run_client` and `handle_connection`
  -- complete the handshake, the service request and the login, whatever secrets and random bytes they
  -- draw; the server enters its channel loop, the client goes on to open its channel, and then each
  -- can receive what the other sends.
  pub connection-Admitted :
      (stream : IsStreamCipher crates) (mac : IsMac crates) (hash : IsHash crates)
      (agreement : IsAgreement crates) (fuel : ℕ) (draws : Draws) (drawn : ClientDraws)
      (db : UserDatabase) (user pass : List ℕ) (secret_s secret_c : Secret)
      → IsDraws draws drawn
      → IsText user
      → IsText pass
      → IsPacket (request_of user pass)
      → Room (request_of user pass)
      → verify_password db user pass ≡ true
      → Admitted fuel draws drawn db user pass secret_s secret_c
  unfolding handle_connection served_link authenticate connect
  connection-Admitted stream mac hash agreement fuel draws drawn db user pass secret_s secret_c
        fills hu hp packet room known =
      let c =
        handshake-client_handshake crates mac hash agreement draws.of_handshake drawn.of_handshake
          secret_s secret_c fills.handshake_s fills.handshake_c in
      let l =
        login_admitted crates stream mac (drawn.of_session 0) draws.of_service (drawn.of_session 1)
          (draws.of_login fuel) db user pass c.wire_c c.wire_s c.client c.server (fills.session 0)
          fills.service (fills.session 1) (fills.login fuel) hu hp packet room known c.up c.down in
      record {
        wire_s = c.wire_s ++ l.wire_s;
        wire_c = c.wire_c ++ l.wire_c;
        server = l.server;
        client = l.client;
        serves = λ disk sftp_root more e.
            rw
              (
                append_assoc c.wire_c l.wire_c more,
                c.serves (l.wire_c ++ more) e,
                l.accepts more e,
                l.admits more e,
              )
              refl;
        asks = λ more e.
            rw (append_assoc c.wire_s l.wire_s more, c.asks (l.wire_s ++ more) e)
              (bind_bind-ok _ (login crates (drawn.of_session 1) user pass) _ _ (l.asks more e));
        up = l.up;
        down = l.down;
      }
