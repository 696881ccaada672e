-- ===== src/Client/Opened.antt =====
-- From the first byte of a connection to the open session channel, src/bin/client.rs and
-- src/bin/server.rs together.
use swift_ssh.Prelude.{ℕ, suc, ◌≡◌, refl, ◌∙◌, true, List, [], ◌++◌, append_assoc}
use swift_ssh.Error.{IoError, ok}
use swift_ssh.Crypto.{Crates}
use swift_ssh.Crypto.Laws.{IsMac, IsHash, IsAgreement, IsStreamCipher}
use swift_ssh.Session.{SessionKeys}
use swift_ssh.Transport.Io.Receive.{reader}
use swift_ssh.Transport.Io.Cut.{IsPacket}
use swift_ssh.Transport.Io.Sync.{Synced}
use swift_ssh.Transport.Io.Plain.{Room, writer}
use swift_ssh.Transport.Io.Exchange.{exchange}
use swift_ssh.Sftp.FileSystem.{FileSystem}
use swift_ssh.Sftp.Handler
use swift_ssh.Auth.{UserDatabase, verify_password}
use swift_ssh.Auth.Requests.{IsText}
use swift_ssh.Server.Commands.{Output}
use swift_ssh.Server.Connection.{Draws, handle_connection}
use swift_ssh.Server.Loop.Run.{channel_loop}
use swift_ssh.Client.Session.Login.{link, request_of}
use swift_ssh.Client.Session.Opened.{
  opening, confirmation, one_channel, opening-IsPacket, opening-Room, confirmation-IsPacket,
  confirmation-Room, open_session-opening, channel_loop-opening,
}
use swift_ssh.Client.Admitted.{ClientDraws, IsDraws, connection-Admitted}
use swift_ssh.Client.Shell.{connect}

module _ (crates : Crates) (FS : FileSystem)
    (spawn : FS.Disk → List ℕ → List (List ℕ) → Output × FS.Disk) where
  open crates use {Cipher, Secret}

  -- Two ends with a session channel between them: each has read what the other wrote and left what
  -- is behind it. The server's loop goes on with the one channel in its table.
  pub record Opened (fuel : ℕ) (draws : Draws) (drawn : ClientDraws) (db : UserDatabase)
      (user pass : List ℕ) (secret_s secret_c : Secret) : Type 0 where
    pub wire_s : List ℕ
    pub wire_c : List ℕ
    pub server : SessionKeys Cipher
    pub client : SessionKeys Cipher
    pub serves :
        (disk : FS.Disk) (sftp_root more : List ℕ) (e : IoError)
        → handle_connection crates FS spawn
            (suc fuel)
            draws
            db
            sftp_root
            secret_s
            (reader (wire_c ++ more) e)
            (writer [])
            disk
          ≡ channel_loop crates FS spawn fuel draws.of_loop
              (record {
                link = link crates more e wire_s server;
                channels = one_channel;
                sftp_handler = Handler.new sftp_root;
              })
              disk
    pub connects :
        (more : List ℕ) (e : IoError)
        → connect crates drawn.of_handshake drawn.of_session secret_c user pass
            (reader (wire_s ++ more) e)
            (writer [])
          ≡ ok (0, link crates more e wire_c client)
    pub up : Synced client server
    pub down : Synced server client

  -- A client gets a session channel that knows a password of the server's user database, whose name
  -- and password are texts and fit one packet: connected to each other, `run_client` and
  -- `handle_connection` complete the handshake, the service request, the login and the opening of the
  -- channel, whatever secrets and random bytes they draw; the server's loop goes on with the one
  -- channel, the client has the number 0 for it, and then each can receive what the other sends.
  pub connection-Opened :
      (stream : IsStreamCipher crates) (mac : IsMac crates) (hash : IsHash crates)
      (agreement : IsAgreement crates) (fuel : ℕ) (draws : Draws) (drawn : ClientDraws)
      (db : UserDatabase) (user pass : List ℕ) (secret_s secret_c : Secret)
      → IsDraws draws drawn
      → IsText user
      → IsText pass
      → IsPacket (request_of user pass)
      → Room (request_of user pass)
      → verify_password db user pass ≡ true
      → Opened fuel draws drawn db user pass secret_s secret_c
  connection-Opened stream mac hash agreement fuel draws drawn db user pass secret_s secret_c fills
        hu hp packet room known =
      let a =
        connection-Admitted crates FS spawn stream mac hash agreement fuel draws drawn db user pass
          secret_s secret_c fills hu hp packet room known in
      let x =
        exchange crates stream mac (drawn.of_session 2) (draws.of_loop fuel 0) a.wire_c a.wire_s
          opening confirmation a.client a.server (fills.session 2) (fills.loop fuel 0)
          opening-IsPacket opening-Room confirmation-IsPacket confirmation-Room a.up a.down in
      record {
        wire_s = a.wire_s ++ x.wire_down;
        wire_c = a.wire_c ++ x.wire_up;
        server = x.server;
        client = x.client;
        serves = λ disk sftp_root more e. rw (append_assoc a.wire_c x.wire_up more) (
            a.serves disk sftp_root (x.wire_up ++ more) e
            ∙ channel_loop-opening crates (drawn.of_session 2) (draws.of_loop fuel 0) a.wire_c
                a.wire_s more e a.client a.server x FS spawn fuel draws.of_loop disk
                (Handler.new sftp_root) refl);
        connects = λ more e.
            rw
              (
                append_assoc a.wire_s x.wire_down more,
                a.asks (x.wire_down ++ more) e,
                open_session-opening crates (drawn.of_session 2) (draws.of_loop fuel 0) a.wire_c
                    a.wire_s more e a.client a.server x,
              )
              refl;
        up = x.up;
        down = x.down;
      }
