-- ===== src/Server/Connection.antt =====
-- `handle_connection` of src/bin/server.rs as a whole: the handshake, the service, the login and the
-- channel loop on one connection.
use swift_ssh.Prelude.{
  ℕ, ◌≡◌, ◌≢◌, ◌⊎◌, refl, inl, inr, Option, none, some, some-injective, List, ascii, arith,
}
use swift_ssh.Error.{SshResult, ok, err, panic, ◌>>=◌}
use swift_ssh.Crypto.{Crates}
use swift_ssh.Transport.Stream.{Reader, Writer}
use swift_ssh.Connection.Channel
use swift_ssh.Sftp.FileSystem.{FileSystem}
use swift_ssh.Sftp.Handler
use swift_ssh.Auth.{UserDatabase, new_database, add_password_user}
use swift_ssh.Server.{Link, handshake, accept_service, authenticate}
use swift_ssh.Server.Login.{LoggedIn, authenticate-eq-ok}
use swift_ssh.Server.Commands.{Output}
use swift_ssh.Server.Loop.{Conn}
use swift_ssh.Server.Loop.Requests.{Outcome}
use swift_ssh.Server.Loop.Run.{channel_loop}

-- the users of `main`
unfoldable pub server_users : UserDatabase
server_users =
    add_password_user (add_password_user new_database (ascii "admin") (ascii "admin"))
      (ascii "user") (ascii "password")

-- The random bytes of a connection, by the step that draws them.
pub record Draws : Type 0 where
  pub of_handshake : ℕ → ℕ → List ℕ
  pub of_service : ℕ → List ℕ
  pub of_login : ℕ → ℕ → List ℕ
  pub of_loop : ℕ → ℕ → ℕ → List ℕ

module _ (crates : Crates) (FS : FileSystem)
    (spawn : FS.Disk → List ℕ → List (List ℕ) → Output × FS.Disk) where
  open crates use {Cipher, Secret}

  -- A connection on which a user is logged in: nothing is open on it.
  abbrev pub fresh : List ℕ → Link Cipher → Conn Cipher
  fresh sftp_root link = record {
    link = link;
    channels = Channel.new;
    sftp_handler = Handler.new sftp_root;
  }

  -- `?` behind the login, which is over for a disk that it never had
  abbrev logged_in :
      Option (SshResult (Link Cipher))
      → FS.Disk
      → (Link Cipher → Option (Outcome crates FS spawn))
      → Option (Outcome crates FS spawn)
  logged_in none disk go_on = none
  logged_in (some (ok link)) disk go_on = go_on link
  logged_in (some (err e)) disk go_on = some (err e, disk)
  logged_in (some panic) disk go_on = some (panic, disk)

  -- the handshake and the service request
  unfoldable pub served_link : Draws → Secret → Reader → Writer → SshResult (Link Cipher)
  served_link draws secret r w = do
    link ← handshake crates draws.of_handshake secret r w
    accept_service crates draws.of_service link

  -- the login on it
  abbrev login_on :
      ℕ → Draws → UserDatabase → SshResult (Link Cipher) → Option (SshResult (Link Cipher))
  login_on fuel draws db (ok link) = authenticate crates db fuel draws.of_login link
  login_on fuel draws db (err e) = some (err e)
  login_on fuel draws db panic = some panic

  -- `fuel` bounds the rounds of the login and those of the channel loop.
  unfoldable pub handle_connection :
      ℕ
      → Draws
      → UserDatabase
      → List ℕ
      → Secret
      → Reader
      → Writer
      → FS.Disk
      → Option (Outcome crates FS spawn)
  unfolding served_link
  handle_connection fuel draws db sftp_root secret r w disk =
      logged_in (login_on fuel draws db (served_link draws secret r w)) disk
        λ link. channel_loop crates FS spawn fuel draws.of_loop (fresh sftp_root link) disk

  -- Someone has logged in on the connection with these bytes: it came through the handshake and the
  -- service request to `served`, from there through the login to `entered`, and the channel loop ran
  -- from there to its end.
  pub record Entered (fuel : ℕ) (draws : Draws) (db : UserDatabase) (sftp_root : List ℕ)
      (secret : Secret) (r : Reader) (w : Writer) (disk : FS.Disk) (end : Outcome crates FS spawn)
      : Type 0 where
    pub served : Link Cipher
    pub entered : Link Cipher
    pub reached : served_link draws secret r w ≡ ok served
    pub login : LoggedIn crates db served entered
    pub ran :
        channel_loop crates FS spawn fuel draws.of_loop (fresh sftp_root entered) disk ≡ some end

  -- The connection has ended with an error, and the disk is as it was.
  pub record Closed (disk : FS.Disk) (end : Outcome crates FS spawn) : Type 0 where
    pub same : end.1 ≡ disk
    pub failed : (c : Conn Cipher) → end.0 ≢ ok c

  after_login :
      (fuel : ℕ) (draws : Draws) (db : UserDatabase) (sftp_root : List ℕ) (secret : Secret)
      (r : Reader) (w : Writer) (disk : FS.Disk) (end : Outcome crates FS spawn)
      (served : SshResult (Link Cipher)) (login : Option (SshResult (Link Cipher)))
      → served_link draws secret r w ≡ served
      → login_on fuel draws db served ≡ login
      → logged_in login disk
          (λ link. channel_loop crates FS spawn fuel draws.of_loop (fresh sftp_root link) disk)
        ≡ some end
      → Closed disk end ⊎ Entered fuel draws db sftp_root secret r w disk end
  after_login fuel draws db sftp_root secret r w disk end served none e1 e2 e =
      absurd (ground arith)
  after_login fuel draws db sftp_root secret r w disk end (ok l) (some (ok link)) e1 e2 e =
      inr (record {
        served = l;
        entered = link;
        reached = e1;
        login = authenticate-eq-ok crates db fuel draws.of_login l link e2;
        ran = e;
      })
  after_login fuel draws db sftp_root secret r w disk end (err x) (some (ok link)) e1 e2 e =
      absurd (ground arith)
  after_login fuel draws db sftp_root secret r w disk end panic (some (ok link)) e1 e2 e =
      absurd (ground arith)
  after_login fuel draws db sftp_root secret r w disk end served (some (err x)) e1 e2 e =
      let s = some-injective e in
      inl (record { same = rw (← s) refl; failed = λ c. rw (← s) (λ q. ground arith) })
  after_login fuel draws db sftp_root secret r w disk end served (some panic) e1 e2 e =
      let s = some-injective e in
      inl (record { same = rw (← s) refl; failed = λ c. rw (← s) (λ q. ground arith) })

  -- Whatever bytes arrive on a connection: if it ends, then either with an error and the disk as it
  -- was, or this connection has passed the handshake and the service request, and on it, in the
  -- packet that ended the login, a password or key was presented that the user database holds for the
  -- user it names; only then did the channel loop run, from the connection that the login left.
  pub handle_connection_guarded :
      (fuel : ℕ) (draws : Draws) (db : UserDatabase) (sftp_root : List ℕ) (secret : Secret)
      (r : Reader) (w : Writer) (disk : FS.Disk) (end : Outcome crates FS spawn)
      → handle_connection fuel draws db sftp_root secret r w disk ≡ some end
      → Closed disk end ⊎ Entered fuel draws db sftp_root secret r w disk end
  unfolding handle_connection
  handle_connection_guarded fuel draws db sftp_root secret r w disk end e =
      after_login fuel draws db sftp_root secret r w disk end (served_link draws secret r w)
        (login_on fuel draws db (served_link draws secret r w)) refl refl e
