-- ===== src/Client/Shell.antt =====
-- The loops of src/bin/client.rs on the session channel, and `run_client` as a whole.
use swift_ssh.Prelude.{ℕ, zero, suc, Bool, true, false, Option, none, some, List, [], ◌∷◌, ascii}
use swift_ssh.Error.{SshResult, ok, err, panic, ◌>>=◌}
use swift_ssh.Packet.Types.{disconnect}
use swift_ssh.Packet.Buf.{write_u32, write_utf8}
use swift_ssh.Packet.Codec.{new}
use swift_ssh.Crypto.{Crates}
use swift_ssh.Transport.Stream.{Reader, Writer}
use swift_ssh.Connection.Channel
use swift_ssh.Connection.Messages.{build_exec_request, build_shell_request, build_channel_data}
use swift_ssh.Server.{Link}
use swift_ssh.Client.{client_handshake}
use swift_ssh.Client.Session.{
  Shell, show_answer, show_shell, send_on, ask_service, login, open_session, turn,
}

-- on to the next turn
abbrev pub keep_going {ℓ} :
    {A : Type ℓ} → SshResult (Bool × A) → (A → Option (SshResult A)) → Option (SshResult A)
keep_going (ok (true, a)) again = again a
keep_going (ok (false, a)) again = some (ok a)
keep_going (err e) again = some (err e)
keep_going panic again = some panic

-- What `select!` finds ready: a packet from the server, or a line that the user has typed.
pub data Ready : Type 0 where
  from_server : Ready
  typed : List ℕ → Ready

-- What the command line asks for.
pub data Wish : Type 0 where
  command : List ℕ → Wish
  interactive : List Ready → Wish
  nothing : Wish

module _ (crates : Crates) where
  open crates use {Cipher, Secret}

  -- 'Read responses until channel closes', as far as the fuel goes
  unfoldable pub read_answers :
      ℕ → (ℕ → ℕ → List ℕ) → ℕ → Shell Cipher → Option (SshResult (Shell Cipher))
  read_answers zero random remote_id s = none
  read_answers (suc fuel) random remote_id s =
      keep_going (turn crates show_answer (random fuel) remote_id s)
        λ s'. read_answers fuel random remote_id s'

  unfoldable pub send_line :
      (ℕ → List ℕ) → ℕ → List ℕ → Shell Cipher → SshResult (Bool × Shell Cipher)
  send_line fill remote_id line s = do
    l ← send_on crates fill (build_channel_data remote_id line) s.link
    ok (true, record s { link = l })

  -- The interactive loop on what is ready, in that order. A line that is typed while a packet is
  -- arriving is taken to leave the packet whole.
  unfoldable pub interact :
      List Ready → (ℕ → ℕ → List ℕ) → ℕ → Shell Cipher → Option (SshResult (Shell Cipher))
  unfolding send_line
  interact [] random remote_id s = none
  interact (from_server ∷ more) random remote_id s =
      keep_going (turn crates show_shell (random 0) remote_id s)
        λ s'. interact more (λ n. random (suc n)) remote_id s'
  interact (typed line ∷ more) random remote_id s =
      keep_going (send_line (random 0) remote_id line s)
        λ s'. interact more (λ n. random (suc n)) remote_id s'

  -- DISCONNECT, BY_APPLICATION
  unfoldable pub say_goodbye : (ℕ → List ℕ) → Shell Cipher → SshResult (Shell Cipher)
  say_goodbye fill s = do
    let p1 = write_u32 [] 11
    let p2 = write_utf8 p1 (ascii "Session ended")
    l ← send_on crates fill (new disconnect (write_utf8 p2 (ascii "en"))) s.link
    ok (record s { link = l })

  abbrev then_goodbye :
      (ℕ → List ℕ) → Option (SshResult (Shell Cipher)) → Option (SshResult (Shell Cipher))
  then_goodbye fill none = none
  then_goodbye fill (some r) = some (r >>= say_goodbye fill)

  -- '6. Execute command or start interactive shell'
  unfoldable pub use_channel :
      ℕ → (ℕ → ℕ → List ℕ) → Wish → ℕ → Shell Cipher → Option (SshResult (Shell Cipher))
  unfolding read_answers interact
  use_channel fuel random (command line) remote_id s =
      keep_going
        (send_on crates (random fuel) (build_exec_request remote_id line true) s.link >>= λ l.
          ok (true, record s { link = l }))
        λ s'. read_answers fuel random remote_id s'
  use_channel fuel random (interactive ready) remote_id s =
      keep_going
        (send_on crates (random fuel) (build_shell_request remote_id true) s.link >>= λ l.
          ok (true, record s { link = l }))
        λ s'. interact ready random remote_id s'
  use_channel fuel random nothing remote_id s = some (ok s)

  -- the steps up to the channel
  unfoldable pub connect :
      (ℕ → ℕ → List ℕ)
      → (ℕ → ℕ → List ℕ)
      → Secret
      → List ℕ
      → List ℕ
      → Reader
      → Writer
      → SshResult (ℕ × Link Cipher)
  connect random fill secret user password r w = do
    l ← client_handshake crates random secret r w
    l ← ask_service crates (fill 0) l
    l ← login crates (fill 1) user password l
    (remote_id, channels, l) ← open_session crates (fill 2) Channel.new l
    ok (remote_id, l)

  abbrev connected :
      SshResult (ℕ × Link Cipher)
      → (ℕ → Link Cipher → Option (SshResult (Shell Cipher)))
      → Option (SshResult (Shell Cipher))
  connected (ok (remote_id, l)) go_on = go_on remote_id l
  connected (err e) go_on = some (err e)
  connected panic go_on = some panic

  unfoldable pub run_client :
      ℕ
      → (ℕ → ℕ → List ℕ)
      → (ℕ → ℕ → List ℕ)
      → (ℕ → ℕ → List ℕ)
      → Secret
      → List ℕ
      → List ℕ
      → Wish
      → Reader
      → Writer
      → Option (SshResult (Shell Cipher))
  unfolding connect use_channel
  run_client fuel random fill turns secret user password wish r w =
      connected (connect random fill secret user password r w) λ remote_id l.
        then_goodbye (fill 3) (
          use_channel fuel turns wish remote_id
            (record { link = l; console = record { out = []; errors = [] } }))
