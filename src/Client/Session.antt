-- ===== src/Client/Session.antt =====
-- src/bin/client.rs behind the key exchange: the login, the session channel, and what is done on it.
-- `fill n` are the random bytes of the n-th packet that is sent.
pub mod Login
pub mod Opened
pub mod Answers
pub mod Command
use swift_ssh.Prelude.{
  ℕ, zero, suc, ◌+◌, Bool, true, false, Option, none, some, List, [], ◌∷◌, ◌++◌, ascii, ◌==◌,
  if◌then◌else◌,
}
use swift_ssh.Error.{
  SshResult, SshError, ok, err, panic, protocol, auth_failed, channel, connection_closed, msg,
  ◌>>=◌,
}
use swift_ssh.Packet.Types.{
  MessageType, as_u8, from_u8, service_accept, user_auth_success, user_auth_failure,
  channel_open_confirmation, channel_data, channel_extended_data, channel_close, disconnect,
}
use swift_ssh.Packet.Utf8.{to_string_lossy}
use swift_ssh.Packet.Buf.{read_u32, read_string, write_u32, write_utf8}
use swift_ssh.Packet.Codec.{SshPacket, new}
use swift_ssh.Crypto.{Crates}
use swift_ssh.Session.{SessionKeys}
use swift_ssh.Transport.Stream.{Reader}
use swift_ssh.Transport.Io.{send_packet, recv_packet}
use swift_ssh.Auth.{build_service_request, build_password_auth_request}
use swift_ssh.Connection.Channel.{
  Channel, ChannelManager, open_channel, get_channel, confirm_channel,
}
use swift_ssh.Connection.Messages.{
  build_channel_open, build_exec_request, build_shell_request, build_channel_data,
  build_channel_close, parse_data,
}
use swift_ssh.Server.{Link, expect_packet}

-- `unwrap`
unfoldable pub unwrap {ℓ} : {A : Type ℓ} → Option A → SshResult A
unwrap (some a) = ok a
unwrap none = panic

-- What the client has printed, on the standard output and on the standard error.
pub record Console : Type 0 where
  pub out : List ℕ
  pub errors : List ℕ

-- the client's part of a connection, behind the login
pub record Shell (C : Type 0) : Type 0 where
  pub link : Link C
  pub console : Console

-- what a message prints, and whether it closes the channel
pub data Shown : Type 0 where
  shows : Console → Shown
  closes : Shown

-- `print!` of a CHANNEL_DATA
unfoldable pub print_data : Console → List ℕ → SshResult Shown
print_data con payload = do
  m ← parse_data payload
  ok (shows (record con { out = con.out ++ to_string_lossy m.bytes }))

-- `eprint!` of a CHANNEL_EXTENDED_DATA
unfoldable pub print_extended : Console → List ℕ → SshResult Shown
print_extended con payload = do
  (_, c) ← read_u32 payload
  (_, c) ← read_u32 c
  (bytes, _) ← read_string c
  ok (shows (record con { errors = con.errors ++ to_string_lossy bytes }))

-- The answers to a command; the messages that only are logged change nothing.
unfoldable pub show_answer : Console → Option MessageType → List ℕ → SshResult Shown
unfolding print_data print_extended
show_answer con (some channel_data) payload = print_data con payload
show_answer con (some channel_extended_data) payload = print_extended con payload
show_answer con (some channel_close) payload = ok closes
show_answer con _ payload = ok (shows con)

-- What arrives while a shell is open.
unfoldable pub show_shell : Console → Option MessageType → List ℕ → SshResult Shown
unfolding print_data
show_shell con (some channel_data) payload = print_data con payload
show_shell con (some channel_close) payload = ok closes
show_shell con _ payload = ok (shows con)

module _ (crates : Crates) where
  open crates use {Cipher}

  unfoldable pub send_on : (ℕ → List ℕ) → SshPacket → Link Cipher → SshResult (Link Cipher)
  send_on fill pkt l = do
    (w, k) ← send_packet crates fill l.writer pkt l.keys
    ok (record { reader = l.reader; writer = w; keys = k })

  -- '3. Service request'
  unfoldable pub ask_service : (ℕ → List ℕ) → Link Cipher → SshResult (Link Cipher)
  unfolding send_on
  ask_service fill l = do
    l ← send_on fill (build_service_request (ascii "ssh-userauth")) l
    (_, r, k) ← expect_packet crates service_accept (msg "Expected SERVICE_ACCEPT") l.reader l.keys
    ok (record { reader = r; writer = l.writer; keys = k })

  -- what the answer to the login says
  unfoldable pub auth_answer : ℕ → Link Cipher → SshResult (Link Cipher)
  auth_answer number l =
      if number == as_u8 user_auth_success
      then ok l
      else if number == as_u8 user_auth_failure
      then err (auth_failed (msg "Authentication rejected by server"))
      else err (protocol (msg "Unexpected auth response"))

  -- '4. Authenticate'; a password that is not given is empty
  unfoldable pub login : (ℕ → List ℕ) → List ℕ → List ℕ → Link Cipher → SshResult (Link Cipher)
  unfolding send_on auth_answer
  login fill user password l = do
    l ← send_on fill (build_password_auth_request user (ascii "ssh-connection") password) l
    (pkt, r, k) ← recv_packet crates l.reader l.keys
    auth_answer pkt.msg_type (record { reader = r; writer = l.writer; keys = k })

  -- the numbers of the confirmation, behind the recipient
  unfoldable pub read_confirmation : List ℕ → SshResult (ℕ × ℕ × ℕ)
  read_confirmation payload = do
    (_, c) ← read_u32 payload
    (remote_id, c) ← read_u32 c
    (remote_window, c) ← read_u32 c
    (remote_max_packet, _) ← read_u32 c
    ok (remote_id, remote_window, remote_max_packet)

  -- a packet of the number that confirms the channel
  unfoldable pub recv_confirmation :
      Link Cipher → SshResult (SshPacket × Reader × SessionKeys Cipher)
  recv_confirmation l = do
    (pkt, r, k) ← recv_packet crates l.reader l.keys
    if pkt.msg_type == as_u8 channel_open_confirmation
        then ok (pkt, r, k)
        else err (channel (msg "Channel open failed"))

  -- '5. Open a session channel': the number that the server gave, and the table of channels
  unfoldable pub open_session :
      (ℕ → List ℕ) → ChannelManager → Link Cipher → SshResult (ℕ × ChannelManager × Link Cipher)
  unfolding send_on unwrap
  open_session fill channels l = do
    let (ch_id, channels) = open_channel channels (ascii "session")
    ch ← unwrap (get_channel channels ch_id)
    l ←
        send_on fill
          (build_channel_open (ascii "session") ch.local_id ch.local_window ch.local_max_packet) l
    (pkt, r, k) ← recv_confirmation l
    (remote_id, remote_window, remote_max_packet) ← read_confirmation pkt.payload
    channels ← confirm_channel channels ch_id remote_id remote_window remote_max_packet
    ok (remote_id, channels, record { reader = r; writer = l.writer; keys = k })

  -- whether the loop goes on
  abbrev pub Turn : Type 0
  Turn = SshResult (Bool × Shell Cipher)

  -- CLOSE is sent back, and the loop left.
  unfoldable pub turn_of : (ℕ → List ℕ) → ℕ → Shell Cipher → SshResult Shown → Turn
  unfolding send_on
  turn_of fill remote_id s (ok (shows con)) = ok (true, record s { console = con })
  turn_of fill remote_id s (ok closes) = do
    l ← send_on fill (build_channel_close remote_id) s.link
    ok (false, record s { link = l })
  turn_of fill remote_id s (err e) = err e
  turn_of fill remote_id s panic = panic

  -- a packet that is received, or the end of the connection
  unfoldable pub on_received :
      (Console → Option MessageType → List ℕ → SshResult Shown)
      → (ℕ → List ℕ)
      → ℕ
      → Shell Cipher
      → SshResult (SshPacket × Reader × SessionKeys Cipher)
      → Turn
  unfolding turn_of
  on_received show fill remote_id s (err connection_closed) = ok (false, s)
  on_received show fill remote_id s (err e) = err e
  on_received show fill remote_id s panic = panic
  on_received show fill remote_id s (ok (pkt, r, k)) =
      turn_of fill remote_id
        (record s { link = record { reader = r; writer = s.link.writer; keys = k } })
        (show s.console (from_u8 pkt.msg_type) pkt.payload)

  unfoldable pub turn :
      (Console → Option MessageType → List ℕ → SshResult Shown)
      → (ℕ → List ℕ)
      → ℕ
      → Shell Cipher
      → Turn
  unfolding on_received
  turn show fill remote_id s =
      on_received show fill remote_id s (recv_packet crates s.link.reader s.link.keys)
