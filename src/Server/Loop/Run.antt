-- ===== src/Server/Loop/Run.antt =====
-- The rounds of the channel loop in src/bin/server.rs.
use swift_ssh.Prelude.{ℕ, zero, suc, Bool, true, false, Option, none, some, List, if◌then◌else◌}
use swift_ssh.Error.{SshResult, ok, err, panic, connection_closed}
use swift_ssh.Packet.Types.{MessageType, disconnect, from_u8}
use swift_ssh.Packet.Codec.{SshPacket}
use swift_ssh.Crypto.{Crates}
use swift_ssh.Session.{SessionKeys}
use swift_ssh.Transport.Stream.{Reader}
use swift_ssh.Transport.Io.{recv_packet}
use swift_ssh.Sftp.FileSystem.{FileSystem}
use swift_ssh.Server.Commands.{Output}
use swift_ssh.Server.Loop.{Conn}
use swift_ssh.Server.Loop.Requests.{Outcome, on_message}

-- whether the message ends the loop
unfoldable pub is_disconnect : Option MessageType → Bool
is_disconnect (some disconnect) = true
is_disconnect _ = false

module _ (crates : Crates) (FS : FileSystem)
    (spawn : FS.Disk → List ℕ → List (List ℕ) → Output × FS.Disk) where
  open crates use {Cipher}

  -- the connection behind a packet that was received
  abbrev pub received : Conn Cipher → Reader → SessionKeys Cipher → Conn Cipher
  received c r k = record c { link = record { reader = r; writer = c.link.writer; keys = k } }

  -- A round ends the loop with `Ok(())` or an error, or leaves the connection for the next. `ok`
  -- carries the connection as the loop leaves it.
  pub data Round : Type 0 where
    ends : Outcome crates FS spawn → Round
    goes_on : Conn Cipher → FS.Disk → Round

  abbrev pub handled : Outcome crates FS spawn → Round
  handled (ok c, disk) = goes_on c disk
  handled (err e, disk) = ends (err e, disk)
  handled (panic, disk) = ends (panic, disk)

  unfoldable pub on_packet :
      (ℕ → ℕ → List ℕ)
      → Conn Cipher
      → FS.Disk
      → SshResult (SshPacket × Reader × SessionKeys Cipher)
      → Round
  on_packet fill c disk (err connection_closed) = ends (ok c, disk)
  on_packet fill c disk (err e) = ends (err e, disk)
  on_packet fill c disk panic = ends (panic, disk)
  on_packet fill c disk (ok (pkt, r, k)) =
      if is_disconnect (from_u8 pkt.msg_type)
      then ends (ok (received c r k), disk)
      else handled
          (on_message crates FS spawn fill (from_u8 pkt.msg_type) (received c r k) disk pkt.payload)

  unfoldable pub round : (ℕ → ℕ → List ℕ) → Conn Cipher → FS.Disk → Round
  unfolding on_packet
  round fill c disk = on_packet fill c disk (recv_packet crates c.link.reader c.link.keys)

  -- on to the next round
  abbrev pub next :
      Round
      → (Conn Cipher → FS.Disk → Option (Outcome crates FS spawn))
      → Option (Outcome crates FS spawn)
  next (ends outcome) again = some outcome
  next (goes_on c disk) again = again c disk

  -- The loop, as far as the fuel goes; every round takes bytes from the stream.
  unfoldable pub channel_loop :
      ℕ → (ℕ → ℕ → ℕ → List ℕ) → Conn Cipher → FS.Disk → Option (Outcome crates FS spawn)
  unfolding round
  channel_loop zero random c disk = none
  channel_loop (suc fuel) random c disk =
      next (round (random fuel) c disk) λ c' disk'. channel_loop fuel random c' disk'
