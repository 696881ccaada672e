-- ===== src/Server/Loop/Ends.antt =====
-- The rounds of the channel loop of src/bin/server.rs, and that the loop ends.
use swift_ssh.Prelude.{ℕ, zero, suc, ◌<◌, ◌≡◌, ◌≢◌, refl, ap, Option, none, List, length, arith}
use swift_ssh.Error.{SshResult, SshError, ok, err, panic, connection_closed}
use swift_ssh.Packet.Types.{from_u8}
use swift_ssh.Packet.Codec.{SshPacket}
use swift_ssh.Crypto.{Crates}
use swift_ssh.Session.{SessionKeys}
use swift_ssh.Transport.Stream.{Reader}
use swift_ssh.Transport.Io.{recv_packet}
use swift_ssh.Transport.Io.Progress.{recv_packet_shrinks}
use swift_ssh.Sftp.FileSystem.{FileSystem}
use swift_ssh.Prelude.{if-holds}
use swift_ssh.Server.Commands.{Output}
use swift_ssh.Server.Loop.{Conn}
use swift_ssh.Server.Loop.Requests.{Outcome, on_message}
use swift_ssh.Server.Loop.Run.{
  Round, received, handled, is_disconnect, on_packet, round, next, channel_loop,
}
use swift_ssh.Server.Loop.Acts.{Act, on_message-Act}

module _ (crates : Crates) (FS : FileSystem)
    (spawn : FS.Disk → List ℕ → List (List ℕ) → Output × FS.Disk) where
  open crates use {Cipher}

  -- What holds of a connection and a disk after a message, whatever the outcome.
  abbrev pub After :
      (Conn Cipher → FS.Disk → Type 0) → (FS.Disk → Type 0) → Outcome crates FS spawn → Type 0
  After P D (ok c, disk) = P c disk
  After P D (err e, disk) = D disk
  After P D (panic, disk) = D disk

  -- the same of a round
  abbrev pub Rounded :
      (Conn Cipher → FS.Disk → Type 0)
      → (Outcome crates FS spawn → Type 0)
      → Round crates FS spawn
      → Type 0
  Rounded P Q (Round.ends o) = Q o
  Rounded P Q (Round.goes_on c disk) = P c disk

  Act-reader :
      (c : Conn Cipher) (disk : FS.Disk) (o : Outcome crates FS spawn)
      → Act crates FS spawn c disk o
      → After (λ c' _. c'.link.reader ≡ c.link.reader) (λ _. Unit) o
  Act-reader c disk o (Act.quiet (ok c') a) = a.reader
  Act-reader c disk o (Act.quiet (err e) a) = tt
  Act-reader c disk o (Act.quiet panic a) = tt
  Act-reader c disk o (Act.ran (ok c') command a) = a.reader
  Act-reader c disk o (Act.ran (err e) command a) = tt
  Act-reader c disk o (Act.ran panic command a) = tt
  Act-reader c disk o (Act.served (ok c') pkt a) = a.reader
  Act-reader c disk o (Act.served (err e) pkt a) = tt
  Act-reader c disk o (Act.served panic pkt a) = tt

  -- What a round does, by what is received.
  module _ (P : Conn Cipher → FS.Disk → Type 0) (Q : Outcome crates FS spawn → Type 0)
      (fill : ℕ → ℕ → List ℕ) (c : Conn Cipher) (disk : FS.Disk) where
    -- what is to be shown of a packet that is received
    abbrev pub OnPacket : SshPacket → Reader → SessionKeys Cipher → Type 0
    OnPacket pkt r k =
        Q (ok (received crates FS spawn c r k), disk)
        × Rounded P Q (
            handled crates FS spawn (
              on_message crates FS spawn fill (from_u8 pkt.msg_type)
                (received crates FS spawn c r k) disk pkt.payload))

    pub on_packet-Rounded :
        (got : SshResult (SshPacket × Reader × SessionKeys Cipher))
        → Q (ok c, disk)
        → ((e : SshError) → Q (err e, disk))
        → Q (panic, disk)
        → ((pkt : SshPacket) (r : Reader) (k : SessionKeys Cipher)
            → got ≡ ok (pkt, r, k)
            → OnPacket pkt r k)
        → Rounded P Q (on_packet crates FS spawn fill c disk got)
    unfolding on_packet
    on_packet-Rounded (err connection_closed) closed failed aborted h = closed
    on_packet-Rounded (err e) closed failed aborted h = failed e
    on_packet-Rounded panic closed failed aborted h = aborted
    on_packet-Rounded (ok (pkt, r, k)) closed failed aborted h =
        if-holds (Rounded P Q) (is_disconnect (from_u8 pkt.msg_type)) (λ _. (h pkt r k refl).0)
          λ _. (h pkt r k refl).1

  handled-shrunk :
      (c c0 : Conn Cipher) (disk : FS.Disk) (o : Outcome crates FS spawn)
      → length c.link.reader.pending < length c0.link.reader.pending
      → Act crates FS spawn c disk o
      → Rounded
          (λ c' _. length c'.link.reader.pending < length c0.link.reader.pending)
          (λ _. Unit)
          (handled crates FS spawn o)
  handled-shrunk c c0 disk (ok c', d) less a =
      omega (arith, less, ap (λ (r : Reader). length r.pending) (Act-reader c disk (ok c', d) a))
  handled-shrunk c c0 disk (err e, d) less a = tt
  handled-shrunk c c0 disk (panic, d) less a = tt

  -- A round that goes on has taken bytes from the stream.
  shrunk :
      (fill : ℕ → ℕ → List ℕ) (c : Conn Cipher) (disk : FS.Disk)
      → Rounded
          (λ c' _. length c'.link.reader.pending < length c.link.reader.pending)
          (λ _. Unit)
          (round crates FS spawn fill c disk)
  unfolding round
  shrunk fill c disk =
      on_packet-Rounded _ _ fill c disk (recv_packet crates c.link.reader c.link.keys) tt (λ _. tt)
        tt
        λ pkt r k e. (
          tt,
          handled-shrunk (received crates FS spawn c r k) c disk _
              (recv_packet_shrinks crates c.link.reader c.link.keys pkt r k e)
              (on_message-Act crates FS spawn fill _ disk (from_u8 pkt.msg_type) pkt.payload),
        )

  next_ends :
      (o : Round crates FS spawn) (again : Conn Cipher → FS.Disk → Option (Outcome crates FS spawn))
      {P : Conn Cipher → FS.Disk → Type 0}
      → Rounded P (λ _. Unit) o
      → ((c : Conn Cipher) (disk : FS.Disk) → P c disk → again c disk ≢ none)
      → next crates FS spawn o again ≢ none
  next_ends (Round.ends o) again h k = λ e. cc
  next_ends (Round.goes_on c disk) again h k = k c disk h

  -- The loop ends: fuel above the number of bytes that are pending on the stream is enough, since
  -- every round takes bytes.
  pub channel_loop_ends :
      (fuel : ℕ) (random : ℕ → ℕ → ℕ → List ℕ) (c : Conn Cipher) (disk : FS.Disk)
      → length c.link.reader.pending < fuel
      → channel_loop crates FS spawn fuel random c disk ≢ none
  unfolding channel_loop
  channel_loop_ends zero random c disk h = absurd (omega arith)
  channel_loop_ends (suc fuel) random c disk h =
      next_ends (round crates FS spawn (random fuel) c disk) _ (shrunk (random fuel) c disk)
        λ c' disk' less. channel_loop_ends fuel random c' disk' (omega arith)
