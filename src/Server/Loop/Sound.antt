-- ===== src/Server/Loop/Sound.antt =====
-- What holds whenever the channel loop of src/bin/server.rs ends.
use swift_ssh.Prelude.{
  ℕ, zero, suc, ◌+◌, ◌^◌, ◌<◌, ◌≡◌, refl, sym, some-injective, Option, some, List, [], ◌∷◌, arith,
}
use swift_ssh.Error.{ok, err, panic}
use swift_ssh.Packet.Types.{from_u8}
use swift_ssh.Crypto.{Crates}
use swift_ssh.Transport.Io.{recv_packet}
use swift_ssh.Connection.Channel
use swift_ssh.Connection.Channel.{ChannelManager}
use swift_ssh.Sftp.Path.{Component}
use swift_ssh.Sftp.FileSystem.{FileSystem, IsLawful}
use swift_ssh.Sftp.Handler.{SftpHandler, new}
use swift_ssh.Sftp.Handler.Resolve.{IsWithin}
use swift_ssh.Sftp.Handler.Confined.{IsValid, new-IsValid}
use swift_ssh.Sftp.Handler.Reach.{IsKept, IsSafe, handle_request-IsSafe}
use swift_ssh.Server.{Link}
use swift_ssh.Server.Commands.{Output, execute_command, run_parts, split_whitespace}
use swift_ssh.Server.Loop.{Conn}
use swift_ssh.Server.Loop.Requests.{Outcome}
use swift_ssh.Server.Loop.Run.{Round, received, handled, round, next, channel_loop}
use swift_ssh.Server.Loop.Effects.{Answered, Sent}
use swift_ssh.Server.Loop.Acts.{Act, on_message-Act}
use swift_ssh.Server.Loop.Ends.{After, Rounded, on_packet-Rounded}
use swift_ssh.Server.Loop.Table.{IsTable, Change-IsTable, new-IsTable}

module _ (crates : Crates) (FS : FileSystem)
    (spawn : FS.Disk → List ℕ → List (List ℕ) → Output × FS.Disk) (laws : IsLawful FS)
    (base : List Component) (root : List ℕ) (D : FS.Disk → Type 0) (F : FS.File → Type 0)
    (kept : IsKept FS base root D F)
    (harmless : (disk : FS.Disk) (program : List ℕ) (args : List (List ℕ))
      → D disk
      → D (spawn disk program args).1) where
  open crates use {Cipher}

  -- The table of channels is in order, the SFTP handler is confined, and the statement on the disk
  -- holds, with numbers left for so many channels and handles.
  pub record IsSound (left : ℕ) (c : Conn Cipher) (disk : FS.Disk) : Type 0 where
    pub table : IsTable c.channels
    pub numbers : c.channels.next_id + left < 2 ^ 32
    pub safe : IsSafe FS laws base root D F kept left c.sftp_handler disk

  -- the loop's end: the disk, and the connection if there is no error
  abbrev pub Left : Outcome crates FS spawn → Type 0
  Left o =
      After crates FS spawn
        (λ c disk. IsTable c.channels × IsValid (IsWithin base) c.sftp_handler × D disk) D o

  run_parts-D : (disk : FS.Disk) (parts : List (List ℕ)) → D disk → D (run_parts spawn disk parts).1
  unfolding run_parts
  run_parts-D disk [] d = d
  run_parts-D disk (program ∷ args) d = harmless disk program args d

  execute_command-D :
      (disk : FS.Disk) (command : List ℕ) → D disk → D (execute_command spawn disk command).1
  unfolding execute_command
  execute_command-D disk command d = run_parts-D disk (split_whitespace command) d

  -- Fewer numbers are needed.
  spend :
      (left : ℕ) (h : SftpHandler) (disk disk' : FS.Disk)
      → D disk'
      → IsSafe FS laws base root D F kept (suc left) h disk
      → IsSafe FS laws base root D F kept left h disk'
  spend left h disk disk' d s = record {
    same_root = s.same_root;
    room = omega (arith, s.room);
    valid = s.valid;
    holds = d;
  }

  Answered-IsSound :
      (left : ℕ) (c c' : Conn Cipher) (disk disk' : FS.Disk)
      → IsSound (suc left) c disk
      → D disk'
      → Answered crates c c'
      → IsSound left c' disk'
  Answered-IsSound left c c' disk disk' s d a =
      let (table, one) =
        Change-IsTable c.channels c'.channels (omega (arith, s.numbers)) s.table a.change in
      record {
        table = table;
        numbers = omega (arith, s.numbers, one);
        safe = rw a.handler (spend left c.sftp_handler disk disk' d s.safe);
      }

  Sent-IsSound :
      (left : ℕ) (c c' : Conn Cipher) (h : SftpHandler) (disk disk' : FS.Disk)
      → IsSound (suc left) c disk
      → IsSafe FS laws base root D F kept left h disk'
      → Sent crates (record c { sftp_handler = h }) c'
      → IsSound left c' disk'
  Sent-IsSound left c c' h disk disk' s safe sent = record {
    table = rw sent.channels s.table;
    numbers = rw sent.channels (omega (arith, s.numbers));
    safe = rw sent.handler safe;
  }

  Act-IsSound :
      (left : ℕ) (c : Conn Cipher) (disk : FS.Disk) (o : Outcome crates FS spawn)
      → IsSound (suc left) c disk
      → Act crates FS spawn c disk o
      → After crates FS spawn (IsSound left) D o
  Act-IsSound left c disk o s (Act.quiet (ok c') a) =
      Answered-IsSound left c c' disk disk s s.safe.holds a
  Act-IsSound left c disk o s (Act.quiet (err e) a) = s.safe.holds
  Act-IsSound left c disk o s (Act.quiet panic a) = s.safe.holds
  Act-IsSound left c disk o s (Act.ran (ok c') command a) =
      Answered-IsSound left c c' disk _ s (execute_command-D disk command s.safe.holds) a
  Act-IsSound left c disk o s (Act.ran (err e) command a) =
      execute_command-D disk command s.safe.holds
  Act-IsSound left c disk o s (Act.ran panic command a) =
      execute_command-D disk command s.safe.holds
  Act-IsSound left c disk o s (Act.served (ok c') pkt a) =
      Sent-IsSound left c c' _ disk _ s
        (handle_request-IsSafe FS laws base root D F kept left c.sftp_handler disk pkt s.safe) a
  Act-IsSound left c disk o s (Act.served (err e) pkt a) =
      (handle_request-IsSafe FS laws base root D F kept left c.sftp_handler disk pkt s.safe).holds
  Act-IsSound left c disk o s (Act.served panic pkt a) =
      (handle_request-IsSafe FS laws base root D F kept left c.sftp_handler disk pkt s.safe).holds

  Left-at : (n : ℕ) (c : Conn Cipher) (disk : FS.Disk) → IsSound n c disk → Left (ok c, disk)
  Left-at n c disk s = (s.table, s.safe.valid, s.safe.holds)

  handled-IsSound :
      (left : ℕ) (o : Outcome crates FS spawn)
      → After crates FS spawn (IsSound left) D o
      → Rounded crates FS spawn (IsSound left) Left (handled crates FS spawn o)
  handled-IsSound left (ok c, disk) s = s
  handled-IsSound left (err e, disk) d = d
  handled-IsSound left (panic, disk) d = d

  round-IsSound :
      (left : ℕ) (fill : ℕ → ℕ → List ℕ) (c : Conn Cipher) (disk : FS.Disk)
      → IsSound (suc left) c disk
      → Rounded crates FS spawn (IsSound left) Left (round crates FS spawn fill c disk)
  unfolding round
  round-IsSound left fill c disk s =
      on_packet-Rounded crates FS spawn (IsSound left) Left fill c disk
        (recv_packet crates c.link.reader c.link.keys) (Left-at (suc left) c disk s)
        (λ _. s.safe.holds) s.safe.holds
        λ pkt r k e.
          let c' = received crates FS spawn c r k in
          let s' : IsSound (suc left) c' disk = record {
            table = s.table;
            numbers = s.numbers;
            safe = s.safe;
          } in
          (
            Left-at (suc left) c' disk s',
            handled-IsSound left _ (
                Act-IsSound left c' disk _ s'
                  (on_message-Act crates FS spawn fill c' disk (from_u8 pkt.msg_type) pkt.payload)),
          )

  next-Left :
      (o : Round crates FS spawn) (again : Conn Cipher → FS.Disk → Option (Outcome crates FS spawn))
      (P : Conn Cipher → FS.Disk → Type 0) {end : Outcome crates FS spawn}
      → Rounded crates FS spawn P Left o
      → ((c : Conn Cipher) (disk : FS.Disk) → P c disk → again c disk ≡ some end → Left end)
      → next crates FS spawn o again ≡ some end
      → Left end
  next-Left (Round.ends o) again P h k e = rw (sym (some-injective e)) h
  next-Left (Round.goes_on c disk) again P h k e = k c disk h e

  loop-Left :
      (fuel : ℕ) (random : ℕ → ℕ → ℕ → List ℕ) (c : Conn Cipher) (disk : FS.Disk)
      (end : Outcome crates FS spawn)
      → IsSound fuel c disk
      → channel_loop crates FS spawn fuel random c disk ≡ some end
      → Left end
  unfolding channel_loop
  loop-Left zero random c disk end s e = absurd (ground arith)
  loop-Left (suc fuel) random c disk end s e =
      next-Left (round crates FS spawn (random fuel) c disk) _ (IsSound fuel)
        (round-IsSound fuel (random fuel) c disk s)
        (λ c' disk' s' e'. loop-Left fuel random c' disk' end s' e') e

  -- Let a statement on the disk survive the commands and whatever is done to the paths below the
  -- root. Whenever the loop of a connection that is new ends within fewer than 2 ^ 32 rounds, by a
  -- message, an error or the end of the stream, the statement holds; and if there was no error, every
  -- channel is filed under its own id and still counts as open, and every handle of the SFTP handler
  -- is of a path below the root.
  pub channel_loop_sound :
      (fuel : ℕ) (random : ℕ → ℕ → ℕ → List ℕ) (link : Link Cipher) (disk : FS.Disk)
      (end : Outcome crates FS spawn)
      → fuel < 2 ^ 32
      → D disk
      → channel_loop crates FS spawn fuel random
          (record { link = link; channels = Channel.new; sftp_handler = new root })
          disk
        ≡ some end
      → Left end
  unfolding new Channel.new
  channel_loop_sound fuel random link disk end few d e =
      loop-Left fuel random _ disk end
        (record {
          table = new-IsTable;
          numbers = omega (arith, few);
          safe = record {
            same_root = refl;
            room = omega (arith, few);
            valid = new-IsValid (IsWithin base) root;
            holds = d;
          };
        })
        e
