-- ===== src/Client/Session/Command.antt =====
-- What the client of src/bin/client.rs and the server of src/bin/server.rs do on a command and its
-- answers, and what the client prints.
use swift_ssh.Prelude.{
  ℕ, suc, ◌≡◌, refl, true, false, some, List, [], ◌++◌, append-nil, append_assoc, arith,
}
use swift_ssh.Error.{IoError, ok}
use swift_ssh.Packet.Types.{as_u8, from_u8}
use swift_ssh.Packet.Utf8.{IsUtf8, to_string_lossy}
use swift_ssh.Packet.Buf.Laws.{Fits}
use swift_ssh.Packet.Codec.{SshPacket, new}
use swift_ssh.Crypto.{Crates}
use swift_ssh.Session.{SessionKeys}
use swift_ssh.Transport.Io.{recv_packet}
use swift_ssh.Transport.Io.Receive.{reader}
use swift_ssh.Transport.Io.Exchange.{Passed}
use swift_ssh.Connection.Channel.{Channel, ChannelManager, find_by_remote_id}
use swift_ssh.Connection.Messages.{
  build_exec_request, build_channel_data, build_channel_eof, build_channel_close,
}
use swift_ssh.Connection.Messages.RoundTrip.{parse_data-build_channel_data}
use swift_ssh.Sftp.FileSystem.{FileSystem}
use swift_ssh.Sftp.Handler.{SftpHandler}
use swift_ssh.Server.Commands.{Output, execute_command}
use swift_ssh.Server.Loop.{Conn, send, reply_packet}
use swift_ssh.Server.Loop.Run.{is_disconnect, on_packet, round, channel_loop}
use swift_ssh.Server.Loop.Replies.{exec_answered}
use swift_ssh.Client.Session.{
  Console, shows, show_answer, print_data, send_on, turn_of, on_received, turn,
}
use swift_ssh.Client.Session.Login.{link}
use swift_ssh.Client.Shell.{command, read_answers, use_channel}
use swift_ssh.Client.Session.Answers.{success, eof, close, Answered}

module _ (crates : Crates) where
  open crates use {Cipher}

  -- A turn of the client on a packet that shows something.
  turn-shows :
      (fill : ℕ → List ℕ) (pending rest sent : List ℕ) (e : IoError) (k k' : SessionKeys Cipher)
      (con con' : Console) (p : SshPacket)
      → recv_packet crates (reader pending e) k ≡ ok (p, reader rest e, k')
      → show_answer con (from_u8 p.msg_type) p.payload ≡ ok (shows con')
      → turn crates show_answer fill 0
          (record { link = link crates pending e sent k; console = con })
        ≡ ok (true, record { link = link crates rest e sent k'; console = con' })
  unfolding turn on_received turn_of
  turn-shows fill pending rest sent e k k' con con' p h shown = rw (h, shown) refl

  -- The turn on the server's CLOSE.
  turn-closes :
      (fill : ℕ → List ℕ) (pending rest sent : List ℕ) (e : IoError) (k : SessionKeys Cipher)
      (con : Console) (ks : SessionKeys Cipher) (d : SessionKeys Cipher)
      (x : Passed crates fill sent close k ks)
      → recv_packet crates (reader pending e) d ≡ ok (close, reader rest e, k)
      → turn crates show_answer fill 0
          (record { link = link crates pending e sent d; console = con })
        ≡ ok (false, record { link = link crates rest e (sent ++ x.wire) x.sender; console = con })
  unfolding turn on_received turn_of show_answer send_on from_u8 build_channel_close new as_u8
  turn-closes fill pending rest sent e k con ks d x h = rw (h, x.sends) refl

  shows-success :
      (con : Console) → show_answer con (from_u8 success.msg_type) success.payload ≡ ok (shows con)
  unfolding show_answer from_u8 reply_packet new as_u8
  shows-success con = refl

  shows-eof : (con : Console) → show_answer con (from_u8 eof.msg_type) eof.payload ≡ ok (shows con)
  unfolding show_answer from_u8 build_channel_eof new as_u8
  shows-eof con = refl

  shows-data :
      (con : Console) (output : List ℕ)
      → Fits output
      → show_answer con
          (from_u8 (build_channel_data 0 output).msg_type)
          (build_channel_data 0 output).payload
        ≡ ok (shows (record con { out = con.out ++ to_string_lossy output }))
  unfolding show_answer print_data from_u8 build_channel_data new as_u8
  shows-data con output fits =
      rw
        ((rw (append-nil (build_channel_data 0 output).payload) at
          (parse_data-build_channel_data 0 output [] (omega arith) fits)))
        refl

  module _ (fc fs : ℕ → ℕ → List ℕ) (line output sent_c sent_s rest : List ℕ) (e : IoError)
      (kc ks : SessionKeys Cipher) (x : Answered crates fc fs line output sent_c sent_s kc ks) where
    abbrev pub answers : List ℕ
    answers = x.granted.wire ++ (x.printed.wire ++ (x.ended.wire ++ x.closed.wire))

    pub use_channel-command :
        (con : Console)
        → Fits output
        → use_channel crates 4 fc
            (command line)
            0
            (record { link = link crates (answers ++ rest) e sent_c kc; console = con })
          ≡ some (
              ok (record {
                link =
                    link crates rest e ((sent_c ++ x.asked.wire) ++ x.closes.wire) x.closes.sender;
                console = record con { out = con.out ++ to_string_lossy output };
              }))
    unfolding use_channel read_answers send_on
    use_channel-command con fits =
        rw
          (
            append_assoc x.granted.wire (x.printed.wire ++ (x.ended.wire ++ x.closed.wire)) rest,
            append_assoc x.printed.wire (x.ended.wire ++ x.closed.wire) rest,
            append_assoc x.ended.wire x.closed.wire rest,
            x.asked.sends,
            turn-shows (fc 3) _ _ (sent_c ++ x.asked.wire) e x.asked.sender _ con con success
                (x.granted.receives (x.printed.wire ++ (x.ended.wire ++ (x.closed.wire ++ rest))) e)
                (shows-success con),
            turn-shows (fc 2) _ _ (sent_c ++ x.asked.wire) e x.granted.receiver _ con after _
                (x.printed.receives (x.ended.wire ++ (x.closed.wire ++ rest)) e)
                (shows-data con output fits),
            turn-shows (fc 1) _ _ (sent_c ++ x.asked.wire) e x.printed.receiver _ after after eof
                (x.ended.receives (x.closed.wire ++ rest) e) (shows-eof after),
            turn-closes (fc 0) _ _ (sent_c ++ x.asked.wire) e x.closed.receiver after _ _ x.closes
                (x.closed.receives rest e),
          )
          refl
      where
        after : Console
        after = record con { out = con.out ++ to_string_lossy output }

    pub channel_loop-command :
        (FS : FileSystem) (spawn : FS.Disk → List ℕ → List (List ℕ) → Output × FS.Disk) (fuel : ℕ)
        (random : ℕ → ℕ → ℕ → List ℕ) (disk : FS.Disk) (h : SftpHandler) (channels : ChannelManager)
        (ch : Channel)
        → IsUtf8 line
        → Fits line
        → find_by_remote_id channels 0 ≡ some ch
        → random fuel ≡ fs
        → (execute_command spawn disk line).0 ≡ output
        → channel_loop crates FS spawn
            (suc fuel)
            random
            (record {
              link = link crates (x.asked.wire ++ rest) e sent_s ks;
              channels = channels;
              sftp_handler = h;
            })
            disk
          ≡ channel_loop crates FS spawn fuel random
              (record {
                link = link crates rest e (sent_s ++ answers) x.closed.sender;
                channels = channels;
                sftp_handler = h;
              })
              (execute_command spawn disk line).1
    unfolding channel_loop round on_packet is_disconnect send from_u8 new as_u8 build_exec_request
    channel_loop-command FS spawn fuel random disk h channels ch text fits found same printed =
        rw
          (
            x.asked.receives rest e,
            exec_answered crates FS spawn (random fuel) heard disk 0 line true ch (omega arith) text
                fits found,
            same,
            printed,
            x.granted.sends,
            x.printed.sends,
            x.ended.sends,
            x.closed.sends,
            ← append_assoc sent_s x.granted.wire
                (x.printed.wire ++ (x.ended.wire ++ x.closed.wire)),
            ← append_assoc (sent_s ++ x.granted.wire) x.printed.wire
                (x.ended.wire ++ x.closed.wire),
            ← append_assoc ((sent_s ++ x.granted.wire) ++ x.printed.wire) x.ended.wire
                x.closed.wire,
          )
          refl
      where
        heard : Conn Cipher
        heard = record {
          link = link crates rest e sent_s x.asked.receiver;
          channels = channels;
          sftp_handler = h;
        }
