-- ===== src/Client/Ran.antt =====
-- `run_client` of src/bin/client.rs with a command, against `handle_connection` of src/bin/server.rs.
use swift_ssh.Prelude.{
  ℕ, suc, ◌≡◌, refl, ◌∙◌, true, some, List, [], ◌++◌, append_assoc, ascii, arith,
}
use swift_ssh.Error.{IoError, unexpected_eof, ok}
use swift_ssh.HashMap.{nat_key, insert, find_value}
use swift_ssh.Packet.Types.{disconnect, as_u8, default_window_size, default_max_packet_size}
use swift_ssh.Packet.Utf8.{to_string_lossy}
use swift_ssh.Packet.Buf.{write_u32, write_string, write_utf8, to_be_bytes}
use swift_ssh.Packet.Buf.Laws.{Fits}
use swift_ssh.Packet.Codec.{SshPacket, new}
use swift_ssh.Crypto.{Crates}
use swift_ssh.Crypto.Laws.{IsMac, IsHash, IsAgreement, IsStreamCipher}
use swift_ssh.Session.{SessionKeys}
use swift_ssh.Transport.Io.Receive.{reader}
use swift_ssh.Transport.Io.Cut.{IsPacket, IsFill}
use swift_ssh.Transport.Io.Plain.{Room, writer}
use swift_ssh.Transport.Io.Exchange.{pass}
use swift_ssh.Connection.Channel
use swift_ssh.Connection.Channel.{Channel, accept_channel, find_by_remote_id, new_channel}
use swift_ssh.Connection.Messages.{build_exec_request, build_channel_data}
use swift_ssh.Sftp.FileSystem.{FileSystem}
use swift_ssh.Sftp.Handler
use swift_ssh.Auth.{UserDatabase, verify_password}
use swift_ssh.Auth.Requests.{IsText}
use swift_ssh.Server.Commands.{Output, execute_command}
use swift_ssh.Server.Connection.{Draws, handle_connection}
use swift_ssh.Server.Loop.Run.{channel_loop}
use swift_ssh.Client.Session.{send_on}
use swift_ssh.Client.Session.Login.{link, request_of}
use swift_ssh.Client.Session.Opened.{one_channel}
use swift_ssh.Client.Session.Answers.{answer}
use swift_ssh.Client.Session.Command.{answers, use_channel-command, channel_loop-command}
use swift_ssh.Client.Admitted.{ClientDraws, IsDraws}
use swift_ssh.Client.Opened.{connection-Opened}
use swift_ssh.Client.Shell.{command, say_goodbye, run_client}

-- the client's last message
abbrev goodbye : SshPacket
goodbye =
    new disconnect (write_utf8 (write_utf8 (write_u32 [] 11) (ascii "Session ended")) (ascii "en"))

goodbye-IsPacket : IsPacket goodbye
unfolding new as_u8 write_u32 write_utf8 write_string to_be_bytes
goodbye-IsPacket = record { number = omega arith; bytes = omega arith }

goodbye-Room : Room goodbye
unfolding new write_u32 write_utf8 write_string to_be_bytes
goodbye-Room = omega arith

-- the server's channel
abbrev served_channel : Channel
served_channel = record (new_channel 0 (ascii "session")) {
  remote_id = 0;
  remote_window = default_window_size;
  remote_max_packet = default_max_packet_size;
}

found_lem : find_by_remote_id one_channel 0 ≡ some served_channel
unfolding find_by_remote_id accept_channel find_value insert Channel.new new_channel
found_lem = refl

module _ (crates : Crates) (FS : FileSystem)
    (spawn : FS.Disk → List ℕ → List (List ℕ) → Output × FS.Disk) where
  open crates use {Cipher, Secret}

  -- A client's run with the command `line` and the server's part of it. `last` is what the client
  -- writes behind the command: its CLOSE and DISCONNECT.
  pub record Ran (fuel : ℕ) (draws : Draws) (drawn : ClientDraws) (turns : ℕ → ℕ → List ℕ)
      (db : UserDatabase) (user pass line : List ℕ) (secret_s secret_c : Secret) (disk : FS.Disk)
      : Type 0 where
    pub wire_s : List ℕ
    pub wire_c : List ℕ
    pub last : List ℕ
    pub server : SessionKeys Cipher
    pub client : SessionKeys Cipher
    pub serves :
        (sftp_root more : List ℕ) (e : IoError)
        → handle_connection crates FS spawn
            (suc (suc fuel))
            draws
            db
            sftp_root
            secret_s
            (reader (wire_c ++ more) e)
            (writer [])
            disk
          ≡ channel_loop crates FS spawn fuel draws.of_loop
              (record {
                link = link crates more e wire_s server;
                channels = one_channel;
                sftp_handler = Handler.new sftp_root;
              })
              (execute_command spawn disk line).1
    pub runs :
        (more : List ℕ) (e : IoError)
        → run_client crates 4 drawn.of_handshake drawn.of_session turns secret_c user pass
            (command line)
            (reader (wire_s ++ more) e)
            (writer [])
          ≡ some (
              ok (record {
                link = link crates more e (wire_c ++ last) client;
                console = record {
                  out = to_string_lossy (execute_command spawn disk line).0;
                  errors = [];
                };
              }))

  -- A client prints what its command printed on the server, for a command, a name and a password that
  -- are texts and fit one packet, output that fits one packet, and a password that the server's user
  -- database holds: connected to each other, `run_client` ends without an error and has printed the
  -- text of the output of the command, nothing else and nothing on the standard error, and
  -- `handle_connection` has run the command on its disk and goes on with its loop, whatever secrets
  -- and random bytes they draw.
  pub run_client-Ran :
      (stream : IsStreamCipher crates) (mac : IsMac crates) (hash : IsHash crates)
      (agreement : IsAgreement crates) (fuel : ℕ) (draws : Draws) (drawn : ClientDraws)
      (turns : ℕ → ℕ → List ℕ) (db : UserDatabase) (user pass line : List ℕ)
      (secret_s secret_c : Secret) (disk : FS.Disk)
      → IsDraws draws drawn
      → ((n : ℕ) → IsFill (turns n))
      → IsText user
      → IsText pass
      → IsPacket (request_of user pass)
      → Room (request_of user pass)
      → verify_password db user pass ≡ true
      → IsText line
      → IsPacket (build_exec_request 0 line true)
      → Room (build_exec_request 0 line true)
      → Fits (execute_command spawn disk line).0
      → IsPacket (build_channel_data 0 (execute_command spawn disk line).0)
      → Room (build_channel_data 0 (execute_command spawn disk line).0)
      → Ran fuel draws drawn turns db user pass line secret_s secret_c disk
  unfolding run_client say_goodbye send_on
  run_client-Ran stream mac hash agreement fuel draws drawn turns db user word line secret_s
        secret_c disk fills ht hu hp packet room known text exec exec_room fits printed
        printed_room =
      let o =
        connection-Opened crates FS spawn stream mac hash agreement (suc fuel) draws drawn db user
          word secret_s secret_c fills hu hp packet room known in
      let x =
        answer crates stream mac turns (draws.of_loop fuel) line (execute_command spawn disk line).0
          o.wire_c o.wire_s o.client o.server ht (fills.loop fuel) exec exec_room printed
          printed_room o.up o.down in
      let z =
        pass crates stream mac (drawn.of_session 3) ((o.wire_c ++ x.asked.wire) ++ x.closes.wire)
          goodbye x.closes.sender x.closes.receiver (fills.session 3) goodbye-IsPacket goodbye-Room
          x.closes.there x.closes.back in
      let back =
        answers crates turns (draws.of_loop fuel) line (execute_command spawn disk line).0 o.wire_c
          o.wire_s [] unexpected_eof o.client o.server x in
      record {
        wire_s = o.wire_s ++ back;
        wire_c = o.wire_c ++ x.asked.wire;
        last = x.closes.wire ++ z.wire;
        server = x.closed.sender;
        client = z.sender;
        serves = λ sftp_root more e. rw (append_assoc o.wire_c x.asked.wire more) (
            o.serves disk sftp_root (x.asked.wire ++ more) e
            ∙ channel_loop-command crates turns (draws.of_loop fuel) line
                (execute_command spawn disk line).0 o.wire_c o.wire_s more e o.client o.server x FS
                spawn fuel draws.of_loop disk (Handler.new sftp_root) one_channel served_channel
                text.text text.fits found_lem refl refl);
        runs = λ more e.
            rw
              (
                append_assoc o.wire_s back more,
                o.connects (back ++ more) e,
                use_channel-command crates turns (draws.of_loop fuel) line
                    (execute_command spawn disk line).0 o.wire_c o.wire_s more e o.client o.server x
                    (record { out = []; errors = [] }) fits,
                z.sends,
                ← append_assoc (o.wire_c ++ x.asked.wire) x.closes.wire z.wire,
              )
              refl;
      }
