-- ===== src/Server/Loop/Executed.antt =====
-- The answer of the channel loop of src/bin/server.rs to a command, as the client reads it.
use swift_ssh.Prelude.{
  ℕ, zero, suc, ◌≡◌, refl, ◌∙◌, ap, Bool, true, false, some, List, [], ◌∷◌, ◌++◌, append_assoc,
  length, All, arith,
}
use swift_ssh.Error.{IoError, SshResult, ok, ◌>>=◌}
use swift_ssh.Packet.Types.{as_u8, channel_request, channel_success}
use swift_ssh.Packet.Utf8.{IsUtf8}
use swift_ssh.Packet.Buf.{write_u32, to_be_bytes}
use swift_ssh.Packet.Buf.Laws.{Fits}
use swift_ssh.Packet.Codec.{SshPacket, new}
use swift_ssh.Crypto.{Crates}
use swift_ssh.Crypto.Laws.{IsMac, IsStreamCipher}
use swift_ssh.Session.{SessionKeys}
use swift_ssh.Transport.Stream.{Reader}
use swift_ssh.Transport.Io.{recv_packet}
use swift_ssh.Transport.Io.Sync.{Synced}
use swift_ssh.Transport.Io.Receive.{reader}
use swift_ssh.Transport.Io.Cut.{IsPacket, IsFill}
use swift_ssh.Transport.Io.Plain.{Room, writer}
use swift_ssh.Transport.Io.Exchange.{pass}
use swift_ssh.Connection.Channel.{Channel, ChannelManager, find_by_remote_id}
use swift_ssh.Connection.Messages.{
  build_exec_request, build_channel_data, build_channel_eof, build_channel_close,
}
use swift_ssh.Connection.Messages.RoundTrip.{IsU32}
use swift_ssh.Sftp.FileSystem.{FileSystem}
use swift_ssh.Sftp.Handler.{SftpHandler}
use swift_ssh.Server.Commands.{Output, execute_command}
use swift_ssh.Server.Loop.{Conn, send, reply_packet}
use swift_ssh.Server.Loop.Requests.{on_message}
use swift_ssh.Server.Loop.Replies.{exec_answered}

-- The packets of an answer behind the first, and the first: SUCCESS if that was wanted, all of the
-- output in one DATA, EOF and CLOSE.
abbrev pub output_packets : ℕ → List ℕ → List SshPacket
output_packets id output =
    build_channel_data id output ∷ build_channel_eof id ∷ build_channel_close id ∷ []

abbrev pub exec_packets : ℕ → Bool → List ℕ → List SshPacket
exec_packets id true output = reply_packet channel_success id ∷ output_packets id output
exec_packets id false output = output_packets id output

-- A packet that fits, of bytes.
abbrev IsSent : SshPacket → Type 0
IsSent p = IsPacket p × Room p

success-IsSent : (id : ℕ) → IsSent (reply_packet channel_success id)
unfolding reply_packet new as_u8 write_u32 to_be_bytes
success-IsSent id = (record { number = omega arith; bytes = omega arith }, omega arith)

eof-IsSent : (id : ℕ) → IsSent (build_channel_eof id)
unfolding build_channel_eof new as_u8 write_u32 to_be_bytes
eof-IsSent id = (record { number = omega arith; bytes = omega arith }, omega arith)

close-IsSent : (id : ℕ) → IsSent (build_channel_close id)
unfolding build_channel_close new as_u8 write_u32 to_be_bytes
close-IsSent id = (record { number = omega arith; bytes = omega arith }, omega arith)

module _ (crates : Crates) where
  open crates use {Cipher}

  -- One packet after another, as a client receives them.
  pub recv_packets :
      ℕ → Reader → SessionKeys Cipher → SshResult (List SshPacket × Reader × SessionKeys Cipher)
  recv_packets zero r k = ok ([], r, k)
  recv_packets (suc n) r k = do
    (p, r, k) ← recv_packet crates r k
    (ps, r, k) ← recv_packets n r k
    ok (p ∷ ps, r, k)

  -- One packet after another, as the loop sends them.
  send_all :
      (ℕ → ℕ → List ℕ) → ℕ → SshPacket → List SshPacket → Conn Cipher → SshResult (Conn Cipher)
  send_all fill n p [] c = send crates (fill n) p c
  send_all fill n p (q ∷ qs) c = send crates (fill n) p c >>= send_all fill (suc n) q qs

  abbrev pub conn :
      Reader → List ℕ → SessionKeys Cipher → ChannelManager → SftpHandler → Conn Cipher
  conn r sent k channels h = record {
    link = record { reader = r; writer = writer sent; keys = k };
    channels = channels;
    sftp_handler = h;
  }

  module _ (r : Reader) (channels : ChannelManager) (h : SftpHandler) where
    record AllSent (fill : ℕ → ℕ → List ℕ) (n : ℕ) (p : SshPacket) (ps : List SshPacket)
        (sent : List ℕ) (ks kr : SessionKeys Cipher) : Type 0 where
      wire : List ℕ
      server : SessionKeys Cipher
      client : SessionKeys Cipher
      sends :
          send_all fill n p ps (conn r sent ks channels h)
          ≡ ok (conn r (sent ++ wire) server channels h)
      read :
          (rest : List ℕ) (e : IoError)
          → recv_packets (suc (length ps)) (reader (wire ++ rest) e) kr
            ≡ ok (p ∷ ps, reader rest e, client)
      there : Synced server client
      back : Synced client server

    all_sent :
        (stream : IsStreamCipher crates) (mac : IsMac crates) (fill : ℕ → ℕ → List ℕ) (n : ℕ)
        (p : SshPacket) (ps : List SshPacket) (sent : List ℕ) (ks kr : SessionKeys Cipher)
        → ((m : ℕ) → IsFill (fill m))
        → IsSent p
        → All IsSent ps
        → Synced ks kr
        → Synced kr ks
        → AllSent fill n p ps sent ks kr
    unfolding send_all send recv_packets
    all_sent stream mac fill n p [] sent ks kr hf hp hs there back =
        let d = pass crates stream mac (fill n) sent p ks kr (hf n) hp.0 hp.1 there back in
        record {
          wire = d.wire;
          server = d.sender;
          client = d.receiver;
          sends = rw d.sends refl;
          read = λ rest e. rw (d.receives rest e) refl;
          there = d.there;
          back = d.back;
        }
    all_sent stream mac fill n p (q ∷ qs) sent ks kr hf hp hs there back =
        let d = pass crates stream mac (fill n) sent p ks kr (hf n) hp.0 hp.1 there back in
        let more =
          all_sent stream mac fill (suc n) q qs (sent ++ d.wire) d.sender d.receiver hf hs.0 hs.1
            d.there d.back in
        record {
          wire = d.wire ++ more.wire;
          server = more.server;
          client = more.client;
          sends = rw (d.sends, ← append_assoc sent d.wire more.wire) more.sends;
          read = λ rest e.
              rw
                (
                  append_assoc d.wire more.wire rest,
                  d.receives (more.wire ++ rest) e,
                  more.read rest e,
                )
                refl;
          there = more.there;
          back = more.back;
        }

  module _ (FS : FileSystem) (spawn : FS.Disk → List ℕ → List (List ℕ) → Output × FS.Disk) where
    -- What the loop does on the command, and what the client reads of it.
    pub record Executed (fill : ℕ → ℕ → List ℕ) (r : Reader) (sent : List ℕ)
        (ks kr : SessionKeys Cipher) (channels : ChannelManager) (h : SftpHandler) (disk : FS.Disk)
        (id : ℕ) (command : List ℕ) (want_reply : Bool) : Type 0 where
      pub wire : List ℕ
      pub server : SessionKeys Cipher
      pub client : SessionKeys Cipher
      pub ran :
          on_message crates FS spawn fill
            (some channel_request)
            (conn r sent ks channels h)
            disk
            (build_exec_request id command want_reply).payload
          ≡ (ok (conn r (sent ++ wire) server channels h), (execute_command spawn disk command).1)
      pub read :
          (rest : List ℕ) (e : IoError)
          → recv_packets
              (length (exec_packets id want_reply (execute_command spawn disk command).0))
              (reader (wire ++ rest) e)
              kr
            ≡ ok (
              exec_packets id want_reply (execute_command spawn disk command).0,
              reader rest e,
              client,
            )
      pub there : Synced server client
      pub back : Synced client server

    -- While the stream is up and both sides are in step: a command that the client sends for a
    -- channel by the client's own number of it is run, and if its output fits one packet, the loop
    -- goes on, and what it has written is read by the client as SUCCESS, if that was wanted, then all
    -- of the output in one DATA, EOF and CLOSE, all of that number, and nothing else; then both sides
    -- are in step again.
    pub exec-Executed :
        (stream : IsStreamCipher crates) (mac : IsMac crates) (fill : ℕ → ℕ → List ℕ) (r : Reader)
        (sent : List ℕ) (ks kr : SessionKeys Cipher) (channels : ChannelManager) (h : SftpHandler)
        (disk : FS.Disk) (id : ℕ) (command : List ℕ) (want_reply : Bool) (ch : Channel)
        → ((n : ℕ) → IsFill (fill n))
        → IsU32 id
        → IsUtf8 command
        → Fits command
        → find_by_remote_id channels id ≡ some ch
        → IsPacket (build_channel_data id (execute_command spawn disk command).0)
        → Room (build_channel_data id (execute_command spawn disk command).0)
        → Synced ks kr
        → Synced kr ks
        → Executed fill r sent ks kr channels h disk id command want_reply
    unfolding send_all
    exec-Executed stream mac fill r sent ks kr channels h disk id command true ch hf small text fits
          found hd room there back =
        let a =
          all_sent r channels h stream mac fill 0 (reply_packet channel_success id)
            (output_packets id (execute_command spawn disk command).0) sent ks kr hf
            (success-IsSent id) ((hd, room), (eof-IsSent id, (close-IsSent id, tt))) there back in
        record {
          wire = a.wire;
          server = a.server;
          client = a.client;
          ran =
              exec_answered crates FS spawn fill (conn r sent ks channels h) disk id command true ch
                small text fits found
              ∙ ap (λ (x : SshResult (Conn Cipher)). (x, (execute_command spawn disk command).1))
                  a.sends;
          read = a.read;
          there = a.there;
          back = a.back;
        }
    exec-Executed stream mac fill r sent ks kr channels h disk id command false ch hf small text
          fits found hd room there back =
        let a =
          all_sent r channels h stream mac fill 1
            (build_channel_data id (execute_command spawn disk command).0)
            (build_channel_eof id ∷ build_channel_close id ∷ []) sent ks kr hf (hd, room)
            (eof-IsSent id, (close-IsSent id, tt)) there back in
        record {
          wire = a.wire;
          server = a.server;
          client = a.client;
          ran =
              exec_answered crates FS spawn fill (conn r sent ks channels h) disk id command false
                ch small text fits found
              ∙ ap (λ (x : SshResult (Conn Cipher)). (x, (execute_command spawn disk command).1))
                  a.sends;
          read = a.read;
          there = a.there;
          back = a.back;
        }
