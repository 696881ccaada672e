-- ===== src/Server/Loop/Replies.antt =====
-- What the channel loop of src/bin/server.rs answers to a command and to an SFTP packet, and which
-- number it knows a channel by.
use swift_ssh.Prelude.{
  ℕ, ◌+◌, ◌%◌, ◌^◌, ◌<◌, ◌≤◌, ◌≡◌, refl, sym, ap, ◌∙◌, Bool, true, none, some, List, [], ◌∷◌, ◌++◌,
  append_assoc, ascii, length, length-append, drop, take-length_append, leb, ==_iff, if◌then◌else◌,
  Bool-cases, inl, inr, some-injective, arith,
}
use swift_ssh.Error.{SshResult, ok, err, channel, msg, ◌>>=◌}
use swift_ssh.HashMap.{HashMap, nat_key, find_value}
use swift_ssh.Packet.Types.{channel_success, channel_request}
use swift_ssh.Packet.Utf8.{IsUtf8}
use swift_ssh.Packet.Buf.{to_be_bytes}
use swift_ssh.Packet.Buf.Laws.{Fits}
use swift_ssh.Crypto.{Crates}
use swift_ssh.Transport.Io.Cut.{first_u32-to_be_bytes}
use swift_ssh.Connection.Channel.{Channel, ChannelManager, find_by_remote_id}
use swift_ssh.Connection.Messages.{
  ChannelRequestMsg, build_exec_request, build_channel_data, build_channel_eof, build_channel_close,
}
use swift_ssh.Connection.Messages.RoundTrip.{IsU32, parse_request-build_exec_request}
use swift_ssh.Sftp.Messages
use swift_ssh.Sftp.Messages.{SftpPacket}
use swift_ssh.Sftp.Messages.Laws.{inner, encode_lem, decode-inner, length-inner}
use swift_ssh.Sftp.FileSystem.{FileSystem}
use swift_ssh.Server.Commands.{Output, execute_command}
use swift_ssh.Server.Loop.{
  Conn, remote_of, reply_packet, sftp_request, send, reply_if_wanted, decoded,
}
use swift_ssh.Server.Loop.Requests.{on_message, dispatch_request, on_exec, send_output}

-- The channel that is found has the number that was looked for.
find_value-holds :
    (p : Channel → Bool) (m : HashMap ℕ Channel) (ch : Channel)
    → find_value p m ≡ some ch
    → p ch ≡ true
unfolding find_value
find_value-holds p [] ch e = cc
find_value-holds p ((k, c) ∷ m) ch e = elim (Bool-cases (p c)) [
  | inl h ↦ rw (sym (some-injective (rw h at e))) h
  | inr h ↦ find_value-holds p m ch (rw h at e)
]

pub remote_of-some :
    (m : ChannelManager) (recipient : ℕ) (ch : Channel)
    → find_by_remote_id m recipient ≡ some ch
    → remote_of m recipient ≡ ok recipient
unfolding remote_of find_by_remote_id
remote_of-some m recipient ch e =
    rw e (ap (λ id. ok id) ((==_iff ch.remote_id recipient).0 (find_value-holds _ m.channels ch e)))

pub remote_of-none :
    (m : ChannelManager) (recipient : ℕ)
    → find_by_remote_id m recipient ≡ none
    → remote_of m recipient ≡ err (channel (msg "Unknown channel"))
unfolding remote_of
remote_of-none m recipient e = rw e refl

module _ (crates : Crates) (FS : FileSystem)
    (spawn : FS.Disk → List ℕ → List (List ℕ) → Output × FS.Disk) where
  open crates use {Cipher}

  -- The packets of the answer to a command, in their order.
  abbrev pub exec_answer :
      (ℕ → ℕ → List ℕ) → ℕ → Bool → List ℕ → Conn Cipher → SshResult (Conn Cipher)
  exec_answer fill id want_reply output c = do
    c ← if want_reply then send crates (fill 0) (reply_packet channel_success id) c else ok c
    c ← send crates (fill 1) (build_channel_data id output) c
    c ← send crates (fill 2) (build_channel_eof id) c
    send crates (fill 3) (build_channel_close id) c

  send_output_lem :
      (fill : ℕ → ℕ → List ℕ) (m : ChannelRequestMsg) (output : List ℕ) (c : Conn Cipher)
      (ch : Channel)
      → find_by_remote_id c.channels m.recipient_channel ≡ some ch
      → send_output crates fill m output c
        ≡ exec_answer fill m.recipient_channel m.want_reply output c
  unfolding send_output reply_if_wanted
  send_output_lem fill m output c ch e =
      rw (remote_of-some c.channels m.recipient_channel ch e) refl

  send_output_unknown :
      (fill : ℕ → ℕ → List ℕ) (m : ChannelRequestMsg) (output : List ℕ) (c : Conn Cipher)
      → find_by_remote_id c.channels m.recipient_channel ≡ none
      → send_output crates fill m output c ≡ err (channel (msg "Unknown channel"))
  unfolding send_output
  send_output_unknown fill m output c e = rw (remote_of-none c.channels m.recipient_channel e) refl

  exec_lem :
      (fill : ℕ → ℕ → List ℕ) (c : Conn Cipher) (disk : FS.Disk) (id : ℕ) (command : List ℕ)
      (want_reply : Bool)
      → IsU32 id
      → IsUtf8 command
      → Fits command
      → (more : List ℕ) × (on_message crates FS spawn fill
            (some channel_request)
            c
            disk
            (build_exec_request id command want_reply).payload
          ≡ (
            send_output crates fill
                (record {
                  recipient_channel = id;
                  request_type = ascii "exec";
                  want_reply = want_reply;
                  bytes = more;
                })
                (execute_command spawn disk command).0
                c,
            (execute_command spawn disk command).1,
          ))
  unfolding on_message dispatch_request on_exec
  exec_lem fill c disk id command want_reply small text fits =
      let (more, e, read) =
        parse_request-build_exec_request id command want_reply small text fits in
      (more, rw (e, read) refl)

  -- A command that the client sends for a channel by the client's own number of it is run, and the
  -- loop then does `exec_answer` with its output.
  pub exec_answered :
      (fill : ℕ → ℕ → List ℕ) (c : Conn Cipher) (disk : FS.Disk) (id : ℕ) (command : List ℕ)
      (want_reply : Bool) (ch : Channel)
      → IsU32 id
      → IsUtf8 command
      → Fits command
      → find_by_remote_id c.channels id ≡ some ch
      → on_message crates FS spawn fill
          (some channel_request)
          c
          disk
          (build_exec_request id command want_reply).payload
        ≡ (
          exec_answer fill id want_reply (execute_command spawn disk command).0 c,
          (execute_command spawn disk command).1,
        )
  exec_answered fill c disk id command want_reply ch small text fits e =
      let (more, run) = exec_lem fill c disk id command want_reply small text fits in
      run
      ∙ ap (λ (r : SshResult (Conn Cipher)). (r, (execute_command spawn disk command).1))
          (send_output_lem fill _ (execute_command spawn disk command).0 c ch e)

  -- For any other number the command is run all the same, and the session ends with an error.
  pub exec_unknown :
      (fill : ℕ → ℕ → List ℕ) (c : Conn Cipher) (disk : FS.Disk) (id : ℕ) (command : List ℕ)
      (want_reply : Bool)
      → IsU32 id
      → IsUtf8 command
      → Fits command
      → find_by_remote_id c.channels id ≡ none
      → on_message crates FS spawn fill
          (some channel_request)
          c
          disk
          (build_exec_request id command want_reply).payload
        ≡ (err (channel (msg "Unknown channel")), (execute_command spawn disk command).1)
  exec_unknown fill c disk id command want_reply small text fits e =
      let (more, run) = exec_lem fill c disk id command want_reply small text fits in
      run
      ∙ ap (λ (r : SshResult (Conn Cipher)). (r, (execute_command spawn disk command).1))
          (send_output_unknown fill _ (execute_command spawn disk command).0 c e)

drop-to_be_bytes : (v : ℕ) (rest : List ℕ) → drop 4 (to_be_bytes v ++ rest) ≡ rest
unfolding to_be_bytes
drop-to_be_bytes v rest = refl

length-framed :
    (v : ℕ) (xs ys : List ℕ) → length (to_be_bytes v ++ (xs ++ ys)) ≡ 4 + (length xs + length ys)
unfolding to_be_bytes
length-framed v xs ys = omega (arith, length-append xs ys)

leb_of_le : (a b : ℕ) → a ≤ b → leb a b ≡ true
leb_of_le a b h = ground arith

pub framed_request :
    (xs rest : List ℕ)
    → 5 ≤ length xs
    → length xs < 2 ^ 32
    → sftp_request (to_be_bytes (length xs) ++ (xs ++ rest)) ≡ decoded (Messages.decode xs)
unfolding sftp_request
framed_request xs rest long small =
    rw
      (
        length-framed (length xs) xs rest,
        first_u32-to_be_bytes (length xs) (xs ++ rest) small,
        drop-to_be_bytes (length xs) (xs ++ rest),
        take-length_append xs rest,
        leb_of_le 9 (4 + (length xs + length rest)) (omega arith),
        leb_of_le (length xs + 4) (4 + (length xs + length rest)) (omega arith),
        leb_of_le 5 (length xs) long,
      )
      refl

-- An encoded SFTP packet at the start of the data of a channel is found, whatever follows it.
pub sftp_request-encode :
    (pkt : SftpPacket) (rest : List ℕ)
    → pkt.request_id < 2 ^ 32
    → length pkt.payload + 5 < 2 ^ 32
    → sftp_request (Messages.encode pkt ++ rest) ≡ some pkt
sftp_request-encode pkt rest hid hlen =
    rw (encode_lem pkt, append_assoc, size)
      (framed_request (inner pkt) rest (omega (arith, length-inner pkt))
          (omega (arith, length-inner pkt))
        ∙ ap decoded (decode-inner pkt hid))
  where
    size : (1 + 4 + length pkt.payload) % 2 ^ 32 ≡ length (inner pkt)
    size = omega (arith, length-inner pkt)
