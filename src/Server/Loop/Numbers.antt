-- ===== src/Server/Loop/Numbers.antt =====
-- Which number the channel loop of src/bin/server.rs knows a channel by, and the first packet of an
-- SFTP client.
use swift_ssh.Prelude.{
  ℕ, ◌+◌, ◌%◌, ◌^◌, ◌<◌, length, ap, ◌∙◌, ◌≡◌, ◌≢◌, refl, Bool, true, false, none, some, List, [],
  ◌∷◌, ◌++◌, ◌==◌, ==_iff, Option-cases, inl, inr, arith,
}
use swift_ssh.Error.{ok, err, channel, msg}
use swift_ssh.HashMap.{HashMap, nat_key, find_value, insert}
use swift_ssh.Connection.Channel.{Channel, ChannelManager, accept_channel, find_by_remote_id}
use swift_ssh.Sftp
use swift_ssh.Sftp.Messages.{new_packet, build_sftp_status}
use swift_ssh.Packet.Buf.{to_be_bytes}
use swift_ssh.Sftp.FileSystem.{FileSystem}
use swift_ssh.Sftp.Handler.{SftpHandler}
use swift_ssh.Sftp.Handler.Requests.{handle_request}
use swift_ssh.Server.Loop.{remote_of, sftp_request}
use swift_ssh.Server.Loop.Replies.{remote_of-some, remote_of-none, sftp_request-encode}
use swift_ssh.Sftp.Messages.Laws.{inner, encode_lem}
use swift_ssh.Sftp.Handler.Answers.{is_response}
use swift_ssh.Sftp.Handler.Replies.{handle_request-Replies}
use swift_ssh.Sftp.Messages.{SftpPacket, encode}

module _ (p : Channel → Bool) (k : ℕ) (v : Channel) where
  -- A value that is inserted is found, if it is looked for and nothing else is.
  find_value-insert : (m : HashMap ℕ Channel) → p v ≡ true → find_value p (insert k v m) ≢ none
  unfolding find_value insert
  find_value-insert [] h = λ e. ground arith
  find_value-insert ((j, w) ∷ m) h = λ e. ground (arith, find_value-insert m)

  -- What is not looked for changes nothing, if nothing was found before.
  find_value-insert_other :
      (m : HashMap ℕ Channel)
      → p v ≡ false
      → find_value p m ≡ none
      → find_value p (insert k v m) ≡ none
  unfolding find_value insert
  find_value-insert_other [] h e = rw h refl
  find_value-insert_other ((j, w) ∷ m) h e = ground (arith, find_value-insert_other m)

-- A channel that is accepted is known by the number that the client gave.
pub remote_of-accepted :
    (m : ChannelManager) (s : ℕ) (t : List ℕ) (w p : ℕ)
    → remote_of (accept_channel m s t w p).1 s ≡ ok s
unfolding accept_channel find_by_remote_id
remote_of-accepted m s t w p = elim (Option-cases (find_by_remote_id after s)) [
  | inl e ↦
      absurd
        (find_value-insert (λ ch. ch.remote_id == s) m.next_id _ m.channels ((==_iff s s).1 refl) e)
  | inr (ch, e) ↦ remote_of-some after s ch e
]
  where
    after : ChannelManager
    after = (accept_channel m s t w p).1

-- When the client has given another number for a channel than the one that it is told, and has no
-- channel of that number itself, then the loop knows the channel by the client's number, and to the
-- number that it has told the client it answers with an error.
pub accept_channel-remote_of :
    (m : ChannelManager) (s : ℕ) (t : List ℕ) (w p : ℕ)
    → s ≢ (accept_channel m s t w p).0
    → find_by_remote_id m (accept_channel m s t w p).0 ≡ none
    → (remote_of (accept_channel m s t w p).1 s ≡ ok s)
      × (remote_of (accept_channel m s t w p).1 (accept_channel m s t w p).0
          ≡ err (channel (msg "Unknown channel")))
unfolding accept_channel find_by_remote_id
accept_channel-remote_of m s t w p differ e = (
  remote_of-accepted m s t w p,
  remote_of-none (accept_channel m s t w p).1 m.next_id (
      find_value-insert_other (λ ch. ch.remote_id == m.next_id) m.next_id _ m.channels
        (unequal s m.next_id differ) e),
)
  where
    unequal : (a b : ℕ) → a ≢ b → (a == b) ≡ false
    unequal a b differ = ground arith

-- The first packet of an SFTP client, with any version and any extensions that fit the length field,
-- and whatever follows it, is read as a request of the type INIT with the version for its id. It is
-- answered by the status OP_UNSUPPORTED, and neither the handler nor the disk changes. The handler
-- answers no request with the type VERSION.
pub init_unsupported :
    (FS : FileSystem) (h : SftpHandler) (disk : FS.Disk) (version : ℕ) (extensions rest : List ℕ)
    → version < 2 ^ 32
    → length extensions + 5 < 2 ^ 32
    → (sftp_request (
          (to_be_bytes (length extensions + 5)
            ++ (Sftp.fxp_init ∷ to_be_bytes version ++ extensions))
          ++ rest)
        ≡ some (new_packet Sftp.fxp_init version extensions))
      × (handle_request FS h disk (new_packet Sftp.fxp_init version extensions)
          ≡ (build_sftp_status version Sftp.fx_op_unsupported "Unsupported operation", h, disk))
      × ((pkt : SftpPacket) → (handle_request FS h disk pkt).0.packet_type ≢ Sftp.fxp_version)
unfolding handle_request is_response inner
init_unsupported FS h disk version extensions rest hv he = (
  rw wire at (sftp_request-encode (new_packet Sftp.fxp_init version extensions) rest hv he),
  refl,
  λ pkt same.
      let answer = (handle_request-Replies FS h disk pkt).0.response in
      absurd (ground (arith, rw same at answer)),
)
  where
    size : (1 + 4 + length extensions) % 2 ^ 32 ≡ length extensions + 5
    size = omega arith

    wire :
        encode (new_packet Sftp.fxp_init version extensions)
        ≡ to_be_bytes (length extensions + 5) ++ (Sftp.fxp_init ∷ to_be_bytes version ++ extensions)
    wire =
        encode_lem (new_packet Sftp.fxp_init version extensions)
        ∙ ap (λ (n : ℕ). to_be_bytes n ++ (Sftp.fxp_init ∷ to_be_bytes version ++ extensions)) size
