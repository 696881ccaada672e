-- ===== src/Server/Loop/Effects.antt =====
-- What a message of the client does to the server's table of channels, to the SFTP handler and to
-- the disk, as a step relation.
use swift_ssh.Prelude.{ℕ, ◌≡◌, refl, ◌∙◌, not, Option, none, some, List, ascii, bytes_eq}
use swift_ssh.Error.{SshResult, ok, err, panic, ◌>>=◌}
use swift_ssh.Packet.Types.{MessageType, channel_success, channel_failure}
use swift_ssh.Packet.Buf.{read_utf8, read_u32}
use swift_ssh.Packet.Codec.{SshPacket}
use swift_ssh.Crypto.{Crates}
use swift_ssh.Transport.Io.{send_packet}
use swift_ssh.Connection.Channel.{ChannelManager, Channel, accept_channel, find_by_remote_id}
use swift_ssh.Connection.Messages.{
  ChannelRequestMsg, parse_open, build_channel_data, build_channel_eof, build_channel_close,
}
use swift_ssh.Prelude.{if-holds}
use swift_ssh.Server.Loop.{Conn, remote_of, reply_packet, send, reply_if_wanted}
use swift_ssh.Server.Loop.Requests.{
  change_channel, add_window, mark_eof, on_open, send_output, on_subsystem, on_window_adjust,
  on_eof, close_back, on_close,
}

-- What happens to the channels.
pub data Change (m : ChannelManager) : ChannelManager → Type 0 where
  same : Change m m
  accepts : (remote_id : ℕ) (t : List ℕ) (w p : ℕ) → Change m (accept_channel m remote_id t w p).1
  widens : (recipient n : ℕ) → Change m (change_channel m recipient (add_window n))
  ends : (recipient : ℕ) → Change m (change_channel m recipient mark_eof)

module _ (crates : Crates) where
  open crates use {Cipher}

  -- The connection afterwards, when only the channels may have changed.
  pub record Answered (c c' : Conn Cipher) : Type 0 where
    pub reader : c'.link.reader ≡ c.link.reader
    pub handler : c'.sftp_handler ≡ c.sftp_handler
    pub change : Change c.channels c'.channels

  -- Nothing but packets that were sent.
  pub record Sent (c c' : Conn Cipher) : Type 0 where
    pub reader : c'.link.reader ≡ c.link.reader
    pub handler : c'.sftp_handler ≡ c.sftp_handler
    pub channels : c'.channels ≡ c.channels

  Sent-trans : (c d e : Conn Cipher) → Sent c d → Sent d e → Sent c e
  Sent-trans c d e f g = record {
    reader = g.reader ∙ f.reader;
    handler = g.handler ∙ f.handler;
    channels = g.channels ∙ f.channels;
  }

  Sent-refl : (c : Conn Cipher) → Sent c c
  Sent-refl c = record { reader = refl; handler = refl; channels = refl }

  Sent-Answered : (c c' : Conn Cipher) → Sent c c' → Answered c c'
  Sent-Answered c c' s = record {
    reader = s.reader;
    handler = s.handler;
    change = rw s.channels Change.same;
  }

  -- What holds of the value, if there is one.
  abbrev pub Good {ℓ} : (Conn Cipher → Type ℓ) → SshResult (Conn Cipher) → Type ℓ
  Good P (ok c) = P c
  Good P (err e) = Unit
  Good P panic = Unit

  -- What needs a value first.
  pub bind-Good {ℓ κ} :
      {A : Type κ} (P : Conn Cipher → Type ℓ) (r : SshResult A)
      (go_on : A → SshResult (Conn Cipher))
      → ((a : A) → r ≡ ok a → Good P (go_on a))
      → Good P (r >>= go_on)
  bind-Good P (ok a) go_on k = k a refl
  bind-Good P (err e) go_on k = tt
  bind-Good P panic go_on k = tt

  pub send-Sent :
      (fill : ℕ → List ℕ) (pkt : SshPacket) (c : Conn Cipher)
      → Good (Sent c) (send crates fill pkt c)
  unfolding send
  send-Sent fill pkt c =
      bind-Good (Sent c) (send_packet crates fill c.link.writer pkt c.link.keys) _
        λ q _. record { reader = refl; handler = refl; channels = refl }

  -- A send that is followed by more.
  then-Sent :
      (r : SshResult (Conn Cipher)) (go_on : Conn Cipher → SshResult (Conn Cipher))
      (c : Conn Cipher)
      → Good (Sent c) r
      → ((d : Conn Cipher) → Good (Sent d) (go_on d))
      → Good (Sent c) (r >>= go_on)
  then-Sent (err e) go_on c h k = tt
  then-Sent panic go_on c h k = tt
  then-Sent (ok d) go_on c h k = lift (go_on d) (k d)
    where
      lift : (r : SshResult (Conn Cipher)) → Good (Sent d) r → Good (Sent c) r
      lift (ok e) s = Sent-trans c d e h s
      lift (err e) s = tt
      lift panic s = tt

  pub reply-Sent :
      (fill : ℕ → List ℕ) (kind : MessageType) (m : ChannelRequestMsg) (c : Conn Cipher)
      → Good (Sent c) (reply_if_wanted crates fill kind m c)
  unfolding reply_if_wanted
  reply-Sent fill kind m c =
      if-holds (Good (Sent c)) m.want_reply
        (λ _.
          bind-Good (Sent c) (remote_of c.channels m.recipient_channel) _
            λ id _. send-Sent fill (reply_packet kind id) c)
        λ _. Sent-refl c

  pub send_output-Sent :
      (fill : ℕ → ℕ → List ℕ) (m : ChannelRequestMsg) (output : List ℕ) (c : Conn Cipher)
      → Good (Sent c) (send_output crates fill m output c)
  unfolding send_output
  send_output-Sent fill m output c =
      bind-Good (Sent c) (remote_of c.channels m.recipient_channel) _ λ id _.
        then-Sent (reply_if_wanted crates (fill 0) channel_success m c) _ c
          (reply-Sent (fill 0) channel_success m c)
          λ d.
            then-Sent (send crates (fill 1) (build_channel_data id output) d) _ d
              (send-Sent (fill 1) _ d)
              λ e.
                then-Sent (send crates (fill 2) (build_channel_eof id) e) _ e
                  (send-Sent (fill 2) _ e) λ f. send-Sent (fill 3) (build_channel_close id) f

  pub subsystem-Sent :
      (fill : ℕ → ℕ → List ℕ) (m : ChannelRequestMsg) (c : Conn Cipher)
      → Good (Sent c) (on_subsystem crates fill m c)
  unfolding on_subsystem
  subsystem-Sent fill m c = bind-Good (Sent c) (read_utf8 m.bytes) _ λ s _.
      if-holds (Good (Sent c)) (bytes_eq s.0 (ascii "sftp"))
        (λ _. reply-Sent (fill 0) channel_success m c) λ _. reply-Sent (fill 0) channel_failure m c

  close_back-Sent :
      (fill : ℕ → ℕ → List ℕ) (found : Option Channel) (c : Conn Cipher)
      → Good (Sent c) (close_back crates fill found c)
  unfolding close_back
  close_back-Sent fill none c = Sent-refl c
  close_back-Sent fill (some ch) c =
      if-holds (Good (Sent c)) (not ch.closed) (λ _. send-Sent (fill 0) _ c) λ _. Sent-refl c

  pub close-Sent :
      (fill : ℕ → ℕ → List ℕ) (c : Conn Cipher) (payload : List ℕ)
      → Good (Sent c) (on_close crates fill c payload)
  unfolding on_close
  close-Sent fill c payload =
      bind-Good (Sent c) (read_u32 payload) _
        λ r _. close_back-Sent fill (find_by_remote_id c.channels r.0) c

  pub Good-Answered :
      (c : Conn Cipher) (r : SshResult (Conn Cipher)) → Good (Sent c) r → Good (Answered c) r
  Good-Answered c (ok d) s = Sent-Answered c d s
  Good-Answered c (err e) s = tt
  Good-Answered c panic s = tt

  pub window_adjust-Answered :
      (c : Conn Cipher) (payload : List ℕ) → Good (Answered c) (on_window_adjust crates c payload)
  unfolding on_window_adjust
  window_adjust-Answered c payload = bind-Good (Answered c) (read_u32 payload) _ λ r _.
      bind-Good (Answered c) (read_u32 r.1) _
        λ n _. record { reader = refl; handler = refl; change = Change.widens r.0 n.0 }

  pub eof-Answered :
      (c : Conn Cipher) (payload : List ℕ) → Good (Answered c) (on_eof crates c payload)
  unfolding on_eof
  eof-Answered c payload =
      bind-Good (Answered c) (read_u32 payload) _
        λ r _. record { reader = refl; handler = refl; change = Change.ends r.0 }

  -- A channel that is accepted, and confirmed.
  confirmed :
      (c c' : Conn Cipher) (remote_id : ℕ) (t : List ℕ) (w p : ℕ)
      → Sent (record c { channels = (accept_channel c.channels remote_id t w p).1 }) c'
      → Answered c c'
  confirmed c c' remote_id t w p s = record {
    reader = s.reader;
    handler = s.handler;
    change = rw s.channels (Change.accepts remote_id t w p);
  }

  Good-confirmed :
      (c : Conn Cipher) (r : SshResult (Conn Cipher)) (remote_id : ℕ) (t : List ℕ) (w p : ℕ)
      → Good (Sent (record c { channels = (accept_channel c.channels remote_id t w p).1 })) r
      → Good (Answered c) r
  Good-confirmed c (ok c') remote_id t w p s = confirmed c c' remote_id t w p s
  Good-confirmed c (err e) remote_id t w p s = tt
  Good-confirmed c panic remote_id t w p s = tt

  pub open-Answered :
      (fill : ℕ → ℕ → List ℕ) (c : Conn Cipher) (payload : List ℕ)
      → Good (Answered c) (on_open crates fill c payload)
  unfolding on_open
  open-Answered fill c payload = bind-Good (Answered c) (parse_open payload) _ λ m _.
      Good-confirmed c _ m.sender_channel m.channel_type m.initial_window m.max_packet
        (send-Sent (fill 0) _ _)
