-- ===== src/Connection/Channel/Flow.antt =====
-- Flow control: what a run of received data does to a channel's window and buffer.
use swift_ssh.Prelude.{
  ℕ, ◌+◌, ◌-◌, ◌%◌, ◌^◌, ◌≤◌, ◌<◌, ◌≡◌, ◌≢◌, refl, sym, ◌∙◌, some, List, [], ◌∷◌, ◌++◌,
  append_assoc, append-nil, length, length-append, lt→ltb, ge→ltb, arith,
}
use swift_ssh.Error.{SshResult, ok, err, channel, msg, ◌>>=◌}
use swift_ssh.HashMap.{nat_key, get, insert, get-insert_self, get-insert_ne}
use swift_ssh.Connection.Channel.{
  Channel, ChannelManager, with_channel, receive, receive_data, get_channel,
}

-- The pieces of data, one `receive_data` after the other, up to the first that fails.
unfoldable pub receive_all : ChannelManager → ℕ → List (List ℕ) → SshResult ChannelManager
receive_all m id [] = ok m
receive_all m id (c ∷ cs) = do m1 ← receive_data m id c; receive_all m1 id cs

unfoldable pub flatten : List (List ℕ) → List ℕ
flatten [] = []
flatten (c ∷ cs) = c ++ flatten cs

-- The channel behind a piece that fits its window.
received : Channel → List ℕ → Channel
received ch bytes = record ch {
  local_window = ch.local_window - length bytes;
  recv_buffer = ch.recv_buffer ++ bytes;
}

receive_fits :
    (ch : Channel) (bytes : List ℕ)
    → ch.local_window < 2 ^ 32
    → length bytes ≤ ch.local_window
    → receive bytes ch ≡ ok (received ch bytes)
unfolding receive received
receive_fits ch bytes w h = rw (small, ge→ltb _ _ h)
  where
    small : length bytes % 2 ^ 32 ≡ length bytes
    small = omega arith

with_channel_found :
    (m : ChannelManager) (id : ℕ) (f : Channel → SshResult Channel) (ch : Channel)
    → get id m.channels ≡ some ch
    → with_channel m id f ≡ (f ch >>= λ ch'. ok (record m { channels = insert id ch' m.channels }))
unfolding with_channel
with_channel_found m id f ch h = rw h

receive_data_fits :
    (m : ChannelManager) (id : ℕ) (ch : Channel) (bytes : List ℕ)
    → get_channel m id ≡ some ch
    → ch.local_window < 2 ^ 32
    → length bytes ≤ ch.local_window
    → receive_data m id bytes
      ≡ ok (record m { channels = insert id (received ch bytes) m.channels })
unfolding receive_data get_channel
receive_data_fits m id ch bytes found w h =
    rw (with_channel_found m id (receive bytes) ch found, receive_fits ch bytes w h)

-- What a run leaves behind in the channel `id`, and everywhere else.
pub record IsReceived (m m' : ChannelManager) (id j : ℕ) (ch : Channel) (chunks : List (List ℕ))
    : Type 0 where
  pub after : Channel
  pub found : get_channel m' id ≡ some after
  pub window : after.local_window + length (flatten chunks) ≡ ch.local_window
  pub buffer : after.recv_buffer ≡ ch.recv_buffer ++ flatten chunks
  pub others : get_channel m' j ≡ get_channel m j

-- One piece more in front.
IsReceived-cons :
    (m m' : ChannelManager) (id j : ℕ) (ch : Channel) (c : List ℕ) (cs : List (List ℕ))
    → length c ≤ ch.local_window
    → j ≢ id
    → IsReceived
        (record m { channels = insert id (received ch c) m.channels })
        m'
        id
        j
        (received ch c)
        cs
    → IsReceived m m' id j ch (c ∷ cs)
unfolding received flatten get_channel
IsReceived-cons m m' id j ch c cs h ne r = record {
  after = r.after;
  found = r.found;
  window = omega (arith, r.window, length-append c (flatten cs));
  buffer = r.buffer ∙ append_assoc ch.recv_buffer c (flatten cs);
  others = r.others ∙ get-insert_ne id j _ m.channels ne;
}

-- Data that fit a channel's window together are all accepted, whatever their pieces: the buffer
-- grows by exactly those bytes in their order, the window shrinks by their number, and every other
-- channel is as it was. (The window is a u32.)
pub receive_all_fits :
    (m : ChannelManager) (id j : ℕ) (ch : Channel) (chunks : List (List ℕ))
    → get_channel m id ≡ some ch
    → ch.local_window < 2 ^ 32
    → length (flatten chunks) ≤ ch.local_window
    → j ≢ id
    → (m' : ChannelManager) × (receive_all m id chunks ≡ ok m') × IsReceived m m' id j ch chunks
unfolding receive_all flatten
receive_all_fits m id j ch [] found w h ne = (
  m,
  refl,
  record {
    after = ch;
    found = found;
    window = omega arith;
    buffer = sym (append-nil _);
    others = refl;
  },
)
receive_all_fits m id j ch (c ∷ cs) found w h ne =
    let m1 : ChannelManager = record m { channels = insert id (received ch c) m.channels } in
    let here : length c ≤ ch.local_window = omega (arith, length-append c (flatten cs)) in
    let later : length (flatten cs) ≤ (received ch c).local_window =
      unfold received in omega (arith, length-append c (flatten cs)) in
    let still : (received ch c).local_window < 2 ^ 32 = unfold received in omega arith in
    let again : get_channel m1 id ≡ some (received ch c) =
      unfold get_channel in get-insert_self id (received ch c) m.channels in
    let (m', e, r) = receive_all_fits m1 id j (received ch c) cs again still later ne in
    (
      m',
      rw (receive_data_fits m id ch c found w here) e,
      IsReceived-cons m m' id j ch c cs here ne r,
    )

-- A piece of less than 4 GiB that is larger than the window is refused as a window overflow.
pub receive_data_overflow :
    (m : ChannelManager) (id : ℕ) (ch : Channel) (bytes : List ℕ)
    → get_channel m id ≡ some ch
    → length bytes < 2 ^ 32
    → ch.local_window < length bytes
    → receive_data m id bytes ≡ err (channel (msg "Window overflow"))
unfolding receive_data get_channel receive
receive_data_overflow m id ch bytes found small h = rw (
  with_channel_found m id (receive bytes) ch found,
  lt→ltb ch.local_window (length bytes % 2 ^ 32) (omega arith),
)
