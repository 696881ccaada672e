-- ===== src/Server/Loop/Table.antt =====
-- The table of channels as the channel loop of src/bin/server.rs keeps it.
use swift_ssh.Prelude.{
  ℕ, ◌+◌, ◌%◌, ◌^◌, ◌<◌, ◌≤◌, ◌≡◌, refl, ◌∙◌, inl, inr, false, some, List, [], ==_iff, arith,
}
use swift_ssh.HashMap.{nat_key, get, insert, get-insert}
use swift_ssh.Packet.Types.{default_window_size}
use swift_ssh.Connection.Channel.{Channel, ChannelManager, new, new_channel, accept_channel}
use swift_ssh.Connection.Channel.Invariant.{get-update}
use swift_ssh.Server.Loop.Requests.{change_channel, add_window, mark_eof}
use swift_ssh.Server.Loop.Effects.{Change}

-- A channel is filed under its own id, which has been given out, and what the client has sent on it
-- has left no mark but its EOF and its window: it counts as open, with the window it started with.
pub record IsOpen (next_id id : ℕ) (ch : Channel) : Type 0 where
  pub filed : ch.local_id ≡ id
  pub given : id < next_id
  pub open_still : ch.closed ≡ false
  pub window : ch.local_window ≡ default_window_size
  pub buffer : ch.recv_buffer ≡ []

pub record IsTable (m : ChannelManager) : Type 0 where
  pub ids : m.next_id < 2 ^ 32
  pub at : (id : ℕ) (ch : Channel) → get id m.channels ≡ some ch → IsOpen m.next_id id ch

pub new-IsTable : IsTable new
unfolding new get
new-IsTable = record { ids = omega arith; at = λ id ch e. cc }

change_channel-IsTable :
    (m : ChannelManager) (recipient : ℕ) (f : Channel → Channel)
    → ((id : ℕ) (ch : Channel) → IsOpen m.next_id id ch → IsOpen m.next_id id (f ch))
    → IsTable m
    → IsTable (change_channel m recipient f)
unfolding change_channel
change_channel-IsTable m recipient f keeps t = record {
  ids = t.ids;
  at = λ id ch e.
      let (old, found, how) = get-update recipient f m.channels id ch e in
      elim how [
        | inl same ↦ rw same (t.at id old found)
        | inr changed ↦ rw changed (keeps id old (t.at id old found))
      ];
}

add-IsTable :
    (m : ChannelManager) (ch : Channel)
    → IsTable m
    → m.next_id + 1 < 2 ^ 32
    → ch.local_id ≡ m.next_id
    → ch.closed ≡ false
    → ch.local_window ≡ default_window_size
    → ch.recv_buffer ≡ []
    → IsTable
        (record m { channels = insert m.next_id ch m.channels; next_id = (m.next_id + 1) % 2 ^ 32 })
add-IsTable m ch t room hi hc hw hb = record {
  ids = omega arith;
  at = λ j c e. ground (arith, get-insert m.next_id j ch m.channels, ==_iff j m.next_id, t.at j c);
}

accept_channel-IsTable :
    (m : ChannelManager) (remote_id : ℕ) (t : List ℕ) (w p : ℕ)
    → m.next_id + 1 < 2 ^ 32
    → IsTable m
    → IsTable (accept_channel m remote_id t w p).1
unfolding accept_channel new_channel
accept_channel-IsTable m remote_id t w p room table = add-IsTable m _ table room refl refl refl refl

kept-IsOpen :
    (next_id id : ℕ) (ch ch' : Channel)
    → ch'.local_id ≡ ch.local_id
    → ch'.closed ≡ ch.closed
    → ch'.local_window ≡ ch.local_window
    → ch'.recv_buffer ≡ ch.recv_buffer
    → IsOpen next_id id ch
    → IsOpen next_id id ch'
kept-IsOpen next_id id ch ch' a b c d o = record {
  filed = a ∙ o.filed;
  given = o.given;
  open_still = b ∙ o.open_still;
  window = c ∙ o.window;
  buffer = d ∙ o.buffer;
}

-- Every change of the loop keeps the table, while ids are left.
pub Change-IsTable :
    (m m' : ChannelManager)
    → m.next_id + 1 < 2 ^ 32
    → IsTable m
    → Change m m'
    → IsTable m' × (m'.next_id ≤ m.next_id + 1)
unfolding change_channel accept_channel add_window mark_eof
Change-IsTable m m' room t Change.same = (t, omega arith)
Change-IsTable m m' room t (Change.accepts remote_id ct w p) =
    (accept_channel-IsTable m remote_id ct w p room t, omega arith)
Change-IsTable m m' room t (Change.widens recipient n) = (
  change_channel-IsTable m recipient (add_window n)
      (λ id ch o. kept-IsOpen _ id ch _ refl refl refl refl o) t,
  omega arith,
)
Change-IsTable m m' room t (Change.ends recipient) = (
  change_channel-IsTable m recipient mark_eof
      (λ id ch o. kept-IsOpen _ id ch _ refl refl refl refl o) t,
  omega arith,
)
