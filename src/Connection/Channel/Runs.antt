-- ===== src/Connection/Channel/Runs.antt =====
-- Runs of the channel table: every operation of `ChannelManager` as a step, and what holds after
-- any sequence of them.
use swift_ssh.Prelude.{
  ℕ, ◌+◌, ◌^◌, ◌<◌, ◌≡◌, ◌≢◌, refl, none, some, Option-cases, inl, inr, List, arith,
}
use swift_ssh.Error.{ok}
use swift_ssh.HashMap.{nat_key, get, get-insert_ne, get-insert_self}
use swift_ssh.Connection.Channel.{
  Channel, ChannelManager, new_channel, new, open_channel, confirm_channel, accept_channel,
  get_channel, remove_channel, receive_data, consume_remote_window, adjust_local_window, get_mut,
  update_by_remote_id,
}
use swift_ssh.Connection.Channel.Invariant.{
  IsValid, new-IsValid, open_channel-IsValid, accept_channel-IsValid, confirm_channel-IsValid,
  receive_data-IsValid, consume_remote_window-IsValid, adjust_local_window-IsValid,
  remove_channel-IsValid, KeepsFiled, get_mut-IsValid, find_by_remote_id_mut-IsValid,
}

-- One call of the manager that succeeds, on arguments that are u32. Through a mutable reference,
-- which `get_mut` and `find_by_remote_id_mut` give, anything may be written to a channel that leaves its
-- own id and keeps its windows u32.
pub data Step (m : ChannelManager) (m' : ChannelManager) : Type 0 where
  opens : (t : List ℕ) → m.next_id + 1 < 2 ^ 32 → m' ≡ (open_channel m t).1 → Step m m'
  accepts :
      (remote_id : ℕ) (t : List ℕ) (w p : ℕ)
      → m.next_id + 1 < 2 ^ 32
      → w < 2 ^ 32
      → m' ≡ (accept_channel m remote_id t w p).1
      → Step m m'
  confirms :
      (id remote_id w p : ℕ) → w < 2 ^ 32 → confirm_channel m id remote_id w p ≡ ok m' → Step m m'
  receives : (id : ℕ) (bytes : List ℕ) → receive_data m id bytes ≡ ok m' → Step m m'
  consumes : (id amount : ℕ) → consume_remote_window m id amount ≡ ok m' → Step m m'
  adjusts : (id amount : ℕ) → adjust_local_window m id amount ≡ ok m' → Step m m'
  removes : (id : ℕ) → m' ≡ (remove_channel m id).1 → Step m m'
  writes : (id : ℕ) (f : Channel → Channel) → KeepsFiled f → m' ≡ get_mut m id f → Step m m'
  writes_by_remote_id :
      (remote_id : ℕ) (f : Channel → Channel)
      → KeepsFiled f
      → m' ≡ record m { channels = update_by_remote_id remote_id f m.channels }
      → Step m m'

pub data Reach : ChannelManager → Type 0 where
  start : (m : ChannelManager) → m ≡ new → Reach m
  next : (m m' : ChannelManager) → Reach m → Step m m' → Reach m'

Step-IsValid : (m m' : ChannelManager) → Step m m' → IsValid m → IsValid m'
Step-IsValid m m' (opens t room e) v = rw e (open_channel-IsValid m t v room)
Step-IsValid m m' (accepts remote_id t w p room hw e) v =
    rw e (accept_channel-IsValid m remote_id t w p v room hw)
Step-IsValid m m' (confirms id remote_id w p hw e) v =
    confirm_channel-IsValid m id remote_id w p v hw e
Step-IsValid m m' (receives id bytes e) v = receive_data-IsValid m id bytes v e
Step-IsValid m m' (consumes id amount e) v = consume_remote_window-IsValid m id amount v e
Step-IsValid m m' (adjusts id amount e) v = adjust_local_window-IsValid m id amount v e
Step-IsValid m m' (removes id e) v = rw e (remove_channel-IsValid m id v)
Step-IsValid m m' (writes id f k e) v = rw e (get_mut-IsValid m id f k v)
Step-IsValid m m' (writes_by_remote_id remote_id f k e) v =
    rw e (find_by_remote_id_mut-IsValid m remote_id f k v)

-- After any sequence of operations from the new manager, while ids have not run out, and as long as
-- what is written through a mutable reference leaves a channel's own id and keeps its windows u32,
-- every channel is filed under its own id, that id has been given out, and its windows are u32.
pub Reach-IsValid : (m : ChannelManager) → Reach m → IsValid m
Reach-IsValid m (start _ e) = rw e new-IsValid
Reach-IsValid m (next m0 _ r st) = Step-IsValid m0 m st (Reach-IsValid m0 r)

-- In a valid table the id that `open_channel` returns is not in use before, is the id of the new
-- channel after, and every other channel is as it was.
pub open_channel_fresh :
    (m : ChannelManager) (t : List ℕ) (j : ℕ)
    → IsValid m
    → j ≢ (open_channel m t).0
    → (get_channel m (open_channel m t).0 ≡ none)
      × ((ch : Channel) × (get_channel (open_channel m t).1 (open_channel m t).0 ≡ some ch)
          × (ch.local_id ≡ (open_channel m t).0))
      × (get_channel (open_channel m t).1 j ≡ get_channel m j)
unfolding open_channel get_channel
open_channel_fresh m t j v h = (
  unused,
  (new_channel m.next_id t, get-insert_self m.next_id _ m.channels, refl),
  get-insert_ne m.next_id j _ m.channels h,
)
  where
    unused : get m.next_id m.channels ≡ none
    unused = elim (Option-cases (get m.next_id m.channels)) [
      | inl e ↦ e
      | inr (ch, e) ↦ absurd (omega (arith, (v.at m.next_id ch e).given))
    ]
