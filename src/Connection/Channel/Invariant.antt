-- ===== src/Connection/Channel/Invariant.antt =====
-- The table of channels: ids, windows, and which entries an operation touches.
use swift_ssh.Prelude.{
  ℕ, ◌+◌, ◌%◌, ◌^◌, ◌<◌, ◌≡◌, refl, sym, ◌∙◌, ◌⊎◌, inl, inr, Bool-cases, Option-cases, some,
  some-injective, List, ◌∷◌, [], ◌==◌, ==_iff, arith,
}
use swift_ssh.Error.{SshResult, ok, ok_or, >>=-eq-ok}
use swift_ssh.HashMap.{HashMap, nat_key, get, insert, get-insert, get-remove}
use swift_ssh.Connection.Channel.{
  Channel, ChannelManager, new, open_channel, with_channel, confirm_channel, accept_channel,
  remove_channel, receive_data, consume_remote_window, adjust_local_window, confirm, receive,
  consume, adjust, get_mut, update_by_remote_id,
}

-- A channel is filed under its own id, which has been given out, and its numbers are u32.
pub record IsFiled (next_id id : ℕ) (ch : Channel) : Type 0 where
  pub filed : ch.local_id ≡ id
  pub given : id < next_id
  pub local : ch.local_window < 2 ^ 32
  pub remote : ch.remote_window < 2 ^ 32

pub record IsValid (m : ChannelManager) : Type 0 where
  pub ids : m.next_id < 2 ^ 32
  pub at : (id : ℕ) (ch : Channel) → get id m.channels ≡ some ch → IsFiled m.next_id id ch

-- An entry that is written keeps the table valid.
insert-IsValid :
    (m : ChannelManager) (id : ℕ) (ch : Channel)
    → IsValid m
    → IsFiled m.next_id id ch
    → IsValid (record m { channels = insert id ch m.channels })
insert-IsValid m id ch v f = record {
  ids = v.ids;
  at = λ j c h. ground (arith, get-insert id j ch m.channels, ==_iff j id, v.at j c);
}

-- Every operation that changes one channel writes back a channel, or fails.
pub with_channel-eq-ok :
    (m : ChannelManager) (id : ℕ) (f : Channel → SshResult Channel) {m' : ChannelManager}
    → with_channel m id f ≡ ok m'
    → (ch : Channel) × (ch' : Channel) × (get id m.channels ≡ some ch)
      × (f ch ≡ ok ch')
      × (m' ≡ record m { channels = insert id ch' m.channels })
unfolding with_channel
with_channel-eq-ok m id f h =
    let (ch, e1, h1) = >>=-eq-ok (ok_or (get id m.channels) _) _ h in
    let (ch', e2, h2) = >>=-eq-ok (f ch) _ h1 in (ch, ch', ground arith, e2, ground arith)

with_channel-IsValid :
    (m : ChannelManager) (id : ℕ) (f : Channel → SshResult Channel) {m' : ChannelManager}
    → ((ch ch' : Channel) → f ch ≡ ok ch' → IsFiled m.next_id id ch → IsFiled m.next_id id ch')
    → IsValid m
    → with_channel m id f ≡ ok m'
    → IsValid m'
with_channel-IsValid m id f keeps v h =
    let (ch, ch', found, written, e) = with_channel-eq-ok m id f h in
    rw e (insert-IsValid m id ch' v (keeps ch ch' written (v.at id ch found)))

pub new-IsValid : IsValid new
unfolding new get
new-IsValid = record { ids = omega arith; at = λ id ch h. cc }

-- A new channel under the next id, while ids have not run out.
add-IsValid :
    (m : ChannelManager) (ch : Channel)
    → IsValid m
    → m.next_id + 1 < 2 ^ 32
    → ch.local_id ≡ m.next_id
    → ch.local_window < 2 ^ 32
    → ch.remote_window < 2 ^ 32
    → IsValid
        (record m { channels = insert m.next_id ch m.channels; next_id = (m.next_id + 1) % 2 ^ 32 })
add-IsValid m ch v room hi hl hr = record {
  ids = omega arith;
  at = λ j c h. ground (arith, get-insert m.next_id j ch m.channels, ==_iff j m.next_id, v.at j c);
}

pub open_channel-IsValid :
    (m : ChannelManager) (t : List ℕ)
    → IsValid m
    → m.next_id + 1 < 2 ^ 32
    → IsValid (open_channel m t).1
unfolding open_channel
open_channel-IsValid m t v room = add-IsValid m _ v room refl (omega arith) (omega arith)

pub accept_channel-IsValid :
    (m : ChannelManager) (remote_id : ℕ) (t : List ℕ) (w p : ℕ)
    → IsValid m
    → m.next_id + 1 < 2 ^ 32
    → w < 2 ^ 32
    → IsValid (accept_channel m remote_id t w p).1
unfolding accept_channel
accept_channel-IsValid m remote_id t w p v room hw = add-IsValid m _ v room refl (omega arith) hw

pub confirm_channel-IsValid :
    (m : ChannelManager) (id remote_id w p : ℕ) {m' : ChannelManager}
    → IsValid m
    → w < 2 ^ 32
    → confirm_channel m id remote_id w p ≡ ok m'
    → IsValid m'
unfolding confirm_channel
confirm_channel-IsValid m id remote_id w p v hw h =
    with_channel-IsValid m id (confirm remote_id w p) (λ ch ch' e f. ground arith) v h

pub receive_data-IsValid :
    (m : ChannelManager) (id : ℕ) (bytes : List ℕ) {m' : ChannelManager}
    → IsValid m
    → receive_data m id bytes ≡ ok m'
    → IsValid m'
unfolding receive_data
receive_data-IsValid m id bytes v h =
    with_channel-IsValid m id (receive bytes) (λ ch ch' e f. ground arith) v h

pub consume_remote_window-IsValid :
    (m : ChannelManager) (id amount : ℕ) {m' : ChannelManager}
    → IsValid m
    → consume_remote_window m id amount ≡ ok m'
    → IsValid m'
unfolding consume_remote_window
consume_remote_window-IsValid m id amount v h =
    with_channel-IsValid m id (consume amount) (λ ch ch' e f. ground arith) v h

pub adjust_local_window-IsValid :
    (m : ChannelManager) (id amount : ℕ) {m' : ChannelManager}
    → IsValid m
    → adjust_local_window m id amount ≡ ok m'
    → IsValid m'
unfolding adjust_local_window
adjust_local_window-IsValid m id amount v h =
    with_channel-IsValid m id (adjust amount) (λ ch ch' e f. ground arith) v h

pub remove_channel-IsValid :
    (m : ChannelManager) (id : ℕ) → IsValid m → IsValid (remove_channel m id).1
unfolding remove_channel
remove_channel-IsValid m id v = record {
  ids = v.ids;
  at = λ j c h. ground (arith, get-remove id j m.channels, ==_iff j id, v.at j c);
}

-- What is found after a change was there before, and is the same or has been changed.
pub get-update :
    (recipient : ℕ) (f : Channel → Channel) (m : HashMap ℕ Channel) (id : ℕ) (ch : Channel)
    → get id (update_by_remote_id recipient f m) ≡ some ch
    → (old : Channel) × (get id m ≡ some old) × ((ch ≡ old) ⊎ (ch ≡ f old))
unfolding get update_by_remote_id
get-update recipient f [] id ch e = cc
get-update recipient f ((k, c) ∷ m) id ch e = elim (Bool-cases (c.remote_id == recipient)) [
  | inl r ↦ elim (Bool-cases (id == k)) [
    | inl s ↦ rw s (c, refl, inr (sym (some-injective (rw (r, s) at e))))
    | inr s ↦ rw s (ch, rw (r, s) at e, inl refl)
  ]
  | inr r ↦ elim (Bool-cases (id == k)) [
    | inl s ↦ rw s (c, refl, inl (sym (some-injective (rw (r, s) at e))))
    | inr s ↦ rw s (get-update recipient f m id ch (rw (r, s) at e))
  ]
]

-- What may be written through a mutable reference to a channel.
pub record KeepsFiled (f : Channel → Channel) : Type 0 where
  pub same_id : (ch : Channel) → (f ch).local_id ≡ ch.local_id
  pub local : (ch : Channel) → ch.local_window < 2 ^ 32 → (f ch).local_window < 2 ^ 32
  pub remote : (ch : Channel) → ch.remote_window < 2 ^ 32 → (f ch).remote_window < 2 ^ 32

KeepsFiled-IsFiled :
    (f : Channel → Channel) (n id : ℕ) (ch : Channel)
    → KeepsFiled f
    → IsFiled n id ch
    → IsFiled n id (f ch)
KeepsFiled-IsFiled f n id ch k v = record {
  filed = k.same_id ch ∙ v.filed;
  given = v.given;
  local = k.local ch v.local;
  remote = k.remote ch v.remote;
}

pub find_by_remote_id_mut-IsValid :
    (m : ChannelManager) (remote_id : ℕ) (f : Channel → Channel)
    → KeepsFiled f
    → IsValid m
    → IsValid (record m { channels = update_by_remote_id remote_id f m.channels })
find_by_remote_id_mut-IsValid m remote_id f k v = record {
  ids = v.ids;
  at = λ j c h.
      let (old, was, either) = get-update remote_id f m.channels j c h in
      elim either [
        | inl e ↦ rw e (v.at j old was)
        | inr e ↦ rw e (KeepsFiled-IsFiled f m.next_id j old k (v.at j old was))
      ];
}

pub get_mut-IsValid :
    (m : ChannelManager) (id : ℕ) (f : Channel → Channel)
    → KeepsFiled f
    → IsValid m
    → IsValid (get_mut m id f)
unfolding get_mut
get_mut-IsValid m id f k v = elim (Option-cases (get id m.channels)) [
  | inl e ↦ rw e v
  | inr (ch, e) ↦
      rw e (insert-IsValid m id (f ch) v (KeepsFiled-IsFiled f m.next_id id ch k (v.at id ch e)))
]
