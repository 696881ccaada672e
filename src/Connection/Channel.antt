-- ===== src/Connection/Channel.antt =====
-- `Channel` and `ChannelManager` of src/connection/mod.rs. A u32 is a number below 2 ^ 32.
pub mod Invariant
pub mod Flow
pub mod Runs
use swift_ssh.Prelude.{
  ℕ, ◌+◌, ◌-◌, ◌%◌, ◌^◌, min, Bool, false, not, Option, none, some, List, [], ◌∷◌, ◌++◌, length,
  ltb, ◌==◌, if◌then◌else◌,
}
use swift_ssh.Error.{SshResult, ok, err, channel, msg, msg_num, ok_or, ◌>>=◌}
use swift_ssh.HashMap.{HashMap, nat_key, get, insert, remove, find_value, count_values}
use swift_ssh.Packet.Types.{default_window_size, default_max_packet_size}

pub record Channel : Type 0 where
  pub local_id : ℕ
  pub remote_id : ℕ
  pub channel_type : List ℕ
  pub local_window : ℕ
  pub remote_window : ℕ
  pub local_max_packet : ℕ
  pub remote_max_packet : ℕ
  pub eof_sent : Bool
  pub eof_received : Bool
  pub closed : Bool
  pub recv_buffer : List ℕ

-- `Channel::new`
unfoldable pub new_channel : ℕ → List ℕ → Channel
new_channel local_id channel_type = record {
  local_id = local_id;
  remote_id = 0;
  channel_type = channel_type;
  local_window = default_window_size;
  remote_window = 0;
  local_max_packet = default_max_packet_size;
  remote_max_packet = 0;
  eof_sent = false;
  eof_received = false;
  closed = false;
  recv_buffer = [];
}

pub record ChannelManager : Type 0 where
  pub channels : HashMap ℕ Channel
  pub next_id : ℕ

-- `ChannelManager::new`
unfoldable pub new : ChannelManager
new = record { channels = []; next_id = 0 }

-- `self.next_id += 1` wraps around in a release build.
unfoldable pub open_channel : ChannelManager → List ℕ → ℕ × ChannelManager
unfolding new_channel
open_channel m channel_type =
    let id = m.next_id in
    (
      id,
      record {
        channels = insert id (new_channel id channel_type) m.channels;
        next_id = (m.next_id + 1) % 2 ^ 32;
      },
    )

-- `get_mut(..).ok_or_else(..)?`, and what is written through the reference
unfoldable pub with_channel :
    ChannelManager → ℕ → (Channel → SshResult Channel) → SshResult ChannelManager
with_channel m local_id f = do
  ch ← ok_or (get local_id m.channels) (channel (msg_num "Unknown channel {}" local_id))
  ch' ← f ch
  ok (record m { channels = insert local_id ch' m.channels })

-- what `confirm_channel` writes
unfoldable pub confirm : ℕ → ℕ → ℕ → Channel → SshResult Channel
confirm remote_id remote_window remote_max_packet ch = ok (record ch {
  remote_id = remote_id;
  remote_window = remote_window;
  remote_max_packet = remote_max_packet;
})

unfoldable pub confirm_channel : ChannelManager → ℕ → ℕ → ℕ → ℕ → SshResult ChannelManager
unfolding with_channel confirm
confirm_channel m local_id remote_id remote_window remote_max_packet =
    with_channel m local_id (confirm remote_id remote_window remote_max_packet)

unfoldable pub accept_channel : ChannelManager → ℕ → List ℕ → ℕ → ℕ → ℕ × ChannelManager
unfolding new_channel
accept_channel m remote_id channel_type remote_window remote_max_packet =
    let local_id = m.next_id in
    (
      local_id,
      record {
        channels =
            insert local_id
              (record (new_channel local_id channel_type) {
                remote_id = remote_id;
                remote_window = remote_window;
                remote_max_packet = remote_max_packet;
              })
              m.channels;
        next_id = (m.next_id + 1) % 2 ^ 32;
      },
    )

-- `ChannelManager::get`
unfoldable pub get_channel : ChannelManager → ℕ → Option Channel
get_channel m local_id = get local_id m.channels

-- what is written through the reference, if there is one
abbrev pub written_at : ChannelManager → ℕ → (Channel → Channel) → Option Channel → ChannelManager
written_at m local_id f (some ch) = record m { channels = insert local_id (f ch) m.channels }
written_at m local_id f none = m

-- `ChannelManager::get_mut`, and what `f` writes
unfoldable pub get_mut : ChannelManager → ℕ → (Channel → Channel) → ChannelManager
get_mut m local_id f = written_at m local_id f (get local_id m.channels)

unfoldable pub find_by_remote_id : ChannelManager → ℕ → Option Channel
find_by_remote_id m remote_id = find_value (λ ch. ch.remote_id == remote_id) m.channels

-- `find_by_remote_id_mut`, and what `f` writes through the reference, if there is one
unfoldable pub update_by_remote_id : ℕ → (Channel → Channel) → HashMap ℕ Channel → HashMap ℕ Channel
update_by_remote_id remote_id f [] = []
update_by_remote_id remote_id f ((k, ch) ∷ m) =
    if ch.remote_id == remote_id then (k, f ch) ∷ m else (k, ch) ∷ update_by_remote_id remote_id f m

unfoldable pub remove_channel : ChannelManager → ℕ → Option Channel × ChannelManager
remove_channel m local_id =
    (get local_id m.channels, record m { channels = remove local_id m.channels })

-- what `receive_data` does with the channel
unfoldable pub receive : List ℕ → Channel → SshResult Channel
receive bytes ch =
    if ltb ch.local_window (length bytes % 2 ^ 32)
    then err (channel (msg "Window overflow"))
    else ok (record ch {
      local_window = ch.local_window - length bytes % 2 ^ 32;
      recv_buffer = ch.recv_buffer ++ bytes;
    })

unfoldable pub receive_data : ChannelManager → ℕ → List ℕ → SshResult ChannelManager
unfolding with_channel receive
receive_data m local_id bytes = with_channel m local_id (receive bytes)

-- what `consume_remote_window` does with the channel
unfoldable pub consume : ℕ → Channel → SshResult Channel
consume amount ch =
    if ltb ch.remote_window amount
    then err (channel (msg "Would exceed remote window"))
    else ok (record ch { remote_window = ch.remote_window - amount })

unfoldable pub consume_remote_window : ChannelManager → ℕ → ℕ → SshResult ChannelManager
unfolding with_channel consume
consume_remote_window m local_id amount = with_channel m local_id (consume amount)

-- `a.saturating_add(b)` of two u32
unfoldable pub saturating_add : ℕ → ℕ → ℕ
saturating_add a b = min (a + b) (2 ^ 32 - 1)

-- what `adjust_local_window` does with the channel
unfoldable pub adjust : ℕ → Channel → SshResult Channel
unfolding saturating_add
adjust amount ch = ok (record ch { local_window = saturating_add ch.local_window amount })

unfoldable pub adjust_local_window : ChannelManager → ℕ → ℕ → SshResult ChannelManager
unfolding with_channel adjust
adjust_local_window m local_id amount = with_channel m local_id (adjust amount)

unfoldable pub active_count : ChannelManager → ℕ
active_count m = count_values (λ ch. not ch.closed) m.channels
