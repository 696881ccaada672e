-- ===== src/Connection/Examples.antt =====
-- The channel theorems at small inputs.
use swift_ssh.Prelude.{◌≡◌, refl, some, none, [], ◌∷◌, ◌++◌, ascii, arith}
use swift_ssh.Error.{ok}
use swift_ssh.HashMap.{get, insert, nat_key}
use swift_ssh.Packet.Utf8.{is_utf8}
use swift_ssh.Connection.Channel.{
  Channel, ChannelManager, new_channel, new, open_channel, get_channel,
}
use swift_ssh.Connection.Channel.Invariant.{IsValid, new-IsValid}
use swift_ssh.Connection.Channel.Runs.{Reach, start, next, opens, Reach-IsValid, open_channel_fresh}
use swift_ssh.Connection.Channel.Flow.{receive_all, flatten, IsReceived, receive_all_fits}
use swift_ssh.Connection.Messages.{build_channel_open, parse_open}
use swift_ssh.Connection.Messages.RoundTrip.{parse_open-build_channel_open}

-- A manager with one channel, opened and then removed again in the second.
abbrev one_channel : ChannelManager
one_channel = record { channels = (0, new_channel 0 (ascii "session")) ∷ []; next_id = 1 }

one_channel_opened : one_channel ≡ (open_channel new (ascii "session")).1
unfolding open_channel new insert new_channel
one_channel_opened = refl

one_channel-Reach : Reach one_channel
unfolding new
one_channel-Reach =
    next new one_channel (start new refl) (opens (ascii "session") (omega arith) one_channel_opened)

one_channel_found : get_channel one_channel 0 ≡ some (new_channel 0 (ascii "session"))
unfolding get_channel get
one_channel_found = refl

Reach-IsValid_example : IsValid one_channel
Reach-IsValid_example = Reach-IsValid one_channel one_channel-Reach

open_channel_fresh_example :
    (get_channel new (open_channel new (ascii "session")).0 ≡ none)
    × ((ch : Channel) × (get_channel
            (open_channel new (ascii "session")).1
            (open_channel new (ascii "session")).0
          ≡ some ch)
        × (ch.local_id ≡ (open_channel new (ascii "session")).0))
    × (get_channel (open_channel new (ascii "session")).1 5 ≡ get_channel new 5)
unfolding open_channel new
open_channel_fresh_example = open_channel_fresh new (ascii "session") 5 new-IsValid (omega arith)

receive_all_fits_example :
    (m' : ChannelManager) × (receive_all one_channel 0 (ascii "ab" ∷ ascii "c" ∷ []) ≡ ok m')
    × IsReceived one_channel m' 0 5 (new_channel 0 (ascii "session")) (ascii "ab" ∷ ascii "c" ∷ [])
unfolding new_channel
receive_all_fits_example =
    receive_all_fits one_channel 0 5 (new_channel 0 (ascii "session")) (ascii "ab" ∷ ascii "c" ∷ [])
      one_channel_found (omega arith) (unfold flatten in omega arith) (omega arith)

-- a channel with room for one byte
abbrev narrow : Channel
narrow = record (new_channel 0 (ascii "session")) { local_window = 1 }

narrow_manager : ChannelManager
narrow_manager = record { channels = (0, narrow) ∷ []; next_id = 1 }

parse_open-build_channel_open_example :
    parse_open ((build_channel_open (ascii "session") 3 2_097_152 32768).payload ++ [])
    ≡ ok (record {
      channel_type = ascii "session";
      sender_channel = 3;
      initial_window = 2_097_152;
      max_packet = 32768;
    })
unfolding is_utf8
parse_open-build_channel_open_example =
    parse_open-build_channel_open (ascii "session") 3 2_097_152 32768 [] refl (omega arith)
      (omega arith) (omega arith) (omega arith)
