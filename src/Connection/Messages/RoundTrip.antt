-- ===== src/Connection/Messages/RoundTrip.antt =====
-- Each parser of src/connection/mod.rs on what the builders write.
use swift_ssh.Prelude.{ℕ, ◌≡◌, refl, ◌<◌, ◌^◌, ◌++◌, Bool, List, [], ascii, append-nil, arith}
use swift_ssh.Error.{ok}
use swift_ssh.Packet.Utf8.{IsUtf8, is_utf8}
use swift_ssh.Packet.Buf.{to_be_bytes, read_utf8}
use swift_ssh.Packet.Buf.Laws.{
  string_bytes, bool_bytes, write_laws, Fits, read_u32-to_be_bytes, read_bool-bool_bytes,
  read_string-string_bytes, read_utf8-string_bytes,
}
use swift_ssh.Connection.Messages.{
  build_channel_open, build_channel_data, build_exec_request, build_shell_request, parse_open,
  parse_data, parse_request,
}

abbrev pub IsU32 : ℕ → Type 0
IsU32 v = v < 2 ^ 32

-- `ChannelOpenMsg::parse` reads back what `build_channel_open` wrote, whatever follows.
pub parse_open-build_channel_open :
    (channel_type : List ℕ) (sender initial_window max_packet : ℕ) (rest : List ℕ)
    → IsUtf8 channel_type
    → Fits channel_type
    → IsU32 sender
    → IsU32 initial_window
    → IsU32 max_packet
    → parse_open
        ((build_channel_open channel_type sender initial_window max_packet).payload ++ rest)
      ≡ ok (record {
        channel_type = channel_type;
        sender_channel = sender;
        initial_window = initial_window;
        max_packet = max_packet;
      })
unfolding parse_open build_channel_open
parse_open-build_channel_open channel_type sender initial_window max_packet rest text fits hs hw
      hm =
    simp write_laws (
      rw (
        read_utf8-string_bytes channel_type _ fits text,
        read_u32-to_be_bytes sender _ hs,
        read_u32-to_be_bytes initial_window _ hw,
        read_u32-to_be_bytes max_packet _ hm,
      ))

-- `ChannelDataMsg::parse` reads back what `build_channel_data` wrote.
pub parse_data-build_channel_data :
    (recipient : ℕ) (bytes rest : List ℕ)
    → IsU32 recipient
    → Fits bytes
    → parse_data ((build_channel_data recipient bytes).payload ++ rest)
      ≡ ok (record { recipient_channel = recipient; bytes = bytes })
unfolding parse_data build_channel_data
parse_data-build_channel_data recipient bytes rest hr fits =
    simp write_laws
      (rw (read_u32-to_be_bytes recipient _ hr, read_string-string_bytes bytes rest fits))

-- A channel request: the number, the type, the flag, and then the data of that type.
pub parse_request_lem :
    (recipient : ℕ) (kind : List ℕ) (want_reply : Bool) (more : List ℕ)
    → IsU32 recipient
    → IsUtf8 kind
    → Fits kind
    → parse_request
        (to_be_bytes recipient ++ (string_bytes kind ++ (bool_bytes want_reply ++ more)))
      ≡ ok (record {
        recipient_channel = recipient;
        request_type = kind;
        want_reply = want_reply;
        bytes = more;
      })
unfolding parse_request
parse_request_lem recipient kind want_reply more hr text fits = rw (
  read_u32-to_be_bytes recipient _ hr,
  read_utf8-string_bytes kind _ fits text,
  read_bool-bool_bytes want_reply more,
)

-- An exec request arrives with its channel, its flag, and the command as its data: what
-- `read_utf8` gets from them is the command.
pub parse_request-build_exec_request :
    (recipient : ℕ) (command : List ℕ) (want_reply : Bool)
    → IsU32 recipient
    → IsUtf8 command
    → Fits command
    → (more : List ℕ) × (parse_request (build_exec_request recipient command want_reply).payload
        ≡ ok (record {
          recipient_channel = recipient;
          request_type = ascii "exec";
          want_reply = want_reply;
          bytes = more;
        }))
      × (read_utf8 more ≡ ok (command, []))
unfolding build_exec_request
parse_request-build_exec_request recipient command want_reply hr text fits = (
  string_bytes command,
  simp write_laws (
      parse_request_lem recipient (ascii "exec") want_reply (string_bytes command) hr
        (unfold is_utf8 in refl) (omega arith)),
  rw (← append-nil (string_bytes command)) (read_utf8-string_bytes command [] fits text),
)

-- A shell request arrives with its channel and its flag, and with no data.
pub parse_request-build_shell_request :
    (recipient : ℕ) (want_reply : Bool)
    → IsU32 recipient
    → parse_request (build_shell_request recipient want_reply).payload
      ≡ ok (record {
        recipient_channel = recipient;
        request_type = ascii "shell";
        want_reply = want_reply;
        bytes = [];
      })
unfolding build_shell_request
parse_request-build_shell_request recipient want_reply hr = simp write_laws (
    rw (← append-nil (bool_bytes want_reply)) (
      parse_request_lem recipient (ascii "shell") want_reply [] hr (unfold is_utf8 in refl)
        (omega arith)))
