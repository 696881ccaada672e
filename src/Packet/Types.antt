-- ===== src/Packet/Types.antt =====
-- src/packet/types.rs: message numbers, disconnect reasons and the protocol's constants.
use swift_ssh.Prelude.{ℕ, Option, none, some, List, ascii, ◌==◌, if◌then◌else◌}

pub data MessageType : Type 0 where
  disconnect ignore unimplemented debug service_request service_accept : MessageType
  kex_init new_keys kex_ecdh_init kex_ecdh_reply : MessageType
  user_auth_request user_auth_failure user_auth_success user_auth_banner : MessageType
  global_request request_success request_failure channel_open : MessageType
  channel_open_confirmation channel_open_failure channel_window_adjust channel_data
        channel_extended_data :
      MessageType
  channel_eof channel_close channel_request channel_success channel_failure : MessageType

-- `msg_type as u8`
unfoldable pub as_u8 : MessageType → ℕ
as_u8 disconnect = 1
as_u8 ignore = 2
as_u8 unimplemented = 3
as_u8 debug = 4
as_u8 service_request = 5
as_u8 service_accept = 6
as_u8 kex_init = 20
as_u8 new_keys = 21
as_u8 kex_ecdh_init = 30
as_u8 kex_ecdh_reply = 31
as_u8 user_auth_request = 50
as_u8 user_auth_failure = 51
as_u8 user_auth_success = 52
as_u8 user_auth_banner = 53
as_u8 global_request = 80
as_u8 request_success = 81
as_u8 request_failure = 82
as_u8 channel_open = 90
as_u8 channel_open_confirmation = 91
as_u8 channel_open_failure = 92
as_u8 channel_window_adjust = 93
as_u8 channel_data = 94
as_u8 channel_extended_data = 95
as_u8 channel_eof = 96
as_u8 channel_close = 97
as_u8 channel_request = 98
as_u8 channel_success = 99
as_u8 channel_failure = 100

unfoldable pub from_u8 : ℕ → Option MessageType
from_u8 val =
    if val == 1
    then some disconnect
    else if val == 2
    then some ignore
    else if val == 3
    then some unimplemented
    else if val == 4
    then some debug
    else if val == 5
    then some service_request
    else if val == 6
    then some service_accept
    else if val == 20
    then some kex_init
    else if val == 21
    then some new_keys
    else if val == 30
    then some kex_ecdh_init
    else if val == 31
    then some kex_ecdh_reply
    else if val == 50
    then some user_auth_request
    else if val == 51
    then some user_auth_failure
    else if val == 52
    then some user_auth_success
    else if val == 53
    then some user_auth_banner
    else if val == 80
    then some global_request
    else if val == 81
    then some request_success
    else if val == 82
    then some request_failure
    else if val == 90
    then some channel_open
    else if val == 91
    then some channel_open_confirmation
    else if val == 92
    then some channel_open_failure
    else if val == 93
    then some channel_window_adjust
    else if val == 94
    then some channel_data
    else if val == 95
    then some channel_extended_data
    else if val == 96
    then some channel_eof
    else if val == 97
    then some channel_close
    else if val == 98
    then some channel_request
    else if val == 99
    then some channel_success
    else if val == 100
    then some channel_failure
    else none

-- The reasons of a disconnect message; no code sends one.
pub data DisconnectReason : Type 0 where
  host_not_allowed protocol_error key_exchange_failed reserved mac_error : DisconnectReason
  compression_error service_not_available protocol_version_not_supported : DisconnectReason
  host_key_not_verifiable connection_lost by_application too_many_connections : DisconnectReason
  auth_cancelled_by_user no_more_auth_methods_available illegal_user_name : DisconnectReason

-- `reason as u32`
unfoldable pub as_u32 : DisconnectReason → ℕ
as_u32 host_not_allowed = 1
as_u32 protocol_error = 2
as_u32 key_exchange_failed = 3
as_u32 reserved = 4
as_u32 mac_error = 5
as_u32 compression_error = 6
as_u32 service_not_available = 7
as_u32 protocol_version_not_supported = 8
as_u32 host_key_not_verifiable = 9
as_u32 connection_lost = 10
as_u32 by_application = 11
as_u32 too_many_connections = 12
as_u32 auth_cancelled_by_user = 13
as_u32 no_more_auth_methods_available = 14
as_u32 illegal_user_name = 15

abbrev pub ssh_version_string : List ℕ
ssh_version_string = ascii "SSH-2.0-SwiftSSH_0.1"

abbrev pub max_packet_size : ℕ
max_packet_size = 35000

abbrev pub min_padding : ℕ
min_padding = 4

abbrev pub max_padding : ℕ
max_padding = 255

abbrev pub aes_block_size : ℕ
aes_block_size = 16

abbrev pub hmac_sha256_size : ℕ
hmac_sha256_size = 32

abbrev pub default_window_size : ℕ
default_window_size = 2_097_152

abbrev pub default_max_packet_size : ℕ
default_max_packet_size = 32768
