-- ===== src/Server/Examples.antt =====
-- The server's theorems at small inputs.
use swift_ssh.Prelude.{
  ℕ, suc, ◌≡◌, ◌≢◌, refl, true, none, some, List, [], ◌∷◌, ◌++◌, ascii, length, arith,
}
use swift_ssh.Error.{unexpected_eof, ok}
use swift_ssh.Packet.Codec.Shape.{framed}
use swift_ssh.Packet.Examples.{zeros}
use swift_ssh.Crypto.Examples.{toy, toy_hash}
use swift_ssh.Session.{SessionKeys}
use swift_ssh.Transport.Io.Sync.{Synced}
use swift_ssh.Transport.Io.Receive.{reader}
use swift_ssh.Transport.Kex.{KexResult}
use swift_ssh.Auth.{UserDatabase, build_password_auth_request, build_auth_success}
use swift_ssh.Server.{Link, server_keys, client_keys, authenticate}
use swift_ssh.Server.Keys.{server_keys-client_keys}
use swift_ssh.Server.Login.{LoggedIn, authenticate-eq-ok, authenticate_ends}
use swift_ssh.Packet.Codec.Shape.{padding_of, block, packet_length_of}
use swift_ssh.Packet.Buf.{
  to_be_bytes, write_utf8, write_string, write_bool, join, read_bool, read_exact, read_string,
  read_u32_be, read_u8, read_utf8, write_name_list, write_u32, write_u8,
}
use swift_ssh.Packet.Codec.{padding_len, deserialize, new, serialize}
use swift_ssh.Packet.Types.{as_u8}
use swift_ssh.Packet.Utf8.{is_utf8}
use swift_ssh.Session.{is_encrypted, next_recv_seq, next_send_seq}
use swift_ssh.Auth.{
  build_auth_failure, is_key_authorized, parse, read_credential, read_password, read_public_key,
  read_signature, verify_password,
}
use swift_ssh.Crypto.{apply, compute_hmac, verify_hmac}
use swift_ssh.HashMap.{get}
use swift_ssh.Server.{expect_packet, admits, attempt, auth_reply}
use swift_ssh.Transport.Io.{
  recv_packet, block_size_of, first_u32, decrypt_with, remaining_of, check_mac, encrypt_with,
  packet_mac, read_rest, send_packet, write_mac, write_u32_be,
}
use swift_ssh.Transport.Stream.{read_or, closed_or_io, flush, io_error, take_exact, write_all}
use swift_ssh.Transport.Version.{
  crlf, send_version_string, recv_version_string, read_line, ends_with_crlf, starts_with,
}
use swift_ssh.Transport.Kex.{
  new as new_side, build_kexinit_payload, server_complete, compute_exchange_hash, transcript,
}
use swift_ssh.Packet.Types.{kex_init, kex_ecdh_init, kex_ecdh_reply, new_keys, ssh_version_string}
use swift_ssh.Packet.Buf.{write_mpint, stripped, high_bit_set}
use swift_ssh.Session.{new as new_session}
use swift_ssh.Crypto.{cipher_pair, aes_cipher, derive_key, extend, encode_mpint_for_hash}
use swift_ssh.Server.{
  handshake, receive_hello, agree, switch_keys, session_keys, keys_cs, keys_sc, derived,
  reply_payload,
}
use swift_ssh.Server.Handshake.{Established, handshake-Established}

abbrev pub keys_at : ℕ → ℕ → SessionKeys ℕ
keys_at sent received = record {
  send_seq = sent;
  recv_seq = received;
  session_id = none;
  ciphers = none;
  send_mac_key = none;
  recv_mac_key = none;
}

abbrev result : KexResult
result = record { shared_secret = 1 ∷ 2 ∷ []; exchange_hash = zeros 32 }

server_keys-client_keys_example :
    (ks' : SessionKeys ℕ) × (kc' : SessionKeys ℕ) × (server_keys toy result (keys_at 3 3) ≡ ok ks')
    × (client_keys toy result (keys_at 3 3) ≡ ok kc')
    × Synced ks' kc'
    × Synced kc' ks'
server_keys-client_keys_example =
    server_keys-client_keys toy toy_hash result (keys_at 3 3) (keys_at 3 3) refl refl

abbrev pub users : UserDatabase
users = record { passwords = (ascii "al", ascii "pw") ∷ []; public_keys = [] }

abbrev pub draws : ℕ → ℕ → List ℕ
draws n = zeros

abbrev before : Link ℕ
before = record {
  reader =
      reader (framed zeros 8 (build_password_auth_request (ascii "al") (ascii "s") (ascii "pw")))
        unexpected_eof;
  writer = record { sent = []; up = true };
  keys = keys_at 0 0;
}

abbrev after : Link ℕ
after = record {
  reader = reader [] unexpected_eof;
  writer = record { sent = framed zeros 8 build_auth_success; up = true };
  keys = keys_at 1 1;
}

admitted : authenticate toy users 1 draws before ≡ some (ok after)
unfolding authenticate framed build_password_auth_request build_auth_success padding_of block
    packet_length_of to_be_bytes write_utf8 write_string write_bool join read_bool read_exact
    read_string read_u32_be read_u8 read_utf8 write_name_list write_u32 write_u8 padding_len
    deserialize new serialize as_u8 is_utf8 is_encrypted next_recv_seq next_send_seq
    build_auth_failure is_key_authorized parse read_credential read_password read_public_key
    read_signature verify_password apply compute_hmac verify_hmac get expect_packet admits attempt
    auth_reply recv_packet block_size_of first_u32 decrypt_with remaining_of check_mac encrypt_with
    packet_mac read_rest send_packet write_mac write_u32_be read_or closed_or_io flush io_error
    take_exact write_all
admitted = refl

authenticate-eq-ok_example : LoggedIn toy users before after
authenticate-eq-ok_example = authenticate-eq-ok toy users 1 draws before after admitted

authenticate_ends_example :
    authenticate toy users (suc (length before.reader.pending)) draws before ≢ none
authenticate_ends_example =
    authenticate_ends toy users (suc (length before.reader.pending)) draws before (omega arith)

abbrev client_bytes : List ℕ
client_bytes =
    (ascii "SSH-2.0-x" ++ crlf)
    ++ (framed zeros 8 (new kex_init (1 ∷ 2 ∷ []))
        ++ (framed zeros 8 (new kex_ecdh_init (write_string [] (zeros 32)))
            ++ framed zeros 8 (new new_keys [])))

abbrev server_bytes : List ℕ
server_bytes =
    (ssh_version_string ++ crlf)
    ++ (framed zeros 8 (new kex_init (build_kexinit_payload zeros))
        ++ (framed zeros 8 (new kex_ecdh_reply (reply_payload toy (zeros 32) (zeros 32)))
            ++ framed zeros 8 (new new_keys [])))

abbrev secured : Link ℕ
secured = record {
  reader = reader [] unexpected_eof;
  writer = record { sent = server_bytes; up = true };
  keys = record {
    send_seq = 3;
    recv_seq = 3;
    session_id = some (zeros 32);
    ciphers = some (record { encrypt = 32; decrypt = 32 });
    send_mac_key = some (zeros 32);
    recv_mac_key = some (zeros 32);
  };
}

shaken :
    handshake toy draws 5 (reader client_bytes unexpected_eof) (record { sent = []; up = true })
    ≡ ok secured
unfolding handshake framed padding_of block packet_length_of to_be_bytes write_utf8 write_string
    write_bool join read_exact read_string read_u32_be read_u8 write_name_list write_u32 write_u8
    padding_len deserialize new serialize as_u8 is_utf8 is_encrypted next_recv_seq next_send_seq
    apply compute_hmac verify_hmac expect_packet recv_packet block_size_of first_u32 decrypt_with
    remaining_of check_mac encrypt_with packet_mac read_rest send_packet write_mac write_u32_be
    read_or closed_or_io flush io_error take_exact write_all send_version_string recv_version_string
    read_line ends_with_crlf starts_with new_side build_kexinit_payload server_complete
    compute_exchange_hash transcript write_mpint stripped high_bit_set new_session cipher_pair
    aes_cipher derive_key extend encode_mpint_for_hash receive_hello agree switch_keys session_keys
    keys_cs keys_sc derived reply_payload server_keys
shaken = refl

handshake-Established_example :
    Established toy draws 5
      (reader client_bytes unexpected_eof)
      (record { sent = []; up = true })
      secured
handshake-Established_example =
    handshake-Established toy draws 5 (reader client_bytes unexpected_eof)
      (record { sent = []; up = true }) secured shaken
