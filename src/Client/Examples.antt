-- ===== src/Client/Examples.antt =====
-- The joint handshake and a whole run with a command at concrete draws.
use swift_ssh.Session.{SessionKeys}
use swift_ssh.Error.{unexpected_eof, connection_closed, ok, err}
use swift_ssh.Server.Loop.{Conn}
use swift_ssh.Server.Loop.Run.{channel_loop, round, on_packet}
use swift_ssh.Transport.Stream.{read_or, closed_or_io, take_exact}
use swift_ssh.Transport.Io.{recv_packet}
use swift_ssh.Transport.Io.Receive.{reader}
use swift_ssh.Prelude.{
  some, ℕ, zero, suc, ◌≡◌, ◌∙◌, ◌++◌, ◌⊎◌, inl, inr, refl, true, List, [], AreBytes, ascii, arith,
}
use swift_ssh.Packet.Examples.{zeros, length-zeros}
use swift_ssh.Crypto.Examples.{toy, toy_stream, toy_mac, toy_hash, toy_agreement}
use swift_ssh.HashMap.{bytes_key, get, insert}
use swift_ssh.Packet.Types.{as_u8}
use swift_ssh.Packet.Utf8.{is_utf8}
use swift_ssh.Packet.Buf.{write_bool, write_string, write_utf8, to_be_bytes}
use swift_ssh.Packet.Codec.{new}
use swift_ssh.Auth.{
  UserDatabase, new_database, add_password_user, verify_password, build_password_auth_request,
}
use swift_ssh.Auth.Requests.{IsText}
use swift_ssh.Transport.Io.Cut.{IsPacket, IsFill, block_size_cases}
use swift_ssh.Transport.Io.Plain.{Room, writer}
use swift_ssh.Client.Joint.{Connected, handshake-client_handshake}
use swift_ssh.Client.Session.Login.{request_of, link}
use swift_ssh.Client.Admitted.{Admitted, connection-Admitted, ClientDraws, IsDraws}
use swift_ssh.Client.Ran.{Ran, run_client-Ran}
use swift_ssh.Connection.Messages.{build_exec_request, build_channel_data}
use swift_ssh.Packet.Buf.{write_u32}
use swift_ssh.Packet.Utf8.{to_string_lossy}
use swift_ssh.Sftp.FileSystem.Toy.{Tree, toy_files}
use swift_ssh.Server.Commands.{
  Output, streams, execute_command, run_parts, split_whitespace, output_text,
}
use swift_ssh.Server.Connection.{
  fresh, handle_connection, handle_connection_guarded, Closed, Entered, Draws,
}

zeros-AreBytes : (n : ℕ) → AreBytes (zeros n)
zeros-AreBytes zero = tt
zeros-AreBytes (suc n) = (omega arith, zeros-AreBytes n)

abbrev draws : ℕ → ℕ → List ℕ
draws n = zeros

draws-IsFill : (n : ℕ) → IsFill (draws n)
draws-IsFill n = record { fills = length-zeros; bytes = zeros-AreBytes }

handshake-client_handshake_example : Connected toy draws draws 7 9
handshake-client_handshake_example =
    handshake-client_handshake toy toy_mac toy_hash toy_agreement draws draws 7 9 draws-IsFill
      draws-IsFill

abbrev users : UserDatabase
users = add_password_user new_database (ascii "alice") (ascii "secret")

alice-IsText : IsText (ascii "alice")
unfolding is_utf8
alice-IsText = record { text = refl; fits = omega arith }

secret-IsText : IsText (ascii "secret")
unfolding is_utf8
secret-IsText = record { text = refl; fits = omega arith }

request-IsPacket : IsPacket (request_of (ascii "alice") (ascii "secret"))
unfolding build_password_auth_request new as_u8 write_bool write_utf8 write_string to_be_bytes
request-IsPacket = record { number = omega arith; bytes = omega arith }

request-Room : Room (request_of (ascii "alice") (ascii "secret"))
unfolding build_password_auth_request new write_bool write_utf8 write_string to_be_bytes
request-Room = omega arith

secret-verify_password : verify_password users (ascii "alice") (ascii "secret") ≡ true
unfolding verify_password add_password_user new_database get insert
secret-verify_password = refl

-- A command that prints two letters.
abbrev prints : Tree → List ℕ → List (List ℕ) → Output × Tree
prints t program args = (streams (ascii "hi") [], t)

abbrev server_draws : Draws
server_draws = record {
  of_handshake = draws;
  of_service = zeros;
  of_login = draws;
  of_loop = λ a b. zeros;
}

abbrev client_draws : ClientDraws
client_draws = record { of_handshake = draws; of_session = draws }

all-IsDraws : IsDraws server_draws client_draws
all-IsDraws = record {
  handshake_s = draws-IsFill;
  handshake_c = draws-IsFill;
  service = draws-IsFill 0;
  login = draws-IsFill;
  loop = λ n. draws-IsFill;
  session = draws-IsFill;
}

-- the command, and what it prints
abbrev line : List ℕ
line = ascii "ls"

line-IsText : IsText line
unfolding is_utf8
line-IsText = record { text = refl; fits = omega arith }

line-IsPacket : IsPacket (build_exec_request 0 line true)
unfolding build_exec_request new as_u8 write_bool write_u32 write_utf8 write_string to_be_bytes
line-IsPacket = record { number = omega arith; bytes = omega arith }

line-Room : Room (build_exec_request 0 line true)
unfolding build_exec_request new write_bool write_u32 write_utf8 write_string to_be_bytes
line-Room = omega arith

printed : (execute_command prints [] line).0 ≡ ascii "hi"
unfolding execute_command run_parts split_whitespace output_text to_string_lossy
printed = refl

run_client-Ran_example :
    Ran toy toy_files prints 4 server_draws client_draws draws users
      (ascii "alice")
      (ascii "secret")
      line
      7
      9
      []
run_client-Ran_example =
    run_client-Ran toy toy_files prints toy_stream toy_mac toy_hash toy_agreement 4 server_draws
      client_draws draws users (ascii "alice") (ascii "secret") line 7 9 [] all-IsDraws draws-IsFill
      alice-IsText secret-IsText request-IsPacket request-Room secret-verify_password line-IsText
      line-IsPacket line-Room (rw printed (omega arith)) (rw printed hi-IsPacket)
      (rw printed hi-Room)
  where
    hi-IsPacket : IsPacket (build_channel_data 0 (ascii "hi"))
    hi-IsPacket =
        unfold build_channel_data new as_u8 write_u32 write_string to_be_bytes in
        record { number = omega arith; bytes = omega arith }

    hi-Room : Room (build_channel_data 0 (ascii "hi"))
    hi-Room = unfold build_channel_data new write_u32 write_string to_be_bytes in omega arith

-- A connection that the client leaves behind the login.
abbrev admitted :
    Admitted toy toy_files prints 4 server_draws client_draws users
      (ascii "alice")
      (ascii "secret")
      7
      9
admitted =
    connection-Admitted toy toy_files prints toy_stream toy_mac toy_hash toy_agreement 4
      server_draws client_draws users (ascii "alice") (ascii "secret") 7 9 all-IsDraws alice-IsText
      secret-IsText request-IsPacket request-Room secret-verify_password

closed_at_end :
    (k : SessionKeys ℕ) → recv_packet toy (reader [] unexpected_eof) k ≡ err connection_closed
unfolding recv_packet read_or closed_or_io take_exact
closed_at_end k = elim (block_size_cases k) [ inl e ↦ rw e refl | inr e ↦ rw e refl ]

abbrev left : Conn ℕ
left = fresh toy toy_files prints [] (link toy [] unexpected_eof admitted.wire_s admitted.server)

leaves :
    handle_connection toy toy_files prints 5 server_draws users [] 7
      (reader (admitted.wire_c ++ []) unexpected_eof)
      (writer [])
      []
    ≡ some (ok left, [])
leaves = admitted.serves [] [] [] unexpected_eof ∙ looped
  where
    looped : channel_loop toy toy_files prints 5 server_draws.of_loop left [] ≡ some (ok left, [])
    looped = unfold channel_loop round on_packet in rw (closed_at_end admitted.server) refl

handle_connection_guarded_example :
    Closed toy toy_files prints [] (ok left, [])
    ⊎ Entered toy toy_files prints 5 server_draws users [] 7
        (reader (admitted.wire_c ++ []) unexpected_eof)
        (writer [])
        []
        (ok left, [])
handle_connection_guarded_example =
    handle_connection_guarded toy toy_files prints 5 server_draws users [] 7
      (reader (admitted.wire_c ++ []) unexpected_eof) (writer []) [] (ok left, []) leaves
