-- ===== src/Client/Session/Login.antt =====
-- The login of a client of src/bin/client.rs at a server of src/bin/server.rs.
use swift_ssh.Prelude.{ℕ, ◌≡◌, refl, true, List, [], ◌++◌, append-nil, append_assoc, ascii, arith}
use swift_ssh.Error.{IoError, ok, ◌>>=◌}
use swift_ssh.Packet.Types.{as_u8}
use swift_ssh.Packet.Utf8.{is_utf8}
use swift_ssh.Packet.Buf.{read_utf8, write_string, write_utf8, to_be_bytes}
use swift_ssh.Packet.Buf.Laws.{string_bytes, write_utf8_lem, read_utf8-string_bytes}
use swift_ssh.Packet.Codec.{SshPacket, new}
use swift_ssh.Crypto.{Crates}
use swift_ssh.Crypto.Laws.{IsMac, IsStreamCipher}
use swift_ssh.Session.{SessionKeys}
use swift_ssh.Transport.Io.Sync.{Synced}
use swift_ssh.Transport.Io.Cut.{IsPacket, IsFill}
use swift_ssh.Transport.Io.Receive.{reader}
use swift_ssh.Transport.Io.Plain.{Room, writer}
use swift_ssh.Transport.Io.Exchange.{Exchanged, exchange}
use swift_ssh.Auth.{
  UserDatabase, password, verify_password, build_service_request, build_service_accept,
  build_password_auth_request, build_auth_success, parse,
}
use swift_ssh.Auth.Requests.{IsText, parse-build_password_auth_request}
use swift_ssh.Server.{Link, expect_packet, accept_service, admits, auth_reply, attempt}
use swift_ssh.Client.Session.{send_on, ask_service, auth_answer, login}

abbrev userauth : List ℕ
userauth = ascii "ssh-userauth"

-- the request of the login, as the client builds it
abbrev pub request_of : List ℕ → List ℕ → SshPacket
request_of user pass = build_password_auth_request user (ascii "ssh-connection") pass

parsed_request :
    (user pass : List ℕ)
    → IsText user
    → IsText pass
    → parse (request_of user pass).payload
      ≡ ok (record {
        username = user;
        service = ascii "ssh-connection";
        method = ascii "password";
        credential = password pass;
      })
parsed_request user pass hu hp = rw (append-nil (request_of user pass).payload) at (
    parse-build_password_auth_request user (ascii "ssh-connection") pass [] hu
      (record { text = unfold is_utf8 in refl; fits = omega arith }) hp)

request-IsPacket : IsPacket (build_service_request userauth)
unfolding build_service_request new as_u8 write_utf8 write_string to_be_bytes
request-IsPacket = record { number = omega arith; bytes = omega arith }

request-Room : Room (build_service_request userauth)
unfolding build_service_request new write_utf8 write_string to_be_bytes
request-Room = omega arith

accept-IsPacket : IsPacket (build_service_accept userauth)
unfolding build_service_accept new as_u8 write_utf8 write_string to_be_bytes
accept-IsPacket = record { number = omega arith; bytes = omega arith }

accept-Room : Room (build_service_accept userauth)
unfolding build_service_accept new write_utf8 write_string to_be_bytes
accept-Room = omega arith

success-IsPacket : IsPacket build_auth_success
unfolding build_auth_success new as_u8
success-IsPacket = record { number = omega arith; bytes = tt }

success-Room : Room build_auth_success
unfolding build_auth_success new
success-Room = omega arith

module _ (crates : Crates) where
  open crates use {Cipher}

  abbrev pub link : List ℕ → IoError → List ℕ → SessionKeys Cipher → Link Cipher
  link pending e sent keys = record { reader = reader pending e; writer = writer sent; keys = keys }

  module _ (fc fs : ℕ → List ℕ) (sent_c sent_s rest : List ℕ) (e : IoError)
      (kc ks : SessionKeys Cipher) where
    ask_service_lem :
        (x : Exchanged crates fc fs sent_c sent_s
          (build_service_request userauth)
          (build_service_accept userauth)
          kc
          ks)
        → ask_service crates fc (link (x.wire_down ++ rest) e sent_c kc)
          ≡ ok (link rest e (sent_c ++ x.wire_up) x.client)
    unfolding ask_service send_on expect_packet build_service_accept new as_u8
    ask_service_lem x = rw (x.asks, x.learns rest e) refl

    accept_service_lem :
        (x : Exchanged crates fc fs sent_c sent_s
          (build_service_request userauth)
          (build_service_accept userauth)
          kc
          ks)
        → accept_service crates fs (link (x.wire_up ++ rest) e sent_s ks)
          ≡ ok (link rest e (sent_s ++ x.wire_down) x.server)
    unfolding accept_service expect_packet build_service_request new as_u8
    accept_service_lem x = rw (x.hears rest e, named, x.answers) refl
      where
        named : read_utf8 (write_utf8 [] userauth) ≡ ok (userauth, [])
        named =
            rw (write_utf8_lem [] userauth, ← append-nil (string_bytes userauth))
              (read_utf8-string_bytes userauth [] (omega arith) (unfold is_utf8 in refl))

    login_lem :
        (user pass : List ℕ)
        (x : Exchanged crates fc fs sent_c sent_s (request_of user pass) build_auth_success kc ks)
        → login crates fc user pass (link (x.wire_down ++ rest) e sent_c kc)
          ≡ ok (link rest e (sent_c ++ x.wire_up) x.client)
    unfolding login send_on auth_answer build_auth_success new as_u8
    login_lem user pass x = rw (x.asks, x.learns rest e) refl

    attempt_lem :
        (db : UserDatabase) (user pass : List ℕ)
        (x : Exchanged crates fc fs sent_c sent_s (request_of user pass) build_auth_success kc ks)
        → IsText user
        → IsText pass
        → verify_password db user pass ≡ true
        → attempt crates db fs (link (x.wire_up ++ rest) e sent_s ks)
          ≡ ok (true, link rest e (sent_s ++ x.wire_down) x.server)
    unfolding attempt expect_packet admits auth_reply build_password_auth_request new as_u8
    attempt_lem db user pass x hu hp known =
        rw (x.hears rest e, parsed_request user pass hu hp, known, x.answers) refl

  -- A client and a server behind the login: each has read what the other wrote and left what is
  -- behind it, and is in step with the other again.
  pub record LoggedIn (fill_c fill_s fill_c' fill_s' : ℕ → List ℕ) (db : UserDatabase)
      (user pass sent_c sent_s : List ℕ) (kc ks : SessionKeys Cipher) : Type 0 where
    pub wire_c : List ℕ
    pub wire_s : List ℕ
    pub middle : List ℕ → IoError → Link Cipher
    pub client : SessionKeys Cipher
    pub server : SessionKeys Cipher
    pub asks :
        (rest : List ℕ) (e : IoError)
        → (ask_service crates fill_c (link (wire_s ++ rest) e sent_c kc)
            >>= login crates fill_c' user pass)
          ≡ ok (link rest e (sent_c ++ wire_c) client)
    pub accepts :
        (rest : List ℕ) (e : IoError)
        → accept_service crates fill_s (link (wire_c ++ rest) e sent_s ks) ≡ ok (middle rest e)
    pub admits :
        (rest : List ℕ) (e : IoError)
        → attempt crates db fill_s' (middle rest e)
          ≡ ok (true, link rest e (sent_s ++ wire_s) server)
    pub up : Synced client server
    pub down : Synced server client

  -- A client and a server that are in step behind the key exchange, and a password that the server's
  -- user database holds for the user: the client's service request and login, on what the server
  -- writes, succeed, the server's first round of the login, on what the client writes, admits the user,
  -- and both are in step again.
  pub login_admitted :
      (stream : IsStreamCipher crates) (mac : IsMac crates)
      (fill_c fill_s fill_c' fill_s' : ℕ → List ℕ) (db : UserDatabase)
      (user pass sent_c sent_s : List ℕ) (kc ks : SessionKeys Cipher)
      → IsFill fill_c
      → IsFill fill_s
      → IsFill fill_c'
      → IsFill fill_s'
      → IsText user
      → IsText pass
      → IsPacket (request_of user pass)
      → Room (request_of user pass)
      → verify_password db user pass ≡ true
      → Synced kc ks
      → Synced ks kc
      → LoggedIn fill_c fill_s fill_c' fill_s' db user pass sent_c sent_s kc ks
  login_admitted stream mac fill_c fill_s fill_c' fill_s' db user pass sent_c sent_s kc ks fc fs fc'
        fs' hu hp packet room known up down =
      let x =
        exchange crates stream mac fill_c fill_s sent_c sent_s (build_service_request userauth)
          (build_service_accept userauth) kc ks fc fs request-IsPacket request-Room accept-IsPacket
          accept-Room up down in
      let y =
        exchange crates stream mac fill_c' fill_s' (sent_c ++ x.wire_up) (sent_s ++ x.wire_down)
          (request_of user pass) build_auth_success x.client x.server fc' fs' packet room
          success-IsPacket success-Room x.up x.down in
      record {
        wire_c = x.wire_up ++ y.wire_up;
        wire_s = x.wire_down ++ y.wire_down;
        middle = λ rest e. link (y.wire_up ++ rest) e (sent_s ++ x.wire_down) x.server;
        client = y.client;
        server = y.server;
        asks = λ rest e.
            rw
              (
                append_assoc x.wire_down y.wire_down rest,
                ask_service_lem fill_c fill_s sent_c sent_s (y.wire_down ++ rest) e kc ks x,
                ← append_assoc sent_c x.wire_up y.wire_up,
              )
              (login_lem fill_c' fill_s' (sent_c ++ x.wire_up) (sent_s ++ x.wire_down) rest e
                x.client x.server user pass y);
        accepts = λ rest e.
            rw (append_assoc x.wire_up y.wire_up rest)
              (accept_service_lem fill_c fill_s sent_c sent_s (y.wire_up ++ rest) e kc ks x);
        admits = λ rest e. rw (← append_assoc sent_s x.wire_down y.wire_down) (
            attempt_lem fill_c' fill_s' (sent_c ++ x.wire_up) (sent_s ++ x.wire_down) rest e
              x.client x.server db user pass y hu hp known);
        up = y.up;
        down = y.down;
      }
