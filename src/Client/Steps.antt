-- ===== src/Client/Steps.antt =====
-- The handshake before encryption: what each side does with the packets of the other.
use swift_ssh.Prelude.{
  ℕ, ◌+◌, ◌%◌, ◌^◌, ◌≤◌, ◌≡◌, refl, List, [], ◌++◌, length, length-append, true, arith, ◌==◌,
  ==_iff,
}
use swift_ssh.Error.{IoError, ok, Message, msg}
use swift_ssh.Packet.Types.{MessageType, as_u8, kex_init, kex_ecdh_init, ssh_version_string}
use swift_ssh.Packet.Utf8.{is_utf8}
use swift_ssh.Packet.Buf.{
  write_string, write_utf8, write_bool, write_u32, to_be_bytes, join, write_name_list,
}
use swift_ssh.Packet.Buf.Laws.{write_laws}
use swift_ssh.Packet.Buf.Names.{write_name_list_lem}
use swift_ssh.Packet.Codec.{new}
use swift_ssh.Packet.Codec.Shape.{framed}
use swift_ssh.Crypto.{Crates}
use swift_ssh.Crypto.Laws.{IsMac}
use swift_ssh.Session.{new as new_session}
use swift_ssh.Transport.Stream.{write_all, flush}
use swift_ssh.Transport.Io.Receive.{reader}
use swift_ssh.Transport.Io.Cut.{IsFill}
use swift_ssh.Transport.Io.Plain.{plain_keys, writer, Room, send_plain, recv_plain}
use swift_ssh.Transport.Version.{crlf, send_version_string, recv_version_string, starts_with}
use swift_ssh.Transport.Version.Lines.{recv_version_string_lem}
use swift_ssh.Transport.Kex.{build_kexinit_payload}
use swift_ssh.Server.{expect_packet, receive_hello}

-- The version line that both programs send.
unfoldable pub version_line : List ℕ
version_line = ssh_version_string ++ crlf

pub send_version_line :
    send_version_string (writer []) ssh_version_string ≡ ok (writer version_line)
unfolding send_version_string write_all flush version_line
send_version_line = refl

pub recv_version_line :
    (rest : List ℕ) (e : IoError)
    → recv_version_string (reader (version_line ++ rest) e) ≡ ok (ssh_version_string, reader rest e)
unfolding version_line starts_with is_utf8
recv_version_line rest e =
    recv_version_string_lem e ssh_version_string rest (omega arith) (omega arith) refl refl

-- What follows the cookie in a KEXINIT.
unfoldable offered : List ℕ
unfolding build_kexinit_payload
offered = build_kexinit_payload (λ n. [])

build_kexinit_payload_lem : (fill : ℕ → List ℕ) → build_kexinit_payload fill ≡ fill 16 ++ offered
unfolding build_kexinit_payload offered
build_kexinit_payload_lem fill = simp (write_laws, write_name_list_lem)

length-offered : length offered ≤ 1000
unfolding offered write_name_list join write_utf8 write_string write_bool write_u32 to_be_bytes
length-offered = omega arith

pub build_kexinit_payload-Room :
    (fill : ℕ → List ℕ) → length (fill 16) ≡ 16 → Room (new kex_init (build_kexinit_payload fill))
unfolding new
build_kexinit_payload-Room fill h =
    rw (build_kexinit_payload_lem fill)
      (omega (arith, h, length-append (fill 16) offered, length-offered))

pub new_session_lem : {C : Type 0} → new_session {C = C} ≡ plain_keys 0 0
unfolding new_session
new_session_lem = refl

module _ (crates : Crates) (mac : IsMac crates) where
  open crates use {Cipher, Secret}

  pub expect_plain :
      (kind : MessageType) (text : Message) (payload : List ℕ) (fill : ℕ → List ℕ) (rest : List ℕ)
      (e : IoError) (a b : ℕ)
      → IsFill fill
      → Room (new kind payload)
      → expect_packet crates kind text
          (reader (framed fill 8 (new kind payload) ++ rest) e)
          (plain_keys a b)
        ≡ ok (new kind payload, reader rest e, plain_keys a ((b + 1) % 2 ^ 32))
  unfolding expect_packet
  expect_plain kind text payload fill rest e a b hf h =
      rw (recv_plain crates mac fill (new kind payload) rest e a b hf h, same) refl
    where
      same : ((new kind payload).msg_type == as_u8 kind) ≡ true
      same = unfold new in (==_iff _ _).1 refl

  pub receive_hello_lem :
      (random : ℕ → ℕ → List ℕ) (f1 f2 : ℕ → List ℕ) (kexinit ecdh rest : List ℕ) (e : IoError)
      → IsFill f1
      → IsFill f2
      → length (random 0 16) ≡ 16
      → Room (new kex_init kexinit)
      → Room (new kex_ecdh_init ecdh)
      → receive_hello crates random
          (reader
            (version_line
              ++ (framed f1 8 (new kex_init kexinit)
                  ++ (framed f2 8 (new kex_ecdh_init ecdh) ++ rest)))
            e)
          (writer [])
        ≡ ok (record {
          client_version = ssh_version_string;
          client_kexinit = (new kex_init kexinit).payload;
          ecdh_init = (new kex_ecdh_init ecdh).payload;
          link = record {
            reader = reader rest e;
            writer = writer (
                version_line
                ++ framed (random 1) 8 (new kex_init (build_kexinit_payload (random 0))));
            keys = plain_keys 1 2;
          };
        })
  unfolding receive_hello
  receive_hello_lem random f1 f2 kexinit ecdh rest e h1 h2 h h3 h4 =
      rw
        (
          send_version_line,
          recv_version_line _ e,
          new_session_lem,
          send_plain crates (random 1) version_line
              (new kex_init (build_kexinit_payload (random 0))) 0 0
              (build_kexinit_payload-Room (random 0) h),
          expect_plain kex_init (msg "Expected KEXINIT") kexinit f1 _ e 1 0 h1 h3,
          expect_plain kex_ecdh_init (msg "Expected KEX_ECDH_INIT") ecdh f2 rest e 1 1 h2 h4,
        )
        refl
