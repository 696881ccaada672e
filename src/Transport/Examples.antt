-- ===== src/Transport/Examples.antt =====
-- The transport theorems at small inputs.
use swift_ssh.Prelude.{
  ℕ, zero, suc, ◌+◌, ◌<◌, ◌≡◌, ◌↔◌, refl, none, some, List, [], ◌∷◌, ◌++◌, All, AreBytes, ascii,
  arith,
}
use swift_ssh.Error.{unexpected_eof, ok, panic}
use swift_ssh.Packet.Utf8.{is_utf8}
use swift_ssh.Packet.Buf.Mpint.{be_value, mpint_bytes, length-mpint_bytes}
use swift_ssh.Packet.Buf.Laws.{Fits}
use swift_ssh.Packet.Buf.{write_mpint, stripped}
use swift_ssh.Packet.Examples.{zeros, length-zeros, small_packet}
use swift_ssh.Crypto.Examples.{toy, toy_stream, toy_mac, toy_agreement}
use swift_ssh.Session.{SessionKeys, is_encrypted}
use swift_ssh.Transport.Io.{recv_packet, first_u32, decrypt_with, block_size_of}
use swift_ssh.Transport.Io.Accept.{Authentic, recv_packet-Authentic}
use swift_ssh.Transport.Io.Panic.{recv_packet_panic_iff}
use swift_ssh.Transport.Io.Sync.{Synced}
use swift_ssh.Transport.Io.Cut.{IsFill}
use swift_ssh.Transport.Io.Receive.{reader}
use swift_ssh.Transport.Io.RoundTrip.{Delivered, recv_packet-send_packet}
use swift_ssh.Transport.Version.{crlf, starts_with, recv_version_string}
use swift_ssh.Transport.Version.Lines.{recv_version_string_lem}
use swift_ssh.Transport.Kex.{KexResult, new, transcript, client_complete, server_complete}
use swift_ssh.Transport.Kex.Agreement.{complete_agree, transcript_injective}

zeros-AreBytes : (n : ℕ) → AreBytes (zeros n)
zeros-AreBytes zero = tt
zeros-AreBytes (suc n) = (omega arith, zeros-AreBytes n)

pub zeros-IsFill : IsFill zeros
zeros-IsFill = record { fills = length-zeros; bytes = zeros-AreBytes }

-- Keys with ciphers and MACs, at the end of the sequence numbers.
abbrev pub keys : SessionKeys ℕ
keys = record {
  send_seq = 4_294_967_295;
  recv_seq = 4_294_967_295;
  session_id = some (1 ∷ []);
  ciphers = some (record { encrypt = 5; decrypt = 5 });
  send_mac_key = some (3 ∷ []);
  recv_mac_key = some (3 ∷ []);
}

-- Keys before the key exchange.
abbrev plain : SessionKeys ℕ
plain = record {
  send_seq = 0;
  recv_seq = 0;
  session_id = none;
  ciphers = none;
  send_mac_key = none;
  recv_mac_key = none;
}

pub keys-Synced : Synced keys keys
keys-Synced = record { seq = refl; mac = refl; ciphers = refl }

delivered : Delivered toy toy_stream toy_mac zeros [] small_packet keys keys
delivered =
    recv_packet-send_packet toy toy_stream toy_mac zeros [] small_packet keys keys zeros-IsFill
      (record { number = omega arith; bytes = omega arith }) (omega arith) keys-Synced

recv_packet-Authentic_example :
    Authentic toy
      (reader (delivered.wire ++ (7 ∷ [])) unexpected_eof)
      (reader (7 ∷ []) unexpected_eof)
      keys
      delivered.receiver
      (3 ∷ [])
      small_packet
recv_packet-Authentic_example =
    recv_packet-Authentic toy toy_stream toy_mac
      (reader (delivered.wire ++ (7 ∷ [])) unexpected_eof) keys (3 ∷ []) small_packet
      (reader (7 ∷ []) unexpected_eof) delivered.receiver refl
      (delivered.receives (7 ∷ []) unexpected_eof)

recv_packet_panic_iff_example :
    (recv_packet toy (reader (zeros 8 ++ (1 ∷ [])) unexpected_eof) plain ≡ panic)
    ↔ (4 + first_u32 (decrypt_with toy plain.ciphers (zeros 8)).0 < block_size_of plain)
recv_packet_panic_iff_example =
    recv_packet_panic_iff toy (zeros 8) (1 ∷ []) unexpected_eof plain
      (unfold block_size_of is_encrypted in refl)

recv_packet-send_packet_example : Delivered toy toy_stream toy_mac zeros [] small_packet keys keys
recv_packet-send_packet_example =
    recv_packet-send_packet toy toy_stream toy_mac zeros [] small_packet keys keys zeros-IsFill
      (record { number = omega arith; bytes = omega arith }) (omega arith) keys-Synced

recv_version_string_lem_example :
    recv_version_string (reader ((ascii "SSH-2.0-x" ++ crlf) ++ (1 ∷ [])) unexpected_eof)
    ≡ ok (ascii "SSH-2.0-x", reader (1 ∷ []) unexpected_eof)
unfolding is_utf8 starts_with
recv_version_string_lem_example =
    recv_version_string_lem unexpected_eof (ascii "SSH-2.0-x") (1 ∷ []) (omega arith) (omega arith)
      refl refl

complete_agree_example :
    (r : KexResult) × (client_complete toy
        (new toy 1)
        (new toy 2).ephemeral_pub
        (ascii "a")
        (ascii "b")
        []
        []
        (9 ∷ [])
      ≡ ok (r, record (new toy 1) { secret = none }))
    × (server_complete toy
          (new toy 2)
          (new toy 1).ephemeral_pub
          (ascii "a")
          (ascii "b")
          []
          []
          (9 ∷ [])
        ≡ ok (r, record (new toy 2) { secret = none }))
complete_agree_example = complete_agree toy toy_agreement 1 2 (ascii "a") (ascii "b") [] [] (9 ∷ [])

abbrev one : ℕ → List ℕ
one b = b ∷ []

fit :
    (x : List ℕ)
    → Fits x
    → All Fits
        (ascii "a" ∷ ascii "b" ∷ (1 ∷ []) ∷ (2 ∷ []) ∷ (3 ∷ []) ∷ (4 ∷ []) ∷ (5 ∷ []) ∷ x ∷ [])
fit x h = (
  omega arith,
  (omega arith, (omega arith, (omega arith, (omega arith, (omega arith, (omega arith, (h, tt))))))),
)

transcript_injective_example :
    (ascii "a" ≡ ascii "a")
    × (ascii "b" ≡ ascii "b")
    × (one 1 ≡ one 1)
    × (one 2 ≡ one 2)
    × (one 3 ≡ one 3)
    × (one 4 ≡ one 4)
    × (one 5 ≡ one 5)
    × (be_value 0 (0 ∷ 6 ∷ []) ≡ be_value 0 (one 6))
unfolding transcript write_mpint stripped
transcript_injective_example =
    transcript_injective (ascii "a") (ascii "b") (one 1) (one 2) (one 3) (one 4) (one 5)
      (0 ∷ 6 ∷ []) (ascii "a") (ascii "b") (one 1) (one 2) (one 3) (one 4) (one 5) (one 6)
      (fit (mpint_bytes (0 ∷ 6 ∷ [])) (omega (arith, length-mpint_bytes (0 ∷ 6 ∷ []))))
      (fit (mpint_bytes (one 6)) (omega (arith, length-mpint_bytes (one 6)))) refl
