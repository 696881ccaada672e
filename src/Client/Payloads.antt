-- ===== src/Client/Payloads.antt =====
-- The payloads of the key exchange: their parts and sizes.
use swift_ssh.Prelude.{
  ℕ, ◌+◌, ◌%◌, ◌^◌, ◌≤◌, ◌≡◌, List, [], ◌++◌, length, length-append, ascii, arith,
}
use swift_ssh.Error.{ok}
use swift_ssh.Packet.Types.{kex_ecdh_init, kex_ecdh_reply}
use swift_ssh.Packet.Buf.{read_string, write_string, to_be_bytes}
use swift_ssh.Packet.Buf.Laws.{string_bytes, write_laws, write_string_lem, read_string-string_bytes}
use swift_ssh.Packet.Codec.{new}
use swift_ssh.Crypto.{Crates, compute_hmac}
use swift_ssh.Crypto.Laws.{IsMac}
use swift_ssh.Transport.Io.Plain.{Room}
use swift_ssh.Server.{reply_payload, host_key_blob}

module _ (crates : Crates) (mac : IsMac crates) where
  pub read_string-write_string :
      (s rest : List ℕ) → length s ≤ 1000 → read_string (string_bytes s ++ rest) ≡ ok (s, rest)
  read_string-write_string s rest h = read_string-string_bytes s rest (omega arith)

  unfoldable pub signature_of : List ℕ → List ℕ
  signature_of hash = compute_hmac crates (ascii "host-key-secret") hash

  pub length-signature_of : (hash : List ℕ) → length (signature_of hash) ≡ 32
  unfolding signature_of compute_hmac
  length-signature_of hash = mac.length-finalize _ _

  pub reply_payload_lem :
      (server_pub hash : List ℕ)
      → reply_payload crates server_pub hash
        ≡ string_bytes host_key_blob
          ++ (string_bytes server_pub ++ string_bytes (signature_of hash))
  unfolding reply_payload signature_of
  reply_payload_lem server_pub hash = simp write_laws

  length-string_bytes : (s : List ℕ) → length (string_bytes s) ≡ 4 + length s
  unfolding string_bytes to_be_bytes
  length-string_bytes s = omega (arith, length-append (to_be_bytes (length s % 2 ^ 32)) s)

  pub reply_payload-Room :
      (server_pub hash : List ℕ)
      → length server_pub ≡ 32
      → Room (new kex_ecdh_reply (reply_payload crates server_pub hash))
  unfolding new
  reply_payload-Room server_pub hash h = rw (reply_payload_lem server_pub hash) (
      omega (
        arith,
        h,
        length-append (string_bytes host_key_blob)
            (string_bytes server_pub ++ string_bytes (signature_of hash)),
        length-append (string_bytes server_pub) (string_bytes (signature_of hash)),
        length-string_bytes host_key_blob,
        length-string_bytes server_pub,
        length-string_bytes (signature_of hash),
        length-signature_of hash,
      ))

  pub ecdh_init-Room :
      (client_pub : List ℕ)
      → length client_pub ≡ 32
      → Room (new kex_ecdh_init (write_string [] client_pub))
  unfolding new
  ecdh_init-Room client_pub h =
      rw write_string_lem (omega (arith, h, length-string_bytes client_pub))
