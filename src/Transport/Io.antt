-- ===== src/Transport/Io.antt =====
-- src/transport/io.rs: packets with optional encryption and MAC, and the version lines.
pub mod Sync
pub mod Receive
pub mod Cut
pub mod RoundTrip
pub mod Reads
pub mod Panic
pub mod Accept
pub mod Progress
pub mod Plain
pub mod Halves
pub mod Exchange
use swift_ssh.Prelude.{
  ℕ, zero, suc, ◌+◌, ◌-◌, ◌*◌, ◌^◌, Bool, Option, none, some, List, [], ◌∷◌, ◌++◌, length, take,
  ltb, ==_iff, ◌==◌, if◌then◌else◌, ascii, bytes_eq,
}
use swift_ssh.Error.{
  SshResult, ok, err, panic, invalid_packet, protocol, msg, msg_num, msg_text, ◌>>=◌,
}
use swift_ssh.Packet.Types.{max_packet_size, aes_block_size, hmac_sha256_size}
use swift_ssh.Packet.Utf8.{is_utf8}
use swift_ssh.Packet.Buf.{to_be_bytes}
use swift_ssh.Packet.Codec.{SshPacket, serialize, deserialize}
use swift_ssh.Crypto.{Crates, CipherPair, apply, compute_hmac, verify_hmac}
use swift_ssh.Session.{SessionKeys, next_send_seq, next_recv_seq, is_encrypted}
use swift_ssh.Transport.Stream.{Reader, Writer, read_or, io_error, closed_or_io, write_all, flush}

-- `write_u32_be` of transport/io.rs
unfoldable pub write_u32_be : List ℕ → ℕ → List ℕ
write_u32_be buf val = buf ++ to_be_bytes val

-- `u32::from_be_bytes` of the first four bytes; a block has at least eight
unfoldable pub first_u32 : List ℕ → ℕ
first_u32 (a ∷ b ∷ c ∷ d ∷ rest) = a * 2 ^ 24 + b * 2 ^ 16 + c * 2 ^ 8 + d
first_u32 _ = 0

unfoldable pub block_size_of : {C : Type 0} → SessionKeys C → ℕ
unfolding is_encrypted
block_size_of keys = if is_encrypted keys then aes_block_size else 8

-- `let remaining = total - block_size`, the size of a `Vec`: below zero the subtraction wraps around
-- (or aborts, in a debug build), and `vec!` panics at a size that no memory has.
unfoldable pub remaining_of : ℕ → ℕ → SshResult ℕ
remaining_of total block_size = if ltb total block_size then panic else ok (total - block_size)

module _ (crates : Crates) where
  open crates use {Cipher}

  -- the MAC of a packet under its sequence number
  unfoldable pub packet_mac : List ℕ → ℕ → List ℕ → List ℕ
  unfolding compute_hmac
  packet_mac mac_key seq bytes = compute_hmac crates mac_key (write_u32_be [] seq ++ bytes)

  -- `keys.ciphers.encrypt.apply(&mut data)`, and `decrypt` likewise, if there are ciphers
  unfoldable pub encrypt_with :
      Option (CipherPair Cipher) → List ℕ → List ℕ × Option (CipherPair Cipher)
  encrypt_with none bytes = (bytes, none)
  encrypt_with (some pair) bytes =
      let (out, c) = apply crates pair.encrypt bytes in (out, some (record pair { encrypt = c }))

  unfoldable pub decrypt_with :
      Option (CipherPair Cipher) → List ℕ → List ℕ × Option (CipherPair Cipher)
  decrypt_with none bytes = (bytes, none)
  decrypt_with (some pair) bytes =
      let (out, c) = apply crates pair.decrypt bytes in (out, some (record pair { decrypt = c }))

  -- the MAC goes out behind the packet if there is a MAC key
  unfoldable pub write_mac : Option (List ℕ) → ℕ → List ℕ → Writer → SshResult Writer
  write_mac none seq bytes w = ok w
  write_mac (some mac_key) seq bytes w = write_all w (packet_mac mac_key seq bytes)

  unfoldable pub send_packet :
      (ℕ → List ℕ)
      → Writer
      → SshPacket
      → SessionKeys Cipher
      → SshResult (Writer × SessionKeys Cipher)
  send_packet fill w p keys = do
    bytes ← serialize fill (block_size_of keys) p
    let (seq, keys') = next_send_seq keys
    let (sealed, ciphers') = encrypt_with keys'.ciphers bytes
    w1 ← write_all w sealed
    w2 ← write_mac keys'.send_mac_key seq bytes w1
    w3 ← flush w2
    ok (w3, record keys' { ciphers = ciphers' })

  -- the MAC is read and checked if there is a MAC key
  unfoldable pub check_mac : Option (List ℕ) → ℕ → List ℕ → Reader → SshResult Reader
  check_mac none seq bytes r = ok r
  check_mac (some mac_key) seq bytes r = do
    (mac_buf, r') ← read_or io_error r hmac_sha256_size
    verified ← verify_hmac crates mac_key (write_u32_be [] seq ++ bytes) mac_buf
    ok r'

  -- the rest of the packet, behind the first block
  unfoldable pub read_rest :
      ℕ
      → Reader
      → Option (CipherPair Cipher)
      → SshResult (List ℕ × Reader × Option (CipherPair Cipher))
  read_rest zero r ciphers = ok ([], r, ciphers)
  read_rest (suc n) r ciphers = do
    (rest, r') ← read_or io_error r (suc n)
    let (plain, ciphers') = decrypt_with ciphers rest
    ok (plain, r', ciphers')

  unfoldable pub recv_packet :
      Reader → SessionKeys Cipher → SshResult (SshPacket × Reader × SessionKeys Cipher)
  recv_packet r keys = do
    (block, r1) ← read_or closed_or_io r (block_size_of keys)
    let (first_block, ciphers1) = decrypt_with keys.ciphers block
    let packet_length = first_u32 first_block
    if ltb max_packet_size packet_length
        then err (invalid_packet (msg_num "Packet length too large: {}" packet_length))
        else do
          remaining ← remaining_of (4 + packet_length) (block_size_of keys)
          (rest, r2, ciphers2) ← read_rest remaining r1 ciphers1
          let full_data = first_block ++ rest
          let (seq, keys') = next_recv_seq (record keys { ciphers = ciphers2 })
          r3 ← check_mac keys'.recv_mac_key seq full_data r2
          p ← deserialize full_data
          ok (p, r3, keys')
