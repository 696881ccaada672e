-- ===== src/Transport/Io/Receive.antt =====
-- `recv_packet` on the bytes of one packet, piece by piece, and what `send_packet` adds to them.
use swift_ssh.Prelude.{
  ℕ, zero, suc, ◌+◌, ◌≤◌, ◌<◌, ◌≡◌, refl, true, Option, none, some, List, [], ◌++◌, append-nil,
  length, length-append, take-length_append, drop-length_append, ge→ltb, arith,
}
use swift_ssh.Error.{IoError, SshError, ok}
use swift_ssh.Packet.Types.{max_packet_size}
use swift_ssh.Packet.Codec.{SshPacket, deserialize}
use swift_ssh.Crypto.{Crates, CipherPair, verify_hmac}
use swift_ssh.Crypto.Laws.{IsMac}
use swift_ssh.Session.{SessionKeys, next_recv_seq}
use swift_ssh.Transport.Stream.{Reader, read_or, io_error, closed_or_io, write_all}
use swift_ssh.Transport.Io.{
  block_size_of, first_u32, packet_mac, decrypt_with, write_mac, check_mac, remaining_of, read_rest,
  recv_packet, write_u32_be,
}

abbrev pub reader : List ℕ → IoError → Reader
reader bytes e = record { pending = bytes; ending = e }

pub read_or-append :
    (f : IoError → SshError) (n : ℕ) (xs rest : List ℕ) (e : IoError)
    → length xs ≡ n
    → read_or f (reader (xs ++ rest) e) n ≡ ok (xs, reader rest e)
unfolding read_or
read_or-append f n xs rest e h =
    rw (← h) (
      ground (arith, length-append xs rest, take-length_append xs rest, drop-length_append xs rest))

module _ (crates : Crates) where
  open crates use {Cipher}

  -- The bytes of the MAC behind a packet.
  unfoldable pub mac_bytes : Option (List ℕ) → ℕ → List ℕ → List ℕ
  mac_bytes none seq bytes = []
  mac_bytes (some key) seq bytes = packet_mac crates key seq bytes

  pub write_mac_lem :
      (mk : Option (List ℕ)) (seq : ℕ) (bytes sent : List ℕ)
      → write_mac crates mk seq bytes (record { sent = sent; up = true })
        ≡ ok (record { sent = sent ++ mac_bytes mk seq bytes; up = true })
  unfolding write_mac mac_bytes write_all
  write_mac_lem none seq bytes sent = rw append-nil
  write_mac_lem (some key) seq bytes sent = refl

  pub check_mac_lem :
      (mac : IsMac crates) (mk : Option (List ℕ)) (seq : ℕ) (bytes rest : List ℕ) (e : IoError)
      → check_mac crates mk seq bytes (reader (mac_bytes mk seq bytes ++ rest) e)
        ≡ ok (reader rest e)
  unfolding check_mac mac_bytes
  check_mac_lem mac none seq bytes rest e = refl
  check_mac_lem mac (some key) seq bytes rest e =
      rw (read_or-append io_error 32 (packet_mac crates key seq bytes) rest e size, verified)
    where
      size : length (packet_mac crates key seq bytes) ≡ 32
      size = unfold packet_mac in mac.length-finalize key _

      verified :
          verify_hmac crates key (write_u32_be [] seq ++ bytes) (packet_mac crates key seq bytes)
          ≡ ok tt
      verified = unfold packet_mac verify_hmac in rw ((mac.verify_slice_iff key _ _).1 refl)

  read_rest_lem :
      (n : ℕ) (ys zs rest : List ℕ) (e : IoError) (c d : Option (CipherPair Cipher))
      → 0 < n
      → length ys ≡ n
      → decrypt_with crates c ys ≡ (zs, d)
      → read_rest crates n (reader (ys ++ rest) e) c ≡ ok (zs, reader rest e, d)
  unfolding read_rest
  read_rest_lem zero ys zs rest e c d pos h g = absurd (omega arith)
  read_rest_lem (suc n) ys zs rest e c d pos h g =
      rw (read_or-append io_error (suc n) ys rest e h, g)

  -- The keys of the receiver behind a packet.
  unfoldable pub keys_after : SessionKeys Cipher → Option (CipherPair Cipher) → SessionKeys Cipher
  keys_after keys c = (next_recv_seq (record keys { ciphers = c })).1

  -- `recv_packet` on a first block `X` and a rest `Y` that decrypt to `xs` and `ys`, with the MAC
  -- of those behind them.
  pub recv_packet_lem :
      (mac : IsMac crates) (keys : SessionKeys Cipher) (p : SshPacket) (n : ℕ)
      (fronts backs xs ys rest : List ℕ) (e : IoError) (c d : Option (CipherPair Cipher))
      → length fronts ≡ block_size_of keys
      → decrypt_with crates keys.ciphers fronts ≡ (xs, c)
      → first_u32 xs ≡ n
      → n ≤ max_packet_size
      → 4 + n ≡ block_size_of keys + length backs
      → 0 < length backs
      → decrypt_with crates c backs ≡ (ys, d)
      → deserialize (xs ++ ys) ≡ ok p
      → recv_packet crates
          (reader
            (fronts ++ (backs ++ (mac_bytes keys.recv_mac_key keys.recv_seq (xs ++ ys) ++ rest)))
            e)
          keys
        ≡ ok (p, reader rest e, keys_after keys d)
  unfolding recv_packet keys_after next_recv_seq
  recv_packet_lem mac keys p n fronts backs xs ys rest e c d hf hx hn small total pos hy hp = rw (
    read_or-append closed_or_io (block_size_of keys) fronts _ e hf,
    hx,
    hn,
    ge→ltb max_packet_size n small,
    left,
    read_rest_lem (length backs) backs ys _ e c d pos refl hy,
    check_mac_lem mac keys.recv_mac_key keys.recv_seq (xs ++ ys) rest e,
    hp,
  )
    where
      left : remaining_of (4 + n) (block_size_of keys) ≡ ok (length backs)
      left = unfold remaining_of in ground arith
