-- ===== src/Transport/Io/RoundTrip.antt =====
-- A packet that one side sends is the packet that the other side receives.
use swift_ssh.Prelude.{
  ℕ, ◌+◌, ◌≤◌, ◌<◌, ◌≡◌, ◌⊎◌, ap, ◌∙◌, true, Option, List, [], ◌++◌, append_assoc, append-nil, ◌%◌,
  ◌^◌, length, arith,
}
use swift_ssh.Error.{IoError, ok}
use swift_ssh.Packet.Types.{max_packet_size}
use swift_ssh.Packet.Codec.{SshPacket, deserialize}
use swift_ssh.Packet.Codec.Shape.{framed, block, padding_of_bounds, packet_length_of, serialize_ok}
use swift_ssh.Packet.Codec.RoundTrip.{deserialize-framed}
use swift_ssh.Crypto.{Crates, CipherPair}
use swift_ssh.Crypto.Laws.{IsMac, IsStreamCipher}
use swift_ssh.Session.{SessionKeys, next_recv_seq, next_send_seq}
use swift_ssh.Transport.Stream.{write_all, flush}
use swift_ssh.Transport.Io.{block_size_of, encrypt_with, send_packet, recv_packet}
use swift_ssh.Transport.Io.Sync.{Synced, Sealed, seal}
use swift_ssh.Transport.Io.Receive.{reader, mac_bytes, write_mac_lem, keys_after, recv_packet_lem}
use swift_ssh.Transport.Io.Cut.{
  IsPacket, IsFill, first_part, last_part, parts_lem, block_size_cases, Matched-block_size_of,
  first_u32-to_be_bytes, packet_length_big, length-first_part, length-last_part,
  first_part-AreBytes, last_part-AreBytes,
}

-- The keys of the sender behind a packet.
unfoldable pub sender_after : {C : Type 0} → SessionKeys C → Option (CipherPair C) → SessionKeys C
sender_after keys c = record (next_send_seq keys).1 { ciphers = c }

module _ (crates : Crates) where
  open crates use {Cipher}

  -- What `send_packet` writes while the stream is up.
  pub send_packet_lem :
      (fill : ℕ → List ℕ) (sent : List ℕ) (p : SshPacket) (keys : SessionKeys Cipher)
      (sealed : List ℕ) (c : Option (CipherPair Cipher))
      → packet_length_of (block_size_of keys) p ≤ max_packet_size
      → encrypt_with crates keys.ciphers (framed fill (block_size_of keys) p) ≡ (sealed, c)
      → send_packet crates fill (record { sent = sent; up = true }) p keys
        ≡ ok (
          record {
            sent =
                sent
                ++ sealed
                ++ mac_bytes crates keys.send_mac_key keys.send_seq
                    (framed fill (block_size_of keys) p);
            up = true;
          },
          sender_after keys c,
        )
  unfolding send_packet next_send_seq sender_after write_all flush
  send_packet_lem fill sent p keys sealed c small h = rw (
    serialize_ok fill (block_size_of keys) p small,
    h,
    write_mac_lem crates keys.send_mac_key keys.send_seq (framed fill (block_size_of keys) p)
        (sent ++ sealed),
  )

  -- Room for the framing behind 8 or 16 bytes.
  fits_room :
      (keys : SessionKeys Cipher) (p : SshPacket)
      → length p.payload + 21 ≤ max_packet_size
      → packet_length_of (block_size_of keys) p ≤ max_packet_size
  fits_room keys p h =
      unfold packet_length_of block in
      omega (arith, padding_of_bounds (block_size_of keys) p, block_size_cases keys)

  module _ (stream : IsStreamCipher crates) (mac : IsMac crates) where
    -- A packet and the keys of both sides behind it: what the sender wrote is `wire`.
    pub record Delivered (fill : ℕ → List ℕ) (sent : List ℕ) (p : SshPacket)
        (ks kr : SessionKeys Cipher) : Type 0 where
      pub wire : List ℕ
      pub sender : SessionKeys Cipher
      pub receiver : SessionKeys Cipher
      pub sends :
          send_packet crates fill (record { sent = sent; up = true }) p ks
          ≡ ok (record { sent = sent ++ wire; up = true }, sender)
      pub receives :
          (rest : List ℕ) (e : IoError)
          → recv_packet crates (reader (wire ++ rest) e) kr ≡ ok (p, reader rest e, receiver)
      pub synced : Synced sender receiver

    -- From the two pieces of a packet, sealed.
    deliver :
        (fill : ℕ → List ℕ) (sent : List ℕ) (p : SshPacket) (ks kr : SessionKeys Cipher)
        → IsFill fill
        → packet_length_of (block_size_of ks) p ≤ max_packet_size
        → Synced ks kr
        → Sealed crates ks.ciphers kr.ciphers
            (first_part fill (block_size_of ks) p)
            (last_part fill (block_size_of ks) p)
        → Delivered fill sent p ks kr
    deliver fill sent p ks kr hf small sync box = record {
      wire = (box.front ++ box.back) ++ tag;
      sender = sender_after ks box.sender;
      receiver = keys_after crates kr box.receiver;
      sends =
          rw (← append_assoc sent (box.front ++ box.back) tag)
            (send_packet_lem fill sent p ks (box.front ++ box.back) box.sender small sealed);
      receives = λ rest e.
          rw
            (
              append_assoc (box.front ++ box.back) tag rest,
              append_assoc box.front box.back (tag ++ rest),
              same_tag,
            )
            (recv_packet_lem crates mac kr p (packet_length_of bs p) box.front box.back xs ys rest e
              box.middle box.receiver front_size box.decrypted-front
              (unfold first_part in
                first_u32-to_be_bytes (packet_length_of bs p) _ (omega (arith, small)))
              small total back_size box.decrypted-back back_again);
      synced = record {
        seq =
            unfold sender_after keys_after next_send_seq next_recv_seq in
            ap (λ (n : ℕ). (n + 1) % 2 ^ 32) sync.seq;
        mac = unfold sender_after keys_after next_send_seq next_recv_seq in sync.mac;
        ciphers = unfold sender_after keys_after next_send_seq next_recv_seq in box.matched;
      };
    }
      where
        bs : ℕ
        bs = block_size_of ks

        xs : List ℕ
        xs = first_part fill bs p

        ys : List ℕ
        ys = last_part fill bs p

        size : (bs ≡ 8) ⊎ (bs ≡ 16)
        size = block_size_cases ks

        same_size : block_size_of ks ≡ block_size_of kr
        same_size = Matched-block_size_of ks kr sync.ciphers

        whole : xs ++ ys ≡ framed fill bs p
        whole = parts_lem fill bs p

        sealed :
            encrypt_with crates ks.ciphers (framed fill bs p) ≡ (box.front ++ box.back, box.sender)
        sealed = rw (← whole) box.encrypted

        tag : List ℕ
        tag = mac_bytes crates ks.send_mac_key ks.send_seq (framed fill bs p)

        same_tag : tag ≡ mac_bytes crates kr.recv_mac_key kr.recv_seq (xs ++ ys)
        same_tag = rw whole (cc (sync.mac, sync.seq))

        front_size : length box.front ≡ block_size_of kr
        front_size = box.length-front ∙ length-first_part fill bs p hf size ∙ same_size

        total : 4 + packet_length_of bs p ≡ block_size_of kr + length box.back
        total = omega (arith, same_size, box.length-back, length-last_part fill bs p hf size)

        back_size : 0 < length box.back
        back_size = omega (
          arith,
          box.length-back,
          length-last_part fill bs p hf size,
          packet_length_big fill bs p hf size,
        )

        back_again : deserialize (xs ++ ys) ≡ ok p
        back_again =
            rw (whole, ← append-nil (framed fill bs p))
              (deserialize-framed fill bs p [] hf.fills (omega (arith, size)) small)

    -- While the stream is up and both sides are in step, encrypted or not, `send_packet` writes
    -- every packet of bytes whose payload leaves room for the framing, and `recv_packet` returns
    -- that packet from what was written, leaves what follows it, and both sides are in step again.
    pub recv_packet-send_packet :
        (fill : ℕ → List ℕ) (sent : List ℕ) (p : SshPacket) (ks kr : SessionKeys Cipher)
        → IsFill fill
        → IsPacket p
        → length p.payload + 21 ≤ max_packet_size
        → Synced ks kr
        → Delivered fill sent p ks kr
    recv_packet-send_packet fill sent p ks kr hf hp room sync =
        deliver fill sent p ks kr hf (fits_room ks p room) sync (
          seal crates stream ks.ciphers kr.ciphers _ _ sync.ciphers
            (first_part-AreBytes fill (block_size_of ks) p hf (block_size_cases ks) hp)
            (last_part-AreBytes fill (block_size_of ks) p hf (block_size_cases ks) hp))
