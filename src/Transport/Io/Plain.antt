-- ===== src/Transport/Io/Plain.antt =====
-- Packets before the key exchange: neither encrypted nor with a MAC.
use swift_ssh.Prelude.{
  ℕ, ◌+◌, ◌%◌, ◌^◌, ◌≤◌, ◌≡◌, inl, refl, sym, ap, ◌∙◌, none, List, [], ◌++◌, append_assoc,
  append-nil, length, true, arith,
}
use swift_ssh.Error.{IoError, ok}
use swift_ssh.Packet.Types.{max_packet_size}
use swift_ssh.Packet.Codec.{SshPacket, deserialize}
use swift_ssh.Packet.Codec.Shape.{framed, packet_length_of, padding_of_bounds, block}
use swift_ssh.Packet.Codec.RoundTrip.{deserialize-framed}
use swift_ssh.Crypto.{Crates}
use swift_ssh.Crypto.Laws.{IsMac}
use swift_ssh.Session.{SessionKeys, next_send_seq, next_recv_seq, is_encrypted}
use swift_ssh.Transport.Stream.{Writer}
use swift_ssh.Transport.Io.{block_size_of, encrypt_with, decrypt_with, send_packet, recv_packet}
use swift_ssh.Transport.Io.Receive.{reader, mac_bytes, keys_after, recv_packet_lem}
use swift_ssh.Transport.Io.Cut.{
  IsFill, first_part, last_part, parts_lem, first_u32-to_be_bytes, packet_length_big,
  length-first_part, length-last_part,
}
use swift_ssh.Transport.Io.RoundTrip.{sender_after, send_packet_lem}

abbrev pub plain_keys : {C : Type 0} → ℕ → ℕ → SessionKeys C
plain_keys sent received = record {
  send_seq = sent;
  recv_seq = received;
  session_id = none;
  ciphers = none;
  send_mac_key = none;
  recv_mac_key = none;
}

abbrev pub writer : List ℕ → Writer
writer sent = record { sent = sent; up = true }

abbrev pub Room : SshPacket → Type 0
Room p = length p.payload + 21 ≤ max_packet_size

Room-packet_length_of : (p : SshPacket) → Room p → packet_length_of 8 p ≤ max_packet_size
unfolding packet_length_of block
Room-packet_length_of p h = omega (arith, padding_of_bounds 8 p)

module _ (crates : Crates) where
  open crates use {Cipher}

  pub send_plain :
      (fill : ℕ → List ℕ) (sent : List ℕ) (p : SshPacket) (a b : ℕ)
      → Room p
      → send_packet crates fill (writer sent) p (plain_keys a b)
        ≡ ok (writer (sent ++ framed fill 8 p), plain_keys ((a + 1) % 2 ^ 32) b)
  unfolding encrypt_with mac_bytes sender_after next_send_seq block_size_of is_encrypted
  send_plain fill sent p a b h =
      send_packet_lem crates fill sent p (plain_keys a b) (framed fill 8 p) none
        (Room-packet_length_of p h) refl
      ∙ ap (λ (l : List ℕ). ok (writer l, plain_keys ((a + 1) % 2 ^ 32) b)) (append-nil _)

  pub recv_plain :
      (mac : IsMac crates) (fill : ℕ → List ℕ) (p : SshPacket) (rest : List ℕ) (e : IoError)
      (a b : ℕ)
      → IsFill fill
      → Room p
      → recv_packet crates (reader (framed fill 8 p ++ rest) e) (plain_keys a b)
        ≡ ok (p, reader rest e, plain_keys a ((b + 1) % 2 ^ 32))
  unfolding decrypt_with mac_bytes keys_after next_recv_seq block_size_of is_encrypted
  recv_plain mac fill p rest e a b hf h =
      ap (λ (l : List ℕ). recv_packet crates (reader l e) (plain_keys a b))
        (sym (ap (λ (l : List ℕ). l ++ rest) (parts_lem fill 8 p))
          ∙ append_assoc (first_part fill 8 p) (last_part fill 8 p) rest)
      ∙ recv_packet_lem crates mac (plain_keys a b) p (packet_length_of 8 p) (first_part fill 8 p)
          (last_part fill 8 p) (first_part fill 8 p) (last_part fill 8 p) rest e none none
          (length-first_part fill 8 p hf (inl refl)) refl
          (unfold first_part in
            first_u32-to_be_bytes (packet_length_of 8 p) _ (omega (arith, small)))
          small (omega (arith, length-last_part fill 8 p hf (inl refl)))
          (omega (
            arith,
            length-last_part fill 8 p hf (inl refl),
            packet_length_big fill 8 p hf (inl refl),
          ))
          refl again
    where
      small : packet_length_of 8 p ≤ max_packet_size
      small = Room-packet_length_of p h

      again : deserialize (first_part fill 8 p ++ last_part fill 8 p) ≡ ok p
      again =
          rw (parts_lem fill 8 p, ← append-nil (framed fill 8 p))
            (deserialize-framed fill 8 p [] hf.fills (omega arith) small)
