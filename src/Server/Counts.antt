-- ===== src/Server/Counts.antt =====
-- The sequence numbers count the packets that a side sends and receives.
use swift_ssh.Prelude.{ℕ, ◌+◌, ◌%◌, ◌^◌, ◌≡◌, sym, ap, List, ◌++◌, ltb}
use swift_ssh.Error.{ok, msg_num, invalid_packet, ok-injective, >>=-eq-ok}
use swift_ssh.Packet.Types.{max_packet_size}
use swift_ssh.Packet.Codec.{SshPacket, serialize, deserialize}
use swift_ssh.Crypto.{Crates}
use swift_ssh.Session.{SessionKeys, next_send_seq, next_recv_seq}
use swift_ssh.Transport.Stream.{Reader, Writer, read_or, closed_or_io, write_all, flush}
use swift_ssh.Transport.Io.{
  send_packet, recv_packet, block_size_of, decrypt_with, encrypt_with, first_u32, remaining_of,
  read_rest, check_mac, write_mac,
}
use swift_ssh.Transport.Io.Reads.{guard-eq-ok}

-- How many packets a side has sent and received.
abbrev pub Counts : {C : Type 0} → SessionKeys C → ℕ → ℕ → Type 0
Counts keys sent received = (keys.send_seq ≡ sent) × (keys.recv_seq ≡ received)

module _ (crates : Crates) where
  open crates use {Cipher}

  pub send_packet-Counts :
      (fill : ℕ → List ℕ) (w : Writer) (p : SshPacket) (keys : SessionKeys Cipher)
      {q : Writer × SessionKeys Cipher}
      → send_packet crates fill w p keys ≡ ok q
      → Counts q.1 ((keys.send_seq + 1) % 2 ^ 32) keys.recv_seq
  unfolding send_packet next_send_seq
  send_packet-Counts fill w p keys {q} h =
      let (bytes, e1, h1) = >>=-eq-ok (serialize fill (block_size_of keys) p) _ h in
      let (w1, e2, h2) = >>=-eq-ok (write_all w (encrypt_with crates keys.ciphers bytes).0) _ h1 in
      let (w2, e3, h3) =
        >>=-eq-ok (write_mac crates keys.send_mac_key keys.send_seq bytes w1) _ h2 in
      let (w3, e4, h4) = >>=-eq-ok (flush w2) _ h3 in
      let same = sym (ok-injective h4) in
      (
        ap (λ (t : Writer × SessionKeys Cipher). t.1.send_seq) same,
        ap (λ (t : Writer × SessionKeys Cipher). t.1.recv_seq) same,
      )

  pub recv_packet-Counts :
      (r : Reader) (keys : SessionKeys Cipher) {t : SshPacket × Reader × SessionKeys Cipher}
      → recv_packet crates r keys ≡ ok t
      → Counts t.2 keys.send_seq ((keys.recv_seq + 1) % 2 ^ 32)
  unfolding recv_packet next_recv_seq
  recv_packet-Counts r keys {t} h =
      let (b, e1, h1) = >>=-eq-ok (read_or closed_or_io r (block_size_of keys)) _ h in
      let x : List ℕ × _ = decrypt_with crates keys.ciphers b.0 in
      let g =
        guard-eq-ok (ltb max_packet_size (first_u32 x.0))
          (invalid_packet (msg_num "Packet length too large: {}" (first_u32 x.0))) _ h1 in
      let (n, e2, h2) = >>=-eq-ok (remaining_of (4 + first_u32 x.0) (block_size_of keys)) _ g in
      let (q, e3, h3) = >>=-eq-ok (read_rest crates n b.1 x.1) _ h2 in
      let (r3, e4, h4) =
        >>=-eq-ok (check_mac crates keys.recv_mac_key keys.recv_seq (x.0 ++ q.0) q.1) _ h3 in
      let (p', e5, h5) = >>=-eq-ok (deserialize (x.0 ++ q.0)) _ h4 in
      let same = sym (ok-injective h5) in
      (
        ap (λ (s : SshPacket × Reader × SessionKeys Cipher). s.2.send_seq) same,
        ap (λ (s : SshPacket × Reader × SessionKeys Cipher). s.2.recv_seq) same,
      )
