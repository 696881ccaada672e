-- ===== src/Transport/Io/Progress.antt =====
-- Every packet that `recv_packet` returns takes bytes from the stream.
use swift_ssh.Prelude.{
  ℕ, zero, suc, ◌+◌, ◌≤◌, ◌<◌, ◌≡◌, ap, ◌∙◌, Option, none, some, List, [], ◌++◌, length,
  length-append, ltb, arith,
}
use swift_ssh.Error.{ok, invalid_packet, msg_num, ok-injective, >>=-eq-ok}
use swift_ssh.Packet.Types.{max_packet_size}
use swift_ssh.Packet.Codec.{SshPacket, deserialize}
use swift_ssh.Crypto.{Crates, CipherPair, verify_hmac}
use swift_ssh.Session.{SessionKeys, next_recv_seq}
use swift_ssh.Transport.Stream.{Reader, read_or, io_error, closed_or_io}
use swift_ssh.Transport.Io.{
  block_size_of, first_u32, decrypt_with, check_mac, remaining_of, read_rest, recv_packet,
  write_u32_be,
}
use swift_ssh.Transport.Io.Cut.{block_size_cases}
use swift_ssh.Transport.Io.Reads.{read_or-eq-ok, guard-eq-ok}

module _ (crates : Crates) where
  open crates use {Cipher}

  read_rest_shrinks :
      (n : ℕ) (r : Reader) (c : Option (CipherPair Cipher))
      {q : List ℕ × Reader × Option (CipherPair Cipher)}
      → read_rest crates n r c ≡ ok q
      → length q.1.pending ≤ length r.pending
  unfolding read_rest
  read_rest_shrinks zero r c {q} h =
      let same : length r.pending ≡ length q.1.pending =
        ap (λ (t : List ℕ × Reader × Option (CipherPair Cipher)). length t.1.pending)
          (ok-injective h) in
      omega arith
  read_rest_shrinks (suc n) r c {q} h =
      let (b, e1, h1) = >>=-eq-ok (read_or io_error r (suc n)) _ h in
      let (front, size) = read_or-eq-ok io_error r (suc n) e1 in
      let same : length b.1.pending ≡ length q.1.pending =
        ap (λ (t : List ℕ × Reader × Option (CipherPair Cipher)). length t.1.pending)
          (ok-injective h1) in
      let whole : length r.pending ≡ length b.0 + length b.1.pending =
        ap length front ∙ length-append b.0 b.1.pending in
      omega arith

  check_mac_shrinks :
      (mk : Option (List ℕ)) (seq : ℕ) (bytes : List ℕ) (r : Reader) {r' : Reader}
      → check_mac crates mk seq bytes r ≡ ok r'
      → length r'.pending ≤ length r.pending
  unfolding check_mac
  check_mac_shrinks none seq bytes r {r'} h =
      let same : length r.pending ≡ length r'.pending =
        ap (λ (t : Reader). length t.pending) (ok-injective h) in
      omega arith
  check_mac_shrinks (some key) seq bytes r {r'} h =
      let (b, e1, h1) = >>=-eq-ok (read_or io_error r 32) _ h in
      let (u, e2, h2) =
        >>=-eq-ok (verify_hmac crates key (write_u32_be [] seq ++ bytes) b.0) _ h1 in
      let (front, size) = read_or-eq-ok io_error r 32 e1 in
      let same : length b.1.pending ≡ length r'.pending =
        ap (λ (t : Reader). length t.pending) (ok-injective h2) in
      let whole : length r.pending ≡ length b.0 + length b.1.pending =
        ap length front ∙ length-append b.0 b.1.pending in
      omega arith

  pub recv_packet_shrinks :
      (r : Reader) (keys : SessionKeys Cipher) (p : SshPacket) (r' : Reader)
      (keys' : SessionKeys Cipher)
      → recv_packet crates r keys ≡ ok (p, r', keys')
      → length r'.pending < length r.pending
  unfolding recv_packet
  recv_packet_shrinks r keys p r' keys' h =
      let (b, e1, h1) = >>=-eq-ok (read_or closed_or_io r (block_size_of keys)) _ h in
      let x : List ℕ × Option (CipherPair Cipher) = decrypt_with crates keys.ciphers b.0 in
      let g =
        guard-eq-ok (ltb max_packet_size (first_u32 x.0))
          (invalid_packet (msg_num "Packet length too large: {}" (first_u32 x.0))) _ h1 in
      let (n, e2, h2) = >>=-eq-ok (remaining_of (4 + first_u32 x.0) (block_size_of keys)) _ g in
      let (q, e3, h3) = >>=-eq-ok (read_rest crates n b.1 x.1) _ h2 in
      let k = next_recv_seq (record keys { ciphers = q.2 }) in
      let (r3, e4, h4) = >>=-eq-ok (check_mac crates k.1.recv_mac_key k.0 (x.0 ++ q.0) q.1) _ h3 in
      let (p', e5, h5) = >>=-eq-ok (deserialize (x.0 ++ q.0)) _ h4 in
      let (front, size) = read_or-eq-ok closed_or_io r (block_size_of keys) e1 in
      let whole : length r.pending ≡ length b.0 + length b.1.pending =
        ap length front ∙ length-append b.0 b.1.pending in
      let same : length r3.pending ≡ length r'.pending =
        ap (λ (t : SshPacket × Reader × SessionKeys Cipher). length t.1.pending)
          (ok-injective h5) in
      let rest : length q.1.pending ≤ length b.1.pending = read_rest_shrinks n b.1 x.1 e3 in
      let tag : length r3.pending ≤ length q.1.pending = check_mac_shrinks _ _ _ _ e4 in
      omega (arith, block_size_cases keys)
