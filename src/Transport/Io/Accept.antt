-- ===== src/Transport/Io/Accept.antt =====
-- What `recv_packet` accepts under a MAC key.
use swift_ssh.Prelude.{
  ℕ, zero, suc, ◌+◌, ◌%◌, ◌^◌, ◌≡◌, refl, sym, ap, ◌∙◌, Bool-cases, inl, inr, Option, none, some,
  List, [], ◌++◌, length, ltb, arith,
}
use swift_ssh.Error.{ok, invalid_packet, msg_num, ok-injective, >>=-eq-ok}
use swift_ssh.Packet.Types.{max_packet_size}
use swift_ssh.Packet.Codec.{SshPacket, deserialize}
use swift_ssh.Crypto.{Crates, CipherPair, verify_hmac}
use swift_ssh.Crypto.Laws.{IsMac, IsStreamCipher}
use swift_ssh.Crypto.Stream.{apply_nil}
use swift_ssh.Session.{SessionKeys, next_recv_seq}
use swift_ssh.Transport.Stream.{Reader, read_or, io_error, closed_or_io}
use swift_ssh.Transport.Io.{
  block_size_of, first_u32, packet_mac, decrypt_with, check_mac, remaining_of, read_rest,
  recv_packet, write_u32_be,
}
use swift_ssh.Transport.Io.Reads.{read_or-eq-ok, guard-eq-ok}

module _ (crates : Crates) where
  open crates use {Cipher}

  -- A packet that was received under a MAC key: the bytes that were taken, what they decrypt to,
  -- and the MAC behind them.
  pub record Authentic (r r' : Reader) (keys keys' : SessionKeys Cipher) (key : List ℕ)
      (p : SshPacket) : Type 0 where
    pub fronts : List ℕ
    pub backs : List ℕ
    pub plain : List ℕ
    pub taken :
        r.pending ≡ fronts ++ (backs ++ (packet_mac crates key keys.recv_seq plain ++ r'.pending))
    pub block : length fronts ≡ block_size_of keys
    pub opened :
        plain
        ≡ (decrypt_with crates keys.ciphers fronts).0
          ++ (decrypt_with crates (decrypt_with crates keys.ciphers fronts).1 backs).0
    pub parsed : deserialize plain ≡ ok p
    pub next : keys'.recv_seq ≡ (keys.recv_seq + 1) % 2 ^ 32
    pub same_key : keys'.recv_mac_key ≡ some key

  verify_hmac-eq-ok :
      (mac : IsMac crates) (key bytes expected : List ℕ) {u : Unit {0}}
      → verify_hmac crates key bytes expected ≡ ok u
      → expected ≡ crates.finalize key bytes
  unfolding verify_hmac
  verify_hmac-eq-ok mac key bytes expected h =
      elim (Bool-cases (crates.verify_slice key bytes expected)) [
        | inl e ↦ (mac.verify_slice_iff key bytes expected).0 e
        | inr e ↦ absurd (ground arith)
      ]

  pub check_mac-eq-ok :
      (mac : IsMac crates) (key : List ℕ) (seq : ℕ) (bytes : List ℕ) (r : Reader) {r' : Reader}
      → check_mac crates (some key) seq bytes r ≡ ok r'
      → r.pending ≡ packet_mac crates key seq bytes ++ r'.pending
  unfolding check_mac packet_mac
  check_mac-eq-ok mac key seq bytes r {r'} h =
      let (b, e1, h1) = >>=-eq-ok (read_or io_error r 32) _ h in
      let (u, e2, h2) =
        >>=-eq-ok (verify_hmac crates key (write_u32_be [] seq ++ bytes) b.0) _ h1 in
      let (front, n) = read_or-eq-ok io_error r 32 e1 in
      rw (← ok-injective h2, ← verify_hmac-eq-ok mac key _ b.0 e2) front

  check_mac-some :
      (mac : IsMac crates) (key : List ℕ) (mk : Option (List ℕ)) (seq : ℕ) (bytes : List ℕ)
      (r : Reader) {r' : Reader}
      → mk ≡ some key
      → check_mac crates mk seq bytes r ≡ ok r'
      → r.pending ≡ packet_mac crates key seq bytes ++ r'.pending
  check_mac-some mac key mk seq bytes r e h = check_mac-eq-ok mac key seq bytes r (rw e at h)

  decrypt_with_nil :
      (stream : IsStreamCipher crates) (c : Option (CipherPair Cipher))
      → (decrypt_with crates c []).0 ≡ []
  unfolding decrypt_with
  decrypt_with_nil stream none = refl
  decrypt_with_nil stream (some pair) =
      ap (λ (q : List ℕ × Cipher). q.0) (apply_nil crates stream pair.decrypt)

  pub read_rest-eq-ok :
      (stream : IsStreamCipher crates) (n : ℕ) (r : Reader) (c : Option (CipherPair Cipher))
      {zs : List ℕ} {r' : Reader} {d : Option (CipherPair Cipher)}
      → read_rest crates n r c ≡ ok (zs, r', d)
      → (backs : List ℕ) × (r.pending ≡ backs ++ r'.pending)
        × (zs ≡ (decrypt_with crates c backs).0)
  unfolding read_rest
  read_rest-eq-ok stream zero r c {zs} {r'} {d} h = (
    [],
    ap (λ (q : List ℕ × Reader × Option (CipherPair Cipher)). q.1.pending) (ok-injective h),
    sym (ap (λ (q : List ℕ × Reader × Option (CipherPair Cipher)). q.0) (ok-injective h))
        ∙ sym (decrypt_with_nil stream c),
  )
  read_rest-eq-ok stream (suc n) r c {zs} {r'} {d} h =
      let (b, e1, h1) = >>=-eq-ok (read_or io_error r (suc n)) _ h in
      let same = ok-injective h1 in
      (
        b.0,
        (read_or-eq-ok io_error r (suc n) e1).0
            ∙ ap (λ (q : List ℕ × Reader × Option (CipherPair Cipher)). b.0 ++ q.1.pending) same,
        sym (ap (λ (q : List ℕ × Reader × Option (CipherPair Cipher)). q.0) same),
      )

  -- Under a MAC key `recv_packet` accepts nothing but bytes with that key's MAC: behind what it
  -- decrypts, and parses as the packet, it has read the MAC of those plain bytes under the expected
  -- sequence number; the next sequence number is expected from then on, under the same key.
  pub recv_packet-Authentic :
      (stream : IsStreamCipher crates) (mac : IsMac crates) (r : Reader) (keys : SessionKeys Cipher)
      (key : List ℕ) (p : SshPacket) (r' : Reader) (keys' : SessionKeys Cipher)
      → keys.recv_mac_key ≡ some key
      → recv_packet crates r keys ≡ ok (p, r', keys')
      → Authentic r r' keys keys' key p
  unfolding recv_packet next_recv_seq
  recv_packet-Authentic stream mac r keys key p r' keys' hk h =
      let (b, e1, h1) = >>=-eq-ok (read_or closed_or_io r (block_size_of keys)) _ h in
      let x : List ℕ × Option (CipherPair Cipher) = decrypt_with crates keys.ciphers b.0 in
      let g =
        guard-eq-ok (ltb max_packet_size (first_u32 x.0))
          (invalid_packet (msg_num "Packet length too large: {}" (first_u32 x.0))) _ h1 in
      let (n, e2, h2) = >>=-eq-ok (remaining_of (4 + first_u32 x.0) (block_size_of keys)) _ g in
      let (q, e3, h3) = >>=-eq-ok (read_rest crates n b.1 x.1) _ h2 in
      let (r3, e4, h4) =
        >>=-eq-ok (check_mac crates keys.recv_mac_key keys.recv_seq (x.0 ++ q.0) q.1) _ h3 in
      let (p', e5, h5) = >>=-eq-ok (deserialize (x.0 ++ q.0)) _ h4 in
      let (fronts, size) = read_or-eq-ok closed_or_io r (block_size_of keys) e1 in
      let (backs, behind, plain) = read_rest-eq-ok stream n b.1 x.1 e3 in
      let tag = check_mac-some mac key keys.recv_mac_key keys.recv_seq (x.0 ++ q.0) q.1 hk e4 in
      let same = ok-injective h5 in
      let end : r3 ≡ r' = ap (λ (t : SshPacket × Reader × SessionKeys Cipher). t.1) same in
      let after : (next_recv_seq (record keys { ciphers = q.2 })).1 ≡ keys' =
        ap (λ (t : SshPacket × Reader × SessionKeys Cipher). t.2) same in
      record {
        fronts = b.0;
        backs = backs;
        plain = x.0 ++ q.0;
        taken =
            fronts
            ∙ ap (λ (l : List ℕ). b.0 ++ l)
                (behind
                  ∙ ap (λ (l : List ℕ). backs ++ l)
                      (tag
                        ∙ ap
                            (λ (t : Reader).
                              packet_mac crates key keys.recv_seq (x.0 ++ q.0) ++ t.pending)
                            end));
        block = size;
        opened = ap (λ (l : List ℕ). x.0 ++ l) plain;
        parsed = e5 ∙ ap (λ (t : SshPacket × Reader × SessionKeys Cipher). ok t.0) same;
        next = ap (λ (k : SessionKeys Cipher). k.recv_seq) (sym after);
        same_key = ap (λ (k : SessionKeys Cipher). k.recv_mac_key) (sym after) ∙ hk;
      }
