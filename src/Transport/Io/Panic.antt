-- ===== src/Transport/Io/Panic.antt =====
-- When `recv_packet` panics.
use swift_ssh.Prelude.{
  ℕ, zero, suc, ◌+◌, ◌-◌, ◌≤◌, ◌<◌, ◌≡◌, ◌≢◌, ◌↔◌, refl, Bool-cases, inl, inr, Option, none, some,
  List, [], ◌++◌, length, ltb, ltb→lt, lt→ltb, ltb_false→le, ge→ltb, arith,
}
use swift_ssh.Error.{IoError, ok, panic, >>=-ne-panic}
use swift_ssh.Packet.Types.{max_packet_size}
use swift_ssh.Packet.Codec.{deserialize}
use swift_ssh.Crypto.{Crates, CipherPair, verify_hmac}
use swift_ssh.Session.{SessionKeys}
use swift_ssh.Transport.Stream.{Reader, read_or, io_error, closed_or_io}
use swift_ssh.Transport.Io.{
  block_size_of, first_u32, decrypt_with, check_mac, remaining_of, read_rest, recv_packet,
  write_u32_be,
}
use swift_ssh.Transport.Io.Cut.{block_size_cases}
use swift_ssh.Transport.Io.Receive.{reader, read_or-append}
use swift_ssh.Transport.Io.Reads.{read_or-ne-panic, deserialize-ne-panic}

module _ (crates : Crates) where
  open crates use {Cipher}

  check_mac-ne-panic :
      (mk : Option (List ℕ)) (seq : ℕ) (bytes : List ℕ) (r : Reader)
      → check_mac crates mk seq bytes r ≢ panic
  unfolding check_mac verify_hmac
  check_mac-ne-panic none seq bytes r = λ h. cc
  check_mac-ne-panic (some key) seq bytes r =
      >>=-ne-panic (read_or io_error r 32) _ (read_or-ne-panic io_error r 32)
        (λ (b : List ℕ × Reader).
          elim (Bool-cases (crates.verify_slice key (write_u32_be [] seq ++ bytes) b.0)) [
            | inl e ↦ rw e (λ h. cc)
            | inr e ↦ rw e (λ h. cc)
          ])

  read_rest-ne-panic :
      (n : ℕ) (r : Reader) (c : Option (CipherPair Cipher)) → read_rest crates n r c ≢ panic
  unfolding read_rest
  read_rest-ne-panic zero r c = λ h. cc
  read_rest-ne-panic (suc n) r c =
      >>=-ne-panic (read_or io_error r (suc n)) _ (read_or-ne-panic io_error r (suc n)) (λ b h. cc)

  module _ (fronts rest : List ℕ) (e : IoError) (keys : SessionKeys Cipher)
      (h : length fronts ≡ block_size_of keys) where
    announced : ℕ
    announced = first_u32 (decrypt_with crates keys.ciphers fronts).0

    panics :
        4 + announced < block_size_of keys
        → recv_packet crates (reader (fronts ++ rest) e) keys ≡ panic
    unfolding recv_packet announced
    panics short =
        rw
          (
            read_or-append closed_or_io (block_size_of keys) fronts rest e h,
            ge→ltb max_packet_size announced (omega (arith, block_size_cases keys)),
            below,
          )
          refl
      where
        below : remaining_of (4 + announced) (block_size_of keys) ≡ panic
        below = unfold remaining_of in rw (lt→ltb _ _ short)

    returns :
        block_size_of keys ≤ 4 + announced
        → recv_packet crates (reader (fronts ++ rest) e) keys ≢ panic
    unfolding recv_packet announced
    returns long = elim (Bool-cases (ltb max_packet_size announced)) [
      | inl large ↦
          rw (read_or-append closed_or_io (block_size_of keys) fronts rest e h, large) (λ q. cc)
      | inr small ↦
          rw (read_or-append closed_or_io (block_size_of keys) fronts rest e h, small, above)
            (>>=-ne-panic (read_rest crates _ _ _) _ (read_rest-ne-panic _ _ _) (λ a.
              >>=-ne-panic (check_mac crates _ _ _ _) _ (check_mac-ne-panic _ _ _ _)
                (λ b. >>=-ne-panic (deserialize _) _ (deserialize-ne-panic _) (λ c q. cc))))
    ]
      where
        above :
            remaining_of (4 + announced) (block_size_of keys)
            ≡ ok (4 + announced - block_size_of keys)
        above = unfold remaining_of in rw (ge→ltb _ _ long)

  -- `recv_packet` panics exactly when the first block is there and announces a packet that is
  -- shorter than the block that has been read: the subtraction of the two sizes is below zero.
  pub recv_packet_panic_iff :
      (fronts rest : List ℕ) (e : IoError) (keys : SessionKeys Cipher)
      → length fronts ≡ block_size_of keys
      → (recv_packet crates (reader (fronts ++ rest) e) keys ≡ panic)
        ↔ (4 + first_u32 (decrypt_with crates keys.ciphers fronts).0 < block_size_of keys)
  unfolding announced
  recv_packet_panic_iff fronts rest e keys h = (
    λ q. elim (Bool-cases (ltb (4 + announced fronts rest e keys h) (block_size_of keys))) [
      | inl short ↦ ltb→lt _ _ short
      | inr long ↦ absurd (returns fronts rest e keys h (ltb_false→le _ _ long) q)
    ],
    panics fronts rest e keys h,
  )
