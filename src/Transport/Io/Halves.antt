-- ===== src/Transport/Io/Halves.antt =====
-- Sending leaves the receiving half of a side's keys alone, and receiving the sending half.
use swift_ssh.Prelude.{if-holds, ℕ, zero, suc, ◌≡◌, refl, Option, none, some, List, ltb}
use swift_ssh.Error.{SshResult, ok, err, panic, ◌>>=◌}
use swift_ssh.Packet.Types.{max_packet_size}
use swift_ssh.Packet.Codec.{SshPacket, serialize, deserialize}
use swift_ssh.Crypto.{Crates, CipherPair}
use swift_ssh.Session.{SessionKeys, next_send_seq, next_recv_seq}
use swift_ssh.Transport.Stream.{Reader, Writer, read_or, io_error, closed_or_io, write_all, flush}
use swift_ssh.Transport.Io.{
  block_size_of, remaining_of, encrypt_with, decrypt_with, write_mac, send_packet, check_mac,
  read_rest, recv_packet, first_u32,
}
use swift_ssh.Transport.Io.Sync.{Matched, Synced}

-- What holds of the value, if there is one.
abbrev pub OnOk {ℓ κ} : {A : Type ℓ} → (A → Type κ) → SshResult A → Type κ
OnOk P (ok a) = P a
OnOk P (err e) = Unit
OnOk P panic = Unit

bind-OnOk {ℓ κ μ} :
    {A : Type ℓ} {B : Type κ} (P : B → Type μ) (r : SshResult A) (go_on : A → SshResult B)
    → ((a : A) → r ≡ ok a → OnOk P (go_on a))
    → OnOk P (r >>= go_on)
bind-OnOk P (ok a) go_on h = h a refl
bind-OnOk P (err e) go_on h = tt
bind-OnOk P panic go_on h = tt

module _ (crates : Crates) where
  open crates use {Cipher}

  Matched-encrypt_with :
      (x c : Option (CipherPair Cipher)) (bytes : List ℕ)
      → Matched x c
      → Matched x (encrypt_with crates c bytes).1
  unfolding encrypt_with
  Matched-encrypt_with x none bytes m = m
  Matched-encrypt_with none (some p) bytes m = m
  Matched-encrypt_with (some q) (some p) bytes m = m

  Matched-decrypt_with :
      (c x : Option (CipherPair Cipher)) (bytes : List ℕ)
      → Matched c x
      → Matched (decrypt_with crates c bytes).1 x
  unfolding decrypt_with
  Matched-decrypt_with none x bytes m = m
  Matched-decrypt_with (some p) none bytes m = m
  Matched-decrypt_with (some p) (some q) bytes m = m

  -- What a side can receive it can still receive after it has sent a packet.
  pub send_packet-OnOk :
      (fill : ℕ → List ℕ) (w : Writer) (p : SshPacket) (peer keys : SessionKeys Cipher)
      → Synced peer keys
      → OnOk
          (λ (q : Writer × SessionKeys Cipher). Synced peer q.1)
          (send_packet crates fill w p keys)
  unfolding send_packet next_send_seq
  send_packet-OnOk fill w p peer keys s =
      bind-OnOk _ (serialize fill (block_size_of keys) p) _ λ bytes _.
        bind-OnOk _ (write_all w _) _ λ w1 _.
          bind-OnOk _ (write_mac crates keys.send_mac_key _ bytes w1) _ λ w2 _.
            bind-OnOk _ (flush w2) _ λ w3 _. record {
              seq = s.seq;
              mac = s.mac;
              ciphers = Matched-encrypt_with peer.ciphers keys.ciphers bytes s.ciphers;
            }

  read_rest-OnOk :
      (n : ℕ) (r : Reader) (c x : Option (CipherPair Cipher))
      → Matched c x
      → OnOk
          (λ (q : List ℕ × Reader × Option (CipherPair Cipher)). Matched q.2 x)
          (read_rest crates n r c)
  unfolding read_rest
  read_rest-OnOk zero r c x m = m
  read_rest-OnOk (suc n) r c x m =
      bind-OnOk _ (read_or io_error r (suc n)) _ λ q _. Matched-decrypt_with c x q.0 m

  -- What a side sends it can still send after it has received a packet.
  pub recv_packet-OnOk :
      (r : Reader) (keys peer : SessionKeys Cipher)
      → Synced keys peer
      → OnOk
          (λ (q : SshPacket × Reader × SessionKeys Cipher). Synced q.2 peer)
          (recv_packet crates r keys)
  unfolding recv_packet next_recv_seq
  recv_packet-OnOk r keys peer s =
      bind-OnOk _ (read_or closed_or_io r (block_size_of keys)) _ λ q _.
        if-holds (OnOk _) (ltb max_packet_size (first_u32 (decrypt_with crates keys.ciphers q.0).0))
          (λ _. tt)
          λ _. bind-OnOk _ (remaining_of _ (block_size_of keys)) _ λ n _.
            bind-OnOk _ (read_rest crates n q.1 (decrypt_with crates keys.ciphers q.0).1) _
              λ rest e. bind-OnOk _ (check_mac crates _ _ _ rest.1) _ λ r3 _.
                bind-OnOk _ (deserialize _) _ λ p _. record {
                  seq = s.seq;
                  mac = s.mac;
                  ciphers = rw e at (
                      read_rest-OnOk n q.1 _ peer.ciphers
                        (Matched-decrypt_with keys.ciphers peer.ciphers q.0 s.ciphers));
                }
