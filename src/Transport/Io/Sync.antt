-- ===== src/Transport/Io/Sync.antt =====
-- When the sending half of one side and the receiving half of the other are in step, and that
-- encryption and decryption keep them so.
use swift_ssh.Prelude.{ℕ, ◌≡◌, refl, Option, none, some, List, ◌++◌, length, AreBytes}
use swift_ssh.Crypto.{Crates, CipherPair, apply}
use swift_ssh.Crypto.Laws.{IsStreamCipher}
use swift_ssh.Crypto.Stream.{length-apply, apply-append, apply_twice}
use swift_ssh.Session.{SessionKeys}
use swift_ssh.Transport.Io.{encrypt_with, decrypt_with}

-- One side's encryption has the state of the other side's decryption.
abbrev pub Matched : {C : Type 0} → Option (CipherPair C) → Option (CipherPair C) → Type 0
Matched none none = Unit
Matched none (some q) = ⊥
Matched (some p) none = ⊥
Matched (some p) (some q) = p.encrypt ≡ q.decrypt

-- What one side sends the other can receive: same sequence number, MAC key and cipher state.
pub record Synced {C : Type 0} (sender receiver : SessionKeys C) : Type 0 where
  pub seq : sender.send_seq ≡ receiver.recv_seq
  pub mac : sender.send_mac_key ≡ receiver.recv_mac_key
  pub ciphers : Matched sender.ciphers receiver.ciphers

module _ (crates : Crates) where
  open crates use {Cipher}

  -- The two pieces of a message on the wire, and the ciphers on both sides behind it.
  pub record Sealed (a b : Option (CipherPair Cipher)) (xs ys : List ℕ) : Type 0 where
    pub front : List ℕ
    pub back : List ℕ
    pub sender : Option (CipherPair Cipher)
    pub middle : Option (CipherPair Cipher)
    pub receiver : Option (CipherPair Cipher)
    pub encrypted : encrypt_with crates a (xs ++ ys) ≡ (front ++ back, sender)
    pub length-front : length front ≡ length xs
    pub length-back : length back ≡ length ys
    pub decrypted-front : decrypt_with crates b front ≡ (xs, middle)
    pub decrypted-back : decrypt_with crates middle back ≡ (ys, receiver)
    pub matched : Matched sender receiver

  module _ (laws : IsStreamCipher crates) where
    -- The receiver gets back both pieces, cut where it cuts them, and the ciphers match again.
    pub seal :
        (a b : Option (CipherPair Cipher)) (xs ys : List ℕ)
        → Matched a b
        → AreBytes xs
        → AreBytes ys
        → Sealed a b xs ys
    unfolding encrypt_with decrypt_with
    seal none none xs ys m hx hy = record {
      front = xs;
      back = ys;
      sender = none;
      middle = none;
      receiver = none;
      encrypted = refl;
      length-front = refl;
      length-back = refl;
      decrypted-front = refl;
      decrypted-back = refl;
      matched = tt;
    }
    seal none (some q) xs ys m hx hy = elim m [ ]
    seal (some p) none xs ys m hx hy = elim m [ ]
    seal (some p) (some q) xs ys m hx hy = record {
      front = (apply crates p.encrypt xs).0;
      back = (apply crates c1 ys).0;
      sender = some (record p { encrypt = c2 });
      middle = some (record q { decrypt = c1 });
      receiver = some (record q { decrypt = c2 });
      encrypted = rw (apply-append crates laws p.encrypt xs ys);
      length-front = length-apply crates laws p.encrypt xs;
      length-back = length-apply crates laws c1 ys;
      decrypted-front = rw (← m, apply_twice crates laws p.encrypt xs hx);
      decrypted-back = rw (apply_twice crates laws c1 ys hy);
      matched = refl;
    }
      where
        c1 : Cipher
        c1 = (apply crates p.encrypt xs).1

        c2 : Cipher
        c2 = (apply crates c1 ys).1
