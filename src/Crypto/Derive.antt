-- ===== src/Crypto/Derive.antt =====
-- Key derivation: the integer that is hashed, and the length and the content of a derived key.
use swift_ssh.Prelude.{
  ℕ, zero, suc, ◌+◌, ◌*◌, ◌≤◌, ◌≡◌, refl, sym, ap, ◌∙◌, List, [], ◌∷◌, ◌++◌, length, length-append,
  take, length-take_of_le, ltb, ltb_false→le, Bool-cases, false, ◌==◌, inl, inr, arith,
}
use swift_ssh.Packet.Buf.{stripped, write_mpint}
use swift_ssh.Crypto.{Crates, encode_mpint_for_hash, extend, derive_key}
use swift_ssh.Crypto.Laws.{IsHash}
use native.Mathlib.Nat.{zero-add, suc-add}

stripped_nonempty : (val : List ℕ) → (length (stripped val) == 0) ≡ false
unfolding stripped
stripped_nonempty [] = refl
stripped_nonempty (b ∷ bs) = ground (arith, stripped_nonempty bs)

-- The mpint that is hashed for the keys is the one that goes on the wire (and into the exchange
-- hash): the extra test for an empty integer never fires.
pub encode_mpint_for_hash-write_mpint :
    (val : List ℕ) → encode_mpint_for_hash val ≡ write_mpint [] val
unfolding encode_mpint_for_hash write_mpint
encode_mpint_for_hash-write_mpint val = rw (stripped_nonempty val)

take-append_of_le : (n : ℕ) (xs ys : List ℕ) → n ≤ length xs → take n (xs ++ ys) ≡ take n xs
take-append_of_le zero xs ys h = refl
take-append_of_le (suc n) [] ys h = absurd (omega arith)
take-append_of_le (suc n) (x ∷ xs) ys h = ap (◌∷◌ x) (take-append_of_le n xs ys (omega arith))

module _ (crates : Crates) (front first : List ℕ) where
  -- RFC 4253, section 7.2: K1, K1 || K2, K1 || K2 || K3, ..., with K(n+1) = HASH(K || H || K1 || ... || Kn).
  unfoldable pub rounds : ℕ → List ℕ
  rounds zero = first
  rounds (suc n) = rounds n ++ crates.sha256 (front ++ rounds n)

module _ (crates : Crates) (hash : IsHash crates) (front first : List ℕ)
    (one : length first ≡ 32) where
  length-rounds : (n : ℕ) → length (rounds crates front first n) ≡ 32 * suc n
  unfolding rounds
  length-rounds zero = rw one
  length-rounds (suc n) = omega (
    arith,
    length-append (rounds crates front first n)
        (crates.sha256 (front ++ rounds crates front first n)),
    length-rounds n,
    hash.length-sha256 (front ++ rounds crates front first n),
  )

  -- Once there are enough rounds, more of them change nothing.
  take-rounds :
      (needed n m : ℕ)
      → needed ≤ 32 * suc n
      → take needed (rounds crates front first (m + n)) ≡ take needed (rounds crates front first n)
  unfolding rounds
  take-rounds needed n zero h = rw zero-add
  take-rounds needed n (suc m) h = rw suc-add (
      take-append_of_le needed (rounds crates front first (m + n)) _
        (omega (arith, length-rounds (m + n)))
      ∙ take-rounds needed n m h)

  take-extend :
      (fuel needed n : ℕ)
      → needed ≤ 32 * (suc n + fuel)
      → take needed (extend crates fuel front needed (rounds crates front first n))
        ≡ take needed (rounds crates front first (fuel + n))
  unfolding extend rounds
  take-extend zero needed n h = rw zero-add
  take-extend (suc fuel) needed n h =
      elim (Bool-cases (ltb (length (rounds crates front first n)) needed)) [
        | inl more ↦
            let e : fuel + suc n ≡ suc fuel + n = omega arith in
            rw more (
              take-extend fuel needed (suc n) (omega arith)
              ∙ ap (λ (k : ℕ). take needed (rounds crates front first k)) e)
        | inr enough ↦ rw enough (
            sym (
              take-rounds needed n (suc fuel)
                (omega (arith, ltb_false→le _ _ enough, length-rounds n))))
      ]

  -- Any number of rounds that yields enough bytes yields the same ones.
  take-rounds_any :
      (needed n m : ℕ)
      → needed ≤ 32 * suc n
      → needed ≤ 32 * suc m
      → take needed (rounds crates front first n) ≡ take needed (rounds crates front first m)
  take-rounds_any needed n m hn hm =
      sym (take-rounds needed n m hn)
      ∙ ap (λ (k : ℕ). take needed (rounds crates front first k)) (omega arith)
      ∙ take-rounds needed m n hm

-- K || H, and K1 = HASH(K || H || X || session_id).
abbrev pub key_front : List ℕ → List ℕ → List ℕ
key_front shared_secret exchange_hash = write_mpint [] shared_secret ++ exchange_hash

abbrev pub key_first : Crates → List ℕ → List ℕ → ℕ → List ℕ → List ℕ
key_first crates shared_secret exchange_hash key_char session_id =
    crates.sha256 (write_mpint [] shared_secret ++ (exchange_hash ++ (key_char ∷ session_id)))

-- `derive_key` returns the first `needed` bytes of K1 || K2 || ... of RFC 4253, section 7.2, as far
-- as rounds are needed for that and for any more of them; its loop ends by its test.
pub derive_key-rounds :
    (crates : Crates) (hash : IsHash crates) (shared_secret exchange_hash : List ℕ) (key_char : ℕ)
    (session_id : List ℕ) (needed n : ℕ)
    → needed ≤ 32 * suc n
    → derive_key crates shared_secret exchange_hash key_char session_id needed
      ≡ take needed (
          rounds crates
            (key_front shared_secret exchange_hash)
            (key_first crates shared_secret exchange_hash key_char session_id)
            n)
unfolding derive_key rounds
derive_key-rounds crates hash shared_secret exchange_hash key_char session_id needed n h =
    rw encode_mpint_for_hash-write_mpint (
      take-extend crates hash front first one needed needed 0 (omega arith)
      ∙ take-rounds_any crates hash front first one needed (needed + 0) n (omega arith) h)
  where
    front : List ℕ
    front = write_mpint [] shared_secret ++ exchange_hash

    first : List ℕ
    first = key_first crates shared_secret exchange_hash key_char session_id

    one : length first ≡ 32
    one = hash.length-sha256 _

-- A derived key has the length that was asked for.
pub length-derive_key :
    (crates : Crates) (hash : IsHash crates) (shared_secret exchange_hash : List ℕ) (key_char : ℕ)
    (session_id : List ℕ) (needed : ℕ)
    → length (derive_key crates shared_secret exchange_hash key_char session_id needed) ≡ needed
length-derive_key crates hash shared_secret exchange_hash key_char session_id needed =
    rw
      (derive_key-rounds crates hash shared_secret exchange_hash key_char session_id needed needed
        (omega arith))
      (length-take_of_le needed _ (
        omega (
          arith,
          length-rounds crates hash (key_front shared_secret exchange_hash)
              (key_first crates shared_secret exchange_hash key_char session_id)
              (hash.length-sha256 _) needed,
        )))
