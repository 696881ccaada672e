-- ===== src/Transport/Io/Reads.antt =====
-- Reads of a packet's bytes, where they succeed and that they do not panic.
use swift_ssh.Prelude.{
  ℕ, ◌≡◌, ◌≢◌, sym, ap, ◌∙◌, Bool, true, false, Bool-cases, inl, inr, List, ◌++◌, length, take,
  drop, take-append-drop, length-take_of_le, leb, if◌then◌else◌, arith,
}
use swift_ssh.Error.{IoError, SshError, SshResult, ok, err, panic, ok-injective}
use swift_ssh.Packet.Codec.{deserialize}
use swift_ssh.Packet.Codec.Frames.{Answers, deserialize-Answers}
use swift_ssh.Transport.Stream.{Reader, take_exact, read_or}

-- What was read stood in front, and as many bytes as asked for.
read_or_enough :
    (f : IoError → SshError) (r : Reader) (n : ℕ)
    → leb n (length r.pending) ≡ true
    → read_or f r n ≡ ok (take n r.pending, record r { pending = drop n r.pending })
unfolding read_or take_exact
read_or_enough f r n e = ground (arith)

read_or_short :
    (f : IoError → SshError) (r : Reader) (n : ℕ)
    → leb n (length r.pending) ≡ false
    → read_or f r n ≡ err (f r.ending)
unfolding read_or take_exact
read_or_short f r n e = ground (arith)

pub read_or-eq-ok :
    (f : IoError → SshError) (r : Reader) (n : ℕ) {xs : List ℕ} {r' : Reader}
    → read_or f r n ≡ ok (xs, r')
    → (r.pending ≡ xs ++ r'.pending) × (length xs ≡ n)
read_or-eq-ok f r n {xs} {r'} h = elim (Bool-cases (leb n (length r.pending))) [
  | inl e ↦
      let same = ok-injective (sym (read_or_enough f r n e) ∙ h) in
      let front : take n r.pending ≡ xs = ap (λ (q : List ℕ × Reader). q.0) same in
      let back : drop n r.pending ≡ r'.pending = ap (λ (q : List ℕ × Reader). q.1.pending) same in
      (
        rw (← front, ← back) (sym (take-append-drop n r.pending)),
        rw (← front) (length-take_of_le n r.pending (ground arith)),
      )
  | inr e ↦ absurd (cc (read_or_short f r n e, h))
]

pub read_or-ne-panic : (f : IoError → SshError) (r : Reader) (n : ℕ) → read_or f r n ≢ panic
read_or-ne-panic f r n = elim (Bool-cases (leb n (length r.pending))) [
  | inl e ↦ rw (read_or_enough f r n e) (λ h. cc)
  | inr e ↦ rw (read_or_short f r n e) (λ h. cc)
]

pub deserialize-ne-panic : (bytes : List ℕ) → deserialize bytes ≢ panic
unfolding Answers
deserialize-ne-panic bytes h = rw h at (deserialize-Answers bytes)

-- Past a test that refuses.
pub guard-eq-ok :
    (c : Bool) (e : SshError) {A : Type 0} (m : SshResult A) {a : A}
    → (if c then err e else m) ≡ ok a
    → m ≡ ok a
guard-eq-ok true e m h = cc
guard-eq-ok false e m h = h
