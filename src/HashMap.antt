-- ===== src/HashMap.antt =====
-- `std::collections::HashMap`, as a list of entries. The order in which the entries are visited,
-- which Rust leaves open, is that of the list.
use swift_ssh.Prelude.{
  ℕ, suc, ◌≡◌, ◌≢◌, ◌↔◌, refl, Bool, true, Option, none, some, List, [], ◌∷◌, if◌then◌else◌,
  ◌==◌ as nat_eq, ==_iff, bytes_eq, bytes_eq_iff, arith,
}

-- What a key type brings: a test that tells its values apart.
pub record Key {ℓ} (K : Type ℓ) : Type ℓ where
  pub same_key : K → K → Bool
  pub same_key_iff : (j k : K) → (same_key j k ≡ true) ↔ (j ≡ k)

instance abbrev pub nat_key : Key ℕ
nat_key = record { same_key = nat_eq; same_key_iff = ==_iff }

instance abbrev pub bytes_key : Key (List ℕ)
bytes_key = record { same_key = bytes_eq; same_key_iff = bytes_eq_iff }

abbrev pub HashMap {ℓ κ} : Type ℓ → Type κ → Type (ℓ ⊔ κ)
HashMap K V = List (K × V)

module _ {ℓ κ} {K : Type ℓ} {V : Type κ} where
  -- `values().find(p)`
  unfoldable pub find_value : (V → Bool) → HashMap K V → Option V
  find_value p [] = none
  find_value p ((j, w) ∷ m) = if p w then some w else find_value p m

  -- `values().filter(p).count()`
  unfoldable pub count_values : (V → Bool) → HashMap K V → ℕ
  count_values p [] = 0
  count_values p ((j, w) ∷ m) = if p w then suc (count_values p m) else count_values p m

module _ {ℓ κ} {K : Type ℓ} {V : Type κ} ⦃e : Key K⦄ where
  unfoldable pub get : K → HashMap K V → Option V
  get k [] = none
  get k ((j, v) ∷ m) = if e.same_key k j then some v else get k m

  -- a value replaced in place (also what is written through `get_mut`), or a new entry
  unfoldable pub insert : K → V → HashMap K V → HashMap K V
  insert k v [] = (k, v) ∷ []
  insert k v ((j, w) ∷ m) = if e.same_key k j then (j, v) ∷ m else (j, w) ∷ insert k v m

  unfoldable pub remove : K → HashMap K V → HashMap K V
  remove k [] = []
  remove k ((j, w) ∷ m) = if e.same_key k j then remove k m else (j, w) ∷ remove k m

  pub get-insert :
      (k j : K) (v : V) (m : HashMap K V)
      → get j (insert k v m) ≡ (if e.same_key j k then some v else get j m)
  unfolding get insert
  get-insert k j v [] = refl
  get-insert k j v ((i, w) ∷ m) =
      ground (arith, e.same_key_iff k i, e.same_key_iff j k, e.same_key_iff j i, get-insert k j v m)

  pub get-remove :
      (k j : K) (m : HashMap K V) → get j (remove k m) ≡ (if e.same_key j k then none else get j m)
  unfolding get remove
  get-remove k j [] = ground arith
  get-remove k j ((i, w) ∷ m) =
      ground (arith, e.same_key_iff k i, e.same_key_iff j k, e.same_key_iff j i, get-remove k j m)

  pub get-insert_self : (k : K) (v : V) (m : HashMap K V) → get k (insert k v m) ≡ some v
  get-insert_self k v m = ground (arith, get-insert k k v m, e.same_key_iff k k)

  pub get-insert_ne : (k j : K) (v : V) (m : HashMap K V) → j ≢ k → get j (insert k v m) ≡ get j m
  get-insert_ne k j v m h = ground (arith, get-insert k j v m, e.same_key_iff j k)
