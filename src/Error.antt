-- ===== src/Error.antt =====
-- src/error/mod.rs: the error type of every fallible operation, and `SshResult`.
-- `panic` is the outcome of an operation that aborts the task: a `Vec` larger than memory allows.
use swift_ssh.Prelude.{ℕ, String, List, ◌≡◌, ◌≢◌, refl, Option, none, some}

-- `std::io::ErrorKind`, as far as the code tells the kinds apart.
pub data IoError : Type 0 where
  unexpected_eof : IoError
  other : IoError

-- An error's text: a literal, or a format with the number or the text that it shows.
pub data Message : Type 0 where
  msg : String → Message
  msg_num : String → ℕ → Message
  msg_text : String → List ℕ → Message

pub data SshError : Type 0 where
  io : IoError → SshError
  protocol key_exchange auth_failed channel sftp encryption decryption : Message → SshError
  mac_mismatch : SshError
  invalid_packet : Message → SshError
  unexpected_message : ℕ → SshError
  connection_closed timeout : SshError
  unsupported_algorithm : Message → SshError

pub data SshResult {ℓ} (A : Type ℓ) : Type ℓ where
  ok : A → SshResult A
  err : SshError → SshResult A
  panic : SshResult A

-- `?`
infixl 5 ◌>>=◌
abbrev pub ◌>>=◌ {ℓ κ} : {A : Type ℓ} {B : Type κ} → SshResult A → (A → SshResult B) → SshResult B
ok a >>= f = f a
err e >>= f = err e
panic >>= f = panic

pub ok-injective {ℓ} : {A : Type ℓ} {a b : A} → ok a ≡ ok b → a ≡ b
ok-injective h = cc

module _ {ℓ κ} {A : Type ℓ} {B : Type κ} where
  -- A chain that ends in a value has passed through a value.
  pub >>=-eq-ok :
      (first : SshResult A) (then_do : A → SshResult B) {r : B}
      → (first >>= then_do) ≡ ok r
      → (passed : A) × (first ≡ ok passed) × (then_do passed ≡ ok r)
  >>=-eq-ok panic then_do q = cc
  >>=-eq-ok (err e) then_do q = cc
  >>=-eq-ok (ok passed) then_do q = (passed, refl, q)

  -- What does not panic, and goes on with what does not panic, does not panic.
  pub >>=-ne-panic :
      (first : SshResult A) (then_do : A → SshResult B)
      → first ≢ panic
      → ((a : A) → then_do a ≢ panic)
      → (first >>= then_do) ≢ panic
  >>=-ne-panic panic then_do calm goes_on = λ q. calm refl
  >>=-ne-panic (err e) then_do calm goes_on = λ q. cc
  >>=-ne-panic (ok a) then_do calm goes_on = goes_on a

-- `ok_or`, and `map_err` of a read that the standard library may refuse
abbrev pub ok_or {ℓ} : {A : Type ℓ} → Option A → SshError → SshResult A
ok_or (some a) e = ok a
ok_or none e = err e
