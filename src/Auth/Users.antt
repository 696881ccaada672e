-- ===== src/Auth/Users.antt =====
-- The user database: who is let in.
use swift_ssh.Prelude.{
  ℕ, ◌≡◌, refl, false, Option, none, some, List, [], ◌∷◌, ◌++◌, ◌||◌, bytes_eq, bytes_eq_iff,
  if◌then◌else◌, arith,
}
use swift_ssh.HashMap.{bytes_key, get, get-insert}
use swift_ssh.Auth.{
  UserDatabase, add_password_user, add_public_key, verify_password, is_key_authorized, any_key,
  or_default, authorizes,
}

-- After `add_password_user` that user is verified by exactly the new password; every other user as
-- before, and no key of anyone is touched.
pub verify_password-add_password_user :
    (db : UserDatabase) (u p v q k : List ℕ)
    → (verify_password (add_password_user db u p) v q
        ≡ (if bytes_eq v u then bytes_eq p q else verify_password db v q))
      × (is_key_authorized (add_password_user db u p) v k ≡ is_key_authorized db v k)
unfolding verify_password add_password_user is_key_authorized
verify_password-add_password_user db u p v q k =
    (rw (get-insert u v p db.passwords) (ground arith), refl)

any_key-append :
    (keys : List (List ℕ)) (k key : List ℕ)
    → any_key (keys ++ (k ∷ [])) key ≡ any_key keys key || bytes_eq k key
any_key-append [] k key = ground arith
any_key-append (x ∷ keys) k key = ground (arith, any_key-append keys k key)

authorizes_push :
    (o : Option (List (List ℕ))) (k key : List ℕ)
    → any_key (or_default o ++ (k ∷ [])) key ≡ authorizes o key || bytes_eq k key
authorizes_push none k key = ground arith
authorizes_push (some keys) k key = any_key-append keys k key

-- After `add_public_key` that user is authorized by the new key and by the keys of before; every
-- other user as before, and no password of anyone is touched.
pub is_key_authorized-add_public_key :
    (db : UserDatabase) (u k v key q : List ℕ)
    → (is_key_authorized (add_public_key db u k) v key ≡ (
        if bytes_eq v u
        then is_key_authorized db v key || bytes_eq k key
        else is_key_authorized db v key))
      × (verify_password (add_public_key db u k) v q ≡ verify_password db v q)
unfolding is_key_authorized add_public_key verify_password
is_key_authorized-add_public_key db u k v key q = (
  rw get-insert (ground (arith, authorizes_push (get u db.public_keys) k key, bytes_eq_iff v u)),
  refl,
)

-- An unknown user is let in by nothing.
pub unknown_user :
    (db : UserDatabase) (u p k : List ℕ)
    → get u db.passwords ≡ none
    → get u db.public_keys ≡ none
    → (verify_password db u p ≡ false) × (is_key_authorized db u k ≡ false)
unfolding verify_password is_key_authorized
unknown_user db u p k hp hk = (rw hp, rw hk)
