-- ===== src/Auth/Examples.antt =====
-- The authentication theorems at small inputs.
use swift_ssh.Prelude.{
  ℕ, ◌≡◌, refl, ◌||◌, bytes_eq, if◌then◌else◌, some, List, [], ◌∷◌, ◌++◌, ascii, arith,
}
use swift_ssh.Error.{ok}
use swift_ssh.HashMap.{bytes_key}
use swift_ssh.Packet.Utf8.{is_utf8}
use swift_ssh.Auth.{
  password, public_key, new_database, add_password_user, add_public_key, verify_password,
  is_key_authorized, build_password_auth_request, build_pubkey_auth_request, parse,
}
use swift_ssh.Auth.Users.{verify_password-add_password_user, is_key_authorized-add_public_key}
use swift_ssh.Auth.Requests.{
  IsText, parse-build_password_auth_request, parse-build_pubkey_auth_request,
}

abbrev alice : List ℕ
alice = ascii "alice"

abbrev connection : List ℕ
connection = ascii "ssh-connection"

alice-IsText : IsText alice
unfolding is_utf8
alice-IsText = record { text = refl; fits = omega arith }

connection-IsText : IsText connection
unfolding is_utf8
connection-IsText = record { text = refl; fits = omega arith }

none-IsText : IsText (ascii "none")
unfolding is_utf8
none-IsText = record { text = refl; fits = omega arith }

ed25519-IsText : IsText (ascii "ssh-ed25519")
unfolding is_utf8
ed25519-IsText = record { text = refl; fits = omega arith }

verify_password-add_password_user_example :
    (verify_password (add_password_user new_database alice (ascii "secret")) alice (ascii "guess")
      ≡ (if bytes_eq alice alice
          then bytes_eq (ascii "secret") (ascii "guess")
          else verify_password new_database alice (ascii "guess")))
    × (is_key_authorized (add_password_user new_database alice (ascii "secret")) alice (1 ∷ [])
        ≡ is_key_authorized new_database alice (1 ∷ []))
verify_password-add_password_user_example =
    verify_password-add_password_user new_database alice (ascii "secret") alice (ascii "guess")
      (1 ∷ [])

is_key_authorized-add_public_key_example :
    (is_key_authorized (add_public_key new_database alice (1 ∷ 2 ∷ [])) alice (1 ∷ []) ≡ (
      if bytes_eq alice alice
      then is_key_authorized new_database alice (1 ∷ []) || bytes_eq (1 ∷ 2 ∷ []) (1 ∷ [])
      else is_key_authorized new_database alice (1 ∷ [])))
    × (verify_password (add_public_key new_database alice (1 ∷ 2 ∷ [])) alice (ascii "guess")
        ≡ verify_password new_database alice (ascii "guess"))
is_key_authorized-add_public_key_example =
    is_key_authorized-add_public_key new_database alice (1 ∷ 2 ∷ []) alice (1 ∷ []) (ascii "guess")

parse-build_password_auth_request_example :
    parse ((build_password_auth_request alice connection (ascii "none")).payload ++ [])
    ≡ ok (record {
      username = alice;
      service = connection;
      method = ascii "password";
      credential = password (ascii "none");
    })
parse-build_password_auth_request_example =
    parse-build_password_auth_request alice connection (ascii "none") [] alice-IsText
      connection-IsText none-IsText

parse-build_pubkey_auth_request_example :
    parse (
      (build_pubkey_auth_request alice connection
        (ascii "ssh-ed25519")
        (1 ∷ 2 ∷ [])
        (some (9 ∷ []))).payload
      ++ [])
    ≡ ok (record {
      username = alice;
      service = connection;
      method = ascii "publickey";
      credential = public_key (ascii "ssh-ed25519") (1 ∷ 2 ∷ []) (some (9 ∷ []));
    })
parse-build_pubkey_auth_request_example =
    parse-build_pubkey_auth_request alice connection (ascii "ssh-ed25519") (1 ∷ 2 ∷ [])
      (some (9 ∷ [])) [] alice-IsText connection-IsText ed25519-IsText (omega arith) (omega arith)
