-- ===== src/Auth.antt =====
-- src/auth/mod.rs: the user database and the authentication messages.
pub mod Users
pub mod Requests
pub mod Examples
use swift_ssh.Prelude.{
  is_some, ℕ, Bool, true, false, Option, none, some, List, [], ◌∷◌, ◌++◌, ascii, bytes_eq, ◌||◌,
  if◌then◌else◌,
}
use swift_ssh.Error.{SshResult, ok, err, auth_failed, msg_text, ◌>>=◌}
use swift_ssh.HashMap.{HashMap, bytes_key, get, insert}
use swift_ssh.Packet.Types.{
  MessageType, user_auth_request, user_auth_failure, user_auth_success, service_request,
  service_accept,
}
use swift_ssh.Packet.Buf.{
  write_string, write_utf8, write_bool, write_name_list, read_string, read_utf8, read_bool,
}
use swift_ssh.Packet.Codec.{SshPacket, new}

pub data Credential : Type 0 where
  password : List ℕ → Credential
  public_key : List ℕ → List ℕ → Option (List ℕ) → Credential

pub record UserDatabase : Type 0 where
  pub passwords : HashMap (List ℕ) (List ℕ)
  pub public_keys : HashMap (List ℕ) (List (List ℕ))

-- `UserDatabase::new`
unfoldable pub new_database : UserDatabase
new_database = record { passwords = []; public_keys = [] }

unfoldable pub add_password_user : UserDatabase → List ℕ → List ℕ → UserDatabase
add_password_user db username pass = record db { passwords = insert username pass db.passwords }

-- `entry(..).or_default()`
abbrev or_default : Option (List (List ℕ)) → List (List ℕ)
or_default none = []
or_default (some keys) = keys

unfoldable pub add_public_key : UserDatabase → List ℕ → List ℕ → UserDatabase
add_public_key db username key_blob = record db {
  public_keys =
      insert username (or_default (get username db.public_keys) ++ (key_blob ∷ [])) db.public_keys;
}

-- `.map(|p| p == password).unwrap_or(false)`
abbrev matches : Option (List ℕ) → List ℕ → Bool
matches none pass = false
matches (some p) pass = bytes_eq p pass

unfoldable pub verify_password : UserDatabase → List ℕ → List ℕ → Bool
verify_password db username pass = matches (get username db.passwords) pass

-- `keys.iter().any(|k| k == key_blob)`
abbrev pub any_key : List (List ℕ) → List ℕ → Bool
any_key [] key_blob = false
any_key (k ∷ keys) key_blob = bytes_eq k key_blob || any_key keys key_blob

abbrev authorizes : Option (List (List ℕ)) → List ℕ → Bool
authorizes none key_blob = false
authorizes (some keys) key_blob = any_key keys key_blob

unfoldable pub is_key_authorized : UserDatabase → List ℕ → List ℕ → Bool
is_key_authorized db username key_blob = authorizes (get username db.public_keys) key_blob

unfoldable pub build_password_auth_request : List ℕ → List ℕ → List ℕ → SshPacket
unfolding new
build_password_auth_request username service pass =
    let p1 = write_utf8 [] username in
    let p2 = write_utf8 p1 service in
    let p3 = write_utf8 p2 (ascii "password") in
    let p4 = write_bool p3 false in let p5 = write_utf8 p4 pass in new user_auth_request p5

-- `if let Some(sig) = signature { .. }`
unfoldable pub write_signature : List ℕ → Option (List ℕ) → List ℕ
write_signature buf none = buf
write_signature buf (some sig) = write_string buf sig

unfoldable pub build_pubkey_auth_request :
    List ℕ → List ℕ → List ℕ → List ℕ → Option (List ℕ) → SshPacket
unfolding new
build_pubkey_auth_request username service algorithm key_blob signature =
    let p1 = write_utf8 [] username in
    let p2 = write_utf8 p1 service in
    let p3 = write_utf8 p2 (ascii "publickey") in
    let p4 = write_bool p3 (is_some signature) in
    let p5 = write_utf8 p4 algorithm in
    let p6 = write_string p5 key_blob in new user_auth_request (write_signature p6 signature)

unfoldable pub build_auth_failure : List (List ℕ) → Bool → SshPacket
unfolding new
build_auth_failure methods partial_success =
    let p1 = write_name_list [] methods in
    let p2 = write_bool p1 partial_success in new user_auth_failure p2

unfoldable pub build_auth_success : SshPacket
unfolding new
build_auth_success = new user_auth_success []

unfoldable pub build_service_request : List ℕ → SshPacket
unfolding new
build_service_request service_name = new service_request (write_utf8 [] service_name)

unfoldable pub build_service_accept : List ℕ → SshPacket
unfolding new
build_service_accept service_name = new service_accept (write_utf8 [] service_name)

pub record AuthRequest : Type 0 where
  pub username : List ℕ
  pub service : List ℕ
  pub method : List ℕ
  pub credential : Credential

-- the signature is there if the flag says so
unfoldable pub read_signature : Bool → List ℕ → SshResult (Option (List ℕ) × List ℕ)
read_signature false c = ok (none, c)
read_signature true c = do (sig, c') ← read_string c; ok (some sig, c')

unfoldable pub read_password : List ℕ → SshResult Credential
read_password c = do (change, c1) ← read_bool c; (pass, c2) ← read_utf8 c1; ok (password pass)

unfoldable pub read_public_key : List ℕ → SshResult Credential
read_public_key c = do
  (has_sig, c1) ← read_bool c
  (algorithm, c2) ← read_utf8 c1
  (key_blob, c3) ← read_string c2
  (signature, c4) ← read_signature has_sig c3
  ok (public_key algorithm key_blob signature)

-- `match method.as_str()`
unfoldable pub read_credential : List ℕ → List ℕ → SshResult Credential
unfolding read_password read_public_key
read_credential method c =
    if bytes_eq method (ascii "password")
    then read_password c
    else if bytes_eq method (ascii "publickey")
    then read_public_key c
    else err (auth_failed (msg_text "Unsupported auth method: {}" method))

-- `AuthRequest::parse`
unfoldable pub parse : List ℕ → SshResult AuthRequest
parse payload = do
  (username, c1) ← read_utf8 payload
  (service, c2) ← read_utf8 c1
  (method, c3) ← read_utf8 c2
  credential ← read_credential method c3
  ok (record { username = username; service = service; method = method; credential = credential })
