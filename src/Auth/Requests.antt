-- ===== src/Auth/Requests.antt =====
-- The authentication messages: parsing what the builders write.
use swift_ssh.Prelude.{
  is_some, ℕ, ◌≡◌, refl, false, Option, none, some, List, [], ◌++◌, ascii, append-nil, arith, ◌≢◌,
  bytes_ne,
}
use swift_ssh.Error.{ok, err, auth_failed, msg_text}
use swift_ssh.Packet.Utf8.{IsUtf8, is_utf8}
use swift_ssh.Packet.Buf.Laws.{
  string_bytes, bool_bytes, write_laws, write_string_lem, Fits, read_bool-bool_bytes,
  read_string-string_bytes, read_utf8-string_bytes,
}
use swift_ssh.Auth.{
  Credential, password, public_key, build_password_auth_request, build_pubkey_auth_request,
  write_signature, read_signature, read_credential, parse,
}

-- A text that fits a packet.
pub record IsText (s : List ℕ) : Type 0 where
  pub text : IsUtf8 s
  pub fits : Fits s

-- The head of every request: user, service, method, and then the credential.
parse_head :
    (username service method c : List ℕ) (credential : Credential)
    → IsText username
    → IsText service
    → IsText method
    → read_credential method c ≡ ok credential
    → parse (string_bytes username ++ (string_bytes service ++ (string_bytes method ++ c)))
      ≡ ok (record {
        username = username;
        service = service;
        method = method;
        credential = credential;
      })
unfolding parse
parse_head username service method c credential hu hs hm h = rw (
  read_utf8-string_bytes username _ hu.fits hu.text,
  read_utf8-string_bytes service _ hs.fits hs.text,
  read_utf8-string_bytes method _ hm.fits hm.text,
  h,
)

ascii-IsText_password : IsText (ascii "password")
unfolding is_utf8
ascii-IsText_password = record { text = refl; fits = omega arith }

ascii-IsText_publickey : IsText (ascii "publickey")
unfolding is_utf8
ascii-IsText_publickey = record { text = refl; fits = omega arith }

read_password_lem :
    (pass rest : List ℕ)
    → IsText pass
    → read_credential (ascii "password") (bool_bytes false ++ (string_bytes pass ++ rest))
      ≡ ok (password pass)
unfolding read_credential
read_password_lem pass rest h = rw (
  read_bool-bool_bytes false (string_bytes pass ++ rest),
  read_utf8-string_bytes pass rest h.fits h.text,
)

-- `AuthRequest::parse` reads back a password request as it was built, whatever follows.
pub parse-build_password_auth_request :
    (username service pass rest : List ℕ)
    → IsText username
    → IsText service
    → IsText pass
    → parse ((build_password_auth_request username service pass).payload ++ rest)
      ≡ ok (record {
        username = username;
        service = service;
        method = ascii "password";
        credential = password pass;
      })
unfolding build_password_auth_request
parse-build_password_auth_request username service pass rest hu hs hp = simp write_laws (
    parse_head username service (ascii "password") _ (password pass) hu hs ascii-IsText_password
      (read_password_lem pass rest hp))

-- The wire form of an optional signature, and its limit.
abbrev signature_bytes : Option (List ℕ) → List ℕ
signature_bytes none = []
signature_bytes (some sig) = string_bytes sig

abbrev pub SignatureFits : Option (List ℕ) → Type 0
SignatureFits none = Unit
SignatureFits (some sig) = Fits sig

read_signature_lem :
    (signature : Option (List ℕ)) (rest : List ℕ)
    → SignatureFits signature
    → read_signature (is_some signature) (signature_bytes signature ++ rest) ≡ ok (signature, rest)
unfolding read_signature
read_signature_lem none rest h = refl
read_signature_lem (some sig) rest h = rw (read_string-string_bytes sig rest h)

write_signature_lem :
    (buf : List ℕ) (signature : Option (List ℕ))
    → write_signature buf signature ≡ buf ++ signature_bytes signature
unfolding write_signature
write_signature_lem buf none = rw append-nil
write_signature_lem buf (some sig) = write_string_lem buf sig

read_public_key_lem :
    (algorithm key_blob : List ℕ) (signature : Option (List ℕ)) (rest : List ℕ)
    → IsText algorithm
    → Fits key_blob
    → SignatureFits signature
    → read_credential (ascii "publickey") (
        bool_bytes (is_some signature)
        ++ (string_bytes algorithm
            ++ (string_bytes key_blob ++ (signature_bytes signature ++ rest))))
      ≡ ok (public_key algorithm key_blob signature)
unfolding read_credential
read_public_key_lem algorithm key_blob signature rest ha hk hsig = rw (
  read_bool-bool_bytes (is_some signature) _,
  read_utf8-string_bytes algorithm _ ha.fits ha.text,
  read_string-string_bytes key_blob _ hk,
  read_signature_lem signature rest hsig,
)

-- `AuthRequest::parse` reads back a public-key request as it was built, with and without a
-- signature, whatever follows.
pub parse-build_pubkey_auth_request :
    (username service algorithm key_blob : List ℕ) (signature : Option (List ℕ)) (rest : List ℕ)
    → IsText username
    → IsText service
    → IsText algorithm
    → Fits key_blob
    → SignatureFits signature
    → parse
        ((build_pubkey_auth_request username service algorithm key_blob signature).payload ++ rest)
      ≡ ok (record {
        username = username;
        service = service;
        method = ascii "publickey";
        credential = public_key algorithm key_blob signature;
      })
unfolding build_pubkey_auth_request
parse-build_pubkey_auth_request username service algorithm key_blob signature rest hu hs ha hk
      hsig =
    rw write_signature_lem (
      simp write_laws (
        parse_head username service (ascii "publickey") _ (public_key algorithm key_blob signature)
          hu hs ascii-IsText_publickey
          (read_public_key_lem algorithm key_blob signature rest ha hk hsig)))

-- A request with any other method is refused, and the error names the method: no credential is
-- read from it.
pub parse_unsupported :
    (username service method rest : List ℕ)
    → IsText username
    → IsText service
    → IsText method
    → method ≢ ascii "password"
    → method ≢ ascii "publickey"
    → parse (string_bytes username ++ (string_bytes service ++ (string_bytes method ++ rest)))
      ≡ err (auth_failed (msg_text "Unsupported auth method: {}" method))
unfolding parse read_credential
parse_unsupported username service method rest hu hs hm np nk = rw (
  read_utf8-string_bytes username _ hu.fits hu.text,
  read_utf8-string_bytes service _ hs.fits hs.text,
  read_utf8-string_bytes method _ hm.fits hm.text,
  bytes_ne method (ascii "password") np,
  bytes_ne method (ascii "publickey") nk,
)
