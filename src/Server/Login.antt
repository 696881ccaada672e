-- ===== src/Server/Login.antt =====
-- The authentication loop: who gets past it, and that it ends.
use swift_ssh.Prelude.{
  ℕ, zero, suc, ◌<◌, ◌≡◌, ◌≢◌, ◌⊎◌, inl, inr, refl, sym, ap, ◌∙◌, Bool, true, false, Bool-cases,
  Option, none, some, List, [], ◌∷◌, Option-cases, bytes_eq, eq_of_bytes_eq, length, ◌==◌, ==_iff,
  arith,
}
use swift_ssh.Error.{SshResult, ok, err, panic, Message, msg, ok-injective, >>=-eq-ok}
use swift_ssh.Packet.Types.{MessageType, as_u8, user_auth_request}
use swift_ssh.Packet.Codec.{SshPacket}
use swift_ssh.Crypto.{Crates}
use swift_ssh.Session.{SessionKeys}
use swift_ssh.Transport.Stream.{Reader}
use swift_ssh.Transport.Io.{send_packet, recv_packet}
use swift_ssh.Transport.Io.Progress.{recv_packet_shrinks}
use swift_ssh.HashMap.{get, bytes_key}
use swift_ssh.Auth.{
  UserDatabase, AuthRequest, Credential, password, public_key, any_key, verify_password,
  is_key_authorized, parse,
}
use swift_ssh.Server.{Link, admits, auth_reply, continue, expect_packet, attempt, authenticate}

continue-eq-ok :
    {A : Type 0} (x : SshResult (Bool × A)) (again : A → Option (SshResult A)) {a : A}
    → continue x again ≡ some (ok a)
    → (x ≡ ok (true, a)) ⊎ ((b : A) × (x ≡ ok (false, b)) × (again b ≡ some (ok a)))
continue-eq-ok (ok (true, b)) again h = inl (ground arith)
continue-eq-ok (ok (false, b)) again h = inr (b, refl, h)
continue-eq-ok (err e) again h = absurd (ground arith)
continue-eq-ok panic again h = absurd (ground arith)

continue-eq-none :
    {A : Type 0} (x : SshResult (Bool × A)) (again : A → Option (SshResult A))
    → continue x again ≡ none
    → (b : A) × (x ≡ ok (false, b)) × (again b ≡ none)
continue-eq-none (ok (true, b)) again h = absurd (ground arith)
continue-eq-none (ok (false, b)) again h = (b, refl, h)
continue-eq-none (err e) again h = absurd (ground arith)
continue-eq-none panic again h = absurd (ground arith)

-- The key is in the list.
abbrev pub Listed : List ℕ → List (List ℕ) → Type 0
Listed key [] = ⊥
Listed key (k ∷ keys) = (k ≡ key) ⊎ Listed key keys

-- What entitles a user: the password on file, or a key on file.
abbrev pub Entitled : UserDatabase → List ℕ → Credential → Type 0
Entitled db username (password pass) = get username db.passwords ≡ some pass
Entitled db username (public_key algorithm key_blob signature) =
    (keys : List (List ℕ)) × (get username db.public_keys ≡ some keys) × Listed key_blob keys

any_key-Listed : (keys : List (List ℕ)) (key : List ℕ) → any_key keys key ≡ true → Listed key keys
any_key-Listed [] key h = absurd (ground arith)
any_key-Listed (k ∷ keys) key h = elim (Bool-cases (bytes_eq k key)) [
  | inl same ↦ inl (eq_of_bytes_eq k key same)
  | inr other ↦ inr (any_key-Listed keys key (rw other at h))
]

admits-Entitled :
    (db : UserDatabase) (username : List ℕ) (credential : Credential)
    → admits db username credential ≡ true
    → Entitled db username credential
unfolding admits verify_password is_key_authorized
admits-Entitled db username (password pass) h = elim (Option-cases (get username db.passwords)) [
  | inl e ↦ absurd (ground (arith))
  | inr (p, e) ↦ e ∙ ap (λ (q : List ℕ). some q) (eq_of_bytes_eq p pass (ground (arith)))
]
admits-Entitled db username (public_key algorithm key_blob signature) h =
    elim (Option-cases (get username db.public_keys)) [
      | inl e ↦ absurd (ground (arith))
      | inr (keys, e) ↦ (keys, e, any_key-Listed keys key_blob (ground (arith)))
    ]

module _ (crates : Crates) where
  open crates use {Cipher}

  pub expect_packet-eq-ok :
      (kind : MessageType) (text : Message) (r : Reader) (keys : SessionKeys Cipher)
      {q : SshPacket × Reader × SessionKeys Cipher}
      → expect_packet crates kind text r keys ≡ ok q
      → (recv_packet crates r keys ≡ ok q) × (q.0.msg_type ≡ as_u8 kind)
  unfolding expect_packet
  expect_packet-eq-ok kind text r keys {q} h =
      let (b, e1, h1) = >>=-eq-ok (recv_packet crates r keys) _ h in
      elim (Bool-cases (b.0.msg_type == as_u8 kind)) [
        | inl same ↦
            let e : b ≡ q = ok-injective (rw same at h1) in
            (
              e1 ∙ ap (λ (t : SshPacket × Reader × SessionKeys Cipher). ok t) e,
              sym (ap (λ (t : SshPacket × Reader × SessionKeys Cipher). t.0.msg_type) e)
                  ∙ (==_iff _ _).0 same,
            )
        | inr other ↦ absurd (ground arith)
      ]

  -- A round of the loop: the request that was received and parsed, what was decided, and that the
  -- answer to it was sent.
  pub record Attempted (db : UserDatabase) (l l' : Link Cipher) (granted : Bool) : Type 0 where
    pub fill : ℕ → List ℕ
    pub pkt : SshPacket
    pub reader : Reader
    pub keys : SessionKeys Cipher
    pub request : AuthRequest
    pub received : recv_packet crates l.reader l.keys ≡ ok (pkt, reader, keys)
    pub number : pkt.msg_type ≡ as_u8 user_auth_request
    pub parsed : parse pkt.payload ≡ ok request
    pub decided : admits db request.username request.credential ≡ granted
    pub answered :
        send_packet crates fill l.writer (auth_reply granted) keys ≡ ok (l'.writer, l'.keys)
    pub left : l'.reader ≡ reader

  attempt-eq-ok :
      (db : UserDatabase) (fill : ℕ → List ℕ) (l l' : Link Cipher) (granted : Bool)
      → attempt crates db fill l ≡ ok (granted, l')
      → Attempted db l l' granted
  unfolding attempt
  attempt-eq-ok db fill l l' granted h =
      let (q, e1, h1) =
        >>=-eq-ok
          (expect_packet crates user_auth_request (msg "Expected USERAUTH_REQUEST") l.reader l.keys)
          _ h in
      let (request, e2, h2) = >>=-eq-ok (parse q.0.payload) _ h1 in
      let (w, e3, h3) =
        >>=-eq-ok
          (send_packet crates fill l.writer
            (auth_reply (admits db request.username request.credential)) q.2)
          _ h2 in
      let (got, number) = expect_packet-eq-ok user_auth_request _ l.reader l.keys e1 in
      let same = ok-injective h3 in
      let grant : admits db request.username request.credential ≡ granted =
        ap (λ (t : Bool × Link Cipher). t.0) same in
      let link = ap (λ (t : Bool × Link Cipher). t.1) same in
      record {
        fill = fill;
        pkt = q.0;
        reader = q.1;
        keys = q.2;
        request = request;
        received = got;
        number = number;
        parsed = e2;
        decided = grant;
        answered =
            ap (λ (b : Bool). send_packet crates fill l.writer (auth_reply b) q.2) (sym grant)
            ∙ e3
            ∙ ap (λ (m : Link Cipher). ok (m.writer, m.keys)) link;
        left = sym (ap (λ (m : Link Cipher). m.reader) link);
      }

  attempt_shrinks :
      (db : UserDatabase) (l l' : Link Cipher) (granted : Bool)
      → Attempted db l l' granted
      → length l'.reader.pending < length l.reader.pending
  attempt_shrinks db l l' granted a =
      let shrunk = recv_packet_shrinks crates l.reader l.keys a.pkt a.reader a.keys a.received in
      let same : length l'.reader.pending ≡ length a.reader.pending =
        ap (λ (r : Reader). length r.pending) a.left in
      omega arith

  -- Rounds of the loop in which nobody was admitted, from one connection to another.
  pub data Refused (db : UserDatabase) : Link Cipher → Link Cipher → Type 0 where
    none_yet : (l : Link Cipher) → Refused db l l
    again : (l b m : Link Cipher) → Attempted db l b false → Refused db b m → Refused db l m

  -- From `l` the loop came to `l'`: after rounds in which nobody was admitted, it has received a
  -- request, whose password or key is on file for the user that it names, and has sent the success
  -- message.
  pub record LoggedIn (db : UserDatabase) (l l' : Link Cipher) : Type 0 where
    pub last : Link Cipher
    pub refused : Refused db l last
    pub attempted : Attempted db last l' true
    pub entitled : Entitled db attempted.request.username attempted.request.credential

  -- Whoever gets past the authentication loop has sent, in the last packet that the loop received, a
  -- request with the password that the user database holds for that user, or a key that it lists for
  -- that user, and was sent the success message. All the packets before it that the loop received
  -- from its first connection on were requests that were refused, and answered so.
  pub authenticate-eq-ok :
      (db : UserDatabase) (fuel : ℕ) (random : ℕ → ℕ → List ℕ) (l l' : Link Cipher)
      → authenticate crates db fuel random l ≡ some (ok l')
      → LoggedIn db l l'
  unfolding authenticate
  authenticate-eq-ok db zero random l l' h = absurd (ground arith)
  authenticate-eq-ok db (suc fuel) random l l' h =
      elim (continue-eq-ok (attempt crates db (random fuel) l) _ h) [
        | inl done ↦
            let a = attempt-eq-ok db (random fuel) l l' true done in
            record {
              last = l;
              refused = Refused.none_yet l;
              attempted = a;
              entitled = admits-Entitled db a.request.username a.request.credential a.decided;
            }
        | inr (b, e, more) ↦
            let later = authenticate-eq-ok db fuel random b l' more in
            record {
              last = later.last;
              refused =
                  Refused.again l b later.last (attempt-eq-ok db (random fuel) l b false e)
                    later.refused;
              attempted = later.attempted;
              entitled = later.entitled;
            }
      ]

  -- The loop ends: fuel above the number of bytes that are pending is enough, since every round
  -- takes bytes.
  pub authenticate_ends :
      (db : UserDatabase) (fuel : ℕ) (random : ℕ → ℕ → List ℕ) (l : Link Cipher)
      → length l.reader.pending < fuel
      → authenticate crates db fuel random l ≢ none
  unfolding authenticate
  authenticate_ends db zero random l h = absurd (omega arith)
  authenticate_ends db (suc fuel) random l h = λ stuck.
      let (b, e, more) = continue-eq-none (attempt crates db (random fuel) l) _ stuck in
      let shrunk = attempt_shrinks db l b false (attempt-eq-ok db (random fuel) l b false e) in
      authenticate_ends db fuel random b (omega arith) more
