-- ===== src/Transport/Kex/Agreement.antt =====
-- Both sides of the key exchange end with the same secret and hash, and the hash covers its inputs.
use swift_ssh.Prelude.{All, ℕ, ◌≡◌, refl, sym, ap, ◌∙◌, none, List, [], ◌∷◌, ◌++◌, append-nil}
use swift_ssh.Error.{ok}
use swift_ssh.Packet.Buf.{read_string}
use swift_ssh.Packet.Buf.Laws.{string_bytes, write_laws, Fits, read_string-string_bytes}
use swift_ssh.Packet.Buf.Mpint.{mpint_bytes, be_value, write_mpint_lem, be_value-mpint_bytes}
use swift_ssh.Crypto.{Crates}
use swift_ssh.Crypto.Laws.{IsAgreement}
use swift_ssh.Transport.Kex.{KexResult, transcript, new, client_complete, server_complete}

-- A client and a server that complete the exchange with each other's public key, the same version
-- lines, KEXINIT payloads and host key, get the same shared secret and exchange hash.
pub complete_agree :
    (crates : Crates) (laws : IsAgreement crates) (a b : crates.Secret)
    (client_version server_version client_kexinit server_kexinit host_key : List ℕ)
    → (r : KexResult) × (client_complete crates
          (new crates a)
          (new crates b).ephemeral_pub
          client_version
          server_version
          client_kexinit
          server_kexinit
          host_key
        ≡ ok (r, record (new crates a) { secret = none }))
      × (server_complete crates
            (new crates b)
            (new crates a).ephemeral_pub
            client_version
            server_version
            client_kexinit
            server_kexinit
            host_key
          ≡ ok (r, record (new crates b) { secret = none }))
unfolding client_complete server_complete new
complete_agree crates laws a b v_c v_s i_c i_s k_s = (_, refl, rw (laws.diffie_hellman_comm a b))

-- A string on the wire is told apart from all others by its bytes and those behind it.
string_bytes-injective :
    (s s' rest rest' : List ℕ)
    → Fits s
    → Fits s'
    → string_bytes s ++ rest ≡ string_bytes s' ++ rest'
    → (s ≡ s') × (rest ≡ rest')
string_bytes-injective s s' rest rest' h h' e =
    let same =
      sym (read_string-string_bytes s rest h)
      ∙ ap read_string e
      ∙ read_string-string_bytes s' rest' h' in
    (cc same, cc same)

transcript_lem :
    (v_c v_s i_c i_s k_s e f k : List ℕ)
    → transcript v_c v_s i_c i_s k_s e f k
      ≡ string_bytes v_c
        ++ (string_bytes v_s
            ++ (string_bytes i_c
                ++ (string_bytes i_s
                    ++ (string_bytes k_s
                        ++ (string_bytes e
                            ++ (string_bytes f ++ (string_bytes (mpint_bytes k) ++ [])))))))
unfolding transcript
transcript_lem v_c v_s i_c i_s k_s e f k = simp (write_laws, write_mpint_lem, append-nil)

-- The hash covers every input: transcripts that are equal are those of the same two version lines,
-- KEXINIT payloads, host key and public keys, and of secrets that are the same number.
pub transcript_injective :
    (v_c v_s i_c i_s k_s e f k v_c' v_s' i_c' i_s' k_s' e' f' k' : List ℕ)
    → All Fits (v_c ∷ v_s ∷ i_c ∷ i_s ∷ k_s ∷ e ∷ f ∷ mpint_bytes k ∷ [])
    → All Fits (v_c' ∷ v_s' ∷ i_c' ∷ i_s' ∷ k_s' ∷ e' ∷ f' ∷ mpint_bytes k' ∷ [])
    → transcript v_c v_s i_c i_s k_s e f k ≡ transcript v_c' v_s' i_c' i_s' k_s' e' f' k'
    → (v_c ≡ v_c')
      × (v_s ≡ v_s')
      × (i_c ≡ i_c')
      × (i_s ≡ i_s')
      × (k_s ≡ k_s')
      × (e ≡ e')
      × (f ≡ f')
      × (be_value 0 k ≡ be_value 0 k')
transcript_injective v_c v_s i_c i_s k_s e f k v_c' v_s' i_c' i_s' k_s' e' f' k' h h' q =
    let q0 =
      sym (transcript_lem v_c v_s i_c i_s k_s e f k)
      ∙ q
      ∙ transcript_lem v_c' v_s' i_c' i_s' k_s' e' f' k' in
    let (e1, q1) = string_bytes-injective v_c v_c' _ _ h.0 h'.0 q0 in
    let (e2, q2) = string_bytes-injective v_s v_s' _ _ h.1.0 h'.1.0 q1 in
    let (e3, q3) = string_bytes-injective i_c i_c' _ _ h.1.1.0 h'.1.1.0 q2 in
    let (e4, q4) = string_bytes-injective i_s i_s' _ _ h.1.1.1.0 h'.1.1.1.0 q3 in
    let (e5, q5) = string_bytes-injective k_s k_s' _ _ h.1.1.1.1.0 h'.1.1.1.1.0 q4 in
    let (e6, q6) = string_bytes-injective e e' _ _ h.1.1.1.1.1.0 h'.1.1.1.1.1.0 q5 in
    let (e7, q7) = string_bytes-injective f f' _ _ h.1.1.1.1.1.1.0 h'.1.1.1.1.1.1.0 q6 in
    let (e8, q8) =
      string_bytes-injective (mpint_bytes k) (mpint_bytes k') [] [] h.1.1.1.1.1.1.1.0
        h'.1.1.1.1.1.1.1.0 q7 in
    (
      e1,
      e2,
      e3,
      e4,
      e5,
      e6,
      e7,
      sym (be_value-mpint_bytes k) ∙ ap (be_value 0) e8 ∙ be_value-mpint_bytes k',
    )
