-- ===== src/Transport/Version/Lines.antt =====
-- The version line: what one side sends the other reads, and what is accepted at all.
use swift_ssh.Prelude.{
  ℕ, ◌+◌, ◌-◌, ◌≤◌, ◌≡◌, ◌≢◌, refl, ap, ◌∙◌, true, false, ◌&&◌, All, List, [], ◌∷◌, ◌++◌,
  append_assoc, append-nil, length, take, length-append, take-length_append, ltb, ge→ltb, ◌==◌,
  arith,
}
use swift_ssh.Error.{IoError, ok}
use swift_ssh.Packet.Utf8.{IsUtf8}
use swift_ssh.Transport.Io.Receive.{reader}
use swift_ssh.Transport.Version.{
  crlf, ends_with_crlf, read_line, starts_with, version_prefix, recv_version_string,
}

-- The last two bytes decide.
ends_with_crlf-append :
    (xs : List ℕ) (a b : ℕ) → ends_with_crlf (xs ++ (a ∷ b ∷ [])) ≡ (a == 13 && b == 10)
unfolding ends_with_crlf
ends_with_crlf-append [] a b = refl
ends_with_crlf-append (x ∷ []) a b = refl
ends_with_crlf-append (x ∷ y ∷ []) a b = refl
ends_with_crlf-append (x ∷ y ∷ z ∷ xs) a b = ends_with_crlf-append (y ∷ z ∷ xs) a b

-- A line does not end at a byte other than a line feed.
not_at_end : (xs : List ℕ) (b : ℕ) → b ≢ 10 → ends_with_crlf (xs ++ (b ∷ [])) ≡ false
unfolding ends_with_crlf
not_at_end [] b h = refl
not_at_end (x ∷ []) b h = ground arith
not_at_end (x ∷ y ∷ []) b h = ground arith
not_at_end (x ∷ y ∷ z ∷ xs) b h = not_at_end (y ∷ z ∷ xs) b h

abbrev pub NoLineFeed : List ℕ → Type 0
NoLineFeed = All (λ b. b ≢ 10)

read_line_byte :
    (e : IoError) (byte : ℕ) (pending buf : List ℕ)
    → byte ≢ 10
    → length buf + 1 ≤ 255
    → read_line e (byte ∷ pending) buf ≡ read_line e pending (buf ++ (byte ∷ []))
unfolding read_line
read_line_byte e byte pending buf h room = rw (short, not_at_end buf byte h)
  where
    short : ltb 255 (length (buf ++ (byte ∷ []))) ≡ false
    short = ge→ltb 255 (length (buf ++ (byte ∷ []))) (omega (arith, length-append buf (byte ∷ [])))

read_line_text :
    (e : IoError) (line rest buf : List ℕ)
    → NoLineFeed line
    → length buf + length line ≤ 255
    → read_line e (line ++ rest) buf ≡ read_line e rest (buf ++ line)
read_line_text e [] rest buf h room = rw append-nil
read_line_text e (b ∷ line) rest buf h room =
    read_line_byte e b (line ++ rest) buf h.0 (omega arith)
    ∙ read_line_text e line rest (buf ++ (b ∷ [])) h.1 (omega (arith, length-append buf (b ∷ [])))
    ∙ ap (read_line e rest) (append_assoc buf (b ∷ []) line)

-- the carriage return and the line feed behind a line
read_line_end :
    (e : IoError) (line rest : List ℕ)
    → length line ≤ 253
    → read_line e (10 ∷ rest) (line ++ (13 ∷ []))
      ≡ ok ((line ++ (13 ∷ [])) ++ (10 ∷ []), reader rest e)
unfolding read_line
read_line_end e line rest room = rw (short, done)
  where
    short : ltb 255 (length ((line ++ (13 ∷ [])) ++ (10 ∷ []))) ≡ false
    short =
        ge→ltb 255 (length ((line ++ (13 ∷ [])) ++ (10 ∷ [])))
          (omega (arith, length-append (line ++ (13 ∷ [])) (10 ∷ []), length-append line (13 ∷ [])))

    done : ends_with_crlf ((line ++ (13 ∷ [])) ++ (10 ∷ [])) ≡ true
    done = rw append_assoc (ends_with_crlf-append line 13 10)

read_line_lem :
    (e : IoError) (line rest : List ℕ)
    → NoLineFeed line
    → length line ≤ 253
    → read_line e (line ++ (crlf ++ rest)) [] ≡ ok (line ++ crlf, reader rest e)
read_line_lem e line rest h room =
    read_line_text e line (crlf ++ rest) [] h (omega arith)
    ∙ read_line_byte e 13 (10 ∷ rest) line (omega arith) (omega arith)
    ∙ read_line_end e line rest room
    ∙ ap (λ (l : List ℕ). ok (l, reader rest e)) (append_assoc line (13 ∷ []) (10 ∷ []))

-- A version of at most 253 bytes, a text with no line feed that starts with `SSH-2.0-`, is read
-- back from the line that `send_version_string` sends, and the bytes behind the line are left.
pub recv_version_string_lem :
    (e : IoError) (version rest : List ℕ)
    → NoLineFeed version
    → length version ≤ 253
    → IsUtf8 version
    → starts_with version_prefix version ≡ true
    → recv_version_string (reader ((version ++ crlf) ++ rest) e) ≡ ok (version, reader rest e)
unfolding recv_version_string
recv_version_string_lem e version rest h room text start =
    rw (append_assoc, read_line_lem e version rest h room, cut, text, start)
  where
    cut : take (length (version ++ crlf) - 2) (version ++ crlf) ≡ version
    cut =
        let n : length (version ++ crlf) - 2 ≡ length version =
          omega (arith, length-append version crlf) in
        rw n (take-length_append version crlf)
