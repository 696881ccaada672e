-- ===== src/Packet/Buf/Names.antt =====
-- Name lists: `write_name_list` and `read_name_list` of src/packet/codec.rs.
use swift_ssh.Prelude.{ℕ, ◌≡◌, ◌≢◌, refl, List, [], ◌∷◌, ◌++◌, All, arith}
use swift_ssh.Error.{ok}
use swift_ssh.Packet.Utf8.{is_utf8, IsUtf8, append-IsUtf8}
use swift_ssh.Packet.Buf.{join, write_name_list, split, split_names, read_name_list}
use swift_ssh.Packet.Buf.Laws.{string_bytes, write_utf8_lem, read_utf8-string_bytes, Fits}

abbrev pub NoComma : List ℕ → Type 0
NoComma = All (λ b. b ≢ b',')

pub write_name_list_lem :
    (buf : List ℕ) (names : List (List ℕ))
    → write_name_list buf names ≡ buf ++ string_bytes (join names)
unfolding write_name_list
write_name_list_lem buf names = write_utf8_lem buf (join names)

split-name : (n : List ℕ) → NoComma n → split n ≡ n ∷ []
unfolding split
split-name [] h = refl
split-name (b ∷ n) h = ground (arith, split-name n h.1)

split-append_comma : (n s : List ℕ) → NoComma n → split (n ++ (b',' ∷ s)) ≡ n ∷ split s
unfolding split
split-append_comma [] s h = refl
split-append_comma (b ∷ n) s h = ground (arith, split-append_comma n s h.1)

split-join :
    (n : List ℕ) (ns : List (List ℕ)) → All NoComma (n ∷ ns) → split (join (n ∷ ns)) ≡ n ∷ ns
unfolding join
split-join n [] h = split-name n h.0
split-join n (m ∷ ns) h = rw (split-append_comma n (join (m ∷ ns)) h.0, split-join m ns h.1)

split_names-cons : (s : List ℕ) → s ≢ [] → split_names s ≡ split s
unfolding split_names
split_names-cons [] h = absurd (h refl)
split_names-cons (b ∷ s) h = refl

join-ne-nil : (n : List ℕ) (ns : List (List ℕ)) → n ∷ ns ≢ [] ∷ [] → join (n ∷ ns) ≢ []
unfolding join
join-ne-nil [] [] h = λ e. h refl
join-ne-nil (b ∷ n) [] h = λ e. cc
join-ne-nil [] (m ∷ ns) h = λ e. cc
join-ne-nil (b ∷ n) (m ∷ ns) h = λ e. cc

split_names-join :
    (names : List (List ℕ)) → All NoComma names → names ≢ [] ∷ [] → split_names (join names) ≡ names
split_names-join [] h ne = unfold split_names join in refl
split_names-join (n ∷ ns) h ne =
    rw (split_names-cons (join (n ∷ ns)) (join-ne-nil n ns ne)) (split-join n ns h)

comma-IsUtf8 : (s : List ℕ) → IsUtf8 s → IsUtf8 (b',' ∷ s)
unfolding is_utf8
comma-IsUtf8 s h = h

pub join-IsUtf8 : (names : List (List ℕ)) → All IsUtf8 names → IsUtf8 (join names)
unfolding join
join-IsUtf8 [] h = unfold is_utf8 in refl
join-IsUtf8 (n ∷ []) h = h.0
join-IsUtf8 (n ∷ m ∷ ns) h =
    append-IsUtf8 n (b',' ∷ join (m ∷ ns)) h.0
      (comma-IsUtf8 (join (m ∷ ns)) (join-IsUtf8 (m ∷ ns) h.1))

-- `read_name_list` returns the names that `write_name_list` was given, whatever follows them in
-- the buffer, if they are texts with no comma, fit a packet together, and are not the list of the
-- one empty name (which is written like the empty list).
pub read_name_list-write_name_list :
    (names : List (List ℕ)) (rest : List ℕ)
    → All NoComma names
    → All IsUtf8 names
    → Fits (join names)
    → names ≢ [] ∷ []
    → read_name_list (write_name_list [] names ++ rest) ≡ ok (names, rest)
unfolding read_name_list
read_name_list-write_name_list names rest commas texts fits ne = rw (
  write_name_list_lem [] names,
  read_utf8-string_bytes (join names) rest fits (join-IsUtf8 names texts),
  split_names-join names commas ne,
)
