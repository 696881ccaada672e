-- ===== src/Sftp/Path/Normal.antt =====
-- Normal paths: those that lead from the root, or from here, through names only.
pub mod Resolved
use swift_ssh.Prelude.{
  ℕ, ◌≡◌, ◌≢◌, refl, sym, ap, ◌∙◌, ◌⊎◌, inl, inr, Bool, true, false, ◌&&◌, not, List, [], ◌∷◌, ◌++◌,
  append-nil, append_assoc, All, All-append, ◌==◌, bytes_eq, if◌then◌else◌, Bool-cases, ==_iff,
  arith,
}
use swift_ssh.Sftp.Path.{
  Component, root_dir, cur_dir, parent_dir, normal, is_absolute, pieces, dot, dot_dot, component,
  body, leading, components, ends_with_slash, separator, join_path, pop, normalize_from, as_path,
  collect_from, normalize_path,
}

abbrev NoSlash : List ℕ → Type 0
NoSlash = All (λ b. (b == b'/') ≡ false)

-- What a file may be called.
pub record IsName (s : List ℕ) : Type 0 where
  pub not_empty : bytes_eq s [] ≡ false
  pub not_dot : bytes_eq s dot ≡ false
  pub not_dot_dot : bytes_eq s dot_dot ≡ false
  pub no_slash : NoSlash s

abbrev pub IsNormal : Component → Type 0
IsNormal (normal s) = IsName s
IsNormal _ = ⊥

-- Names, behind the root or not.
abbrev pub IsPlain : List Component → Type 0
IsPlain (root_dir ∷ cs) = All IsNormal cs
IsPlain cs = All IsNormal cs

pieces-slash :
    (p s : List ℕ)
    → pieces (p ++ b'/' ∷ s) ≡ ((pieces p).0, (pieces p).1 ++ (pieces s).0 ∷ (pieces s).1)
unfolding pieces
pieces-slash [] s = refl
pieces-slash (b ∷ p) s = ground (arith, pieces-slash p s)

pieces_whole : (s : List ℕ) → NoSlash s → pieces s ≡ (s, [])
unfolding pieces
pieces_whole [] h = refl
pieces_whole (b ∷ s) h = rw (pieces_whole s h.1, h.0) refl

-- No piece holds a '/'.
pub pieces-NoSlash : (p : List ℕ) → NoSlash (pieces p).0 × All NoSlash (pieces p).1
unfolding pieces
pieces-NoSlash [] = (tt, tt)
pieces-NoSlash (b ∷ p) = elim (Bool-cases (b == b'/')) [
  | inl e ↦ rw e (tt, pieces-NoSlash p)
  | inr e ↦ rw e ((e, (pieces-NoSlash p).0), (pieces-NoSlash p).1)
]

component-name : (s : List ℕ) → IsName s → component s ≡ normal s ∷ []
unfolding component
component-name s h = rw (h.not_empty, h.not_dot, h.not_dot_dot) refl

body-append : (xs ys : List (List ℕ)) → body (xs ++ ys) ≡ body xs ++ body ys
unfolding body
body-append [] ys = refl
body-append (x ∷ xs) ys = rw (body-append xs ys, append_assoc) refl

-- A path with a '/' behind its first byte.
components_inside :
    (b : ℕ) (q s : List ℕ)
    → components (b ∷ q ++ b'/' ∷ s)
      ≡ leading (is_absolute (b ∷ q)) (pieces (b ∷ q)).0
        ++ (body (pieces (b ∷ q)).1 ++ body ((pieces s).0 ∷ (pieces s).1))
unfolding components is_absolute
components_inside b q s =
    ap (λ ps. leading (b == b'/') ps.0 ++ body ps.1) (pieces-slash (b ∷ q) s)
    ∙ ap (◌++◌ (leading (b == b'/') (pieces (b ∷ q)).0)) (body-append (pieces (b ∷ q)).1 _)

components_root :
    (s : List ℕ)
    → components (b'/' ∷ s) ≡ components (b'/' ∷ []) ++ body ((pieces s).0 ∷ (pieces s).1)
unfolding components body pieces leading component is_absolute
components_root s = refl

body_nothing : body ((pieces []).0 ∷ (pieces []).1) ≡ []
unfolding body pieces component
body_nothing = refl

-- A '/' at the end tells nothing.
components_trailing : (b : ℕ) (p : List ℕ) → components (b ∷ p ++ b'/' ∷ []) ≡ components (b ∷ p)
unfolding components
components_trailing b p = rw (components_inside b p [], body_nothing, append-nil) refl

-- What stands behind a '/' is read on its own.
components_slash :
    (q s : List ℕ)
    → components (q ++ b'/' ∷ s) ≡ components (q ++ b'/' ∷ []) ++ body ((pieces s).0 ∷ (pieces s).1)
unfolding components
components_slash [] s = components_root s
components_slash (b ∷ q) s =
    components_inside b q s
    ∙ sym (append_assoc (leading (is_absolute (b ∷ q)) (pieces (b ∷ q)).0) _ _)
    ∙ ap (λ cs. cs ++ body ((pieces s).0 ∷ (pieces s).1)) (sym (components_trailing b q))

of_ends_with_slash : (p : List ℕ) → ends_with_slash p ≡ true → (q : List ℕ) × (p ≡ q ++ b'/' ∷ [])
unfolding ends_with_slash
of_ends_with_slash [] h = cc
of_ends_with_slash (b ∷ []) h = ([], ap (λ c. c ∷ []) ((==_iff _ _).0 h))
of_ends_with_slash (b ∷ c ∷ p) h =
    let (q, e) = of_ends_with_slash (c ∷ p) h in (b ∷ q, ap (◌∷◌ b) e)

name-relative : (s : List ℕ) → IsName s → is_absolute s ≡ false
unfolding is_absolute
name-relative [] h = refl
name-relative (b ∷ s) h = h.no_slash.0

body_name : (s : List ℕ) → IsName s → body ((pieces s).0 ∷ (pieces s).1) ≡ normal s ∷ []
unfolding body
body_name s h = rw (pieces_whole s h.no_slash, component-name s h) refl

components-name : (s : List ℕ) → IsName s → components s ≡ normal s ∷ []
unfolding components leading body
components-name s h =
    rw (name-relative s h, pieces_whole s h.no_slash, h.not_dot, component-name s h) refl

components_behind :
    (p s : List ℕ)
    → ends_with_slash p ≡ true
    → IsName s
    → components (p ++ s) ≡ components p ++ normal s ∷ []
components_behind p s ends h =
    let (q, e) = of_ends_with_slash p ends in
    rw (e, append_assoc q (b'/' ∷ []) s)
      (components_slash q s ∙ ap (◌++◌ (components (q ++ b'/' ∷ []))) (body_name s h))

components_below :
    (b : ℕ) (p s : List ℕ)
    → IsName s
    → components (b ∷ p ++ b'/' ∷ s) ≡ components (b ∷ p) ++ normal s ∷ []
components_below b p s h =
    components_slash (b ∷ p) s
    ∙ ap (λ cs. cs ++ body ((pieces s).0 ∷ (pieces s).1)) (components_trailing b p)
    ∙ ap (◌++◌ (components (b ∷ p))) (body_name s h)

-- A name that is joined to a path is one more component.
pub components-join_path :
    (p s : List ℕ) → IsName s → components (join_path p s) ≡ components p ++ normal s ∷ []
unfolding join_path separator components leading pieces is_absolute body component
components-join_path [] s h = rw (name-relative s h) (components-name s h)
components-join_path (b ∷ p) s h =
    rw (name-relative s h) (elim (Bool-cases (ends_with_slash (b ∷ p))) [
      | inl e ↦ rw e (components_behind (b ∷ p) s e h)
      | inr e ↦ rw e (components_below b p s h)
    ])
