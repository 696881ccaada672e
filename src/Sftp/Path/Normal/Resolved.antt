-- ===== src/Sftp/Path/Normal/Resolved.antt =====
-- `normalize_path` leaves names only, and a path that it has normalized is left as it is.
use swift_ssh.Prelude.{
  ℕ, ◌≡◌, refl, sym, ap, ◌∙◌, inl, inr, Bool, true, false, List, [], ◌∷◌, ◌++◌, append-nil,
  append_assoc, All, All-append, bytes_eq, Bool-cases,
}
use swift_ssh.Sftp.Path.{
  Component, root_dir, cur_dir, parent_dir, normal, is_absolute, pieces, dot, dot_dot, component,
  body, leading, components, join_path, pop, normalize_from, as_path, collect_from, normalize_path,
}
use swift_ssh.Sftp.Path.Normal.{
  NoSlash, IsName, IsNormal, IsPlain, pieces-NoSlash, components-join_path,
}

-- What may stand behind the first component.
IsStep : Component → Type 0
IsStep root_dir = ⊥
IsStep (normal s) = IsName s
IsStep _ = Unit

component-IsStep : (s : List ℕ) → NoSlash s → All IsStep (component s)
unfolding component IsStep
component-IsStep s h = elim (Bool-cases (bytes_eq s [])) [
  | inl e ↦ rw e tt
  | inr e ↦ elim (Bool-cases (bytes_eq s dot)) [
    | inl d ↦ rw (e, d) tt
    | inr d ↦ elim (Bool-cases (bytes_eq s dot_dot)) [
      | inl f ↦ rw (e, d, f) (tt, tt)
      | inr f ↦
          rw (e, d, f) (record { not_empty = e; not_dot = d; not_dot_dot = f; no_slash = h }, tt)
    ]
  ]
]

body-IsStep : (ps : List (List ℕ)) → All NoSlash ps → All IsStep (body ps)
unfolding body
body-IsStep [] h = tt
body-IsStep (p ∷ ps) h =
    All-append IsStep (component p) (body ps) (component-IsStep p h.0) (body-IsStep ps h.1)

All-pop : (cs : List Component) → All IsNormal cs → All IsNormal (pop cs)
unfolding pop
All-pop [] h = tt
All-pop (c ∷ []) h = tt
All-pop (c ∷ d ∷ cs) h = (h.0, All-pop (d ∷ cs) h.1)

pop-IsPlain : (cs : List Component) → IsPlain cs → IsPlain (pop cs)
unfolding pop
pop-IsPlain [] h = tt
pop-IsPlain (root_dir ∷ []) h = tt
pop-IsPlain (root_dir ∷ d ∷ cs) h = All-pop (d ∷ cs) h
pop-IsPlain (cur_dir ∷ cs) h = absurd h.0
pop-IsPlain (parent_dir ∷ cs) h = absurd h.0
pop-IsPlain (normal s ∷ []) h = tt
pop-IsPlain (normal s ∷ d ∷ cs) h = (h.0, All-pop (d ∷ cs) h.1)

name-IsPlain :
    (cs : List Component) (s : List ℕ) → IsPlain cs → IsName s → IsPlain (cs ++ normal s ∷ [])
name-IsPlain [] s h n = (n, tt)
name-IsPlain (root_dir ∷ cs) s h n = All-append IsNormal cs (normal s ∷ []) h (n, tt)
name-IsPlain (cur_dir ∷ cs) s h n = absurd h.0
name-IsPlain (parent_dir ∷ cs) s h n = absurd h.0
name-IsPlain (normal t ∷ cs) s h n = (h.0, All-append IsNormal cs (normal s ∷ []) h.1 (n, tt))

normalize_from-IsPlain :
    (stack cs : List Component) → IsPlain stack → All IsStep cs → IsPlain (normalize_from stack cs)
unfolding normalize_from IsStep
normalize_from-IsPlain stack [] p h = p
normalize_from-IsPlain stack (root_dir ∷ cs) p h = absurd h.0
normalize_from-IsPlain stack (parent_dir ∷ cs) p h =
    normalize_from-IsPlain (pop stack) cs (pop-IsPlain stack p) h.1
normalize_from-IsPlain stack (cur_dir ∷ cs) p h = normalize_from-IsPlain stack cs p h.1
normalize_from-IsPlain stack (normal s ∷ cs) p h =
    normalize_from-IsPlain (stack ++ normal s ∷ []) cs (name-IsPlain stack s p h.0) h.1

-- A relative path starts with a step.
leading-IsStep : (s : List ℕ) → NoSlash s → All IsStep (leading false s)
unfolding leading IsStep
leading-IsStep s h = elim (Bool-cases (bytes_eq s dot)) [
  | inl e ↦ rw e (tt, tt)
  | inr e ↦ rw e (component-IsStep s h)
]

split-IsPlain :
    (absolute : Bool) (first : List ℕ) (more : List (List ℕ))
    → NoSlash first
    → All NoSlash more
    → IsPlain (normalize_from [] (leading absolute first ++ body more))
unfolding leading normalize_from
split-IsPlain true first more hf hm =
    normalize_from-IsPlain (root_dir ∷ []) (body more) tt (body-IsStep more hm)
split-IsPlain false first more hf hm =
    normalize_from-IsPlain [] (leading false first ++ body more) tt (
      All-append IsStep (leading false first) (body more) (leading-IsStep first hf)
        (body-IsStep more hm))

pub normalize_components-IsPlain : (p : List ℕ) → IsPlain (normalize_from [] (components p))
unfolding components
normalize_components-IsPlain p =
    split-IsPlain (is_absolute p) (pieces p).0 (pieces p).1 (pieces-NoSlash p).0
      (pieces-NoSlash p).1

-- Names are collected as they are.
components-collect_from :
    (p : List ℕ) (cs : List Component)
    → All IsNormal cs
    → components (collect_from p cs) ≡ components p ++ cs
unfolding collect_from as_path
components-collect_from p [] h = sym (append-nil _)
components-collect_from p (root_dir ∷ cs) h = absurd h.0
components-collect_from p (cur_dir ∷ cs) h = absurd h.0
components-collect_from p (parent_dir ∷ cs) h = absurd h.0
components-collect_from p (normal s ∷ cs) h =
    rw (components-collect_from (join_path p s) cs h.1, components-join_path p s h.0, append_assoc)
      refl

collect-root : components (join_path [] (b'/' ∷ [])) ≡ root_dir ∷ []
unfolding join_path components is_absolute pieces leading body component
collect-root = refl

components-nil : components [] ≡ []
unfolding components is_absolute pieces leading body component
components-nil = refl

pub components-collect : (cs : List Component) → IsPlain cs → components (collect_from [] cs) ≡ cs
unfolding as_path collect_from
components-collect [] h = components-nil
components-collect (root_dir ∷ cs) h =
    rw (components-collect_from (join_path [] (b'/' ∷ [])) cs h, collect-root) refl
components-collect (cur_dir ∷ cs) h = absurd h.0
components-collect (parent_dir ∷ cs) h = absurd h.0
components-collect (normal s ∷ cs) h =
    components-collect_from [] (normal s ∷ cs) h ∙ ap (λ ds. ds ++ normal s ∷ cs) components-nil

-- The components of a normalized path are those that the loop has left, and they are plain.
pub normalize_path-IsPlain :
    (p : List ℕ)
    → IsPlain (components (normalize_path p))
      × (components (normalize_path p) ≡ normalize_from [] (components p))
unfolding normalize_path
normalize_path-IsPlain p =
    let same =
      components-collect (normalize_from [] (components p)) (normalize_components-IsPlain p) in
    (rw same (normalize_components-IsPlain p), same)

-- Nothing is left to do on names.
normalize_names :
    (stack cs : List Component) → All IsNormal cs → normalize_from stack cs ≡ stack ++ cs
unfolding normalize_from
normalize_names stack [] h = sym (append-nil _)
normalize_names stack (root_dir ∷ cs) h = absurd h.0
normalize_names stack (cur_dir ∷ cs) h = absurd h.0
normalize_names stack (parent_dir ∷ cs) h = absurd h.0
normalize_names stack (normal s ∷ cs) h =
    rw (normalize_names (stack ++ normal s ∷ []) cs h.1, append_assoc) refl

normalize_plain : (cs : List Component) → IsPlain cs → normalize_from [] cs ≡ cs
unfolding normalize_from
normalize_plain [] h = refl
normalize_plain (root_dir ∷ cs) h = normalize_names (root_dir ∷ []) cs h
normalize_plain (cur_dir ∷ cs) h = absurd h.0
normalize_plain (parent_dir ∷ cs) h = absurd h.0
normalize_plain (normal s ∷ cs) h = normalize_names [] (normal s ∷ cs) h

-- To normalize a second time changes nothing.
pub normalize_path_idem : (p : List ℕ) → normalize_path (normalize_path p) ≡ normalize_path p
unfolding normalize_path
normalize_path_idem p =
    let (plain, same) = normalize_path-IsPlain p in
    ap (collect_from [])
      (ap (normalize_from []) same ∙ normalize_plain _ (normalize_components-IsPlain p))
