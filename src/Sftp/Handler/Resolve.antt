-- ===== src/Sftp/Handler/Resolve.antt =====
-- `resolve_path` of src/sftp/mod.rs confines a client to the root directory.
use swift_ssh.Prelude.{
  ℕ, ◌≡◌, refl, sym, ap, Bool, true, false, ◌&&◌, List, [], ◌∷◌, ◌++◌, bytes_eq_iff, if◌then◌else◌,
  Option-cases, inl, inr,
}
use swift_ssh.Error.{SshError, ok, err, ok-injective}
use swift_ssh.Sftp.Path.{
  Component, root_dir, cur_dir, parent_dir, normal, components, same_component, is_prefix,
  starts_with,
}
use swift_ssh.Sftp.Path.Normal.{IsPlain}
use swift_ssh.Sftp.Path.Normal.Resolved.{normalize_path-IsPlain}
use swift_ssh.Sftp.FileSystem.{FileSystem, IsLawful}
use swift_ssh.Sftp.Handler.{SftpHandler, unwrap_or, requested_path, canonical, resolve_path}

-- The path leads through `base` and then down: none of its components is `..`.
pub record IsWithin (base : List Component) (p : List ℕ) : Type 0 where
  pub below : List Component
  pub path : components p ≡ base ++ below
  pub plain : IsPlain (components p)

eq_of_same_component : (c d : Component) → same_component c d ≡ true → c ≡ d
unfolding same_component
eq_of_same_component root_dir root_dir h = refl
eq_of_same_component cur_dir cur_dir h = refl
eq_of_same_component parent_dir parent_dir h = refl
eq_of_same_component (normal s) (normal t) h = ap normal ((bytes_eq_iff s t).0 h)
eq_of_same_component root_dir cur_dir h = cc
eq_of_same_component root_dir parent_dir h = cc
eq_of_same_component root_dir (normal t) h = cc
eq_of_same_component cur_dir root_dir h = cc
eq_of_same_component cur_dir parent_dir h = cc
eq_of_same_component cur_dir (normal t) h = cc
eq_of_same_component parent_dir root_dir h = cc
eq_of_same_component parent_dir cur_dir h = cc
eq_of_same_component parent_dir (normal t) h = cc
eq_of_same_component (normal s) root_dir h = cc
eq_of_same_component (normal s) cur_dir h = cc
eq_of_same_component (normal s) parent_dir h = cc

both_true : (a b : Bool) → (a && b) ≡ true → (a ≡ true) × (b ≡ true)
both_true true b h = (refl, h)
both_true false b h = cc

of_is_prefix :
    (cs ds : List Component) → is_prefix cs ds ≡ true → (more : List Component) × (ds ≡ cs ++ more)
unfolding is_prefix
of_is_prefix [] ds h = (ds, refl)
of_is_prefix (c ∷ cs) [] h = cc
of_is_prefix (c ∷ cs) (d ∷ ds) h =
    let (first, others) = both_true (same_component c d) (is_prefix cs ds) h in
    let (more, e) = of_is_prefix cs ds others in (more, rw (eq_of_same_component c d first, e) refl)

granted :
    (b : Bool) (e : SshError) {a p : List ℕ}
    → (if b then ok a else err e) ≡ ok p
    → (b ≡ true) × (a ≡ p)
granted true e h = (refl, ok-injective h)
granted false e h = cc

module _ (FS : FileSystem) (laws : IsLawful FS) where
  canonical-IsPlain : (disk : FS.Disk) (p : List ℕ) → IsPlain (components (canonical FS disk p))
  unfolding canonical unwrap_or
  canonical-IsPlain disk p = elim (Option-cases (FS.canonicalize disk p)) [
    | inl e ↦ rw e (normalize_path-IsPlain p).0
    | inr (q, e) ↦ rw e (laws.canonical_plain disk p q e)
  ]

  -- A path that is not refused is the root's canonical path followed by names: whatever the client
  -- sends, it does not lead out of the root.
  pub resolve_path-IsWithin :
      (h : SftpHandler) (disk : FS.Disk) (requested path : List ℕ)
      → resolve_path FS h disk requested ≡ ok path
      → IsWithin (components (canonical FS disk h.root)) path
  unfolding resolve_path starts_with
  resolve_path-IsWithin h disk requested path e =
      let (inside, same) = granted _ _ e in
      let (below, split) = of_is_prefix _ _ inside in
      rw (sym same) (record {
        below = below;
        path = split;
        plain = canonical-IsPlain disk (requested_path h requested);
      })
