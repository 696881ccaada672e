-- ===== src/Sftp/Path.antt =====
-- The part of `std::path` that src/sftp/mod.rs uses, on Unix, and `normalize_path`. A path is its
-- bytes.
pub mod Normal
use swift_ssh.Prelude.{
  ℕ, Bool, true, false, ◌&&◌, not, List, [], ◌∷◌, ◌++◌, ◌==◌, bytes_eq, if◌then◌else◌,
}

-- `std::path::Component` without the prefixes of Windows
pub data Component : Type 0 where
  root_dir cur_dir parent_dir : Component
  normal : List ℕ → Component

-- `is_absolute`, and `starts_with('/')` of a string
unfoldable pub is_absolute : List ℕ → Bool
is_absolute [] = false
is_absolute (b ∷ p) = b == b'/'

-- What stands in front of the first '/', and the pieces that follow.
unfoldable pub pieces : List ℕ → List ℕ × List (List ℕ)
pieces [] = ([], [])
pieces (b ∷ p) =
    let (first, more) = pieces p in if b == b'/' then ([], first ∷ more) else (b ∷ first, more)

abbrev pub dot : List ℕ
dot = b'.' ∷ []

abbrev pub dot_dot : List ℕ
dot_dot = b'.' ∷ b'.' ∷ []

-- A repeated '/' and a '.' inside of a path are no components.
unfoldable pub component : List ℕ → List Component
component piece =
    if bytes_eq piece []
    then []
    else if bytes_eq piece dot
    then []
    else if bytes_eq piece dot_dot
    then parent_dir ∷ []
    else normal piece ∷ []

unfoldable pub body : List (List ℕ) → List Component
body [] = []
body (piece ∷ more) = component piece ++ body more

-- The root, or the first piece of a relative path, where a '.' counts.
unfoldable pub leading : Bool → List ℕ → List Component
leading true first = root_dir ∷ []
leading false first = if bytes_eq first dot then cur_dir ∷ [] else component first

-- `Path::components`
unfoldable pub components : List ℕ → List Component
components p = let (first, more) = pieces p in leading (is_absolute p) first ++ body more

-- `&path[1..]` of a path that starts with '/'
unfoldable pub without_slash : List ℕ → List ℕ
without_slash [] = []
without_slash (b ∷ p) = p

unfoldable pub ends_with_slash : List ℕ → Bool
ends_with_slash [] = false
ends_with_slash (b ∷ []) = b == b'/'
ends_with_slash (b ∷ c ∷ p) = ends_with_slash (c ∷ p)

-- what `push` puts between
unfoldable pub separator : List ℕ → List ℕ
separator [] = []
separator (b ∷ p) = if ends_with_slash (b ∷ p) then [] else b'/' ∷ []

-- `Path::join`, which is `PathBuf::push` on a copy: an absolute path replaces.
unfoldable pub join_path : List ℕ → List ℕ → List ℕ
join_path p q = if is_absolute q then q else p ++ (separator p ++ q)

unfoldable pub same_component : Component → Component → Bool
same_component root_dir root_dir = true
same_component cur_dir cur_dir = true
same_component parent_dir parent_dir = true
same_component (normal s) (normal t) = bytes_eq s t
same_component _ _ = false

unfoldable pub is_prefix : List Component → List Component → Bool
is_prefix [] ds = true
is_prefix (c ∷ cs) [] = false
is_prefix (c ∷ cs) (d ∷ ds) = same_component c d && is_prefix cs ds

-- `Path::starts_with`, which compares components
unfoldable pub starts_with : List ℕ → List ℕ → Bool
starts_with p base = is_prefix (components base) (components p)

-- `Vec::pop`
unfoldable pub pop : List Component → List Component
pop [] = []
pop (c ∷ []) = []
pop (c ∷ d ∷ cs) = c ∷ pop (d ∷ cs)

-- the loop of `normalize_path`
unfoldable pub normalize_from : List Component → List Component → List Component
normalize_from stack [] = stack
normalize_from stack (parent_dir ∷ cs) = normalize_from (pop stack) cs
normalize_from stack (cur_dir ∷ cs) = normalize_from stack cs
normalize_from stack (c ∷ cs) = normalize_from (stack ++ c ∷ []) cs

-- `Component::as_ref`
unfoldable pub as_path : Component → List ℕ
as_path root_dir = b'/' ∷ []
as_path cur_dir = dot
as_path parent_dir = dot_dot
as_path (normal s) = s

-- `collect` into a `PathBuf`, which pushes
unfoldable pub collect_from : List ℕ → List Component → List ℕ
collect_from p [] = p
collect_from p (c ∷ cs) = collect_from (join_path p (as_path c)) cs

unfoldable pub normalize_path : List ℕ → List ℕ
normalize_path p = collect_from [] (normalize_from [] (components p))
