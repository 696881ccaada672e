-- ===== src/Sftp/FileSystem/Toy.antt =====
-- A file system for the examples: a directory or the bytes of a file under each path.
use swift_ssh.Prelude.{
  ℕ, ◌+◌, ◌-◌, ◌≡◌, sym, Bool, true, false, Option, none, some, List, [], ◌++◌, length, take, drop,
  replicate, is_some, if◌then◌else◌,
}
use swift_ssh.HashMap.{HashMap, bytes_key, get, insert, remove}
use swift_ssh.Sftp.Path.{components, normalize_path}
use swift_ssh.Sftp.Path.Normal.{IsPlain}
use swift_ssh.Sftp.Path.Normal.Resolved.{normalize_path-IsPlain}
use swift_ssh.Sftp.FileSystem.{Metadata, FileSystem, IsLawful}

pub data Node : Type 0 where
  directory : Node
  file : List ℕ → Node

abbrev pub Tree : Type 0
Tree = HashMap (List ℕ) Node

-- The bytes of a file, after some have been written at an offset.
abbrev pub overwrite : ℕ → List ℕ → List ℕ → List ℕ
overwrite n new old =
    take n old ++ (replicate (n - length old) 0 ++ (new ++ drop (n + length new) old))

abbrev pub resolved : Tree → List ℕ → Option (List ℕ)
resolved t p = if is_some (get (normalize_path p) t) then some (normalize_path p) else none

abbrev node_is_dir : Option Node → Bool
node_is_dir (some directory) = true
node_is_dir _ = false

abbrev node_metadata : Option Node → Option Metadata
node_metadata (some (file bytes)) =
    some (record { len = length bytes; mode = 0o644; uid = 0; gid = 0 })
node_metadata (some directory) = some (record { len = 0; mode = 0o755; uid = 0; gid = 0 })
node_metadata none = none

abbrev pub make : Tree → List ℕ → Option Node → Bool × Tree
make t p none = (true, insert p directory t)
make t p (some _) = (false, t)

abbrev pub unmake : Tree → List ℕ → Option Node → Bool × Tree
unmake t p (some directory) = (true, remove p t)
unmake t p _ = (false, t)

abbrev pub unlink : Tree → List ℕ → Option Node → Bool × Tree
unlink t p (some (file bytes)) = (true, remove p t)
unlink t p _ = (false, t)

abbrev pub open_node : List ℕ → Option Node → Option (List ℕ × ℕ)
open_node p (some (file bytes)) = some (p, 0)
open_node p _ = none

abbrev pub open_for_write : Tree → Bool → Bool → List ℕ → Option Node → Option (List ℕ × ℕ) × Tree
open_for_write t create truncate p (some (file bytes)) =
    (some (p, 0), if truncate then insert p (file []) t else t)
open_for_write t create truncate p (some directory) = (none, t)
open_for_write t create truncate p none =
    if create then (some (p, 0), insert p (file []) t) else (none, t)

abbrev read_node : ℕ → ℕ → Option Node → Option (List ℕ)
read_node position n (some (file bytes)) = some (take n (drop position bytes))
read_node position n _ = none

abbrev pub write_node : Tree → List ℕ → ℕ → List ℕ → Option Node → Bool × Tree
write_node t p position bytes (some (file old)) =
    (true, insert p (file (overwrite position bytes old)) t)
write_node t p position bytes _ = (false, t)

abbrev pub toy_files : FileSystem
toy_files = record {
  Disk = Tree;
  File = List ℕ × ℕ;
  canonicalize = resolved;
  is_dir = λ t p. node_is_dir (get p t);
  metadata = λ t p. node_metadata (get p t);
  read_dir = λ t p. some [];
  create_dir = λ t p. make t p (get p t);
  remove_dir = λ t p. unmake t p (get p t);
  remove_file = λ t p. unlink t p (get p t);
  open_read = λ t p. open_node p (get p t);
  open_write = λ t create truncate p. open_for_write t create truncate p (get p t);
  seek = λ t f n. some (f.0, n);
  read = λ t f n. read_node f.1 n (get f.0 t);
  write_all = λ t f bytes. write_node t f.0 f.1 bytes (get f.0 t);
}

of_then : (b : Bool) {a q : List ℕ} → (if b then some a else none) ≡ some q → a ≡ q
of_then true h = cc
of_then false h = cc

resolved-IsPlain : (t : Tree) (p q : List ℕ) → resolved t p ≡ some q → IsPlain (components q)
resolved-IsPlain t p q h =
    rw (sym (of_then (is_some (get (normalize_path p) t)) h)) (normalize_path-IsPlain p).0

pub toy_files-IsLawful : IsLawful toy_files
toy_files-IsLawful = record { canonical_plain = resolved-IsPlain }
