-- ===== src/Sftp/FileSystem.antt =====
-- `std::fs` as src/sftp/mod.rs uses it, over an unknown state of the disk. The code tells no two
-- errors of it apart, so that a failed call is `none` or `false`.
pub mod Toy
use swift_ssh.Prelude.{ℕ, ◌≡◌, Bool, Option, some, List}
use swift_ssh.Sftp.Path.{components}
use swift_ssh.Sftp.Path.Normal.{IsPlain}

-- `std::fs::Metadata`, as far as it is read
pub record Metadata : Type 0 where
  pub len : ℕ
  pub mode : ℕ
  pub uid : ℕ
  pub gid : ℕ

pub record FileSystem : Type 1 where
  pub Disk : Type 0
  -- an open `std::fs::File`, with its position
  pub File : Type 0
  pub canonicalize : Disk → List ℕ → Option (List ℕ)
  pub is_dir : Disk → List ℕ → Bool
  pub metadata : Disk → List ℕ → Option Metadata
  -- `read_dir`, the entries that fail left out: the name and the `metadata()` of each
  pub read_dir : Disk → List ℕ → Option (List (List ℕ × Option Metadata))
  pub create_dir : Disk → List ℕ → Bool × Disk
  pub remove_dir : Disk → List ℕ → Bool × Disk
  pub remove_file : Disk → List ℕ → Bool × Disk
  -- `File::open`
  pub open_read : Disk → List ℕ → Option File
  -- `OpenOptions::new().write(true).create(c).truncate(t).open(path)`
  pub open_write : Disk → Bool → Bool → List ℕ → Option File × Disk
  -- `seek(SeekFrom::Start(offset))`
  pub seek : Disk → File → ℕ → Option File
  -- `read` into a buffer of a length: the bytes that it got
  pub read : Disk → File → ℕ → Option (List ℕ)
  pub write_all : Disk → File → List ℕ → Bool × Disk

-- What `std::fs` promises, as far as the handler's safety rests on it: `canonicalize` gives a path
-- that is free of `.` and `..`.
pub record IsLawful (FS : FileSystem) : Type 0 where
  pub canonical_plain :
      (disk : FS.Disk) (p q : List ℕ) → FS.canonicalize disk p ≡ some q → IsPlain (components q)
