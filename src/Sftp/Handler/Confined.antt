-- ===== src/Sftp/Handler/Confined.antt =====
-- The handles of src/sftp/mod.rs, and the paths that are filed under them.
use swift_ssh.Prelude.{
  ℕ, ◌+◌, ◌%◌, ◌^◌, ◌<◌, ◌≤◌, ◌≡◌, refl, sym, ap, ◌∙◌, Bool, true, false, Option, none, some, List,
  bytes_eq, bytes_eq_iff, if◌then◌else◌, arith,
}
use swift_ssh.Error.{ok}
use swift_ssh.HashMap.{HashMap, bytes_key, get, insert, remove, get-insert, get-remove}
use swift_ssh.Packet.Buf.{to_be_bytes}
use swift_ssh.Sftp.Messages.{SftpPacket}
use swift_ssh.Sftp.FileSystem.{FileSystem}
use swift_ssh.Sftp.Handler.{SftpHandler, new, alloc_handle, resolve_path}
use swift_ssh.Sftp.Handler.Dirs.{add_dir}
use swift_ssh.Sftp.Handler.Files.{add_file}
use swift_ssh.Sftp.Handler.Requests.{handle_request}
use swift_ssh.Sftp.Handler.Moves.{Move, mark_listed, without_handle}
use swift_ssh.Sftp.Handler.Replies.{handle_request-Replies}

-- A handle is the number under which it was given out.
abbrev pub IsGiven : ℕ → List ℕ → Type 0
IsGiven next handle = (n : ℕ) × (n < next) × (handle ≡ to_be_bytes n)

-- What is filed under a handle, of the files and of the directories: a path that satisfies `P`.
abbrev pub Files {ℓ} : {V : Type ℓ} → (List ℕ → Type 0) → ℕ → HashMap (List ℕ) (List ℕ × V) → Type ℓ
Files {V} P next m =
    (handle path : List ℕ) (v : V) → get handle m ≡ some (path, v) → IsGiven next handle × P path

-- The numbers of the handles are u32 and have been given out, and each path satisfies `P`.
pub record IsValid (P : List ℕ → Type 0) (h : SftpHandler) : Type 0 where
  pub ids : h.next_handle < 2 ^ 32
  pub files : Files P h.next_handle h.open_files
  pub dirs : Files P h.next_handle h.open_dirs

pub new-IsValid : (P : List ℕ → Type 0) (root : List ℕ) → IsValid P (new root)
unfolding new get
new-IsValid P root = record {
  ids = omega arith;
  files = λ handle path v e. cc;
  dirs = λ handle path v e. cc;
}

of_some_pair {ℓ} :
    {W : Type ℓ} (entry other : List ℕ × W) → some entry ≡ some other → entry.0 ≡ other.0
of_some_pair {W = W} entry other h = ap (λ o. path_of o) h
  where
    path_of : Option (List ℕ × W) → List ℕ
    path_of none = entry.0
    path_of (some e) = e.0

module _ {ℓ} {V : Type ℓ} (P : List ℕ → Type 0) (m : HashMap (List ℕ) (List ℕ × V)) (next : ℕ) where
  later-Files : (bound : ℕ) → next ≤ bound → Files P next m → Files P bound m
  later-Files bound le h handle path v e =
      let ((n, lt, same), p) = h handle path v e in ((n, omega arith, same), p)

  insert-Files :
      (handle path : List ℕ) (v : V)
      → IsGiven next handle
      → P path
      → Files P next m
      → Files P next (insert handle (path, v) m)
  insert-Files handle path v given p h k q w e =
      inserted (bytes_eq k handle) refl (sym (get-insert handle k (path, v) m) ∙ e)
    where
      inserted :
          (b : Bool)
          → bytes_eq k handle ≡ b
          → (if b then some (path, v) else get k m) ≡ some (q, w)
          → IsGiven next k × P q
      inserted true same found =
          rw ((bytes_eq_iff k handle).0 same)
            (given, rw (sym (of_some_pair (path, v) (q, w) found)) p)
      inserted false differ found = h k q w found

  remove-Files : (handle : List ℕ) → Files P next m → Files P next (remove handle m)
  remove-Files handle h k q w e = removed (bytes_eq k handle) (sym (get-remove handle k m) ∙ e)
    where
      removed : (b : Bool) → (if b then none else get k m) ≡ some (q, w) → IsGiven next k × P q
      removed true found = cc
      removed false found = h k q w found

-- A new entry takes the next number, while there is one.
IsGiven-next : (h : SftpHandler) → IsGiven (h.next_handle + 1) (to_be_bytes h.next_handle)
IsGiven-next h = (h.next_handle, omega arith, refl)

wrapped :
    (h : SftpHandler)
    → h.next_handle + 1 < 2 ^ 32
    → (h.next_handle + 1) % 2 ^ 32 ≡ h.next_handle + 1
wrapped h room = omega arith

module _ (P : List ℕ → Type 0) (h : SftpHandler) (v : IsValid P h) where
  add_dir-IsValid :
      (path : List ℕ) → h.next_handle + 1 < 2 ^ 32 → P path → IsValid P (add_dir h path).1
  unfolding add_dir alloc_handle
  add_dir-IsValid path room p = record {
    ids = omega arith;
    files = rw (wrapped h room) (later-Files P h.open_files h.next_handle _ (omega arith) v.files);
    dirs = rw (wrapped h room) (
        insert-Files P h.open_dirs (h.next_handle + 1) _ path false (IsGiven-next h) p
          (later-Files P h.open_dirs h.next_handle _ (omega arith) v.dirs));
  }

  add_file-IsValid :
      (path : List ℕ) (flags : ℕ)
      → h.next_handle + 1 < 2 ^ 32
      → P path
      → IsValid P (add_file h path flags).1
  unfolding add_file alloc_handle
  add_file-IsValid path flags room p = record {
    ids = omega arith;
    files = rw (wrapped h room) (
        insert-Files P h.open_files (h.next_handle + 1) _ path flags (IsGiven-next h) p
          (later-Files P h.open_files h.next_handle _ (omega arith) v.files));
    dirs = rw (wrapped h room) (later-Files P h.open_dirs h.next_handle _ (omega arith) v.dirs);
  }

  mark_listed-IsValid :
      (handle path : List ℕ)
      → get handle h.open_dirs ≡ some (path, false)
      → IsValid P (mark_listed h handle path)
  mark_listed-IsValid handle path e =
      let (given, p) = v.dirs handle path false e in
      record {
        ids = v.ids;
        files = v.files;
        dirs = insert-Files P h.open_dirs h.next_handle handle path true given p v.dirs;
      }

  without_handle-IsValid : (handle : List ℕ) → IsValid P (without_handle h handle)
  without_handle-IsValid handle = record {
    ids = v.ids;
    files = remove-Files P h.open_files h.next_handle handle v.files;
    dirs = remove-Files P h.open_dirs h.next_handle handle v.dirs;
  }

module _ (FS : FileSystem) (P : List ℕ → Type 0) (h : SftpHandler) (disk : FS.Disk) where
  -- The paths that the handler resolves now satisfy `P`.
  abbrev pub Resolves : Type 0
  Resolves = (requested path : List ℕ) → resolve_path FS h disk requested ≡ ok path → P path

  move-IsValid :
      {pkt answer : SftpPacket} {h' : SftpHandler} {disk' : FS.Disk}
      → Resolves
      → h.next_handle + 1 < 2 ^ 32
      → IsValid P h
      → Move FS h disk pkt answer h' disk'
      → IsValid P h'
  move-IsValid res room v (Move.query k) = v
  move-IsValid res room v (Move.refuse k) = v
  move-IsValid res room v (Move.open_dir q dir told) =
      add_dir-IsValid P h v q.path room (res q.requested q.path q.resolved)
  move-IsValid res room v (Move.open_file q flags rest e told) =
      add_file-IsValid P h v q.path flags room (res q.requested q.path q.resolved)
  move-IsValid res room v (Move.list q path e told) = mark_listed-IsValid P h v q.handle path e
  move-IsValid res room v (Move.close q told) = without_handle-IsValid P h v q.handle
  move-IsValid res room v (Move.mkdir q text told) = v
  move-IsValid res room v (Move.rmdir q text told) = v
  move-IsValid res room v (Move.unlink q text told) = v
  move-IsValid res room v (Move.open_only q told) = v
  move-IsValid res room v (Move.write q f g text o s told) = v

  -- A request keeps the tables of handles valid, while numbers for them are left.
  pub handle_request-IsValid :
      (pkt : SftpPacket)
      → Resolves
      → h.next_handle + 1 < 2 ^ 32
      → IsValid P h
      → IsValid P (handle_request FS h disk pkt).1
  handle_request-IsValid pkt res room v =
      move-IsValid res room v (handle_request-Replies FS h disk pkt).1
