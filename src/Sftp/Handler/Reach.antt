-- ===== src/Sftp/Handler/Reach.antt =====
-- What a client can change on the disk through any sequence of requests to the handler of
-- src/sftp/mod.rs.
use swift_ssh.Prelude.{
  ℕ, suc, ◌+◌, ◌^◌, ◌<◌, ◌≤◌, ◌≡◌, refl, sym, ap, ◌∙◌, Bool, some, List, [], ◌∷◌, length, arith,
}
use swift_ssh.Error.{ok}
use swift_ssh.HashMap.{bytes_key}
use swift_ssh.Sftp.Messages.{SftpPacket}
use swift_ssh.Sftp.Path.{Component, components}
use swift_ssh.Sftp.FileSystem.{FileSystem, IsLawful}
use swift_ssh.Sftp.Handler.{SftpHandler, new, canonical, resolve_path, alloc_handle}
use swift_ssh.Sftp.Handler.Dirs.{add_dir}
use swift_ssh.Sftp.Handler.Files.{add_file}
use swift_ssh.Sftp.Handler.Requests.{handle_request}
use swift_ssh.Sftp.Handler.Moves.{Move}
use swift_ssh.Sftp.Handler.Replies.{handle_request-Replies}
use swift_ssh.Sftp.Handler.Resolve.{IsWithin, resolve_path-IsWithin}
use swift_ssh.Sftp.Handler.Confined.{IsValid, handle_request-IsValid, new-IsValid}

-- A statement on the disk that the calls on the paths below `base` leave true, with one on the files
-- that were opened there, and under which the root stays where it is.
pub record IsKept (FS : FileSystem) (base : List Component) (root : List ℕ) (D : FS.Disk → Type 0)
    (F : FS.File → Type 0) : Type 0 where
  pub anchored : (d : FS.Disk) → D d → components (canonical FS d root) ≡ base
  pub create_dir : (d : FS.Disk) (p : List ℕ) → IsWithin base p → D d → D (FS.create_dir d p).1
  pub remove_dir : (d : FS.Disk) (p : List ℕ) → IsWithin base p → D d → D (FS.remove_dir d p).1
  pub remove_file : (d : FS.Disk) (p : List ℕ) → IsWithin base p → D d → D (FS.remove_file d p).1
  pub open_write :
      (d : FS.Disk) (create truncate : Bool) (p : List ℕ)
      → IsWithin base p
      → D d
      → D (FS.open_write d create truncate p).1
  pub opened :
      (d : FS.Disk) (create truncate : Bool) (p : List ℕ) (f : FS.File)
      → IsWithin base p
      → (FS.open_write d create truncate p).0 ≡ some f
      → F f
  pub seek : (d : FS.Disk) (f g : FS.File) (offset : ℕ) → F f → FS.seek d f offset ≡ some g → F g
  pub write_all :
      (d : FS.Disk) (f : FS.File) (bytes : List ℕ) → F f → D d → D (FS.write_all d f bytes).1

module _ (FS : FileSystem) (laws : IsLawful FS) (base : List Component) (root : List ℕ)
    (D : FS.Disk → Type 0) (F : FS.File → Type 0) (kept : IsKept FS base root D F) where
  -- The handler between two requests, with the number of requests that it can still number.
  pub record IsSafe (left : ℕ) (h : SftpHandler) (disk : FS.Disk) : Type 0 where
    pub same_root : h.root ≡ root
    pub room : h.next_handle + left < 2 ^ 32
    pub valid : IsValid (IsWithin base) h
    pub holds : D disk

  resolves-IsWithin :
      (h : SftpHandler) (disk : FS.Disk) (requested path : List ℕ)
      → h.root ≡ root
      → D disk
      → resolve_path FS h disk requested ≡ ok path
      → IsWithin base path
  resolves-IsWithin h disk requested path same d e =
      rw (sym (ap (λ r. components (canonical FS disk r)) same ∙ kept.anchored disk d))
        (resolve_path-IsWithin FS laws h disk requested path e)

  move-Disk :
      (h : SftpHandler) (disk : FS.Disk) {pkt answer : SftpPacket} (h' : SftpHandler)
      (disk' : FS.Disk)
      → h.root ≡ root
      → IsValid (IsWithin base) h
      → D disk
      → Move FS h disk pkt answer h' disk'
      → D disk'
  move-Disk h disk h' disk' same v d (Move.query k) = d
  move-Disk h disk h' disk' same v d (Move.refuse k) = d
  move-Disk h disk h' disk' same v d (Move.open_dir q dir told) = d
  move-Disk h disk h' disk' same v d (Move.open_file q flags rest e told) = d
  move-Disk h disk h' disk' same v d (Move.list q path e told) = d
  move-Disk h disk h' disk' same v d (Move.close q told) = d
  move-Disk h disk h' disk' same v d (Move.mkdir q text told) =
      kept.create_dir disk q.path (resolves-IsWithin h disk q.requested q.path same d q.resolved) d
  move-Disk h disk h' disk' same v d (Move.rmdir q text told) =
      kept.remove_dir disk q.path (resolves-IsWithin h disk q.requested q.path same d q.resolved) d
  move-Disk h disk h' disk' same v d (Move.unlink q text told) =
      kept.remove_file disk q.path (resolves-IsWithin h disk q.requested q.path same d q.resolved) d
  move-Disk h disk h' disk' same v d (Move.open_only q told) =
      kept.open_write disk _ _ q.path (v.files q.named.handle q.path q.flags q.opened).1 d
  move-Disk h disk h' disk' same v d (Move.write q f g text o s told) =
      let inside = (v.files q.named.handle q.path q.flags q.opened).1 in
      kept.write_all _ g q.bytes
        (kept.seek _ f g q.offset (kept.opened disk _ _ q.path f inside o) s)
        (kept.open_write disk _ _ q.path inside d)

  -- A move numbers at most one handle more, and leaves the root.
  move-numbers :
      (h : SftpHandler) (disk : FS.Disk) {pkt answer : SftpPacket} (h' : SftpHandler)
      (disk' : FS.Disk)
      → Move FS h disk pkt answer h' disk'
      → (h'.next_handle ≤ h.next_handle + 1) × (h'.root ≡ h.root)
  unfolding add_dir add_file alloc_handle
  move-numbers h disk h' disk' (Move.query k) = (omega arith, refl)
  move-numbers h disk h' disk' (Move.refuse k) = (omega arith, refl)
  move-numbers h disk h' disk' (Move.open_dir q dir told) = (omega arith, refl)
  move-numbers h disk h' disk' (Move.open_file q flags rest e told) = (omega arith, refl)
  move-numbers h disk h' disk' (Move.list q path e told) = (omega arith, refl)
  move-numbers h disk h' disk' (Move.close q told) = (omega arith, refl)
  move-numbers h disk h' disk' (Move.mkdir q text told) = (omega arith, refl)
  move-numbers h disk h' disk' (Move.rmdir q text told) = (omega arith, refl)
  move-numbers h disk h' disk' (Move.unlink q text told) = (omega arith, refl)
  move-numbers h disk h' disk' (Move.open_only q told) = (omega arith, refl)
  move-numbers h disk h' disk' (Move.write q f g text o s told) = (omega arith, refl)

  pub handle_request-IsSafe :
      (left : ℕ) (h : SftpHandler) (disk : FS.Disk) (pkt : SftpPacket)
      → IsSafe (suc left) h disk
      → IsSafe left (handle_request FS h disk pkt).1 (handle_request FS h disk pkt).2
  handle_request-IsSafe left h disk pkt safe =
      let move = (handle_request-Replies FS h disk pkt).1 in
      let (numbers, same) = move-numbers h disk _ _ move in
      record {
        same_root = same ∙ safe.same_root;
        room = omega (arith, numbers, safe.room);
        valid =
            handle_request-IsValid FS (IsWithin base) h disk pkt
              (λ requested path e.
                resolves-IsWithin h disk requested path safe.same_root safe.holds e)
              (omega (arith, safe.room)) safe.valid;
        holds = move-Disk h disk _ _ safe.same_root safe.valid safe.holds move;
      }

-- One request after another, as the loop of the server gives them to the handler.
unfoldable pub serve :
    (FS : FileSystem) → SftpHandler → FS.Disk → List SftpPacket → SftpHandler × FS.Disk
serve FS h disk [] = (h, disk)
serve FS h disk (pkt ∷ pkts) =
    serve FS (handle_request FS h disk pkt).1 (handle_request FS h disk pkt).2 pkts

module _ (FS : FileSystem) (laws : IsLawful FS) (base : List Component) (root : List ℕ)
    (D : FS.Disk → Type 0) (F : FS.File → Type 0) (kept : IsKept FS base root D F) where
  serve-IsSafe :
      (pkts : List SftpPacket) (h : SftpHandler) (disk : FS.Disk)
      → IsSafe FS laws base root D F kept (length pkts) h disk
      → IsSafe FS laws base root D F kept 0 (serve FS h disk pkts).0 (serve FS h disk pkts).1
  unfolding serve
  serve-IsSafe [] h disk safe = safe
  serve-IsSafe (pkt ∷ pkts) h disk safe =
      serve-IsSafe pkts _ _
        (handle_request-IsSafe FS laws base root D F kept (length pkts) h disk pkt safe)

  -- Let a statement on the disk survive whatever is done to the paths below the root. Then no
  -- sequence of fewer than 2 ^ 32 requests to a new handler makes it false, and every handle that is
  -- open at the end is of a path below the root.
  pub serve_confined :
      (disk : FS.Disk) (pkts : List SftpPacket)
      → length pkts < 2 ^ 32
      → D disk
      → D (serve FS (new root) disk pkts).1
        × IsValid (IsWithin base) (serve FS (new root) disk pkts).0
  unfolding new
  serve_confined disk pkts few d =
      let safe = serve-IsSafe pkts (new root) disk (record {
        same_root = refl;
        room = omega (arith, few);
        valid = new-IsValid (IsWithin base) root;
        holds = d;
      }) in
      (safe.holds, safe.valid)
