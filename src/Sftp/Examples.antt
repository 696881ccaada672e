-- ===== src/Sftp/Examples.antt =====
-- The theorems on SFTP at small inputs, on the toy file system.
use swift_ssh.Prelude.{
  ℕ, ◌≡◌, ◌≢◌, refl, sym, ap, ◌∙◌, Bool, true, false, Option, none, some, List, [], ◌∷◌, ◌++◌,
  ascii, is_some, some-injective, Bool-cases, inl, inr, arith,
}
use swift_ssh.Error.{ok}
use swift_ssh.HashMap.{bytes_key, get, insert, remove, get-insert_ne, get-remove}
use swift_ssh.Prelude.{bytes_ne}
use swift_ssh.Packet.Buf.{to_be_bytes}
use swift_ssh.Packet.Utf8.{is_utf8}
use swift_ssh.Sftp
use swift_ssh.Sftp.Attrs.{FileAttrs, encode, decode, has}
use swift_ssh.Sftp.Attrs.Laws.{decode-encode}
use swift_ssh.Sftp.Messages.{SftpPacket, new_packet, build_sftp_handle}
use swift_ssh.Sftp.Path.{
  Component, root_dir, normal, components, pieces, leading, body, component, is_absolute,
  without_slash, join_path, separator, ends_with_slash, normalize_path, normalize_from,
  collect_from, as_path, pop, starts_with, is_prefix, same_component,
}
use swift_ssh.Sftp.FileSystem.Toy.{
  make, unmake, unlink, open_for_write, write_node, Tree, Node, directory, file, toy_files,
  toy_files-IsLawful,
}
use swift_ssh.Sftp.Handler.{new, requested_path, canonical, unwrap_or, resolve_path}
use swift_ssh.Sftp.Handler.Files.{read_file, write_file}
use swift_ssh.Sftp.Handler.Requests.{handle_request}
use swift_ssh.Sftp.Handler.Moves.{Replies}
use swift_ssh.Sftp.Handler.Resolve.{IsWithin, resolve_path-IsWithin}
use swift_ssh.Sftp.Handler.Confined.{IsValid}
use swift_ssh.Sftp.Handler.Reach.{IsKept, serve, serve_confined}
use swift_ssh.Sftp.Handler.Handles.{open_request, read_request, write_request, open_leads}

abbrev attrs : FileAttrs
attrs = record {
  flags = 5;
  size = some 1024;
  uid = none;
  gid = none;
  permissions = some 0o755;
  atime = none;
  mtime = none;
}

decode-encode_example : decode (encode attrs ++ 9 ∷ []) ≡ ok (attrs, 9 ∷ [])
unfolding has
decode-encode_example = decode-encode attrs (9 ∷ []) (record {
  flags_u32 = omega arith;
  size_u64 = omega arith;
  uid_u32 = tt;
  gid_u32 = tt;
  permissions_u32 = omega arith;
  atime_u32 = tt;
  mtime_u32 = tt;
  size_told = refl;
  uid_told = refl;
  gid_told = refl;
  permissions_told = refl;
  atime_told = refl;
  mtime_told = refl;
})

abbrev pub srv : List ℕ
srv = ascii "/srv"

abbrev pub passwd : List ℕ
passwd = ascii "/etc/passwd"

abbrev pub secret : Node
secret = file (ascii "root")

abbrev pub disk : Tree
disk = (srv, directory) ∷ (passwd, secret) ∷ []

abbrev pub base : List Component
base = root_dir ∷ normal (ascii "srv") ∷ []

note_resolves : resolve_path toy_files (new srv) disk (ascii "./a/../n") ≡ ok (ascii "/srv/n")
unfolding resolve_path requested_path canonical unwrap_or new components pieces leading body
    component is_absolute without_slash join_path separator ends_with_slash normalize_path
    normalize_from collect_from as_path pop starts_with is_prefix same_component get
note_resolves = refl

srv_stays : components (canonical toy_files disk (new srv).root) ≡ base
unfolding canonical unwrap_or new components pieces leading body component is_absolute join_path
    separator ends_with_slash normalize_path normalize_from collect_from as_path pop get
srv_stays = refl

resolve_path-IsWithin_example :
    IsWithin (components (canonical toy_files disk (new srv).root)) (ascii "/srv/n")
resolve_path-IsWithin_example =
    resolve_path-IsWithin toy_files toy_files-IsLawful (new srv) disk (ascii "./a/../n")
      (ascii "/srv/n") note_resolves

abbrev mkdir_note : SftpPacket
mkdir_note = new_packet Sftp.fxp_mkdir 7 (0 ∷ 0 ∷ 0 ∷ 1 ∷ b'n' ∷ [])

-- The file that a client of `/srv` is not to change.
abbrev pub Kept : Tree → Type 0
Kept t = get passwd t ≡ some secret

abbrev pub Elsewhere : List ℕ × ℕ → Type 0
Elsewhere f = f.0 ≢ passwd

-- The first byte of the second component's name.
second : List Component → ℕ
second (c ∷ normal (b ∷ s) ∷ cs) = b
second _ = 0

not_inside : (p : List ℕ) → IsWithin base p → p ≢ passwd
unfolding second components pieces leading body component is_absolute
not_inside p w e = absurd (omega (arith, ap second (sym (ap components e) ∙ w.path)))

inserted : (t : Tree) (p : List ℕ) (n : Node) → p ≢ passwd → Kept t → Kept (insert p n t)
inserted t p n differ k = get-insert_ne p passwd n t (λ e. differ (sym e)) ∙ k

removed : (t : Tree) (p : List ℕ) → p ≢ passwd → Kept t → Kept (remove p t)
removed t p differ k = rw (get-remove p passwd t, bytes_ne passwd p (λ e. differ (sym e))) k

make-Kept : (t : Tree) (p : List ℕ) (o : Option Node) → p ≢ passwd → Kept t → Kept (make t p o).1
make-Kept t p none differ k = inserted t p directory differ k
make-Kept t p (some n) differ k = k

unmake-Kept :
    (t : Tree) (p : List ℕ) (o : Option Node) → p ≢ passwd → Kept t → Kept (unmake t p o).1
unmake-Kept t p none differ k = k
unmake-Kept t p (some directory) differ k = removed t p differ k
unmake-Kept t p (some (file bytes)) differ k = k

unlink-Kept :
    (t : Tree) (p : List ℕ) (o : Option Node) → p ≢ passwd → Kept t → Kept (unlink t p o).1
unlink-Kept t p none differ k = k
unlink-Kept t p (some directory) differ k = k
unlink-Kept t p (some (file bytes)) differ k = removed t p differ k

open-Kept :
    (t : Tree) (create truncate : Bool) (p : List ℕ) (o : Option Node)
    → p ≢ passwd
    → Kept t
    → Kept (open_for_write t create truncate p o).1
open-Kept t create truncate p (some directory) differ k = k
open-Kept t create true p (some (file bytes)) differ k = inserted t p (file []) differ k
open-Kept t create false p (some (file bytes)) differ k = k
open-Kept t true truncate p none differ k = inserted t p (file []) differ k
open-Kept t false truncate p none differ k = k

opened_path : List ℕ × ℕ → List ℕ
opened_path f = f.0

open-Elsewhere :
    (t : Tree) (create truncate : Bool) (p : List ℕ) (o : Option Node) (f : List ℕ × ℕ)
    → p ≢ passwd
    → (open_for_write t create truncate p o).0 ≡ some f
    → Elsewhere f
open-Elsewhere t create truncate p (some directory) f differ e = absurd (ground arith)
open-Elsewhere t create truncate p (some (file bytes)) f differ e =
    λ same. differ (ap (λ (g : List ℕ × ℕ). g.0) (some-injective e) ∙ same)
open-Elsewhere t true truncate p none f differ e =
    λ same. differ (ap (λ (g : List ℕ × ℕ). g.0) (some-injective e) ∙ same)
open-Elsewhere t false truncate p none f differ e = absurd (ground arith)

write-Kept :
    (t : Tree) (p : List ℕ) (n : ℕ) (bytes : List ℕ) (o : Option Node)
    → p ≢ passwd
    → Kept t
    → Kept (write_node t p n bytes o).1
write-Kept t p n bytes none differ k = k
write-Kept t p n bytes (some directory) differ k = k
write-Kept t p n bytes (some (file old)) differ k = inserted t p _ differ k

canonical-srv : (t : Tree) → components (canonical toy_files t srv) ≡ base
unfolding canonical unwrap_or components pieces leading body component is_absolute join_path
    separator ends_with_slash normalize_path normalize_from collect_from as_path pop
canonical-srv t = elim (Bool-cases (is_some (get srv t))) [ inl e ↦ rw e refl | inr e ↦ rw e refl ]

pub kept : IsKept toy_files base srv Kept Elsewhere
kept = record {
  anchored = λ t k. canonical-srv t;
  create_dir = λ t p w k. make-Kept t p (get p t) (not_inside p w) k;
  remove_dir = λ t p w k. unmake-Kept t p (get p t) (not_inside p w) k;
  remove_file = λ t p w k. unlink-Kept t p (get p t) (not_inside p w) k;
  open_write = λ t c tr p w k. open-Kept t c tr p (get p t) (not_inside p w) k;
  opened = λ t c tr p f w e. open-Elsewhere t c tr p (get p t) f (not_inside p w) e;
  seek = λ t f g n h e same. h (ap (λ (x : List ℕ × ℕ). x.0) (some-injective e) ∙ same);
  write_all = λ t f bytes h k. write-Kept t f.0 f.1 bytes (get f.0 t) h k;
}

pub disk-Kept : Kept disk
unfolding get
disk-Kept = refl

-- A client makes a directory and tries to remove the file.
abbrev requests : List SftpPacket
requests =
    mkdir_note ∷ new_packet Sftp.fxp_remove 8 (0 ∷ 0 ∷ 0 ∷ 16 ∷ ascii "../../etc/passwd") ∷ []

serve_confined_example :
    Kept (serve toy_files (new srv) disk requests).1
    × IsValid (IsWithin base) (serve toy_files (new srv) disk requests).0
serve_confined_example =
    serve_confined toy_files toy_files-IsLawful base srv Kept Elsewhere kept disk requests
      (omega arith) disk-Kept

open_leads_example :
    ((handle_request toy_files (new srv) disk (open_request 1 (ascii "./a/../n") 10 [])).0
      ≡ build_sftp_handle 1 (to_be_bytes (new srv).next_handle))
    × (handle_request toy_files
          (handle_request toy_files (new srv) disk (open_request 1 (ascii "./a/../n") 10 [])).1
          disk
          (write_request 2 (to_be_bytes (new srv).next_handle) 0 (b'h' ∷ b'i' ∷ []))
        ≡ (
          (write_file toy_files disk 2 (ascii "/srv/n") 10 0 (b'h' ∷ b'i' ∷ [])).0,
          (handle_request toy_files (new srv) disk (open_request 1 (ascii "./a/../n") 10 [])).1,
          (write_file toy_files disk 2 (ascii "/srv/n") 10 0 (b'h' ∷ b'i' ∷ [])).1,
        ))
    × ((handle_request toy_files
          (handle_request toy_files (new srv) disk (open_request 1 (ascii "./a/../n") 10 [])).1
          disk
          (read_request 2 (to_be_bytes (new srv).next_handle) 0 100)).0
        ≡ read_file toy_files disk 2 (ascii "/srv/n") 0 100)
open_leads_example =
    open_leads toy_files (new srv) disk disk 1 2 10 0 100 (ascii "./a/../n") [] (ascii "/srv/n")
      (b'h' ∷ b'i' ∷ []) (omega arith) (unfold is_utf8 in refl) (omega arith) note_resolves
      (omega arith) (omega arith) (omega arith)
