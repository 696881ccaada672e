-- ===== src/Sftp/Handler/Handles.antt =====
-- The life of a handle of src/sftp/mod.rs: it is new when it is given out, and reads and writes
-- through it go to the path that was opened.
use swift_ssh.Prelude.{
  ℕ, ◌^◌, ◌<◌, ◌≡◌, ◌≢◌, refl, sym, ap, ◌∙◌, Option, none, some, List, [], ◌++◌, Option-cases, inl,
  inr, arith,
}
use swift_ssh.Error.{ok}
use swift_ssh.HashMap.{HashMap, bytes_key, get, get-insert_self, get-insert_ne}
use swift_ssh.Packet.Utf8.{IsUtf8}
use swift_ssh.Packet.Buf.{to_be_bytes, read_u32_be}
use swift_ssh.Packet.Buf.Laws.{
  string_bytes, Fits, read_u32_be-to_be_bytes, read_u32-to_be_bytes, read_string-string_bytes,
  read_utf8-string_bytes,
}
use swift_ssh.Sftp
use swift_ssh.Sftp.Attrs.{to_be_bytes_u64}
use swift_ssh.Sftp.Attrs.Laws.{read_u64_be-to_be_bytes_u64}
use swift_ssh.Sftp.Messages.{SftpPacket, new_packet, build_sftp_handle}
use swift_ssh.Sftp.FileSystem.{FileSystem}
use swift_ssh.Sftp.Handler.{SftpHandler, or_return, else_return, resolve_path, alloc_handle}
use swift_ssh.Sftp.Handler.Files.{
  add_file, handle_open, handle_read, read_file, handle_write, write_file,
}
use swift_ssh.Sftp.Handler.Requests.{handle_request}
use swift_ssh.Sftp.Handler.Confined.{Files, IsValid}

-- The requests as the protocol draft lays them out.
abbrev pub open_request : ℕ → List ℕ → ℕ → List ℕ → SftpPacket
open_request id path flags attrs =
    new_packet Sftp.fxp_open id (string_bytes path ++ (to_be_bytes flags ++ attrs))

abbrev pub read_request : ℕ → List ℕ → ℕ → ℕ → SftpPacket
read_request id handle offset n =
    new_packet Sftp.fxp_read id
      (string_bytes handle ++ (to_be_bytes_u64 offset ++ (to_be_bytes n ++ [])))

abbrev pub write_request : ℕ → List ℕ → ℕ → List ℕ → SftpPacket
write_request id handle offset bytes =
    new_packet Sftp.fxp_write id
      (string_bytes handle ++ (to_be_bytes_u64 offset ++ (string_bytes bytes ++ [])))

-- What four bytes read as.
number : Option (ℕ × List ℕ) → ℕ
number none = 0
number (some p) = p.0

to_be_bytes-injective : (m n : ℕ) → m < 2 ^ 32 → n < 2 ^ 32 → to_be_bytes m ≡ to_be_bytes n → m ≡ n
unfolding number
to_be_bytes-injective m n hm hn e = ap number (
    sym (read_u32_be-to_be_bytes m [] hm)
    ∙ ap (λ b. read_u32_be (b ++ [])) e
    ∙ read_u32_be-to_be_bytes n [] hn)

-- A number that has not been given out stands in neither table.
not_given :
    {V : Type 0} (P : List ℕ → Type 0) (next : ℕ) (m : HashMap (List ℕ) (List ℕ × V))
    → next < 2 ^ 32
    → Files P next m
    → get (to_be_bytes next) m ≡ none
not_given P next m small files = elim (Option-cases (get (to_be_bytes next) m)) [
  | inl e ↦ e
  | inr ((path, v), e) ↦
      let ((n, lt, same), p) = files _ path v e in
      absurd (omega (arith, to_be_bytes-injective next n small (omega arith) same))
]

-- The handle that a new file gets was in neither table; it stands for the file, and every other
-- handle stands for what it stood for.
pub add_file_fresh :
    (P : List ℕ → Type 0) (h : SftpHandler) (path : List ℕ) (flags : ℕ)
    → IsValid P h
    → (get (add_file h path flags).0 h.open_files ≡ none)
      × (get (add_file h path flags).0 h.open_dirs ≡ none)
      × (get (add_file h path flags).0 (add_file h path flags).1.open_files ≡ some (path, flags))
      × ((other : List ℕ)
          → other ≢ (add_file h path flags).0
          → get other (add_file h path flags).1.open_files ≡ get other h.open_files)
unfolding add_file alloc_handle
add_file_fresh P h path flags v = (
  not_given P h.next_handle h.open_files v.ids v.files,
  not_given P h.next_handle h.open_dirs v.ids v.dirs,
  get-insert_self _ _ _,
  λ other differ. get-insert_ne _ _ _ _ differ,
)

module _ (FS : FileSystem) where
  handle_open_lem :
      (h : SftpHandler) (disk : FS.Disk) (id flags : ℕ) (path attrs resolved : List ℕ)
      → Fits path
      → IsUtf8 path
      → flags < 2 ^ 32
      → resolve_path FS h disk path ≡ ok resolved
      → handle_open FS h disk (open_request id path flags attrs)
        ≡ (build_sftp_handle id (add_file h resolved flags).0, (add_file h resolved flags).1)
  unfolding handle_open or_return
  handle_open_lem h disk id flags path attrs resolved fits u small e =
      rw
        (
          read_utf8-string_bytes path (to_be_bytes flags ++ attrs) fits u,
          read_u32-to_be_bytes flags attrs small,
          e,
        )
        refl

  handle_write_lem :
      (h : SftpHandler) (disk : FS.Disk) (id offset flags : ℕ) (handle bytes path : List ℕ)
      → Fits handle
      → offset < 2 ^ 64
      → Fits bytes
      → get handle h.open_files ≡ some (path, flags)
      → handle_write FS h disk (write_request id handle offset bytes)
        ≡ write_file FS disk id path flags offset bytes
  unfolding handle_write or_return else_return
  handle_write_lem h disk id offset flags handle bytes path fh ho fb e =
      rw
        (
          read_string-string_bytes handle _ fh,
          read_u64_be-to_be_bytes_u64 offset _ ho,
          read_string-string_bytes bytes [] fb,
          e,
        )
        refl

  handle_read_lem :
      (h : SftpHandler) (disk : FS.Disk) (id offset n flags : ℕ) (handle path : List ℕ)
      → Fits handle
      → offset < 2 ^ 64
      → n < 2 ^ 32
      → get handle h.open_files ≡ some (path, flags)
      → handle_read FS h disk (read_request id handle offset n) ≡ read_file FS disk id path offset n
  unfolding handle_read or_return else_return
  handle_read_lem h disk id offset n flags handle path fh ho hn e =
      rw
        (
          read_string-string_bytes handle _ fh,
          read_u64_be-to_be_bytes_u64 offset _ ho,
          read_u32-to_be_bytes n [] hn,
          e,
        )
        refl

  request_open :
      (h : SftpHandler) (disk : FS.Disk) (id flags : ℕ) (path attrs : List ℕ)
      → handle_request FS h disk (open_request id path flags attrs) ≡ (
        (handle_open FS h disk (open_request id path flags attrs)).0,
        (handle_open FS h disk (open_request id path flags attrs)).1,
        disk,
      )
  unfolding handle_request
  request_open h disk id flags path attrs = refl

  request_write :
      (h : SftpHandler) (disk : FS.Disk) (id offset : ℕ) (handle bytes : List ℕ)
      → handle_request FS h disk (write_request id handle offset bytes) ≡ (
        (handle_write FS h disk (write_request id handle offset bytes)).0,
        h,
        (handle_write FS h disk (write_request id handle offset bytes)).1,
      )
  unfolding handle_request
  request_write h disk id offset handle bytes = refl

  request_read :
      (h : SftpHandler) (disk : FS.Disk) (id offset n : ℕ) (handle : List ℕ)
      → handle_request FS h disk (read_request id handle offset n)
        ≡ (handle_read FS h disk (read_request id handle offset n), h, disk)
  unfolding handle_request
  request_read h disk id offset n handle = refl

  short : (next : ℕ) → Fits (to_be_bytes next)
  unfolding to_be_bytes
  short next = omega arith

  -- An OPEN of a path that resolves is answered by the next handle; a WRITE with this handle, at any
  -- later time of the disk, writes to the path that it resolved to, under the flags of the OPEN, and
  -- a READ reads there.
  pub open_leads :
      (h : SftpHandler) (disk later : FS.Disk) (id id' flags offset n : ℕ)
      (path attrs resolved bytes : List ℕ)
      → Fits path
      → IsUtf8 path
      → flags < 2 ^ 32
      → resolve_path FS h disk path ≡ ok resolved
      → offset < 2 ^ 64
      → n < 2 ^ 32
      → Fits bytes
      → ((handle_request FS h disk (open_request id path flags attrs)).0
          ≡ build_sftp_handle id (to_be_bytes h.next_handle))
        × (handle_request FS
              (handle_request FS h disk (open_request id path flags attrs)).1
              later
              (write_request id' (to_be_bytes h.next_handle) offset bytes)
            ≡ (
              (write_file FS later id' resolved flags offset bytes).0,
              (handle_request FS h disk (open_request id path flags attrs)).1,
              (write_file FS later id' resolved flags offset bytes).1,
            ))
        × ((handle_request FS
              (handle_request FS h disk (open_request id path flags attrs)).1
              later
              (read_request id' (to_be_bytes h.next_handle) offset n)).0
            ≡ read_file FS later id' resolved offset n)
  unfolding add_file alloc_handle
  open_leads h disk later id id' flags offset n path attrs resolved bytes fp up sf e so sn fb =
      let h' = (add_file h resolved flags).1 in
      let found = get-insert_self (to_be_bytes h.next_handle) (resolved, flags) h.open_files in
      rw
        (
          request_open h disk id flags path attrs,
          handle_open_lem h disk id flags path attrs resolved fp up sf e,
        )
        (
          refl,
          request_write h' later id' offset (to_be_bytes h.next_handle) bytes
              ∙ ap (λ w. (w.0, h', w.1))
                  (handle_write_lem h' later id' offset flags _ bytes resolved (short _) so fb
                    found),
          ap (λ r. r.0) (request_read h' later id' offset n (to_be_bytes h.next_handle))
              ∙ handle_read_lem h' later id' offset n flags _ resolved (short _) so sn found,
        )
