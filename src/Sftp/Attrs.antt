-- ===== src/Sftp/Attrs.antt =====
-- `FileAttrs` of src/sftp/mod.rs: the attributes of a file, and their wire form.
pub mod Laws
use swift_ssh.Prelude.{
  ℕ, ◌+◌, ◌*◌, ◌/◌, ◌%◌, ◌^◌, bit_and, Bool, not, Option, none, some, List, [], ◌++◌, ◌==◌,
  if◌then◌else◌,
}
use swift_ssh.Error.{SshResult, ok, sftp, msg, ok_or, ◌>>=◌}
use swift_ssh.Packet.Buf.{to_be_bytes, read_u32_be, write_u32, read_u32}
use swift_ssh.Sftp.{attr_size, attr_uidgid, attr_permissions, attr_acmodtime}

pub record FileAttrs : Type 0 where
  pub flags : ℕ
  pub size : Option ℕ
  pub uid : Option ℕ
  pub gid : Option ℕ
  pub permissions : Option ℕ
  pub atime : Option ℕ
  pub mtime : Option ℕ

-- `FileAttrs::default()`
unfoldable pub default_attrs : FileAttrs
default_attrs = record {
  flags = 0;
  size = none;
  uid = none;
  gid = none;
  permissions = none;
  atime = none;
  mtime = none;
}

-- `u64::to_be_bytes`
unfoldable pub to_be_bytes_u64 : ℕ → List ℕ
to_be_bytes_u64 v = to_be_bytes (v / 2 ^ 32) ++ to_be_bytes (v % 2 ^ 32)

and_then {ℓ κ} : {A : Type ℓ} {B : Type κ} → Option A → (A → Option B) → Option B
and_then none f = none
and_then (some a) f = f a

-- `read_u64::<BigEndian>` on a cursor
unfoldable pub read_u64_be : List ℕ → Option (ℕ × List ℕ)
unfolding and_then
read_u64_be cursor =
    and_then (read_u32_be cursor)
      λ (high, c). and_then (read_u32_be c) λ (low, rest). some (high * 2 ^ 32 + low, rest)

-- `if let Some(size) = self.size`
unfoldable pub write_size : List ℕ → Option ℕ → List ℕ
write_size buf none = buf
write_size buf (some size) = buf ++ to_be_bytes_u64 size

-- `if let Some(perms) = self.permissions`
unfoldable pub write_one : List ℕ → Option ℕ → List ℕ
write_one buf none = buf
write_one buf (some v) = write_u32 buf v

-- `if let (Some(a), Some(b)) = ...`
unfoldable pub write_both : List ℕ → Option ℕ → Option ℕ → List ℕ
write_both buf none b = buf
write_both buf (some a) none = buf
write_both buf (some a) (some b) = write_u32 (write_u32 buf a) b

unfoldable pub encode : FileAttrs → List ℕ
encode attrs =
    let buf = write_u32 [] attrs.flags in
    let buf = write_size buf attrs.size in
    let buf = write_both buf attrs.uid attrs.gid in
    let buf = write_one buf attrs.permissions in write_both buf attrs.atime attrs.mtime

-- `flags & mask != 0`
unfoldable pub has : ℕ → ℕ → Bool
has flags mask = not (bit_and flags mask == 0)

-- The size, when its flag is set.
unfoldable pub read_size : Bool → List ℕ → SshResult (Option ℕ × List ℕ)
read_size present cursor =
    if present
    then (do
      (size, c) ← ok_or (read_u64_be cursor) (sftp (msg "Failed to read file size"))
      ok (some size, c))
    else ok (none, cursor)

unfoldable pub read_one : Bool → List ℕ → SshResult (Option ℕ × List ℕ)
read_one present cursor =
    if present then (do (v, c) ← read_u32 cursor; ok (some v, c)) else ok (none, cursor)

unfoldable pub read_both : Bool → List ℕ → SshResult (Option ℕ × Option ℕ × List ℕ)
read_both present cursor =
    if present
    then (do (a, c) ← read_u32 cursor; (b, c) ← read_u32 c; ok (some a, some b, c))
    else ok (none, none, cursor)

unfoldable pub decode : List ℕ → SshResult (FileAttrs × List ℕ)
decode cursor = do
  (flags, c) ← read_u32 cursor
  (size, c) ← read_size (has flags attr_size) c
  (uid, gid, c) ← read_both (has flags attr_uidgid) c
  (permissions, c) ← read_one (has flags attr_permissions) c
  (atime, mtime, c) ← read_both (has flags attr_acmodtime) c
  ok (
    record {
      flags = flags;
      size = size;
      uid = uid;
      gid = gid;
      permissions = permissions;
      atime = atime;
      mtime = mtime;
    },
    c,
  )
