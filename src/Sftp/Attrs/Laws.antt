-- ===== src/Sftp/Attrs/Laws.antt =====
-- The attributes of a file are read as they were written.
use swift_ssh.Prelude.{
  ℕ, ◌/◌, ◌%◌, ◌^◌, ◌<◌, ◌≡◌, refl, sym, ap, Option, none, some, List, [], ◌++◌, append-nil,
  append_assoc, is_some, arith,
}
use swift_ssh.Error.{ok}
use swift_ssh.Packet.Buf.{to_be_bytes, write_u32}
use swift_ssh.Packet.Buf.Laws.{read_u32_be-to_be_bytes, read_u32-to_be_bytes, write_laws}
use swift_ssh.Sftp.{attr_size, attr_uidgid, attr_permissions, attr_acmodtime}
use swift_ssh.Sftp.Attrs.{
  FileAttrs, to_be_bytes_u64, read_u64_be, write_size, write_one, write_both, encode, has,
  read_size, read_one, read_both, decode,
}

pub read_u64_be-to_be_bytes_u64 :
    (v : ℕ) (rest : List ℕ) → v < 2 ^ 64 → read_u64_be (to_be_bytes_u64 v ++ rest) ≡ some (v, rest)
unfolding read_u64_be to_be_bytes_u64
read_u64_be-to_be_bytes_u64 v rest h =
    rw
      (
        append_assoc,
        read_u32_be-to_be_bytes (v / 2 ^ 32) (to_be_bytes (v % 2 ^ 32) ++ rest) (omega arith),
        read_u32_be-to_be_bytes (v % 2 ^ 32) rest (omega arith),
      )
      (ap (λ w. some (w, rest)) (omega arith))

-- What is there is below a bound.
abbrev pub Below : ℕ → Option ℕ → Type 0
Below bound none = Unit
Below bound (some v) = v < bound

-- The fields are of their widths, and each flag is set exactly when its fields are there.
pub record IsTold (attrs : FileAttrs) : Type 0 where
  pub flags_u32 : attrs.flags < 2 ^ 32
  pub size_u64 : Below (2 ^ 64) attrs.size
  pub uid_u32 : Below (2 ^ 32) attrs.uid
  pub gid_u32 : Below (2 ^ 32) attrs.gid
  pub permissions_u32 : Below (2 ^ 32) attrs.permissions
  pub atime_u32 : Below (2 ^ 32) attrs.atime
  pub mtime_u32 : Below (2 ^ 32) attrs.mtime
  pub size_told : has attrs.flags attr_size ≡ is_some attrs.size
  pub uid_told : has attrs.flags attr_uidgid ≡ is_some attrs.uid
  pub gid_told : is_some attrs.uid ≡ is_some attrs.gid
  pub permissions_told : has attrs.flags attr_permissions ≡ is_some attrs.permissions
  pub atime_told : has attrs.flags attr_acmodtime ≡ is_some attrs.atime
  pub mtime_told : is_some attrs.atime ≡ is_some attrs.mtime

-- What a field that may be missing adds to the buffer.
size_bytes : Option ℕ → List ℕ
size_bytes o = write_size [] o

one_bytes : Option ℕ → List ℕ
one_bytes o = write_one [] o

both_bytes : Option ℕ → Option ℕ → List ℕ
both_bytes a b = write_both [] a b

write_size_lem : (buf : List ℕ) (o : Option ℕ) → write_size buf o ≡ buf ++ size_bytes o
unfolding write_size size_bytes
write_size_lem buf none = sym (append-nil buf)
write_size_lem buf (some v) = refl

write_one_lem : (buf : List ℕ) (o : Option ℕ) → write_one buf o ≡ buf ++ one_bytes o
unfolding write_one one_bytes write_u32
write_one_lem buf none = sym (append-nil buf)
write_one_lem buf (some v) = refl

write_both_lem : (buf : List ℕ) (a b : Option ℕ) → write_both buf a b ≡ buf ++ both_bytes a b
unfolding write_both both_bytes write_u32
write_both_lem buf none b = sym (append-nil buf)
write_both_lem buf (some a) none = sym (append-nil buf)
write_both_lem buf (some a) (some b) = append_assoc buf (to_be_bytes a) (to_be_bytes b)

read_size-size_bytes :
    (o : Option ℕ) (rest : List ℕ)
    → Below (2 ^ 64) o
    → read_size (is_some o) (size_bytes o ++ rest) ≡ ok (o, rest)
unfolding read_size size_bytes write_size
read_size-size_bytes none rest h = refl
read_size-size_bytes (some v) rest h = rw (read_u64_be-to_be_bytes_u64 v rest h) refl

read_one-one_bytes :
    (o : Option ℕ) (rest : List ℕ)
    → Below (2 ^ 32) o
    → read_one (is_some o) (one_bytes o ++ rest) ≡ ok (o, rest)
unfolding read_one one_bytes write_one write_u32
read_one-one_bytes none rest h = refl
read_one-one_bytes (some v) rest h = rw (read_u32-to_be_bytes v rest h) refl

read_both-both_bytes :
    (a b : Option ℕ) (rest : List ℕ)
    → Below (2 ^ 32) a
    → Below (2 ^ 32) b
    → is_some a ≡ is_some b
    → read_both (is_some a) (both_bytes a b ++ rest) ≡ ok (a, b, rest)
unfolding read_both both_bytes write_both write_u32
read_both-both_bytes none none rest ha hb e = refl
read_both-both_bytes none (some b) rest ha hb e = cc
read_both-both_bytes (some a) none rest ha hb e = cc
read_both-both_bytes (some a) (some b) rest ha hb e =
    rw
      (
        append_assoc,
        read_u32-to_be_bytes a (to_be_bytes b ++ rest) ha,
        read_u32-to_be_bytes b rest hb,
      )
      refl

encode_lem :
    (attrs : FileAttrs) (rest : List ℕ)
    → encode attrs ++ rest
      ≡ to_be_bytes attrs.flags
        ++ (size_bytes attrs.size
            ++ (both_bytes attrs.uid attrs.gid
                ++ (one_bytes attrs.permissions ++ (both_bytes attrs.atime attrs.mtime ++ rest))))
unfolding encode
encode_lem attrs rest =
    rw (write_both_lem, write_one_lem, write_both_lem, write_size_lem) (simp write_laws)

-- Attributes whose flags tell which fields they have are decoded as they were encoded, whatever
-- follows, and what follows is left.
pub decode-encode :
    (attrs : FileAttrs) (rest : List ℕ)
    → IsTold attrs
    → decode (encode attrs ++ rest) ≡ ok (attrs, rest)
unfolding decode
decode-encode attrs rest h =
    rw
      (
        encode_lem attrs rest,
        read_u32-to_be_bytes attrs.flags _ h.flags_u32,
        h.size_told,
        read_size-size_bytes attrs.size _ h.size_u64,
        h.uid_told,
        read_both-both_bytes attrs.uid attrs.gid _ h.uid_u32 h.gid_u32 h.gid_told,
        h.permissions_told,
        read_one-one_bytes attrs.permissions _ h.permissions_u32,
        h.atime_told,
        read_both-both_bytes attrs.atime attrs.mtime rest h.atime_u32 h.mtime_u32 h.mtime_told,
      )
      refl
