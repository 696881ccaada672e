-- ===== src/Transport/Stream.antt =====
-- The two halves of a connection, as the code sees them through tokio's `AsyncReadExt` and
-- `AsyncWriteExt`: what the peer has sent and how the stream ends behind it, and what was written.
use swift_ssh.Prelude.{
  ℕ, Bool, Option, none, some, List, ◌++◌, length, take, drop, leb, if◌then◌else◌,
}
use swift_ssh.Error.{
  IoError, unexpected_eof, other, SshResult, SshError, ok, err, io, connection_closed,
}

pub record Reader : Type 0 where
  pub pending : List ℕ
  -- the error of a read past the last byte: `unexpected_eof` if the peer closed the stream
  pub ending : IoError

pub record Writer : Type 0 where
  pub sent : List ℕ
  -- whether writes reach the peer
  pub up : Bool

-- `reader.read_exact(&mut buf)` for a buffer of `n` bytes
unfoldable pub take_exact : Reader → ℕ → Option (List ℕ × Reader)
take_exact r n =
    if leb n (length r.pending)
    then some (take n r.pending, record r { pending = drop n r.pending })
    else none

-- `map_err(SshError::Io)`, and the closure that tells the end of the stream apart
unfoldable pub io_error : IoError → SshError
io_error e = io e

unfoldable pub closed_or_io : IoError → SshError
closed_or_io unexpected_eof = connection_closed
closed_or_io other = io other

-- `read_exact(..).await.map_err(..)?`
unfoldable pub read_or : (IoError → SshError) → Reader → ℕ → SshResult (List ℕ × Reader)
unfolding take_exact
read_or map_err r n = elim (take_exact r n) [ none ↦ err (map_err r.ending) | some p ↦ ok p ]

unfoldable pub write_all : Writer → List ℕ → SshResult Writer
write_all w bytes = if w.up then ok (record w { sent = w.sent ++ bytes }) else err (io other)

unfoldable pub flush : Writer → SshResult Writer
flush w = if w.up then ok w else err (io other)
