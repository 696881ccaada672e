-- ===== src/Transport/Version.antt =====
-- `send_version_string` and `recv_version_string` of src/transport/io.rs.
pub mod Lines
use swift_ssh.Prelude.{
  ℕ, ◌-◌, Bool, true, false, ◌&&◌, List, [], ◌∷◌, ◌++◌, length, take, ltb, ◌==◌, if◌then◌else◌,
  ascii,
}
use swift_ssh.Error.{IoError, SshResult, ok, err, protocol, msg, msg_text, ◌>>=◌}
use swift_ssh.Packet.Utf8.{is_utf8}
use swift_ssh.Transport.Stream.{Reader, Writer, closed_or_io, write_all, flush}

abbrev pub crlf : List ℕ
crlf = 13 ∷ 10 ∷ []

unfoldable pub send_version_string : Writer → List ℕ → SshResult Writer
send_version_string w version = do w1 ← write_all w (version ++ crlf); flush w1

-- `buf.ends_with(b"\r\n")`
unfoldable pub ends_with_crlf : List ℕ → Bool
ends_with_crlf [] = false
ends_with_crlf (a ∷ []) = false
ends_with_crlf (a ∷ b ∷ []) = a == 13 && b == 10
ends_with_crlf (a ∷ b ∷ c ∷ rest) = ends_with_crlf (b ∷ c ∷ rest)

-- The loop of `recv_version_string`: a byte at a time, as long as there are any.
unfoldable pub read_line : IoError → List ℕ → List ℕ → SshResult (List ℕ × Reader)
read_line ending [] buf = err (closed_or_io ending)
read_line ending (byte ∷ pending) buf =
    let buf' = buf ++ (byte ∷ []) in
    let more = read_line ending pending buf' in
    if ltb 255 (length buf')
    then err (protocol (msg "Version string too long"))
    else if ends_with_crlf buf'
    then ok (buf', record { pending = pending; ending = ending })
    else more

-- `version.starts_with(prefix)`
unfoldable pub starts_with : List ℕ → List ℕ → Bool
starts_with [] version = true
starts_with (p ∷ ps) [] = false
starts_with (p ∷ ps) (v ∷ vs) = p == v && starts_with ps vs

abbrev pub version_prefix : List ℕ
version_prefix = ascii "SSH-2.0-"

unfoldable pub recv_version_string : Reader → SshResult (List ℕ × Reader)
recv_version_string r = do
  (buf, r') ← read_line r.ending r.pending []
  let version = take (length buf - 2) buf
  if is_utf8 version
      then if starts_with version_prefix version
        then ok (version, r')
        else err (protocol (msg_text "Unsupported protocol version: {}" version))
      else err (protocol (msg "Invalid UTF-8 in version string"))
