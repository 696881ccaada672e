-- ===== src/Sftp/Messages.antt =====
-- `SftpPacket` of src/sftp/mod.rs, whose field `data` is named `payload`, and the builders of its
-- responses.
pub mod Laws
use swift_ssh.Prelude.{ℕ, ◌+◌, ◌*◌, ◌%◌, ◌^◌, String, List, [], ◌∷◌, ◌++◌, length, ascii}
use swift_ssh.Error.{SshResult, ok, err, sftp, msg}
use swift_ssh.Packet.Buf.{to_be_bytes, write_u32, write_u8, write_string, write_utf8}
use swift_ssh.Sftp
use swift_ssh.Sftp.Attrs.{FileAttrs}
use swift_ssh.Sftp.Attrs

pub record SftpPacket : Type 0 where
  pub packet_type : ℕ
  pub request_id : ℕ
  pub payload : List ℕ

-- `SftpPacket::new`
abbrev pub new_packet : ℕ → ℕ → List ℕ → SftpPacket
new_packet packet_type request_id payload = record {
  packet_type = packet_type;
  request_id = request_id;
  payload = payload;
}

unfoldable pub encode : SftpPacket → List ℕ
encode pkt =
    let inner_len = 1 + 4 + length pkt.payload in
    let buf = write_u32 [] (inner_len % 2 ^ 32) in
    let buf = write_u8 buf pkt.packet_type in
    let buf = write_u32 buf pkt.request_id in buf ++ pkt.payload

-- The bytes behind the length prefix.
unfoldable pub decode : List ℕ → SshResult SftpPacket
decode (t ∷ a ∷ b ∷ c ∷ d ∷ payload) =
    ok (new_packet t (a * 2 ^ 24 + b * 2 ^ 16 + c * 2 ^ 8 + d) payload)
decode _ = err (sftp (msg "SFTP packet too short"))

unfoldable pub build_sftp_init : List ℕ
build_sftp_init =
    let buf = write_u32 [] (1 + 4) in
    let buf = write_u8 buf Sftp.fxp_init in write_u32 buf Sftp.sftp_version

unfoldable pub build_sftp_version : List ℕ
build_sftp_version =
    let buf = write_u32 [] (1 + 4) in
    let buf = write_u8 buf Sftp.fxp_version in write_u32 buf Sftp.sftp_version

unfoldable pub build_sftp_status : ℕ → ℕ → String → SftpPacket
build_sftp_status request_id status_code message =
    let body = write_u32 [] status_code in
    let body = write_utf8 body (ascii message) in
    let body = write_utf8 body (ascii "en") in new_packet Sftp.fxp_status request_id body

unfoldable pub build_sftp_handle : ℕ → List ℕ → SftpPacket
build_sftp_handle request_id handle = new_packet Sftp.fxp_handle request_id (write_string [] handle)

unfoldable pub build_sftp_data : ℕ → List ℕ → SftpPacket
build_sftp_data request_id file_data =
    new_packet Sftp.fxp_data request_id (write_string [] file_data)

-- the loop of `build_sftp_name`
unfoldable pub write_entries : List ℕ → List (List ℕ × FileAttrs) → List ℕ
write_entries body [] = body
write_entries body ((name, attrs) ∷ entries) =
    let body = write_utf8 body name in
    let body = write_utf8 body name in write_entries (body ++ Attrs.encode attrs) entries

unfoldable pub build_sftp_name : ℕ → List (List ℕ × FileAttrs) → SftpPacket
build_sftp_name request_id entries =
    let body = write_u32 [] (length entries % 2 ^ 32) in
    new_packet Sftp.fxp_name request_id (write_entries body entries)

unfoldable pub build_sftp_attrs : ℕ → FileAttrs → SftpPacket
build_sftp_attrs request_id attrs = new_packet Sftp.fxp_attrs request_id (Attrs.encode attrs)
