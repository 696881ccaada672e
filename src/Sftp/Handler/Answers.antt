-- ===== src/Sftp/Handler/Answers.antt =====
-- The responses of the handler of src/sftp/mod.rs, and how a property goes through early returns.
use swift_ssh.Prelude.{
  String, ℕ, ◌≡◌, refl, Bool, true, ◌||◌, Option, none, some, List, [], ◌∷◌, ◌==◌,
}
use swift_ssh.Error.{SshResult, ok, err, panic}
use swift_ssh.HashMap.{bytes_key}
use swift_ssh.Sftp
use swift_ssh.Sftp.Attrs.{FileAttrs}
use swift_ssh.Sftp.Messages.{
  SftpPacket, build_sftp_status, build_sftp_handle, build_sftp_data, build_sftp_name,
  build_sftp_attrs,
}
use swift_ssh.Sftp.FileSystem.{FileSystem}
use swift_ssh.Sftp.Handler.{SftpHandler, or_return, else_return}
use swift_ssh.Sftp.Handler.Dirs.{handle_realpath, handle_stat, list_dir}
use swift_ssh.Sftp.Handler.Files.{read_answer, read_file, handle_read}

module _ {ℓ κ μ} {A : Type ℓ} {B : Type κ} (P : B → Type μ) where
  -- What holds of the early return and of every way on holds of both together.
  pub or_return-holds :
      (r : SshResult A) {answer : B} {go_on : A → B}
      → P answer
      → ((a : A) → r ≡ ok a → P (go_on a))
      → P (or_return r answer go_on)
  unfolding or_return
  or_return-holds (ok a) early later = later a refl
  or_return-holds (err e) early later = early
  or_return-holds panic early later = early

  pub else_return-holds :
      (o : Option A) {answer : B} {go_on : A → B}
      → P answer
      → ((a : A) → o ≡ some a → P (go_on a))
      → P (else_return o answer go_on)
  unfolding else_return
  else_return-holds (some a) early later = later a refl
  else_return-holds none early later = early

-- The response types of the protocol.
unfoldable pub is_response : ℕ → Bool
is_response t =
    t == Sftp.fxp_status
    || (t == Sftp.fxp_handle || (t == Sftp.fxp_data || (t == Sftp.fxp_name || t == Sftp.fxp_attrs)))

pub record IsAnswer (id : ℕ) (answer : SftpPacket) : Type 0 where
  pub same_id : answer.request_id ≡ id
  pub response : is_response answer.packet_type ≡ true

pub status-IsAnswer : (id code : ℕ) (text : String) → IsAnswer id (build_sftp_status id code text)
unfolding build_sftp_status is_response
status-IsAnswer id code text = record { same_id = refl; response = refl }

pub handle-IsAnswer : (id : ℕ) (handle : List ℕ) → IsAnswer id (build_sftp_handle id handle)
unfolding build_sftp_handle is_response
handle-IsAnswer id handle = record { same_id = refl; response = refl }

pub data-IsAnswer : (id : ℕ) (bytes : List ℕ) → IsAnswer id (build_sftp_data id bytes)
unfolding build_sftp_data is_response
data-IsAnswer id bytes = record { same_id = refl; response = refl }

pub name-IsAnswer :
    (id : ℕ) (entries : List (List ℕ × FileAttrs)) → IsAnswer id (build_sftp_name id entries)
unfolding build_sftp_name is_response
name-IsAnswer id entries = record { same_id = refl; response = refl }

pub attrs-IsAnswer : (id : ℕ) (attrs : FileAttrs) → IsAnswer id (build_sftp_attrs id attrs)
unfolding build_sftp_attrs is_response
attrs-IsAnswer id attrs = record { same_id = refl; response = refl }

read_answer-IsAnswer : (id : ℕ) (bytes : List ℕ) → IsAnswer id (read_answer id bytes)
unfolding read_answer
read_answer-IsAnswer id [] = status-IsAnswer _ _ _
read_answer-IsAnswer id (b ∷ bytes) = data-IsAnswer _ _

module _ (FS : FileSystem) where
  pub list_dir-IsAnswer :
      (disk : FS.Disk) (id : ℕ) (p : List ℕ) → IsAnswer id (list_dir FS disk id p)
  unfolding list_dir
  list_dir-IsAnswer disk id p =
      else_return-holds (IsAnswer id) _ (status-IsAnswer _ _ _) λ entries _. name-IsAnswer _ _

  read_file-IsAnswer :
      (disk : FS.Disk) (id : ℕ) (p : List ℕ) (offset n : ℕ)
      → IsAnswer id (read_file FS disk id p offset n)
  unfolding read_file
  read_file-IsAnswer disk id p offset n =
      else_return-holds (IsAnswer id) _ (status-IsAnswer _ _ _) λ f _.
        else_return-holds (IsAnswer id) _ (status-IsAnswer _ _ _) λ g _.
          else_return-holds (IsAnswer id) _ (status-IsAnswer _ _ _)
            λ bytes _. read_answer-IsAnswer _ _

  pub realpath-IsAnswer :
      (h : SftpHandler) (disk : FS.Disk) (pkt : SftpPacket)
      → IsAnswer pkt.request_id (handle_realpath FS h disk pkt)
  unfolding handle_realpath
  realpath-IsAnswer h disk pkt =
      or_return-holds (IsAnswer pkt.request_id) _ (status-IsAnswer _ _ _) λ p _.
        or_return-holds (IsAnswer pkt.request_id) _ (status-IsAnswer _ _ _) λ r _. name-IsAnswer _ _

  pub stat-IsAnswer :
      (h : SftpHandler) (disk : FS.Disk) (pkt : SftpPacket)
      → IsAnswer pkt.request_id (handle_stat FS h disk pkt)
  unfolding handle_stat
  stat-IsAnswer h disk pkt =
      or_return-holds (IsAnswer pkt.request_id) _ (status-IsAnswer _ _ _) λ p _.
        or_return-holds (IsAnswer pkt.request_id) _ (status-IsAnswer _ _ _) λ r _.
          else_return-holds (IsAnswer pkt.request_id) _ (status-IsAnswer _ _ _)
            λ meta _. attrs-IsAnswer _ _

  pub read-IsAnswer :
      (h : SftpHandler) (disk : FS.Disk) (pkt : SftpPacket)
      → IsAnswer pkt.request_id (handle_read FS h disk pkt)
  unfolding handle_read
  read-IsAnswer h disk pkt =
      or_return-holds (IsAnswer pkt.request_id) _ (status-IsAnswer _ _ _) λ a _.
        else_return-holds (IsAnswer pkt.request_id) _ (status-IsAnswer _ _ _) λ b _.
          or_return-holds (IsAnswer pkt.request_id) _ (status-IsAnswer _ _ _) λ c _.
            else_return-holds (IsAnswer pkt.request_id) _ (status-IsAnswer _ _ _)
              λ d _. read_file-IsAnswer _ _ _ _ _
