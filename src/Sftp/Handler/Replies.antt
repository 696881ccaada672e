-- ===== src/Sftp/Handler/Replies.antt =====
-- Every request of the subsystem does one of the moves of its type, and is answered.
use swift_ssh.Prelude.{
  if-holds, ℕ, ◌≡◌, ◌≢◌, refl, ◌⊎◌, inl, inr, Bool, true, false, Bool-cases, ◌||◌, some, List, ◌==◌,
  ==_iff, arith, if◌then◌else◌, String,
}
use swift_ssh.Error.{ok}
use swift_ssh.HashMap.{bytes_key, get}
use swift_ssh.Sftp
use swift_ssh.Packet.Buf.{read_utf8, read_string}
use swift_ssh.Sftp.Attrs.{has, read_u64_be}
use swift_ssh.Sftp.Messages.{SftpPacket, build_sftp_status}
use swift_ssh.Sftp.FileSystem.{FileSystem}
use swift_ssh.Sftp.Handler.{SftpHandler, resolve_path, or_return}
use swift_ssh.Sftp.Handler.Dirs.{
  handle_opendir, list_dir, handle_readdir, done, handle_mkdir, handle_rmdir, handle_remove,
}
use swift_ssh.Sftp.Handler.Files.{handle_close, handle_open, write_chunk, write_file, handle_write}
use swift_ssh.Sftp.Handler.Requests.{handle_request}
use swift_ssh.Sftp.Handler.Answers.{
  IsAnswer, or_return-holds, else_return-holds, status-IsAnswer, handle-IsAnswer, list_dir-IsAnswer,
  realpath-IsAnswer, stat-IsAnswer, read-IsAnswer,
}
use swift_ssh.Sftp.Handler.Moves.{
  Asked, Named, ToWrite, IsRefusal, reported, Move, Replies, mark_listed,
}

module _ (FS : FileSystem) (h : SftpHandler) (disk : FS.Disk) (pkt : SftpPacket) where
  AnswersH : SftpPacket × SftpHandler → Type 0
  AnswersH r = IsAnswer pkt.request_id r.0 × Move FS h disk pkt r.0 r.1 disk

  AnswersD : SftpPacket × FS.Disk → Type 0
  AnswersD r = IsAnswer pkt.request_id r.0 × Move FS h disk pkt r.0 h r.1

  refusal :
      (code : ℕ) (text : String)
      → code ≢ Sftp.fx_ok
      → IsRefusal pkt (build_sftp_status pkt.request_id code text)
  refusal code text error = record { code = code; text = text; error = error; status = refl }

  refused_h :
      (code : ℕ) (text : String)
      → code ≢ Sftp.fx_ok
      → AnswersH (build_sftp_status pkt.request_id code text, h)
  unfolding AnswersH
  refused_h code text error = (status-IsAnswer _ _ _, Move.refuse (refusal code text error))

  refused_d :
      (code : ℕ) (text : String)
      → code ≢ Sftp.fx_ok
      → AnswersD (build_sftp_status pkt.request_id code text, disk)
  unfolding AnswersD
  refused_d code text error = (status-IsAnswer _ _ _, Move.refuse (refusal code text error))

  failed_h : (text : String) → AnswersH (build_sftp_status pkt.request_id Sftp.fx_failure text, h)
  failed_h text = refused_h _ text (ground arith)

  failed_d :
      (text : String) → AnswersD (build_sftp_status pkt.request_id Sftp.fx_failure text, disk)
  failed_d text = refused_d _ text (ground arith)

  opendir-Answers : pkt.packet_type ≡ Sftp.fxp_opendir → AnswersH (handle_opendir FS h disk pkt)
  unfolding handle_opendir AnswersH
  opendir-Answers kind = or_return-holds AnswersH _ (failed_h _) λ p named.
      or_return-holds AnswersH _ (refused_h _ _ (ground arith)) λ q e.
        if-holds AnswersH (FS.is_dir disk q)
          (λ dir. (
            handle-IsAnswer _ _,
            Move.open_dir
                (record {
                  requested = p.0;
                  rest = p.1;
                  path = q;
                  kind_is = kind;
                  names = named;
                  resolved = e;
                })
                dir refl,
          ))
          λ _. refused_h _ _ (ground arith)

  open-Answers : pkt.packet_type ≡ Sftp.fxp_open → AnswersH (handle_open FS h disk pkt)
  unfolding handle_open AnswersH
  open-Answers kind = or_return-holds AnswersH _ (failed_h _) λ p named.
      or_return-holds AnswersH _ (failed_h _) λ flags e1.
        or_return-holds AnswersH _ (refused_h _ _ (ground arith)) λ q e. (
          handle-IsAnswer _ _,
          Move.open_file
              (record {
                requested = p.0;
                rest = p.1;
                path = q;
                kind_is = kind;
                names = named;
                resolved = e;
              })
              flags.0 flags.1 e1 refl,
        )

  list-Answers :
      (q : Named pkt Sftp.fxp_readdir) (path : List ℕ) (already_listed : Bool)
      → get q.handle h.open_dirs ≡ some (path, already_listed)
      → AnswersH (
          if already_listed
          then (build_sftp_status pkt.request_id Sftp.fx_eof "End of directory", h)
          else (list_dir FS disk pkt.request_id path, mark_listed h q.handle path))
  unfolding AnswersH
  list-Answers q path true e = refused_h _ _ (ground arith)
  list-Answers q path false e = (list_dir-IsAnswer FS _ _ _, Move.list q path e refl)

  readdir-Answers : pkt.packet_type ≡ Sftp.fxp_readdir → AnswersH (handle_readdir FS h disk pkt)
  unfolding handle_readdir
  readdir-Answers kind = or_return-holds AnswersH _ (failed_h _) λ handle named.
      else_return-holds AnswersH _ (failed_h _) λ entry e.
        list-Answers (record { handle = handle.0; rest = handle.1; kind_is = kind; names = named })
          entry.0 entry.1 e

  close-Answers : pkt.packet_type ≡ Sftp.fxp_close → AnswersH (handle_close h pkt)
  unfolding handle_close AnswersH
  close-Answers kind = or_return-holds AnswersH _ (failed_h _) λ handle named. (
    status-IsAnswer _ _ _,
    Move.close (record { handle = handle.0; rest = handle.1; kind_is = kind; names = named }) refl,
  )

  -- A call of the file system on the client's path.
  called-Answers :
      (kind : ℕ) (failed : String) (call : List ℕ → Bool × FS.Disk)
      → ((q : Asked FS h disk pkt kind) (answer : SftpPacket)
          → answer ≡ reported pkt.request_id (call q.path).0 failed
          → Move FS h disk pkt answer h (call q.path).1)
      → pkt.packet_type ≡ kind
      → AnswersD (
          or_return
            (read_utf8 pkt.payload)
            (build_sftp_status pkt.request_id Sftp.fx_failure "Bad path", disk)
            λ (path_str, _).
              or_return
                (resolve_path FS h disk path_str)
                (build_sftp_status pkt.request_id Sftp.fx_permission_denied "Bad path", disk)
                λ resolved. done FS pkt.request_id failed (call resolved))
  unfolding AnswersD done
  called-Answers kind failed call move same = or_return-holds AnswersD _ (failed_d _) λ p named.
      or_return-holds AnswersD _ (refused_d _ _ (ground arith)) λ path e. reports (call path) (
        move (record {
          requested = p.0;
          rest = p.1;
          path = path;
          kind_is = same;
          names = named;
          resolved = e;
        }))
    where
      reports :
          (r : Bool × FS.Disk)
          → ((answer : SftpPacket)
              → answer ≡ reported pkt.request_id r.0 failed
              → Move FS h disk pkt answer h r.1)
          → AnswersD (done FS pkt.request_id failed r)
      reports (true, after) m = (status-IsAnswer _ _ _, m _ refl)
      reports (false, after) m = (status-IsAnswer _ _ _, m _ refl)

  mkdir-Answers : pkt.packet_type ≡ Sftp.fxp_mkdir → AnswersD (handle_mkdir FS h disk pkt)
  unfolding handle_mkdir
  mkdir-Answers =
      called-Answers Sftp.fxp_mkdir "mkdir failed" (λ path. FS.create_dir disk path)
        λ q answer e. Move.mkdir q _ e

  rmdir-Answers : pkt.packet_type ≡ Sftp.fxp_rmdir → AnswersD (handle_rmdir FS h disk pkt)
  unfolding handle_rmdir
  rmdir-Answers =
      called-Answers Sftp.fxp_rmdir "rmdir failed" (λ path. FS.remove_dir disk path)
        λ q answer e. Move.rmdir q _ e

  remove-Answers : pkt.packet_type ≡ Sftp.fxp_remove → AnswersD (handle_remove FS h disk pkt)
  unfolding handle_remove
  remove-Answers =
      called-Answers Sftp.fxp_remove "remove failed" (λ path. FS.remove_file disk path)
        λ q answer e. Move.unlink q _ e

  written-Answers :
      (r : Bool × FS.Disk)
      → ((answer : SftpPacket)
          → answer ≡ reported pkt.request_id r.0 "Write error"
          → Move FS h disk pkt answer h r.1)
      → AnswersD (
          if r.0
          then (build_sftp_status pkt.request_id Sftp.fx_ok "OK", r.1)
          else (build_sftp_status pkt.request_id Sftp.fx_failure "Write error", r.1))
  unfolding AnswersD
  written-Answers (true, after) m = (status-IsAnswer _ _ _, m _ refl)
  written-Answers (false, after) m = (status-IsAnswer _ _ _, m _ refl)

  write_file-Answers :
      (named : Named pkt Sftp.fxp_write) (offset flags : ℕ) (behind bytes rest path : List ℕ)
      → read_u64_be named.rest ≡ some (offset, behind)
      → read_string behind ≡ ok (bytes, rest)
      → get named.handle h.open_files ≡ some (path, flags)
      → AnswersD (write_file FS disk pkt.request_id path flags offset bytes)
  unfolding write_file write_chunk AnswersD
  write_file-Answers named offset flags behind bytes rest path e1 e2 e =
      if-holds AnswersD (has flags Sftp.fxf_write)
        (λ w.
          else_return-holds AnswersD _
            (
              status-IsAnswer _ _ _,
              Move.open_only (q w) (refusal Sftp.fx_permission_denied "Cannot open" (ground arith)),
            )
            λ f opened.
              else_return-holds AnswersD _
                (
                  status-IsAnswer _ _ _,
                  Move.open_only (q w) (refusal Sftp.fx_failure "Seek failed" (ground arith)),
                )
                λ g sought.
                  written-Answers _
                    (λ answer told. Move.write (q w) f g "Write error" opened sought told))
        λ _. refused_d _ _ (ground arith)
    where
      q : has flags Sftp.fxf_write ≡ true → ToWrite h pkt
      q w = record {
        named = named;
        offset = offset;
        behind = behind;
        bytes = bytes;
        rest = rest;
        path = path;
        flags = flags;
        at = e1;
        sent = e2;
        opened = e;
        allowed = w;
      }

  write-Answers : pkt.packet_type ≡ Sftp.fxp_write → AnswersD (handle_write FS h disk pkt)
  unfolding handle_write
  write-Answers kind = or_return-holds AnswersD _ (failed_d _) λ handle named.
      else_return-holds AnswersD _ (failed_d _) λ offset e1.
        or_return-holds AnswersD _ (failed_d _) λ bytes e2.
          else_return-holds AnswersD _ (failed_d _) λ entry e.
            write_file-Answers
              (record { handle = handle.0; rest = handle.1; kind_is = kind; names = named })
              offset.0 entry.1 offset.1 bytes.0 bytes.1 entry.0 e1 e2 e

  Answered : SftpPacket × SftpHandler × FS.Disk → Type 0
  Answered r = Replies FS h disk pkt r

  is : {kind : ℕ} → (pkt.packet_type == kind) ≡ true → pkt.packet_type ≡ kind
  is k = (==_iff _ _).0 k

  either :
      (pkt.packet_type == Sftp.fxp_stat || pkt.packet_type == Sftp.fxp_lstat) ≡ true
      → (pkt.packet_type ≡ Sftp.fxp_stat)
        ⊎ ((pkt.packet_type ≡ Sftp.fxp_lstat) ⊎ (pkt.packet_type ≡ Sftp.fxp_read))
  either k = elim (Bool-cases (pkt.packet_type == Sftp.fxp_stat)) [
    | inl e ↦ inl (is e)
    | inr e ↦ inr (inl (is (rw e at k)))
  ]

  pub handle_request-Replies : Replies FS h disk pkt (handle_request FS h disk pkt)
  unfolding handle_request AnswersH AnswersD Answered
  handle_request-Replies =
      if-holds Answered (pkt.packet_type == Sftp.fxp_realpath)
        (λ k. (realpath-IsAnswer FS _ _ _, Move.query (inl (is k))))
        λ _.
          if-holds Answered (pkt.packet_type == Sftp.fxp_stat || pkt.packet_type == Sftp.fxp_lstat)
            (λ k. (stat-IsAnswer FS _ _ _, Move.query (inr (either k))))
            λ _.
              if-holds Answered (pkt.packet_type == Sftp.fxp_opendir) (λ k. opendir-Answers (is k))
                λ _.
                  if-holds Answered (pkt.packet_type == Sftp.fxp_readdir)
                    (λ k. readdir-Answers (is k))
                    λ _.
                      if-holds Answered (pkt.packet_type == Sftp.fxp_close)
                        (λ k. close-Answers (is k))
                        λ _.
                          if-holds Answered (pkt.packet_type == Sftp.fxp_open)
                            (λ k. open-Answers (is k))
                            λ _.
                              if-holds Answered (pkt.packet_type == Sftp.fxp_read)
                                (λ k. (read-IsAnswer FS _ _ _, Move.query (inr (inr (inr (is k))))))
                                λ _.
                                  if-holds Answered (pkt.packet_type == Sftp.fxp_write)
                                    (λ k. write-Answers (is k))
                                    λ _.
                                      if-holds Answered (pkt.packet_type == Sftp.fxp_mkdir)
                                        (λ k. mkdir-Answers (is k))
                                        λ _.
                                          if-holds Answered (pkt.packet_type == Sftp.fxp_rmdir)
                                            (λ k. rmdir-Answers (is k))
                                            λ _.
                                              if-holds Answered (pkt.packet_type == Sftp.fxp_remove)
                                                (λ k. remove-Answers (is k))
                                                λ _. (
                                                  status-IsAnswer _ _ _,
                                                  Move.refuse (refusal _ _ (ground arith)),
                                                )
