-- ===== src/Client/Session/Answers.antt =====
-- The packets of a command that a client of src/bin/client.rs gives on the open channel, and of the
-- answers of src/bin/server.rs.
use swift_ssh.Prelude.{ℕ, true, List, ◌++◌, arith}
use swift_ssh.Packet.Types.{as_u8, channel_success}
use swift_ssh.Packet.Buf.{write_u32, to_be_bytes}
use swift_ssh.Packet.Codec.{SshPacket, new}
use swift_ssh.Crypto.{Crates}
use swift_ssh.Crypto.Laws.{IsMac, IsStreamCipher}
use swift_ssh.Session.{SessionKeys}
use swift_ssh.Transport.Io.Sync.{Synced}
use swift_ssh.Transport.Io.Cut.{IsPacket, IsFill}
use swift_ssh.Transport.Io.Plain.{Room}
use swift_ssh.Transport.Io.Exchange.{Passed, pass}
use swift_ssh.Connection.Messages.{
  build_exec_request, build_channel_data, build_channel_eof, build_channel_close,
}
use swift_ssh.Server.Loop.{reply_packet}

-- the three short answers, on the channel of the number 0
abbrev pub success : SshPacket
success = reply_packet channel_success 0

abbrev pub eof : SshPacket
eof = build_channel_eof 0

abbrev pub close : SshPacket
close = build_channel_close 0

success-IsPacket : IsPacket success
unfolding reply_packet new as_u8 write_u32 to_be_bytes
success-IsPacket = record { number = omega arith; bytes = omega arith }

success-Room : Room success
unfolding reply_packet new write_u32 to_be_bytes
success-Room = omega arith

eof-IsPacket : IsPacket eof
unfolding build_channel_eof new as_u8 write_u32 to_be_bytes
eof-IsPacket = record { number = omega arith; bytes = omega arith }

eof-Room : Room eof
unfolding build_channel_eof new write_u32 to_be_bytes
eof-Room = omega arith

close-IsPacket : IsPacket close
unfolding build_channel_close new as_u8 write_u32 to_be_bytes
close-IsPacket = record { number = omega arith; bytes = omega arith }

close-Room : Room close
unfolding build_channel_close new write_u32 to_be_bytes
close-Room = omega arith

module _ (crates : Crates) where
  open crates use {Cipher}

  -- The packets of a command and its answers, and the client's CLOSE.
  pub record Answered (fc fs : ℕ → ℕ → List ℕ) (line output sent_c sent_s : List ℕ)
      (kc ks : SessionKeys Cipher) : Type 0 where
    pub asked : Passed crates (fc 4) sent_c (build_exec_request 0 line true) kc ks
    pub granted : Passed crates (fs 0) sent_s success asked.receiver asked.sender
    pub printed :
        Passed crates
          (fs 1)
          (sent_s ++ granted.wire)
          (build_channel_data 0 output)
          granted.sender
          granted.receiver
    pub ended :
        Passed crates
          (fs 2)
          ((sent_s ++ granted.wire) ++ printed.wire)
          eof
          printed.sender
          printed.receiver
    pub closed :
        Passed crates
          (fs 3)
          (((sent_s ++ granted.wire) ++ printed.wire) ++ ended.wire)
          close
          ended.sender
          ended.receiver
    pub closes : Passed crates (fc 0) (sent_c ++ asked.wire) close closed.receiver closed.sender

  pub answer :
      (stream : IsStreamCipher crates) (mac : IsMac crates) (fc fs : ℕ → ℕ → List ℕ)
      (line output sent_c sent_s : List ℕ) (kc ks : SessionKeys Cipher)
      → ((n : ℕ) → IsFill (fc n))
      → ((n : ℕ) → IsFill (fs n))
      → IsPacket (build_exec_request 0 line true)
      → Room (build_exec_request 0 line true)
      → IsPacket (build_channel_data 0 output)
      → Room (build_channel_data 0 output)
      → Synced kc ks
      → Synced ks kc
      → Answered fc fs line output sent_c sent_s kc ks
  answer stream mac fc fs line output sent_c sent_s kc ks hc hs hp rp ho ro up down =
      let a =
        pass crates stream mac (fc 4) sent_c (build_exec_request 0 line true) kc ks (hc 4) hp rp up
          down in
      let b =
        pass crates stream mac (fs 0) sent_s success a.receiver a.sender (hs 0) success-IsPacket
          success-Room a.back a.there in
      let c =
        pass crates stream mac (fs 1) (sent_s ++ b.wire) (build_channel_data 0 output) b.sender
          b.receiver (hs 1) ho ro b.there b.back in
      let d =
        pass crates stream mac (fs 2) ((sent_s ++ b.wire) ++ c.wire) eof c.sender c.receiver (hs 2)
          eof-IsPacket eof-Room c.there c.back in
      let f =
        pass crates stream mac (fs 3) (((sent_s ++ b.wire) ++ c.wire) ++ d.wire) close d.sender
          d.receiver (hs 3) close-IsPacket close-Room d.there d.back in
      record {
        asked = a;
        granted = b;
        printed = c;
        ended = d;
        closed = f;
        closes =
            pass crates stream mac (fc 0) (sent_c ++ a.wire) close f.receiver f.sender (hc 0)
              close-IsPacket close-Room f.back f.there;
      }
