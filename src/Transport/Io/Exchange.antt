-- ===== src/Transport/Io/Exchange.antt =====
-- A packet and the answer to it, between two sides that are in step.
use swift_ssh.Prelude.{ℕ, ◌≡◌, List, [], ◌++◌}
use swift_ssh.Error.{IoError, unexpected_eof, ok}
use swift_ssh.Packet.Codec.{SshPacket}
use swift_ssh.Crypto.{Crates}
use swift_ssh.Crypto.Laws.{IsMac, IsStreamCipher}
use swift_ssh.Session.{SessionKeys}
use swift_ssh.Transport.Stream.{Reader, Writer}
use swift_ssh.Transport.Io.{send_packet, recv_packet}
use swift_ssh.Transport.Io.Sync.{Synced}
use swift_ssh.Transport.Io.Cut.{IsPacket, IsFill}
use swift_ssh.Transport.Io.Receive.{reader}
use swift_ssh.Transport.Io.Plain.{Room, writer}
use swift_ssh.Transport.Io.RoundTrip.{recv_packet-send_packet}
use swift_ssh.Transport.Io.Halves.{send_packet-OnOk, recv_packet-OnOk}

module _ (crates : Crates) where
  open crates use {Cipher}

  -- Both sides of a request `p` and its answer `q`: what was written, and the keys afterwards.
  pub record Exchanged (fill_c fill_s : ℕ → List ℕ) (sent_c sent_s : List ℕ) (p q : SshPacket)
      (kc ks : SessionKeys Cipher) : Type 0 where
    pub wire_up : List ℕ
    pub wire_down : List ℕ
    pub asked : SessionKeys Cipher
    pub heard : SessionKeys Cipher
    pub client : SessionKeys Cipher
    pub server : SessionKeys Cipher
    pub asks :
        send_packet crates fill_c (writer sent_c) p kc ≡ ok (writer (sent_c ++ wire_up), asked)
    pub hears :
        (rest : List ℕ) (e : IoError)
        → recv_packet crates (reader (wire_up ++ rest) e) ks ≡ ok (p, reader rest e, heard)
    pub answers :
        send_packet crates fill_s (writer sent_s) q heard
        ≡ ok (writer (sent_s ++ wire_down), server)
    pub learns :
        (rest : List ℕ) (e : IoError)
        → recv_packet crates (reader (wire_down ++ rest) e) asked ≡ ok (q, reader rest e, client)
    pub up : Synced client server
    pub down : Synced server client

  send-Synced :
      (fill : ℕ → List ℕ) (w w' : Writer) (p : SshPacket) (peer keys keys' : SessionKeys Cipher)
      → send_packet crates fill w p keys ≡ ok (w', keys')
      → Synced peer keys
      → Synced peer keys'
  send-Synced fill w w' p peer keys keys' h s =
      rw h at (send_packet-OnOk crates fill w p peer keys s)

  recv-Synced :
      (r r' : Reader) (p : SshPacket) (keys keys' peer : SessionKeys Cipher)
      → recv_packet crates r keys ≡ ok (p, r', keys')
      → Synced keys peer
      → Synced keys' peer
  recv-Synced r r' p keys keys' peer h s = rw h at (recv_packet-OnOk crates r keys peer s)

  -- A packet between two sides that are in step both ways, and that they are so again.
  pub record Passed (fill : ℕ → List ℕ) (sent : List ℕ) (p : SshPacket) (ks kr : SessionKeys Cipher)
      : Type 0 where
    pub wire : List ℕ
    pub sender : SessionKeys Cipher
    pub receiver : SessionKeys Cipher
    pub sends : send_packet crates fill (writer sent) p ks ≡ ok (writer (sent ++ wire), sender)
    pub receives :
        (rest : List ℕ) (e : IoError)
        → recv_packet crates (reader (wire ++ rest) e) kr ≡ ok (p, reader rest e, receiver)
    pub there : Synced sender receiver
    pub back : Synced receiver sender

  pub pass :
      (stream : IsStreamCipher crates) (mac : IsMac crates) (fill : ℕ → List ℕ) (sent : List ℕ)
      (p : SshPacket) (ks kr : SessionKeys Cipher)
      → IsFill fill
      → IsPacket p
      → Room p
      → Synced ks kr
      → Synced kr ks
      → Passed fill sent p ks kr
  pass stream mac fill sent p ks kr hf hp room there back =
      let d = recv_packet-send_packet crates stream mac fill sent p ks kr hf hp room there in
      record {
        wire = d.wire;
        sender = d.sender;
        receiver = d.receiver;
        sends = d.sends;
        receives = d.receives;
        there = d.synced;
        back =
            recv-Synced _ _ p kr d.receiver d.sender (d.receives [] unexpected_eof)
              (send-Synced fill _ _ p kr ks d.sender d.sends back);
      }

  -- Two sides that are in step exchange any two packets that fit, and are in step again.
  pub exchange :
      (stream : IsStreamCipher crates) (mac : IsMac crates) (fill_c fill_s : ℕ → List ℕ)
      (sent_c sent_s : List ℕ) (p q : SshPacket) (kc ks : SessionKeys Cipher)
      → IsFill fill_c
      → IsFill fill_s
      → IsPacket p
      → Room p
      → IsPacket q
      → Room q
      → Synced kc ks
      → Synced ks kc
      → Exchanged fill_c fill_s sent_c sent_s p q kc ks
  exchange stream mac fill_c fill_s sent_c sent_s p q kc ks fc fs hp rp hq rq up down =
      let d1 = pass stream mac fill_c sent_c p kc ks fc hp rp up down in
      let d2 = pass stream mac fill_s sent_s q d1.receiver d1.sender fs hq rq d1.back d1.there in
      record {
        wire_up = d1.wire;
        wire_down = d2.wire;
        asked = d1.sender;
        heard = d1.receiver;
        client = d2.receiver;
        server = d2.sender;
        asks = d1.sends;
        hears = d1.receives;
        answers = d2.sends;
        learns = d2.receives;
        up = d2.back;
        down = d2.there;
      }
