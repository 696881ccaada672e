-- ===== src/Session.antt =====
-- src/session/mod.rs: the keys and sequence numbers of a connection.
use swift_ssh.Prelude.{is_some, ℕ, ◌+◌, ◌%◌, ◌^◌, Bool, Option, none, List}
use swift_ssh.Crypto.{CipherPair}

pub data SessionState : Type 0 where
  version_exchange key_exchange authenticated active disconnected : SessionState

-- `C` is the type of the ciphers.
pub record SessionKeys (C : Type 0) : Type 0 where
  pub send_seq : ℕ
  pub recv_seq : ℕ
  pub session_id : Option (List ℕ)
  pub ciphers : Option (CipherPair C)
  pub send_mac_key : Option (List ℕ)
  pub recv_mac_key : Option (List ℕ)

module _ {C : Type 0} where
  -- `SessionKeys::new`
  unfoldable pub new : SessionKeys C
  new = record {
    send_seq = 0;
    recv_seq = 0;
    session_id = none;
    ciphers = none;
    send_mac_key = none;
    recv_mac_key = none;
  }

  -- The number for the packet, and the keys with the next one; `wrapping_add`.
  unfoldable pub next_send_seq : SessionKeys C → ℕ × SessionKeys C
  next_send_seq keys = (keys.send_seq, record keys { send_seq = (keys.send_seq + 1) % 2 ^ 32 })

  unfoldable pub next_recv_seq : SessionKeys C → ℕ × SessionKeys C
  next_recv_seq keys = (keys.recv_seq, record keys { recv_seq = (keys.recv_seq + 1) % 2 ^ 32 })

  unfoldable pub is_encrypted : SessionKeys C → Bool
  is_encrypted keys = is_some keys.ciphers
