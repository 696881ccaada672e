-- ===== src/Packet/Numbers.antt =====
-- Message numbers: `MessageType::from_u8` against the discriminants.
use swift_ssh.Prelude.{ℕ, ◌≡◌, ◌↔◌, some, arith}
use swift_ssh.Packet.Types.{MessageType, as_u8, from_u8}

eq_of_from_u8 : (v : ℕ) (m : MessageType) → from_u8 v ≡ some m → as_u8 m ≡ v
unfolding from_u8 as_u8
eq_of_from_u8 v m h = ground arith

from_u8-as_u8 : (m : MessageType) → from_u8 (as_u8 m) ≡ some m
unfolding from_u8 as_u8
from_u8-as_u8 m = ground arith

-- `from_u8` answers with a message type exactly at that type's discriminant; so it knows every
-- type, mistakes none for another, and refuses all other bytes.
pub from_u8_iff : (v : ℕ) (m : MessageType) → (from_u8 v ≡ some m) ↔ (as_u8 m ≡ v)
from_u8_iff v m = (eq_of_from_u8 v m, λ e. rw (← e) (from_u8-as_u8 m))
