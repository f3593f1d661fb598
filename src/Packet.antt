-- ===== src/Packet.antt =====
-- src/packet.rs: packet types and epochs.
pub mod Number
pub mod Window
pub mod Header
mod Tests
use dtp.Base.{ℕ, ◌==◌, if◌then◌else◌, Result, ok, err, panic, Error}

pub data PacketType : Type 0 where
  initial retry handshake zero_rtt version_negotiation short : PacketType

abbrev pub epoch_initial : ℕ
epoch_initial = 0

abbrev pub epoch_handshake : ℕ
epoch_handshake = 1

abbrev pub epoch_application : ℕ
epoch_application = 2

-- `Type::from_epoch` and `Type::to_epoch`
unfoldable pub from_epoch : ℕ → Result PacketType
from_epoch e =
    if e == epoch_initial
    then ok PacketType.initial
    else if e == epoch_handshake
    then ok PacketType.handshake
    else if e == epoch_application
    then ok PacketType.short
    else panic

unfoldable pub to_epoch : PacketType → Result ℕ
to_epoch PacketType.initial = ok epoch_initial
to_epoch PacketType.zero_rtt = ok epoch_application
to_epoch PacketType.handshake = ok epoch_handshake
to_epoch PacketType.short = ok epoch_application
to_epoch _ = err Error.invalid_packet
