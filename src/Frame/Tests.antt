-- ===== src/Frame/Tests.antt =====
-- Runs of the frame code, on the inputs of the tests in src/frame.rs, and its theorems there.
use dtp.Base.{
  ℕ, ◌+◌, ◌≤◌, ◌<◌, ◌≡◌, ◌⊎◌, refl, true, [], ◌∷◌, length, replicate, ok, err, Error, arith,
}
use dtp.Octets.{Octets, cap, get_varint, put_varint}
use dtp.Octets.Varint.{varint}
use dtp.Octets.Safe.{IsValid}
use dtp.Packet.{PacketType}
use dtp.Frame.{Frame, allowed}
use dtp.Frame.Parse.{from_bytes, parse_frame, parse_ack_frame, ack_loop}
use dtp.Frame.Print.{to_bytes, put_frame}
use dtp.Frame.WireLen.{wire_len}
use dtp.Frame.Wire.{wire, IsEncodable}
use dtp.Frame.RoundTrip.{from_bytes-to_bytes}
use dtp.Frame.Length.{to_bytes-wire_len}
use dtp.Frame.Safe.{IsGood, from_bytes-IsGood}

abbrev acks : Frame
acks = Frame.ack 500 874_656_534 ((4, 7) ∷ (9, 12) ∷ (15, 19) ∷ [])

abbrev block : Frame
block = Frame.block_info 4 20_000 1 200 1_600_000_000

abbrev chunk : Frame
chunk = Frame.stream 32 (record { bytes = 1 ∷ 2 ∷ 3 ∷ []; off = 1_230_976; fin = true })

abbrev empty : Octets
empty = record { buf = replicate 40 0; off = 3 }

block-to_bytes :
    to_bytes block (record { buf = replicate 17 0; off = 0 })
    ≡ ok (
      17,
      record {
        buf =
            0x20 ∷ 4 ∷ 0x80 ∷ 0 ∷ 0x4e ∷ 0x20 ∷ 1 ∷ 0x40 ∷ 200 ∷ 0xc0 ∷ 0 ∷ 0 ∷ 0 ∷ 0x5f ∷ 0x5e
            ∷ 0x10 ∷ 0 ∷ [];
        off = 17;
      },
    )
unfolding to_bytes put_frame put_varint
block-to_bytes = refl

-- ACK is not for 0-RTT packets.
acks-zero_rtt :
    from_bytes PacketType.zero_rtt (record { buf = wire acks; off = 0 }) ≡ err Error.invalid_packet
unfolding from_bytes wire get_varint varint parse_frame parse_ack_frame ack_loop allowed
acks-zero_rtt = refl

acks-IsEncodable : IsEncodable acks
acks-IsEncodable = ground arith

from_bytes-to_bytes_example :
    (b' : Octets) × (to_bytes acks empty ≡ ok (length (wire acks), b'))
    × (b'.off ≡ 3 + length (wire acks))
    × (from_bytes PacketType.handshake (record b' { off = 3 }) ≡ ok (acks, b'))
unfolding allowed wire varint
from_bytes-to_bytes_example =
    from_bytes-to_bytes PacketType.handshake acks empty acks-IsEncodable refl (omega arith) tt

to_bytes-wire_len_example :
    (n : ℕ) × (wire_len chunk ≡ ok n)
    × (((n ≤ cap empty)
          × (b' : Octets) × (to_bytes chunk empty ≡ ok (n, b'))
          × (b'.off ≡ empty.off + n)
          × (length b'.buf ≡ length empty.buf))
        ⊎ ((cap empty < n) × (to_bytes chunk empty ≡ err Error.buffer_too_short)))
to_bytes-wire_len_example = to_bytes-wire_len chunk empty (ground arith) (omega arith)

-- An ACK frame whose first block is longer than its largest number.
abbrev bad_ack : Octets
bad_ack = record { buf = 2 ∷ 3 ∷ 0 ∷ 0 ∷ 0 ∷ 5 ∷ []; off = 0 }

bad_ack-IsValid : IsValid bad_ack
bad_ack-IsValid = record { bytes = ground arith; within = ground arith }

from_bytes-IsGood_example : IsGood PacketType.short bad_ack (from_bytes PacketType.short bad_ack)
from_bytes-IsGood_example = from_bytes-IsGood PacketType.short bad_ack bad_ack-IsValid
