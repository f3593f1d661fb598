-- ===== src/Packet/Header/Tests.antt =====
-- Runs of the parser and the printer of headers, and their theorems on them.
use dtp.Base.{◌+◌, ◌≡◌, refl, true, none, [], ◌∷◌, ◌++◌, length, replicate, ok, err, Error, arith}
use dtp.Fec.{FecStatus}
use dtp.Octets.Safe.{Stays}
use dtp.Octets.{Octets, with_slice, put_u, put_bytes, get_u}
use dtp.Packet.{short}
use dtp.Packet.Header.{Header, from_bytes, to_bytes, update_fec_info}
use dtp.Packet.Header.Wire.{wire, wire_short, visible}
use dtp.Packet.Header.RoundTrip.{from_bytes-to_bytes_header, update_fec_info-wire}
use dtp.Packet.Header.Safe.{from_bytes-Stays}

abbrev one_rtt : Header
one_rtt = record {
  ty = short;
  version = 0;
  dcid = 7 ∷ 8 ∷ 9 ∷ [];
  scid = [];
  pkt_num = 5;
  pkt_num_len = 2;
  token = none;
  versions = none;
  key_phase = true;
  fec_info = record { m = 4; n = 2; group_id = 300; index = 1 };
}

abbrev last_info : FecStatus
last_info = record { m = 4; n = 3; group_id = 301; index = 6 }

abbrev room : Octets
room = record { buf = replicate 20 0xee; off = 1 }

from_bytes-to_bytes_header_example :
    (b' : Octets) × (to_bytes one_rtt room ≡ ok (tt, b'))
    × (b'.off ≡ 1 + length (wire one_rtt))
    × (from_bytes 16 3 (record b' { off = 1 }) ≡ ok (visible one_rtt, b'))
from_bytes-to_bytes_header_example =
    from_bytes-to_bytes_header 16 one_rtt room
      (omega arith, omega arith, omega arith, omega arith, omega arith, omega arith) (omega arith)
      tt

one_rtt_bytes :
    to_bytes one_rtt (with_slice (replicate 15 0))
    ≡ ok (
      tt,
      record { buf = 0x45 ∷ 7 ∷ 8 ∷ 9 ∷ 0 ∷ 0 ∷ 1 ∷ 44 ∷ 1 ∷ 4 ∷ 2 ∷ 2 ∷ 0 ∷ 0 ∷ 0 ∷ []; off = 14 },
    )
unfolding to_bytes with_slice put_u put_bytes
one_rtt_bytes = refl

-- A version that is known allows connection ids of 20 bytes at most.
long_cid :
    from_bytes 16 8 (with_slice (0xc0 ∷ 0xff ∷ 0 ∷ 0 ∷ 0x19 ∷ 21 ∷ [])) ≡ err Error.invalid_packet
unfolding from_bytes with_slice get_u
long_cid = refl

update_fec_info-wire_example :
    update_fec_info
      (record one_rtt { fec_info = last_info })
      (record { buf = wire_short one_rtt ++ (5 ∷ []); off = 2 })
    ≡ ok
        (record { buf = wire_short (record one_rtt { fec_info = last_info }) ++ (5 ∷ []); off = 2 })
update_fec_info-wire_example = update_fec_info-wire one_rtt last_info (5 ∷ []) 2

abbrev datagram : Octets
datagram = record { buf = 0xc0 ∷ 0 ∷ 0 ∷ 0 ∷ 0 ∷ 0 ∷ 0 ∷ 1 ∷ 2 ∷ []; off = 0 }

from_bytes-Stays_example : Stays datagram (from_bytes 16 8 datagram)
from_bytes-Stays_example =
    from_bytes-Stays 16 8 datagram record { bytes = ground arith; within = omega arith }
