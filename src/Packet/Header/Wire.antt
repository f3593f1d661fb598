-- ===== src/Packet/Header/Wire.antt =====
-- The wire form of a header, and what the parser makes of it.
use dtp.Base.{
  ℕ, ◌+◌, ◌-◌, ◌*◌, ◌≤◌, ◌<◌, ◌^◌, ◌≡◌, false, Option, none, some, List, [], ◌++◌, replicate,
  length, if◌then◌else◌,
}
use dtp.Base.Bytes.{to_be}
use dtp.Octets.Varint.{varint, IsVarint}
use dtp.Packet.{PacketType, initial, retry, handshake, zero_rtt, version_negotiation, short}
use dtp.Packet.Header.{Header, max_cid_len, default_info}

-- The first bytes, by their bits: the form, the fixed bit, the type or the key phase, and the length
-- of the packet number less one.
abbrev pub short_byte : Header → ℕ
short_byte h = 64 + (if h.key_phase then 4 else 0) + (h.pkt_num_len - 1)

abbrev pub number : PacketType → ℕ
number initial = 0
number zero_rtt = 1
number handshake = 2
number _ = 3

abbrev pub long_byte : PacketType → Header → ℕ
long_byte ty h = 192 + number ty * 16 + (h.pkt_num_len - 1)

abbrev pub wire_short : Header → List ℕ
wire_short h =
    to_be 1 (short_byte h)
    ++ (h.dcid
        ++ (to_be 4 h.fec_info.group_id
            ++ (to_be 1 h.fec_info.index
                ++ (to_be 1 h.fec_info.m
                    ++ (to_be 1 h.fec_info.n
                        ++ (to_be 1 (4 - h.pkt_num_len) ++ replicate (4 - h.pkt_num_len) 0))))))

abbrev pub wire_token : PacketType → Option (List ℕ) → List ℕ
wire_token initial (some v) = varint (length v) ++ v
wire_token initial none = varint 0
wire_token retry (some v) = v
wire_token _ _ = []

abbrev pub wire_long : PacketType → Header → List ℕ
wire_long ty h =
    to_be 1 (long_byte ty h)
    ++ (to_be 4 h.version
        ++ (to_be 1 (length h.dcid)
            ++ (h.dcid ++ (to_be 1 (length h.scid) ++ (h.scid ++ wire_token ty h.token)))))

abbrev pub wire_of : PacketType → Header → List ℕ
wire_of short h = wire_short h
wire_of ty h = wire_long ty h

-- What is read of a token: an Initial packet without one has an empty one.
abbrev pub read_token : PacketType → Option (List ℕ) → Option (List ℕ)
read_token initial none = some []
read_token initial (some v) = some v
read_token retry o = o
read_token _ o = none

-- The header that the parser returns: it leaves out the packet number, its length and the key phase,
-- which are protected, and a short header has no version and no source connection id, a long one no
-- numbers for error correction.
abbrev pub visible_short : Header → Header
visible_short h = record h {
  ty = short;
  version = 0;
  scid = [];
  pkt_num = 0;
  pkt_num_len = 0;
  token = none;
  versions = none;
  key_phase = false;
}

abbrev pub visible_long : PacketType → Header → Header
visible_long ty h = record h {
  ty = ty;
  pkt_num = 0;
  pkt_num_len = 0;
  token = read_token ty h.token;
  versions = none;
  key_phase = false;
  fec_info = default_info;
}

abbrev pub visible_of : PacketType → Header → Header
visible_of short h = visible_short h
visible_of ty h = visible_long ty h

abbrev pub IsNumbered : Header → Type 0
IsNumbered h =
    (1 ≤ h.pkt_num_len)
    × (h.pkt_num_len ≤ 4)
    × (h.fec_info.group_id < 2 ^ 32)
    × (h.fec_info.index < 2 ^ 8)
    × (h.fec_info.m < 2 ^ 8)
    × (h.fec_info.n < 2 ^ 8)

abbrev pub IsNamed : Header → Type 0
IsNamed h =
    (h.pkt_num_len ≤ 4)
    × (0 < h.version)
    × (h.version < 2 ^ 32)
    × (length h.dcid ≤ max_cid_len)
    × (length h.scid ≤ max_cid_len)

-- The token has a length in an Initial packet, and a Retry packet has a token.
abbrev pub IsCarried : PacketType → Option (List ℕ) → Type 0
IsCarried initial (some v) = IsVarint (length v)
IsCarried retry none = ⊥
IsCarried _ token = Unit {0}

-- The fields fit the wire form. Version negotiation is never printed.
abbrev pub IsWritableAs : PacketType → Header → Type 0
IsWritableAs short h = IsNumbered h
IsWritableAs version_negotiation h = ⊥
IsWritableAs ty h = IsNamed h × IsCarried ty h.token

abbrev pub wire : Header → List ℕ
wire h = wire_of h.ty h

abbrev pub visible : Header → Header
visible h = visible_of h.ty h

abbrev pub IsWritable : Header → Type 0
IsWritable h = IsWritableAs h.ty h

-- Behind the token of a Retry packet there is the tag and nothing else.
abbrev pub IsTagged : ℕ → PacketType → List ℕ → Type 0
IsTagged tag_len retry t = length t ≡ tag_len
IsTagged tag_len _ t = Unit {0}
