-- ===== src/Frame/Wire.antt =====
-- The wire form of a frame, field by field, and the frames that have one. It follows the QUIC
-- frame layouts and the two that DTP changes: the packet time in ACK, and BLOCK_INFO.
use dtp.Base.{
  ℕ, ◌-◌, ◌≤◌, ◌<◌, ◌^◌, ◌≡◌, List, [], ◌∷◌, ◌++◌, length, replicate, false, if◌then◌else◌,
}
use dtp.Base.Bytes.{to_be}
use dtp.Octets.Varint.{varint, IsVarint}
use mathlib.Core.List.{reverse}
use dtp.Ranges.{Range, RangeSet}
use dtp.Ranges.Insert.{IsSeparated}
use dtp.Stream.RangeBuf.{RangeBuf, stop}
use dtp.Frame.{Frame}

-- Bytes behind their number.
abbrev pub prefixed : List ℕ → List ℕ
prefixed bs = varint (length bs) ++ bs

-- ACK blocks below `smallest`, from the greatest down: the gap and the length, each less one.
abbrev pub wire_blocks : ℕ → List Range → List ℕ
wire_blocks smallest [] = []
wire_blocks smallest ((a, b) ∷ it) =
    varint (smallest - b - 1) ++ (varint (b - 1 - a) ++ wire_blocks a it)

abbrev pub wire_ack : ℕ → ℕ → List Range → List ℕ
wire_ack time delay [] = []
wire_ack time delay ((a, b) ∷ it) =
    varint (b - 1)
    ++ (varint time
        ++ (varint delay ++ (varint (length it) ++ (varint (b - 1 - a) ++ wire_blocks a it))))

unfoldable pub wire : Frame → List ℕ
wire (Frame.padding len) = replicate len 0
wire Frame.ping = varint 0x01
wire (Frame.ack time delay ranges) = varint 0x02 ++ wire_ack time delay (reverse ranges)
wire (Frame.block_info id size priority deadline start) =
    varint 0x20
    ++ (varint id ++ (varint size ++ (varint priority ++ (varint deadline ++ varint start))))
wire (Frame.reset_stream id error size) =
    varint 0x04 ++ (varint id ++ (to_be 2 error ++ varint size))
wire (Frame.stop_sending id error) = varint 0x05 ++ (varint id ++ varint error)
wire (Frame.crypto buf) = varint 0x06 ++ (varint buf.off ++ prefixed buf.bytes)
wire (Frame.new_token token) = varint 0x07 ++ prefixed token
wire (Frame.stream id buf) =
    varint (if buf.fin then 0x0f else 0x0e) ++ (varint id ++ (varint buf.off ++ prefixed buf.bytes))
wire (Frame.max_data max) = varint 0x10 ++ varint max
wire (Frame.max_stream_data id max) = varint 0x11 ++ (varint id ++ varint max)
wire (Frame.max_streams_bidi max) = varint 0x12 ++ varint max
wire (Frame.max_streams_uni max) = varint 0x13 ++ varint max
wire (Frame.data_blocked limit) = varint 0x14 ++ varint limit
wire (Frame.stream_data_blocked id limit) = varint 0x15 ++ (varint id ++ varint limit)
wire (Frame.streams_blocked_bidi limit) = varint 0x16 ++ varint limit
wire (Frame.streams_blocked_uni limit) = varint 0x17 ++ varint limit
wire (Frame.new_connection_id seq retire conn_id token) =
    varint 0x18
    ++ (varint seq ++ (varint retire ++ (to_be 1 (length conn_id) ++ (conn_id ++ token))))
wire (Frame.retire_connection_id seq) = varint 0x19 ++ varint seq
wire (Frame.path_challenge bytes) = varint 0x1a ++ bytes
wire (Frame.path_response bytes) = varint 0x1b ++ bytes
wire (Frame.connection_close error ty reason) =
    varint 0x1c ++ (varint error ++ (varint ty ++ prefixed reason))
wire (Frame.application_close error reason) = varint 0x1d ++ (varint error ++ prefixed reason)
wire Frame.handshake_done = varint 0x1e
wire (Frame.fec info bytes) = bytes

-- Ranges from the greatest down, each nonempty and the next below it with a gap.
abbrev pub Descends : ℕ → List Range → Type 0
Descends s [] = Unit {0}
Descends s ((a, b) ∷ it) = (a < b) × (b < s) × Descends a it

abbrev pub IsDescending : List Range → Type 0
IsDescending [] = ⊥
IsDescending ((a, b) ∷ it) = (a < b) × (b ≤ 2 ^ 62) × Descends a it

-- Every range is nonempty and ends within the numbers that a varint holds.
abbrev pub IsAckable : RangeSet → Type 0
IsAckable [] = Unit {0}
IsAckable (r ∷ m) = (r.0 < r.1) × (r.1 ≤ 2 ^ 62) × IsAckable m

abbrev pub IsChunk : RangeBuf → Type 0
IsChunk buf = stop buf < 2 ^ 62

-- The frames whose fields have the widths of the wire form. FEC frames have none of their own.
abbrev pub IsEncodable : Frame → Type 0
IsEncodable (Frame.padding len) = 0 < len
IsEncodable Frame.ping = Unit {0}
IsEncodable (Frame.ack time delay ranges) =
    IsVarint time
    × IsVarint delay
    × IsVarint (length ranges)
    × (0 < length ranges)
    × IsSeparated ranges
    × IsAckable ranges
IsEncodable (Frame.block_info id size priority deadline start) =
    IsVarint id × IsVarint size × IsVarint priority × IsVarint deadline × IsVarint start
IsEncodable (Frame.reset_stream id error size) = IsVarint id × (error < 2 ^ 16) × IsVarint size
IsEncodable (Frame.stop_sending id error) = IsVarint id × IsVarint error
IsEncodable (Frame.crypto buf) = IsChunk buf × (buf.fin ≡ false)
IsEncodable (Frame.new_token token) = IsVarint (length token)
IsEncodable (Frame.stream id buf) = IsVarint id × IsChunk buf
IsEncodable (Frame.max_data max) = IsVarint max
IsEncodable (Frame.max_stream_data id max) = IsVarint id × IsVarint max
IsEncodable (Frame.max_streams_bidi max) = IsVarint max
IsEncodable (Frame.max_streams_uni max) = IsVarint max
IsEncodable (Frame.data_blocked limit) = IsVarint limit
IsEncodable (Frame.stream_data_blocked id limit) = IsVarint id × IsVarint limit
IsEncodable (Frame.streams_blocked_bidi limit) = IsVarint limit
IsEncodable (Frame.streams_blocked_uni limit) = IsVarint limit
IsEncodable (Frame.new_connection_id seq retire conn_id token) =
    IsVarint seq × IsVarint retire × (length conn_id < 2 ^ 8) × (length token ≡ 16)
IsEncodable (Frame.retire_connection_id seq) = IsVarint seq
IsEncodable (Frame.path_challenge bytes) = length bytes ≡ 8
IsEncodable (Frame.path_response bytes) = length bytes ≡ 8
IsEncodable (Frame.connection_close error ty reason) =
    IsVarint error × IsVarint ty × IsVarint (length reason)
IsEncodable (Frame.application_close error reason) = IsVarint error × IsVarint (length reason)
IsEncodable Frame.handshake_done = Unit {0}
IsEncodable (Frame.fec info bytes) = ⊥
