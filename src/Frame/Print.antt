-- ===== src/Frame/Print.antt =====
-- src/frame.rs: `Frame::to_bytes`.
use dtp.Base.{
  ℕ, zero, suc, ◌-◌, ◌%◌, ◌^◌, Bool, List, [], ◌∷◌, length, bit_or, if◌then◌else◌, ok, err, panic,
}
use dtp.Base.Words.{sub64}
use dtp.Octets.{M, ◌>>◌, pure, cap, put_varint, put_bytes, put_u8, put_u16}
use mathlib.Core.List.{reverse}
use dtp.Ranges.{Range}
use dtp.Stream.RangeBuf.{RangeBuf}
use dtp.Stream.RangeBuf
use dtp.Frame.{Frame}

unfoldable pub put_padding : ℕ → M (Unit {0})
put_padding zero = pure tt
put_padding (suc left) = do put_varint 0x00; put_padding left

-- The blocks of an ACK after the first, from the greatest down.
unfoldable pub put_ack_blocks : ℕ → List Range → M (Unit {0})
put_ack_blocks smallest_ack [] = pure tt
put_ack_blocks smallest_ack ((start, end) ∷ it) = do
  let gap = sub64 (sub64 smallest_ack end) 1
  let ack_block = sub64 (sub64 end 1) start
  put_varint gap
  put_varint ack_block
  put_ack_blocks start it

-- An ACK of the ranges `it`, in descending order; the first is `unwrap`ped.
unfoldable pub put_ack : ℕ → ℕ → List Range → M (Unit {0})
put_ack packet_time ack_delay [] = λ b. panic
put_ack packet_time ack_delay ((start, end) ∷ it) = do
  let ack_block = sub64 (sub64 end 1) start
  put_varint (sub64 end 1)
  put_varint packet_time
  put_varint ack_delay
  put_varint (length it)
  put_varint ack_block
  put_ack_blocks start it

-- The type byte of a STREAM frame: with an offset and a length always.
unfoldable pub stream_type : Bool → ℕ
stream_type fin = let ty = bit_or (bit_or 0x08 0x04) 0x02 in if fin then bit_or ty 0x01 else ty

-- The `match` of `to_bytes`.
unfoldable pub put_frame : Frame → M (Unit {0})
put_frame (Frame.padding len) = put_padding len
put_frame Frame.ping = put_varint 0x01
put_frame (Frame.ack packet_time ack_delay ranges) = do
  put_varint 0x02
  put_ack packet_time ack_delay (reverse ranges)
put_frame (Frame.block_info stream_id block_size block_priority block_deadline start_time) = do
  put_varint 0x20
  put_varint stream_id
  put_varint block_size
  put_varint block_priority
  put_varint block_deadline
  put_varint start_time
put_frame (Frame.reset_stream stream_id error_code final_size) = do
  put_varint 0x04
  put_varint stream_id
  put_u16 error_code
  put_varint final_size
put_frame (Frame.stop_sending stream_id error_code) = do
  put_varint 0x05
  put_varint stream_id
  put_varint error_code
put_frame (Frame.crypto buf) = do
  put_varint 0x06
  put_varint buf.off
  put_varint (RangeBuf.len buf)
  put_bytes buf.bytes
put_frame (Frame.new_token token) = do put_varint 0x07; put_varint (length token); put_bytes token
put_frame (Frame.stream stream_id buf) = do
  put_varint (stream_type buf.fin)
  put_varint stream_id
  put_varint buf.off
  put_varint (RangeBuf.len buf)
  put_bytes buf.bytes
put_frame (Frame.max_data max) = do put_varint 0x10; put_varint max
put_frame (Frame.max_stream_data stream_id max) = do
  put_varint 0x11
  put_varint stream_id
  put_varint max
put_frame (Frame.max_streams_bidi max) = do put_varint 0x12; put_varint max
put_frame (Frame.max_streams_uni max) = do put_varint 0x13; put_varint max
put_frame (Frame.data_blocked limit) = do put_varint 0x14; put_varint limit
put_frame (Frame.stream_data_blocked stream_id limit) = do
  put_varint 0x15
  put_varint stream_id
  put_varint limit
put_frame (Frame.streams_blocked_bidi limit) = do put_varint 0x16; put_varint limit
put_frame (Frame.streams_blocked_uni limit) = do put_varint 0x17; put_varint limit
put_frame (Frame.new_connection_id seq_num retire_prior_to conn_id reset_token) = do
  put_varint 0x18
  put_varint seq_num
  put_varint retire_prior_to
  put_u8 (length conn_id % 2 ^ 8)
  put_bytes conn_id
  put_bytes reset_token
put_frame (Frame.retire_connection_id seq_num) = do put_varint 0x19; put_varint seq_num
put_frame (Frame.path_challenge bytes) = do put_varint 0x1a; put_bytes bytes
put_frame (Frame.path_response bytes) = do put_varint 0x1b; put_bytes bytes
put_frame (Frame.connection_close error_code frame_type reason) = do
  put_varint 0x1c
  put_varint error_code
  put_varint frame_type
  put_varint (length reason)
  put_bytes reason
put_frame (Frame.application_close error_code reason) = do
  put_varint 0x1d
  put_varint error_code
  put_varint (length reason)
  put_bytes reason
put_frame Frame.handshake_done = put_varint 0x1e
put_frame (Frame.fec info bytes) = put_bytes bytes

-- `Frame::to_bytes`, which returns the number of bytes written.
unfoldable pub to_bytes : Frame → M ℕ
to_bytes f b = elim (put_frame f b) [
  | ok (_, b') ↦ ok (cap b - cap b', b')
  | err e ↦ err e
  | panic ↦ panic
]
