-- ===== src/Frame/WireLen.antt =====
-- src/frame.rs: `Frame::wire_len`.
use dtp.Base.{ℕ, ◌+◌, List, [], ◌∷◌, length, Result, ok, err, panic}
use dtp.Base.Words.{sub64}
use dtp.Octets.{varint_len}
use mathlib.Core.List.{reverse}
use dtp.Ranges.{Range}
use dtp.Stream.RangeBuf
use dtp.Frame.{Frame}

-- The sum of the parts. `varint_len` panics on a number that is too large.
unfoldable pub sum_len : List (Result ℕ) → Result ℕ
sum_len [] = ok 0
sum_len (part ∷ parts) = elim part [
  | ok n ↦ elim (sum_len parts) [ ok m ↦ ok (n + m) | err e ↦ err e | panic ↦ panic ]
  | err e ↦ err e
  | panic ↦ panic
]

unfoldable pub ack_blocks_len : ℕ → List Range → Result ℕ
ack_blocks_len smallest_ack [] = ok 0
ack_blocks_len smallest_ack ((start, end) ∷ it) =
    let gap = sub64 (sub64 smallest_ack end) 1 in
    let ack_block = sub64 (sub64 end 1) start in
    sum_len (varint_len gap ∷ varint_len ack_block ∷ ack_blocks_len start it ∷ [])

unfoldable pub ack_len : ℕ → ℕ → List Range → Result ℕ
ack_len packet_time ack_delay [] = panic
ack_len packet_time ack_delay ((start, end) ∷ it) =
    let ack_block = sub64 (sub64 end 1) start in
    sum_len (
      ok 1
      ∷ varint_len (sub64 end 1)
      ∷ varint_len packet_time
      ∷ varint_len ack_delay
      ∷ varint_len (length it)
      ∷ varint_len ack_block
      ∷ ack_blocks_len start it
      ∷ [])

unfoldable pub wire_len : Frame → Result ℕ
wire_len (Frame.padding len) = ok len
wire_len Frame.ping = ok 1
wire_len (Frame.ack packet_time ack_delay ranges) = ack_len packet_time ack_delay (reverse ranges)
wire_len (Frame.block_info stream_id block_size block_priority block_deadline start_time) =
    sum_len (
      ok 1
      ∷ varint_len stream_id
      ∷ varint_len block_size
      ∷ varint_len block_priority
      ∷ varint_len block_deadline
      ∷ varint_len start_time
      ∷ [])
wire_len (Frame.reset_stream stream_id error_code final_size) =
    sum_len (ok 1 ∷ varint_len stream_id ∷ ok 2 ∷ varint_len final_size ∷ [])
wire_len (Frame.stop_sending stream_id error_code) =
    sum_len (ok 1 ∷ varint_len stream_id ∷ varint_len error_code ∷ [])
wire_len (Frame.crypto buf) =
    sum_len (ok 1 ∷ varint_len buf.off ∷ varint_len (RangeBuf.len buf) ∷ ok (RangeBuf.len buf) ∷ [])
wire_len (Frame.new_token token) =
    sum_len (ok 1 ∷ varint_len (length token) ∷ ok (length token) ∷ [])
wire_len (Frame.stream stream_id buf) = sum_len (
    ok 1
    ∷ varint_len stream_id
    ∷ varint_len buf.off
    ∷ varint_len (RangeBuf.len buf)
    ∷ ok (RangeBuf.len buf)
    ∷ [])
wire_len (Frame.max_data max) = sum_len (ok 1 ∷ varint_len max ∷ [])
wire_len (Frame.max_stream_data stream_id max) =
    sum_len (ok 1 ∷ varint_len stream_id ∷ varint_len max ∷ [])
wire_len (Frame.max_streams_bidi max) = sum_len (ok 1 ∷ varint_len max ∷ [])
wire_len (Frame.max_streams_uni max) = sum_len (ok 1 ∷ varint_len max ∷ [])
wire_len (Frame.data_blocked limit) = sum_len (ok 1 ∷ varint_len limit ∷ [])
wire_len (Frame.stream_data_blocked stream_id limit) =
    sum_len (ok 1 ∷ varint_len stream_id ∷ varint_len limit ∷ [])
wire_len (Frame.streams_blocked_bidi limit) = sum_len (ok 1 ∷ varint_len limit ∷ [])
wire_len (Frame.streams_blocked_uni limit) = sum_len (ok 1 ∷ varint_len limit ∷ [])
wire_len (Frame.new_connection_id seq_num retire_prior_to conn_id reset_token) = sum_len (
    ok 1
    ∷ varint_len seq_num
    ∷ varint_len retire_prior_to
    ∷ ok 1
    ∷ ok (length conn_id)
    ∷ ok (length reset_token)
    ∷ [])
wire_len (Frame.retire_connection_id seq_num) = sum_len (ok 1 ∷ varint_len seq_num ∷ [])
wire_len (Frame.path_challenge bytes) = sum_len (ok 1 ∷ ok 8 ∷ [])
wire_len (Frame.path_response bytes) = sum_len (ok 1 ∷ ok 8 ∷ [])
wire_len (Frame.connection_close error_code frame_type reason) = sum_len (
    ok 1
    ∷ varint_len error_code
    ∷ varint_len frame_type
    ∷ varint_len (length reason)
    ∷ ok (length reason)
    ∷ [])
wire_len (Frame.application_close error_code reason) =
    sum_len (ok 1 ∷ varint_len error_code ∷ varint_len (length reason) ∷ ok (length reason) ∷ [])
wire_len Frame.handshake_done = ok 1
wire_len (Frame.fec info bytes) = ok (length bytes)
