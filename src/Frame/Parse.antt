-- ===== src/Frame/Parse.antt =====
-- src/frame.rs: `Frame::from_bytes`, `parse_ack_frame` and `parse_stream_frame`.
use dtp.Base.{
  ℕ, zero, suc, ◌+◌, ◌-◌, ◌%◌, ◌^◌, Bool, true, false, ◌&&◌, not, [], length, ltb, leb, ◌==◌,
  if◌then◌else◌, bit_and, Error, ok, err, panic,
}
use dtp.Octets.{
  M, ◌>>=◌, ◌>>◌, pure, fail, fail_if, as_ref, get_cap, get_varint, get_u8, get_u16, peek_u8,
  get_bytes, get_bytes_with_varint_length, get_bytes_with_u8_length,
}
use dtp.Ranges.{RangeSet, insert}
use dtp.Packet.{PacketType}
use dtp.Stream.RangeBuf.{range_buf}
use dtp.Frame.{Frame, allowed}

abbrev pub max_stream_size : ℕ
max_stream_size = 2 ^ 62

-- `b.peek_u8() == Ok(0x00)`
unfoldable pub peeks_zero : M Bool
peeks_zero b = elim (peek_u8 b) [
  | ok (x, _) ↦ ok (x == 0x00, b)
  | err e ↦ ok (false, b)
  | panic ↦ panic
]

-- The `while` loop of PADDING, on fuel. Each round takes a byte.
unfoldable pub padding_loop : ℕ → ℕ → M ℕ
padding_loop zero len = pure len
padding_loop (suc fuel) len = do
  more ← peeks_zero
  elim more [ true ↦ get_u8 >> padding_loop fuel (len + 1) | false ↦ pure len ]

unfoldable pub parse_padding : M Frame
parse_padding b = (padding_loop (length (as_ref b)) 1 >>= λ len. pure (Frame.padding len)) b

-- The `for` loop of `parse_ack_frame`, over the blocks that are left.
unfoldable pub ack_loop : ℕ → ℕ → RangeSet → M RangeSet
ack_loop zero smallest_ack ranges = pure ranges
ack_loop (suc n) smallest_ack ranges = do
  gap ← get_varint
  fail_if (ltb smallest_ack (2 + gap)) Error.invalid_frame
  let largest_ack = smallest_ack - gap - 2
  ack_block ← get_varint
  fail_if (ltb largest_ack ack_block) Error.invalid_frame
  let smallest_ack' = largest_ack - ack_block
  ack_loop n smallest_ack' (insert (smallest_ack', largest_ack + 1) ranges)

unfoldable pub parse_ack_frame : M Frame
parse_ack_frame = do
  largest_ack ← get_varint
  packet_time ← get_varint
  ack_delay ← get_varint
  block_count ← get_varint
  ack_block ← get_varint
  fail_if (ltb largest_ack ack_block) Error.invalid_frame
  let smallest_ack = largest_ack - ack_block
  ranges ← ack_loop block_count smallest_ack (insert (smallest_ack, largest_ack + 1) [])
  pure (Frame.ack packet_time ack_delay ranges)

abbrev pub has_bit : ℕ → ℕ → Bool
has_bit x mask = not (bit_and x mask == 0)

unfoldable pub parse_stream_frame : ℕ → M Frame
parse_stream_frame ty = do
  let first = ty % 2 ^ 8
  stream_id ← get_varint
  offset ← if has_bit first 0x04 then get_varint else pure 0
  len ← if has_bit first 0x02 then get_varint else get_cap
  fail_if (leb max_stream_size (offset + len)) Error.invalid_frame
  let fin = has_bit first 0x01
  bytes ← get_bytes len
  pure (Frame.stream stream_id (range_buf bytes offset fin))

-- The `match` of `from_bytes` on the frame type.
unfoldable pub parse_frame : ℕ → M Frame
parse_frame ty =
    if ty == 0x00
    then parse_padding
    else if ty == 0x01
    then pure Frame.ping
    else if ty == 0x02
    then parse_ack_frame
    else if ty == 0x04
    then (do
      stream_id ← get_varint
      error_code ← get_u16
      final_size ← get_varint
      pure (Frame.reset_stream stream_id error_code final_size))
    else if ty == 0x05
    then (do
      stream_id ← get_varint
      error_code ← get_varint
      pure (Frame.stop_sending stream_id error_code))
    else if ty == 0x06
    then (do
      offset ← get_varint
      bytes ← get_bytes_with_varint_length
      pure (Frame.crypto (range_buf bytes offset false)))
    else if ty == 0x07
    then get_bytes_with_varint_length >>= (λ token. pure (Frame.new_token token))
    else if leb 0x08 ty && leb ty 0x0f
    then parse_stream_frame ty
    else if ty == 0x10
    then get_varint >>= (λ max. pure (Frame.max_data max))
    else if ty == 0x11
    then (do stream_id ← get_varint; max ← get_varint; pure (Frame.max_stream_data stream_id max))
    else if ty == 0x12
    then get_varint >>= (λ max. pure (Frame.max_streams_bidi max))
    else if ty == 0x13
    then get_varint >>= (λ max. pure (Frame.max_streams_uni max))
    else if ty == 0x14
    then get_varint >>= (λ limit. pure (Frame.data_blocked limit))
    else if ty == 0x15
    then (do
      stream_id ← get_varint
      limit ← get_varint
      pure (Frame.stream_data_blocked stream_id limit))
    else if ty == 0x16
    then get_varint >>= (λ limit. pure (Frame.streams_blocked_bidi limit))
    else if ty == 0x17
    then get_varint >>= (λ limit. pure (Frame.streams_blocked_uni limit))
    else if ty == 0x18
    then (do
      seq_num ← get_varint
      retire_prior_to ← get_varint
      conn_id ← get_bytes_with_u8_length
      reset_token ← get_bytes 16
      pure (Frame.new_connection_id seq_num retire_prior_to conn_id reset_token))
    else if ty == 0x19
    then get_varint >>= (λ seq_num. pure (Frame.retire_connection_id seq_num))
    else if ty == 0x1a
    then get_bytes 8 >>= (λ bytes. pure (Frame.path_challenge bytes))
    else if ty == 0x1b
    then get_bytes 8 >>= (λ bytes. pure (Frame.path_response bytes))
    else if ty == 0x1c
    then (do
      error_code ← get_varint
      frame_type ← get_varint
      reason ← get_bytes_with_varint_length
      pure (Frame.connection_close error_code frame_type reason))
    else if ty == 0x1d
    then (do
      error_code ← get_varint
      reason ← get_bytes_with_varint_length
      pure (Frame.application_close error_code reason))
    else if ty == 0x1e
    then pure Frame.handshake_done
    else if ty == 0x20
    then (do
      stream_id ← get_varint
      block_size ← get_varint
      block_priority ← get_varint
      block_deadline ← get_varint
      start_time ← get_varint
      pure (Frame.block_info stream_id block_size block_priority block_deadline start_time))
    else fail Error.invalid_frame

-- `Frame::from_bytes`
unfoldable pub from_bytes : PacketType → M Frame
from_bytes pkt = do
  ty ← get_varint
  frame ← parse_frame ty
  fail_if (not (allowed pkt frame)) Error.invalid_packet
  pure frame
