-- ===== src/Frame.antt =====
-- src/frame.rs: `Frame`, and which frames a packet type may carry.
pub mod Parse
pub mod Print
pub mod WireLen
pub mod Wire
pub mod Writes
pub mod Parts
pub mod Reads
pub mod Ack
pub mod RoundTrip
pub mod Length
pub mod Safe
mod Tests
use dtp.Base.{ℕ, Bool, true, false, List}
use dtp.Ranges.{RangeSet}
use dtp.Packet.{PacketType}
use dtp.Fec.{FecStatus}
use dtp.Stream.RangeBuf.{RangeBuf}

pub data Frame : Type 0 where
  padding : (len : ℕ) → Frame
  ping : Frame
  ack : (packet_time ack_delay : ℕ) (ranges : RangeSet) → Frame
  block_info : (stream_id block_size block_priority block_deadline start_time : ℕ) → Frame
  reset_stream : (stream_id error_code final_size : ℕ) → Frame
  stop_sending : (stream_id error_code : ℕ) → Frame
  crypto : (buf : RangeBuf) → Frame
  new_token : (token : List ℕ) → Frame
  stream : (stream_id : ℕ) (buf : RangeBuf) → Frame
  max_data : (max : ℕ) → Frame
  max_stream_data : (stream_id max : ℕ) → Frame
  max_streams_bidi : (max : ℕ) → Frame
  max_streams_uni : (max : ℕ) → Frame
  data_blocked : (limit : ℕ) → Frame
  stream_data_blocked : (stream_id limit : ℕ) → Frame
  streams_blocked_bidi : (limit : ℕ) → Frame
  streams_blocked_uni : (limit : ℕ) → Frame
  new_connection_id : (seq_num retire_prior_to : ℕ) (conn_id reset_token : List ℕ) → Frame
  retire_connection_id : (seq_num : ℕ) → Frame
  path_challenge : (bytes : List ℕ) → Frame
  path_response : (bytes : List ℕ) → Frame
  connection_close : (error_code frame_type : ℕ) (reason : List ℕ) → Frame
  application_close : (error_code : ℕ) (reason : List ℕ) → Frame
  handshake_done : Frame
  fec : (info : FecStatus) (bytes : List ℕ) → Frame

unfoldable pub ack_eliciting : Frame → Bool
ack_eliciting (Frame.padding _) = false
ack_eliciting (Frame.ack _ _ _) = false
ack_eliciting (Frame.application_close _ _) = false
ack_eliciting (Frame.connection_close _ _ _) = false
ack_eliciting _ = true

-- The frames that a 0-RTT packet may not carry.
unfoldable pub barred_from_zero_rtt : Frame → Bool
barred_from_zero_rtt (Frame.ack _ _ _) = true
barred_from_zero_rtt (Frame.crypto _) = true
barred_from_zero_rtt Frame.handshake_done = true
barred_from_zero_rtt (Frame.new_token _) = true
barred_from_zero_rtt (Frame.path_response _) = true
barred_from_zero_rtt (Frame.retire_connection_id _) = true
barred_from_zero_rtt (Frame.connection_close _ _ _) = true
barred_from_zero_rtt _ = false

-- The frames that every packet type but 0-RTT may carry.
unfoldable pub always_allowed : Frame → Bool
always_allowed (Frame.padding _) = true
always_allowed Frame.ping = true
always_allowed (Frame.ack _ _ _) = true
always_allowed (Frame.crypto _) = true
always_allowed (Frame.connection_close _ _ _) = true
always_allowed _ = false

-- `allowed` in `Frame::from_bytes`
unfoldable pub allowed : PacketType → Frame → Bool
unfolding barred_from_zero_rtt always_allowed
allowed PacketType.short f = true
allowed PacketType.zero_rtt f = elim (barred_from_zero_rtt f) [ true ↦ false | false ↦ true ]
allowed _ f = always_allowed f
