-- ===== src/Frame/Reads.antt =====
-- `from_bytes` reads a wire form as the frame that it is the form of.
use dtp.Base.{
  ℕ, zero, suc, ◌<◌, ◌≡◌, refl, sym, subst, Bool, true, false, List, ◌++◌, length, arith,
  append_assoc, replicate, if◌then◌else◌, not,
}
use dtp.Octets.{pure}
use dtp.Octets.Reads.{Reads, Reads-bind, Reads-pure}
use dtp.Octets.Varint.{varint, IsVarint}
use dtp.Octets.Rules.{read_num, read_bytes, read_u16, read_prefixed, read_u8_prefixed, read_pass}
use dtp.Ranges.{RangeSet}
use mathlib.Core.List.{reverse, reverse-reverse}
use dtp.Packet.{PacketType}
use dtp.Stream.RangeBuf.{RangeBuf, range_buf}
use dtp.Frame.{Frame, allowed}
use dtp.Frame.Parse.{parse_ack_frame, parse_stream_frame, parse_frame, from_bytes}
use dtp.Frame.Wire.{wire, wire_ack, IsEncodable, IsChunk}
use dtp.Frame.Ack.{reverse-IsDescending, length-reverse}
use dtp.Frame.Parts.{parse_ack_frame-Reads, parse_padding-Reads, parse_stream-Reads, NoZero}

-- Behind the frame type, the body; and then the check of the packet type.
whole :
    (pkt : PacketType) (ty : ℕ) (f : Frame) {body t : List ℕ}
    → ty < 64
    → allowed pkt f ≡ true
    → Reads (parse_frame ty) body f t
    → Reads (from_bytes pkt) (varint ty ++ body) f t
unfolding from_bytes
whole pkt ty f {body} {t} h a q =
    read_num ty _ (omega arith) (
      Reads-bind (parse_frame ty) _ q (read_pass (not (allowed pkt f)) _ _ (rw a) (Reads-pure f t)))

-- What may follow a frame: anything, but no zero byte behind PADDING.
abbrev pub Follows : Frame → List ℕ → Type 0
Follows (Frame.padding _) t = NoZero t
Follows _ t = Unit {0}

padding-Reads :
    (pkt : PacketType) (n : ℕ) (t : List ℕ)
    → 0 < n
    → allowed pkt (Frame.padding n) ≡ true
    → NoZero t
    → Reads (from_bytes pkt) (replicate n 0 ++ t) (Frame.padding n) t
unfolding varint parse_frame
padding-Reads pkt zero t h a z = absurd (omega arith)
padding-Reads pkt (suc n) t h a z =
    whole pkt 0x00 (Frame.padding (suc n)) (omega arith) a (parse_padding-Reads n t z)

parse_frame_stream :
    (fin : Bool)
    → parse_frame (if fin then 0x0f else 0x0e) ≡ parse_stream_frame (if fin then 0x0f else 0x0e)
unfolding parse_frame
parse_frame_stream true = refl
parse_frame_stream false = refl

stream-Reads :
    (pkt : PacketType) (id : ℕ) (buf : RangeBuf) (t : List ℕ)
    → IsVarint id
    → IsChunk buf
    → allowed pkt (Frame.stream id buf) ≡ true
    → Reads
        (from_bytes pkt)
        (varint (if buf.fin then 0x0f else 0x0e)
          ++ (varint id ++ (varint buf.off ++ (varint (length buf.bytes) ++ (buf.bytes ++ t)))))
        (Frame.stream id buf)
        t
stream-Reads pkt id buf t h k a =
    whole pkt (if buf.fin then 0x0f else 0x0e) (Frame.stream id buf) (ground arith) a
      (rw (parse_frame_stream buf.fin) (parse_stream-Reads buf.fin id buf.off buf.bytes t h k))

ack-Reads :
    (pkt : PacketType) (time delay : ℕ) (m : RangeSet) (t : List ℕ)
    → IsEncodable (Frame.ack time delay m)
    → allowed pkt (Frame.ack time delay m) ≡ true
    → Reads
        (from_bytes pkt)
        (varint 0x02 ++ (wire_ack time delay (reverse m) ++ t))
        (Frame.ack time delay m)
        t
unfolding parse_frame
ack-Reads pkt time delay m t h a = whole pkt 0x02 (Frame.ack time delay m) (omega arith) a (
    subst
      (λ n. Reads parse_ack_frame (wire_ack time delay (reverse m) ++ t) (Frame.ack time delay n) t)
      (reverse-reverse m)
      (parse_ack_frame-Reads time delay (reverse m) t h.0 h.1 (omega (arith, length-reverse m))
        (reverse-IsDescending m h.3 h.4 h.5)))

-- `from_bytes` reads the wire form of a frame that the packet type may carry, and stops behind it.
pub from_bytes-Reads :
    (pkt : PacketType) (f : Frame) (t : List ℕ)
    → IsEncodable f
    → allowed pkt f ≡ true
    → Follows f t
    → Reads (from_bytes pkt) (wire f ++ t) f t
unfolding wire parse_frame
from_bytes-Reads pkt (Frame.padding n) t h a z = padding-Reads pkt n t h a z
from_bytes-Reads pkt Frame.ping t h a z = whole pkt 0x01 _ (omega arith) a (Reads-pure _ t)
from_bytes-Reads pkt (Frame.ack time delay m) t h a z =
    rw append_assoc (ack-Reads pkt time delay m t h a)
from_bytes-Reads pkt (Frame.block_info id size priority deadline start) t h a z =
    simp append_assoc (
      whole pkt 0x20 _ (omega arith) a (
        read_num id _ h.0 (
          read_num size _ h.1 (
            read_num priority _ h.2
              (read_num deadline _ h.3 (read_num start _ h.4 (Reads-pure _ t)))))))
from_bytes-Reads pkt (Frame.reset_stream id error size) t h a z = simp append_assoc (
    whole pkt 0x04 _ (omega arith) a
      (read_num id _ h.0 (read_u16 error _ h.1 (read_num size _ h.2 (Reads-pure _ t)))))
from_bytes-Reads pkt (Frame.stop_sending id error) t h a z =
    simp append_assoc
      (whole pkt 0x05 _ (omega arith) a (read_num id _ h.0 (read_num error _ h.1 (Reads-pure _ t))))
from_bytes-Reads pkt (Frame.crypto buf) t h a z = simp append_assoc (
    whole pkt 0x06 (Frame.crypto buf) (omega arith) a (
      read_num buf.off _ (omega arith) (
        read_prefixed buf.bytes _ (omega arith) (
          subst
            (λ fin.
              Reads (pure (Frame.crypto (range_buf buf.bytes buf.off false))) t
                (Frame.crypto (range_buf buf.bytes buf.off fin)) t)
            (sym h.1) (Reads-pure _ t)))))
from_bytes-Reads pkt (Frame.new_token token) t h a z =
    simp append_assoc (whole pkt 0x07 _ (omega arith) a (read_prefixed token _ h (Reads-pure _ t)))
from_bytes-Reads pkt (Frame.stream id buf) t h a z =
    simp append_assoc (stream-Reads pkt id buf t h.0 h.1 a)
from_bytes-Reads pkt (Frame.max_data max) t h a z =
    rw append_assoc (whole pkt 0x10 _ (omega arith) a (read_num max _ h (Reads-pure _ t)))
from_bytes-Reads pkt (Frame.max_stream_data id max) t h a z =
    simp append_assoc
      (whole pkt 0x11 _ (omega arith) a (read_num id _ h.0 (read_num max _ h.1 (Reads-pure _ t))))
from_bytes-Reads pkt (Frame.max_streams_bidi max) t h a z =
    rw append_assoc (whole pkt 0x12 _ (omega arith) a (read_num max _ h (Reads-pure _ t)))
from_bytes-Reads pkt (Frame.max_streams_uni max) t h a z =
    rw append_assoc (whole pkt 0x13 _ (omega arith) a (read_num max _ h (Reads-pure _ t)))
from_bytes-Reads pkt (Frame.data_blocked limit) t h a z =
    rw append_assoc (whole pkt 0x14 _ (omega arith) a (read_num limit _ h (Reads-pure _ t)))
from_bytes-Reads pkt (Frame.stream_data_blocked id limit) t h a z =
    simp append_assoc
      (whole pkt 0x15 _ (omega arith) a (read_num id _ h.0 (read_num limit _ h.1 (Reads-pure _ t))))
from_bytes-Reads pkt (Frame.streams_blocked_bidi limit) t h a z =
    rw append_assoc (whole pkt 0x16 _ (omega arith) a (read_num limit _ h (Reads-pure _ t)))
from_bytes-Reads pkt (Frame.streams_blocked_uni limit) t h a z =
    rw append_assoc (whole pkt 0x17 _ (omega arith) a (read_num limit _ h (Reads-pure _ t)))
from_bytes-Reads pkt (Frame.new_connection_id seq retire conn_id token) t h a z =
    simp append_assoc (
      whole pkt 0x18 _ (omega arith) a (
        read_num seq _ h.0 (
          read_num retire _ h.1
            (read_u8_prefixed conn_id _ h.2 (read_bytes 16 token _ h.3 (Reads-pure _ t))))))
from_bytes-Reads pkt (Frame.retire_connection_id seq) t h a z =
    rw append_assoc (whole pkt 0x19 _ (omega arith) a (read_num seq _ h (Reads-pure _ t)))
from_bytes-Reads pkt (Frame.path_challenge bytes) t h a z =
    rw append_assoc (whole pkt 0x1a _ (omega arith) a (read_bytes 8 bytes _ h (Reads-pure _ t)))
from_bytes-Reads pkt (Frame.path_response bytes) t h a z =
    rw append_assoc (whole pkt 0x1b _ (omega arith) a (read_bytes 8 bytes _ h (Reads-pure _ t)))
from_bytes-Reads pkt (Frame.connection_close error ty reason) t h a z = simp append_assoc (
    whole pkt 0x1c _ (omega arith) a
      (read_num error _ h.0 (read_num ty _ h.1 (read_prefixed reason _ h.2 (Reads-pure _ t)))))
from_bytes-Reads pkt (Frame.application_close error reason) t h a z = simp append_assoc (
    whole pkt 0x1d _ (omega arith) a
      (read_num error _ h.0 (read_prefixed reason _ h.1 (Reads-pure _ t))))
from_bytes-Reads pkt Frame.handshake_done t h a z =
    whole pkt 0x1e _ (omega arith) a (Reads-pure _ t)
from_bytes-Reads pkt (Frame.fec info bytes) t h a z = absurd h
