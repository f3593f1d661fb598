-- ===== src/Frame/Writes.antt =====
-- `put_frame` writes the wire form.
use dtp.Base.{
  ℕ, zero, suc, ◌-◌, ◌%◌, ◌^◌, ◌≤◌, ◌<◌, ◌≡◌, refl, Bool, true, false, List, [], ◌∷◌, ◌++◌, length,
  arith, replicate, if◌then◌else◌,
}
use dtp.Base.Words.{sub64}
use dtp.Base.Bytes.{to_be}
use dtp.Octets.{◌>>◌, put_varint, put_bytes, put_u}
use dtp.Octets.Writes.{Writes, Writes-bind, put_bytes-Writes, put_u-Writes, Writes-pure}
use dtp.Octets.Varint.{varint, IsVarint, put_varint-Writes}
use dtp.Octets.Rules.{write_num, write_prefixed}
use dtp.Ranges.{Range}
use mathlib.Core.List.{reverse}
use dtp.Frame.{Frame}
use dtp.Frame.Print.{put_padding, put_ack_blocks, put_ack, stream_type, put_frame}
use dtp.Frame.Wire.{wire, wire_blocks, wire_ack, Descends, IsDescending, IsEncodable}
use dtp.Frame.Ack.{reverse-IsDescending, length-reverse}

put_padding-Writes : (n : ℕ) → Writes (put_padding n) (replicate n 0)
unfolding put_padding varint
put_padding-Writes zero = Writes-pure
put_padding-Writes (suc n) =
    write_num 0 (put_padding n) (replicate n 0) (omega arith) (put_padding-Writes n)

put_ack_blocks-Writes :
    (s : ℕ) (it : List Range)
    → s ≤ 2 ^ 62
    → Descends s it
    → Writes (put_ack_blocks s it) (wire_blocks s it)
unfolding put_ack_blocks
put_ack_blocks-Writes s [] h d = Writes-pure
put_ack_blocks-Writes s ((a, b) ∷ it) h d =
    let e1 : sub64 (sub64 s b) 1 ≡ s - b - 1 = omega arith in
    let e2 : sub64 (sub64 b 1) a ≡ b - 1 - a = omega arith in
    rw (e1, e2)
      (write_num (s - b - 1) _ _ (omega arith)
        (write_num (b - 1 - a) _ _ (omega arith) (put_ack_blocks-Writes a it (omega arith) d.2)))

put_ack-Writes :
    (time delay : ℕ) (it : List Range)
    → IsVarint time
    → IsVarint delay
    → IsVarint (length it)
    → IsDescending it
    → Writes (put_ack time delay it) (wire_ack time delay it)
unfolding put_ack
put_ack-Writes time delay [] ht hd hl d = absurd d
put_ack-Writes time delay ((a, b) ∷ it) ht hd hl d =
    let e1 : sub64 b 1 ≡ b - 1 = omega arith in
    let e2 : sub64 (b - 1) a ≡ b - 1 - a = omega arith in
    rw (e1, e2)
      (write_num (b - 1) _ _ (omega arith) (
        write_num time _ _ ht (
          write_num delay _ _ hd (
            write_num (length it) _ _ (omega arith) (
              write_num (b - 1 - a) _ _ (omega arith)
                (put_ack_blocks-Writes a it (omega arith) d.2))))))

stream_type_lem : (fin : Bool) → stream_type fin ≡ (if fin then 0x0f else 0x0e)
unfolding stream_type
stream_type_lem true = refl
stream_type_lem false = refl

one :
    (v : ℕ) (ty : ℕ)
    → ty < 64
    → IsVarint v
    → Writes (put_varint ty >> put_varint v) (varint ty ++ varint v)
one v ty h k = write_num ty (put_varint v) (varint v) (omega arith) (put_varint-Writes v k)

two :
    (ty v w : ℕ)
    → ty < 64
    → IsVarint v
    → IsVarint w
    → Writes (put_varint ty >> (put_varint v >> put_varint w)) (varint ty ++ (varint v ++ varint w))
two ty v w h k l =
    write_num ty (put_varint v >> put_varint w) (varint v ++ varint w) (omega arith)
      (write_num v (put_varint w) (varint w) k (put_varint-Writes w l))

-- On a frame with a wire form `put_frame` writes that form.
pub put_frame-Writes : (f : Frame) → IsEncodable f → Writes (put_frame f) (wire f)
unfolding put_frame wire
put_frame-Writes (Frame.padding len) h = put_padding-Writes len
put_frame-Writes Frame.ping h = put_varint-Writes 1 (omega arith)
put_frame-Writes (Frame.ack time delay ranges) h = write_num 2 _ _ (omega arith) (
    put_ack-Writes time delay (reverse ranges) h.0 h.1 (omega (arith, length-reverse ranges))
      (reverse-IsDescending ranges h.3 h.4 h.5))
put_frame-Writes (Frame.block_info id size priority deadline start) h =
    write_num 0x20 _ _ (omega arith) (
      write_num id _ _ h.0 (
        write_num size _ _ h.1
          (write_num priority _ _ h.2 (write_num deadline _ _ h.3 (put_varint-Writes start h.4)))))
put_frame-Writes (Frame.reset_stream id error size) h = write_num 4 _ _ (omega arith) (
    write_num id _ _ h.0 (
      Writes-bind (put_u 2 error) _ (to_be 2 error) _ (put_u-Writes 2 error)
        (put_varint-Writes size h.2)))
put_frame-Writes (Frame.stop_sending id error) h = two 5 id error (omega arith) h.0 h.1
put_frame-Writes (Frame.crypto buf) h =
    write_num 6 _ _ (omega arith)
      (write_num buf.off _ _ (omega arith) (write_prefixed buf.bytes (omega arith)))
put_frame-Writes (Frame.new_token token) h = write_num 7 _ _ (omega arith) (write_prefixed token h)
put_frame-Writes (Frame.stream id buf) h = rw (stream_type_lem buf.fin) (
    write_num (if buf.fin then 0x0f else 0x0e) _ _ (ground arith) (
      write_num id _ _ h.0
        (write_num buf.off _ _ (omega arith) (write_prefixed buf.bytes (omega arith)))))
put_frame-Writes (Frame.max_data max) h = one max 0x10 (omega arith) h
put_frame-Writes (Frame.max_stream_data id max) h = two 0x11 id max (omega arith) h.0 h.1
put_frame-Writes (Frame.max_streams_bidi max) h = one max 0x12 (omega arith) h
put_frame-Writes (Frame.max_streams_uni max) h = one max 0x13 (omega arith) h
put_frame-Writes (Frame.data_blocked limit) h = one limit 0x14 (omega arith) h
put_frame-Writes (Frame.stream_data_blocked id limit) h = two 0x15 id limit (omega arith) h.0 h.1
put_frame-Writes (Frame.streams_blocked_bidi limit) h = one limit 0x16 (omega arith) h
put_frame-Writes (Frame.streams_blocked_uni limit) h = one limit 0x17 (omega arith) h
put_frame-Writes (Frame.new_connection_id seq retire conn_id token) h =
    let e : length conn_id % 2 ^ 8 ≡ length conn_id = omega arith in
    rw e (
      write_num 0x18 _ _ (omega arith) (
        write_num seq _ _ h.0 (
          write_num retire _ _ h.1 (
            Writes-bind (put_u 1 (length conn_id)) _ (to_be 1 (length conn_id)) _
              (put_u-Writes 1 (length conn_id))
              (Writes-bind (put_bytes conn_id) _ conn_id token (put_bytes-Writes conn_id)
                (put_bytes-Writes token))))))
put_frame-Writes (Frame.retire_connection_id seq) h = one seq 0x19 (omega arith) h
put_frame-Writes (Frame.path_challenge bytes) h =
    write_num 0x1a _ _ (omega arith) (put_bytes-Writes bytes)
put_frame-Writes (Frame.path_response bytes) h =
    write_num 0x1b _ _ (omega arith) (put_bytes-Writes bytes)
put_frame-Writes (Frame.connection_close error ty reason) h =
    write_num 0x1c _ _ (omega arith)
      (write_num error _ _ h.0 (write_num ty _ _ h.1 (write_prefixed reason h.2)))
put_frame-Writes (Frame.application_close error reason) h =
    write_num 0x1d _ _ (omega arith) (write_num error _ _ h.0 (write_prefixed reason h.1))
put_frame-Writes Frame.handshake_done h = put_varint-Writes 0x1e (omega arith)
put_frame-Writes (Frame.fec info bytes) h = put_bytes-Writes bytes
