-- ===== src/Frame/Length.antt =====
-- `wire_len` counts the bytes that `to_bytes` writes.
use dtp.Base.{
  ℕ, ◌+◌, ◌-◌, ◌≤◌, ◌<◌, ◌^◌, ◌≡◌, refl, List, [], ◌∷◌, ◌++◌, length, arith, length-append, ok, err,
  Error, Result, length-replicate, if◌then◌else◌, ◌⊎◌, inl, inr,
}
use native.Mathlib.Decide.{dec_le}
use dtp.Base.Bytes.{to_be}
use dtp.Base.Words.{sub64}
use dtp.Octets.{Octets, cap, varint_len}
use dtp.Octets.Varint.{varint, varint_len-length, IsVarint}
use dtp.Octets.Writes.{written, length-overwrite}
use dtp.Ranges.{Range}
use mathlib.Core.List.{reverse}
use dtp.Frame.{Frame}
use dtp.Frame.Print.{to_bytes}
use dtp.Frame.WireLen.{wire_len, ack_len, ack_blocks_len, sum_len}
use dtp.Frame.Wire.{wire, IsEncodable, wire_blocks, wire_ack, Descends, IsDescending, prefixed}
use dtp.Frame.Ack.{reverse-IsDescending, length-reverse}
use dtp.Frame.RoundTrip.{to_bytes_fits, to_bytes_short}

-- A part of a sum and the bytes that it counts, in front of others.
part :
    (r : Result ℕ) (rs : List (Result ℕ)) (xs ys : List ℕ)
    → r ≡ ok (length xs)
    → sum_len rs ≡ ok (length ys)
    → sum_len (r ∷ rs) ≡ ok (length (xs ++ ys))
unfolding sum_len
part r rs xs ys e h = ground (arith, e, h, length-append xs ys)

last : (r : Result ℕ) (xs : List ℕ) → r ≡ ok (length xs) → sum_len (r ∷ []) ≡ ok (length xs)
unfolding sum_len
last r xs e = ground (arith, e)

number :
    (v : ℕ) (rs : List (Result ℕ)) (ys : List ℕ)
    → IsVarint v
    → sum_len rs ≡ ok (length ys)
    → sum_len (varint_len v ∷ rs) ≡ ok (length (varint v ++ ys))
number v rs ys h q = part (varint_len v) rs (varint v) ys (varint_len-length v h) q

last_number : (v : ℕ) → IsVarint v → sum_len (varint_len v ∷ []) ≡ ok (length (varint v))
last_number v h = last (varint_len v) (varint v) (varint_len-length v h)

-- The frame type takes one byte.
typed :
    (ty : ℕ) (rs : List (Result ℕ)) (ys : List ℕ)
    → ty < 64
    → sum_len rs ≡ ok (length ys)
    → sum_len (ok 1 ∷ rs) ≡ ok (length (varint ty ++ ys))
unfolding varint sum_len
typed ty rs ys h q = ground (arith, q)

last_prefixed :
    (xs : List ℕ)
    → IsVarint (length xs)
    → sum_len (varint_len (length xs) ∷ ok (length xs) ∷ []) ≡ ok (length (prefixed xs))
last_prefixed xs h = number (length xs) _ xs h (last (ok (length xs)) xs refl)

ack_blocks_len-length :
    (s : ℕ) (it : List Range)
    → s ≤ 2 ^ 62
    → Descends s it
    → ack_blocks_len s it ≡ ok (length (wire_blocks s it))
unfolding ack_blocks_len
ack_blocks_len-length s [] h d = refl
ack_blocks_len-length s ((a, b) ∷ it) h d =
    let e1 : sub64 (sub64 s b) 1 ≡ s - b - 1 = omega arith in
    let e2 : sub64 (sub64 b 1) a ≡ b - 1 - a = omega arith in
    rw (e1, e2)
      (number (s - b - 1) _ _ (omega arith) (
        number (b - 1 - a) _ _ (omega arith)
          (last _ (wire_blocks a it) (ack_blocks_len-length a it (omega arith) d.2))))

ack_len-length :
    (time delay : ℕ) (it : List Range)
    → IsVarint time
    → IsVarint delay
    → IsVarint (length it)
    → IsDescending it
    → ack_len time delay it ≡ ok (length (varint 0x02 ++ wire_ack time delay it))
unfolding ack_len
ack_len-length time delay [] ht hd hl d = absurd d
ack_len-length time delay ((a, b) ∷ it) ht hd hl d =
    let e1 : sub64 b 1 ≡ b - 1 = omega arith in
    let e2 : sub64 (b - 1) a ≡ b - 1 - a = omega arith in
    rw (e1, e2)
      (typed 0x02 _ _ (omega arith) (
        number (b - 1) _ _ (omega arith) (
          number time _ _ ht (
            number delay _ _ hd (
              number (length it) _ _ (omega arith) (
                number (b - 1 - a) _ _ (omega arith)
                  (last _ (wire_blocks a it) (ack_blocks_len-length a it (omega arith) d.2))))))))

wire_len-length : (f : Frame) → IsEncodable f → wire_len f ≡ ok (length (wire f))
unfolding wire_len wire
wire_len-length (Frame.padding len) h = rw (length-replicate {A = ℕ} len 0) refl
wire_len-length Frame.ping h = unfold varint in refl
wire_len-length (Frame.ack time delay m) h =
    ack_len-length time delay (reverse m) h.0 h.1 (omega (arith, length-reverse m))
      (reverse-IsDescending m h.3 h.4 h.5)
wire_len-length (Frame.block_info id size priority deadline start) h =
    typed 0x20 _ _ (omega arith) (
      number id _ _ h.0 (
        number size _ _ h.1
          (number priority _ _ h.2 (number deadline _ _ h.3 (last_number start h.4)))))
wire_len-length (Frame.reset_stream id error size) h =
    typed 0x04 _ _ (omega arith)
      (number id _ _ h.0 (part (ok 2) _ (to_be 2 error) _ refl (last_number size h.2)))
wire_len-length (Frame.stop_sending id error) h =
    typed 0x05 _ _ (omega arith) (number id _ _ h.0 (last_number error h.1))
wire_len-length (Frame.crypto buf) h =
    typed 0x06 _ _ (omega arith)
      (number buf.off _ _ (omega arith) (last_prefixed buf.bytes (omega arith)))
wire_len-length (Frame.new_token token) h = typed 0x07 _ _ (omega arith) (last_prefixed token h)
wire_len-length (Frame.stream id buf) h =
    typed (if buf.fin then 0x0f else 0x0e) _ _ (ground arith)
      (number id _ _ h.0 (number buf.off _ _ (omega arith) (last_prefixed buf.bytes (omega arith))))
wire_len-length (Frame.max_data max) h = typed 0x10 _ _ (omega arith) (last_number max h)
wire_len-length (Frame.max_stream_data id max) h =
    typed 0x11 _ _ (omega arith) (number id _ _ h.0 (last_number max h.1))
wire_len-length (Frame.max_streams_bidi max) h = typed 0x12 _ _ (omega arith) (last_number max h)
wire_len-length (Frame.max_streams_uni max) h = typed 0x13 _ _ (omega arith) (last_number max h)
wire_len-length (Frame.data_blocked limit) h = typed 0x14 _ _ (omega arith) (last_number limit h)
wire_len-length (Frame.stream_data_blocked id limit) h =
    typed 0x15 _ _ (omega arith) (number id _ _ h.0 (last_number limit h.1))
wire_len-length (Frame.streams_blocked_bidi limit) h =
    typed 0x16 _ _ (omega arith) (last_number limit h)
wire_len-length (Frame.streams_blocked_uni limit) h =
    typed 0x17 _ _ (omega arith) (last_number limit h)
wire_len-length (Frame.new_connection_id seq retire conn_id token) h =
    typed 0x18 _ _ (omega arith) (
      number seq _ _ h.0 (
        number retire _ _ h.1 (
          part (ok 1) _ (to_be 1 (length conn_id)) _ refl (
            part (ok (length conn_id)) _ conn_id token refl
              (last (ok (length token)) token refl)))))
wire_len-length (Frame.retire_connection_id seq) h =
    typed 0x19 _ _ (omega arith) (last_number seq h)
wire_len-length (Frame.path_challenge bytes) h =
    typed 0x1a _ bytes (omega arith) (last (ok 8) bytes (rw h refl))
wire_len-length (Frame.path_response bytes) h =
    typed 0x1b _ bytes (omega arith) (last (ok 8) bytes (rw h refl))
wire_len-length (Frame.connection_close error ty reason) h =
    typed 0x1c _ _ (omega arith)
      (number error _ _ h.0 (number ty _ _ h.1 (last_prefixed reason h.2)))
wire_len-length (Frame.application_close error reason) h =
    typed 0x1d _ _ (omega arith) (number error _ _ h.0 (last_prefixed reason h.1))
wire_len-length Frame.handshake_done h = unfold varint in refl
wire_len-length (Frame.fec info bytes) h = absurd h

-- `wire_len` is exact on a frame whose fields fit the wire form: it returns a number, and where that many bytes are left `to_bytes`
-- succeeds, returns it and moves the offset by it, and where fewer are left it answers
-- `BufferTooShort`.
pub to_bytes-wire_len :
    (f : Frame) (b : Octets)
    → IsEncodable f
    → b.off ≤ length b.buf
    → (n : ℕ) × (wire_len f ≡ ok n)
      × (((n ≤ cap b)
            × (b' : Octets) × (to_bytes f b ≡ ok (n, b'))
            × (b'.off ≡ b.off + n)
            × (length b'.buf ≡ length b.buf))
          ⊎ ((cap b < n) × (to_bytes f b ≡ err Error.buffer_too_short)))
to_bytes-wire_len f b h i = (
  length (wire f),
  wire_len-length f h,
  elim (dec_le (length (wire f)) (cap b)) [
    | yes room ↦ inl (
      room,
      written (wire f) b,
      to_bytes_fits f b h (omega arith),
      refl,
      length-overwrite b.buf b.off (wire f) (omega arith),
    )
    | no full ↦ inr (omega arith, to_bytes_short f b h i (omega arith))
  ],
)
