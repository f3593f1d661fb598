-- ===== src/Stream/RecvBuf.antt =====
-- src/stream.rs, `RecvBuf`: the data that a stream has received and the application has not read.
pub mod Push
pub mod Pop
pub mod Control
mod Tests
use dtp.Base.{
  ℕ, zero, suc, ◌+◌, ◌-◌, ◌/◌, ◌%◌, ◌^◌, max, Bool, true, false, ◌&&◌, not, Option, none, some,
  List, [], ◌∷◌, ◌++◌, ltb, leb, ◌==◌, if◌then◌else◌, length, Result, ok, err, panic, Error,
}
use dtp.Base.Words.{sub64, saturating_add64, leb_i64}
use dtp.Stream.RangeBuf.{RangeBuf, len, max_off, is_empty, split_off}
use dtp.Stream.Heap.{heap_push}

-- The field `data` is `chunks` here. `bct` is the two's complement pattern of an i64.
pub record RecvBuf : Type 0 where
  pub chunks : List RangeBuf
  pub off : ℕ
  pub len : ℕ
  pub max_data : ℕ
  pub max_data_next : ℕ
  pub fin_off : Option ℕ
  pub drain : Bool
  pub block_size : ℕ
  pub bct : ℕ
  pub good_recv : ℕ
  pub block_priority : ℕ
  pub block_deadline : ℕ
  pub start_time : ℕ

-- `RecvBuf::new`
unfoldable pub recv_buf : ℕ → RecvBuf
recv_buf max_data = record {
  chunks = [];
  off = 0;
  len = 0;
  max_data = max_data;
  max_data_next = max_data;
  fin_off = none;
  drain = false;
  block_size = 0;
  bct = 0;
  good_recv = 0;
  block_priority = 0;
  block_deadline = 0;
  start_time = 0;
}

abbrev pub is_some : Option ℕ → Bool
is_some none = false
is_some (some x) = true

-- Data beyond a known final size, or a final size other than it.
unfoldable pub breaks_final_size : Option ℕ → RangeBuf → Bool
breaks_final_size none buf = false
breaks_final_size (some fin_off) buf =
    if ltb fin_off (max_off buf) then true else buf.fin && not (fin_off == max_off buf)

-- The final size that a chunk with the `fin` flag gives.
unfoldable pub set_fin : RangeBuf → RecvBuf → RecvBuf
set_fin buf s = if buf.fin then record s { fin_off = some (max_off buf) } else s

-- What `push` does before its loop: an error, or the state so far and whether to go on.
unfoldable pub admit : RangeBuf → RecvBuf → Result (RecvBuf × Bool)
unfolding breaks_final_size set_fin
admit buf s =
    let s' = set_fin buf s in
    if ltb s.max_data (max_off buf)
    then err Error.flow_control
    else if breaks_final_size s.fin_off buf
    then err Error.final_size
    else if buf.fin && ltb (max_off buf) s.len
    then err Error.final_size
    else if is_some s.fin_off && is_empty buf
    then ok (s, false)
    else if buf.fin && is_empty buf && is_some s.fin_off
    then ok (s, false)
    else if not buf.fin && is_empty buf
    then ok (s', false)
    else if leb (max_off buf) s.off && not (is_empty buf)
    then ok (s', false)
    else if s.drain
    then ok (s', false)
    else ok (s', true)

-- The part of `buf` beyond what the application has read; `split_off` panics past the end.
unfoldable pub skip_read : ℕ → RangeBuf → Result RangeBuf
skip_read off buf =
    if ltb buf.off off
    then if ltb (len buf) (off - buf.off) then panic else ok (split_off (off - buf.off) buf).1
    else ok buf

-- The three tests of the `for` loop, on a stored chunk `b`.
unfoldable pub is_contained : RangeBuf → RangeBuf → Bool
is_contained b buf = leb b.off buf.off && leb (max_off buf) (max_off b)

unfoldable pub cut_start : RangeBuf → RangeBuf → RangeBuf
cut_start b buf =
    if leb b.off buf.off && ltb buf.off (max_off b)
    then (split_off (max_off b - buf.off) buf).1
    else buf

unfoldable pub overlaps_end : RangeBuf → RangeBuf → Bool
overlaps_end b buf = ltb buf.off b.off && ltb b.off (max_off buf)

unfoldable pub cut_end : RangeBuf → RangeBuf → Option RangeBuf → RangeBuf × Option RangeBuf
unfolding overlaps_end
cut_end b buf tmp_buf =
    if overlaps_end b buf
    then ((split_off (b.off - buf.off) buf).0, some (split_off (b.off - buf.off) buf).1)
    else (buf, tmp_buf)

-- The `for` loop: what is left of `buf` and the last tail split off, or none where `push` returns
-- since a chunk contains what is left.
unfoldable pub cut_by :
    List RangeBuf → RangeBuf → Option RangeBuf → Option (RangeBuf × Option RangeBuf)
unfolding is_contained cut_start cut_end
cut_by [] buf tmp_buf = some (buf, tmp_buf)
cut_by (b ∷ bs) buf tmp_buf =
    let kept = cut_end b (cut_start b buf) tmp_buf in
    let rest = cut_by bs kept.0 kept.1 in if is_contained b buf then none else rest

-- The end of a round: the statistics and the insertion. `good` decides whether the block still
-- counts as received in time.
unfoldable pub store : ℕ → (ℕ → RecvBuf → Bool) → RangeBuf → RecvBuf → RecvBuf
unfolding heap_push
store now good buf s =
    let bct = sub64 (now % 2 ^ 64) (s.start_time % 2 ^ 64) in
    let total = max s.len (max_off buf) in
    record s {
      bct = bct;
      len = total;
      good_recv = if good bct s then total else s.good_recv;
      chunks = heap_push buf s.chunks;
    }

-- `iter` is the order in which the heap lists its chunks, which std leaves open, and `clock` the
-- time at each round.
module _ (iter : List RangeBuf → List RangeBuf) (clock : ℕ → ℕ) (good : ℕ → RecvBuf → Bool) where
  -- The `while let` loop, on fuel. Each round goes on with a shorter buffer.
  unfoldable pub push_loop : ℕ → RangeBuf → RecvBuf → Result RecvBuf
  unfolding skip_read cut_by store
  push_loop zero buf s = panic
  push_loop (suc fuel) buf s = elim (skip_read s.off buf) [
    | ok b ↦ elim (cut_by (iter s.chunks) b none) [
      | none ↦ ok s
      | some (kept, tmp_buf) ↦ elim tmp_buf [
        | none ↦ ok (store (clock fuel) good kept s)
        | some tail ↦ push_loop fuel tail (store (clock fuel) good kept s)
      ]
    ]
    | err e ↦ err e
    | panic ↦ panic
  ]

  unfoldable pub push_with : RangeBuf → RecvBuf → Result RecvBuf
  unfolding admit push_loop
  push_with buf s = elim (admit buf s) [
    | ok (s', more) ↦ elim more [ true ↦ push_loop (suc (len buf)) buf s' | false ↦ ok s' ]
    | err e ↦ err e
    | panic ↦ panic
  ]

-- `RecvBuf::push` and `RecvBuf::push_evaluation`, which differ in the deadline and a log line.
unfoldable pub push :
    (List RangeBuf → List RangeBuf) → (ℕ → ℕ) → RangeBuf → RecvBuf → Result RecvBuf
unfolding push_with
push iter clock = push_with iter clock (λ bct s. leb_i64 bct (s.block_deadline % 2 ^ 64))

unfoldable pub push_evaluation :
    (List RangeBuf → List RangeBuf) → (ℕ → ℕ) → RangeBuf → RecvBuf → Result RecvBuf
unfolding push_with
push_evaluation iter clock = push_with iter clock (λ bct s. leb_i64 bct 200)

unfoldable pub ready : RecvBuf → Bool
ready s = elim s.chunks [ [] ↦ false | b ∷ h ↦ b.off == s.off ]

unfoldable pub is_fin : RecvBuf → Bool
is_fin s = elim s.fin_off [ none ↦ false | some f ↦ f == s.off ]

unfoldable pub all_received : RecvBuf → Bool
all_received s = elim s.fin_off [ none ↦ false | some f ↦ f == s.len ]

-- A chunk that is longer than the room left: what is copied, and the heap with the rest.
unfoldable pub split_front : ℕ → RangeBuf → List RangeBuf → RangeBuf × List RangeBuf
unfolding heap_push
split_front cap buf h =
    if ltb cap (len buf)
    then ((split_off cap buf).0, heap_push (split_off cap buf).1 h)
    else (buf, h)

-- The `while` loop of `pop`, on fuel, with the bytes copied so far in `out`. A round takes a chunk
-- off the heap, and where it puts the rest back no room is left.
unfoldable pub pop_loop : ℕ → ℕ → List ℕ → RecvBuf → Result (List ℕ × RecvBuf)
unfolding split_front
pop_loop zero cap out s = panic
pop_loop (suc fuel) cap out s = elim s.chunks [
  | [] ↦ ok (out, s)
  | b ∷ h ↦
      let taken = split_front cap b h in
      let n = len taken.0 in
      let rest =
        pop_loop fuel (cap - n) (out ++ taken.0.bytes)
          (record s { chunks = taken.1; off = s.off + n }) in
      if ltb 0 cap && b.off == s.off then rest else ok (out, s)
]

-- `RecvBuf::pop` into a buffer of `cap` bytes: the bytes, whether the stream is at its end, and the
-- state.
unfoldable pub pop : ℕ → RecvBuf → Result (List ℕ × Bool × RecvBuf)
unfolding ready pop_loop is_fin
pop cap s =
    if not (ready s)
    then err Error.done
    else elim (pop_loop (suc (suc (length s.chunks))) cap [] s) [
      | ok (out, s') ↦
          let t = record s' { max_data_next = saturating_add64 s'.max_data_next (length out) } in
          ok (out, is_fin t, t)
      | err e ↦ err e
      | panic ↦ panic
    ]

unfoldable pub is_other : Option ℕ → ℕ → Bool
is_other none size = false
is_other (some fin_off) size = not (fin_off == size)

-- `RecvBuf::reset`: the bytes to take off the flow control of the connection.
unfoldable pub reset : ℕ → RecvBuf → Result (ℕ × RecvBuf)
unfolding is_other
reset final_size s =
    if is_other s.fin_off final_size
    then err Error.final_size
    else if ltb final_size s.len
    then err Error.final_size
    else ok (final_size - s.len, record s { fin_off = some final_size })

unfoldable pub update_max_data : RecvBuf → ℕ × RecvBuf
update_max_data s = (s.max_data_next, record s { max_data = s.max_data_next })

unfoldable pub shutdown : RecvBuf → Result RecvBuf
shutdown s = if s.drain then err Error.done else ok (record s { drain = true; chunks = [] })

unfoldable pub almost_full : RecvBuf → Bool
almost_full s =
    not (is_some s.fin_off)
    && not (s.max_data_next == s.max_data)
    && ltb (sub64 s.max_data s.len) (s.max_data_next / 2)

unfoldable pub set_block_info : ℕ → ℕ → ℕ → ℕ → RecvBuf → RecvBuf
set_block_info block_size block_priority block_deadline start_time s = record s {
  block_size = block_size;
  block_priority = block_priority;
  block_deadline = block_deadline;
  start_time = start_time;
}

abbrev pub get_block_info : RecvBuf → ℕ × ℕ × ℕ
get_block_info s = (s.block_size, s.block_priority, s.block_deadline)
