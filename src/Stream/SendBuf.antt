-- ===== src/Stream/SendBuf.antt =====
-- src/stream.rs, `SendBuf`: the data that the application has written and the peer has not got.
pub mod Queue
pub mod Write
pub mod Send
pub mod Pop
mod Tests
use dtp.Base.{
  ℕ, zero, suc, ◌+◌, ◌-◌, max, min, Bool, true, false, ◌&&◌, ◌||◌, not, Option, none, some, List,
  [], ◌∷◌, ◌++◌, ltb, leb, ◌==◌, if◌then◌else◌, length, take, drop, Result, ok, err, panic, Error,
}
use dtp.Base.Words.{sub64}
use dtp.Ranges.{RangeSet, insert, equals_range}
use dtp.Stream.RangeBuf.{RangeBuf, range_buf, len, max_off, is_empty, split_off}
use dtp.Stream.Heap.{heap_push}

abbrev pub max_write_size : ℕ
max_write_size = 1000

abbrev pub max_deadline : ℕ
max_deadline = 9999999

abbrev pub default_priority : ℕ
default_priority = 9999999

-- The fields `data` and `new` are `chunks` and `is_new` here, and the times are in milliseconds.
pub record SendBuf : Type 0 where
  pub chunks : List RangeBuf
  pub off : ℕ
  pub len : ℕ
  pub max_data : ℕ
  pub fin_off : Option ℕ
  pub shut : Bool
  pub deadline : ℕ
  pub priority : ℕ
  pub start_time : Option ℕ
  pub start_instant : Option ℕ
  pub acked : RangeSet
  pub is_new : Bool

-- `SendBuf::new_full` at the time `now`, and `SendBuf::new`.
unfoldable pub new_full : ℕ → ℕ → ℕ → ℕ → SendBuf
new_full now max_data deadline priority = record {
  chunks = [];
  off = 0;
  len = 0;
  max_data = max_data;
  fin_off = none;
  shut = false;
  deadline = deadline;
  priority = priority;
  start_time = some now;
  start_instant = some now;
  acked = [];
  is_new = true;
}

unfoldable pub send_buf : ℕ → ℕ → SendBuf
unfolding new_full
send_buf now max_data = new_full now max_data max_deadline default_priority

unfoldable pub start_time : SendBuf → Result ℕ
start_time s = elim s.start_time [ none ↦ panic | some t ↦ ok t ]

unfoldable pub block_size : SendBuf → ℕ
block_size s = elim s.fin_off [ none ↦ s.off | some v ↦ v ]

abbrev pub un_new : SendBuf → SendBuf
un_new s = record s { is_new = false }

abbrev pub info_frame_lost : SendBuf → SendBuf
info_frame_lost s = record s { is_new = true }

-- `SendBuf::off` and `SendBuf::ready`
unfoldable pub front_off : SendBuf → ℕ
front_off s = elim s.chunks [ [] ↦ s.off | b ∷ h ↦ b.off ]

unfoldable pub ready : SendBuf → Bool
ready s = elim s.chunks [ [] ↦ false | b ∷ h ↦ true ]

unfoldable pub ack_off : RangeSet → ℕ
ack_off [] = 0
ack_off (r ∷ m) = if r.0 == 0 then r.1 else 0

-- Data beyond a known final offset, or data up to it that takes it back.
unfoldable pub breaks_final_size : Option ℕ → RangeBuf → Bool
breaks_final_size none buf = false
breaks_final_size (some fin_off) buf =
    if ltb fin_off (max_off buf) then true else max_off buf == fin_off && not buf.fin

unfoldable pub push : RangeBuf → SendBuf → Result (Unit {0}) × SendBuf
unfolding breaks_final_size ack_off heap_push
push buf s =
    let s1 = if buf.fin then record s { fin_off = some (max_off buf) } else s in
    let s2 = record s1 { len = s.len + len buf } in
    if breaks_final_size s.fin_off buf
    then (err Error.final_size, s)
    else if s.shut
    then (ok tt, s)
    else if leb (max_off buf) (ack_off s.acked)
    then (ok tt, s1)
    else if is_empty buf
    then (ok tt, s2)
    else (ok tt, record s2 { chunks = heap_push buf s.chunks })

abbrev pub cap : SendBuf → ℕ
cap s = sub64 s.max_data s.off

-- The rounds of the `for` loop of `push_slice` after a chunk of `n` bytes was pushed, `sent` bytes
-- with it; the first error ends them.
unfoldable pub push_rest :
    (ℕ → SendBuf → Result (Unit {0}) × SendBuf)
    → ℕ
    → ℕ
    → Result (Unit {0}) × SendBuf
    → Result (Unit {0}) × SendBuf
push_rest again sent n (ok _, s) = again sent (record s { off = s.off + n })
push_rest again sent n (err e, s) = (err e, s)
push_rest again sent n (panic, s) = (panic, s)

unfoldable pub push_round :
    (ℕ → SendBuf → Result (Unit {0}) × SendBuf)
    → List ℕ
    → ℕ
    → ℕ
    → Bool
    → SendBuf
    → Result (Unit {0}) × SendBuf
unfolding push push_rest
push_round again chunk sent total fin s =
    let sent' = sent + length chunk in
    push_rest again sent' (length chunk) (push (range_buf chunk s.off (sent' == total && fin)) s)

-- The loop, on fuel, over the data that is left. Each round takes a byte at least.
unfoldable pub push_chunks : ℕ → List ℕ → ℕ → ℕ → Bool → SendBuf → Result (Unit {0}) × SendBuf
unfolding push_round
push_chunks fuel [] sent total fin s = (ok tt, s)
push_chunks zero (x ∷ xs) sent total fin s = (panic, s)
push_chunks (suc fuel) (x ∷ xs) sent total fin s =
    push_round (λ sent' s'. push_chunks fuel (drop max_write_size (x ∷ xs)) sent' total fin s')
      (take max_write_size (x ∷ xs)) sent total fin s

abbrev pub returns : ℕ → Result (Unit {0}) → Result ℕ
returns n (ok _) = ok n
returns n (err e) = err e
returns n panic = panic

unfoldable pub push_all : List ℕ → Bool → SendBuf → Result ℕ × SendBuf
unfolding push_chunks
push_all data' fin s =
    let pushed = push_chunks (length data') data' 0 (length data') fin s in
    (returns (length data') pushed.0, pushed.1)

-- `SendBuf::push_slice`
unfoldable pub push_slice : List ℕ → Bool → SendBuf → Result ℕ × SendBuf
unfolding push push_all
push_slice data' fin s =
    let dummy = push (range_buf [] s.off fin) s in
    if s.shut
    then (ok (length data'), s)
    else if length data' == 0
    then (returns 0 dummy.0, dummy.1)
    else if ltb (cap s) (length data')
    then push_all (take (cap s) data') false s
    else push_all data' fin s

-- A chunk that does not fit in the room left or in the limit: its front, and the heap with the rest.
unfoldable pub split_front : ℕ → ℕ → RangeBuf → List RangeBuf → RangeBuf × List RangeBuf
unfolding heap_push
split_front out_len limit buf h =
    let new_len = min out_len (sub64 limit buf.off) in
    if ltb out_len (len buf) || ltb limit (max_off buf)
    then ((split_off new_len buf).0, heap_push (split_off new_len buf).1 h)
    else (buf, h)

-- The `while` loop of `pop`, on fuel. A round takes a chunk off the heap, and where it puts the rest
-- back there is no room left or the limit is reached.
unfoldable pub pop_loop : ℕ → ℕ → ℕ → RangeBuf → SendBuf → Result (RangeBuf × SendBuf)
unfolding split_front
pop_loop zero out_len out_off out s = panic
pop_loop (suc fuel) out_len out_off out s = elim s.chunks [
  | [] ↦ ok (out, s)
  | b ∷ h ↦
      let taken = split_front out_len s.max_data b h in
      let out' = record out {
        bytes = out.bytes ++ taken.0.bytes;
        off = if is_empty out then b.off else out.off;
      } in
      let rest =
        pop_loop fuel (out_len - len taken.0) (max_off taken.0) out'
          (record s { chunks = taken.1; len = sub64 s.len (len taken.0) }) in
      if ltb 0 out_len && (b.off == out_off && ltb b.off s.max_data) then rest else ok (out, s)
]

unfoldable pub ends_at : Option ℕ → ℕ → Bool
ends_at none off = false
ends_at (some fin_off) off = fin_off == off

-- `SendBuf::pop`, of at most `max_data` bytes.
unfoldable pub pop : ℕ → SendBuf → Result (RangeBuf × SendBuf)
unfolding pop_loop front_off ends_at
pop max_data s =
    elim (pop_loop (suc (suc (length s.chunks))) max_data (front_off s) (range_buf [] s.off false)
      s) [
        | ok (out, s') ↦ ok (record out { fin = ends_at s'.fin_off (max_off out) }, s')
        | err e ↦ err e
        | panic ↦ panic
      ]

unfoldable pub update_max_data : ℕ → SendBuf → SendBuf
update_max_data max_data s = record s { max_data = max s.max_data max_data }

unfoldable pub ack : ℕ → ℕ → SendBuf → SendBuf
unfolding insert
ack off n s = record s { acked = insert (off, off + n) s.acked }

unfoldable pub shutdown : SendBuf → Result SendBuf
shutdown s = if s.shut then err Error.done else ok (record s { shut = true; chunks = [] })

unfoldable pub is_fin : SendBuf → Bool
unfolding ends_at
is_fin s = ends_at s.fin_off s.off

unfoldable pub is_complete : SendBuf → Bool
unfolding equals_range
is_complete s = elim s.fin_off [ none ↦ false | some fin_off ↦ equals_range s.acked (0, fin_off) ]

abbrev pub get_block_info : SendBuf → ℕ × ℕ
get_block_info s = (s.priority, s.deadline)
