-- ===== src/Stream/Map/Tests.antt =====
-- Runs of the table of streams, and its theorems on them.
use dtp.Base.{
  ℕ, ◌<◌, ◌≡◌, refl, Bool, true, false, some, [], ◌∷◌, ltb, ok, err, Error, if◌then◌else◌, arith,
  All,
}
use dtp.Base.Words.{sub64}
use dtp.Base.Maps.{lookup, update, has, include, count}
use dtp.Scheduler.{Block, Scheduler, do_nothing}
use dtp.Scheduler.Basic.{BasicScheduler, new_basic, select_basic, select_basic-Has}
use dtp.Stream.RecvBuf.{recv_buf}
use dtp.Stream.SendBuf.{new_full, block_size, ack_off}
use dtp.Stream.SendBuf as Send
use dtp.Stream.Streams.{Stream, stream_full, is_local, is_bidi, is_writable}
use dtp.Stream.Map.{
  StreamMap, TransportParams, stream_map, same, data_limits, open_stream, use_stream, add_stream,
  create, get_or_create, get_block, collect,
}
use dtp.Stream.Map.Limits.{IsWithin, Creates, get_or_create-Creates}
use dtp.Stream.Map.Steps.{Reach, start, then_step, created, pushed, Reach-IsWithin, collect-Refused}
use dtp.Stream.Map.Flush.{peek_flushable}
use dtp.Stream.Map.Flush.Drop.{IsReady}
use dtp.Stream.Map.Flush.Late.{Distinct}
use dtp.Stream.Map.Flush.Blocked.{IsStarted, IsBlocked, Fails, peek_flushable-Done}
use dtp.Stream.Map.Flush.Peek.{Serves, peek_flushable-Serves}

abbrev params : TransportParams
params = record {
  initial_max_stream_data_bidi_local = 10;
  initial_max_stream_data_bidi_remote = 20;
  initial_max_stream_data_uni = 30;
}

abbrev empty_map : StreamMap BasicScheduler
empty_map = stream_map new_basic 2 2

-- The peer's first stream, as a server sees it.
abbrev first : Stream
first = stream_full 5 20 10 true false 100 1

abbrev one_open : StreamMap BasicScheduler
one_open = record empty_map {
  streams = (0, first) ∷ [];
  peer_opened_streams_bidi = 1;
  writable = 0 ∷ [];
}

opens : get_or_create 5 0 params params false true 100 1 empty_map ≡ ok (first, one_open)
unfolding get_or_create create open_stream use_stream add_stream data_limits is_local is_bidi
    is_writable lookup update has include stream_full recv_buf new_full Send.is_fin Send.ends_at
opens = refl

one_open-Reach : Reach ℕ empty_map one_open
one_open-Reach = then_step start (created 5 0 params params false true 100 1 first opens)

one_open-IsWithin : IsWithin one_open
one_open-IsWithin =
    Reach-IsWithin ℕ new_basic 2 2 one_open (omega arith) (omega arith) one_open-Reach

Reach-IsWithin_example : IsWithin one_open
Reach-IsWithin_example =
    Reach-IsWithin ℕ new_basic 2 2 one_open (omega arith) (omega arith) one_open-Reach

get_or_create-Creates_example :
    Creates 7 4 params params false true 50 0 one_open
      (get_or_create 7 4 params params false true 50 0 one_open)
get_or_create-Creates_example =
    get_or_create-Creates 7 4 params params false true 50 0 one_open one_open-IsWithin

-- A pushed stream changes nothing for a collected one.
abbrev collected_map : StreamMap BasicScheduler
collected_map = record (collect 0 false one_open) { flushable = 4 ∷ [] }

collect-Refused_example :
    get_or_create 9 0 params params false true 100 1 collected_map
    ≡ err (if same false (is_local 0 true) then Error.done else Error.invalid_stream_state)
unfolding collect
collect-Refused_example =
    collect-Refused ℕ 9 0 params params false false true 100 1 one_open collected_map
      one_open-IsWithin (then_step start (pushed 4 refl))

-- A block is late once its deadline has passed; the basic scheduler chooses.
abbrev late : Block → Bool
late b = ltb b.block_deadline (sub64 50 b.block_create_time)

abbrev deadline_scheduler : Scheduler ℕ BasicScheduler
deadline_scheduler = record {
  select_block = λ bs pacing_rate rtt next_packet_id current_time s. select_basic bs s;
  should_drop_block = λ b pacing_rate rtt next_packet_id current_time s.
      (ltb b.block_deadline (sub64 current_time b.block_create_time), s);
  peek_through_flushable = do_nothing;
}

abbrev started : ℕ → Stream
started deadline =
    let s = stream_full 5 20 10 true false deadline 1 in
    record s { send = record s.send { start_time = some 5; len = 3 } }

abbrev waiting : StreamMap BasicScheduler
waiting = record empty_map {
  streams = (0, started 10) ∷ (4, started 100) ∷ (8, started 20) ∷ [];
  flushable = 0 ∷ 4 ∷ 8 ∷ [];
}

waiting-IsReady : All (IsReady waiting) (0 ∷ 4 ∷ 8 ∷ [])
unfolding lookup stream_full new_full
waiting-IsReady = (
  (started 10, refl, refl, 5, refl),
  ((started 100, refl, refl, 5, refl), ((started 20, refl, refl, 5, refl), tt)),
)

waiting-Distinct : Distinct (0 ∷ 4 ∷ 8 ∷ [])
unfolding count
waiting-Distinct = record { once = λ x. ground arith }

peek_flushable-Serves_example :
    Serves late waiting (peek_flushable deadline_scheduler 0 0 0 50 waiting)
peek_flushable-Serves_example =
    peek_flushable-Serves late deadline_scheduler 0 0 0 50 (λ b s. refl) select_basic-Has waiting
      waiting-IsReady waiting-Distinct

-- The first stream of the queue is late and was shut down, the last one is late.
abbrev shut_stream : Stream
shut_stream = let s = started 10 in record s { send = record s.send { shut = true } }

abbrev blocked : StreamMap BasicScheduler
blocked = record empty_map {
  streams = (0, started 100) ∷ (4, shut_stream) ∷ (8, started 20) ∷ [];
  flushable = 4 ∷ 0 ∷ 8 ∷ [];
}

blocked-IsStarted : All (IsStarted blocked) (4 ∷ 0 ∷ 8 ∷ [])
unfolding lookup stream_full new_full
blocked-IsStarted = (
  (shut_stream, refl, 5, refl),
  ((started 100, refl, 5, refl), ((started 20, refl, 5, refl), tt)),
)

blocked-IsBlocked : IsBlocked late blocked 4
unfolding get_block lookup stream_full new_full block_size ack_off
blocked-IsBlocked = (
  shut_stream,
  refl,
  refl,
  (
    record {
      block_id = 4;
      block_deadline = 10;
      block_priority = 1;
      block_create_time = 5;
      block_size = 0;
      remaining_size = 3;
    },
    refl,
    refl,
  ),
)

blocked_count : 0 < count 4 blocked.flushable
unfolding count
blocked_count = omega arith

peek_flushable-Done_example : Fails late 4 (peek_flushable deadline_scheduler 0 0 0 50 blocked)
peek_flushable-Done_example =
    peek_flushable-Done late deadline_scheduler 0 0 0 50 (λ b s. refl) 4 blocked blocked-IsStarted
      blocked_count blocked-IsBlocked
