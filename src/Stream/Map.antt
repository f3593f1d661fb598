-- ===== src/Stream/Map.antt =====
-- src/stream.rs, `StreamMap`: the streams of a connection, their limits and their queues.
pub mod Limits
pub mod Keeps
pub mod Steps
pub mod Flush
mod Tests
use dtp.Base.{
  ℕ, zero, suc, ◌+◌, ◌-◌, ◌/◌, max, Bool, true, false, ◌&&◌, not, Option, none, some, List, [], ◌∷◌,
  ◌++◌, ◌==◌, leb, ltb, if◌then◌else◌, length, Result, ok, err, panic, Error, drop, set,
}
use dtp.Base.Words.{sub64, saturating_add64}
use dtp.Base.Maps.{lookup, update, erase, has, include, exclude}
use dtp.Scheduler.{Block, Scheduler}
use dtp.Stream.SendBuf.{SendBuf, shutdown, block_size}
use dtp.Stream.Streams.{Stream, stream_full, is_writable, is_local, is_bidi}

-- The fields of the transport parameters (src/lib.rs) that give a stream its limits.
pub record TransportParams : Type 0 where
  pub initial_max_stream_data_bidi_local : ℕ
  pub initial_max_stream_data_bidi_remote : ℕ
  pub initial_max_stream_data_uni : ℕ

-- `S` is the state of the scheduler. (`priority_weight` and `min_priority` are set and never read.)
pub record StreamMap (S : Type 0) : Type 0 where
  pub streams : List (ℕ × Stream)
  pub collected : List ℕ
  pub peer_max_streams_bidi : ℕ
  pub peer_max_streams_uni : ℕ
  pub peer_opened_streams_bidi : ℕ
  pub peer_opened_streams_uni : ℕ
  pub local_max_streams_bidi : ℕ
  pub local_max_streams_bidi_next : ℕ
  pub local_max_streams_uni : ℕ
  pub local_max_streams_uni_next : ℕ
  pub local_opened_streams_bidi : ℕ
  pub local_opened_streams_uni : ℕ
  pub flushable : List ℕ
  pub readable : List ℕ
  pub writable : List ℕ
  pub canceled : List ℕ
  pub canceled_depend : List ℕ
  pub almost_full : List ℕ
  pub scheduler : S

abbrev pub stream_map : {S : Type 0} → S → ℕ → ℕ → StreamMap S
stream_map sched max_streams_bidi max_streams_uni = record {
  streams = [];
  collected = [];
  peer_max_streams_bidi = 0;
  peer_max_streams_uni = 0;
  peer_opened_streams_bidi = 0;
  peer_opened_streams_uni = 0;
  local_max_streams_bidi = max_streams_bidi;
  local_max_streams_bidi_next = max_streams_bidi;
  local_max_streams_uni = max_streams_uni;
  local_max_streams_uni_next = max_streams_uni;
  local_opened_streams_bidi = 0;
  local_opened_streams_uni = 0;
  flushable = [];
  readable = [];
  writable = [];
  canceled = [];
  canceled_depend = [];
  almost_full = [];
  scheduler = sched;
}

-- A flag that adds a number to a set or takes it out, as the `mark_` operations do.
unfoldable pub mark : ℕ → Bool → List ℕ → List ℕ
unfolding include exclude
mark id on ids = if on then include id ids else exclude id ids

-- Equality of Booleans.
abbrev pub same : Bool → Bool → Bool
same a b = if a then b else not b

-- The limits for data received and sent by a new stream.
unfoldable pub data_limits : ℕ → Bool → TransportParams → TransportParams → ℕ × ℕ
unfolding is_bidi
data_limits id local local_params peer_params =
    if local
    then (if is_bidi id
        then (
          local_params.initial_max_stream_data_bidi_local,
          peer_params.initial_max_stream_data_bidi_remote,
        )
        else (0, peer_params.initial_max_stream_data_uni))
    else (if is_bidi id
        then (
          local_params.initial_max_stream_data_bidi_remote,
          peer_params.initial_max_stream_data_bidi_local,
        )
        else (local_params.initial_max_stream_data_uni, 0))

module _ {S : Type 0} where
  -- The stream count limits of `get_or_create`.
  unfoldable pub open_stream : ℕ → Bool → StreamMap S → Result (StreamMap S)
  unfolding is_local is_bidi
  open_stream id is_server m =
      if is_local id is_server
      then (if is_bidi id
          then (if leb m.peer_max_streams_bidi m.local_opened_streams_bidi
              then err Error.stream_limit
              else ok (record m { local_opened_streams_bidi = m.local_opened_streams_bidi + 1 }))
          else (if leb m.peer_max_streams_uni m.local_opened_streams_uni
              then err Error.stream_limit
              else ok (record m { local_opened_streams_uni = m.local_opened_streams_uni + 1 })))
      else (if is_bidi id
          then (if leb m.local_max_streams_bidi m.peer_opened_streams_bidi
              then err Error.stream_limit
              else ok (record m { peer_opened_streams_bidi = m.peer_opened_streams_bidi + 1 }))
          else (if leb m.local_max_streams_uni m.peer_opened_streams_uni
              then err Error.stream_limit
              else ok (record m { peer_opened_streams_uni = m.peer_opened_streams_uni + 1 })))

  -- The end of `get_or_create`, with the stream `s` of the map.
  unfoldable pub use_stream : ℕ → Stream → StreamMap S → Stream × StreamMap S
  unfolding include is_writable
  use_stream id s m =
      (s, if is_writable s then record m { writable = include id m.writable } else m)

  unfoldable pub add_stream : ℕ → Stream → StreamMap S → StreamMap S
  unfolding update
  add_stream id s m = record m { streams = update id s m.streams }

  -- The vacant entry of `get_or_create`, once the stream is counted.
  unfoldable pub create :
      ℕ
      → ℕ
      → TransportParams
      → TransportParams
      → Bool
      → ℕ
      → ℕ
      → Result (StreamMap S)
      → Result (Stream × StreamMap S)
  unfolding data_limits use_stream add_stream stream_full is_bidi
  create now id local_params peer_params local deadline priority (ok m) =
      let limits = data_limits id local local_params peer_params in
      let s = stream_full now limits.0 limits.1 (is_bidi id) local deadline priority in
      ok (use_stream id s (add_stream id s m))
  create now id local_params peer_params local deadline priority (err e) = err e
  create now id local_params peer_params local deadline priority panic = panic

  -- `get_or_create`, at the time `now`. After an error the map is unchanged.
  unfoldable pub get_or_create :
      ℕ
      → ℕ
      → TransportParams
      → TransportParams
      → Bool
      → Bool
      → ℕ
      → ℕ
      → StreamMap S
      → Result (Stream × StreamMap S)
  unfolding lookup has open_stream use_stream create is_local
  get_or_create now id local_params peer_params local is_server deadline priority m =
      elim (lookup id m.streams) [
        | some s ↦ ok (use_stream id s m)
        | none ↦
            if not (same local (is_local id is_server))
            then err Error.invalid_stream_state
            else if has id m.collected
            then err Error.done
            else create now id local_params peer_params local deadline priority
                (open_stream id is_server m)
      ]

  abbrev pub push_flushable : ℕ → StreamMap S → StreamMap S
  push_flushable id m = record m { flushable = m.flushable ++ (id ∷ []) }

  unfoldable pub pop_flushable : StreamMap S → Option ℕ × StreamMap S
  pop_flushable m = elim m.flushable [
    | [] ↦ (none, m)
    | id ∷ ids ↦ (some id, record m { flushable = ids })
  ]

  -- `get_block` panics without the stream or its start time.
  unfoldable pub get_block : ℕ → StreamMap S → Result Block
  unfolding lookup block_size
  get_block id m = elim (lookup id m.streams) [
    | none ↦ panic
    | some s ↦ elim s.send.start_time [
      | none ↦ panic
      | some t ↦ ok (record {
        block_id = id;
        block_deadline = s.send.deadline;
        block_priority = s.send.priority;
        block_create_time = t;
        block_size = block_size s.send;
        remaining_size = s.send.len;
      })
    ]
  ]

  unfoldable pub cancel_block : ℕ → StreamMap S → Result (Unit {0}) × StreamMap S
  unfolding lookup update include exclude shutdown
  cancel_block id m =
      let marked = record m {
        canceled = include id m.canceled;
        canceled_depend = include id m.canceled_depend;
      } in
      elim (lookup id m.streams) [
        | none ↦ (panic, m)
        | some s ↦ elim (shutdown s.send) [
          | ok send ↦ (
            ok tt,
            record marked {
              streams = update id (record s { send = send }) m.streams;
              writable = exclude id m.writable;
            },
          )
          | err e ↦ (err e, marked)
          | panic ↦ (panic, marked)
        ]
      ]

  abbrev pub mark_readable : ℕ → Bool → StreamMap S → StreamMap S
  mark_readable id on m = record m { readable = mark id on m.readable }

  abbrev pub mark_writable : ℕ → Bool → StreamMap S → StreamMap S
  mark_writable id on m = record m { writable = mark id on m.writable }

  abbrev pub mark_canceled : ℕ → Bool → StreamMap S → StreamMap S
  mark_canceled id on m = record m { canceled = mark id on m.canceled }

  abbrev pub mark_almost_full : ℕ → Bool → StreamMap S → StreamMap S
  mark_almost_full id on m = record m { almost_full = mark id on m.almost_full }

  abbrev pub update_peer_max_streams_bidi : ℕ → StreamMap S → StreamMap S
  update_peer_max_streams_bidi v m = record m {
    peer_max_streams_bidi = max m.peer_max_streams_bidi v;
  }

  abbrev pub update_peer_max_streams_uni : ℕ → StreamMap S → StreamMap S
  update_peer_max_streams_uni v m = record m { peer_max_streams_uni = max m.peer_max_streams_uni v }

  abbrev pub update_max_streams_bidi : StreamMap S → ℕ × StreamMap S
  update_max_streams_bidi m = (
    m.local_max_streams_bidi_next,
    record m { local_max_streams_bidi = m.local_max_streams_bidi_next },
  )

  abbrev pub update_max_streams_uni : StreamMap S → ℕ × StreamMap S
  update_max_streams_uni m = (
    m.local_max_streams_uni_next,
    record m { local_max_streams_uni = m.local_max_streams_uni_next },
  )

  -- A stream of the peer that is dropped gives back a credit.
  unfoldable pub give_credit : ℕ → StreamMap S → StreamMap S
  unfolding is_bidi
  give_credit id m =
      if is_bidi id
      then record m {
        local_max_streams_bidi_next = saturating_add64 m.local_max_streams_bidi_next 1;
      }
      else record m { local_max_streams_uni_next = saturating_add64 m.local_max_streams_uni_next 1 }

  unfoldable pub collect : ℕ → Bool → StreamMap S → StreamMap S
  unfolding give_credit erase include
  collect id local m =
      let m' = if local then m else give_credit id m in
      record m' { streams = erase id m.streams; collected = include id m.collected }

  unfoldable pub should_update_max_streams_bidi : StreamMap S → Bool
  should_update_max_streams_bidi m =
      not (m.local_max_streams_bidi_next == m.local_max_streams_bidi)
      && ltb (sub64 m.local_max_streams_bidi m.peer_opened_streams_bidi)
          (m.local_max_streams_bidi_next / 2)

  unfoldable pub should_update_max_streams_uni : StreamMap S → Bool
  should_update_max_streams_uni m =
      not (m.local_max_streams_uni_next == m.local_max_streams_uni)
      && ltb (sub64 m.local_max_streams_uni m.peer_opened_streams_uni)
          (m.local_max_streams_uni_next / 2)

  -- The blocks of the numbers, in order.
  unfoldable pub get_blocks : List ℕ → StreamMap S → Result (List Block)
  unfolding get_block
  get_blocks [] m = ok []
  get_blocks (id ∷ ids) m = elim (get_block id m) [
    | ok b ↦ elim (get_blocks ids m) [ ok bs ↦ ok (b ∷ bs) | err e ↦ err e | panic ↦ panic ]
    | err e ↦ err e
    | panic ↦ panic
  ]
