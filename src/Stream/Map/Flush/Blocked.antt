-- ===== src/Stream/Map/Flush/Blocked.antt =====
-- A late stream that the application has shut down.
use dtp.Base.{
  ℕ, suc, ◌<◌, ◌≡◌, ◌≢◌, refl, ap, sym, subst, ◌∙◌, Bool, true, false, some, List, [], ◌∷◌, ◌==◌,
  length, arith, All, inl, inr, Bool-cases, Result, ok, err, Error,
}
use dtp.Base.Maps.{lookup, include, count, lookup-update, lookup-update_other}
use mathlib.Core.List.{reverse, reverse_aux, reverse-reverse}
use native.Mathlib.Decide.{ℕ_discrete}
use dtp.Scheduler.{Block, Scheduler}
use dtp.Stream.SendBuf.{shutdown, block_size}
use dtp.Stream.Streams.{Stream}
use dtp.Stream.Map.{StreamMap, get_block, get_blocks, cancel_block}
use dtp.Stream.Map.Flush.{
  get, swap_remove_back, drop_late, drop_or_keep, canceled_at, choose_kept, serve_blocks,
  peek_flushable,
}
use dtp.Stream.Map.Flush.Drop.{closed, canceled_map, cancel_block_lem}
use dtp.Stream.Map.Flush.Late.{
  IsLate, length-reverse, get-reverse_aux, swap_remove_back-reverse_aux, drop_late-late,
  drop_late-timely,
}
use dtp.Stream.Map.Flush.Peek.{count-reverse_aux, count-reverse, All-reverse_aux}

count_other : (id x : ℕ) (xs : List ℕ) → 0 < count id (x ∷ xs) → x ≢ id → 0 < count id xs
unfolding count
count_other id x xs h n = ground (arith, h, n)

count_queue :
    (id : ℕ) (todo rest q : List ℕ) → q ≡ reverse_aux todo rest → 0 < count id todo → 0 < count id q
count_queue id todo rest q e h = rw e (omega (arith, count-reverse_aux id todo rest))

count_length : (id : ℕ) (xs : List ℕ) → 0 < count id xs → (length xs == 0) ≡ false
unfolding count
count_length id [] h = absurd (omega arith)
count_length id (x ∷ xs) h = ground arith

module _ {S : Type 0} where
  -- The stream is there and has a start time, so that there is a block for it.
  abbrev pub IsStarted : StreamMap S → ℕ → Type 0
  IsStarted m id =
      (s : Stream) × (lookup id m.streams ≡ some s) × (t : ℕ) × (s.send.start_time ≡ some t)

  get_block_started :
      (m : StreamMap S) (id : ℕ) → IsStarted m id → (b : Block) × (get_block id m ≡ ok b)
  unfolding get_block
  get_block_started m id (s, e, t, f) = (
    record {
      block_id = id;
      block_deadline = s.send.deadline;
      block_priority = s.send.priority;
      block_create_time = t;
      block_size = block_size s.send;
      remaining_size = s.send.len;
    },
    rw (e, f, get_block) refl,
  )

  get_blocks_started :
      (ids : List ℕ) (m : StreamMap S)
      → All (IsStarted m) ids
      → (bs : List Block) × (get_blocks ids m ≡ ok bs)
  unfolding get_blocks
  get_blocks_started [] m h = ([], refl)
  get_blocks_started (id ∷ ids) m h =
      let (b, e) = get_block_started m id h.0 in
      let (bs, f) = get_blocks_started ids m h.1 in (b ∷ bs, rw (get_blocks, e, f) refl)

  -- A stream that is canceled keeps its start time.
  cancel-IsStarted :
      (m : StreamMap S) (id : ℕ) (s : Stream) (x : ℕ)
      → lookup id m.streams ≡ some s
      → IsStarted m x
      → IsStarted (canceled_map id s m) x
  cancel-IsStarted m id s x there (r, e, t, f) = elim (ℕ_discrete x id) [
    | yes p ↦
        let same : r ≡ s = ground (arith, p, e, there) in
        (
          closed s,
          rw p (lookup-update id (closed s) m.streams),
          t,
          ap (λ (u : Stream). u.send.start_time) (sym same) ∙ f,
        )
    | no n ↦ (r, lookup-update_other x id (closed s) m.streams n ∙ e, t, f)
  ]

  cancel-All-IsStarted :
      (m : StreamMap S) (id : ℕ) (s : Stream) (xs : List ℕ)
      → lookup id m.streams ≡ some s
      → All (IsStarted m) xs
      → All (IsStarted (canceled_map id s m)) xs
  cancel-All-IsStarted m id s [] there h = tt
  cancel-All-IsStarted m id s (x ∷ xs) there h =
      (cancel-IsStarted m id s x there h.0, cancel-All-IsStarted m id s xs there h.1)

  All-scheduled :
      (m : StreamMap S) (sc : S) (xs : List ℕ)
      → All (IsStarted m) xs
      → All (IsStarted (record m { scheduler = sc })) xs
  All-scheduled m sc [] h = tt
  All-scheduled m sc (x ∷ xs) h = (h.0, All-scheduled m sc xs h.1)

  -- Shutting a stream down again fails.
  abbrev marked : ℕ → StreamMap S → StreamMap S
  marked id m = record m {
    canceled = include id m.canceled;
    canceled_depend = include id m.canceled_depend;
  }

  cancel_block-Done :
      (id : ℕ) (s : Stream) (m : StreamMap S)
      → lookup id m.streams ≡ some s
      → s.send.shut ≡ true
      → cancel_block id m ≡ (err Error.done, marked id m)
  unfolding cancel_block shutdown
  cancel_block-Done id s m e u = rw (e, cancel_block, shutdown, u) refl

module _ {S : Type 0} (late : Block → Bool) where
  -- The stream is late, and was shut down.
  abbrev pub IsBlocked : StreamMap S → ℕ → Type 0
  IsBlocked m id =
      (s : Stream) × (lookup id m.streams ≡ some s) × (s.send.shut ≡ true) × IsLate late m id

  -- The choice fails, and the stream is in the queue as before.
  abbrev pub Fails : {A : Type 0} → ℕ → Result A × StreamMap S → Type 0
  Fails id (r, m') = (r ≡ err Error.done) × IsBlocked m' id × (0 < count id m'.flushable)

  IsBlocked-moved :
      (m m' : StreamMap S) (id : ℕ)
      → lookup id m'.streams ≡ lookup id m.streams
      → IsBlocked m id
      → IsBlocked m' id
  unfolding get_block
  IsBlocked-moved m m' id e (s, there, shut, (b, gb, l)) =
      (s, e ∙ there, shut, (b, rw (get_block, e) gb, l))

  module _ {W : Type 0} (sched : Scheduler W S) (bandwidth rtt : W) (next now : ℕ)
      (decides : (b : Block) (s : S)
        → sched.should_drop_block b bandwidth rtt next now s ≡ (late b, s)) where
    -- A round at a late stream that is shut down.
    drop_late-shut :
        (i id : ℕ) (b : Block) (kept : List Block) (m : StreamMap S)
        → get m.flushable i ≡ some id
        → get_block id m ≡ ok b
        → late b ≡ true
        → cancel_block id (record m { scheduler = m.scheduler }) ≡ (err Error.done, marked id m)
        → drop_late sched bandwidth rtt next now (suc i) kept m ≡ (err Error.done, marked id m)
    unfolding drop_late drop_or_keep canceled_at
    drop_late-shut i id b kept m g e l c =
        rw (drop_late, g, e, decides b m.scheduler, l, drop_or_keep, c, canceled_at) refl

    drop_late-Fails :
        (id : ℕ) (todo rest : List ℕ) (kept : List Block) (m : StreamMap S)
        → m.flushable ≡ reverse_aux todo rest
        → All (IsStarted m) todo
        → 0 < count id todo
        → IsBlocked m id
        → Fails id (drop_late sched bandwidth rtt next now (length todo) kept m)
    unfolding drop_late count
    drop_late-Fails id [] rest kept m e h c k = absurd (omega arith)
    drop_late-Fails id (x ∷ todo) rest kept m e h c (s, there, shut, (b0, gb0, l0)) =
        let k : IsBlocked m id = (s, there, shut, (b0, gb0, l0)) in
        let (b, gb) = get_block_started m x h.0 in
        let (r, at_x, _, _) = h.0 in
        let at : get m.flushable (length todo) ≡ some x = rw e (get-reverse_aux x todo rest) in
        elim (Bool-cases (late b)) [
          | inr l ↦
              let other : x ≢ id = λ p. ground (arith, p, gb, gb0, l, l0) in
              subst (Fails id)
                (sym (
                  drop_late-timely late sched bandwidth rtt next now decides (length todo) x b kept
                    m at gb l))
                (drop_late-Fails id todo (x ∷ rest) _ m e h.1 (count_other id x todo c other) k)
          | inl l ↦ elim (Bool-cases r.send.shut) [
            | inl u ↦
                subst (Fails id)
                  (sym (
                    drop_late-shut (length todo) x b kept m at gb l
                      (cancel_block-Done x r m at_x u)))
                  (
                    refl,
                    IsBlocked-moved m (marked x m) id refl k,
                    count_queue id (x ∷ todo) rest m.flushable e c,
                  )
            | inr u ↦
                let other : x ≢ id = λ p. ground (arith, p, at_x, there, u, shut) in
                let (rest', out, _) = swap_remove_back-reverse_aux x todo rest in
                let m2 : StreamMap S = record (canceled_map x r m) {
                  flushable = swap_remove_back (length todo) m.flushable;
                } in
                subst (Fails id)
                  (sym (
                    drop_late-late late sched bandwidth rtt next now decides (length todo) x b kept
                      m (canceled_map x r m) at gb l (cancel_block_lem m x r at_x u)))
                  (drop_late-Fails id todo rest' kept m2 (rw e out)
                    (cancel-All-IsStarted m x r todo at_x h.1) (count_other id x todo c other)
                    (IsBlocked-moved m m2 id
                      (lookup-update_other id x (closed r) m.streams (λ p. other (sym p))) k))
          ]
        ]

    choose_kept-Fails :
        (id : ℕ) (r : Result (List Block) × StreamMap S)
        → Fails id r
        → Fails id (choose_kept sched bandwidth rtt next now r)
    unfolding choose_kept
    choose_kept-Fails id (r, m') (e, k, n) = rw (e, choose_kept) (refl, k, n)

    -- Let the scheduler tell by the block alone whether it is late, and let every stream of the
    -- queue have a start time. Where any stream of the queue is late but was shut down before,
    -- wherever it stands, `peek_flushable` fails with `Done`, whichever late blocks are canceled
    -- before it is reached; the stream is in the queue, shut down and late as before.
    pub peek_flushable-Done :
        (id : ℕ) (m : StreamMap S)
        → All (IsStarted m) m.flushable
        → 0 < count id m.flushable
        → IsBlocked m id
        → Fails id (peek_flushable sched bandwidth rtt next now m)
    unfolding peek_flushable serve_blocks count
    peek_flushable-Done id m h c k =
        let all : All (IsStarted m) (reverse m.flushable) =
          All-reverse_aux (IsStarted m) m.flushable [] h tt in
        let (bs, run) = get_blocks_started (reverse m.flushable) m all in
        let seen = sched.peek_through_flushable bs bandwidth rtt next now m.scheduler in
        let m1 : StreamMap S = record m { scheduler = seen } in
        let n : length (reverse m.flushable) ≡ length m.flushable = length-reverse m.flushable in
        let fails : Fails id (drop_late sched bandwidth rtt next now (length m.flushable) [] m1) =
          subst (λ i. Fails id (drop_late sched bandwidth rtt next now i [] m1)) n
            (drop_late-Fails id (reverse m.flushable) [] [] m1 (sym (reverse-reverse m.flushable))
              (All-scheduled m seen (reverse m.flushable) all) (rw (count-reverse id m.flushable) c)
              (IsBlocked-moved m m1 id refl k)) in
        let more : (length m.flushable == 0) ≡ false = count_length id m.flushable c in
        rw (peek_flushable, more, run, serve_blocks)
          (choose_kept-Fails id (drop_late sched bandwidth rtt next now (length m.flushable) [] m1)
            fails)
