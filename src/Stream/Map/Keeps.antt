-- ===== src/Stream/Map/Keeps.antt =====
-- The operations that close streams or choose one keep the limits and the collected streams.
use dtp.Base.{
  zero, suc, ◌++◌, Option, Result, panic, length, ◌==◌, ℕ, ◌≡◌, refl, sym, subst, inl, inr, Bool,
  true, false, none, some, List, [], ◌∷◌, ok, err, arith, Bool-cases, Option-cases,
}
use dtp.Base.Maps.{lookup, update, erase, has, include, lookup-erase, has-include_old}
use dtp.Stream.SendBuf.{shutdown}
use dtp.Stream.Streams.{Stream, is_bidi}
use dtp.Stream.Map.{
  get_block, get_blocks, StreamMap, give_credit, collect, cancel_block, pop_flushable,
}
use dtp.Stream.Map.Limits.{IsWithin, IsAway, update-IsAway, lookup-erase-none, has-include_inv}
use mathlib.Core.List.{reverse}
use dtp.Scheduler.{Block, Scheduler}
use dtp.Stream.Map.Flush.{
  get, swap_remove_back, take_out, canceled_at, drop_or_keep, chosen, drop_late, choose_kept,
  choose, serve_blocks, peek_flushable,
}

-- All of the first list is in the second.
pub record IsMore (ids ids' : List ℕ) : Type 0 where
  pub kept : (id : ℕ) → has id ids ≡ true → has id ids' ≡ true

pub same_ids : {ids : List ℕ} → IsMore ids ids
same_ids = record { kept = λ id h. h }

erase-IsAway :
    (id : ℕ) (streams : List (ℕ × Stream)) (ids : List ℕ)
    → IsAway streams ids
    → IsAway (erase id streams) (include id ids)
erase-IsAway id streams ids a = record {
  gone = λ j h. elim (has-include_inv j id ids h) [
    | inl e ↦ subst (λ k. lookup k (erase id streams) ≡ none) (sym e) (lookup-erase id streams)
    | inr k ↦ lookup-erase-none j id streams (a.gone j k)
  ];
}

abbrev closed : Stream → Stream
closed s = record s { send = record s.send { shut = true; chunks = [] } }

module _ {S : Type 0} where
  -- The invariant, and the collected streams stay collected.
  abbrev pub Keeps : StreamMap S → StreamMap S → Type 0
  Keeps m m' = IsWithin m' × IsMore m.collected m'.collected

  pub collect-IsMore :
      (id : ℕ) (local : Bool) (m : StreamMap S) → IsMore m.collected (collect id local m).collected
  unfolding collect
  collect-IsMore id local m = record { kept = λ j h. has-include_old j id m.collected h }

  pub collect-IsWithin :
      (id : ℕ) (local : Bool) (m : StreamMap S) → IsWithin m → IsWithin (collect id local m)
  unfolding collect give_credit
  collect-IsWithin id true m w = ground (arith, w, erase-IsAway id m.streams m.collected w.away)
  collect-IsWithin id false m w = elim (Bool-cases (is_bidi id)) [
    | inl e ↦
        rw (collect, give_credit, e)
          (ground (arith, w, erase-IsAway id m.streams m.collected w.away))
    | inr e ↦
        rw (collect, give_credit, e)
          (ground (arith, w, erase-IsAway id m.streams m.collected w.away))
  ]

  pub update_known :
      (id : ℕ) (s t : Stream) (m : StreamMap S)
      → IsWithin m
      → lookup id m.streams ≡ some s
      → IsAway (update id t m.streams) m.collected
  update_known id s t m w e = elim (Bool-cases (has id m.collected)) [
    | inl h ↦ let n = w.away.gone id h in cc
    | inr h ↦ update-IsAway id t m.streams m.collected h w.away
  ]

  pub cancel_block-Keeps : (id : ℕ) (m : StreamMap S) → IsWithin m → Keeps m (cancel_block id m).1
  unfolding cancel_block shutdown
  cancel_block-Keeps id m w = elim (Option-cases (lookup id m.streams)) [
    | inl e ↦ rw (cancel_block, e) (w, same_ids)
    | inr (s, e) ↦ elim (Bool-cases s.send.shut) [
      | inl u ↦ rw (cancel_block, e, shutdown, u) (ground (arith, w), same_ids)
      | inr u ↦
          rw (cancel_block, e, shutdown, u)
            (ground (arith, w, update_known id s (closed s) m w e), same_ids)
    ]
  ]

  pub pop_flushable-Keeps : (m : StreamMap S) → IsWithin m → Keeps m (pop_flushable m).1
  unfolding pop_flushable
  pop_flushable-Keeps m w = go m.flushable refl
    where
      go : (q : List ℕ) → m.flushable ≡ q → Keeps m (pop_flushable m).1
      go [] e = rw (pop_flushable, e) (w, same_ids)
      go (x ∷ xs) e = rw (pop_flushable, e) (ground (arith, w), same_ids)

  Keeps-trans : (m m' m'' : StreamMap S) → Keeps m m' → Keeps m' m'' → Keeps m m''
  Keeps-trans m m' m'' p q = (q.0, record { kept = λ id h. q.1.kept id (p.1.kept id h) })

  -- The scheduler and the queue do not count.
  requeued :
      (sc : S) (q : List ℕ) (m : StreamMap S)
      → IsWithin m
      → Keeps m (record m { scheduler = sc; flushable = q })
  requeued sc q m w = (ground (arith, w), same_ids)

  module _ (loop : List Block → StreamMap S → Result (List Block) × StreamMap S)
      (loops : (kept : List Block) (m : StreamMap S) → IsWithin m → Keeps m (loop kept m).1) where
    canceled_at-Keeps :
        (i : ℕ) (kept : List Block) (m : StreamMap S) (r : Result (Unit {0}) × StreamMap S)
        → Keeps m r.1
        → Keeps m (canceled_at loop i kept r).1
    unfolding canceled_at
    canceled_at-Keeps i kept m (ok _, m') k =
        let m2 = record m' { flushable = swap_remove_back i m'.flushable } in
        let q = requeued m'.scheduler (swap_remove_back i m'.flushable) m' k.0 in
        Keeps-trans m m' (loop kept m2).1 k
          (Keeps-trans m' m2 (loop kept m2).1 q (loops kept m2 q.0))
    canceled_at-Keeps i kept m (err e, m') k = k
    canceled_at-Keeps i kept m (panic, m') k = k

    drop_or_keep-Keeps :
        (i id : ℕ) (b : Block) (kept : List Block) (m : StreamMap S) (r : Bool × S)
        → IsWithin m
        → Keeps m (drop_or_keep loop i id b kept m r).1
    unfolding drop_or_keep
    drop_or_keep-Keeps i id b kept m (true, sc) w =
        let m1 = record m { scheduler = sc } in
        let q = requeued sc m.flushable m w in
        canceled_at-Keeps i kept m (cancel_block id m1)
          (Keeps-trans m m1 (cancel_block id m1).1 q (cancel_block-Keeps id m1 q.0))
    drop_or_keep-Keeps i id b kept m (false, sc) w =
        let m1 = record m { scheduler = sc } in
        let q = requeued sc m.flushable m w in
        Keeps-trans m m1 (loop (kept ++ (b ∷ [])) m1).1 q (loops (kept ++ (b ∷ [])) m1 q.0)

  abbrev KeepsAt : StreamMap S → Result (List Block) × StreamMap S → Type 0
  KeepsAt m r = Keeps m r.1

  -- The rounds at a block keep what they should, and so does the loop that finds the block.
  module _ (m : StreamMap S) (w : IsWithin m)
      (round : ℕ → Block → Result (List Block) × StreamMap S)
      (rounds : (id : ℕ) (b : Block) → Keeps m (round id b).1) where
    at_block :
        (id : ℕ) (r : Result Block)
        → KeepsAt m (elim r [ ok b ↦ round id b | err e ↦ (err e, m) | panic ↦ (panic, m) ])
    at_block id (ok b) = rounds id b
    at_block id (err e) = (w, same_ids)
    at_block id panic = (w, same_ids)

    at_id :
        (o : Option ℕ)
        → KeepsAt m (elim o [
          | none ↦ (panic, m)
          | some id ↦ elim (get_block id m) [
            | ok b ↦ round id b
            | err e ↦ (err e, m)
            | panic ↦ (panic, m)
          ]
        ])
    at_id none = (w, same_ids)
    at_id (some id) = at_block id (get_block id m)

  chosen-Keeps : (r : Result (ℕ × S)) (m : StreamMap S) → IsWithin m → Keeps m (chosen r m).1
  unfolding chosen
  chosen-Keeps (ok (id, sc)) m w = requeued sc (take_out id m.flushable) m w
  chosen-Keeps (err e) m w = (w, same_ids)
  chosen-Keeps panic m w = (w, same_ids)

  module _ {W : Type 0} (sched : Scheduler W S) (bandwidth rtt : W) (next now : ℕ) where
    drop_late-Keeps :
        (i : ℕ) (kept : List Block) (m : StreamMap S)
        → IsWithin m
        → Keeps m (drop_late sched bandwidth rtt next now i kept m).1
    unfolding drop_late
    drop_late-Keeps zero kept m w = (w, same_ids)
    drop_late-Keeps (suc i) kept m w =
        at_id m w _
          (λ id b.
            drop_or_keep-Keeps (drop_late sched bandwidth rtt next now i) (drop_late-Keeps i) i id b
              kept m (sched.should_drop_block b bandwidth rtt next now m.scheduler) w)
          (get m.flushable i)

    choose_kept-Keeps :
        (m : StreamMap S) (r : Result (List Block) × StreamMap S)
        → Keeps m r.1
        → Keeps m (choose_kept sched bandwidth rtt next now r).1
    unfolding choose_kept choose
    choose_kept-Keeps m (ok [], m') k = k
    choose_kept-Keeps m (ok (b ∷ bs), m') k =
        let r = sched.select_block (b ∷ bs) bandwidth rtt next now m'.scheduler in
        Keeps-trans m m' (chosen r m').1 k (chosen-Keeps r m' k.0)
    choose_kept-Keeps m (err e, m') k = k
    choose_kept-Keeps m (panic, m') k = k

    serve_blocks-Keeps :
        (r : Result (List Block)) (m : StreamMap S)
        → IsWithin m
        → Keeps m (serve_blocks sched bandwidth rtt next now r m).1
    unfolding serve_blocks
    serve_blocks-Keeps (ok bs) m w =
        let seen = sched.peek_through_flushable bs bandwidth rtt next now m.scheduler in
        let m1 = record m { scheduler = seen } in
        let q = requeued seen m.flushable m w in
        let r = drop_late sched bandwidth rtt next now (length m.flushable) [] m1 in
        choose_kept-Keeps m r
          (Keeps-trans m m1 r.1 q (drop_late-Keeps (length m.flushable) [] m1 q.0))
    serve_blocks-Keeps (err e) m w = (w, same_ids)
    serve_blocks-Keeps panic m w = (w, same_ids)

    pub peek_flushable-Keeps :
        (m : StreamMap S) → IsWithin m → Keeps m (peek_flushable sched bandwidth rtt next now m).1
    unfolding peek_flushable
    peek_flushable-Keeps m w = elim (Bool-cases (length m.flushable == 0)) [
      | inl e ↦ rw (peek_flushable, e) (w, same_ids)
      | inr e ↦ rw (peek_flushable, e) (serve_blocks-Keeps (get_blocks (reverse m.flushable) m) m w)
    ]
