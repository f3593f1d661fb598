-- ===== src/Stream/Map/Flush/Peek.antt =====
-- `peek_flushable` as a whole: late blocks are dropped, and one of the others is chosen.
use dtp.Base.{
  ℕ, ◌+◌, ◌<◌, ◌≡◌, refl, ap, sym, subst, ◌∙◌, Bool, true, Option, none, some, List, [], ◌∷◌, ◌++◌,
  ◌==◌, length, arith, All, inl, inr, Bool-cases, Result, ok, err, panic, append-nil,
}
use dtp.Base.Maps.{count, count-append}
use mathlib.Core.List.{reverse, reverse_aux, reverse-reverse}
use native.Mathlib.Decide.{ℕ_discrete}
use dtp.Scheduler.{Block, Scheduler}
use dtp.Scheduler.Basic.{Has}
use dtp.Stream.Map.{StreamMap, get_block, get_blocks}
use dtp.Stream.Map.Flush.{
  drop_late, chosen, choose, choose_kept, serve_blocks, peek_flushable, take_out,
}
use dtp.Stream.Map.Flush.Deque.{Same, take_out-Same}
use dtp.Stream.Map.Flush.Drop.{IsReady, IsCanceled, Intact, get_block_lem}
use dtp.Stream.Map.Flush.Late.{
  Distinct, ids, IsLate, IsTimely, Timely, drop_late-Ends, length-reverse,
}

pub count-reverse_aux :
    (x : ℕ) (xs ys : List ℕ) → count x (reverse_aux xs ys) ≡ count x xs + count x ys
unfolding count
count-reverse_aux x [] ys = omega arith
count-reverse_aux x (z ∷ xs) ys = ground (arith, count-reverse_aux x xs (z ∷ ys))

pub count-reverse : (x : ℕ) (xs : List ℕ) → count x (reverse xs) ≡ count x xs
unfolding count
count-reverse x xs = ground (arith, count-reverse_aux x xs [])

Distinct-reverse : (xs : List ℕ) → Distinct xs → Distinct (reverse xs)
Distinct-reverse xs d = record { once = λ x. rw (count-reverse x xs) (d.once x) }

pub All-reverse_aux :
    {A : Type 0} (P : A → Type 0) (xs ys : List A) → All P xs → All P ys → All P (reverse_aux xs ys)
All-reverse_aux P [] ys p q = q
All-reverse_aux P (x ∷ xs) ys p q = All-reverse_aux P xs (x ∷ ys) p.1 (p.0, q)

count-Has : (id : ℕ) (bs : List Block) → Has id bs → 0 < count id (ids bs)
unfolding count
count-Has id [] h = elim h [ ]
count-Has id (b ∷ bs) (inl e) = ground (arith, e)
count-Has id (b ∷ bs) (inr h) = ground (arith, count-Has id bs h)

length_zero : (xs : List ℕ) → (length xs == 0) ≡ true → xs ≡ []
length_zero [] e = refl
length_zero (x ∷ xs) e = absurd (ground (arith, e))

Same-nil : (xs : List ℕ) → Same xs [] → xs ≡ []
unfolding count
Same-nil [] s = refl
Same-nil (x ∷ xs) s = absurd (ground (arith, s.counts x))

taken_count :
    (x id : ℕ) (rest xs ys : List ℕ)
    → Same (id ∷ rest) xs
    → Same xs ys
    → 0 < count x rest
    → 0 < count x ys
unfolding count
taken_count x id rest xs ys s t h = ground (arith, s.counts x, t.counts x, h)

Same-taken :
    (id : ℕ) (gone rest xs ys all : List ℕ)
    → Same (id ∷ rest) xs
    → Same xs ys
    → Same all (gone ++ ys)
    → Same all (gone ++ (id ∷ rest))
Same-taken id gone rest xs ys all s t u = record { counts = λ x. go x }
  where
    go : (x : ℕ) → count x all ≡ count x (gone ++ (id ∷ rest))
    go x = omega (
      arith,
      s.counts x,
      t.counts x,
      u.counts x,
      count-append x gone ys,
      count-append x gone (id ∷ rest),
    )

Same-reverse : (xs ys : List ℕ) → Same (reverse xs ++ []) ys → Same xs ys
Same-reverse xs ys s = record {
  counts =
      λ x. sym (count-reverse x xs) ∙ ap (count x) (sym (append-nil (reverse xs))) ∙ s.counts x;
}

All-count : (P : ℕ → Type 0) (xs : List ℕ) → ((x : ℕ) → 0 < count x xs → P x) → All P xs
unfolding count
All-count P [] h = tt
All-count P (x ∷ xs) h = (h x (ground arith), All-count P xs (λ y l. h y (ground (arith, l))))

module _ {S : Type 0} where
  get_blocks_step :
      (j : ℕ) (js : List ℕ) (m : StreamMap S) (b : Block) (bs : List Block)
      → get_block j m ≡ ok b
      → get_blocks js m ≡ ok bs
      → get_blocks (j ∷ js) m ≡ ok (b ∷ bs)
  unfolding get_blocks
  get_blocks_step j js m b bs e f = rw (e, f, get_blocks) refl

  get_blocks_lem :
      (js : List ℕ) (m : StreamMap S)
      → All (IsReady m) js
      → (bs : List Block) × (get_blocks js m ≡ ok bs)
  unfolding get_blocks
  get_blocks_lem [] m h = ([], refl)
  get_blocks_lem (j ∷ js) m h =
      let (b, e, i) = get_block_lem m j h.0 in
      let (bs, f) = get_blocks_lem js m h.1 in (b ∷ bs, get_blocks_step j js m b bs e f)

  All-Intact :
      (js : List ℕ) (m : StreamMap S) (s : S)
      → All (IsReady m) js
      → All (Intact m (record m { scheduler = s })) js
  All-Intact [] m s h = tt
  All-Intact (j ∷ js) m s h = ((h.0, refl), All-Intact js m s h.1)

module _ {S : Type 0} (late : Block → Bool) where
  Timely-Has :
      (m : StreamMap S) (id : ℕ) (bs : List Block)
      → All (Timely late m) bs
      → Has id bs
      → IsTimely late m id
  Timely-Has m id [] t h = elim h [ ]
  Timely-Has m id (b ∷ bs) t (inl e) = (b, subst (λ i. get_block i m ≡ ok b) e t.0.0, t.0.1)
  Timely-Has m id (b ∷ bs) t (inr h) = Timely-Has m id bs t.1 h

  Timely-count :
      (m : StreamMap S) (id : ℕ) (bs : List Block)
      → All (Timely late m) bs
      → 0 < count id (ids bs)
      → IsTimely late m id
  unfolding count
  Timely-count m id [] t h = absurd (omega arith)
  Timely-count m id (b ∷ bs) t h = elim (ℕ_discrete b.block_id id) [
    | yes e ↦ (b, subst (λ i. get_block i m ≡ ok b) e t.0.0, t.0.1)
    | no n ↦ Timely-count m id bs t.1 (ground (arith, h, n))
  ]

  -- What is left of the queue of `m` once the numbers of `gone` are taken out and one is chosen.
  abbrev pub Leaves : StreamMap S → List ℕ → Option ℕ → StreamMap S → Type 0
  Leaves m gone none m' = (m'.flushable ≡ []) × Same m.flushable gone
  Leaves m gone (some id) m' =
      IsTimely late m id
      × All (IsTimely late m) m'.flushable
      × Same m.flushable (gone ++ (id ∷ m'.flushable))

  abbrev pub Serves : StreamMap S → Result (Option ℕ) × StreamMap S → Type 0
  Serves m (ok o, m') =
      (gone : List ℕ) × All (IsLate late m) gone × All (IsCanceled m') gone × Leaves m gone o m'
  Serves m (err e, m') = ⊥
  Serves m (panic, m') = ⊥

  module _ {W : Type 0} (sched : Scheduler W S) (bandwidth rtt : W) (next now : ℕ)
      (decides : (b : Block) (s : S)
        → sched.should_drop_block b bandwidth rtt next now s ≡ (late b, s))
      (selects : (b : Block) (bs : List Block) (s : S)
        → (id : ℕ) × (s' : S) × (sched.select_block (b ∷ bs) bandwidth rtt next now s ≡ ok (id, s'))
          × Has id (b ∷ bs)) where
    choose-Serves :
        (m m' : StreamMap S) (gone : List ℕ) (bs : List Block)
        → All (IsLate late m) gone
        → All (IsCanceled m') gone
        → All (Timely late m) bs
        → Same m'.flushable (ids bs)
        → Same m.flushable (gone ++ ids bs)
        → Serves m (choose sched bandwidth rtt next now bs m')
    unfolding choose chosen
    choose-Serves m m' gone [] l c t q s =
        (gone, l, c, (Same-nil m'.flushable q, subst (λ g. Same m.flushable g) (append-nil gone) s))
    choose-Serves m m' gone (b ∷ bs) l c t q s =
        let (id, s', e, h) = selects b bs m'.scheduler in
        let there : 0 < count id m'.flushable = rw (q.counts id) (count-Has id (b ∷ bs) h) in
        let out = take_out-Same id m'.flushable there in
        rw (choose, e, chosen, Serves)
          (
            gone,
            l,
            c,
            (
              Timely-Has m id (b ∷ bs) t h,
              All-count (IsTimely late m) (take_out id m'.flushable) (λ x k.
                  Timely-count m x (b ∷ bs) t (
                    taken_count x id (take_out id m'.flushable) m'.flushable (ids (b ∷ bs)) out q
                      k)),
              Same-taken id gone (take_out id m'.flushable) m'.flushable (ids (b ∷ bs)) m.flushable
                  out q s,
            ),
          )

    -- Let the scheduler drop a block exactly if it is `late` and select one of the blocks it is
    -- given. Where the streams of the queue are there, started and not shut down, and no number
    -- stands twice, `peek_flushable` does not fail. It cancels streams of late blocks and takes
    -- them out of the queue; if none is left it chooses none, and otherwise it takes one out and
    -- chooses it. The chosen stream and those left in the queue are not late, and together with
    -- the canceled ones they are the queue as it was.
    pub peek_flushable-Serves :
        (m : StreamMap S)
        → All (IsReady m) m.flushable
        → Distinct m.flushable
        → Serves m (peek_flushable sched bandwidth rtt next now m)
    unfolding peek_flushable serve_blocks choose_kept
    peek_flushable-Serves m h d = elim (Bool-cases (length m.flushable == 0)) [
      | inl e ↦
          let empty = length_zero m.flushable e in
          rw e ([], tt, tt, (empty, rw empty record { counts = λ x. refl }))
      | inr e ↦
          let (bs, f) =
            get_blocks_lem (reverse m.flushable) m
              (All-reverse_aux (IsReady m) m.flushable [] h tt) in
          let seen = sched.peek_through_flushable bs bandwidth rtt next now m.scheduler in
          let (kept, m', gone, run, l, c, t, same, sum) =
            drop_late-Ends late sched bandwidth rtt next now decides m (reverse m.flushable) [] []
              [] (record m { scheduler = seen }) (sym (reverse-reverse m.flushable))
              (Distinct-reverse m.flushable d)
              (All-Intact (reverse m.flushable) m seen
                (All-reverse_aux (IsReady m) m.flushable [] h tt))
              tt tt tt record { counts = λ y. refl } in
          let run' =
            subst
              (λ n.
                drop_late sched bandwidth rtt next now n [] (record m { scheduler = seen })
                ≡ (ok kept, m'))
              (length-reverse m.flushable) run in
          rw (e, f, serve_blocks, run')
            (choose-Serves m m' gone kept l c t same
              (Same-reverse m.flushable (gone ++ ids kept) sum))
    ]
