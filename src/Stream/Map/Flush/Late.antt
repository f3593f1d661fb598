-- ===== src/Stream/Map/Flush/Late.antt =====
-- The loop of `peek_flushable` over the queue: late blocks are canceled and taken out, the others stay.
use dtp.Base.{
  ℕ, suc, ◌+◌, ◌≤◌, ◌≡◌, refl, ap, sym, ◌∙◌, Bool, true, false, some, List, [], ◌∷◌, ◌++◌, length,
  arith, All, inl, inr, Bool-cases, Result, ok,
}
use dtp.Base.Maps.{has, count, count-append}
use mathlib.Core.List.{reverse, reverse_aux, reverse_aux-eq}
use dtp.Scheduler.{Block, Scheduler}
use dtp.Stream.Map.{StreamMap, get_block, cancel_block}
use dtp.Stream.Map.Flush.{get, swap_remove_back, drop_late, drop_or_keep, canceled_at}
use dtp.Stream.Map.Flush.Deque.{Same, get-append, swap_remove_back-Same}
use dtp.Stream.Map.Flush.Drop.{
  IsCanceled, Intact, canceled_map, get_block_lem, cancel_block_lem, cancel-IsCanceled,
  cancel-All-IsCanceled, cancel-Intact, Intact-IsReady, Intact-get_block,
}

length-reverse_aux : (xs rest : List ℕ) → length (reverse_aux xs rest) ≡ length xs + length rest
length-reverse_aux [] rest = omega arith
length-reverse_aux (x ∷ xs) rest = omega (arith, length-reverse_aux xs (x ∷ rest))

pub length-reverse : (xs : List ℕ) → length (reverse xs) ≡ length xs
length-reverse xs = omega (arith, length-reverse_aux xs [])

pub get-reverse_aux :
    (id : ℕ) (xs rest : List ℕ) → get (reverse_aux xs (id ∷ rest)) (length xs) ≡ some id
get-reverse_aux id xs rest =
    rw (reverse_aux-eq xs (id ∷ rest), sym (length-reverse xs)) (get-append (reverse xs) id rest)

pub swap_remove_back-reverse_aux :
    (id : ℕ) (xs rest : List ℕ)
    → (rest' : List ℕ) × (swap_remove_back (length xs) (reverse_aux xs (id ∷ rest))
        ≡ reverse_aux xs rest')
      × Same rest' rest
swap_remove_back-reverse_aux id xs rest =
    let (rest', e, same) = swap_remove_back-Same (reverse xs) id rest in
    (
      rest',
      rw (reverse_aux-eq xs (id ∷ rest), sym (length-reverse xs))
          (e ∙ sym (reverse_aux-eq xs rest')),
      same,
    )

-- No number stands twice.
pub record Distinct (xs : List ℕ) : Type 0 where
  pub once : (x : ℕ) → count x xs ≤ 1

has_count : (x : ℕ) (xs : List ℕ) → count x xs ≡ 0 → has x xs ≡ false
unfolding has count
has_count x [] e = refl
has_count x (y ∷ xs) e = ground (arith, e, has_count x xs)

Distinct-head : (x : ℕ) (xs : List ℕ) → Distinct (x ∷ xs) → has x xs ≡ false
unfolding count
Distinct-head x xs d = has_count x xs (ground (arith, d.once x))

Distinct-tail : (x : ℕ) (xs : List ℕ) → Distinct (x ∷ xs) → Distinct xs
unfolding count
Distinct-tail x xs d = record { once = λ y. ground (arith, d.once y) }

abbrev pub ids : List Block → List ℕ
ids [] = []
ids (b ∷ bs) = b.block_id ∷ ids bs

ids-append : (bs cs : List Block) → ids (bs ++ cs) ≡ ids bs ++ ids cs
ids-append [] cs = refl
ids-append (b ∷ bs) cs = ap (λ t. b.block_id ∷ t) (ids-append bs cs)

Same-trans : (xs ys zs : List ℕ) → Same xs ys → Same ys zs → Same xs zs
Same-trans xs ys zs p q = record { counts = λ x. p.counts x ∙ q.counts x }

-- A number looked at is gone, or kept.
Same-gone :
    (id : ℕ) (todo gone kept all : List ℕ)
    → Same (todo ++ ((id ∷ gone) ++ kept)) all
    → Same (id ∷ (todo ++ (gone ++ kept))) all
unfolding count
Same-gone id todo gone kept all s = record { counts = λ x. go x }
  where
    go : (x : ℕ) → count x (id ∷ (todo ++ (gone ++ kept))) ≡ count x all
    go x = ground (
      arith,
      s.counts x,
      count-append x todo ((id ∷ gone) ++ kept),
      count-append x todo (gone ++ kept),
    )

Same-kept_rest :
    (id : ℕ) (b : Block) (kept : List Block) (rest : List ℕ)
    → b.block_id ≡ id
    → Same rest (ids kept)
    → Same (id ∷ rest) (ids (kept ++ (b ∷ [])))
unfolding count
Same-kept_rest id b kept rest e s = rw (ids-append kept (b ∷ []), e) record { counts = λ x. go x }
  where
    go : (x : ℕ) → count x (id ∷ rest) ≡ count x (ids kept ++ (id ∷ []))
    go x = ground (arith, s.counts x, count-append x (ids kept) (id ∷ []))

Same-kept :
    (id : ℕ) (todo gone : List ℕ) (b : Block) (kept : List Block) (all : List ℕ)
    → b.block_id ≡ id
    → Same (todo ++ (gone ++ ids (kept ++ (b ∷ [])))) all
    → Same (id ∷ (todo ++ (gone ++ ids kept))) all
unfolding count
Same-kept id todo gone b kept all e s = record { counts = λ x. go x s' }
  where
    s' : Same (todo ++ (gone ++ (ids kept ++ (id ∷ [])))) all
    s' = rw (sym e, sym (ids-append kept (b ∷ []))) s

    go :
        (x : ℕ)
        → Same (todo ++ (gone ++ (ids kept ++ (id ∷ [])))) all
        → count x (id ∷ (todo ++ (gone ++ ids kept))) ≡ count x all
    go x t = ground (
      arith,
      t.counts x,
      count-append x todo (gone ++ (ids kept ++ (id ∷ []))),
      count-append x todo (gone ++ ids kept),
      count-append x gone (ids kept ++ (id ∷ [])),
      count-append x gone (ids kept),
      count-append x (ids kept) (id ∷ []),
    )

All-append_one :
    {A : Type 0} (P : A → Type 0) (xs : List A) (x : A) → All P xs → P x → All P (xs ++ (x ∷ []))
All-append_one P [] x h p = (p, tt)
All-append_one P (y ∷ xs) x h p = (h.0, All-append_one P xs x h.1 p)

module _ {S : Type 0} (late : Block → Bool) where
  -- The block that stands for the number is late, or is not.
  abbrev pub IsLate : StreamMap S → ℕ → Type 0
  IsLate m id = (b : Block) × (get_block id m ≡ ok b) × (late b ≡ true)

  abbrev pub IsTimely : StreamMap S → ℕ → Type 0
  IsTimely m id = (b : Block) × (get_block id m ≡ ok b) × (late b ≡ false)

  abbrev pub Timely : StreamMap S → Block → Type 0
  Timely m b = (get_block b.block_id m ≡ ok b) × (late b ≡ false)

  -- How the loop ends from `m`, with the numbers `todo` to look at, `gone` taken out and the blocks
  -- `kept`.
  abbrev pub Ends :
      StreamMap S
      → StreamMap S
      → List ℕ
      → List ℕ
      → List Block
      → Result (List Block) × StreamMap S
      → Type 0
  Ends m0 m todo gone kept r =
      (bs : List Block) × (m' : StreamMap S) × (gone' : List ℕ) × (r ≡ (ok bs, m'))
      × All (IsLate m0) gone'
      × All (IsCanceled m') gone'
      × All (Timely m0) bs
      × Same m'.flushable (ids bs)
      × Same (todo ++ (gone ++ ids kept)) (gone' ++ ids bs)

  module _ {W : Type 0} (sched : Scheduler W S) (bandwidth rtt : W) (next now : ℕ)
      (decides : (b : Block) (s : S)
        → sched.should_drop_block b bandwidth rtt next now s ≡ (late b, s)) where
    -- A round at a late block, and at one that is not.
    pub drop_late-late :
        (i id : ℕ) (b : Block) (kept : List Block) (m mc : StreamMap S)
        → get m.flushable i ≡ some id
        → get_block id m ≡ ok b
        → late b ≡ true
        → cancel_block id (record m { scheduler = m.scheduler }) ≡ (ok tt, mc)
        → drop_late sched bandwidth rtt next now (suc i) kept m
          ≡ drop_late sched bandwidth rtt next now i kept
              (record mc { flushable = swap_remove_back i mc.flushable })
    unfolding drop_late drop_or_keep canceled_at
    drop_late-late i id b kept m mc g e l c =
        rw (drop_late, g, e, decides b m.scheduler, l, drop_or_keep, c, canceled_at) refl

    pub drop_late-timely :
        (i id : ℕ) (b : Block) (kept : List Block) (m : StreamMap S)
        → get m.flushable i ≡ some id
        → get_block id m ≡ ok b
        → late b ≡ false
        → drop_late sched bandwidth rtt next now (suc i) kept m
          ≡ drop_late sched bandwidth rtt next now i (kept ++ (b ∷ [])) m
    unfolding drop_late drop_or_keep canceled_at
    drop_late-timely i id b kept m g e l =
        rw (drop_late, g, e, decides b m.scheduler, l, drop_or_keep) refl

    pub drop_late-Ends :
        (m0 : StreamMap S) (todo rest gone : List ℕ) (kept : List Block) (m : StreamMap S)
        → m.flushable ≡ reverse_aux todo rest
        → Distinct todo
        → All (Intact m0 m) todo
        → All (IsLate m0) gone
        → All (IsCanceled m) gone
        → All (Timely m0) kept
        → Same rest (ids kept)
        → Ends m0 m todo gone kept (drop_late sched bandwidth rtt next now (length todo) kept m)
    unfolding drop_late
    drop_late-Ends m0 [] rest gone kept m e d intact lg cg tk same =
        (kept, m, gone, refl, lg, cg, tk, rw e same, record { counts = λ x. refl })
    drop_late-Ends m0 (id ∷ todo) rest gone kept m e d intact lg cg tk same =
        let ready = Intact-IsReady m0 m id intact.0 in
        let (st, there, up, _, _) = ready in
        let (b, gb, bid) = get_block_lem m id ready in
        let gb0 : get_block id m0 ≡ ok b = sym (Intact-get_block m0 m id intact.0) ∙ gb in
        let at : get m.flushable (length todo) ≡ some id = rw e (get-reverse_aux id todo rest) in
        elim (Bool-cases (late b)) [
          | inl l ↦
              let c = cancel_block_lem m id st there up in
              let (rest', out, moved) = swap_remove_back-reverse_aux id todo rest in
              let (bs, m', gone', run, lates, cs, ts, same', sum) =
                drop_late-Ends m0 todo rest' (id ∷ gone) kept
                  (record (canceled_map id st m) {
                    flushable = swap_remove_back (length todo) m.flushable;
                  })
                  (rw e out) (Distinct-tail id todo d)
                  (cancel-Intact m0 m id st todo (Distinct-head id todo d) intact.1)
                  ((b, gb0, l), lg)
                  (cancel-IsCanceled m id st, cancel-All-IsCanceled m id st gone cg) tk
                  (Same-trans rest' rest (ids kept) moved same) in
              (
                bs,
                m',
                gone',
                drop_late-late (length todo) id b kept m (canceled_map id st m) at gb l c ∙ run,
                lates,
                cs,
                ts,
                same',
                Same-gone id todo gone (ids kept) (gone' ++ ids bs) sum,
              )
          | inr l ↦
              let (bs, m', gone', run, lates, cs, ts, same', sum) =
                drop_late-Ends m0 todo (id ∷ rest) gone (kept ++ (b ∷ [])) m e
                  (Distinct-tail id todo d) intact.1 lg cg
                  (All-append_one (Timely m0) kept b tk (rw bid gb0, l))
                  (Same-kept_rest id b kept rest bid same) in
              (
                bs,
                m',
                gone',
                drop_late-timely (length todo) id b kept m at gb l ∙ run,
                lates,
                cs,
                ts,
                same',
                Same-kept id todo gone b kept (gone' ++ ids bs) bid sum,
              )
        ]
