-- ===== src/Scheduler/Dtp/Choice.antt =====
-- What the DTP scheduler chooses, where no weight is NaN.
use dtp.Base.{
  ℕ, ◌≤◌, ◌<◌, ◌≡◌, ◌⊎◌, refl, inl, inr, true, false, ◌&&◌, Option, none, some, List, [], ◌∷◌, ltb,
  Result, ok, err, panic, arith, Bool-cases,
}
use dtp.Base.Floats.{F64, IsNumber, IsOrdered}
use dtp.Scheduler.{Block}
use dtp.Scheduler.Dtp.{DtpScheduler, weight, better, lightest, select_dtp}

abbrev pub AllSent : List Block → Type 0
AllSent [] = Unit {0}
AllSent (b ∷ bs) = (b.remaining_size ≡ 0) × AllSent bs

-- The block itself is in the list.
abbrev pub IsIn : Block → List Block → Type 0
IsIn m [] = ⊥
IsIn m (b ∷ bs) = (m ≡ b) ⊎ IsIn m bs

module _ {W : Type 0} ⦃f : F64 W⦄ (o : IsOrdered W) (pacing_rate rtt : W) (current_time : ℕ) where
  abbrev weigh : Block → W
  weigh = weight pacing_rate rtt current_time

  -- `m` is no worse than `b`: it is not heavier, and if they weigh the same it has no more left.
  abbrev pub NoWorse : Block → Block → Type 0
  NoWorse m b =
      (f.gt (weigh m) (weigh b) ≡ false)
      × ((f.eq (weigh m) (weigh b) ≡ false) ⊎ (m.remaining_size ≤ b.remaining_size))

  -- `m` is no worse than any block of the list with data left.
  abbrev pub Best : Block → List Block → Type 0
  Best m [] = Unit {0}
  Best m (b ∷ bs) = ((b.remaining_size ≡ 0) ⊎ NoWorse m b) × Best m bs

  abbrev pub Weighed : List Block → Type 0
  Weighed [] = Unit {0}
  Weighed (b ∷ bs) = IsNumber (weigh b) × Weighed bs

  NoWorse-trans :
      (a b c : Block)
      → IsNumber (weigh a)
      → IsNumber (weigh b)
      → IsNumber (weigh c)
      → NoWorse a b
      → NoWorse b c
      → NoWorse a c
  NoWorse-trans a b c na nb nc p q = (
    o.not_gt_trans (weigh a) (weigh b) (weigh c) na nb nc p.0 q.0,
    elim (Bool-cases (f.eq (weigh a) (weigh c))) [
      | inr e ↦ inl e
      | inl e ↦
          let ca = o.eq_not_gt (weigh c) (weigh a) (o.eq_sym (weigh a) (weigh c) e) in
          let ba = o.not_gt_trans (weigh b) (weigh c) (weigh a) nb nc na q.0 ca in
          let cb = o.not_gt_trans (weigh c) (weigh a) (weigh b) nc na nb ca p.0 in
          let ab = o.eq_of_not_gt (weigh a) (weigh b) na nb p.0 ba in
          let bc = o.eq_of_not_gt (weigh b) (weigh c) nb nc q.0 cb in
          inr (ground (arith, ab, bc, p.1, q.1))
    ],
  )

  -- The test of the loop decides.
  better-NoWorse : (b m : Block) → better pacing_rate rtt current_time b m ≡ true → NoWorse b m
  unfolding better
  better-NoWorse b m e = ground (
    arith,
    e,
    o.gt_asym (weigh m) (weigh b),
    o.eq_sym (weigh m) (weigh b),
    o.eq_sym (weigh b) (weigh m),
    o.eq_not_gt (weigh m) (weigh b),
    o.eq_not_gt (weigh b) (weigh m),
  )

  worse-NoWorse : (b m : Block) → better pacing_rate rtt current_time b m ≡ false → NoWorse m b
  unfolding better
  worse-NoWorse b m e = ground (arith, e)

  NoWorse-refl : (b : Block) → IsNumber (weigh b) → NoWorse b b
  NoWorse-refl b n = (o.eq_not_gt (weigh b) (weigh b) n, inr (omega arith))

  -- The best of `bs` and of what was seen before.
  abbrev Wins : Block → List Block → Option Block → Type 0
  Wins m bs none = Best m bs × IsIn m bs
  Wins m bs (some b) = Best m bs × NoWorse m b × ((m ≡ b) ⊎ IsIn m bs)

  Best-trans :
      (m b : Block) (bs : List Block)
      → IsNumber (weigh m)
      → IsNumber (weigh b)
      → Weighed bs
      → NoWorse m b
      → Best b bs
      → Best m bs
  Best-trans m b [] nm nb w p q = tt
  Best-trans m b (c ∷ cs) nm nb w p q = (
    elim q.0 [ inl z ↦ inl z | inr n ↦ inr (NoWorse-trans m b c nm nb w.0 p n) ],
    Best-trans m b cs nm nb w.1 p q.1,
  )

  -- From a block seen before, the loop ends with one.
  lightest-some :
      (best : Block) (bs : List Block)
      → 0 < best.remaining_size
      → IsNumber (weigh best)
      → Weighed bs
      → (m : Block) × (lightest pacing_rate rtt current_time (some best) bs ≡ some m)
        × IsNumber (weigh m)
        × (0 < m.remaining_size)
        × Wins m bs (some best)
  unfolding lightest
  lightest-some best [] p n w = (best, refl, n, p, (tt, NoWorse-refl best n, inl refl))
  lightest-some best (b ∷ bs) p n w =
      elim (Bool-cases (ltb 0 b.remaining_size && better pacing_rate rtt current_time b best)) [
        | inl e ↦
            let (m, run, nm, pm, win) = lightest-some b bs (ground (arith, e)) w.0 w.1 in
            let b_best = better-NoWorse b best (ground (arith, e)) in
            rw e (
              m,
              run,
              nm,
              pm,
              ((inr win.1, win.0), NoWorse-trans m b best nm w.0 n win.1 b_best, inr win.2),
            )
        | inr e ↦
            let (m, run, nm, pm, win) = lightest-some best bs p n w.1 in
            let b_out : (b.remaining_size ≡ 0)
                ⊎ (better pacing_rate rtt current_time b best ≡ false) =
              ground (arith, e) in
            rw e (
              m,
              run,
              nm,
              pm,
              (
                (
                  elim b_out [
                    | inl z ↦ inl z
                    | inr k ↦ inr (NoWorse-trans m best b nm n w.0 win.1 (worse-NoWorse b best k))
                  ],
                  win.0,
                ),
                win.1,
                elim win.2 [ inl s ↦ inl s | inr h ↦ inr (inr h) ],
              ),
            )
      ]

  -- How `select_dtp` ends: with a best block of the list, where some block has data left; with the
  -- last block chosen otherwise, and a panic if there was none.
  abbrev pub Chooses : List Block → DtpScheduler → Result (ℕ × DtpScheduler) → Type 0
  Chooses bs s (ok (id, s')) =
      ((m : Block) × (0 < m.remaining_size)
        × Best m bs
        × IsIn m bs
        × (m.block_id ≡ id)
        × (s'.last_block_id ≡ some id)
        × (s'.ddl ≡ m.block_deadline)
        × (s'.size ≡ m.remaining_size)
        × (s'.prio ≡ m.block_priority))
      ⊎ (AllSent bs × (s.last_block_id ≡ some id) × (s'.last_block_id ≡ some id))
  Chooses bs s (err e) = ⊥
  Chooses bs s panic = AllSent bs × (s.last_block_id ≡ none)

  lightest-none :
      (bs : List Block)
      → Weighed bs
      → ((lightest pacing_rate rtt current_time none bs ≡ none) × AllSent bs)
        ⊎ ((m : Block) × (lightest pacing_rate rtt current_time none bs ≡ some m)
            × (0 < m.remaining_size)
            × Best m bs
            × IsIn m bs)
  unfolding lightest
  lightest-none [] w = inl (refl, tt)
  lightest-none (b ∷ bs) w = elim (Bool-cases (ltb 0 b.remaining_size)) [
    | inl e ↦
        let (m, run, nm, pm, win) = lightest-some b bs (ground (arith, e)) w.0 w.1 in
        rw e (inr (m, run, pm, (inr win.1, win.0), win.2))
    | inr e ↦
        let z : b.remaining_size ≡ 0 = ground (arith, e) in
        rw e (elim (lightest-none bs w.1) [
          | inl (run, all) ↦ inl (run, (z, all))
          | inr (m, run, pm, best, has) ↦ inr (m, run, pm, (inl z, best), inr has)
        ])
  ]

  -- Where no weight is NaN and other numbers compare as IEEE 754 says, `select_dtp` chooses a
  -- block of the list with data left that is no heavier than any other with data left and, among those of its
  -- weight, has no more left to send; it remembers the choice. Where all is sent it repeats the
  -- last choice, and panics if there was none.
  pub select_dtp-Chooses :
      (bs : List Block) (s : DtpScheduler)
      → Weighed bs
      → Chooses bs s (select_dtp pacing_rate rtt current_time bs s)
  unfolding select_dtp
  select_dtp-Chooses bs s w = elim (lightest-none bs w) [
    | inr (m, run, pm, best, has) ↦
        rw (run, Chooses) (inl (m, pm, best, has, refl, refl, refl, refl, refl))
    | inl (run, all) ↦ rw (run, Chooses) (go all s.last_block_id refl)
  ]
    where
      go :
          AllSent bs
          → (r : Option ℕ) → s.last_block_id ≡ r
          → Chooses bs s (elim r [
            | none ↦ panic
            | some id ↦ ok (id, record s { ddl = 0; size = 0; prio = 0 })
          ])
      go all none e = (all, e)
      go all (some id) e = inr (all, e, e)
