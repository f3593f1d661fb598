-- ===== src/Scheduler/Tests.antt =====
-- Runs of the schedulers, and their theorems on them. Whole numbers stand for the floating point ones.
use dtp.Base.{
  ℕ, ◌+◌, ◌-◌, ◌*◌, ◌/◌, ◌≡◌, refl, min, true, false, some, List, [], ◌∷◌, ltb, ◌==◌, ok, arith,
}
use dtp.Base.Floats.{F64, IsOrdered}
use dtp.Scheduler.{Block}
use dtp.Scheduler.Dtp.{
  new_dtp, select_dtp, lightest, consider, better, weight, remaining_time_weight, remaining_time,
}
use dtp.Scheduler.Dtp.Choice.{Chooses, select_dtp-Chooses}

abbrev whole : F64 ℕ
whole = record {
  from_u64 = λ n. n;
  half = 1;
  add = λ a b. a + b;
  sub = λ a b. a - b;
  mul = λ a b. a * b;
  div = λ a b. a / b;
  neg = λ a. a;
  min_of = min;
  gt = λ a b. ltb b a;
  eq = λ a b. a == b;
}

not_gt_trans : (x y z : ℕ) → ltb y x ≡ false → ltb z y ≡ false → ltb z x ≡ false
not_gt_trans x y z p q = ground (arith, p, q)

eq_refl : (x : ℕ) → (x == x) ≡ true
eq_refl x = ground arith

gt_asym : (x y : ℕ) → ltb y x ≡ true → ltb x y ≡ false
gt_asym x y p = ground (arith, p)

eq_sym : (x y : ℕ) → (x == y) ≡ true → (y == x) ≡ true
eq_sym x y p = ground (arith, p)

eq_not_gt : (x y : ℕ) → (x == y) ≡ true → ltb y x ≡ false
eq_not_gt x y p = ground (arith, p)

eq_of_not_gt : (x y : ℕ) → ltb y x ≡ false → ltb x y ≡ false → (x == y) ≡ true
eq_of_not_gt x y p q = ground (arith, p, q)

whole-IsOrdered : IsOrdered ℕ ⦃f = whole⦄
whole-IsOrdered = record {
  gt_asym = gt_asym;
  not_gt_trans = λ x y z a b c. not_gt_trans x y z;
  eq_sym = eq_sym;
  eq_not_gt = eq_not_gt;
  eq_of_not_gt = λ x y a b. eq_of_not_gt x y;
}

abbrev block : ℕ → ℕ → ℕ → Block
block id priority left = record {
  block_id = id;
  block_deadline = 200;
  block_priority = priority;
  block_create_time = 0;
  block_size = 10;
  remaining_size = left;
}

abbrev blocks : List Block
blocks = block 4 2 10 ∷ block 8 0 10 ∷ block 12 1 0 ∷ []

select_dtp-Chooses_example :
    Chooses ⦃f = whole⦄ whole-IsOrdered 3 20 100 blocks new_dtp
      (select_dtp ⦃f = whole⦄ 3 20 100 blocks new_dtp)
select_dtp-Chooses_example =
    select_dtp-Chooses ⦃f = whole⦄ whole-IsOrdered 3 20 100 blocks new_dtp
      (eq_refl _, (eq_refl _, (eq_refl _, tt)))

-- The more urgent of two blocks of the same deadline and size.
select_dtp_runs :
    select_dtp ⦃f = whole⦄ 3 20 100 blocks new_dtp
    ≡ ok (8, record { ddl = 200; size = 10; prio = 0; last_block_id = some 8 })
unfolding select_dtp lightest consider better weight remaining_time_weight remaining_time
select_dtp_runs = refl
