-- ===== src/Ranges/Largest.antt =====
-- The greatest number of a set, and sets that are one range.
use dtp.Base.{ℕ, ◌-◌, ◌≤◌, ◌<◌, ◌^◌, ◌≡◌, inl, inr, refl, ◌∙◌, [], ◌∷◌, some, arith}
use native.Mathlib.Nat.{le_refl}
use dtp.Ranges.{Range, RangeSet, last?, largest}
use dtp.Ranges.Insert.{IsSeparated, Holds}

-- Every entry holds a number, and ends within a u64.
abbrev pub IsFull : RangeSet → Type 0
IsFull [] = Unit {0}
IsFull (r ∷ m) = (r.0 < r.1) × (r.1 < 2 ^ 64) × IsFull m

pub last?-cons : (q p : Range) (m : RangeSet) → last? (q ∷ p ∷ m) ≡ last? (p ∷ m)
unfolding last?
last?-cons q p m = ground arith

-- The numbers of the last entry are the set's, and none of the set lies beyond its end.
last?_lem :
    (m : RangeSet) (r : Range)
    → IsSeparated m
    → IsFull m
    → last? m ≡ some r
    → (r.0 < r.1)
      × (r.1 < 2 ^ 64)
      × ((x : ℕ) → r.0 ≤ x → x < r.1 → Holds x m)
      × ((y : ℕ) → Holds y m → y < r.1)
last?_lem [] r sep full e = unfold last? in cc
last?_lem (q ∷ []) r sep full e =
    unfold last? in (ground arith, ground arith, λ x lo hi. inl (ground arith), λ y h. ground arith)
last?_lem (q ∷ p ∷ m) r sep full e =
    let (low, high, inside, bound) =
      last?_lem (p ∷ m) r sep.2 full.2 (rw (last?-cons q p m) at e) in
    (
      low,
      high,
      λ x lo hi. inr (inside x lo hi),
      λ y h. elim h [
        | inl k ↦ omega (arith, bound p.0 (inl (le_refl p.0, full.2.0)))
        | inr k ↦ bound y k
      ],
    )

pub last?-some : (r : Range) (m : RangeSet) → (q : Range) × (last? (r ∷ m) ≡ some q)
unfolding last?
last?-some r [] = (r, refl)
last?-some r (p ∷ m) = let (q, e) = last?-some p m in (q, last?-cons r p m ∙ e)

largest_last :
    (m : RangeSet) (r : Range)
    → last? m ≡ some r
    → 0 < r.1
    → r.1 < 2 ^ 64
    → largest m ≡ some (r.1 - 1)
unfolding largest
largest_last m r e h b = ground (arith, e)

-- Where a separated set of nonempty ranges below 2 ^ 64 holds a number, `largest` returns one that it holds too and that is no less.
pub largest_lem :
    (m : RangeSet) (y : ℕ)
    → IsSeparated m
    → IsFull m
    → Holds y m
    → (x : ℕ) × (largest m ≡ some x) × Holds x m × (y ≤ x)
largest_lem [] y sep full h = absurd h
largest_lem (q ∷ m) y sep full h =
    let (r, e) = last?-some q m in
    let (low, high, inside, bound) = last?_lem (q ∷ m) r sep full e in
    (
      r.1 - 1,
      largest_last (q ∷ m) r e (omega arith) high,
      inside (r.1 - 1) (omega arith) (omega arith),
      omega (arith, bound y h),
    )
