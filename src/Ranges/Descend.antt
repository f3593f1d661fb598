-- ===== src/Ranges/Descend.antt =====
-- The iterator over the numbers of a set from its end: it gives each number once, the greatest first.
use dtp.Base.{
  ℕ, suc, ◌+◌, ◌-◌, ◌≤◌, ◌<◌, ◌^◌, ◌%◌, subst, Option-cases, ◌≡◌, ◌⊎◌, inl, inr, refl, Option, none,
  some, [], ◌∷◌, ◌==◌, arith, Bool-cases,
}
use dtp.Ranges.{Range, RangeSet, last?, init, Flatten, flatten, flatten_next_back}
use dtp.Ranges.Insert.{Above, IsSeparated, Holds}
use dtp.Ranges.Largest.{IsFull, last?-cons, last?-some}

-- How many numbers a set holds.
unfoldable pub total : RangeSet → ℕ
total [] = 0
total (r ∷ m) = (r.1 - r.0) + total m

abbrev pub Left : ℕ → Flatten → Type 0
Left x f = ((f.next ≤ x) × (x < f.end)) ⊎ Holds x f.inner

unfoldable pub left : Flatten → ℕ
unfolding total
left f = (f.end - f.next) + total f.inner

-- Between two steps of the iterator.
pub record IsDescending (f : Flatten) : Type 0 where
  pub ordered : f.next ≤ f.end
  pub narrow : f.end < 2 ^ 64
  pub separated : IsSeparated f.inner
  pub full : IsFull f.inner
  pub below : (x : ℕ) → Holds x f.inner → f.next < f.end → x < f.next

-- What is known of the last range of a set and the ranges before it.
pub record Splits (m : RangeSet) (q : Range) : Type 0 where
  pub nonempty : q.0 < q.1
  pub narrow : q.1 < 2 ^ 64
  pub counts : total m ≡ (q.1 - q.0) + total (init m)
  pub separated : IsSeparated (init m)
  pub full : IsFull (init m)
  pub below : (x : ℕ) → Holds x (init m) → x < q.0
  pub inside : (x : ℕ) → Holds x m → ((q.0 ≤ x) × (x < q.1)) ⊎ Holds x (init m)
  pub last : (x : ℕ) → q.0 ≤ x → x < q.1 → Holds x m
  pub before : (x : ℕ) → Holds x (init m) → Holds x m

Above-Holds : (b x : ℕ) (m : RangeSet) → Above b m → Holds x m → b < x
Above-Holds b x [] a h = absurd h
Above-Holds b x (r ∷ m) a (inl k) = omega (arith, a.0, k.0)
Above-Holds b x (r ∷ m) a (inr k) = Above-Holds b x m a.1 k

init-Above : (b : ℕ) (m : RangeSet) → Above b m → Above b (init m)
unfolding init
init-Above b [] a = tt
init-Above b (r ∷ []) a = tt
init-Above b (r ∷ s ∷ m) a = (a.0, init-Above b (s ∷ m) a.1)

last?-one : (r q : Range) → last? (r ∷ []) ≡ some q → r ≡ q
unfolding last?
last?-one r q e = cc

-- The range before the last one and all before it.
cons-Splits :
    (r s q : Range) (m : RangeSet)
    → IsSeparated (r ∷ s ∷ m)
    → IsFull (r ∷ s ∷ m)
    → Splits (s ∷ m) q
    → Splits (r ∷ s ∷ m) q
unfolding init total
cons-Splits r s q m sep full i =
    let c = i.counts in
    let n = i.nonempty in
    let start = Above-Holds r.1 q.0 (s ∷ m) sep.1 (i.last q.0 (omega arith) n) in
    record {
      nonempty = n;
      narrow = i.narrow;
      counts = omega arith;
      separated = (sep.0, init-Above r.1 (s ∷ m) sep.1, i.separated);
      full = (full.0, full.1, i.full);
      below = λ x h. elim h [ inl k ↦ omega (arith, k.1) | inr k ↦ i.below x k ];
      inside = λ x h. elim h [
        | inl k ↦ inr (inl k)
        | inr k ↦ elim (i.inside x k) [ inl l ↦ inl l | inr l ↦ inr (inr l) ]
      ];
      last = λ x lo hi. inr (i.last x lo hi);
      before = λ x h. elim h [ inl k ↦ inl k | inr k ↦ inr (i.before x k) ];
    }

one-Splits : (r : Range) → IsFull (r ∷ []) → Splits (r ∷ []) r
unfolding init total
one-Splits r full = record {
  nonempty = full.0;
  narrow = full.1;
  counts = omega arith;
  separated = tt;
  full = tt;
  below = λ x h. absurd h;
  inside = λ x h. elim h [ inl k ↦ inl k | inr k ↦ absurd k ];
  last = λ x lo hi. inl (lo, hi);
  before = λ x h. absurd h;
}

Splits-last? : (m : RangeSet) (q : Range) → IsSeparated m → IsFull m → last? m ≡ some q → Splits m q
Splits-last? [] q sep full e = unfold last? in cc
Splits-last? (r ∷ []) q sep full e = subst (Splits (r ∷ [])) (last?-one r q e) (one-Splits r full)
Splits-last? (r ∷ s ∷ m) q sep full e =
    cons-Splits r s q m sep full (Splits-last? (s ∷ m) q sep.2 full.2 (rw (last?-cons r s m) at e))

-- What a step of the iterator tells.
abbrev pub Steps : Flatten → Option (ℕ × Flatten) → Type 0
Steps f none = (left f ≡ 0) × ((x : ℕ) → Left x f → ⊥)
Steps f (some (e, f')) =
    IsDescending f'
    × (suc (left f') ≡ left f)
    × Left e f
    × ((x : ℕ) → Left x f → (x ≡ e) ⊎ Left x f')
    × ((x : ℕ) → Left x f' → Left x f × (x < e))

-- Inside a range the iterator gives the number before its end.
within-Steps :
    (f : Flatten)
    → IsDescending f
    → f.next < f.end
    → Steps f (some (f.end - 1, record f { end = f.end - 1 }))
unfolding left
within-Steps f d l =
    let w = d.narrow in
    (
      record {
        ordered = omega arith;
        narrow = omega arith;
        separated = d.separated;
        full = d.full;
        below = λ x h k. d.below x h l;
      },
      omega arith,
      inl (omega arith, omega arith),
      λ x h. elim h [
        | inl k ↦ elim (Bool-cases (x == f.end - 1)) [
          | inl e ↦ inl (ground (arith, e))
          | inr e ↦ inr (inl (k.0, ground (arith, e, k)))
        ]
        | inr k ↦ inr (inr k)
      ],
      λ x h. elim h [
        | inl k ↦ (inl (k.0, omega (arith, k.1)), k.1)
        | inr k ↦ (inr k, omega (arith, d.below x k l))
      ],
    )

-- At the end of a range it goes on with the last of the others.
across-Steps :
    (f : Flatten) (q : Range)
    → IsDescending f
    → f.next ≡ f.end
    → Splits f.inner q
    → Steps f (some (q.1 - 1, record { inner = init f.inner; next = q.0; end = q.1 - 1 }))
unfolding left
across-Steps f q d z i =
    let n = i.nonempty in
    let w = i.narrow in
    let c = i.counts in
    (
      record {
        ordered = omega arith;
        narrow = omega arith;
        separated = i.separated;
        full = i.full;
        below = λ x h k. i.below x h;
      },
      omega arith,
      inr (i.last (q.1 - 1) (omega arith) (omega arith)),
      λ x h. elim h [
        | inl k ↦ absurd (omega (arith, k.0, k.1))
        | inr k ↦ elim (i.inside x k) [
          | inl l ↦ elim (Bool-cases (x == q.1 - 1)) [
            | inl e ↦ inl (ground (arith, e))
            | inr e ↦ inr (inl (l.0, ground (arith, e, l)))
          ]
          | inr l ↦ inr (inr l)
        ]
      ],
      λ x h. elim h [
        | inl k ↦ (inr (i.last x k.0 (omega (arith, k.1))), k.1)
        | inr k ↦ (inr (i.before x k), omega (arith, i.below x k))
      ],
    )

last?-none : (m : RangeSet) → last? m ≡ none → m ≡ []
last?-none [] e = refl
last?-none (r ∷ m) e = let (q, k) = last?-some r m in absurd (cc)

no-Left : (f : Flatten) → f.next ≡ f.end → f.inner ≡ [] → Steps f none
unfolding left total
no-Left f z e = (
  rw (e) (omega arith),
  λ x h. elim h [ inl k ↦ omega (arith, k.0, k.1) | inr k ↦ subst (Holds x) e k ],
)

-- Each step of the iterator from the end gives the greatest number that is left, and leaves the
-- others; it has none exactly if no number is left.
pub flatten_next_back-Steps : (f : Flatten) → IsDescending f → Steps f (flatten_next_back f)
unfolding flatten_next_back
flatten_next_back-Steps f d = elim (Bool-cases (f.next == f.end)) [
  | inl z ↦
      let same : f.next ≡ f.end = ground (arith, z) in
      elim (Option-cases (last? f.inner)) [
        | inl e ↦ rw (flatten_next_back, z, e) (no-Left f same (last?-none f.inner e))
        | inr (q, e) ↦
            let i = Splits-last? f.inner q d.separated d.full e in
            let n = i.nonempty in
            let w = i.narrow in
            let less : (q.1 + 2 ^ 64 - 1) % 2 ^ 64 ≡ q.1 - 1 = omega arith in
            rw (flatten_next_back, z, e, less) (across-Steps f q d same i)
      ]
  | inr z ↦
      let o = d.ordered in
      let w = d.narrow in
      let l : f.next < f.end = ground (arith, z, o) in
      let less : (f.end + 2 ^ 64 - 1) % 2 ^ 64 ≡ f.end - 1 = omega arith in
      rw (flatten_next_back, z, less) (within-Steps f d l)
]

pub flatten-IsDescending : (m : RangeSet) → IsSeparated m → IsFull m → IsDescending (flatten m)
unfolding flatten
flatten-IsDescending m sep full = record {
  ordered = omega arith;
  narrow = omega arith;
  separated = sep;
  full = full;
  below = λ x h k. absurd (omega (arith, k));
}
