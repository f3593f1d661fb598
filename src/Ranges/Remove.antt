-- ===== src/Ranges/Remove.antt =====
-- `RangeSet::remove_until` against a cut by one pass over the list.
use dtp.Base.{
  ℕ, ◌+◌, ◌%◌, ◌^◌, ◌≤◌, ◌<◌, ◌≡◌, inl, inr, refl, ◌↔◌, [], ◌∷◌, ltb, leb, if◌then◌else◌, arith,
}
use dtp.Ranges.{Range, RangeSet, map_remove, range_to, remove_each, remove_until}
use dtp.Ranges.Insert.{Above, IsSeparated, Holds, add, insert-eq-add, Above-trans}

-- The reference: what is left of each entry beyond `largest`.
unfoldable pub cut : ℕ → RangeSet → RangeSet
cut k [] = []
cut k ((a, b) ∷ m) =
    let rest = cut k m in
    if leb a k then (if ltb (k + 1) b then (k + 1, b) ∷ m else rest) else (a, b) ∷ m

range_to-Above : (k : ℕ) (m : RangeSet) → Above k m → range_to k m ≡ []
unfolding range_to
range_to-Above k [] h = refl
range_to-Above k (q ∷ m) h = ground arith

map_remove_front : (q : Range) (m : RangeSet) → map_remove q.0 (q ∷ m) ≡ m
unfolding map_remove
map_remove_front q m = ground arith

add_front : (s e : ℕ) (m : RangeSet) → s ≤ e → Above e m → IsSeparated m → add s e m ≡ (s, e) ∷ m
unfolding add
add_front s e [] h p sep = refl
add_front s e (q ∷ m) h p sep = ground arith

remove_each-cut :
    (k : ℕ) (m : RangeSet)
    → k + 1 < 2 ^ 64
    → IsSeparated m
    → remove_each k (range_to k m) m ≡ cut k m
unfolding remove_each range_to cut
remove_each-cut k [] b sep = refl
remove_each-cut k (q ∷ m) b sep = ground (
  arith,
  next,
  map_remove_front q m,
  insert-eq-add (k + 1, q.1) m,
  add_front (k + 1) q.1 m,
  range_to-Above k m,
  Above-trans k q.1 m,
  remove_each-cut k m b sep.2,
)
  where
    next : (k + 1) % 2 ^ 64 ≡ k + 1
    next = omega arith

cut-Above : (x k : ℕ) (m : RangeSet) → Above x m → Above x (cut k m)
unfolding cut
cut-Above x k [] p = tt
cut-Above x k (q ∷ m) p = ground (arith, cut-Above x k m p.1)

cut-IsSeparated : (k : ℕ) (m : RangeSet) → IsSeparated m → IsSeparated (cut k m)
unfolding cut
cut-IsSeparated k [] sep = tt
cut-IsSeparated k (q ∷ m) sep = ground (arith, cut-IsSeparated k m sep.2)

Holds-Above : (x y : ℕ) (m : RangeSet) → Above y m → Holds x m → y < x
Holds-Above x y [] p h = absurd h
Holds-Above x y (q ∷ m) p (inl h) = omega arith
Holds-Above x y (q ∷ m) p (inr h) = Holds-Above x y m p.1 h

cut-Holds : (x k : ℕ) (m : RangeSet) → IsSeparated m → Holds x (cut k m) ↔ ((k < x) × Holds x m)
unfolding cut
cut-Holds x k [] sep = (λ h. absurd h, λ h. absurd h.1)
cut-Holds x k (q ∷ m) sep = ground (arith, cut-Holds x k m sep.2, Holds-Above x q.1 m sep.1)

-- For a bound below the greatest 64-bit number, `remove_until` keeps a separated set separated, and
-- of its numbers exactly those beyond the bound.
pub remove_until-Holds :
    (x k : ℕ) (m : RangeSet)
    → k + 1 < 2 ^ 64
    → IsSeparated m
    → IsSeparated (remove_until k m) × (Holds x (remove_until k m) ↔ ((k < x) × Holds x m))
unfolding remove_until
remove_until-Holds x k m b sep =
    rw (remove_each-cut k m b sep) (cut-IsSeparated k m sep, cut-Holds x k m sep)
