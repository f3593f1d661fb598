-- ===== src/Ranges/Insert.antt =====
-- `RangeSet::insert` against a merge by one pass over the list.
use dtp.Base.{
  ℕ, zero, suc, ◌≤◌, ◌<◌, ◌≡◌, ◌⊎◌, inl, inr, refl, ap, sym, ◌↔◌, ◌∙◌, min, max, subst, none, some,
  [], ◌∷◌, ltb, if◌then◌else◌, length, arith, Option-cases,
}
use dtp.Ranges.{
  Range, RangeSet, map_insert, map_remove, range_overlaps, prev_to, next_to, insert_loop,
  insert_with, insert,
}
use native.Mathlib.Decide.{dec_le}

-- Every entry starts beyond `x`.
abbrev pub Above : ℕ → RangeSet → Type 0
Above x [] = Unit {0}
Above x (r ∷ m) = (x < r.0) × Above x m

-- Entries stand in order, do not overlap and do not touch.
abbrev pub IsSeparated : RangeSet → Type 0
IsSeparated [] = Unit {0}
IsSeparated (r ∷ m) = (r.0 ≤ r.1) × Above r.1 m × IsSeparated m

-- The numbers of the set.
abbrev pub Holds : ℕ → RangeSet → Type 0
Holds x [] = ⊥
Holds x (r ∷ m) = ((r.0 ≤ x) × (x < r.1)) ⊎ Holds x m

-- The reference: one pass that merges what overlaps or touches.
unfoldable pub add : ℕ → ℕ → RangeSet → RangeSet
add s e [] = (s, e) ∷ []
add s e ((a, b) ∷ m) =
    let later = (a, b) ∷ add s e m in
    let merged = add (min s a) (max e b) m in
    if ltb b s then later else if ltb e a then (s, e) ∷ (a, b) ∷ m else merged

pub Above-trans : (x y : ℕ) (m : RangeSet) → x ≤ y → Above y m → Above x m
Above-trans x y [] h p = tt
Above-trans x y (r ∷ m) h p = (omega arith, Above-trans x y m h p.1)

next_to-ge : (x : ℕ) (m : RangeSet) (r : Range) → next_to x m ≡ some r → x ≤ r.0
unfolding next_to
next_to-ge x [] r h = cc
next_to-ge x (q ∷ m) r h = ground (arith, next_to-ge x m r)

prev_to-Above : (x s : ℕ) (m : RangeSet) (r : Range) → Above x m → prev_to s m ≡ some r → x < r.0
unfolding prev_to
prev_to-Above x s [] r p h = cc
prev_to-Above x s (q ∷ m) r p h = ground (arith, prev_to-Above x s m r p.1)

prev_to-cons :
    (s : ℕ) (q : Range) (m : RangeSet)
    → q.0 ≤ s
    → prev_to s (q ∷ m) ≡ elim (prev_to s m) [ none ↦ some q | some r ↦ some r ]
unfolding prev_to
prev_to-cons s q m h = ground arith

prev_to-none : (s : ℕ) (q : Range) (m : RangeSet) → s < q.0 → prev_to s (q ∷ m) ≡ none
unfolding prev_to
prev_to-none s q m h = ground arith

prev_to-Above-none : (x s : ℕ) (m : RangeSet) → s ≤ x → Above x m → prev_to s m ≡ none
unfolding prev_to
prev_to-Above-none x s [] h p = refl
prev_to-Above-none x s (q ∷ m) h p = ground arith

-- An entry before the start is passed over.
next_to-cons : (x : ℕ) (q : Range) (m : RangeSet) → q.0 < x → next_to x (q ∷ m) ≡ next_to x m
unfolding next_to
next_to-cons x q m h = ground arith

map_insert-cons :
    (k v : ℕ) (q : Range) (m : RangeSet) → q.0 < k → map_insert k v (q ∷ m) ≡ q ∷ map_insert k v m
unfolding map_insert
map_insert-cons k v q m h = ground arith

map_remove-cons :
    (k : ℕ) (q : Range) (m : RangeSet) → q.0 < k → map_remove k (q ∷ m) ≡ q ∷ map_remove k m
unfolding map_remove
map_remove-cons k q m h = ground arith

map_remove_head : (q : Range) (m : RangeSet) → map_remove q.0 (q ∷ m) ≡ m
unfolding map_remove
map_remove_head q m = ground arith

map_insert_front : (k v : ℕ) (m : RangeSet) → Above k m → map_insert k v m ≡ (k, v) ∷ m
unfolding map_insert
map_insert_front k v [] h = refl
map_insert_front k v (q ∷ m) h = ground arith

insert_loop-cons :
    (fuel start end : ℕ) (item q : Range) (m : RangeSet)
    → q.0 < start
    → insert_loop fuel start end item (q ∷ m) ≡ q ∷ insert_loop fuel start end item m
unfolding insert_loop
insert_loop-cons zero start end item q m h = map_insert-cons start end q m h
insert_loop-cons (suc fuel) start end item q m h = elim (Option-cases (next_to start m)) [
  | inl e ↦ ground (arith, e, next_to-cons start q m h, map_insert-cons start end q m h)
  | inr (r, e) ↦ ground (
    arith,
    e,
    next_to-cons start q m h,
    next_to-ge start m r e,
    map_insert-cons start end q m h,
    map_remove-cons r.0 q m,
    insert_loop-cons fuel start end item q (map_remove r.0 m) h,
    insert_loop-cons fuel (min start r.0) (max end r.1) item q (map_remove r.0 m),
  )
]

next_to_head : (x : ℕ) (q : Range) (m : RangeSet) → x ≤ q.0 → next_to x (q ∷ m) ≡ some q
unfolding next_to
next_to_head x q m h = ground arith

-- The end so far is the item's, or an earlier entry's and then below all that follow.
abbrev IsEnd : ℕ → ℕ → RangeSet → Type 0
IsEnd e end m = (e ≡ end) ⊎ Above end m

IsEnd-max :
    (e end : ℕ) (q : Range) (m : RangeSet)
    → IsEnd e end (q ∷ m)
    → Above q.1 m
    → IsEnd e (max end q.1) m
IsEnd-max e end q m h p = elim (dec_le end q.1) [
  | yes a ↦ inr (subst (λ x. Above x m) (omega arith) p)
  | no a ↦
      let same : end ≡ max end q.1 = omega arith in
      elim h [ inl k ↦ inl (k ∙ same) | inr k ↦ inr (subst (λ x. Above x m) same k.1) ]
]

IsEnd-tail : (e end : ℕ) (q : Range) (m : RangeSet) → IsEnd e end (q ∷ m) → IsEnd e end m
IsEnd-tail e end q m h = elim h [ inl k ↦ inl k | inr k ↦ inr k.1 ]

-- Once merged up to `start`, the loop and the reference agree on what comes after.
insert_loop-add :
    (fuel start end : ℕ) (item : Range) (m : RangeSet)
    → length m < fuel
    → start ≤ item.0
    → item.0 ≤ item.1
    → item.1 ≤ end
    → IsEnd item.1 end m
    → Above item.0 m
    → IsSeparated m
    → insert_loop fuel start end item m ≡ add start end m
unfolding insert_loop add range_overlaps
insert_loop-add zero start end item m hf hs hi he hm ha sep = absurd (omega arith)
insert_loop-add (suc fuel) start end item [] hf hs hi he hm ha sep =
    unfold next_to map_insert in refl
insert_loop-add (suc fuel) start end item (q ∷ m) hf hs hi he hm ha sep = ground (
  arith,
  next_to_head start q m,
  map_remove_head q m,
  map_insert_front start end (q ∷ m) (omega arith, Above-trans start item.0 m hs ha.1),
  IsEnd-max item.1 end q m hm sep.1,
  insert_loop-add fuel start end item m (omega arith) hs hi he (IsEnd-tail item.1 end q m hm) ha.1
      sep.2,
  insert_loop-add fuel (min start q.0) (max end q.1) item m (omega arith) (omega arith) hi
      (omega arith) (IsEnd-max item.1 end q m hm sep.1) ha.1 sep.2,
)

-- An entry that ends before the item is kept as it is.
insert_with-cons :
    (fuel : ℕ) (item q : Range) (m : RangeSet)
    → item.0 ≤ item.1
    → q.0 ≤ q.1
    → q.1 < item.0
    → Above q.1 m
    → insert_with fuel item (q ∷ m) ≡ q ∷ insert_with fuel item m
unfolding insert_with range_overlaps
insert_with-cons fuel item q m hi hq h p = elim (Option-cases (prev_to item.0 m)) [
  | inl e ↦ ground (arith, e, prev_to-cons item.0 q m, insert_loop-cons fuel item.0 item.1 item q m)
  | inr (r, e) ↦ ground (
    arith,
    e,
    prev_to-cons item.0 q m,
    prev_to-Above q.1 item.0 m r p e,
    map_remove-cons r.0 q m,
    insert_loop-cons fuel item.0 item.1 item q m,
    insert_loop-cons fuel (min item.0 r.0) (max item.1 r.1) item q (map_remove r.0 m),
  )
]

add-cons : (s e : ℕ) (q : Range) (m : RangeSet) → q.1 < s → add s e (q ∷ m) ≡ q ∷ add s e m
unfolding add
add-cons s e q m h = ground arith

insert_with-add :
    (fuel : ℕ) (item : Range) (m : RangeSet)
    → length m < fuel
    → item.0 ≤ item.1
    → IsSeparated m
    → insert_with fuel item m ≡ add item.0 item.1 m
insert_with-add fuel item [] hf hi sep =
    unfold insert_with prev_to in
    insert_loop-add fuel item.0 item.1 item [] hf (omega arith) hi (omega arith) (inl refl) tt tt
insert_with-add fuel item (q ∷ m) hf hi sep = elim (dec_le q.0 item.0) [
  | no before ↦
      unfold insert_with in
      ground (
        arith,
        prev_to-none item.0 q m (omega arith),
        insert_loop-add fuel item.0 item.1 item (q ∷ m) hf (omega arith) hi (omega arith) (inl refl)
            (omega arith, Above-trans item.0 q.1 m (omega arith) sep.1) sep,
      )
  | yes after ↦ elim (dec_le item.0 q.1) [
    | yes meets ↦
        unfold insert_with add range_overlaps in
        ground (
          arith,
          prev_to-cons item.0 q m after,
          prev_to-Above-none q.1 item.0 m meets sep.1,
          map_remove_head q m,
          insert_loop-add fuel (min item.0 q.0) (max item.1 q.1) item m (omega arith) (omega arith)
              hi (omega arith) (IsEnd-max item.1 item.1 q m (inl refl) sep.1)
              (Above-trans item.0 q.1 m meets sep.1) sep.2,
        )
    | no past ↦
        insert_with-cons fuel item q m hi sep.0 (omega arith) sep.1
        ∙ ap (λ t. q ∷ t) (insert_with-add fuel item m (omega arith) hi sep.2)
        ∙ sym (add-cons item.0 item.1 q m (omega arith))
  ]
]

-- On a separated set `insert` of a range whose start is not past its end is the merge by one pass.
pub insert-eq-add :
    (item : Range) (m : RangeSet)
    → item.0 ≤ item.1
    → IsSeparated m
    → insert item m ≡ add item.0 item.1 m
unfolding insert
insert-eq-add item m hi sep = insert_with-add (suc (length m)) item m (omega arith) hi sep

add-Above : (x s e : ℕ) (m : RangeSet) → x < s → Above x m → Above x (add s e m)
unfolding add
add-Above x s e [] h p = omega arith
add-Above x s e (q ∷ m) h p =
    ground (arith, add-Above x s e m h p.1, add-Above x (min s q.0) (max e q.1) m)

add-IsSeparated : (s e : ℕ) (m : RangeSet) → s ≤ e → IsSeparated m → IsSeparated (add s e m)
unfolding add
add-IsSeparated s e [] h sep = omega arith
add-IsSeparated s e (q ∷ m) h sep = ground (
  arith,
  add-IsSeparated s e m h sep.2,
  add-Above q.1 s e m,
  Above-trans e q.1 m,
  add-IsSeparated (min s q.0) (max e q.1) m (omega arith) sep.2,
)

add-Holds :
    (x s e : ℕ) (m : RangeSet)
    → s ≤ e
    → IsSeparated m
    → Holds x (add s e m) ↔ (((s ≤ x) × (x < e)) ⊎ Holds x m)
unfolding add
add-Holds x s e [] h sep = (λ p. p, λ p. p)
add-Holds x s e (q ∷ m) h sep =
    ground (arith, add-Holds x s e m h sep.2, add-Holds x (min s q.0) (max e q.1) m)

-- Inserting a range whose start is not past its end keeps a separated set separated.
pub insert-IsSeparated :
    (item : Range) (m : RangeSet) → item.0 ≤ item.1 → IsSeparated m → IsSeparated (insert item m)
insert-IsSeparated item m h sep =
    rw (insert-eq-add item m h sep) (add-IsSeparated item.0 item.1 m h sep)

-- After inserting a range whose start is not past its end, a separated set holds exactly what it held and the numbers of the range.
pub insert-Holds :
    (x : ℕ) (item : Range) (m : RangeSet)
    → item.0 ≤ item.1
    → IsSeparated m
    → Holds x (insert item m) ↔ (((item.0 ≤ x) × (x < item.1)) ⊎ Holds x m)
insert-Holds x item m h sep = rw (insert-eq-add item m h sep) (add-Holds x item.0 item.1 m h sep)
