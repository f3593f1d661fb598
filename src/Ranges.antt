-- ===== src/Ranges.antt =====
-- src/ranges.rs: `RangeSet`, a set of numbers as ranges by their starts. The `BTreeMap` inside is
-- the list of its entries in ascending order of their keys.
pub mod Insert
pub mod Remove
pub mod Largest
pub mod Descend
mod Tests
use dtp.Base.{
  ℕ, zero, suc, ◌+◌, ◌-◌, ◌%◌, ◌^◌, min, max, Bool, true, false, ◌&&◌, ◌||◌, Option, none, some,
  List, [], ◌∷◌, ltb, leb, ◌==◌, if◌then◌else◌, length, not,
}
use mathlib.Core.List.{reverse}

-- `Range<u64>`, from `.0` up to and without `.1`.
abbrev pub Range : Type 0
Range = ℕ × ℕ

abbrev pub RangeSet : Type 0
RangeSet = List Range

-- `BTreeMap::insert` and `BTreeMap::remove`
unfoldable pub map_insert : ℕ → ℕ → RangeSet → RangeSet
map_insert k v [] = (k, v) ∷ []
map_insert k v ((j, w) ∷ m) =
    if ltb k j
    then (k, v) ∷ (j, w) ∷ m
    else if k == j
    then (k, v) ∷ m
    else (j, w) ∷ map_insert k v m

unfoldable pub map_remove : ℕ → RangeSet → RangeSet
map_remove k [] = []
map_remove k ((j, w) ∷ m) = if k == j then m else (j, w) ∷ map_remove k m

-- `BTreeMap::range` up to and with a key, and the last entry of a map.
unfoldable pub range_to : ℕ → RangeSet → RangeSet
range_to k [] = []
range_to k ((j, w) ∷ m) = if leb j k then (j, w) ∷ range_to k m else []

unfoldable pub last? : RangeSet → Option Range
last? [] = none
last? (r ∷ m) = elim (last? m) [ none ↦ some r | some q ↦ some q ]

-- `Range::contains`
abbrev pub contains : Range → ℕ → Bool
contains r x = leb r.0 x && ltb x r.1

unfoldable pub range_overlaps : Range → Range → Bool
range_overlaps r other =
    (leb r.0 other.0 && leb other.0 r.1) || (leb r.0 other.1 && leb other.1 r.1)

unfoldable pub prev_to : ℕ → RangeSet → Option Range
unfolding range_to last?
prev_to item m = last? (range_to item m)

unfoldable pub next_to : ℕ → RangeSet → Option Range
next_to item [] = none
next_to item ((j, w) ∷ m) = if leb item j then some (j, w) else next_to item m

-- The `while let` loop of `insert` and the insertion behind it, on fuel. Each round but the last
-- removes an entry.
unfoldable pub insert_loop : ℕ → ℕ → ℕ → Range → RangeSet → RangeSet
insert_loop zero start end item m = map_insert start end m
insert_loop (suc fuel) start end item m = elim (next_to start m) [
  | none ↦ map_insert start end m
  | some r ↦
      let without = map_remove r.0 m in
      let drop_it = insert_loop fuel start end item without in
      let merge = insert_loop fuel (min start r.0) (max end r.1) item without in
      if contains item r.0 && contains item r.1
      then drop_it
      else if not (range_overlaps r item)
      then map_insert start end m
      else merge
]

-- `RangeSet::insert`, at a given fuel: the merge with the preceding range, then the loop.
unfoldable pub insert_with : ℕ → Range → RangeSet → RangeSet
insert_with fuel item m = elim (prev_to item.0 m) [
  | none ↦ insert_loop fuel item.0 item.1 item m
  | some r ↦
      if range_overlaps r item
      then insert_loop fuel (min item.0 r.0) (max item.1 r.1) item (map_remove r.0 m)
      else insert_loop fuel item.0 item.1 item m
]

unfoldable pub insert : Range → RangeSet → RangeSet
unfolding insert_with insert_loop prev_to next_to range_overlaps map_remove map_insert
insert item m = insert_with (suc (length m)) item m

-- The `for` loop of `remove_until`, over the entries that start at `largest` or before. The sum, a
-- u64, wraps around.
unfoldable pub remove_each : ℕ → List Range → RangeSet → RangeSet
remove_each largest [] m = m
remove_each largest (r ∷ rs) m =
    let rest = map_remove r.0 m in
    let start = (largest + 1) % 2 ^ 64 in
    remove_each largest rs (if ltb start r.1 then insert (start, r.1) rest else rest)

unfoldable pub remove_until : ℕ → RangeSet → RangeSet
unfolding remove_each range_to insert
remove_until largest m = remove_each largest (range_to largest m) m

unfoldable pub push_item : ℕ → RangeSet → RangeSet
unfolding insert
push_item item m = insert (item, (item + 1) % 2 ^ 64) m

-- `Flatten`, the iterator over the numbers of the set.
pub record Flatten : Type 0 where
  pub inner : RangeSet
  pub next : ℕ
  pub end : ℕ

unfoldable pub flatten : RangeSet → Flatten
flatten m = record { inner = m; next = 0; end = 0 }

unfoldable pub flatten_next : Flatten → Option (ℕ × Flatten)
flatten_next f =
    if f.next == f.end
    then elim f.inner [
      | [] ↦ none
      | (start, end) ∷ m ↦ some (start, record { inner = m; next = start + 1; end = end })
    ]
    else some (f.next, record f { next = f.next + 1 })

-- All but the last entry, which `next_back` of the map's iterator takes away.
unfoldable pub init : RangeSet → RangeSet
init [] = []
init (r ∷ []) = []
init (r ∷ s ∷ m) = r ∷ init (s ∷ m)

-- `self.end -= 1` on a u64.
unfoldable pub flatten_next_back : Flatten → Option (ℕ × Flatten)
unfolding last? init
flatten_next_back f =
    if f.next == f.end
    then elim (last? f.inner) [
      | none ↦ none
      | some (start, end) ↦
          let e : ℕ = (end + 2 ^ 64 - 1) % 2 ^ 64 in
          some (e, record { inner = init f.inner; next = start; end = e })
    ]
    else let e : ℕ = (f.end + 2 ^ 64 - 1) % 2 ^ 64 in some (e, record f { end = e })

unfoldable pub largest : RangeSet → Option ℕ
unfolding flatten flatten_next_back
largest m = elim (flatten_next_back (flatten m)) [ none ↦ none | some (x, _) ↦ some x ]

-- `PartialEq<Range<u64>>`: the set is the one range.
unfoldable pub equals_range : RangeSet → Range → Bool
equals_range [] other = false
equals_range (r ∷ []) other = r.0 == other.0 && r.1 == other.1
equals_range (r ∷ s ∷ m) other = false
