-- ===== src/Ranges/Tests.antt =====
-- Runs of the range set, on the inputs of the tests in src/ranges.rs, and its theorems there.
use dtp.Base.{ℕ, ◌-◌, ◌^◌, ◌≤◌, ◌<◌, ◌≡◌, ◌⊎◌, ◌↔◌, refl, some, [], ◌∷◌, arith}
use dtp.Ranges.{RangeSet, insert, remove_until, largest}
use dtp.Ranges.Insert.{IsSeparated, Holds, add, insert-eq-add, insert-Holds}
use dtp.Ranges.Remove.{remove_until-Holds}
use dtp.Ranges.Largest.{IsFull, largest_lem}

abbrev three : RangeSet
three = (2, 5) ∷ (7, 9) ∷ (12, 20) ∷ []

three-IsSeparated : IsSeparated three
three-IsSeparated = ground arith

three-IsFull : IsFull three
three-IsFull = ground arith

insert-three : insert (4, 13) three ≡ (2, 20) ∷ []
unfolding insert
insert-three = refl

insert-eq-add_example : insert (4, 8) three ≡ add 4 8 three
insert-eq-add_example = insert-eq-add (4, 8) three (ground arith) three-IsSeparated

insert-Holds_example : Holds 6 (insert (4, 8) three) ↔ (((4 ≤ 6) × (6 < 8)) ⊎ Holds 6 three)
insert-Holds_example = insert-Holds 6 (4, 8) three (ground arith) three-IsSeparated

remove_until-Holds_example :
    IsSeparated (remove_until 8 three)
    × (Holds 14 (remove_until 8 three) ↔ ((8 < 14) × Holds 14 three))
remove_until-Holds_example = remove_until-Holds 14 8 three (omega arith) three-IsSeparated

-- At the greatest 64-bit number the next one is 0, and the set is inserted anew from there.
remove_until_wraps : remove_until (2 ^ 64 - 1) ((2, 5) ∷ []) ≡ (0, 5) ∷ []
unfolding remove_until
remove_until_wraps = refl

largest_lem_example : (x : ℕ) × (largest three ≡ some x) × Holds x three × (8 ≤ x)
largest_lem_example = largest_lem three 8 three-IsSeparated three-IsFull (ground arith)
