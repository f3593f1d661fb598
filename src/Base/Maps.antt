-- ===== src/Base/Maps.antt =====
-- `HashMap<u64, _>` and `HashSet<u64>`: lists of entries and of numbers, in no particular order.
use Prim.Native.Nat.{ℕ, ◌+◌}
use mathlib.Core.Path.{◌≡◌, refl}
use mathlib.Core.Logic.{◌≢◌}
use mathlib.Core.Bool.{Bool, true, false, ◌||◌}
use mathlib.Core.Option.{Option, none, some}
use mathlib.Core.List.{List, [], ◌∷◌, ◌++◌}
use native.Mathlib.Omega.{arith}
use dtp.Base.Tests.{◌==◌, if◌then◌else◌}

module _ {A : Type 0} where
  unfoldable pub lookup : ℕ → List (ℕ × A) → Option A
  lookup k [] = none
  lookup k (e ∷ m) = if e.0 == k then some e.1 else lookup k m

  unfoldable pub update : ℕ → A → List (ℕ × A) → List (ℕ × A)
  update k v [] = (k, v) ∷ []
  update k v (e ∷ m) = if e.0 == k then (k, v) ∷ m else e ∷ update k v m

  unfoldable pub erase : ℕ → List (ℕ × A) → List (ℕ × A)
  erase k [] = []
  erase k (e ∷ m) = let rest = erase k m in if e.0 == k then rest else e ∷ rest

  pub lookup-update : (k : ℕ) (v : A) (m : List (ℕ × A)) → lookup k (update k v m) ≡ some v
  unfolding lookup update
  lookup-update k v [] = ground arith
  lookup-update k v (e ∷ m) = ground (arith, lookup-update k v m)

  pub lookup-update_other :
      (j k : ℕ) (v : A) (m : List (ℕ × A)) → j ≢ k → lookup j (update k v m) ≡ lookup j m
  unfolding lookup update
  lookup-update_other j k v [] h = ground (arith, h)
  lookup-update_other j k v (e ∷ m) h = ground (arith, h, lookup-update_other j k v m h)

  pub lookup-erase : (k : ℕ) (m : List (ℕ × A)) → lookup k (erase k m) ≡ none
  unfolding lookup erase
  lookup-erase k [] = refl
  lookup-erase k (e ∷ m) = ground (arith, lookup-erase k m)

unfoldable pub has : ℕ → List ℕ → Bool
has k [] = false
has k (x ∷ xs) = x == k || has k xs

unfoldable pub include : ℕ → List ℕ → List ℕ
unfolding has
include k xs = if has k xs then xs else k ∷ xs

unfoldable pub exclude : ℕ → List ℕ → List ℕ
exclude k [] = []
exclude k (x ∷ xs) = let rest = exclude k xs in if x == k then rest else x ∷ rest

pub has-include : (k : ℕ) (xs : List ℕ) → has k (include k xs) ≡ true
unfolding include has
has-include k xs = ground arith

pub has-include_old : (j k : ℕ) (xs : List ℕ) → has j xs ≡ true → has j (include k xs) ≡ true
unfolding include has
has-include_old j k xs h = ground (arith, h)

pub has-exclude : (k : ℕ) (xs : List ℕ) → has k (exclude k xs) ≡ false
unfolding exclude has
has-exclude k [] = refl
has-exclude k (x ∷ xs) = ground (arith, has-exclude k xs)

-- How often a number stands in a list.
unfoldable pub count : ℕ → List ℕ → ℕ
count x [] = 0
count x (y ∷ ys) = if y == x then 1 + count x ys else count x ys

pub count-append : (x : ℕ) (xs ys : List ℕ) → count x (xs ++ ys) ≡ count x xs + count x ys
unfolding count
count-append x [] ys = omega arith
count-append x (y ∷ xs) ys = ground (arith, count-append x xs ys)
