-- ===== src/Base/Floats.antt =====
-- What the code does with an `f64`. The numbers themselves are a parameter.
use Prim.Native.Nat.{ℕ}
use mathlib.Core.Path.{◌≡◌}
use mathlib.Core.Bool.{Bool, true, false}

pub record F64 (W : Type 0) : Type 0 where
  pub from_u64 : ℕ → W
  pub half : W
  pub add : W → W → W
  pub sub : W → W → W
  pub mul : W → W → W
  pub div : W → W → W
  pub neg : W → W
  pub min_of : W → W → W
  pub gt : W → W → Bool
  pub eq : W → W → Bool

-- NaN is the value that does not equal itself.
abbrev pub IsNumber : {W : Type 0} ⦃f : F64 W⦄ → W → Type 0
IsNumber ⦃f⦄ x = f.eq x x ≡ true

-- IEEE 754 comparison of values that are not NaN.
pub record IsOrdered (W : Type 0) ⦃f : F64 W⦄ : Type 0 where
  pub gt_asym : (x y : W) → f.gt x y ≡ true → f.gt y x ≡ false
  pub not_gt_trans :
      (x y z : W)
      → IsNumber x
      → IsNumber y
      → IsNumber z
      → f.gt x y ≡ false
      → f.gt y z ≡ false
      → f.gt x z ≡ false
  pub eq_sym : (x y : W) → f.eq x y ≡ true → f.eq y x ≡ true
  pub eq_not_gt : (x y : W) → f.eq x y ≡ true → f.gt x y ≡ false
  pub eq_of_not_gt :
      (x y : W) → IsNumber x → IsNumber y → f.gt x y ≡ false → f.gt y x ≡ false → f.eq x y ≡ true
