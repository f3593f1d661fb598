-- ===== src/Base/Bytes.antt =====
-- Bits of one byte as arithmetic, each a table checked by evaluation, and numbers in base 256.
use Prim.Native.Nat.{ℕ, zero, suc, ◌+◌, ◌*◌, ◌/◌, ◌%◌, ◌^◌, ◌<◌, bit_and, bit_or}
use mathlib.Core.Path.{◌≡◌, refl}
use mathlib.Core.Bool.{Bool, true, ◌&&◌}
use mathlib.Core.List.{List, [], ◌∷◌}
use native.Mathlib.Omega.{arith}
use dtp.Base.Tests.{◌==◌}
use dtp.Base.Lists.{length}

module _ (f g : ℕ → ℕ) where
  agree_below : ℕ → Bool
  agree_below zero = true
  agree_below (suc n) = (f n == g n) && agree_below n

  agree_below→eq : (n : ℕ) → agree_below n ≡ true → (i : ℕ) → i < n → f i ≡ g i
  unfolding agree_below
  agree_below→eq zero e i h = absurd (omega arith)
  agree_below→eq (suc n) e i h = ground (arith, agree_below→eq n (ground arith) i)

pub bit_and-0x3f : (b : ℕ) → b < 256 → bit_and b 0x3f ≡ b % 64
unfolding agree_below
bit_and-0x3f = agree_below→eq _ _ 256 refl

pub bit_or-0x40 : (b : ℕ) → b < 64 → bit_or b 0x40 ≡ b + 64
unfolding agree_below
bit_or-0x40 = agree_below→eq _ _ 64 refl

pub bit_or-0x80 : (b : ℕ) → b < 64 → bit_or b 0x80 ≡ b + 128
unfolding agree_below
bit_or-0x80 = agree_below→eq _ _ 64 refl

pub bit_or-0xc0 : (b : ℕ) → b < 64 → bit_or b 0xc0 ≡ b + 192
unfolding agree_below
bit_or-0xc0 = agree_below→eq _ _ 64 refl

abbrev pub IsByte : ℕ → Type 0
IsByte b = b < 256

-- The big-endian bytes of `v`, the lowest `n` of them.
abbrev pub to_be : ℕ → ℕ → List ℕ
to_be zero v = []
to_be (suc n) v = v / 256 ^ n % 256 ∷ to_be n v

-- The number that big-endian bytes spell, after `acc`.
abbrev pub from_be : ℕ → List ℕ → ℕ
from_be acc [] = acc
from_be acc (x ∷ xs) = from_be (acc * 256 + x) xs

pub length-to_be : (n v : ℕ) → length (to_be n v) ≡ n
length-to_be zero v = refl
length-to_be (suc n) v = omega (arith, length-to_be n v)

pub from_be-to_be_2 : (v : ℕ) → from_be 0 (to_be 2 v) ≡ v % 2 ^ 16
from_be-to_be_2 v = omega arith

pub from_be-to_be_4 : (v : ℕ) → from_be 0 (to_be 4 v) ≡ v % 2 ^ 32
from_be-to_be_4 v = omega arith

pub from_be-to_be_8 : (v : ℕ) → from_be 0 (to_be 8 v) ≡ v % 2 ^ 64
from_be-to_be_8 v = omega arith
