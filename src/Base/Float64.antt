-- ===== src/Base/Float64.antt =====
-- What the code does with a `float64`: Go's operators and conversions as an interface, and the facts
-- about them that hold of IEEE 754 numbers with rounding to nearest.
use Prim.Native.Nat.{ℕ, ◌+◌, ◌-◌, ◌*◌, ◌/◌, ◌≤◌}
use mathlib.Core.Path.{◌≡◌, refl}
use mathlib.Core.Bool.{Bool, true, false}
use native.Mathlib.Omega.{arith}
use sentra_lab.Base.Tests.{ltb, leb}
use sentra_lab.Base.Int.{ℤ, pos, pos_part, ◌≤ℤ◌}

pub record Float64 (F : Type 0) : Type 0 where
  pub add : F → F → F
  pub sub : F → F → F
  pub mul : F → F → F
  pub div : F → F → F
  pub lt : F → F → Bool
  pub le : F → F → Bool
  -- float64(n)
  pub of_int : ℤ → F
  -- int(x), int64(x) and time.Duration(x)
  pub to_int : F → ℤ
  -- time.Duration.Seconds, of a number of nanoseconds
  pub seconds : ℤ → F
  -- neither NaN nor an infinity
  pub is_finite : F → Bool

infix 4 ◌≼◌
abbrev pub ◌≼◌ : {F : Type 0} ⦃fl : Float64 F⦄ → F → F → Type 0
◌≼◌ ⦃fl⦄ x y = fl.le x y ≡ true

abbrev pub nought : {F : Type 0} ⦃fl : Float64 F⦄ → F
nought ⦃fl⦄ = fl.of_int (pos 0)

-- A comparison with NaN is false, so `x ≼ y` says that neither is NaN.
pub record IsFloat64 (F : Type 0) ⦃fl : Float64 F⦄ : Type 0 where
  pub le_trans : (x y z : F) → x ≼ y → y ≼ z → x ≼ z
  pub refl_of_le : (x y : F) → x ≼ y → (x ≼ x) × (y ≼ y)
  pub le_of_lt : (x y : F) → fl.lt x y ≡ true → x ≼ y
  pub le_of_not_lt : (x y : F) → x ≼ x → y ≼ y → fl.lt x y ≡ false → y ≼ x
  pub of_int_mono : (m n : ℤ) → m ≤ℤ n → fl.of_int m ≼ fl.of_int n
  pub of_int_finite : (n : ℤ) → fl.is_finite (fl.of_int n) ≡ true
  pub finite_of_le : (x y : F) → nought ≼ x → x ≼ y → fl.is_finite y ≡ true → fl.is_finite x ≡ true
  pub seconds_nonneg :
      (n : ℕ) → (nought ≼ fl.seconds (pos n)) × (fl.is_finite (fl.seconds (pos n)) ≡ true)
  pub add_nonneg : (x y : F) → nought ≼ x → nought ≼ y → nought ≼ fl.add x y
  pub mul_nonneg :
      (x y : F)
      → nought ≼ x
      → fl.is_finite x ≡ true
      → nought ≼ y
      → fl.is_finite y ≡ true
      → nought ≼ fl.mul x y
  -- dividing by a number from 1 up makes no number larger
  pub div_nonneg :
      (x y : F)
      → nought ≼ x
      → fl.is_finite x ≡ true
      → fl.of_int (pos 1) ≼ y
      → (nought ≼ fl.div x y) × (fl.is_finite (fl.div x y) ≡ true)
  pub sub_nonneg : (x y : F) → fl.is_finite x ≡ true → y ≼ x → nought ≼ fl.sub x y
  pub sub_le : (x y : F) → fl.is_finite x ≡ true → nought ≼ y → fl.sub x y ≼ x
  -- integers up to 2^53 are exact, and rounding keeps the order
  pub sub_add_one_le :
      (x : F) (n : ℕ)
      → n ≤ 9007199254740992
      → fl.of_int (pos 1) ≼ x
      → x ≼ fl.of_int (pos n)
      → fl.add (fl.sub x (fl.of_int (pos 1))) (fl.of_int (pos 1)) ≼ fl.of_int (pos n)

-- The interface can be met: whole numbers, with the truncated difference.
instance abbrev pub whole_float64 : Float64 ℕ
whole_float64 = record {
  add = λ a b. a + b;
  sub = λ a b. a - b;
  mul = λ a b. a * b;
  div = λ a b. a / b;
  lt = ltb;
  le = leb;
  of_int = pos_part;
  to_int = pos;
  seconds = λ d. pos_part d / 1000000000;
  is_finite = λ a. true;
}

pub whole-IsFloat64 : IsFloat64 ℕ
whole-IsFloat64 = record {
  le_trans = λ x y z p q. ground arith;
  refl_of_le = λ x y p. (ground arith, ground arith);
  le_of_lt = λ x y p. ground arith;
  le_of_not_lt = λ x y p q r. ground arith;
  of_int_mono = λ m n p. ground arith;
  of_int_finite = λ n. refl;
  finite_of_le = λ x y p q r. refl;
  seconds_nonneg = λ n. (ground arith, refl);
  add_nonneg = λ x y p q. ground arith;
  mul_nonneg = λ x y p q r s. ground arith;
  div_nonneg = λ x y p q r. (ground arith, refl);
  sub_nonneg = λ x y p q. ground arith;
  sub_le = λ x y p q. ground arith;
  sub_add_one_le = λ x n p q r. ground arith;
}
