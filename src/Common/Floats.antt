-- ===== src/Common/Floats.antt =====
-- What the firmware does with `float` and `double`: the C implementation's arithmetic, which is not
-- code of the repository, is a parameter. `Fixed` shows that its assumed laws can be met.
use Prim.Native.Nat.{ℕ, ◌*◌, ◌/◌, ◌<◌}
use mathlib.Core.Path.{◌≡◌, refl}
use mathlib.Core.Bool.{Bool, true, false, not}
use native.Mathlib.Omega.{arith}
use robofw.Common.Int.{ℤ, pos, neg_ℤ, ◌+ℤ◌, ◌-ℤ◌, ◌*ℤ◌, ◌/ℤ◌, ◌≤ℤ◌, ltb_ℤ}

-- Both formats, their operations, and the conversions. A literal is its numerator and denominator.
pub record Floats : Type 1 where
  pub F32 : Type 0
  pub F64 : Type 0
  pub lit32 : ℕ → ℕ → F32
  pub lit64 : ℕ → ℕ → F64
  pub of_int : ℤ → F32
  pub of_int64 : ℤ → F64
  pub widen : F32 → F64
  pub narrow : F64 → F32
  pub trunc32 : F32 → ℤ
  pub trunc64 : F64 → ℤ
  pub neg32 : F32 → F32
  pub neg64 : F64 → F64
  pub add32 : F32 → F32 → F32
  pub sub32 : F32 → F32 → F32
  pub mul32 : F32 → F32 → F32
  pub div32 : F32 → F32 → F32
  pub add64 : F64 → F64 → F64
  pub sub64 : F64 → F64 → F64
  pub mul64 : F64 → F64 → F64
  pub div64 : F64 → F64 → F64
  pub lt32 : F32 → F32 → Bool
  pub lt64 : F64 → F64 → Bool
  pub le32 : F32 → F32 → Bool

-- IEEE 754 on comparisons, also at a NaN, and on the conversion of integers.
pub record FloatLaws (f : Floats) : Type 0 where
  pub lt32_irrefl : (x : f.F32) → f.lt32 x x ≡ false
  pub lt32_asym : (x y : f.F32) → f.lt32 x y ≡ true → f.lt32 y x ≡ false
  pub lt32_of_int : (m n : ℤ) → m ≤ℤ n → f.lt32 (f.of_int n) (f.of_int m) ≡ false

-- A number, and no NaN.
abbrev pub IsNumber : (f : Floats) → f.F32 → Type 0
IsNumber f x = f.le32 x x ≡ true

-- IEEE 754 on what is a number: a constant, an integer, the negation of a number, and 1 with a number
-- added or taken away; two numbers can be compared.
pub record NumberLaws (f : Floats) : Type 0 where
  pub le32_total :
      (x y : f.F32) → IsNumber f x → IsNumber f y → f.lt32 y x ≡ false → f.le32 x y ≡ true
  pub of_int-IsNumber : (z : ℤ) → IsNumber f (f.of_int z)
  pub narrow-IsNumber : (a b : ℕ) → 0 < b → IsNumber f (f.narrow (f.lit64 a b))
  pub narrow_neg-IsNumber : (a b : ℕ) → 0 < b → IsNumber f (f.narrow (f.neg64 (f.lit64 a b)))
  pub neg32-IsNumber : (x : f.F32) → IsNumber f x → IsNumber f (f.neg32 x)
  pub add_to_1-IsNumber : (x : f.F32) → IsNumber f x → IsNumber f (f.add32 (f.lit32 1 1) x)
  pub sub_from_1-IsNumber : (x : f.F32) → IsNumber f x → IsNumber f (f.sub32 (f.lit32 1 1) x)

-- Fixed-point numbers of six decimals: an implementation that runs.
abbrev pub fixed : Floats
fixed = record {
  F32 = ℤ;
  F64 = ℤ;
  lit32 = λ a b. pos (a * 1000000 / b);
  lit64 = λ a b. pos (a * 1000000 / b);
  of_int = λ z. z *ℤ pos 1000000;
  of_int64 = λ z. z *ℤ pos 1000000;
  widen = λ x. x;
  narrow = λ x. x;
  trunc32 = λ x. x /ℤ pos 1000000;
  trunc64 = λ x. x /ℤ pos 1000000;
  neg32 = neg_ℤ;
  neg64 = neg_ℤ;
  add32 = ◌+ℤ◌;
  sub32 = ◌-ℤ◌;
  mul32 = λ x y. x *ℤ y /ℤ pos 1000000;
  div32 = λ x y. x *ℤ pos 1000000 /ℤ y;
  add64 = ◌+ℤ◌;
  sub64 = ◌-ℤ◌;
  mul64 = λ x y. x *ℤ y /ℤ pos 1000000;
  div64 = λ x y. x *ℤ pos 1000000 /ℤ y;
  lt32 = ltb_ℤ;
  lt64 = ltb_ℤ;
  le32 = λ x y. not (ltb_ℤ y x);
}

fixed_irrefl : (x : ℤ) → ltb_ℤ x x ≡ false
fixed_irrefl x = ground arith

fixed-asym : (x y : ℤ) → ltb_ℤ x y ≡ true → ltb_ℤ y x ≡ false
fixed-asym x y h = ground arith

fixed-of_int : (m n : ℤ) → m ≤ℤ n → ltb_ℤ (n *ℤ pos 1000000) (m *ℤ pos 1000000) ≡ false
fixed-of_int m n h = ground arith

pub fixed-FloatLaws : FloatLaws fixed
fixed-FloatLaws = record {
  lt32_irrefl = fixed_irrefl;
  lt32_asym = fixed-asym;
  lt32_of_int = fixed-of_int;
}

fixed_number : (x : ℤ) → not (ltb_ℤ x x) ≡ true
fixed_number x = ground arith

fixed-total : (x y : ℤ) → ltb_ℤ y x ≡ false → not (ltb_ℤ y x) ≡ true
fixed-total x y h = rw h refl

pub fixed-NumberLaws : NumberLaws fixed
fixed-NumberLaws = record {
  le32_total = λ x y h k. fixed-total x y;
  of_int-IsNumber = λ z. fixed_number (fixed.of_int z);
  narrow-IsNumber = λ a b h. fixed_number (fixed.narrow (fixed.lit64 a b));
  narrow_neg-IsNumber = λ a b h. fixed_number (fixed.narrow (fixed.neg64 (fixed.lit64 a b)));
  neg32-IsNumber = λ x h. fixed_number (fixed.neg32 x);
  add_to_1-IsNumber = λ x h. fixed_number (fixed.add32 (fixed.lit32 1 1) x);
  sub_from_1-IsNumber = λ x h. fixed_number (fixed.sub32 (fixed.lit32 1 1) x);
}
