-- ===== src/Common/Bits.antt =====
-- Shifts, masks and joins of fields, as arithmetic: what `&`, `|`, `<<` and `>>` do to the bytes of
-- a frame. The native bit operations mean a recursion on binary digits with fuel.
use Prim.Native.Nat.{
  ℕ, zero, suc, ◌+◌, ◌-◌, ◌*◌, ◌/◌, ◌%◌, ◌^◌, ◌≤◌, ◌<◌, min, max, bit_and, bit_or, digits,
  bit_and-bitwise, bit_or-bitwise,
}
use mathlib.Core.Path.{◌≡◌, refl, ap, ◌∙◌}
use native.Mathlib.Nat.{pow-suc, one-le-pow, div-div-eq-div-mul}
use native.Mathlib.Omega.{arith}

-- x >> k, x << k
abbrev pub shr : ℕ → ℕ → ℕ
shr x k = x / 2 ^ k

abbrev pub shl : ℕ → ℕ → ℕ
shl x k = x * 2 ^ k

module _ (rest : ℕ → ℕ) (digit : ℕ → ℕ → ℕ) where
  -- Any fuel that reaches `x` gives the same digits.
  fuel_irrelevant :
      (x y m n : ℕ) → x ≤ m → x ≤ n → digits rest digit m x y ≡ digits rest digit n x y
  fuel_irrelevant x y zero zero hm hn = refl
  fuel_irrelevant zero y zero (suc n) hm hn = refl
  fuel_irrelevant zero y (suc m) zero hm hn = refl
  fuel_irrelevant zero y (suc m) (suc n) hm hn = refl
  fuel_irrelevant (suc x) y zero (suc n) hm hn = elim hm [ ]
  fuel_irrelevant (suc x) y (suc m) zero hm hn = elim hn [ ]
  fuel_irrelevant (suc x) y (suc m) (suc n) hm hn =
      ap (λ t. t * 2 + digit (suc x % 2) (y % 2))
        (fuel_irrelevant (suc x / 2) (y / 2) m n (omega arith) (omega arith))

-- The lowest digit of `&`, and the others.
bit_and_low : (x y : ℕ) → bit_and x y ≡ bit_and (x / 2) (y / 2) * 2 + min (x % 2) (y % 2)
bit_and_low zero y = omega (arith, bit_and-bitwise 0 y, bit_and-bitwise (0 / 2) (y / 2))
bit_and_low (suc x) y =
    let half = suc x / 2 in
    omega (
      arith,
      fuel_irrelevant (λ _. zero) min half (y / 2) x half (omega arith) (omega arith),
      bit_and-bitwise (suc x) y,
      bit_and-bitwise half (y / 2),
    )

bit_or_low : (x y : ℕ) → bit_or x y ≡ bit_or (x / 2) (y / 2) * 2 + max (x % 2) (y % 2)
bit_or_low zero y = omega (arith, bit_or-bitwise 0 y, bit_or-bitwise (0 / 2) (y / 2))
bit_or_low (suc x) y =
    let half = suc x / 2 in
    omega (
      arith,
      fuel_irrelevant (λ t. t) max half (y / 2) x half (omega arith) (omega arith),
      bit_or-bitwise (suc x) y,
      bit_or-bitwise half (y / 2),
    )

zero-bit_or : (y : ℕ) → bit_or 0 y ≡ y
zero-bit_or y = bit_or-bitwise 0 y

zero-bit_and : (y : ℕ) → bit_and 0 y ≡ 0
zero-bit_and y = bit_and-bitwise 0 y

bit_and_nothing : (bound x : ℕ) → x ≤ bound → bit_and x 0 ≡ 0
bit_and_nothing bound zero h = refl
bit_and_nothing zero (suc x) h = elim h [ ]
bit_and_nothing (suc bound) (suc x) h =
    omega (arith, bit_and_low (suc x) 0, bit_and_nothing bound (suc x / 2) (omega arith))

double_shift : (q k : ℕ) → q * 2 ^ suc k ≡ 2 * (q * 2 ^ k)
double_shift q k = omega (arith, ap (λ (t : ℕ). q * t) (pow-suc 2 k))

-- A low field joined with a high one, `r | (q << k)`, is their sum when `r` fits `k` bits.
pub bit_or_join : (k q r : ℕ) → r < 2 ^ k → bit_or r (q * 2 ^ k) ≡ q * 2 ^ k + r
bit_or_join zero q r h = ground (arith, zero-bit_or (q * 1))
bit_or_join (suc k) q r h = ground (
  arith,
  double_shift q k,
  bit_or_low r (q * 2 ^ suc k),
  bit_or_join k q (r / 2) (omega (arith, pow-suc 2 k)),
)

bit_or_nothing : (bound x : ℕ) → x ≤ bound → bit_or x 0 ≡ x
bit_or_nothing bound zero h = refl
bit_or_nothing zero (suc x) h = elim h [ ]
bit_or_nothing (suc bound) (suc x) h =
    omega (arith, bit_or_low (suc x) 0, bit_or_nothing bound (suc x / 2) (omega arith))

-- The same in the other order, `(q << k) | r`.
pub bit_or_join_high : (k q r : ℕ) → r < 2 ^ k → bit_or (q * 2 ^ k) r ≡ q * 2 ^ k + r
bit_or_join_high zero q r h = ground (arith, bit_or_nothing (q * 1) (q * 1) (omega arith))
bit_or_join_high (suc k) q r h = ground (
  arith,
  double_shift q k,
  bit_or_low (q * 2 ^ suc k) r,
  bit_or_join_high k q (r / 2) (omega (arith, pow-suc 2 k)),
)

halve_div : (k x : ℕ) → x / 2 / 2 ^ k ≡ x / 2 ^ suc k
halve_div k x = div-div-eq-div-mul x 2 (2 ^ k) ∙ ap (λ (t : ℕ). x / t) (omega (arith, pow-suc 2 k))

-- `x & (m << k)` keeps the bits of `m` above the lowest `k`.
pub bit_and_above : (k x m : ℕ) → bit_and x (m * 2 ^ k) ≡ bit_and (x / 2 ^ k) m * 2 ^ k
bit_and_above zero x m = ground arith
bit_and_above (suc k) x m = ground (
  arith,
  double_shift m k,
  double_shift (bit_and (x / 2 ^ suc k) m) k,
  bit_and_low x (m * 2 ^ suc k),
  bit_and_above k (x / 2) m,
  halve_div k x,
)

mask_fields : (k q r : ℕ) → r < 2 ^ k → bit_and (q * 2 ^ k + r) (2 ^ k - 1) ≡ r
mask_fields zero q r h = ground (arith, bit_and_nothing (q * 1 + r) (q * 1 + r) (omega arith))
mask_fields (suc k) q r h = ground (
  arith,
  double_shift q k,
  pow-suc 2 k,
  one-le-pow k 2,
  bit_and_low (q * 2 ^ suc k + r) (2 ^ suc k - 1),
  mask_fields k q (r / 2) (omega (arith, pow-suc 2 k)),
)

-- A mask of `k` ones keeps the remainder by `2 ^ k`.
pub bit_and_ones : (k x : ℕ) → bit_and x (2 ^ k - 1) ≡ x % 2 ^ k
bit_and_ones k x = ground (arith, one-le-pow k 2, mask_fields k (x / 2 ^ k) (x % 2 ^ k))
