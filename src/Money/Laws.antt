-- ===== src/Money/Laws.antt =====
-- What the program relies on of github.com/govalues/decimal: comparisons are exact, and each
-- operation that returns no error returns the exact result correctly rounded, which is monotone.
use Prim.Native.Nat.{compare}
use bucks.Common.{ℕ, ◌+◌, ◌≤◌, some, Ordering, true, false, ◌≡◌}
use bucks.Money.{is_lt, is_gt, DecimalOps}

-- `a <= b`, as `a.Cmp(b) <= 0`.
abbrev pub AtMost : (M : DecimalOps) → M.Decimal → M.Decimal → Type 0
AtMost M a b = is_gt (M.cmp a b) ≡ false

-- `a >= 0`, as `a.Sign() >= 0`.
abbrev pub NonNegative : (M : DecimalOps) → M.Decimal → Type 0
NonNegative M a = is_lt (M.sign a) ≡ false

abbrev pub Positive : (M : DecimalOps) → M.Decimal → Type 0
Positive M a = is_gt (M.sign a) ≡ true

-- Comparison is a total order, and `Sign` compares with zero.
pub record OrderLaws (M : DecimalOps) : Type 0 where
  pub cmp_refl : (a : M.Decimal) → M.cmp a a ≡ Ordering.eq
  pub cmp_trans : (a b c : M.Decimal) → AtMost M a b → AtMost M b c → AtMost M a c
  pub cmp_flip : (a b : M.Decimal) → is_lt (M.cmp a b) ≡ is_gt (M.cmp b a)
  pub sign_zero : (a : M.Decimal) → M.sign a ≡ M.cmp a M.zero_decimal
  pub sign_abs : (a : M.Decimal) → NonNegative M (M.abs a)

-- Rounding is monotone, so a rounded result keeps the order of exact ones.
pub record RoundingLaws (M : DecimalOps) : Type 0 where
  pub mul_nonneg :
      (a b c : M.Decimal) → NonNegative M a → NonNegative M b → M.mul a b ≡ some c → NonNegative M c
  pub mul_mono :
      (a b c x y : M.Decimal)
      → AtMost M a b
      → Positive M c
      → M.mul a c ≡ some x
      → M.mul b c ≡ some y
      → AtMost M x y
  pub sub_le : (a b c : M.Decimal) → NonNegative M b → M.sub a b ≡ some c → AtMost M c a
  pub sub_anti :
      (a b c x y : M.Decimal)
      → AtMost M b c
      → M.sub a b ≡ some x
      → M.sub a c ≡ some y
      → AtMost M y x

-- Quantities on a lot grid (at most so many digits behind the point, below 19 digits in all) as
-- whole numbers of grid units: they are compared and subtracted exactly.
pub record GridLaws (M : DecimalOps) (OnGrid : M.Decimal → Type 0) (units : M.Decimal → ℕ)
    : Type 0 where
  pub zero_grid : OnGrid M.zero_decimal
  pub zero_units : units M.zero_decimal ≡ 0
  pub cmp_units : (a b : M.Decimal) → OnGrid a → OnGrid b → M.cmp a b ≡ compare (units a) (units b)
  pub sign_units : (a : M.Decimal) → OnGrid a → M.sign a ≡ compare (units a) 0
  pub sub_units :
      (a b c : M.Decimal)
      → OnGrid a
      → OnGrid b
      → units b ≤ units a
      → M.sub a b ≡ some c
      → OnGrid c × (units c + units b ≡ units a)

-- Taking the sign off and putting it back loses nothing.
pub record SignLaws (M : DecimalOps) : Type 0 where
  pub abs_positive : (a : M.Decimal) → M.sign a ≡ Ordering.gt → M.abs a ≡ a
  pub neg_abs : (a : M.Decimal) → M.sign a ≡ Ordering.lt → M.neg (M.abs a) ≡ a
