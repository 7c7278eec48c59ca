-- ===== src/Money.antt =====
-- internal/orders/money.go: `orders.Decimal` is github.com/govalues/decimal.
pub mod Laws
pub mod Whole
use bucks.Common.{Ordering, Bool, true, false, Option}

-- The operations of the decimal type that the program calls. `none` stands for a returned error;
-- the orderings stand for -1, 0 and +1.
pub record DecimalOps : Type 1 where
  pub Decimal : Type 0
  -- `ZeroDecimal`, the zero value of the type.
  pub zero_decimal : Decimal
  pub add : Decimal → Decimal → Option Decimal
  pub sub : Decimal → Decimal → Option Decimal
  pub mul : Decimal → Decimal → Option Decimal
  pub quo : Decimal → Decimal → Option Decimal
  pub cmp : Decimal → Decimal → Ordering
  pub sign : Decimal → Ordering
  pub abs : Decimal → Decimal
  pub neg : Decimal → Decimal

-- `r > 0`, `r < 0` and `r == 0` for the result of `Sign` or `Cmp`.
abbrev pub is_gt : Ordering → Bool
is_gt Ordering.gt = true
is_gt Ordering.lt = false
is_gt Ordering.eq = false

abbrev pub is_lt : Ordering → Bool
is_lt Ordering.lt = true
is_lt Ordering.gt = false
is_lt Ordering.eq = false

abbrev pub is_eq : Ordering → Bool
is_eq Ordering.eq = true
is_eq Ordering.gt = false
is_eq Ordering.lt = false
