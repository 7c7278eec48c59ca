-- ===== src/Money/Whole.antt =====
-- A decimal type of whole numbers below 10 ^ 19 in size, at which the theorems are applied.
use bucks.Money.Laws.{SignLaws, GridLaws, RoundingLaws, OrderLaws}
use bucks.Money.{is_lt, DecimalOps}
use bucks.Common.Int.{
  ◌≤ℤ◌, -ℤ_parts, sub_ℕ, negsuc, abs_ℤ, compare_ℤ, neg_part, ◌*ℤ◌, ◌-ℤ◌, pos_part, ◌+ℤ◌, pos, ℤ,
}
use bucks.Common.{
  Ordering, ◌*◌, false, ◌≡◌, ◌≤◌, zero, ◌/◌, refl, some, suc, ltb, ◌+◌, none, if◌then◌else◌, arith,
  Option, ℕ,
}

abbrev pub size : ℤ → ℕ
size a = pos_part a + neg_part a

-- An operation fails when its result has more than 19 digits.
abbrev pub in_range : ℤ → Option ℤ
in_range a = if ltb (size a) 10_000_000_000_000_000_000 then some a else none

abbrev pub div_whole : ℤ → ℤ → Option ℤ
div_whole a (pos zero) = none
div_whole (pos n) (pos (suc d)) = some (pos (n / suc d))
div_whole (negsuc n) (pos (suc d)) = some (sub_ℕ 0 (suc n / suc d))
div_whole (pos n) (negsuc d) = some (sub_ℕ 0 (n / suc d))
div_whole (negsuc n) (negsuc d) = some (pos (suc n / suc d))

abbrev pub negate : ℤ → ℤ
negate a = pos 0 -ℤ a

abbrev pub whole : DecimalOps
whole = record {
  Decimal = ℤ;
  zero_decimal = pos 0;
  add = λ a b. in_range (a +ℤ b);
  sub = λ a b. in_range (a -ℤ b);
  mul = λ a b. in_range (a *ℤ b);
  quo = div_whole;
  cmp = compare_ℤ;
  sign = λ a. compare_ℤ a (pos 0);
  abs = abs_ℤ;
  neg = negate;
}

pub whole-OrderLaws : OrderLaws whole
whole-OrderLaws = record {
  cmp_refl = λ a. ground arith;
  cmp_trans = λ a b c h k. ground arith;
  cmp_flip = λ a b. ground arith;
  sign_zero = λ a. refl;
  sign_abs = λ a. ground arith;
}

mul_nonneg :
    (a b c : ℤ)
    → is_lt (compare_ℤ a (pos 0)) ≡ false
    → is_lt (compare_ℤ b (pos 0)) ≡ false
    → in_range (a *ℤ b) ≡ some c
    → is_lt (compare_ℤ c (pos 0)) ≡ false
unfolding ◌*ℤ◌
mul_nonneg (pos m) (pos n) c h k e = ground arith
mul_nonneg (pos m) (negsuc n) c h k e = ground arith
mul_nonneg (negsuc m) b c h k e = ground arith

scaled : (m n c : ℕ) → m ≤ n → m * c ≤ n * c
scaled m n c h = grind arith

mul_mono : (a b c : ℤ) → a ≤ℤ b → pos 0 ≤ℤ c → a *ℤ c ≤ℤ b *ℤ c
unfolding ◌*ℤ◌
mul_mono a b (negsuc c) h k = absurd (omega arith)
mul_mono (pos m) (pos n) (pos c) h k = ground (arith, scaled m n c)
mul_mono (pos m) (negsuc n) (pos c) h k = absurd (omega arith)
mul_mono (negsuc m) (pos n) (pos c) h k = ground arith
mul_mono (negsuc m) (negsuc n) (pos c) h k = ground (arith, scaled (suc n) (suc m) c)

kept : (a c : ℤ) → in_range a ≡ some c → a ≡ c
kept a c h = ground arith

pub whole-RoundingLaws : RoundingLaws whole
whole-RoundingLaws = record {
  mul_nonneg = mul_nonneg;
  mul_mono =
      λ a b c x y h k ex ey. ground (arith, mul_mono a b c, kept (a *ℤ c) x ex, kept (b *ℤ c) y ey);
  sub_le = λ a b c h e. ground (arith, -ℤ_parts a b, kept (a -ℤ b) c e);
  sub_anti = λ a b c x y h ex ey.
      ground (arith, -ℤ_parts a b, -ℤ_parts a c, kept (a -ℤ b) x ex, kept (a -ℤ c) y ey);
}

-- Whole numbers that are not negative are a grid of unit steps.
pub whole-GridLaws : GridLaws whole (λ a. pos 0 ≤ℤ a) pos_part
whole-GridLaws = record {
  zero_grid = omega arith;
  zero_units = refl;
  cmp_units = λ a b ha hb. ground arith;
  sign_units = λ a ha. ground arith;
  sub_units = λ a b c ha hb le e. ground (arith, -ℤ_parts a b, kept (a -ℤ b) c e);
}

neg_abs : (a : ℤ) → compare_ℤ a (pos 0) ≡ Ordering.lt → negate (abs_ℤ a) ≡ a
unfolding ◌-ℤ◌
neg_abs (pos n) h = absurd (ground arith)
neg_abs (negsuc n) h = ground arith

pub whole-SignLaws : SignLaws whole
whole-SignLaws = record { abs_positive = λ a h. ground arith; neg_abs = neg_abs }
