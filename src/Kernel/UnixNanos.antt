-- ===== src/Kernel/UnixNanos.antt =====
-- internal/kernel/unixnanos.go: instants of 64 bits whose addition panics instead of wrapping.
use bucks.Common.{◌%◌, arith, ◌&&◌, ltb, ◌-◌, ◌≡◌, ◌+◌, ◌^◌, if◌then◌else◌, ℕ}
use bucks.Common.Int.{neg_part, ltb_ℤ, ◌+ℤ◌, pos_part, ◌≤ℤ◌, pos, negsuc, ℤ}

abbrev pub int64_min : ℤ
int64_min = negsuc (2 ^ 63 - 1)

abbrev pub int64_max : ℤ
int64_max = pos (2 ^ 63 - 1)

-- A value of an int64.
abbrev pub Int64 : ℤ → Type 0
Int64 a = (int64_min ≤ℤ a) × (a ≤ℤ int64_max)

-- The int64 with the low 64 bits of a number.
abbrev pub signed_64 : ℕ → ℤ
signed_64 raw = if ltb raw (2 ^ 63) then pos raw else negsuc (2 ^ 64 - 1 - raw)

-- `a + b` on int64, which wraps.
unfoldable pub add_64 : ℤ → ℤ → ℤ
add_64 a b =
    signed_64 ((pos_part a + pos_part b + (2 ^ 64 - neg_part a) + (2 ^ 64 - neg_part b)) % 2 ^ 64)

pub data Addition : Type 0 where
  sum : ℤ → Addition
  positive_overflow negative_overflow : Addition

-- `UnixNanos.Add`; the overflows are its panics.
unfoldable pub add : ℤ → ℤ → Addition
add a d =
    if ltb_ℤ (pos 0) d && ltb_ℤ (add_64 a d) a
    then positive_overflow
    else if ltb_ℤ d (pos 0) && ltb_ℤ a (add_64 a d)
    then negative_overflow
    else sum (add_64 a d)

-- The addition of all int64 values: the exact sum where it is an int64, and otherwise a panic in
-- the direction of the overflow; never a wrapped value.
pub add-exact :
    (a d : ℤ)
    → Int64 a
    → Int64 d
    → add a d ≡ (
        if ltb_ℤ int64_max (a +ℤ d)
        then positive_overflow
        else if ltb_ℤ (a +ℤ d) int64_min
        then negative_overflow
        else sum (a +ℤ d))
unfolding add add_64 ◌+ℤ◌
add-exact (pos m) (pos n) h k = ground arith
add-exact (pos m) (negsuc n) h k = ground arith
add-exact (negsuc m) (pos n) h k = ground arith
add-exact (negsuc m) (negsuc n) h k = ground arith
