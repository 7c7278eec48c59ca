-- ===== src/Examples/Orders.antt =====
-- Runs of orders and of the ledger.
use bucks.Ledger.Seeding.{position-seed}
use bucks.Orders.Fills.{apply_fill_iff, Fills}
use bucks.Orders.Lifecycle.{run, step, Call, fills, cancels}
use bucks.Common.Int.{negsuc, ◌*ℤ◌, ◌-ℤ◌, ◌+ℤ◌, ℤ, pos_part, ◌≤ℤ◌, pos}
use bucks.Ledger.Conservation.{GoodPosition}
use bucks.Money.Whole.{whole-SignLaws, whole-GridLaws, whole}
use bucks.Ledger.Fills.{apply-Applied, Applied}
use bucks.Common.Text.{insert, lookup}
use bucks.Ledger.{
  position, seed, or_flat, short, reduce_lot, consume, long, apply_to, apply, Accountant,
}
use bucks.Orders.Transitions.{apply_fill_once, run-terminal, step-Legal, Legal}
use bucks.Orders.Totals.{run-accepted, accepted, sum_from}
use bucks.Orders.Lifecycle.{run-new_order-IsValid, cancels, fills, IsValid}
use bucks.Orders.{
  sell, filled, can_transition, seen, cancel, buy, canceled, transition, new_order, fill_amounts,
  apply_fill, Order,
}
use bucks.Common.{ok, arith, inr, refl, [], ◌↔◌, some, none, ◌∷◌, ◌≡◌, List}

-- An order of ten units.
abbrev ten_units : Order whole
ten_units = new_order whole "c-1" "trend" "AAPL" buy (pos 10) (pos 100)

-- Four units at 90, delivered twice, too many, and the rest.
abbrev day_calls : List (Call whole)
day_calls =
    fills "f-1" (pos 4) (pos 90)
    ∷ fills "f-1" (pos 4) (pos 90)
    ∷ fills "f-2" (pos 7) (pos 90)
    ∷ fills "f-3" (pos 6) (pos 100)
    ∷ cancels
    ∷ []

apply_fill_iff_example :
    ((apply_fill whole "f-1" (pos 4) (pos 90) ten_units).1 ≡ none)
    ↔ ((c : ℤ) × (a : ℤ) × (l : ℤ) × Fills whole "f-1" (pos 4) (pos 90) ten_units c a l)
apply_fill_iff_example = apply_fill_iff whole "f-1" (pos 4) (pos 90) ten_units

run-new_order-IsValid_example :
    IsValid whole
      (run whole day_calls (new_order whole "c-1" "trend" "AAPL" buy (pos 10) (pos 100)))
run-new_order-IsValid_example =
    run-new_order-IsValid whole day_calls "c-1" "trend" "AAPL" buy (pos 10) (pos 100) refl

run-accepted_example :
    sum_from whole ten_units.cum_qty (accepted whole day_calls ten_units)
    ≡ some (run whole day_calls ten_units).cum_qty
run-accepted_example = run-accepted whole day_calls ten_units

-- The run ends filled, with ten units in two fills.
day_run :
    ((run whole day_calls ten_units).state ≡ filled)
    × (accepted whole day_calls ten_units ≡ pos 4 ∷ pos 6 ∷ [])
unfolding run step apply_fill fill_amounts transition cancel accepted seen new_order can_transition
    ◌+ℤ◌ ◌*ℤ◌ ◌-ℤ◌
day_run = (refl, refl)

step-Legal_example : Legal whole ten_units (step whole (fills "f-1" (pos 4) (pos 90)) ten_units)
step-Legal_example = step-Legal whole (fills "f-1" (pos 4) (pos 90)) ten_units

abbrev canceled_order : Order whole
canceled_order = record ten_units { state = canceled }

terminal_stays : run whole day_calls canceled_order ≡ canceled_order
terminal_stays = run-terminal whole day_calls canceled_order refl

first_fill : (apply_fill whole "f-1" (pos 4) (pos 90) ten_units).1 ≡ none
unfolding apply_fill fill_amounts transition seen new_order can_transition ◌+ℤ◌ ◌*ℤ◌ ◌-ℤ◌
first_fill = refl

apply_fill_once_example :
    let later = run whole day_calls (apply_fill whole "f-1" (pos 4) (pos 90) ten_units).0 in
    (apply_fill whole "f-1" (pos 9) (pos 91) later).0 ≡ later
apply_fill_once_example =
    apply_fill_once whole "f-1" (pos 4) (pos 90) (pos 9) (pos 91) day_calls ten_units first_fill

-- Three lots of five units, sold short by twenty: the position flips.
abbrev three_lots : Accountant whole
three_lots =
    (
      "AAPL",
      record {
        dir = long;
        lots =
            record { qty = pos 5; px = pos 90 }
            ∷ record { qty = pos 5; px = pos 95 }
            ∷ record { qty = pos 5; px = pos 99 }
            ∷ [];
      },
    )
    ∷ ("MSFT", record { dir = short; lots = record { qty = pos 1; px = pos 300 } ∷ [] })
    ∷ []

three_lots-Good :
    GoodPosition whole
      (λ a. pos 0 ≤ℤ a)
      pos_part
      whole-GridLaws
      (or_flat whole (lookup "AAPL" three_lots))
unfolding lookup
three_lots-Good = inr (
  (λ e. cc e),
  (λ e. cc e),
  ((omega arith, omega arith), ((omega arith, omega arith), ((omega arith, omega arith), tt))),
)

apply-Applied_example :
    Applied whole
      (λ a. pos 0 ≤ℤ a)
      pos_part
      whole-GridLaws
      "AAPL"
      short
      (pos 20)
      three_lots
      (apply whole "AAPL" sell (pos 20) (pos 100) three_lots)
apply-Applied_example =
    apply-Applied whole (λ a. pos 0 ≤ℤ a) pos_part whole-GridLaws "AAPL" sell (pos 20) (pos 100)
      three_lots three_lots-Good (omega arith) (omega arith) refl

-- The fill realizes 50 + 25 + 5, and five units are left on the short side.
flip_run :
    apply whole "AAPL" sell (pos 20) (pos 100) three_lots
    ≡ some (
      ("AAPL", record { dir = short; lots = record { qty = pos 5; px = pos 100 } ∷ [] })
          ∷ ("MSFT", record { dir = short; lots = record { qty = pos 1; px = pos 300 } ∷ [] })
          ∷ [],
      ok (pos 80),
    )
unfolding apply apply_to consume reduce_lot lookup insert ◌+ℤ◌ ◌-ℤ◌ ◌*ℤ◌
flip_run = refl

-- The broker reports twenty short where the ledger held fifteen long.
abbrev reseeded : Accountant whole
reseeded = seed whole "AAPL" (negsuc 19) (pos 97) three_lots

twenty_exact : whole.add (pos 0) (pos 20) ≡ some (pos 20)
unfolding ◌+ℤ◌
twenty_exact = refl

seeded_position :
    (position whole "AAPL" reseeded ≡ some (negsuc 19))
    × (position whole "MSFT" reseeded ≡ position whole "MSFT" three_lots)
seeded_position =
    position-seed whole "AAPL" "MSFT" (negsuc 19) (pos 97) three_lots whole-SignLaws twenty_exact
      refl
