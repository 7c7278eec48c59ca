-- ===== src/Orders/Totals.antt =====
-- The filled quantity of an order against the fills that it accepted.
use bucks.Orders.{transition, reject, OrderError, cancel, Order}
use bucks.Orders.Fills.{apply_fill-cases}
use bucks.Orders.Lifecycle.{Call, fills, cancels, rejects, step, run}
use bucks.Money.{DecimalOps}
use bucks.Common.{arith, inr, refl, inl, ◌∙◌, none, ◌++◌, [], ◌≡◌, some, ◌∷◌, Option, List}

module _ (M : DecimalOps) where
  open M use {Decimal, zero_decimal, add}

  -- The quantity that a call brings, if the call returned no error.
  abbrev quantity : Call M → Option OrderError → List Decimal
  quantity (fills id qty px) none = qty ∷ []
  quantity (fills id qty px) (some e) = []
  quantity cancels e = []
  quantity rejects e = []

  unfoldable pub accepted : List (Call M) → Order M → List Decimal
  accepted [] o = []
  accepted (c ∷ cs) o = let (p, e) = step M c o in quantity c e ++ accepted cs p

  pub sum_from : Decimal → List Decimal → Option Decimal
  sum_from total [] = some total
  sum_from total (q ∷ qs) = elim (add total q) [ none ↦ none | some t ↦ sum_from t qs ]

  step-quantity :
      (c : Call M) (o : Order M) (later : List Decimal)
      → let (p, e) = step M c o in
        sum_from o.cum_qty (quantity c e ++ later) ≡ sum_from p.cum_qty later
  unfolding step cancel reject transition sum_from
  step-quantity (fills id qty px) o later = elim (apply_fill-cases M id qty px o) [
    | inl (e, _, failed) ↦ rw failed refl
    | inr (c, a, l, f, done) ↦ rw done (rw f.total refl)
  ]
  step-quantity cancels o later = ground arith
  step-quantity rejects o later = ground arith

  -- After any calls the filled quantity is the decimal sum, in their order, of exactly those fills
  -- whose call returned no error; the sum itself raises no error.
  pub run-accepted :
      (cs : List (Call M)) (o : Order M)
      → sum_from o.cum_qty (accepted cs o) ≡ some (run M cs o).cum_qty
  unfolding run accepted sum_from
  run-accepted [] o = refl
  run-accepted (c ∷ cs) o =
      step-quantity c o (accepted cs (step M c o).0) ∙ run-accepted cs (step M c o).0
