-- ===== src/Orders/Fills.antt =====
-- `ApplyFill` step by step: what a successful call checked and wrote.
use bucks.Common.{
  refl, ◌∷◌, inr, ◌↔◌, inl, ◌⊎◌, none, err, Bool, Result, if◌then◌else◌, String, true, false, some,
  ◌≡◌, arith, ok,
}
use bucks.Money.{is_eq, DecimalOps, is_gt, is_lt}
use bucks.Orders.{
  partially_filled, filled, OrderError, apply_fill, transition, is_terminal, seen, Order,
  fill_amounts,
}

module _ (M : DecimalOps) where
  open M use {Decimal, add, sub, mul, quo, cmp, sign}

  -- The checks and the arithmetic behind amounts that were computed.
  pub record Fills (id : String) (qty px : Decimal) (o : Order M)
      (new_cum new_avg new_leaves : Decimal) : Type 0 where
    pub working : is_terminal o.state ≡ false
    pub fresh : seen id o.applied_fills ≡ false
    pub positive : is_gt (sign qty) ≡ true
    pub priced : is_lt (sign px) ≡ false
    pub total : add o.cum_qty qty ≡ some new_cum
    pub fits : is_gt (cmp new_cum o.order_qty) ≡ false
    pub open_qty : sub o.order_qty new_cum ≡ some new_leaves
    pub notional :
        (prev paid sum : Decimal) × (mul o.avg_px o.cum_qty ≡ some prev)
        × (mul px qty ≡ some paid)
        × (add prev paid ≡ some sum)
        × (quo sum new_cum ≡ some new_avg)

  pub fill_amounts-Fills :
      (id : String) (qty px : Decimal) (o : Order M) (c a l : Decimal)
      → fill_amounts M id qty px o ≡ ok (c, a, l)
      → Fills id qty px o c a l
  unfolding fill_amounts
  fill_amounts-Fills id qty px o c a l h = record {
    working = ground arith;
    fresh = ground arith;
    positive = ground arith;
    priced = ground arith;
    total = ground arith;
    fits = ground arith;
    open_qty = ground arith;
    notional = ground arith;
  }

  pub Fills-fill_amounts :
      (id : String) (qty px : Decimal) (o : Order M) (c a l : Decimal)
      → Fills id qty px o c a l
      → fill_amounts M id qty px o ≡ ok (c, a, l)
  unfolding fill_amounts
  Fills-fill_amounts id qty px o c a l h =
      rw (h.working, h.fresh, h.positive, h.priced, h.total)
        (rw (h.fits, h.notional.3, h.notional.4) (rw (h.notional.5, h.notional.6, h.open_qty)))

  -- The order with a fill of these amounts posted.
  abbrev pub posted : String → Decimal → Decimal → Decimal → Order M → Order M
  posted id c a l o = record o {
    state = if is_eq (cmp c o.order_qty) then filled else partially_filled;
    cum_qty = c;
    avg_px = a;
    leaves_qty = l;
    applied_fills = id ∷ o.applied_fills;
  }

  fill_transition :
      (full : Bool) (o : Order M)
      → is_terminal o.state ≡ false
      → transition M (if full then filled else partially_filled) o
        ≡ (record o { state = if full then filled else partially_filled }, none)
  unfolding transition
  fill_transition full o h = ground arith

  apply_fill_err :
      (id : String) (qty px : Decimal) (o : Order M) (e : OrderError)
      → fill_amounts M id qty px o ≡ err e
      → apply_fill M id qty px o ≡ (o, some e)
  unfolding apply_fill
  apply_fill_err id qty px o e h = rw (h, apply_fill)

  apply_fill_ok :
      (id : String) (qty px : Decimal) (o : Order M) (c a l : Decimal)
      → fill_amounts M id qty px o ≡ ok (c, a, l)
      → apply_fill M id qty px o ≡ (posted id c a l o, none)
  unfolding apply_fill
  apply_fill_ok id qty px o c a l h =
      rw (h, apply_fill)
        (rw (
          fill_transition (is_eq (cmp c o.order_qty)) o
            (fill_amounts-Fills id qty px o c a l h).working))

  abbrev Outcome :
      String
      → Decimal
      → Decimal
      → Order M
      → Result OrderError (Decimal × Decimal × Decimal)
      → Type 0
  Outcome id qty px o r =
      ((e : OrderError) × (r ≡ err e) × (apply_fill M id qty px o ≡ (o, some e)))
      ⊎ ((c : Decimal) × (a : Decimal) × (l : Decimal) × Fills id qty px o c a l
          × (apply_fill M id qty px o ≡ (posted id c a l o, none)))

  outcome :
      (id : String) (qty px : Decimal) (o : Order M)
      (r : Result OrderError (Decimal × Decimal × Decimal))
      → fill_amounts M id qty px o ≡ r
      → Outcome id qty px o r
  outcome id qty px o (err e) h = inl (e, refl, apply_fill_err id qty px o e h)
  outcome id qty px o (ok (c, a, l)) h =
      inr (c, a, l, fill_amounts-Fills id qty px o c a l h, apply_fill_ok id qty px o c a l h)

  -- A call fails and writes nothing, or posts a fill whose checks all passed.
  pub apply_fill-cases :
      (id : String) (qty px : Decimal) (o : Order M)
      → ((e : OrderError) × (fill_amounts M id qty px o ≡ err e)
          × (apply_fill M id qty px o ≡ (o, some e)))
        ⊎ ((c : Decimal) × (a : Decimal) × (l : Decimal) × Fills id qty px o c a l
            × (apply_fill M id qty px o ≡ (posted id c a l o, none)))
  apply_fill-cases id qty px o = outcome id qty px o (fill_amounts M id qty px o) refl

  -- `ApplyFill` returns no error exactly when the order is working, the fill id is new, the
  -- quantity is positive, the price is not negative, the new total fits the order and no decimal
  -- operation fails.
  pub apply_fill_iff :
      (id : String) (qty px : Decimal) (o : Order M)
      → ((apply_fill M id qty px o).1 ≡ none)
        ↔ ((c : Decimal) × (a : Decimal) × (l : Decimal) × Fills id qty px o c a l)
  apply_fill_iff id qty px o = (forth, back)
    where
      forth :
          (apply_fill M id qty px o).1 ≡ none
          → (c : Decimal) × (a : Decimal) × (l : Decimal) × Fills id qty px o c a l
      forth h = elim (apply_fill-cases id qty px o) [
        | inl (e, _, failed) ↦ absurd (cc (h, failed))
        | inr (c, a, l, f, _) ↦ (c, a, l, f)
      ]

      back :
          (c : Decimal) × (a : Decimal) × (l : Decimal) × Fills id qty px o c a l
          → (apply_fill M id qty px o).1 ≡ none
      back (c, a, l, f) =
          rw (apply_fill_ok id qty px o c a l (Fills-fill_amounts id qty px o c a l f))
