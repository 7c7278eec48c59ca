-- ===== src/Orders/Lifecycle.antt =====
-- The calls that an order takes during its life, and the invariant that they keep.
use bucks.Orders.Fills.{posted, apply_fill-cases, Fills}
use bucks.Common.{inr, inl, String, true, false, Option, some, List, [], ◌∷◌, ◌≡◌, refl, ◌≢◌, arith}
use bucks.Money.{DecimalOps, is_gt, is_eq}
use bucks.Orders.{
  State, new, partially_filled, filled, canceled, rejected, Side, OrderError, seen, Order,
  new_order, cancel, reject, apply_fill,
}

module _ (M : DecimalOps) where
  open M use {Decimal, zero_decimal, sub, cmp}

  pub data Call : Type 0 where
    fills : String → Decimal → Decimal → Call
    cancels rejects : Call

  unfoldable pub step : Call → Order M → Order M × Option OrderError
  step (fills id qty px) = apply_fill M id qty px
  step cancels = cancel M
  step rejects = reject M

  -- The order after a list of calls, whatever each returned.
  unfoldable pub run : List Call → Order M → Order M
  run [] o = o
  run (c ∷ cs) o = run cs (step c o).0

  -- No fill id stands twice.
  abbrev pub Distinct : List String → Type 0
  Distinct [] = Unit
  Distinct (x ∷ xs) = (seen x xs ≡ false) × Distinct xs

  -- What the quantities are in each state.
  abbrev pub Accounts : State → Order M → Type 0
  Accounts new o =
      (o.cum_qty ≡ zero_decimal) × (o.leaves_qty ≡ o.order_qty) × (o.applied_fills ≡ [])
  Accounts partially_filled o =
      (is_eq (cmp o.cum_qty o.order_qty) ≡ false)
      × (sub o.order_qty o.cum_qty ≡ some o.leaves_qty)
      × (o.applied_fills ≢ [])
  Accounts filled o =
      (is_eq (cmp o.cum_qty o.order_qty) ≡ true)
      × (sub o.order_qty o.cum_qty ≡ some o.leaves_qty)
      × (o.applied_fills ≢ [])
  Accounts canceled o = o.leaves_qty ≡ zero_decimal
  Accounts rejected o =
      (o.leaves_qty ≡ zero_decimal) × (o.cum_qty ≡ zero_decimal) × (o.applied_fills ≡ [])

  pub record IsValid (o : Order M) : Type 0 where
    pub within : is_gt (cmp o.cum_qty o.order_qty) ≡ false
    pub accounts : Accounts o.state o
    pub distinct : Distinct o.applied_fills

  pub new_order-IsValid :
      (cl_ord_id strategy symbol : String) (side : Side) (order_qty limit_px : Decimal)
      → is_gt (cmp zero_decimal order_qty) ≡ false
      → IsValid (new_order M cl_ord_id strategy symbol side order_qty limit_px)
  unfolding new_order
  new_order-IsValid cl_ord_id strategy symbol side order_qty limit_px h = record {
    within = h;
    accounts = (refl, refl, refl);
    distinct = tt;
  }

  cancel-IsValid : (o : Order M) → IsValid o → IsValid (cancel M o).0
  unfolding cancel
  cancel-IsValid o v = ground arith

  reject-IsValid : (o : Order M) → IsValid o → IsValid (reject M o).0
  unfolding reject
  reject-IsValid o v = ground arith

  posted-IsValid :
      (id : String) (qty px : Decimal) (o : Order M) (c a l : Decimal)
      → Fills M id qty px o c a l
      → IsValid o
      → IsValid (posted M id c a l o)
  posted-IsValid id qty px o c a l f v = record {
    within = f.fits;
    accounts = ground (arith, f.open_qty);
    distinct = (f.fresh, v.distinct);
  }

  apply_fill-IsValid :
      (id : String) (qty px : Decimal) (o : Order M)
      → IsValid o
      → IsValid (apply_fill M id qty px o).0
  apply_fill-IsValid id qty px o v = elim (apply_fill-cases M id qty px o) [
    | inl (e, _, same_order) ↦ rw same_order v
    | inr (c, a, l, f, done) ↦ rw done (posted-IsValid id qty px o c a l f v)
  ]

  step-IsValid : (c : Call) (o : Order M) → IsValid o → IsValid (step c o).0
  unfolding step
  step-IsValid (fills id qty px) o v = apply_fill-IsValid id qty px o v
  step-IsValid cancels o v = cancel-IsValid o v
  step-IsValid rejects o v = reject-IsValid o v

  run-IsValid : (cs : List Call) (o : Order M) → IsValid o → IsValid (run cs o)
  unfolding run
  run-IsValid [] o v = v
  run-IsValid (c ∷ cs) o v = run-IsValid cs (step c o).0 (step-IsValid c o v)

  -- From a new order of a quantity that is not negative, after any calls: the filled quantity is
  -- at most the order's; the open quantity is their difference while the order fills, and zero
  -- once it is canceled or rejected; a filled order is filled exactly, a partially filled one is
  -- not; a rejected order has no fills; and no fill id is counted twice.
  pub run-new_order-IsValid :
      (cs : List Call) (cl_ord_id strategy symbol : String) (side : Side)
      (order_qty limit_px : Decimal)
      → is_gt (cmp zero_decimal order_qty) ≡ false
      → IsValid (run cs (new_order M cl_ord_id strategy symbol side order_qty limit_px))
  run-new_order-IsValid cs cl_ord_id strategy symbol side order_qty limit_px h =
      run-IsValid cs _ (new_order-IsValid cl_ord_id strategy symbol side order_qty limit_px h)
