-- ===== src/Orders.antt =====
-- internal/orders/order.go: one working order, its states and its cumulative-fill accounting.
pub mod Fills
pub mod ClientOrderId
pub mod Journal
pub mod Totals
pub mod Lifecycle
pub mod Transitions
use bucks.Common.Int.{ℤ}
use bucks.Common.{
  String, Bool, true, false, Option, none, some, List, [], ◌∷◌, if◌then◌else◌, not, ◌||◌, ◌&&◌,
  Result, ok, err, ◌>>=◌, ◌>>◌, fail_if, or_fail,
}
use bucks.Common.Text.{same}
use bucks.Money.{DecimalOps, is_gt, is_lt, is_eq}

pub data State : Type 0 where
  new partially_filled filled canceled rejected : State

-- `State.IsTerminal`
abbrev pub is_terminal : State → Bool
is_terminal filled = true
is_terminal canceled = true
is_terminal rejected = true
is_terminal new = false
is_terminal partially_filled = false

pub data Side : Type 0 where
  buy sell : Side

-- The integer that stands for a side in a value from outside: that of a side, or any other, which
-- then is neither 0 nor 1.
pub data SideValue : Type 0 where
  side_buy side_sell : SideValue
  other_side : ℤ → SideValue

pub data OrderError : Type 0 where
  illegal_transition fill_already_applied overfill fill_on_terminal invalid_fill arithmetic :
      OrderError

-- `canTransition` over the table `legalTransitions`; a missing entry is false.
unfoldable pub can_transition : State → State → Bool
can_transition new partially_filled = true
can_transition new filled = true
can_transition new canceled = true
can_transition new rejected = true
can_transition new new = false
can_transition partially_filled partially_filled = true
can_transition partially_filled filled = true
can_transition partially_filled canceled = true
can_transition partially_filled rejected = false
can_transition partially_filled new = false
can_transition filled to = false
can_transition canceled to = false
can_transition rejected to = false

abbrev is_partially_filled : State → Bool
is_partially_filled partially_filled = true
is_partially_filled new = false
is_partially_filled filled = false
is_partially_filled canceled = false
is_partially_filled rejected = false

-- Membership in the set `appliedFills`.
unfoldable pub seen : String → List String → Bool
seen id [] = false
seen id (x ∷ xs) = if same x id then true else seen id xs

module _ (M : DecimalOps) where
  open M use {Decimal, zero_decimal, add, sub, mul, quo, cmp, sign}

  pub record Order : Type 0 where
    pub cl_ord_id : String
    pub strategy : String
    pub symbol : String
    pub side : Side
    pub order_qty : Decimal
    pub limit_px : Decimal
    pub state : State
    pub cum_qty : Decimal
    pub avg_px : Decimal
    pub leaves_qty : Decimal
    pub applied_fills : List String

  unfoldable pub new_order : String → String → String → Side → Decimal → Decimal → Order
  new_order cl_ord_id strategy symbol side order_qty limit_px = record {
    cl_ord_id = cl_ord_id;
    strategy = strategy;
    symbol = symbol;
    side = side;
    order_qty = order_qty;
    limit_px = limit_px;
    state = new;
    cum_qty = zero_decimal;
    avg_px = zero_decimal;
    leaves_qty = order_qty;
    applied_fills = [];
  }

  -- `transition`: the order afterwards and the returned error.
  unfoldable pub transition : State → Order → Order × Option OrderError
  unfolding can_transition
  transition to o =
      if is_partially_filled o.state && is_partially_filled to
      then (o, none)
      else if not (can_transition o.state to)
      then (o, some illegal_transition)
      else (record o { state = to }, none)

  -- The tail that `Cancel` and `Reject` share: `LeavesQty` is closed out unless the move failed.
  abbrev close_leaves : Order × Option OrderError → Order × Option OrderError
  close_leaves (o, some e) = (o, some e)
  close_leaves (o, none) = (record o { leaves_qty = zero_decimal }, none)

  unfoldable pub cancel : Order → Order × Option OrderError
  unfolding transition
  cancel o = close_leaves (transition canceled o)

  unfoldable pub reject : Order → Order × Option OrderError
  unfolding transition
  reject o = close_leaves (transition rejected o)

  -- The new cumulative quantity, average price and open quantity, before anything is written.
  unfoldable pub fill_amounts :
      String → Decimal → Decimal → Order → Result OrderError (Decimal × Decimal × Decimal)
  unfolding seen
  fill_amounts fill_id qty px o = do
    fail_if (is_terminal o.state) fill_on_terminal
    fail_if (seen fill_id o.applied_fills) fill_already_applied
    fail_if (not (is_gt (sign qty)) || is_lt (sign px)) invalid_fill
    new_cum ← or_fail (add o.cum_qty qty) arithmetic
    fail_if (is_gt (cmp new_cum o.order_qty)) overfill
    prev_notional ← or_fail (mul o.avg_px o.cum_qty) arithmetic
    fill_notional ← or_fail (mul px qty) arithmetic
    total_notional ← or_fail (add prev_notional fill_notional) arithmetic
    new_avg ← or_fail (quo total_notional new_cum) arithmetic
    new_leaves ← or_fail (sub o.order_qty new_cum) arithmetic
    ok (new_cum, new_avg, new_leaves)

  -- The accounting is committed only if the transition succeeded.
  abbrev commit_fill :
      String → Decimal → Decimal → Decimal → Order × Option OrderError → Order × Option OrderError
  commit_fill fill_id new_cum new_avg new_leaves (o, some e) = (o, some e)
  commit_fill fill_id new_cum new_avg new_leaves (o, none) = (
    record o {
      cum_qty = new_cum;
      avg_px = new_avg;
      leaves_qty = new_leaves;
      applied_fills = fill_id ∷ o.applied_fills;
    },
    none,
  )

  -- `ApplyFill`
  unfoldable pub apply_fill : String → Decimal → Decimal → Order → Order × Option OrderError
  apply_fill fill_id qty px o = elim (fill_amounts fill_id qty px o) [
    | err e ↦ (o, some e)
    | ok (new_cum, new_avg, new_leaves) ↦
        commit_fill fill_id new_cum new_avg new_leaves
          (transition (if is_eq (cmp new_cum o.order_qty) then filled else partially_filled) o)
  ]
