-- ===== src/Orders/Transitions.antt =====
-- The state machine of an order: legal moves, failed calls, closed orders, repeated fills.
use bucks.Common.Text.{same_iff}
use bucks.Common.{[], ◌∷◌, refl, inr, inl, some, true, arith, List, none, Option, ◌≡◌, String}
use bucks.Orders.{
  is_terminal, apply_fill, transition, OrderError, reject, seen, cancel, can_transition, Order,
}
use bucks.Orders.Fills.{apply_fill-cases, posted, Fills}
use bucks.Orders.Lifecycle.{Call, fills, cancels, rejects, step, run}
use bucks.Money.{DecimalOps}

module _ (M : DecimalOps) where
  open M use {Decimal}

  -- What no call changes.
  abbrev pub SameIntent : Order M → Order M → Type 0
  SameIntent o p =
      (p.cl_ord_id ≡ o.cl_ord_id)
      × (p.strategy ≡ o.strategy)
      × (p.symbol ≡ o.symbol)
      × (p.side ≡ o.side)
      × (p.order_qty ≡ o.order_qty)
      × (p.limit_px ≡ o.limit_px)

  -- The effect of a call: it failed and changed nothing, or it made a legal move.
  abbrev pub Legal : Order M → Order M × Option OrderError → Type 0
  Legal o (p, some e) = p ≡ o
  Legal o (p, none) = (can_transition o.state p.state ≡ true) × SameIntent o p

  posted-Legal :
      (id : String) (qty px : Decimal) (o : Order M) (c a l : Decimal)
      → Fills M id qty px o c a l
      → Legal o (posted M id c a l o, none)
  unfolding can_transition
  posted-Legal id qty px o c a l f = ground (arith, f.working)

  -- Every call on an order fails and leaves it as it was, or moves it along an edge of the
  -- transition table and leaves its identity, side, quantity and limit alone.
  pub step-Legal : (c : Call M) (o : Order M) → Legal o (step M c o)
  unfolding step cancel reject transition
  step-Legal (fills id qty px) o = elim (apply_fill-cases M id qty px o) [
    | inl (e, _, failed) ↦ rw failed refl
    | inr (c, a, l, f, done) ↦ rw done (posted-Legal id qty px o c a l f)
  ]
  step-Legal cancels o = ground arith
  step-Legal rejects o = ground arith

  terminal_fails : (c : Call M) (o : Order M) → is_terminal o.state ≡ true → (step M c o).0 ≡ o
  unfolding step cancel reject transition
  terminal_fails (fills id qty px) o h = elim (apply_fill-cases M id qty px o) [
    | inl (e, _, failed) ↦ rw failed refl
    | inr (c, a, l, f, done) ↦ cc (h, f.working)
  ]
  terminal_fails cancels o h = ground arith
  terminal_fails rejects o h = ground arith

  -- Once filled, canceled or rejected, an order is the same after any further calls.
  pub run-terminal :
      (cs : List (Call M)) (o : Order M) → is_terminal o.state ≡ true → run M cs o ≡ o
  unfolding run
  run-terminal [] o h = refl
  run-terminal (c ∷ cs) o h = rw (terminal_fails c o h) (run-terminal cs o h)

  step-seen :
      (c : Call M) (id : String) (o : Order M)
      → seen id o.applied_fills ≡ true
      → seen id (step M c o).0.applied_fills ≡ true
  unfolding step cancel reject transition seen
  step-seen (fills other qty px) id o h = elim (apply_fill-cases M other qty px o) [
    | inl (e, _, failed) ↦ rw failed h
    | inr (c, a, l, f, done) ↦ rw (done, h) (ground arith)
  ]
  step-seen cancels id o h = ground arith
  step-seen rejects id o h = ground arith

  run-seen :
      (cs : List (Call M)) (id : String) (o : Order M)
      → seen id o.applied_fills ≡ true
      → seen id (run M cs o).applied_fills ≡ true
  unfolding run
  run-seen [] id o h = h
  run-seen (c ∷ cs) id o h = run-seen cs id (step M c o).0 (step-seen c id o h)

  repeated_fill :
      (id : String) (qty px : Decimal) (o : Order M)
      → seen id o.applied_fills ≡ true
      → (apply_fill M id qty px o).0 ≡ o
  repeated_fill id qty px o h = elim (apply_fill-cases M id qty px o) [
    | inl (e, _, failed) ↦ rw failed refl
    | inr (c, a, l, f, done) ↦ cc (h, f.fresh)
  ]

  -- A fill that was applied once is never counted again: delivered again after any further calls,
  -- under whatever quantity and price, it leaves the order as those calls left it.
  pub apply_fill_once :
      (id : String) (qty px qty' px' : Decimal) (cs : List (Call M)) (o : Order M)
      → (apply_fill M id qty px o).1 ≡ none
      → let later = run M cs (apply_fill M id qty px o).0 in
        (apply_fill M id qty' px' later).0 ≡ later
  unfolding seen
  apply_fill_once id qty px qty' px' cs o h =
      repeated_fill id qty' px' _ (run-seen cs id _ recorded)
    where
      recorded : seen id (apply_fill M id qty px o).0.applied_fills ≡ true
      recorded = elim (apply_fill-cases M id qty px o) [
        | inl (e, _, failed) ↦ absurd (cc (h, failed))
        | inr (c, a, l, f, done) ↦ rw done (rw ((same_iff id id).1 refl))
      ]
