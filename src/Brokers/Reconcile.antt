-- ===== src/Brokers/Reconcile.antt =====
-- internal/brokers/reconcile.go: a restart resolves what was in flight and compares positions. What
-- the broker answers is an argument.
pub mod Clean
use bucks.Common.Text.{same, insert, lookup}
use bucks.Money.{is_eq, is_lt, DecimalOps}
use bucks.Common.{
  ◌||◌, ◌>>=◌, or_fail, not, none, err, true, ◌++◌, ok, some, false, Result, Option, Bool,
  if◌then◌else◌, String, List, ◌∷◌, [],
}
use bucks.Orders.{Order, sell, buy, Side}
use bucks.Orders.Journal.{ReplayResult, JournalError}
use Prim.Native.String.{compare as compare_text}

pub data OrderStatus : Type 0 where
  status_unknown status_new status_partially_filled : OrderStatus
  status_filled status_canceled status_rejected : OrderStatus

pub data ResolvedStatus : Type 0 where
  resolved_open resolved_filled resolved_canceled resolved_rejected resolved_missing :
      ResolvedStatus

-- The switch of `resolveInFlight`.
unfoldable pub resolved_status : OrderStatus → ResolvedStatus
resolved_status status_filled = resolved_filled
resolved_status status_canceled = resolved_canceled
resolved_status status_rejected = resolved_rejected
resolved_status status_unknown = resolved_missing
resolved_status status_new = resolved_open
resolved_status status_partially_filled = resolved_open

pub data ReconcileFailure : Type 0 where
  replay_failed : JournalError → ReconcileFailure
  get_order_failed sum_failed positions_failed : ReconcileFailure

-- `sort.Strings`: equal strings are the same, so any sort gives this list.
unfoldable pub place_string : String → List String → List String
place_string s [] = s ∷ []
place_string s (x ∷ xs) =
    let later = place_string s xs in if is_lt (compare_text x s) then x ∷ later else s ∷ x ∷ xs

unfoldable pub sort_strings : List String → List String
sort_strings [] = []
sort_strings (s ∷ xs) = place_string s (sort_strings xs)

-- `_, ok := seen[sym]`
unfoldable pub is_seen : String → List String → Bool
is_seen s [] = false
is_seen s (x ∷ xs) = same x s || is_seen s xs

module _ (M : DecimalOps) where
  open M use {Decimal, zero_decimal, add, cmp, sign, neg}

  pub record BrokerOrder : Type 0 where
    pub broker_order_id : String
    pub cl_ord_id : String
    pub symbol : String
    pub side : Side
    pub status : OrderStatus
    pub order_qty : Decimal
    pub cum_qty : Decimal
    pub avg_px : Decimal

  -- What `GetOrder` answers.
  pub data GetOrder : Type 0 where
    found : BrokerOrder → GetOrder
    not_found unavailable : GetOrder

  -- `Broker` is zero-valued, here `none`, where the broker does not know the order.
  pub record ResolvedOrder : Type 0 where
    pub cl_ord_id : String
    pub symbol : String
    pub status : ResolvedStatus
    pub broker : Option BrokerOrder

  pub record PositionDiscrepancy : Type 0 where
    pub symbol : String
    pub journal_qty : Decimal
    pub broker_qty : Decimal

  pub record ReconcileResult : Type 0 where
    pub resolved : List ResolvedOrder
    pub discrepancies : List PositionDiscrepancy
    pub clean : Bool

  abbrev pub Quantities : Type 0
  Quantities = List (String × Decimal)

  -- `m[sym]`, zero where the map has no entry.
  abbrev pub or_zero : Option Decimal → Decimal
  or_zero none = zero_decimal
  or_zero (some qty) = qty

  abbrev pub qty_of : String → Quantities → Decimal
  qty_of symbol quantities = or_zero (lookup symbol quantities)

  -- `resolveInFlight`, on the answer of `GetOrder`.
  abbrev pub resolve_answer : Order M → GetOrder → Result ReconcileFailure ResolvedOrder
  resolve_answer o (found b) = ok (record {
    cl_ord_id = o.cl_ord_id;
    symbol = o.symbol;
    status = resolved_status b.status;
    broker = some b;
  })
  resolve_answer o not_found = ok (record {
    cl_ord_id = o.cl_ord_id;
    symbol = o.symbol;
    status = resolved_missing;
    broker = none;
  })
  resolve_answer o unavailable = err get_order_failed

  unfoldable pub resolve_in_flight :
      (get_order : String → GetOrder) → Order M → Result ReconcileFailure ResolvedOrder
  resolve_in_flight get_order o = resolve_answer o (get_order o.cl_ord_id)

  -- The first loop: the orders in flight.
  unfoldable pub resolve_all :
      (get_order : String → GetOrder)
      → List (ReplayResult M)
      → Result ReconcileFailure (List ResolvedOrder)
  resolve_all get_order [] = ok []
  resolve_all get_order (r ∷ rs) =
      let rest = resolve_all get_order rs in
      if not r.in_flight
      then rest
      else resolve_in_flight get_order r.order >>= λ resolved. rest >>= λ all. ok (resolved ∷ all)

  abbrev pub signed_qty : Order M → Decimal
  signed_qty o = elim o.side [ sell ↦ neg o.cum_qty | buy ↦ o.cum_qty ]

  -- The second loop: the quantities of the terminal orders, by symbol.
  unfoldable pub journal_positions :
      Quantities → List (ReplayResult M) → Result ReconcileFailure Quantities
  journal_positions positions [] = ok positions
  journal_positions positions (r ∷ rs) =
      if r.in_flight
      then journal_positions positions rs
      else if is_eq (sign r.order.cum_qty)
      then journal_positions positions rs
      else or_fail (add (qty_of r.order.symbol positions) (signed_qty r.order)) sum_failed
        >>= λ sum. journal_positions (insert r.order.symbol sum positions) rs

  -- The third: the broker's positions, by symbol.
  unfoldable pub broker_positions : Quantities → Quantities → Quantities
  broker_positions positions [] = positions
  broker_positions positions ((symbol, qty) ∷ rest) =
      broker_positions (insert symbol qty positions) rest

  -- `for sym := range m`: the symbols that were not seen yet.
  unfoldable pub add_symbols : List String → Quantities → List String
  add_symbols symbols [] = symbols
  add_symbols symbols ((symbol, qty) ∷ rest) =
      if is_seen symbol symbols
      then add_symbols symbols rest
      else add_symbols (symbols ++ symbol ∷ []) rest

  -- The last loop: the symbols on which the two sides differ.
  unfoldable pub discrepancies_of :
      (journal broker : Quantities) → List String → List PositionDiscrepancy
  discrepancies_of journal broker [] = []
  discrepancies_of journal broker (symbol ∷ symbols) =
      let rest = discrepancies_of journal broker symbols in
      if is_eq (cmp (qty_of symbol journal) (qty_of symbol broker))
      then rest
      else (record {
        symbol = symbol;
        journal_qty = qty_of symbol journal;
        broker_qty = qty_of symbol broker;
      })
        ∷ rest

  abbrev pub is_empty : List PositionDiscrepancy → Bool
  is_empty [] = true
  is_empty (d ∷ ds) = false

  abbrev pub symbols_of : (journal broker : Quantities) → List String
  symbols_of journal broker = sort_strings (add_symbols (add_symbols [] journal) broker)

  -- `ReconcileOnBoot`, with what `Replay`, `GetOrder` and `Positions` answer.
  unfoldable pub reconcile_on_boot :
      Result JournalError (List (ReplayResult M))
      → (get_order : String → GetOrder) → (positions : Option Quantities)
      → Result ReconcileFailure ReconcileResult
  reconcile_on_boot (err e) get_order positions = err (replay_failed e)
  reconcile_on_boot (ok replayed) get_order positions =
      resolve_all get_order replayed >>= λ resolved. journal_positions [] replayed >>= λ journal.
      or_fail positions positions_failed >>= λ held.
      let broker = broker_positions [] held in
      let found_out = discrepancies_of journal broker (symbols_of journal broker) in
      ok (record { resolved = resolved; discrepancies = found_out; clean = is_empty found_out })
