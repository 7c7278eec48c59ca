-- ===== src/Examples/Boot.antt =====
-- Runs of the reconciliation of a restart.
use bucks.Common.Text.{insert, lookup}
use bucks.Common.Int.{◌-ℤ◌, ◌+ℤ◌, pos, ℤ}
use bucks.Money.Whole.{whole-OrderLaws, whole}
use bucks.Brokers.Reconcile.{
  discrepancies_of, is_seen, place_string, sort_strings, add_symbols, broker_positions,
  journal_positions, resolve_in_flight, resolved_missing, not_found, resolve_all, GetOrder,
  reconcile_on_boot, ReconcileResult, Quantities,
}
use bucks.Orders.Journal.{ReplayResult}
use bucks.Common.{refl, some, ok, none, false, ◌↔◌, true, ◌≡◌, String, List, ◌∷◌, []}
use bucks.Orders.{Side, new_order, buy, sell, filled}
use bucks.Brokers.Reconcile.Clean.{reconcile_on_boot-clean, Matches}

-- Five shares bought and two sold, both terminal, and one order that is still in flight.
abbrev terminal : String → Side → ℤ → ReplayResult whole
terminal id side qty = record {
  order = record (new_order whole id "momentum" "AAPL" side qty (pos 100)) {
    state = filled;
    cum_qty = qty;
  };
  in_flight = false;
}

abbrev replayed : List (ReplayResult whole)
replayed =
    terminal "A" buy (pos 5)
    ∷ terminal "B" sell (pos 2)
    ∷ (record {
      order = new_order whole "C" "momentum" "MSFT" buy (pos 1) (pos 50);
      in_flight = true;
    })
    ∷ []

abbrev broker_knows : String → GetOrder whole
broker_knows id = not_found

abbrev holdings : Quantities whole
holdings = ("AAPL", pos 3) ∷ []

abbrev outcome : ReconcileResult whole
outcome = record {
  resolved =
      (record { cl_ord_id = "C"; symbol = "MSFT"; status = resolved_missing; broker = none }) ∷ [];
  discrepancies = [];
  clean = true;
}

reconciled : reconcile_on_boot whole (ok replayed) broker_knows (some holdings) ≡ ok outcome
unfolding reconcile_on_boot resolve_all resolve_in_flight journal_positions broker_positions
    add_symbols sort_strings place_string is_seen discrepancies_of new_order lookup insert ◌+ℤ◌ ◌-ℤ◌
reconciled = refl

reconcile_on_boot-clean_example :
    (outcome.clean ≡ true) ↔ ((s : String) → Matches whole replayed holdings s)
reconcile_on_boot-clean_example =
    reconcile_on_boot-clean whole replayed broker_knows holdings outcome whole-OrderLaws reconciled
