-- ===== src/Examples/Reconciler.antt =====
-- Runs of the fill reconciler and of the stored basis.
use bucks.Ledger.Reconciler.Once.{reconcile_fills-once, ids_of}
use bucks.Common.Text.{lookup, insert, same}
use bucks.Money.Whole.{whole}
use bucks.Orders.{sell, buy, seen}
use bucks.Ledger.Reconciler.Synced.{reconcile_fills-Synced, IsSynced}
use bucks.Ledger.Reconciler.{
  restore, save_current_state, next_cursor, remember_broker_fill, remember_fill, apply_failed,
  applied_fill, reconcile_fill, reconcile_fills, Reconciler, Fill, Faults,
}
use bucks.Ledger.{reduce_lot, consume, apply_to, apply, short, Accountant}
use bucks.Ledger.Basis.{
  place, restore_amount, restore_lots, restore_basis-AllOpen, restore_position, basis_positions,
  restore_positions, encode_basis, AllOpen, restore_basis, BasisState,
}
use bucks.Common.Int.{◌*ℤ◌, ◌-ℤ◌, ◌+ℤ◌, negsuc, leb_ℤ, pos, ℤ}
use bucks.Common.{
  ok, length, none, ◌≡◌, ◌⊎◌, refl, some, All, [], true, false, Option, if◌then◌else◌, ℕ, String,
  List, ◌∷◌,
}

-- Amounts as texts: five, ninety, and anything else.
abbrev text_of : ℤ → String
text_of a = if leb_ℤ a (pos 5) then "5" else "90"

abbrev parse : String → Option ℤ
parse text = if same text "5" then some (pos 5) else if same text "90" then some (pos 90) else none

-- A basis as the number of its positions.
abbrev marshal : BasisState → Option (List ℕ)
marshal state = some (length state.positions ∷ [])

abbrev one_position : BasisState
one_position = record {
  version = pos 1;
  positions =
      record { symbol = "AAPL"; dir = negsuc 0; lots = record { qty = "5"; px = "90" } ∷ [] } ∷ [];
}

abbrev unmarshal : List ℕ → Option BasisState
unmarshal bytes = some one_position

abbrev restored : Accountant whole
restored = ("AAPL", record { dir = short; lots = record { qty = pos 5; px = pos 90 } ∷ [] }) ∷ []

restored_one : restore_basis whole parse unmarshal (1 ∷ []) ≡ ok restored
unfolding restore_basis restore_positions restore_position restore_lots restore_amount insert
restored_one = refl

restore_basis-AllOpen_example : AllOpen whole parse restored
restore_basis-AllOpen_example =
    restore_basis-AllOpen whole parse unmarshal (1 ∷ []) restored restored_one

abbrev no_faults : Faults
no_faults = record { seen_fails = false; remember_fails = false; save_fails = false }

abbrev bought : Fill ℤ
bought = record { id = "t-1"; symbol = "AAPL"; side = buy; qty = pos 5; px = pos 90; at = pos 10 }

abbrev sold : Fill ℤ
sold = record { id = "t-2"; symbol = "AAPL"; side = sell; qty = pos 5; px = pos 100; at = pos 20 }

abbrev started : Reconciler whole text_of marshal
started = record {
  store = record { fill_ids = []; trades = []; state = some (pos 0, 0 ∷ []) };
  acct = [];
  after = pos 0;
  state_loaded = true;
  loaded_from_store = false;
}

started-Synced : IsSynced whole text_of marshal started
unfolding encode_basis basis_positions
started-Synced = (0 ∷ [], refl, refl)

-- The store fails behind the second fill.
abbrev failing_day : List (Fill ℤ × Faults)
failing_day = (bought, no_faults) ∷ (sold, record no_faults { remember_fails = true }) ∷ []

reconcile_fills-Synced_example :
    IsSynced whole text_of marshal (reconcile_fills whole text_of marshal failing_day started).0
    ⊎ ((reconcile_fills whole text_of marshal failing_day started).1 ≡ some apply_failed)
reconcile_fills-Synced_example =
    reconcile_fills-Synced whole text_of marshal failing_day started started-Synced

abbrev whole_day : List (Fill ℤ × Faults)
whole_day = (bought, no_faults) ∷ (sold, no_faults) ∷ []

-- The round trip realizes fifty.
day_posted :
    ((reconcile_fills whole text_of marshal whole_day started).1 ≡ none)
    × ((reconcile_fills whole text_of marshal whole_day started).0.store.trades
        ≡ ("AAPL", pos 50) ∷ [])
unfolding reconcile_fills reconcile_fill applied_fill remember_fill remember_broker_fill
    encode_basis basis_positions next_cursor seen apply apply_to consume reduce_lot lookup insert
    place save_current_state restore ◌+ℤ◌ ◌-ℤ◌ ◌*ℤ◌
day_posted = (refl, refl)

fills_listed : All (λ g. seen g.0.id (ids_of whole text_of marshal whole_day) ≡ true) failing_day
unfolding seen
fills_listed = (refl, (refl, tt))

reconcile_fills-once_example :
    let first = (reconcile_fills whole text_of marshal whole_day started).0 in
    let later = (reconcile_fills whole text_of marshal failing_day first).0 in
    (later.acct ≡ first.acct) × (later.store.trades ≡ first.store.trades)
reconcile_fills-once_example =
    reconcile_fills-once whole text_of marshal whole_day failing_day started day_posted.0
      fills_listed
