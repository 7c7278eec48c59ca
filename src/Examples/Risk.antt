-- ===== src/Examples/Risk.antt =====
-- Runs of the risk gate, the kill switch and the retry delays.
use bucks.Kernel.UnixNanos.{int64_max, add_64}
use bucks.Risk.Engine.Gate.{check_order-approved, Permitted}
use bucks.Risk.Engine.Drawdown.{drawdown_breached_iff, Breach, drawdown_breached_mono}
use bucks.Risk.Engine.Safety.{symbol_exposure_after_order-le, check_order-hard_cap}
use bucks.Orders.{other_side, side_sell, side_buy}
use bucks.Risk.KillSwitch.Runaway.{record_order-trips, times_of, count_recent, record_all}
use bucks.Money.Whole.{whole-RoundingLaws, whole-OrderLaws, whole}
use bucks.Risk.KillSwitch.Durability.{run, step, Op, halts, clears, restarts}
use bucks.Risk.Engine.{
  invalid_input, open_count, count_open, check_slots, check_exposure, gross_exposure_from,
  gross_exposure_of, current_gross, per_trade_risk_amount, check_trade_risk, check_daily_loss,
  check_input, rejected,
}
use bucks.Common.Text.{lookup}
use bucks.Common.Int.{◌+ℤ◌, pos_part, ◌≤ℤ◌, ◌<ℤ◌, negsuc, ℤ, pos, ◌*ℤ◌, ◌-ℤ◌}
use bucks.Risk.Backoff.{
  double_64, exp_loop, delay-le-cap, exp_window-eq-min, delay, exp_window, new_backoff,
}
use bucks.Risk.KillSwitch.Durability.{
  clear_commits, halt_commits, run-halted, run-reopened, clears, reopened, halts, Op,
}
use bucks.Risk.KillSwitch.{
  app_halted, query_failed, is_halted, persist_failed, PersistStep, holds, rename, guard_disabled,
  manual, no_halt, prune, fsync, persist_state, max_daily_loss, commits, clear, fails_at, absent,
  record_order, Disk, halt, open_switch, KillSwitch,
}
use bucks.Money.Laws.{AtMost}
use bucks.Risk.Engine.{
  reduced_exposure, gross_leverage, projected_exposure, missing_stop, exposure_of_held, approved,
  new_engine, symbol_exposure_of, symbol_exposure_after_order, drawdown_breached, Positions,
  check_order, PortfolioState, OrderProposal, Engine, Config,
}
use bucks.Common.{
  arith, ◌++◌, ◌^◌, ◌*◌, ◌⊎◌, ◌/◌, min, none, refl, ◌↔◌, [], some, ok, false, ◌∷◌, true, ◌≡◌, List,
}

-- Caps in whole multiples of the equity; the hard cap is twice the equity.
abbrev caps : Config whole
caps = record {
  max_risk_per_trade_pct = pos 5;
  max_daily_loss_pct = pos 1;
  max_gross_leverage = pos 4;
  max_total_exposure = pos 100_000;
  max_concentration_pct = pos 3;
  max_open_positions = pos 2;
  max_drawdown_pct = pos 1;
  require_stop = true;
}

abbrev engine : Engine whole
engine = new_engine whole (pos 2) (pos 1) caps

-- Ten shares at 100 with a stop at 90, on an equity of 1000.
abbrev proposal : OrderProposal whole
proposal = record {
  symbol = "AAPL";
  side = side_buy;
  qty = pos 10;
  entry_px = pos 100;
  stop_px = pos 90;
  account_equity = pos 1000;
}

abbrev portfolio : PortfolioState whole
portfolio = record {
  equity = pos 1000;
  cash = pos 500;
  positions = ("MSFT", record { qty = pos 2; mark_px = pos 300 }) ∷ [];
  realized_pnl_today = negsuc 49;
  gross_exposure = none;
  open_position_count = negsuc 0;
}

check_order-approved_example :
    (check_order whole engine proposal portfolio ≡ approved)
    ↔ Permitted whole engine proposal portfolio
check_order-approved_example = check_order-approved whole engine proposal portfolio

approves_proposal : check_order whole engine proposal portfolio ≡ approved
unfolding check_order check_input new_engine check_daily_loss ◌*ℤ◌ check_trade_risk
    per_trade_risk_amount ◌-ℤ◌ current_gross gross_exposure_of gross_exposure_from ◌+ℤ◌
    symbol_exposure_after_order symbol_exposure_of exposure_of_held lookup projected_exposure
    check_exposure check_slots count_open open_count reduced_exposure
approves_proposal = refl

-- Without the stop, and with a stop on the wrong side, the order is refused.
rejects_missing_stop :
    (check_order whole engine (record proposal { stop_px = pos 0 }) portfolio
      ≡ rejected missing_stop)
    × (check_order whole engine (record proposal { stop_px = pos 110 }) portfolio
        ≡ rejected missing_stop)
    × (check_order whole engine (record proposal { qty = pos 100 }) portfolio
        ≡ rejected gross_leverage)
unfolding check_order check_input new_engine check_daily_loss ◌*ℤ◌ check_trade_risk
    per_trade_risk_amount ◌-ℤ◌ current_gross gross_exposure_of gross_exposure_from ◌+ℤ◌
    symbol_exposure_after_order symbol_exposure_of exposure_of_held lookup projected_exposure
    check_exposure check_slots count_open open_count reduced_exposure
rejects_missing_stop = (refl, refl, refl)

-- A side that is neither is refused, also where the rest would make it a reduction.
rejects_other_side :
    check_order whole engine (record proposal { side = other_side (pos 99) }) portfolio
    ≡ rejected invalid_input
unfolding check_order check_input
rejects_other_side = refl

-- Two of five held shares are sold.
abbrev held_five : Positions whole
held_five = ("AAPL", record { qty = pos 5; mark_px = pos 80 }) ∷ []

abbrev sale : OrderProposal whole
sale = record proposal { side = side_sell; qty = pos 2; stop_px = pos 110 }

distance : whole.sub (pos 100) (pos 90) ≡ some (pos 10)
unfolding ◌-ℤ◌
distance = refl

risked : whole.mul (pos 10) (pos 10) ≡ some (pos 100)
unfolding ◌*ℤ◌
risked = refl

budgeted : whole.mul (pos 2) (pos 1000) ≡ some (pos 2000)
unfolding ◌*ℤ◌
budgeted = refl

held_found : lookup "AAPL" held_five ≡ some (record { qty = pos 5; mark_px = pos 80 })
unfolding lookup
held_found = refl

sale_exposure : symbol_exposure_after_order whole held_five sale (pos 200) ≡ some (pos 400, pos 240)
unfolding symbol_exposure_after_order symbol_exposure_of exposure_of_held projected_exposure
    reduced_exposure lookup ◌*ℤ◌ ◌-ℤ◌
sale_exposure = refl

deeper : whole.sub (pos 1000) (negsuc 9) ≡ some (pos 1010)
unfolding ◌-ℤ◌
deeper = refl

breach : drawdown_breached whole engine (pos 1000) (pos 0) ≡ true
unfolding drawdown_breached new_engine ◌-ℤ◌ ◌*ℤ◌
breach = refl

check_order-hard_cap_example : AtMost whole (pos 100) (pos 2000)
check_order-hard_cap_example =
    check_order-hard_cap whole (pos 2) (pos 1) caps proposal portfolio (pos 10) (pos 100) (pos 2000)
      whole-OrderLaws whole-RoundingLaws approves_proposal refl distance risked budgeted

symbol_exposure_after_order-le_example : AtMost whole (pos 240) (pos 400)
symbol_exposure_after_order-le_example =
    symbol_exposure_after_order-le whole held_five sale (pos 200) (pos 400) (pos 240)
      (record { qty = pos 5; mark_px = pos 80 }) whole-OrderLaws whole-RoundingLaws held_found
      (record { open_position = refl; opposite = refl; no_flip = refl }) refl sale_exposure

Breach-found :
    (drawdown_breached whole engine (pos 1000) (pos 0) ≡ true)
    ↔ Breach whole engine (pos 1000) (pos 0)
Breach-found = drawdown_breached_iff whole engine (pos 1000) (pos 0)

deeper_breach : drawdown_breached whole engine (pos 1000) (negsuc 9) ≡ true
deeper_breach =
    drawdown_breached_mono whole engine (pos 1000) (pos 0) (negsuc 9) (pos 1010) whole-OrderLaws
      whole-RoundingLaws refl deeper breach

-- A switch that allows two orders in ten nanoseconds.
abbrev fresh_switch : KillSwitch
fresh_switch = record {
  path = absent;
  state = record { halted = false; kind = no_halt; reason = ""; halted_at = pos 0 };
  runaway_window = pos 10;
  max_orders_per_window = pos 2;
  order_times = [];
}

opened : open_switch (pos 10) (pos 2) (pos 0) absent ≡ ok fresh_switch
unfolding open_switch
opened = refl

-- A halt that is written, a halt whose write fails, and a restart.
abbrev day : List Op
day =
    halts commits (pos 5) "daily loss" max_daily_loss
    ∷ clears (fails_at rename) (pos 6)
    ∷ restarts (pos 7)
    ∷ []

run-reopened_example :
    (k' : KillSwitch) × (reopened (pos 9) (run day fresh_switch) ≡ ok k')
    × (k'.state.halted ≡ (run day fresh_switch).state.halted)
run-reopened_example = run-reopened (pos 10) (pos 2) (pos 0) (pos 9) absent fresh_switch day opened

halted_after : (run day fresh_switch).state.halted ≡ true
unfolding run step halt clear persist_state reopened open_switch
halted_after = refl

abbrev second_halt : List Op
second_halt = restarts (pos 8) ∷ halts (fails_at fsync) (pos 9) "again" manual ∷ []

run-halted_example :
    let later = run second_halt (run day fresh_switch) in
    (later.state.halted ≡ true) × (is_halted query_failed later ≡ app_halted later.state.reason)
run-halted_example =
    run-halted (pos 10) (pos 2) (pos 0) absent fresh_switch day second_halt query_failed opened
      halted_after (tt, (tt, tt))

halt_not_kept :
    let (after, failure) = halt (fails_at fsync) (pos 5) "stop" manual fresh_switch in
    ((fresh_switch.state.halted ≡ true) × (after ≡ fresh_switch) × (failure ≡ none))
    ⊎ (((fresh_switch.state.halted ≡ false)
          × (fails_at fsync ≡ commits)
          × (failure ≡ none)
          × (after.state
              ≡ record { halted = true; kind = manual; reason = "stop"; halted_at = pos 5 })
          × (after.path ≡ holds after.state))
        ⊎ ((fresh_switch.state.halted ≡ false)
            × (after ≡ fresh_switch)
            × ((at : PersistStep) × (fails_at fsync ≡ fails_at at)
                × (failure ≡ some (persist_failed at)))))
halt_not_kept = halt_commits (fails_at fsync) (pos 5) "stop" manual fresh_switch

cleared_once :
    let k = run day fresh_switch in
    let (after, failure) = clear commits (pos 8) k in
    ((k.state.halted ≡ false) × (after ≡ k) × (failure ≡ none))
    ⊎ (((k.state.halted ≡ true)
          × (commits ≡ commits)
          × (failure ≡ none)
          × (after.state.halted ≡ false)
          × (after.path ≡ holds after.state)
          × (after.order_times ≡ []))
        ⊎ ((k.state.halted ≡ true)
            × (after ≡ k)
            × ((at : PersistStep) × (commits ≡ fails_at at)
                × (failure ≡ some (persist_failed at)))))
cleared_once = clear_commits commits (pos 8) (run day fresh_switch)

-- The third order within ten nanoseconds.
abbrev two_orders : List (Disk × ℤ)
two_orders = (commits, pos 1) ∷ (commits, pos 4) ∷ []

record_order-trips_example :
    ((record_order commits (pos 9) (record_all two_orders fresh_switch)).1.0 ≡ true) ↔ (
      ((record_all two_orders fresh_switch).state.halted ≡ false)
      × (pos 2 <ℤ pos (count_recent (pos 10) (pos 9) (times_of two_orders ++ pos 9 ∷ []))))
record_order-trips_example =
    record_order-trips (pos 10) (pos 2) (pos 0) (pos 9) two_orders commits fresh_switch refl refl
      refl refl refl (omega arith, (omega arith, tt)) (omega arith)

tripped : (record_order commits (pos 9) (record_all two_orders fresh_switch)).1.0 ≡ true
unfolding record_order record_all prune guard_disabled persist_state ◌-ℤ◌
tripped = refl

exp_window-eq-min_example :
    let b = new_backoff (pos 100_000_000) (pos 5_000_000_000) in
    exp_window b (pos 70) ≡ pos (min (pos_part b.cap) (pos_part b.base * 2 ^ pos_part (pos 70)))
exp_window-eq-min_example =
    exp_window-eq-min (pos 100_000_000) (pos 5_000_000_000) (pos 70) (omega arith) (omega arith)

retry_delay_capped :
    let b = new_backoff (pos 100) (pos 900) in
    (d : ℤ) × (delay (λ n. n / 2) b (pos 3) (pos 1000) ≡ some d) × (d ≤ℤ b.cap)
retry_delay_capped =
    delay-le-cap (λ n. n / 2) (pos 100) (pos 900) (pos 3) (pos 1000) (omega arith) (omega arith)
      (λ n h. omega (arith, h))

-- With the greatest duration as its cap, a late attempt asks the generator for a draw below a number
-- that has wrapped, and panics.
retry_panics : delay (λ n. 0) (new_backoff (pos 1) int64_max) (pos 63) (pos 0) ≡ none
unfolding delay exp_window exp_loop new_backoff double_64 add_64
retry_panics = refl
