-- ===== src/Examples/Harness.antt =====
-- Runs of the trade loop and of the client-order-ids.
use bucks.Harness.Run.Script.{run_loop-UpToError, ending, script, UpToError}
use bucks.Harness.Loop.Halting.{tick-drawdown}
use bucks.Risk.Engine.Drawdown.{Breach}
use bucks.Harness.Trader.Clearance.Exact.{tick-Cleared}
use bucks.Common.Text.{lookup, same}
use bucks.Orders.ClientOrderId.Unambiguous.{pre_image-injective}
use bucks.Harness.Run.{stopped, run_loop-Reaches, run_loop, supplied, Turn}
use bucks.Harness.Loop.Audited.{Reaches-IsAudited, IsAudited, placed_ids, accepted_ids}
use bucks.Harness.Loop.HighWater.{Reaches-IsHighWater, IsHighWater}
use bucks.Common.Int.{◌+ℤ◌, ◌*ℤ◌, pos, ℤ, ◌-ℤ◌}
use bucks.Harness.Trader.Clearance.{high_water, Cleared, SendsIf}
use bucks.Harness.Trader.Tick.{
  check_switch, check_day, consider, gate_order, classify, place_above_band, place_auto,
  place_on_broker, heartbeat, tick, Ticked,
}
use bucks.Orders.ClientOrderId.{pre_image, Hashing}
use bucks.Money.Whole.{whole-OrderLaws, whole}
use bucks.Common.{ℕ, refl, inl, arith, some, none, true, if◌then◌else◌, ◌≡◌, false, List, ◌∷◌, []}
use bucks.Risk.Engine.{
  drawdown_breached, check_daily_loss, check_order, check_input, check_trade_risk,
  per_trade_risk_amount, current_gross, check_exposure, check_slots, exposure_of_held,
  gross_exposure_from, gross_exposure_of, open_count, projected_exposure, reduced_exposure,
  symbol_exposure_after_order, symbol_exposure_of, count_open, Config, new_engine, PortfolioState,
}
use bucks.Risk.KillSwitch.{
  is_halted, halt, persist_state, commits, not_registered, KillSwitch, no_halt, absent,
}
use bucks.Orders.{side_buy}
use bucks.Harness.Trader.{
  update_peak_and_check, halt_for_drawdown, trade_magnitude, within_band, denied, auto_placed,
  World, TradeDecision, Moment, TraderConfig, halted,
}
use bucks.Harness.Loop.{Reaches, here, later, ticks, beats}

abbrev caps : Config whole
caps = record {
  max_risk_per_trade_pct = pos 5;
  max_daily_loss_pct = pos 1;
  max_gross_leverage = pos 4;
  max_total_exposure = pos 100_000;
  max_concentration_pct = pos 3;
  max_open_positions = pos 2;
  max_drawdown_pct = pos 1;
  require_stop = true;
}

-- A digest that adds the bytes up, over strings of one byte per use.
abbrev adder : Hashing
adder = record {
  bytes_of = λ s. if same s "momentum" then 109 ∷ 111 ∷ [] else 97 ∷ [];
  sha256 = λ bytes. bytes;
  base32 = λ bytes. "ID";
}

abbrev cfg : TraderConfig whole
cfg = record {
  strategy_name = "momentum";
  engine = new_engine whole (pos 2) (pos 1) caps;
  band = record { max_auto_risk_amount = pos 200; max_auto_notional = pos 0 };
  is_open = λ t. true;
  heartbeat_every = pos 60;
  report_every = pos 3600;
  live_enabled = false;
  real_money_venue = false;
  hashing = adder;
  drawdown_text = λ peak equity. "drawdown breach";
}

abbrev moment : Moment
moment = record {
  now = pos 100;
  now_at_halt = pos 101;
  now_at_alert = pos 102;
  disk = commits;
  layer = not_registered;
  alert_delivered = true;
  operator_approves = false;
  broker_accepts = true;
}

abbrev ten_shares : TradeDecision whole
ten_shares = record {
  has_proposal = true;
  proposal = record {
    symbol = "AAPL";
    side = side_buy;
    qty = pos 10;
    entry_px = pos 100;
    stop_px = pos 90;
    account_equity = pos 1000;
  };
  reason = "breakout";
  seq = 7;
}

abbrev flat : PortfolioState whole
flat = record {
  equity = pos 1000;
  cash = pos 1000;
  positions = [];
  realized_pnl_today = pos 0;
  gross_exposure = none;
  open_position_count = pos 0;
}

abbrev switch : KillSwitch
switch = record {
  path = absent;
  state = record { halted = false; kind = no_halt; reason = ""; halted_at = pos 0 };
  runaway_window = pos 60;
  max_orders_per_window = pos 5;
  order_times = [];
}

abbrev fresh : World whole
fresh = record {
  trader = record {
    peak_equity = pos 0;
    have_peak = false;
    ledger = [];
    last_heartbeat = pos 0;
    have_heartbeat = false;
    last_report = pos 0;
    have_report = false;
    halted = false;
    daily_loss_hit = false;
  };
  switch = switch;
  sent = [];
  asked = [];
  alerts = [];
}

abbrev first_tick : Ticked whole
first_tick = tick whole cfg moment ten_shares flat (pos 1000) fresh

tick-Cleared_example :
    SendsIf whole
      (Cleared whole cfg moment ten_shares flat (pos 1000) fresh)
      cfg
      moment
      ten_shares
      fresh
      first_tick
tick-Cleared_example = tick-Cleared whole cfg moment ten_shares flat (pos 1000) fresh

-- The trader after a peak of 1000.
abbrev risen : World whole
risen = record fresh { trader = record fresh.trader { peak_equity = pos 1000; have_peak = true } }

abbrev crash : Ticked whole
crash = tick whole cfg moment ten_shares flat (pos 0) risen

breach : Breach whole cfg.engine (high_water whole risen.trader (pos 0)) (pos 0)
unfolding new_engine ◌-ℤ◌ ◌*ℤ◌
breach = (pos 1000, pos 1000, refl, refl, refl, refl, refl, refl)

tick-drawdown_example : (tick whole cfg moment ten_shares flat (pos 2000) crash.0).0.sent ≡ []
tick-drawdown_example =
    tick-drawdown whole cfg moment ten_shares flat (pos 0) risen breach (inl refl)
      (later here (ticks moment ten_shares flat (pos 2000) crash.0))

abbrev two_calls :
    Reaches whole cfg fresh
      (pos 900 ∷ pos 1000 ∷ [])
      (heartbeat whole cfg moment true (pos 900) first_tick.0).0
two_calls =
    later (later here (ticks moment ten_shares flat (pos 1000) fresh))
      (beats moment true (pos 900) first_tick.0)

Reaches-IsHighWater_example :
    IsHighWater whole
      (pos 900 ∷ pos 1000 ∷ [])
      (heartbeat whole cfg moment true (pos 900) first_tick.0).0.trader
Reaches-IsHighWater_example = Reaches-IsHighWater whole whole-OrderLaws refl two_calls

Reaches-IsAudited_example :
    IsAudited whole (heartbeat whole cfg moment true (pos 900) first_tick.0).0
unfolding accepted_ids placed_ids
Reaches-IsAudited_example = Reaches-IsAudited whole refl two_calls

abbrev turns : List (Turn whole)
turns =
    supplied
      (record {
        decision = ten_shares;
        portfolio = flat;
        equity = pos 1000;
        realized_pl = pos 0;
        marks = [];
      })
      moment moment true moment (some (pos 1000)) (some []) (λ positions. positions)
    ∷ stopped
    ∷ []

run_reached : (seen : List ℤ) × Reaches whole cfg fresh seen (run_loop whole cfg turns fresh).0
run_reached = run_loop-Reaches whole cfg turns fresh

run_loop-UpToError_example :
    UpToError whole cfg
      (script whole turns)
      (ending whole turns)
      fresh
      (run_loop whole cfg turns fresh)
run_loop-UpToError_example = run_loop-UpToError whole cfg turns fresh

abbrev intent_seq : ℕ
intent_seq = 7

pre_image-injective_example :
    (adder.bytes_of "momentum" ≡ adder.bytes_of "momentum")
    × (adder.bytes_of "AAPL" ≡ adder.bytes_of "MSFT")
    × (adder.bytes_of "buy" ≡ adder.bytes_of "sell")
    × (intent_seq ≡ intent_seq)
unfolding pre_image
pre_image-injective_example =
    pre_image-injective adder "momentum" "momentum" "AAPL" "MSFT" "buy" "sell" intent_seq intent_seq
      (omega arith, omega arith, omega arith, omega arith)
      (omega arith, omega arith, omega arith, omega arith) refl

-- In the band the order is placed at once; above it the operator is asked, and refuses.
outcomes :
    (first_tick.1.0.outcome ≡ auto_placed)
    × (crash.1.0.outcome ≡ halted)
    × ((tick whole
          (record cfg {
            band = record { max_auto_risk_amount = pos 50; max_auto_notional = pos 0 };
          })
          moment
          ten_shares
          flat
          (pos 1000)
          fresh).1.0.outcome
        ≡ denied)
unfolding tick update_peak_and_check drawdown_breached new_engine ◌-ℤ◌ check_switch is_halted
    check_day check_daily_loss consider gate_order check_order check_input check_trade_risk
    per_trade_risk_amount ◌*ℤ◌ current_gross ◌+ℤ◌ lookup classify place_above_band place_auto
    place_on_broker halt_for_drawdown trade_magnitude within_band check_exposure check_slots
    exposure_of_held gross_exposure_from gross_exposure_of open_count projected_exposure
    reduced_exposure symbol_exposure_after_order symbol_exposure_of halt persist_state count_open
outcomes = (refl, refl, refl)
