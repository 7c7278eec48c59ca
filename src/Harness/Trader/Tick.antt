-- ===== src/Harness/Trader/Tick.antt =====
-- internal/harness/trader.go: `Tick` with its placements, and `Heartbeat`.
use bucks.Orders.ClientOrderId.{client_order_id}
use bucks.Orders.{side_buy}
use bucks.Harness.Trader.{
  append_record, Outcome, heartbeat_pulse, send_alert, broker_failed, info, within_band,
  approved_placed, real_money_refused, warn, halt_for_drawdown, halted, market_closed, denied,
  side_intent, update_peak_and_check, record_and_maybe_alert_halt, clear_daily_loss_hit,
  trade_magnitude, risk_rejected, TradeError, alert_daily_loss_hit, ApprovalRequest, auto_placed,
  OrderRequest, no_signal, TradeDecision, TraderConfig, Moment, TradeRecord, World,
}
use bucks.Money.{is_gt, DecimalOps}
use bucks.Common.{
  true, false, ◌||◌, none, some, ◌&&◌, not, if◌then◌else◌, String, Option, Bool, ◌∷◌,
}
use bucks.Common.Int.{ℤ, ◌+ℤ◌, pos, ltb_ℤ, leb_ℤ}
use bucks.Risk.Engine.{
  invalid_input, max_open_positions, concentration, total_exposure, gross_leverage, per_trade_risk,
  missing_stop, Limit, PortfolioState, check_daily_loss, check_order, approved, rejected,
  daily_loss,
}
use bucks.Risk.KillSwitch.{is_halted, running, app_halted, broker_halted}

-- `decision.Limit == risk.LimitDailyLoss`
abbrev pub is_daily_loss : Limit → Bool
is_daily_loss daily_loss = true
is_daily_loss missing_stop = false
is_daily_loss per_trade_risk = false
is_daily_loss gross_leverage = false
is_daily_loss total_exposure = false
is_daily_loss concentration = false
is_daily_loss max_open_positions = false
is_daily_loss invalid_input = false

module _ (M : DecimalOps) where
  open M use {Decimal, zero_decimal, sub, mul, cmp, sign, abs}

  -- What a call of `Tick` returns, with the world after it.
  abbrev pub Ticked : Type 0
  Ticked = World M × (TradeRecord M × Option TradeError)

  -- `t.appendRecord(rec)` and `return rec, err`.
  abbrev pub conclude : TradeRecord M → Option TradeError → World M → Ticked
  conclude rec failure w = (append_record M rec w, (rec, failure))

  -- The record of a tick that looks at no proposal.
  abbrev pub bare : Moment → Outcome → TradeRecord M
  bare m outcome = record {
    time = m.now;
    symbol = "";
    side = side_buy;
    qty = zero_decimal;
    entry_px = zero_decimal;
    outcome = outcome;
    cl_ord_id = "";
    reason = "";
  }

  -- The record `base` of a proposal, before its outcome is known.
  abbrev pub base_record : Moment → TradeDecision M → TradeRecord M
  base_record m d = record {
    time = m.now;
    symbol = d.proposal.symbol;
    side = d.proposal.side;
    qty = d.proposal.qty;
    entry_px = d.proposal.entry_px;
    outcome = no_signal;
    cl_ord_id = "";
    reason = d.reason;
  }

  abbrev pub order_id : TraderConfig M → TradeDecision M → String
  order_id cfg d =
      client_order_id cfg.hashing cfg.strategy_name d.proposal.symbol (side_intent d.proposal.side)
        d.seq

  abbrev pub order_request : TraderConfig M → TradeDecision M → OrderRequest M
  order_request cfg d = record {
    cl_ord_id = order_id cfg d;
    symbol = d.proposal.symbol;
    side = d.proposal.side;
    qty = d.proposal.qty;
  }

  -- `placeOnBroker`: placed, where no error is returned.
  unfoldable pub place_on_broker :
      TraderConfig M → Moment → TradeDecision M → World M → World M × Option TradeError
  place_on_broker cfg m d w =
      if cfg.real_money_venue && not cfg.live_enabled then (w, some real_money_refused) else (
        record w { sent = (order_request cfg d, m.broker_accepts) ∷ w.sent },
        if m.broker_accepts then none else some broker_failed,
      )

  -- The record after a placement: one outcome if the order was placed, another if it was not.
  abbrev pub record_placement :
      (done failed : Outcome)
      → TraderConfig M
      → Moment
      → TradeDecision M
      → World M × Option TradeError
      → Ticked
  record_placement done failed cfg m d (w, none) =
      conclude (record (base_record m d) { outcome = done; cl_ord_id = order_id cfg d }) none w
  record_placement done failed cfg m d (w, some e) =
      conclude (record (base_record m d) { outcome = failed; cl_ord_id = order_id cfg d }) (some e)
        w

  unfoldable pub place_auto : TraderConfig M → Moment → TradeDecision M → World M → Ticked
  place_auto cfg m d w =
      record_placement auto_placed risk_rejected cfg m d (place_on_broker cfg m d w)

  abbrev pub approval_request : TradeDecision M → Decimal → ApprovalRequest M
  approval_request d risk_amt = record {
    symbol = d.proposal.symbol;
    side = d.proposal.side;
    qty = d.proposal.qty;
    entry_px = d.proposal.entry_px;
    stop_px = d.proposal.stop_px;
    risk_amount = risk_amt;
  }

  unfoldable pub place_above_band :
      TraderConfig M → Moment → TradeDecision M → Decimal → World M → Ticked
  place_above_band cfg m d risk_amt w =
      let w' = record w { asked = approval_request d risk_amt ∷ w.asked } in
      if not m.operator_approves
      then conclude (record (base_record m d) { outcome = denied }) none w'
      else record_placement approved_placed denied cfg m d (place_on_broker cfg m d w')

  -- Step 7 of `Tick`: the band.
  unfoldable pub classify :
      TraderConfig M → Moment → TradeDecision M → Option (Decimal × Decimal) → World M → Ticked
  classify cfg m d none w = conclude (record (base_record m d) { outcome = risk_rejected }) none w
  classify cfg m d (some (risk_amt, notional)) w =
      if within_band M cfg.band risk_amt notional
      then place_auto cfg m d w
      else place_above_band cfg m d risk_amt w

  -- Step 6: the risk gate.
  unfoldable pub gate_order :
      TraderConfig M → Moment → TradeDecision M → PortfolioState M → World M → Ticked
  gate_order cfg m d ps w = elim (check_order M cfg.engine d.proposal ps) [
    | approved ↦ classify cfg m d (trade_magnitude M d.proposal) w
    | rejected l ↦ conclude (record (base_record m d) { outcome = risk_rejected }) none w
  ]

  -- Steps 4 and 5: market hours, and whether there is a proposal.
  unfoldable pub consider :
      TraderConfig M → Moment → TradeDecision M → PortfolioState M → World M → Ticked
  consider cfg m d ps w =
      if not (cfg.is_open m.now)
      then conclude (bare m market_closed) none w
      else if not d.has_proposal || not (is_gt (sign d.proposal.qty))
      then conclude (record (bare m no_signal) { reason = d.reason }) none w
      else gate_order cfg m d ps w

  -- `appendRecord`, then the alert of a daily loss.
  abbrev pub daily_loss_halt : Moment → World M → Ticked
  daily_loss_halt m w =
      let (w', failure) = alert_daily_loss_hit M m (append_record M (bare m halted) w) in
      (w', (bare m halted, failure))

  -- Step 3: the daily-loss circuit.
  unfoldable pub check_day :
      TraderConfig M → Moment → TradeDecision M → PortfolioState M → World M → Ticked
  check_day cfg m d ps w = elim (check_daily_loss M cfg.engine ps) [
    | approved ↦ consider cfg m d ps (clear_daily_loss_hit M w)
    | rejected l ↦
        if is_daily_loss l then daily_loss_halt m w else conclude (bare m risk_rejected) none w
  ]

  -- Step 2: the kill switch.
  unfoldable pub check_switch :
      TraderConfig M → Moment → TradeDecision M → PortfolioState M → World M → Ticked
  check_switch cfg m d ps w = elim (is_halted m.layer w.switch) [
    | running ↦ check_day cfg m d ps w
    | app_halted reason ↦ (record_and_maybe_alert_halt M m (bare m halted) w, (bare m halted, none))
    | broker_halted reason ↦
        (record_and_maybe_alert_halt M m (bare m halted) w, (bare m halted, none))
  ]

  -- The end of a tick that found a breach.
  abbrev pub drawdown_halted : Moment → World M × Option TradeError → Ticked
  drawdown_halted m (w, some e) = (w, (bare m halted, some e))
  drawdown_halted m (w, none) = conclude (bare m halted) none w

  -- `Tick`
  unfoldable pub tick :
      TraderConfig M
      → Moment
      → TradeDecision M
      → PortfolioState M
      → (equity : Decimal) → World M
      → Ticked
  tick cfg m d ps equity w =
      let (t, breached) = update_peak_and_check M cfg equity w.trader in
      let w' = record w { trader = t } in
      if breached
      then drawdown_halted m (halt_for_drawdown M cfg m t.peak_equity equity w')
      else check_switch cfg m d ps w'

  -- A cadence of the loop: no mark yet, no interval, or the interval has passed.
  abbrev pub due : (have : Bool) (every last now : ℤ) → Bool
  due have every last now = not have || leb_ℤ every (pos 0) || not (ltb_ℤ now (last +ℤ every))

  -- The cadence and the alert of `Heartbeat`: whether it emitted, and its error.
  unfoldable pub pulse :
      TraderConfig M
      → Moment
      → (pulse_delivered : Bool) → World M
      → World M × (Bool × Option TradeError)
  pulse cfg m pulse_delivered w =
      if due w.trader.have_heartbeat cfg.heartbeat_every w.trader.last_heartbeat m.now
      then (let level = if w.trader.halted then warn else info in
          let w' = record w {
            trader = record w.trader { last_heartbeat = m.now; have_heartbeat = true };
          } in
          let (sent_to, failure) =
            send_alert M pulse_delivered
              (record { level = level; text = heartbeat_pulse; time = m.now }) w' in
          (sent_to, (true, failure)))
      else (w, (false, none))

  -- The cadence, unless the halt failed.
  abbrev pub pulse_unless :
      TraderConfig M
      → Moment
      → Bool
      → World M × Option TradeError
      → World M × (Bool × Option TradeError)
  pulse_unless cfg m delivered (w, some e) = (w, (false, some e))
  pulse_unless cfg m delivered (w, none) = pulse cfg m delivered w

  -- `Heartbeat`
  unfoldable pub heartbeat :
      TraderConfig M
      → Moment
      → (pulse_delivered : Bool) → (equity : Decimal) → World M
      → World M × (Bool × Option TradeError)
  heartbeat cfg m pulse_delivered equity w =
      let (t, breached) = update_peak_and_check M cfg equity w.trader in
      let w' = record w { trader = t } in
      if breached
      then pulse_unless cfg m pulse_delivered (halt_for_drawdown M cfg m t.peak_equity equity w')
      else pulse cfg m pulse_delivered w'
