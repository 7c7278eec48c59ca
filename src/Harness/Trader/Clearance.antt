-- ===== src/Harness/Trader/Clearance.antt =====
-- Which ticks send an order, against an independent statement of what clears one.
pub mod Stages
pub mod Exact
use bucks.Risk.KillSwitch.Durability.{Halted-cases}
use bucks.Harness.Trader.Tick.{
  order_id, drawdown_halted, tick, check_switch, is_daily_loss, daily_loss_halt, bare, check_day,
  consider, gate_order, base_record, conclude, approval_request, place_above_band, record_placement,
  classify, order_request, Ticked, place_on_broker, place_auto,
}
use bucks.Harness.Trader.{
  latch_drawdown, halt_for_drawdown, update_peak_and_check, halted, record_and_maybe_alert_halt,
  clear_daily_loss_hit, market_closed, no_signal, trade_magnitude, alert_daily_loss_hit,
  approved_placed, denied, risk_rejected, auto_placed, within_band, Outcome, placed, World,
  TradeDecision, Moment, TraderConfig, Trader, HybridBandConfig,
}
use bucks.Risk.Engine.{
  drawdown_breached, Limit, approved, check_daily_loss, check_order, PortfolioState, OrderProposal,
}
use bucks.Money.{is_gt, DecimalOps}
use bucks.Common.{
  Bool-cases, arith, none, refl, inl, Option, Bool, ◌↔◌, inr, true, ◌||◌, ◌⊎◌, not, false, some,
  if◌then◌else◌, ◌≡◌, ◌∷◌,
}
use bucks.Risk.KillSwitch.{max_daily_loss, KillSwitchError, KillSwitch, halt, is_halted, running}
use bucks.Risk.Engine.Gate.{
  Decision-cases, check_order-approved, check_daily_loss-approved, Permitted,
}
use bucks.Risk.Engine.Drawdown.{drawdown_breached_iff, Breach}
use bucks.Money.Laws.{AtMost, Positive}

module _ (M : DecimalOps) where
  open M use {Decimal, zero_decimal, sub, mul, cmp, sign, abs}

  -- The risk amount and the notional of a proposal: quantity times entry, and quantity times the
  -- distance to the stop, or zero without a stop.
  abbrev pub Magnitude : OrderProposal M → (risk_amt notional : Decimal) → Type 0
  Magnitude p risk_amt notional =
      (mul p.qty p.entry_px ≡ some notional)
      × (((is_gt (sign p.stop_px) ≡ false) × (risk_amt ≡ zero_decimal))
          ⊎ (Positive M p.stop_px
              × ((diff : Decimal) × (sub p.entry_px p.stop_px ≡ some diff)
                  × (mul p.qty (abs diff) ≡ some risk_amt))))

  -- A threshold is off, or the amount is at most the threshold.
  abbrev pub Within : (threshold amount : Decimal) → Type 0
  Within threshold amount = (is_gt (sign threshold) ≡ false) ⊎ AtMost M amount threshold

  abbrev pub InBand : HybridBandConfig M → (risk_amt notional : Decimal) → Type 0
  InBand b risk_amt notional =
      Within b.max_auto_risk_amount risk_amt × Within b.max_auto_notional notional

  -- The peak that a tick compares with: the equity itself, where there is no peak or a lower one.
  abbrev pub high_water : Trader M → Decimal → Decimal
  high_water t equity =
      if not t.have_peak || is_gt (cmp equity t.peak_equity) then equity else t.peak_equity

  abbrev pub VenueOk : TraderConfig M → Type 0
  VenueOk cfg = (cfg.real_money_venue ≡ false) ⊎ (cfg.live_enabled ≡ true)

  -- The trade is in the automatic band, or the operator approves it.
  abbrev pub BandOk : TraderConfig M → Moment → OrderProposal M → Type 0
  BandOk cfg m p =
      (risk_amt : Decimal) × (notional : Decimal) × Magnitude p risk_amt notional
      × (InBand cfg.band risk_amt notional ⊎ (m.operator_approves ≡ true))

  -- All that an order needs: no breach of the drawdown from the high-water mark, a kill switch that
  -- runs, an open market, a proposal that the limits permit (the day's loss among them), the band or
  -- the operator, and a venue that may be traded.
  abbrev pub Cleared :
      TraderConfig M → Moment → TradeDecision M → PortfolioState M → Decimal → World M → Type 0
  Cleared cfg m d ps equity w =
      (¬ Breach M cfg.engine (high_water w.trader equity) equity)
      × (is_halted m.layer w.switch ≡ running)
      × (cfg.is_open m.now ≡ true)
      × (d.has_proposal ≡ true)
      × Permitted M cfg.engine d.proposal ps
      × BandOk cfg m d.proposal
      × VenueOk cfg

  -- Where the clearance holds, the one request of the decision reaches the broker and the outcome
  -- is a placement exactly if the broker accepts it, under the request's id; where it does not, nothing reaches the broker.
  abbrev pub SendsIf :
      Type 0 → TraderConfig M → Moment → TradeDecision M → World M → Ticked M → Type 0
  SendsIf clear cfg m d w (w', (rec, failure)) =
      (clear
        × (w'.sent ≡ (order_request M cfg d, m.broker_accepts) ∷ w.sent)
        × (placed rec.outcome ≡ m.broker_accepts)
        × (rec.cl_ord_id ≡ order_id M cfg d))
      ⊎ ((¬ clear) × (w'.sent ≡ w.sent) × (placed rec.outcome ≡ false))
