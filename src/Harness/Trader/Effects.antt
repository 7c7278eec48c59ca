-- ===== src/Harness/Trader/Effects.antt =====
-- What a tick or a heartbeat does to the world besides sending an order.
use bucks.Risk.KillSwitch.Durability.{Halted-cases}
use bucks.Risk.KillSwitch.{KillSwitchError, KillSwitch, is_halted, max_daily_loss, halt}
use bucks.Risk.Engine.{PortfolioState}
use bucks.Harness.Trader.Tick.{
  pulse_unless, heartbeat, tick, bare, drawdown_halted, check_day, pulse, check_switch,
}
use bucks.Money.{DecimalOps}
use bucks.Common.{
  ap, none, some, ◌∙◌, arith, Option, suc, refl, if◌then◌else◌, inr, true, String, Bool-cases, ◌⊎◌,
  Bool, inl, ◌≡◌,
}
use bucks.Harness.Trader.Frame.{Frame, halt_alerts, check_day-Filed}
use bucks.Harness.Trader.{
  latch_drawdown, TradeError, update_peak_and_check, TradeDecision, TradeRecord, TraderConfig,
  halt_for_drawdown, record_and_maybe_alert_halt, World, Moment, halted,
}

module _ (M : DecimalOps) where
  -- The switch is as it was, or was told to halt.
  abbrev pub Switched : Moment → World M → World M → Type 0
  Switched m w w' =
      (w'.switch ≡ w.switch)
      ⊎ ((reason : String) × (w'.switch
            ≡ (halt m.disk m.now_at_halt reason max_daily_loss w.switch).0))

  -- The latch and the halt alerts are as they were, or the latch is set, with an alert if it was not.
  abbrev pub Latched : World M → World M → Type 0
  Latched w w' =
      ((w'.trader.halted ≡ w.trader.halted) × (halt_alerts w'.alerts ≡ halt_alerts w.alerts))
      ⊎ ((w'.trader.halted ≡ true)
          × (halt_alerts w'.alerts
              ≡ (if w.trader.halted then halt_alerts w.alerts else suc (halt_alerts w.alerts))))

  abbrev pub Effect : Moment → World M → World M → Type 0
  Effect m w w' =
      (w'.trader.peak_equity ≡ w.trader.peak_equity)
      × (w'.trader.have_peak ≡ w.trader.have_peak)
      × Switched m w w'
      × Latched w w'

  Frame-Effect : (m : Moment) (w w' : World M) → Frame M w w' → Effect m w w'
  Frame-Effect m w w' (switch, peak, have, latch, count) =
      (peak, have, inl switch, inl (latch, count))

  record_and_maybe_alert_halt-Effect :
      (m : Moment) (rec : TradeRecord M) (w : World M)
      → Effect m w (record_and_maybe_alert_halt M m rec w)
  unfolding record_and_maybe_alert_halt halt_alerts
  record_and_maybe_alert_halt-Effect m rec w = elim (Bool-cases w.trader.halted) [
    | inl e ↦ rw e (refl, refl, inl refl, inr (refl, refl))
    | inr e ↦ rw e (refl, refl, inl refl, inr (refl, refl))
  ]

  halt_for_drawdown-Effect :
      (cfg : TraderConfig M) (m : Moment) (peak equity : M.Decimal) (w : World M)
      → Effect m w (halt_for_drawdown M cfg m peak equity w).0
  unfolding halt_for_drawdown halt_alerts
  halt_for_drawdown-Effect cfg m peak equity w =
      latched (halt m.disk m.now_at_halt (cfg.drawdown_text peak equity) max_daily_loss w.switch)
        refl
    where
      latched :
          (answer : KillSwitch × Option KillSwitchError)
          → answer
            ≡ halt m.disk m.now_at_halt (cfg.drawdown_text peak equity) max_daily_loss w.switch
          → Effect m w (latch_drawdown M m w answer).0
      latched (k, some failure) e =
          (refl, refl, inr (cfg.drawdown_text peak equity, ap (λ a. a.0) e), inl (refl, refl))
      latched (k, none) e = elim (Bool-cases w.trader.halted) [
        | inl set ↦
            rw set
              (refl, refl, inr (cfg.drawdown_text peak equity, ap (λ a. a.0) e), inr (refl, refl))
        | inr unset ↦
            rw unset
              (refl, refl, inr (cfg.drawdown_text peak equity, ap (λ a. a.0) e), inr (refl, refl))
      ]

  -- What follows and keeps the frame adds no effect.
  after-Effect : (m : Moment) (w w' w'' : World M) → Effect m w w' → Frame M w' w'' → Effect m w w''
  after-Effect m w w' w'' effect (switch, peak, have, latch, count) =
      rw (peak, have, switch, latch, count) effect

  check_switch-Effect :
      (cfg : TraderConfig M) (m : Moment) (d : TradeDecision M) (ps : PortfolioState M)
      (w : World M)
      → Effect m w (check_switch M cfg m d ps w).0
  unfolding check_switch check_day
  check_switch-Effect cfg m d ps w = elim (Halted-cases (is_halted m.layer w.switch)) [
    | inl e ↦
        rw (check_switch, e)
          (Frame-Effect m w (check_day M cfg m d ps w).0 (check_day-Filed M cfg m d ps w).0)
    | inr (inl (reason, e)) ↦
        rw (check_switch, e) (record_and_maybe_alert_halt-Effect m (bare M m halted) w)
    | inr (inr (reason, e)) ↦
        rw (check_switch, e) (record_and_maybe_alert_halt-Effect m (bare M m halted) w)
  ]

  drawdown_halted-Frame :
      (m : Moment) (r : World M × Option TradeError) → Frame M r.0 (drawdown_halted M m r).0
  drawdown_halted-Frame m (w, none) = (refl, refl, refl, refl, refl)
  drawdown_halted-Frame m (w, some e) = (refl, refl, refl, refl, refl)

  pulse-Frame :
      (cfg : TraderConfig M) (m : Moment) (delivered : Bool) (w : World M)
      → Frame M w (pulse M cfg m delivered w).0
  unfolding pulse halt_alerts
  pulse-Frame cfg m delivered w = ground arith

  pulse_unless-Frame :
      (cfg : TraderConfig M) (m : Moment) (delivered : Bool) (r : World M × Option TradeError)
      → Frame M r.0 (pulse_unless M cfg m delivered r).0
  pulse_unless-Frame cfg m delivered (w, none) = pulse-Frame cfg m delivered w
  pulse_unless-Frame cfg m delivered (w, some e) = (refl, refl, refl, refl, refl)

  -- The world once the peak was updated.
  abbrev pub peaked : TraderConfig M → M.Decimal → World M → World M
  peaked cfg equity w = record w { trader = (update_peak_and_check M cfg equity w.trader).0 }

  pub tick-Effect :
      (cfg : TraderConfig M) (m : Moment) (d : TradeDecision M) (ps : PortfolioState M)
      (equity : M.Decimal) (w : World M)
      → Effect m (peaked cfg equity w) (tick M cfg m d ps equity w).0
  unfolding tick update_peak_and_check halt halt_alerts
  tick-Effect cfg m d ps equity w =
      let w' = peaked cfg equity w in
      let halting = halt_for_drawdown M cfg m w'.trader.peak_equity equity w' in
      elim (Bool-cases (update_peak_and_check M cfg equity w.trader).1) [
        | inl e ↦
            rw (tick, e)
              (after-Effect m w' halting.0 (drawdown_halted M m halting).0
                (halt_for_drawdown-Effect cfg m w'.trader.peak_equity equity w')
                (drawdown_halted-Frame m halting))
        | inr e ↦ rw (tick, e) (check_switch-Effect cfg m d ps w')
      ]

  pub heartbeat-Effect :
      (cfg : TraderConfig M) (m : Moment) (delivered : Bool) (equity : M.Decimal) (w : World M)
      → Effect m (peaked cfg equity w) (heartbeat M cfg m delivered equity w).0
  unfolding heartbeat update_peak_and_check halt halt_alerts
  heartbeat-Effect cfg m delivered equity w =
      let w' = peaked cfg equity w in
      let halting = halt_for_drawdown M cfg m w'.trader.peak_equity equity w' in
      elim (Bool-cases (update_peak_and_check M cfg equity w.trader).1) [
        | inl e ↦
            rw (heartbeat, e)
              (after-Effect m w' halting.0 (pulse_unless M cfg m delivered halting).0
                (halt_for_drawdown-Effect cfg m w'.trader.peak_equity equity w')
                (pulse_unless-Frame cfg m delivered halting))
        | inr e ↦
            rw (heartbeat, e)
              (Frame-Effect m w' (pulse M cfg m delivered w').0 (pulse-Frame cfg m delivered w'))
      ]

  -- What has gone out and what the ledger says of it.
  abbrev pub Outgoing : World M → World M → Type 0
  Outgoing w w' = (w'.sent ≡ w.sent) × (w'.trader.ledger ≡ w.trader.ledger)

  then-Outgoing : (w w' w'' : World M) → Outgoing w w' → Outgoing w' w'' → Outgoing w w''
  then-Outgoing w w' w'' (sent, ledger) (sent', ledger') = (sent' ∙ sent, ledger' ∙ ledger)

  pub peaked-ledger :
      (cfg : TraderConfig M) (equity : M.Decimal) (w : World M)
      → (peaked cfg equity w).trader.ledger ≡ w.trader.ledger
  unfolding update_peak_and_check
  peaked-ledger cfg equity w = ground arith

  halt_for_drawdown-Outgoing :
      (cfg : TraderConfig M) (m : Moment) (peak equity : M.Decimal) (w : World M)
      → Outgoing w (halt_for_drawdown M cfg m peak equity w).0
  unfolding halt_for_drawdown
  halt_for_drawdown-Outgoing cfg m peak equity w =
      latched (halt m.disk m.now_at_halt (cfg.drawdown_text peak equity) max_daily_loss w.switch)
    where
      latched :
          (answer : KillSwitch × Option KillSwitchError)
          → Outgoing w (latch_drawdown M m w answer).0
      latched (k, some failure) = (refl, refl)
      latched (k, none) = ground arith

  pulse_unless-Outgoing :
      (cfg : TraderConfig M) (m : Moment) (delivered : Bool) (r : World M × Option TradeError)
      → Outgoing r.0 (pulse_unless M cfg m delivered r).0
  unfolding pulse
  pulse_unless-Outgoing cfg m delivered (w, none) = ground arith
  pulse_unless-Outgoing cfg m delivered (w, some e) = (refl, refl)

  pub heartbeat-Outgoing :
      (cfg : TraderConfig M) (m : Moment) (delivered : Bool) (equity : M.Decimal) (w : World M)
      → Outgoing w (heartbeat M cfg m delivered equity w).0
  unfolding heartbeat
  heartbeat-Outgoing cfg m delivered equity w =
      let w' = peaked cfg equity w in
      let halting = halt_for_drawdown M cfg m w'.trader.peak_equity equity w' in
      elim (Bool-cases (update_peak_and_check M cfg equity w.trader).1) [
        | inl e ↦
            rw (heartbeat, e)
              (then-Outgoing w w' (pulse_unless M cfg m delivered halting).0
                (refl, peaked-ledger cfg equity w)
                (then-Outgoing w' halting.0 (pulse_unless M cfg m delivered halting).0
                  (halt_for_drawdown-Outgoing cfg m w'.trader.peak_equity equity w')
                  (pulse_unless-Outgoing cfg m delivered halting)))
        | inr e ↦
            rw (heartbeat, e)
              (then-Outgoing w w' (pulse M cfg m delivered w').0 (refl, peaked-ledger cfg equity w)
                (pulse_unless-Outgoing cfg m delivered (w', none)))
      ]
