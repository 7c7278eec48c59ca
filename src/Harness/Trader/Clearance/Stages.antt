-- ===== src/Harness/Trader/Clearance/Stages.antt =====
-- The steps of a tick, from the last to the first: each sends an order if its conditions hold.
use bucks.Harness.Trader.Clearance.{SendsIf, VenueOk, high_water}
use bucks.Risk.KillSwitch.Durability.{Halted-cases}
use bucks.Harness.Trader.Tick.{
  drawdown_halted, tick, check_switch, is_daily_loss, daily_loss_halt, bare, check_day, consider,
  gate_order, base_record, conclude, approval_request, place_above_band, record_placement, classify,
  Ticked, place_on_broker, place_auto,
}
use bucks.Harness.Trader.{
  latch_drawdown, halt_for_drawdown, update_peak_and_check, halted, record_and_maybe_alert_halt,
  clear_daily_loss_hit, market_closed, no_signal, trade_magnitude, alert_daily_loss_hit,
  approved_placed, denied, risk_rejected, auto_placed, within_band, Outcome, placed, World,
  TradeDecision, Moment, TraderConfig, Trader,
}
use bucks.Risk.Engine.{
  drawdown_breached, Limit, approved, check_daily_loss, check_order, PortfolioState,
}
use bucks.Money.{is_gt, DecimalOps}
use bucks.Common.{
  Bool-cases, arith, none, refl, inl, Option, Bool, ◌↔◌, inr, true, ◌||◌, ◌⊎◌, not, false, some,
  if◌then◌else◌, ◌≡◌, ◌∷◌,
}
use bucks.Risk.KillSwitch.{max_daily_loss, KillSwitchError, KillSwitch, halt, is_halted, running}
use bucks.Risk.Engine.Gate.{Decision-cases}
use bucks.Risk.Engine.Drawdown.{drawdown_breached_iff, Breach}

module _ (M : DecimalOps) where
  open M use {Decimal, zero_decimal, sub, mul, cmp, sign, abs}

  -- Nothing reaches the broker.
  abbrev Silent : World M → Ticked M → Type 0
  Silent w (w', (rec, failure)) = (w'.sent ≡ w.sent) × (placed rec.outcome ≡ false)

  Silent-SendsIf :
      (clear : Type 0) (cfg : TraderConfig M) (m : Moment) (d : TradeDecision M) (w : World M)
      (r : Ticked M)
      → (¬ clear)
      → Silent w r
      → SendsIf M clear cfg m d w r
  Silent-SendsIf clear cfg m d w r blocked (kept, out) = inr (blocked, kept, out)

  -- A clearance is replaced by one that is equivalent.
  pub SendsIf-iff :
      (clear clear' : Type 0) (cfg : TraderConfig M) (m : Moment) (d : TradeDecision M)
      (w : World M) (r : Ticked M)
      → clear ↔ clear'
      → SendsIf M clear cfg m d w r
      → SendsIf M clear' cfg m d w r
  SendsIf-iff clear clear' cfg m d w r same (inl (c, e, o, i)) = inl (same.0 c, e, o, i)
  SendsIf-iff clear clear' cfg m d w r same (inr (blocked, e, o)) =
      inr ((λ c. blocked (same.1 c)), e, o)

  -- A test before a stage is one more condition.
  pass-SendsIf :
      (test : Bool) (clear : Type 0) (cfg : TraderConfig M) (m : Moment) (d : TradeDecision M)
      (w : World M) (stop go : Ticked M)
      → Silent w stop
      → SendsIf M clear cfg m d w go
      → SendsIf M ((test ≡ false) × clear) cfg m d w (if test then stop else go)
  pass-SendsIf true clear cfg m d w stop go quiet sends =
      Silent-SendsIf _ cfg m d w stop (λ (e, c). cc e) quiet
  pass-SendsIf false clear cfg m d w stop go quiet sends =
      SendsIf-iff clear _ cfg m d w go ((λ c. (refl, c)), (λ h. h.1)) sends

  placement-SendsIf :
      (done failed : Outcome) (cfg : TraderConfig M) (m : Moment) (d : TradeDecision M)
      (w : World M)
      → placed done ≡ true
      → placed failed ≡ false
      → SendsIf M
          (VenueOk M cfg)
          cfg
          m
          d
          w
          (record_placement M done failed cfg m d (place_on_broker M cfg m d w))
  unfolding place_on_broker
  placement-SendsIf done failed cfg m d w hd hf = ground (arith, hd, hf)

  place_above_band-SendsIf :
      (cfg : TraderConfig M) (m : Moment) (d : TradeDecision M) (risk_amt : Decimal) (w : World M)
      → SendsIf M
          ((not m.operator_approves ≡ false) × VenueOk M cfg)
          cfg
          m
          d
          w
          (place_above_band M cfg m d risk_amt w)
  unfolding place_above_band
  place_above_band-SendsIf cfg m d risk_amt w =
      let w' : World M = record w { asked = approval_request M d risk_amt ∷ w.asked } in
      pass-SendsIf (not m.operator_approves) (VenueOk M cfg) cfg m d w
        (conclude M (record (base_record M m d) { outcome = denied }) none w')
        (record_placement M approved_placed denied cfg m d (place_on_broker M cfg m d w'))
        (refl, refl) (placement-SendsIf approved_placed denied cfg m d w' refl refl)

  -- The band or the operator, on the amounts that were computed.
  abbrev pub ClassOk : TraderConfig M → Moment → Option (Decimal × Decimal) → Type 0
  ClassOk cfg m o =
      (amounts : Decimal × Decimal) × (o ≡ some amounts)
      × ((within_band M cfg.band amounts.0 amounts.1 ≡ true) ⊎ (m.operator_approves ≡ true))

  classify-SendsIf :
      (cfg : TraderConfig M) (m : Moment) (d : TradeDecision M) (o : Option (Decimal × Decimal))
      (w : World M)
      → SendsIf M (ClassOk cfg m o × VenueOk M cfg) cfg m d w (classify M cfg m d o w)
  unfolding classify place_auto
  classify-SendsIf cfg m d none w =
      Silent-SendsIf _ cfg m d w (classify M cfg m d none w) (λ ((a, e, b), v). cc e) (refl, refl)
  classify-SendsIf cfg m d (some a) w = elim (Bool-cases (within_band M cfg.band a.0 a.1)) [
    | inl inside ↦ rw inside (
        SendsIf-iff (VenueOk M cfg) _ cfg m d w (place_auto M cfg m d w)
          ((λ v. ((a, refl, inl inside), v)), (λ h. h.1))
          (placement-SendsIf auto_placed risk_rejected cfg m d w refl refl))
    | inr above ↦ rw above (
        SendsIf-iff _ _ cfg m d w (place_above_band M cfg m d a.0 w)
          (
            (λ (granted, v). ((a, refl, inr (ground arith)), v)),
            (λ ((b, e, c), v). (ground arith, v)),
          )
          (place_above_band-SendsIf cfg m d a.0 w))
  ]

  -- The conditions on a proposal, as the code tests them.
  abbrev Gated : TraderConfig M → Moment → TradeDecision M → PortfolioState M → Type 0
  Gated cfg m d ps =
      (check_order M cfg.engine d.proposal ps ≡ approved)
      × (ClassOk cfg m (trade_magnitude M d.proposal) × VenueOk M cfg)

  gate_order-SendsIf :
      (cfg : TraderConfig M) (m : Moment) (d : TradeDecision M) (ps : PortfolioState M)
      (w : World M)
      → SendsIf M (Gated cfg m d ps) cfg m d w (gate_order M cfg m d ps w)
  unfolding gate_order classify
  gate_order-SendsIf cfg m d ps w = elim (Decision-cases (check_order M cfg.engine d.proposal ps)) [
    | inl e ↦
        rw (gate_order, e)
          (SendsIf-iff _ _ cfg m d w (classify M cfg m d (trade_magnitude M d.proposal) w)
            ((λ c. (refl, c)), (λ h. h.1))
            (classify-SendsIf cfg m d (trade_magnitude M d.proposal) w))
    | inr (l, e) ↦
        rw (gate_order, e)
          (Silent-SendsIf _ cfg m d w
            (conclude M (record (base_record M m d) { outcome = risk_rejected }) none w)
            (λ (e', c). cc e') (refl, refl))
  ]

  -- The conditions on the decision.
  abbrev Considered : TraderConfig M → Moment → TradeDecision M → PortfolioState M → Type 0
  Considered cfg m d ps =
      (not (cfg.is_open m.now) ≡ false)
      × ((not d.has_proposal || not (is_gt (sign d.proposal.qty)) ≡ false) × Gated cfg m d ps)

  consider-SendsIf :
      (cfg : TraderConfig M) (m : Moment) (d : TradeDecision M) (ps : PortfolioState M)
      (w : World M)
      → SendsIf M (Considered cfg m d ps) cfg m d w (consider M cfg m d ps w)
  unfolding consider
  consider-SendsIf cfg m d ps w =
      let hold : Ticked M = conclude M (record (bare M m no_signal) { reason = d.reason }) none w in
      pass-SendsIf (not (cfg.is_open m.now)) _ cfg m d w
        (conclude M (bare M m market_closed) none w)
        (if not d.has_proposal || not (is_gt (sign d.proposal.qty))
          then hold
          else gate_order M cfg m d ps w)
        (refl, refl)
        (pass-SendsIf (not d.has_proposal || not (is_gt (sign d.proposal.qty))) _ cfg m d w hold
          (gate_order M cfg m d ps w) (refl, refl) (gate_order-SendsIf cfg m d ps w))

  daily_loss_halt-Silent : (m : Moment) (w : World M) → Silent w (daily_loss_halt M m w)
  unfolding alert_daily_loss_hit
  daily_loss_halt-Silent m w = ground arith

  -- The conditions behind the kill switch.
  abbrev Daily : TraderConfig M → Moment → TradeDecision M → PortfolioState M → Type 0
  Daily cfg m d ps = (check_daily_loss M cfg.engine ps ≡ approved) × Considered cfg m d ps

  refuse_day-Silent :
      (m : Moment) (l : Limit) (w : World M)
      → Silent w (
          if is_daily_loss l
          then daily_loss_halt M m w
          else conclude M (bare M m risk_rejected) none w)
  refuse_day-Silent m l w = elim (Bool-cases (is_daily_loss l)) [
    | inl e ↦ rw e (daily_loss_halt-Silent m w)
    | inr e ↦ rw e (refl, refl)
  ]

  check_day-SendsIf :
      (cfg : TraderConfig M) (m : Moment) (d : TradeDecision M) (ps : PortfolioState M)
      (w : World M)
      → SendsIf M (Daily cfg m d ps) cfg m d w (check_day M cfg m d ps w)
  unfolding check_day consider
  check_day-SendsIf cfg m d ps w = elim (Decision-cases (check_daily_loss M cfg.engine ps)) [
    | inl e ↦
        rw (check_day, e)
          (SendsIf-iff _ _ cfg m d w (consider M cfg m d ps (clear_daily_loss_hit M w))
            ((λ c. (refl, c)), (λ h. h.1)) (consider-SendsIf cfg m d ps (clear_daily_loss_hit M w)))
    | inr (l, e) ↦
        rw (check_day, e)
          (Silent-SendsIf _ cfg m d w
            (if is_daily_loss l
              then daily_loss_halt M m w
              else conclude M (bare M m risk_rejected) none w)
            (λ (e', c). cc e') (refuse_day-Silent m l w))
  ]

  record_and_maybe_alert_halt-Silent :
      (m : Moment) (w : World M)
      → Silent w (record_and_maybe_alert_halt M m (bare M m halted) w, (bare M m halted, none))
  unfolding record_and_maybe_alert_halt
  record_and_maybe_alert_halt-Silent m w = ground arith

  check_switch-SendsIf :
      (cfg : TraderConfig M) (m : Moment) (d : TradeDecision M) (ps : PortfolioState M)
      (w : World M)
      → SendsIf M
          ((is_halted m.layer w.switch ≡ running) × Daily cfg m d ps)
          cfg
          m
          d
          w
          (check_switch M cfg m d ps w)
  unfolding check_switch check_day
  check_switch-SendsIf cfg m d ps w = elim (Halted-cases (is_halted m.layer w.switch)) [
    | inl e ↦
        rw (check_switch, e)
          (SendsIf-iff _ _ cfg m d w (check_day M cfg m d ps w) ((λ c. (refl, c)), (λ h. h.1))
            (check_day-SendsIf cfg m d ps w))
    | inr (inl (reason, e)) ↦
        rw (check_switch, e)
          (Silent-SendsIf _ cfg m d w
            (record_and_maybe_alert_halt M m (bare M m halted) w, (bare M m halted, none))
            (λ (e', c). cc e') (record_and_maybe_alert_halt-Silent m w))
    | inr (inr (reason, e)) ↦
        rw (check_switch, e)
          (Silent-SendsIf _ cfg m d w
            (record_and_maybe_alert_halt M m (bare M m halted) w, (bare M m halted, none))
            (λ (e', c). cc e') (record_and_maybe_alert_halt-Silent m w))
  ]

  update_peak_and_check-high_water :
      (cfg : TraderConfig M) (equity : Decimal) (t : Trader M)
      → (update_peak_and_check M cfg equity t).1
        ≡ drawdown_breached M cfg.engine (high_water M t equity) equity
  unfolding update_peak_and_check
  update_peak_and_check-high_water cfg equity t =
      elim (Bool-cases (not t.have_peak || is_gt (cmp equity t.peak_equity))) [
        | inl e ↦ rw e refl
        | inr e ↦ rw e refl
      ]

  -- The check finds nothing exactly where there is no breach of the high-water mark.
  pub calm_iff :
      (cfg : TraderConfig M) (equity : Decimal) (t : Trader M)
      → ((update_peak_and_check M cfg equity t).1 ≡ false)
        ↔ (¬ Breach M cfg.engine (high_water M t equity) equity)
  calm_iff cfg equity t = rw (update_peak_and_check-high_water cfg equity t) (
    (λ calm b. cc (calm, (drawdown_breached_iff M cfg.engine (high_water M t equity) equity).1 b)),
    back,
  )
    where
      back :
          (¬ Breach M cfg.engine (high_water M t equity) equity)
          → drawdown_breached M cfg.engine (high_water M t equity) equity ≡ false
      back calm =
          elim (Bool-cases (drawdown_breached M cfg.engine (high_water M t equity) equity)) [
            | inl e ↦
                absurd
                  (calm ((drawdown_breached_iff M cfg.engine (high_water M t equity) equity).0 e))
            | inr e ↦ e
          ]

  -- A breach ends the tick before anything is sent.
  drawdown_halted-Silent :
      (cfg : TraderConfig M) (m : Moment) (peak equity : Decimal) (w : World M)
      → Silent w (drawdown_halted M m (halt_for_drawdown M cfg m peak equity w))
  unfolding halt_for_drawdown
  drawdown_halted-Silent cfg m peak equity w =
      latched (halt m.disk m.now_at_halt (cfg.drawdown_text peak equity) max_daily_loss w.switch)
    where
      latched :
          (answer : KillSwitch × Option KillSwitchError)
          → Silent w (drawdown_halted M m (latch_drawdown M m w answer))
      latched (k, some e) = (refl, refl)
      latched (k, none) = ground arith

  -- The conditions of a tick, as the code tests them.
  abbrev pub Passes :
      TraderConfig M → Moment → TradeDecision M → PortfolioState M → Decimal → World M → Type 0
  Passes cfg m d ps equity w =
      ((update_peak_and_check M cfg equity w.trader).1 ≡ false)
      × ((is_halted m.layer w.switch ≡ running) × Daily cfg m d ps)

  pub tick-Passes :
      (cfg : TraderConfig M) (m : Moment) (d : TradeDecision M) (ps : PortfolioState M)
      (equity : Decimal) (w : World M)
      → SendsIf M (Passes cfg m d ps equity w) cfg m d w (tick M cfg m d ps equity w)
  unfolding tick
  tick-Passes cfg m d ps equity w =
      let t = (update_peak_and_check M cfg equity w.trader).0 in
      let w' : World M = record w { trader = t } in
      pass-SendsIf (update_peak_and_check M cfg equity w.trader).1 _ cfg m d w
        (drawdown_halted M m (halt_for_drawdown M cfg m t.peak_equity equity w'))
        (check_switch M cfg m d ps w') (drawdown_halted-Silent cfg m t.peak_equity equity w')
        (check_switch-SendsIf cfg m d ps w')
