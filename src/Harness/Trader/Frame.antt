-- ===== src/Harness/Trader/Frame.antt =====
-- What the steps of a tick behind the drawdown gate leave as it was.
use bucks.Risk.Engine.Gate.{Decision-cases}
use bucks.Risk.Engine.{check_daily_loss, check_order, PortfolioState}
use bucks.Harness.Trader.Tick.{
  is_daily_loss, daily_loss_halt, bare, base_record, conclude, approval_request, record_placement,
  place_above_band, gate_order, place_auto, Ticked, check_day, consider, classify, place_on_broker,
}
use bucks.Money.{is_gt, DecimalOps}
use bucks.Harness.Trader.{
  clear_daily_loss_hit, trade_magnitude, market_closed, no_signal, approved_placed, denied,
  risk_rejected, auto_placed, within_band, heartbeat_pulse, daily_loss_hit, TradeDecision,
  trading_halted, Moment, drawdown_halt, TraderConfig, alert_daily_loss_hit, Outcome, World, Alert,
  AlertText,
}
use bucks.Common.{
  ◌++◌, inr, ◌||◌, inl, none, not, some, arith, Option, [], refl, suc, false, ◌≡◌, if◌then◌else◌,
  true, ℕ, Bool, List, ◌∷◌,
}

-- The alerts that report a halt; a day's loss and a pulse do not.
abbrev pub is_halt_alert : AlertText → Bool
is_halt_alert drawdown_halt = true
is_halt_alert trading_halted = true
is_halt_alert daily_loss_hit = false
is_halt_alert heartbeat_pulse = false

-- The calls of `SendAlert` that report a halt, delivered or not.
unfoldable pub halt_alerts : List (Alert × Bool) → ℕ
halt_alerts [] = 0
halt_alerts ((alert, delivered) ∷ alerts) =
    let rest = halt_alerts alerts in if is_halt_alert alert.text then suc rest else rest

module _ (M : DecimalOps) where
  -- The switch, the peak, the latch and the halt alerts are as before.
  abbrev pub Frame : World M → World M → Type 0
  Frame w w' =
      (w'.switch ≡ w.switch)
      × (w'.trader.peak_equity ≡ w.trader.peak_equity)
      × (w'.trader.have_peak ≡ w.trader.have_peak)
      × (w'.trader.halted ≡ w.trader.halted)
      × (halt_alerts w'.alerts ≡ halt_alerts w.alerts)

  -- A tick that keeps the frame and files its record in the ledger.
  abbrev pub Filed : World M → Ticked M → Type 0
  Filed w (w', (rec, failure)) = Frame w w' × (w'.trader.ledger ≡ w.trader.ledger ++ rec ∷ [])

  -- A choice between two ends keeps what both keep.
  either-Filed :
      (test : Bool) (w : World M) (a b : Ticked M)
      → Filed w a
      → Filed w b
      → Filed w (if test then a else b)
  either-Filed true w a b ha hb = ha
  either-Filed false w a b ha hb = hb

  placement-Filed :
      (done failed : Outcome) (cfg : TraderConfig M) (m : Moment) (d : TradeDecision M)
      (w : World M)
      → Filed w (record_placement M done failed cfg m d (place_on_broker M cfg m d w))
  unfolding place_on_broker
  placement-Filed done failed cfg m d w = ground arith

  classify-Filed :
      (cfg : TraderConfig M) (m : Moment) (d : TradeDecision M) (o : Option (M.Decimal × M.Decimal))
      (w : World M)
      → Filed w (classify M cfg m d o w)
  unfolding classify place_auto place_above_band
  classify-Filed cfg m d none w = ((refl, refl, refl, refl, refl), refl)
  classify-Filed cfg m d (some a) w =
      let asked : World M = record w { asked = approval_request M d a.0 ∷ w.asked } in
      either-Filed (within_band M cfg.band a.0 a.1) w (place_auto M cfg m d w)
        (place_above_band M cfg m d a.0 w) (placement-Filed auto_placed risk_rejected cfg m d w)
        (either-Filed (not m.operator_approves) w
          (conclude M (record (base_record M m d) { outcome = denied }) none asked)
          (record_placement M approved_placed denied cfg m d (place_on_broker M cfg m d asked))
          (((refl, refl, refl, refl, refl), refl))
          (placement-Filed approved_placed denied cfg m d asked))

  gate_order-Filed :
      (cfg : TraderConfig M) (m : Moment) (d : TradeDecision M) (ps : PortfolioState M)
      (w : World M)
      → Filed w (gate_order M cfg m d ps w)
  unfolding gate_order classify
  gate_order-Filed cfg m d ps w = elim (Decision-cases (check_order M cfg.engine d.proposal ps)) [
    | inl e ↦ rw (gate_order, e) (classify-Filed cfg m d (trade_magnitude M d.proposal) w)
    | inr (l, e) ↦ rw (gate_order, e) (((refl, refl, refl, refl, refl), refl))
  ]

  consider-Filed :
      (cfg : TraderConfig M) (m : Moment) (d : TradeDecision M) (ps : PortfolioState M)
      (w : World M)
      → Filed w (consider M cfg m d ps w)
  unfolding consider
  consider-Filed cfg m d ps w =
      let hold : Ticked M = conclude M (record (bare M m no_signal) { reason = d.reason }) none w in
      either-Filed (not (cfg.is_open m.now)) w (conclude M (bare M m market_closed) none w)
        (if not d.has_proposal || not (is_gt (M.sign d.proposal.qty))
          then hold
          else gate_order M cfg m d ps w)
        (((refl, refl, refl, refl, refl), refl))
        (either-Filed (not d.has_proposal || not (is_gt (M.sign d.proposal.qty))) w hold
          (gate_order M cfg m d ps w) (((refl, refl, refl, refl, refl), refl))
          (gate_order-Filed cfg m d ps w))

  daily_loss_halt-Filed : (m : Moment) (w : World M) → Filed w (daily_loss_halt M m w)
  unfolding alert_daily_loss_hit halt_alerts
  daily_loss_halt-Filed m w = ground arith

  pub check_day-Filed :
      (cfg : TraderConfig M) (m : Moment) (d : TradeDecision M) (ps : PortfolioState M)
      (w : World M)
      → Filed w (check_day M cfg m d ps w)
  unfolding check_day consider
  check_day-Filed cfg m d ps w = elim (Decision-cases (check_daily_loss M cfg.engine ps)) [
    | inl e ↦ rw (check_day, e) (consider-Filed cfg m d ps (clear_daily_loss_hit M w))
    | inr (l, e) ↦
        rw (check_day, e)
          (either-Filed (is_daily_loss l) w (daily_loss_halt M m w)
            (conclude M (bare M m risk_rejected) none w) (daily_loss_halt-Filed m w)
            (((refl, refl, refl, refl, refl), refl)))
  ]
