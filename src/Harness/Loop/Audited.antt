-- ===== src/Harness/Loop/Audited.antt =====
-- The ledger of the loop against the orders that the broker accepted.
use bucks.Harness.Loop.{counts, halts, reports, here, beats, later, ticks, Reaches, Step}
use bucks.Harness.Trader.Clearance.Exact.{tick-Cleared}
use bucks.Risk.KillSwitch.Durability.{Halted-cases}
use bucks.Risk.KillSwitch.{max_daily_loss, halt, KillSwitchError, is_halted, KillSwitch}
use bucks.Risk.Engine.{PortfolioState}
use bucks.Harness.Trader.Effects.{heartbeat-Outgoing, peaked-ledger, peaked}
use bucks.Harness.Trader.Tick.{bare, drawdown_halted, Ticked, tick, check_switch}
use bucks.Money.{DecimalOps}
use mathlib.Core.List.{append-nil, append_assoc}
use bucks.Common.{
  sym, refl, ◌∙◌, none, ap, some, inr, inl, Bool-cases, Option, false, arith, ◌⊎◌, ◌≡◌,
  if◌then◌else◌, Bool, ◌++◌, String, List, ◌∷◌, [],
}
use bucks.Harness.Report.{maybe_report-Marked}
use bucks.Harness.Trader.{
  latch_drawdown, TradeDecision, Moment, TraderConfig, update_peak_and_check, halt_for_drawdown,
  record_and_maybe_alert_halt, World, OrderRequest, placed, halted, TradeRecord,
}
use bucks.Harness.Trader.Frame.{check_day-Filed}

module _ (M : DecimalOps) where
  -- The ids of the requests that the broker accepted, in the order in which they were sent.
  unfoldable pub accepted_ids : List (OrderRequest M × Bool) → List String
  accepted_ids [] = []
  accepted_ids ((request, accepted) ∷ sent) =
      accepted_ids sent ++ (if accepted then request.cl_ord_id ∷ [] else [])

  abbrev placed_id : TradeRecord M → List String
  placed_id r = if placed r.outcome then r.cl_ord_id ∷ [] else []

  -- The ids of the placements in the ledger.
  unfoldable pub placed_ids : List (TradeRecord M) → List String
  placed_ids [] = []
  placed_ids (r ∷ ledger) = (if placed r.outcome then r.cl_ord_id ∷ [] else []) ++ placed_ids ledger

  abbrev pub IsAudited : World M → Type 0
  IsAudited w = accepted_ids w.sent ≡ placed_ids w.trader.ledger

  placed_ids-append :
      (ledger : List (TradeRecord M)) (r : TradeRecord M)
      → placed_ids (ledger ++ r ∷ []) ≡ placed_ids ledger ++ placed_id r
  unfolding placed_ids
  placed_ids-append [] r = append-nil (placed_id r)
  placed_ids-append (first ∷ ledger) r =
      ap (λ ids. placed_id first ++ ids) (placed_ids-append ledger r)
      ∙ sym (append_assoc (placed_id first) (placed_ids ledger) (placed_id r))

  -- The ledger after a tick: with the record that the tick returns, which is left out of the ledger
  -- only if it is no placement.
  abbrev Recorded : World M → Ticked M → Type 0
  Recorded w (w', (rec, failure)) =
      (w'.trader.ledger ≡ w.trader.ledger ++ rec ∷ [])
      ⊎ ((w'.trader.ledger ≡ w.trader.ledger) × (placed rec.outcome ≡ false))

  record_and_maybe_alert_halt-ledger :
      (m : Moment) (rec : TradeRecord M) (w : World M)
      → (record_and_maybe_alert_halt M m rec w).trader.ledger ≡ w.trader.ledger ++ rec ∷ []
  unfolding record_and_maybe_alert_halt
  record_and_maybe_alert_halt-ledger m rec w = ground arith

  check_switch-Recorded :
      (cfg : TraderConfig M) (m : Moment) (d : TradeDecision M) (ps : PortfolioState M)
      (w : World M)
      → Recorded w (check_switch M cfg m d ps w)
  unfolding check_switch
  check_switch-Recorded cfg m d ps w = elim (Halted-cases (is_halted m.layer w.switch)) [
    | inl e ↦ rw (check_switch, e) (inl (check_day-Filed M cfg m d ps w).1)
    | inr (inl (reason, e)) ↦
        rw (check_switch, e) (inl (record_and_maybe_alert_halt-ledger m (bare M m halted) w))
    | inr (inr (reason, e)) ↦
        rw (check_switch, e) (inl (record_and_maybe_alert_halt-ledger m (bare M m halted) w))
  ]

  drawdown_halted-Recorded :
      (cfg : TraderConfig M) (m : Moment) (peak equity : M.Decimal) (w : World M)
      → Recorded w (drawdown_halted M m (halt_for_drawdown M cfg m peak equity w))
  unfolding halt_for_drawdown
  drawdown_halted-Recorded cfg m peak equity w =
      latched (halt m.disk m.now_at_halt (cfg.drawdown_text peak equity) max_daily_loss w.switch)
    where
      latched :
          (answer : KillSwitch × Option KillSwitchError)
          → Recorded w (drawdown_halted M m (latch_drawdown M m w answer))
      latched (k, some failure) = inr (refl, refl)
      latched (k, none) = ground arith

  tick-Recorded :
      (cfg : TraderConfig M) (m : Moment) (d : TradeDecision M) (ps : PortfolioState M)
      (equity : M.Decimal) (w : World M)
      → Recorded (peaked M cfg equity w) (tick M cfg m d ps equity w)
  unfolding tick
  tick-Recorded cfg m d ps equity w =
      let w' = peaked M cfg equity w in
      elim (Bool-cases (update_peak_and_check M cfg equity w.trader).1) [
        | inl e ↦ rw (tick, e) (drawdown_halted-Recorded cfg m w'.trader.peak_equity equity w')
        | inr e ↦ rw (tick, e) (check_switch-Recorded cfg m d ps w')
      ]

  -- A tick adds to the accepted ids what its record says.
  tick-accepted :
      (cfg : TraderConfig M) (m : Moment) (d : TradeDecision M) (ps : PortfolioState M)
      (equity : M.Decimal) (w : World M)
      → accepted_ids (tick M cfg m d ps equity w).0.sent
        ≡ accepted_ids w.sent ++ placed_id (tick M cfg m d ps equity w).1.0
  unfolding accepted_ids
  tick-accepted cfg m d ps equity w = elim (tick-Cleared M cfg m d ps equity w) [
    | inl (clear, e, o, i) ↦ rw (e, o, i) refl
    | inr (blocked, e, o) ↦ rw (e, o) (sym (append-nil (accepted_ids w.sent)))
  ]

  -- And the same to the ids in the ledger.
  tick-placed :
      (cfg : TraderConfig M) (m : Moment) (d : TradeDecision M) (ps : PortfolioState M)
      (equity : M.Decimal) (w : World M)
      → placed_ids (tick M cfg m d ps equity w).0.trader.ledger
        ≡ placed_ids w.trader.ledger ++ placed_id (tick M cfg m d ps equity w).1.0
  tick-placed cfg m d ps equity w = elim (tick-Recorded cfg m d ps equity w) [
    | inl l ↦
        rw (l, peaked-ledger M cfg equity w)
          (placed_ids-append w.trader.ledger (tick M cfg m d ps equity w).1.0)
    | inr (l, unplaced) ↦
        rw (l, peaked-ledger M cfg equity w, unplaced)
          (sym (append-nil (placed_ids w.trader.ledger)))
  ]

  Step-IsAudited :
      {cfg : TraderConfig M} {seen : List M.Decimal} {w w' : World M}
      → Step M cfg seen w w'
      → IsAudited w
      → IsAudited w'
  Step-IsAudited {cfg} (ticks m d ps equity w) audited =
      tick-accepted cfg m d ps equity w
      ∙ ap (λ ids. ids ++ placed_id (tick M cfg m d ps equity w).1.0) audited
      ∙ sym (tick-placed cfg m d ps equity w)
  Step-IsAudited {cfg} (beats m delivered equity w) audited =
      let (sent, ledger) = heartbeat-Outgoing M cfg m delivered equity w in
      rw (sent, ledger) audited
  Step-IsAudited {cfg} (reports m account positions by_symbol realized_pl marks w) audited =
      elim (maybe_report-Marked M cfg m account positions by_symbol realized_pl marks w) [
        | inl e ↦ rw e audited
        | inr (now, e) ↦ rw e audited
      ]
  Step-IsAudited (halts disk now reason kind w) audited = audited
  Step-IsAudited (counts disk now w) audited = audited

  -- However the loop runs from an audited world, the ids of the requests that the broker accepted
  -- are the ids of the placements in the ledger, in the same order: no order goes unrecorded, and no
  -- placement is recorded that the broker did not accept.
  pub Reaches-IsAudited :
      {cfg : TraderConfig M} {start : World M} {seen : List M.Decimal} {w : World M}
      → IsAudited start
      → Reaches M cfg start seen w
      → IsAudited w
  Reaches-IsAudited audited here = audited
  Reaches-IsAudited audited (later r s) = Step-IsAudited s (Reaches-IsAudited audited r)
