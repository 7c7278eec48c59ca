-- ===== src/Harness/Loop/Halting.antt =====
-- The loop behind a halted switch.
use bucks.Harness.Trader.Clearance.Stages.{calm_iff}
use bucks.Risk.KillSwitch.Durability.{is_halted-app}
use bucks.Harness.Trader.Clearance.Exact.{tick-Cleared}
use bucks.Risk.Engine.Drawdown.{Breach}
use bucks.Risk.Engine.{PortfolioState}
use bucks.Harness.Trader.Tick.{heartbeat, tick, drawdown_halted}
use bucks.Harness.Loop.{reports, counts, halts, here, beats, later, ticks, Reaches, Step}
use bucks.Common.Int.{ℤ}
use bucks.Harness.Trader.{
  update_peak_and_check, latch_drawdown, TradeDecision, World, halt_for_drawdown, TraderConfig,
  Moment,
}
use bucks.Money.{DecimalOps}
use bucks.Risk.KillSwitch.{
  commits, KillSwitchError, HaltKind, max_daily_loss, KillSwitch, persist_state, guard_disabled,
  Disk, record_order, halt,
}
use bucks.Harness.Report.{maybe_report-Marked}
use bucks.Common.{
  none, some, Bool-cases, some, ◌⊎◌, refl, ◌∙◌, inr, Option, inl, arith, true, String, ◌≡◌, List,
}
use bucks.Harness.Trader.Clearance.{high_water}
use bucks.Harness.Trader.Effects.{
  peaked, Switched, tick-Effect, heartbeat-Effect, heartbeat-Outgoing,
}

halt-still :
    (disk : Disk) (now : ℤ) (reason : String) (kind : HaltKind) (k : KillSwitch)
    → k.state.halted ≡ true
    → (halt disk now reason kind k).0 ≡ k
unfolding halt
halt-still disk now reason kind k h = rw h refl

record_order-still :
    (disk : Disk) (now : ℤ) (k : KillSwitch)
    → k.state.halted ≡ true
    → (record_order disk now k).0.state.halted ≡ true
unfolding record_order guard_disabled
record_order-still disk now k h = ground arith

module _ (M : DecimalOps) where
  Switched-still :
      (m : Moment) (w w' : World M)
      → Switched M m w w'
      → w.switch.state.halted ≡ true
      → w'.switch.state.halted ≡ true
  Switched-still m w w' (inl same) h = rw same h
  Switched-still m w w' (inr (reason, told)) h =
      rw (told, halt-still m.disk m.now_at_halt reason max_daily_loss w.switch h) h

  tick-still :
      (cfg : TraderConfig M) (m : Moment) (d : TradeDecision M) (ps : PortfolioState M)
      (equity : M.Decimal) (w : World M)
      → w.switch.state.halted ≡ true
      → (tick M cfg m d ps equity w).0.sent ≡ w.sent
  tick-still cfg m d ps equity w h = elim (tick-Cleared M cfg m d ps equity w) [
    | inl (clear, e, o, i) ↦ absurd (cc (clear.1, is_halted-app m.layer w.switch h))
    | inr (blocked, e, o) ↦ e
  ]

  Step-still :
      {cfg : TraderConfig M} {seen : List M.Decimal} {w w' : World M}
      → Step M cfg seen w w'
      → w.switch.state.halted ≡ true
      → (w'.switch.state.halted ≡ true) × (w'.sent ≡ w.sent)
  Step-still {cfg} (ticks m d ps equity w) h = (
    Switched-still m (peaked M cfg equity w) (tick M cfg m d ps equity w).0
        (tick-Effect M cfg m d ps equity w).2 h,
    tick-still cfg m d ps equity w h,
  )
  Step-still {cfg} (beats m delivered equity w) h = (
    Switched-still m (peaked M cfg equity w) (heartbeat M cfg m delivered equity w).0
        (heartbeat-Effect M cfg m delivered equity w).2 h,
    (heartbeat-Outgoing M cfg m delivered equity w).0,
  )
  Step-still {cfg} (reports m account positions by_symbol realized_pl marks w) h =
      elim (maybe_report-Marked M cfg m account positions by_symbol realized_pl marks w) [
        | inl e ↦ rw e (h, refl)
        | inr (now, e) ↦ rw e (h, refl)
      ]
  Step-still (halts disk now reason kind w) h =
      (rw (halt-still disk now reason kind w.switch h) h, refl)
  Step-still (counts disk now w) h = (record_order-still disk now w.switch h, refl)

  -- From a halted switch, whatever happens next in any order (ticks, heartbeats, halts by others, the
  -- runaway guard), the switch stays halted and no further request reaches the broker.
  pub Reaches-still :
      {cfg : TraderConfig M} {start : World M} {seen : List M.Decimal} {w : World M}
      → Reaches M cfg start seen w
      → start.switch.state.halted ≡ true
      → (w.switch.state.halted ≡ true) × (w.sent ≡ start.sent)
  Reaches-still here h = (h, refl)
  Reaches-still (later r s) h =
      let (still, kept) = Reaches-still r h in
      let (still', kept') = Step-still s still in (still', kept' ∙ kept)

  drawdown-switch :
      (cfg : TraderConfig M) (m : Moment) (peak equity : M.Decimal) (w : World M)
      → (drawdown_halted M m (halt_for_drawdown M cfg m peak equity w)).0.switch
        ≡ (halt m.disk m.now_at_halt (cfg.drawdown_text peak equity) max_daily_loss w.switch).0
  unfolding halt_for_drawdown
  drawdown-switch cfg m peak equity w =
      latched (halt m.disk m.now_at_halt (cfg.drawdown_text peak equity) max_daily_loss w.switch)
    where
      latched :
          (answer : KillSwitch × Option KillSwitchError)
          → (drawdown_halted M m (latch_drawdown M m w answer)).0.switch ≡ answer.0
      latched (k, some failure) = refl
      latched (k, none) = ground arith

  halt-halted :
      (disk : Disk) (now : ℤ) (reason : String) (kind : HaltKind) (k : KillSwitch)
      → (disk ≡ commits) ⊎ (k.state.halted ≡ true)
      → (halt disk now reason kind k).0.state.halted ≡ true
  unfolding halt persist_state
  halt-halted disk now reason kind k (inl e) = ground arith
  halt-halted disk now reason kind k (inr h) = ground arith

  -- The check finds every breach.
  tick-breached :
      (cfg : TraderConfig M) (m : Moment) (d : TradeDecision M) (ps : PortfolioState M)
      (equity : M.Decimal) (w : World M)
      → Breach M cfg.engine (high_water M w.trader equity) equity
      → (m.disk ≡ commits) ⊎ (w.switch.state.halted ≡ true)
      → (tick M cfg m d ps equity w).0.switch.state.halted ≡ true
  unfolding tick
  tick-breached cfg m d ps equity w breach durable =
      elim (Bool-cases (update_peak_and_check M cfg equity w.trader).1) [
        | inl e ↦
            rw (tick, e)
              (rw
                (drawdown-switch cfg m (peaked M cfg equity w).trader.peak_equity equity
                  (peaked M cfg equity w))
                (halt-halted m.disk m.now_at_halt
                  (cfg.drawdown_text (peaked M cfg equity w).trader.peak_equity equity)
                  max_daily_loss w.switch durable))
        | inr e ↦ absurd ((calm_iff M cfg equity w.trader).0 e breach)
      ]

  -- Where the equity of a tick breaches the drawdown from the high-water mark, and the disk commits
  -- the halt or the switch was halted already, nothing reaches the broker on that tick nor ever
  -- after, whatever happens next but a clearing of the switch.
  pub tick-drawdown :
      {seen : List M.Decimal} {end : World M} (cfg : TraderConfig M) (m : Moment)
      (d : TradeDecision M) (ps : PortfolioState M) (equity : M.Decimal) (w : World M)
      → Breach M cfg.engine (high_water M w.trader equity) equity
      → (m.disk ≡ commits) ⊎ (w.switch.state.halted ≡ true)
      → Reaches M cfg (tick M cfg m d ps equity w).0 seen end
      → end.sent ≡ w.sent
  tick-drawdown cfg m d ps equity w breach durable run =
      (Reaches-still run (tick-breached cfg m d ps equity w breach durable)).1
      ∙ (elim (tick-Cleared M cfg m d ps equity w) [
        | inl (clear, e, o, i) ↦ absurd (clear.0 breach)
        | inr (blocked, e, o) ↦ e
      ])
