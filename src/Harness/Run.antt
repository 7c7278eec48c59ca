-- ===== src/Harness/Run.antt =====
-- internal/harness/run.go: the loop that drives a trader.
pub mod Script
use bucks.Harness.Loop.{here, reports, later, beats, ticks, Step, Reaches}
use bucks.Harness.Trader.Tick.{heartbeat, tick}
use bucks.Risk.Engine.{PortfolioState}
use bucks.Harness.Trader.{TraderConfig, World, TradeError, Moment, TradeDecision}
use bucks.Money.{DecimalOps}
use bucks.Common.{◌++◌, none, some, String, Option, Bool, List, ◌∷◌, []}
use bucks.Harness.Report.{BrokerPosition, maybe_report}

module _ (M : DecimalOps) where
  open M use {Decimal}

  -- One pull from the source.
  pub record TickInput : Type 0 where
    pub decision : TradeDecision M
    pub portfolio : PortfolioState M
    pub equity : Decimal
    pub realized_pl : Decimal
    pub marks : List (String × Decimal)

  -- One iteration of `Run`: the context is done, the source stops, or it supplies an input, and the
  -- surroundings answer during the tick, the heartbeat and the report.
  pub data Turn : Type 0 where
    canceled stopped : Turn
    supplied :
        TickInput
        → (at_tick at_beat : Moment) → (pulse_delivered : Bool) → (at_report : Moment)
        → (account : Option Decimal) → (positions : Option (List (BrokerPosition M)))
        → (by_symbol : List (BrokerPosition M) → List (BrokerPosition M)) → Turn

  -- How `Run` ended; `going` is a run that has not ended with the turns that are known.
  pub data Ended : Type 0 where
    going clean context_done : Ended
    failed : TradeError → Ended

  -- `if err != nil { return err }`, with what follows.
  abbrev pub after_ok :
      World M × Option TradeError
      → (World M → World M × Option TradeError)
      → World M × Option TradeError
  after_ok (w, none) next = next w
  after_ok (w, some e) next = (w, some e)

  -- One iteration: the tick, the heartbeat and the report, up to the first error.
  unfoldable pub iterate :
      TraderConfig M
      → TickInput
      → (at_tick at_beat : Moment) → (pulse_delivered : Bool) → (at_report : Moment)
      → (account : Option Decimal) → (positions : Option (List (BrokerPosition M)))
      → (by_symbol : List (BrokerPosition M) → List (BrokerPosition M)) → World M
      → World M × Option TradeError
  iterate cfg x at_tick at_beat delivered at_report account positions by_symbol w =
      let ticked = tick M cfg at_tick x.decision x.portfolio x.equity w in
      after_ok (ticked.0, ticked.1.1)
        (λ v.
          let beat = heartbeat M cfg at_beat delivered x.equity v in
          after_ok (beat.0, beat.1.1)
            (λ u.
              let reported =
                maybe_report M cfg at_report account positions by_symbol x.realized_pl x.marks u in
              (reported.0, reported.1.1)))

  -- The next iteration, unless this one failed.
  abbrev pub go_on :
      (rest : World M → World M × Ended) → World M × Option TradeError → World M × Ended
  go_on rest (w, none) = rest w
  go_on rest (w, some e) = (w, failed e)

  unfoldable pub run_loop : TraderConfig M → List Turn → World M → World M × Ended
  run_loop cfg [] w = (w, going)
  run_loop cfg (canceled ∷ turns) w = (w, context_done)
  run_loop cfg (stopped ∷ turns) w = (w, clean)
  run_loop cfg (supplied x at_tick at_beat delivered at_report account positions by_symbol ∷ turns)
        w =
      go_on (run_loop cfg turns)
        (iterate cfg x at_tick at_beat delivered at_report account positions by_symbol w)

  -- One more event behind a run.
  abbrev Reached : TraderConfig M → World M → World M → Type 0
  Reached cfg start w = (seen : List Decimal) × Reaches M cfg start seen w

  one_more :
      (cfg : TraderConfig M) (start : World M) {seen : List Decimal} {w w' : World M}
      → Step M cfg seen w w'
      → Reached cfg start w
      → Reached cfg start w'
  one_more cfg start {seen} step (before, run) = (seen ++ before, later run step)

  after_ok-Reached :
      (cfg : TraderConfig M) (start : World M) (r : World M × Option TradeError)
      (next : World M → World M × Option TradeError)
      → Reached cfg start r.0
      → ((w : World M) → Reached cfg start w → Reached cfg start (next w).0)
      → Reached cfg start (after_ok r next).0
  after_ok-Reached cfg start (w, none) next run on = on w run
  after_ok-Reached cfg start (w, some e) next run on = run

  iterate-Reached :
      (cfg : TraderConfig M) (start : World M) (x : TickInput) (at_tick at_beat : Moment)
      (delivered : Bool) (at_report : Moment) (account : Option Decimal)
      (positions : Option (List (BrokerPosition M)))
      (by_symbol : List (BrokerPosition M) → List (BrokerPosition M)) (w : World M)
      → Reached cfg start w
      → Reached cfg start
          (iterate cfg x at_tick at_beat delivered at_report account positions by_symbol w).0
  unfolding iterate
  iterate-Reached cfg start x at_tick at_beat delivered at_report account positions by_symbol w
        run =
      let ticked = tick M cfg at_tick x.decision x.portfolio x.equity w in
      after_ok-Reached cfg start (ticked.0, ticked.1.1) _
        (one_more cfg start (ticks at_tick x.decision x.portfolio x.equity w) run)
        (λ v run'.
          let beat = heartbeat M cfg at_beat delivered x.equity v in
          after_ok-Reached cfg start (beat.0, beat.1.1) _
            (one_more cfg start (beats at_beat delivered x.equity v) run')
            (λ u.
              one_more cfg start
                (reports at_report account positions by_symbol x.realized_pl x.marks u)))

  go_on-Reached :
      (cfg : TraderConfig M) (start : World M) (rest : World M → World M × Ended)
      (r : World M × Option TradeError)
      → Reached cfg start r.0
      → ((w : World M) → Reached cfg start w → Reached cfg start (rest w).0)
      → Reached cfg start (go_on rest r).0
  go_on-Reached cfg start rest (w, none) run on = on w run
  go_on-Reached cfg start rest (w, some e) run on = run

  run_loop-Reached :
      (cfg : TraderConfig M) (start : World M) (turns : List Turn) (w : World M)
      → Reached cfg start w
      → Reached cfg start (run_loop cfg turns w).0
  unfolding run_loop
  run_loop-Reached cfg start [] w run = run
  run_loop-Reached cfg start (canceled ∷ turns) w run = run
  run_loop-Reached cfg start (stopped ∷ turns) w run = run
  run_loop-Reached cfg start
        (supplied x at_tick at_beat delivered at_report account positions by_symbol ∷ turns) w run =
      go_on-Reached cfg start (run_loop cfg turns)
        (iterate cfg x at_tick at_beat delivered at_report account positions by_symbol w)
        (iterate-Reached cfg start x at_tick at_beat delivered at_report account positions by_symbol
          w run)
        (run_loop-Reached cfg start turns)

  -- Whatever the source supplies and the surroundings answer, `Run` moves the world only by steps of
  -- the step relation, also where it stops at an error: its world is one that the relation reaches.
  pub run_loop-Reaches :
      (cfg : TraderConfig M) (turns : List Turn) (start : World M)
      → (seen : List Decimal) × Reaches M cfg start seen (run_loop cfg turns start).0
  run_loop-Reaches cfg turns start = run_loop-Reached cfg start turns start ([], here)
