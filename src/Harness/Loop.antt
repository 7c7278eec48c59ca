-- ===== src/Harness/Loop.antt =====
-- What may happen to the world of a trade loop, in any order: its own calls, halts that others
-- raise and the runaway guard. Nothing here clears the kill switch.
pub mod HighWater
pub mod Halting
pub mod Alerted
pub mod Audited
use bucks.Risk.KillSwitch.{record_order, halt, HaltKind, Disk}
use bucks.Harness.Trader.Tick.{heartbeat, tick}
use bucks.Risk.Engine.{PortfolioState}
use bucks.Harness.Trader.{TradeDecision, Moment, World, TraderConfig}
use bucks.Money.{DecimalOps}
use bucks.Harness.Report.{maybe_report, BrokerPosition}
use bucks.Common.{Option, String, Bool, ◌++◌, List, ◌∷◌, []}
use bucks.Common.Int.{ℤ}

module _ (M : DecimalOps) where
  -- One event; the list has the equity that the call was given.
  pub data Step (cfg : TraderConfig M) : List M.Decimal → World M → World M → Type 0 where
    ticks :
        (m : Moment) (d : TradeDecision M) (ps : PortfolioState M) (equity : M.Decimal)
        (w : World M)
        → Step cfg (equity ∷ []) w (tick M cfg m d ps equity w).0
    beats :
        (m : Moment) (delivered : Bool) (equity : M.Decimal) (w : World M)
        → Step cfg (equity ∷ []) w (heartbeat M cfg m delivered equity w).0
    reports :
        (m : Moment) (account : Option M.Decimal) (positions : Option (List (BrokerPosition M)))
        (by_symbol : List (BrokerPosition M) → List (BrokerPosition M)) (realized_pl : M.Decimal)
        (marks : List (String × M.Decimal)) (w : World M)
        → Step cfg [] w (maybe_report M cfg m account positions by_symbol realized_pl marks w).0
    halts :
        (disk : Disk) (now : ℤ) (reason : String) (kind : HaltKind) (w : World M)
        → Step cfg [] w (record w { switch = (halt disk now reason kind w.switch).0 })
    counts :
        (disk : Disk) (now : ℤ) (w : World M)
        → Step cfg [] w (record w { switch = (record_order disk now w.switch).0 })

  -- A run of events, with the equities that its calls were given, the latest first.
  pub data Reaches (cfg : TraderConfig M) (start : World M)
      : List M.Decimal → World M → Type 0 where
    here : Reaches cfg start [] start
    later :
        {before seen : List M.Decimal} {w w' : World M}
        → Reaches cfg start before w
        → Step cfg seen w w'
        → Reaches cfg start (seen ++ before) w'
