-- ===== src/Harness/Loop/Alerted.antt =====
-- The alerts of a halt.
use bucks.Harness.Trader.{World}
use bucks.Money.{DecimalOps}
use bucks.Common.{true, ◌⊎◌, false, ◌≡◌}
use bucks.Harness.Trader.Frame.{halt_alerts}

module _ (M : DecimalOps) where
  -- The trader has seen no halt and handed the channel no alert of one, or it has latched a halt and
  -- handed the channel one.
  abbrev pub OnceAlerted : World M → Type 0
  OnceAlerted w =
      ((w.trader.halted ≡ false) × (halt_alerts w.alerts ≡ 0))
      ⊎ ((w.trader.halted ≡ true) × (halt_alerts w.alerts ≡ 1))
