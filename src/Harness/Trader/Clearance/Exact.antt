-- ===== src/Harness/Trader/Clearance/Exact.antt =====
-- The requests of a tick against its clearance.
use bucks.Harness.Trader.Clearance.{Cleared, SendsIf, Magnitude, InBand}
use bucks.Harness.Trader.Clearance.Stages.{calm_iff, Passes, SendsIf-iff, tick-Passes}
use bucks.Harness.Trader.Tick.{tick}
use bucks.Harness.Trader.{
  trade_magnitude, within_band, World, TradeDecision, Moment, TraderConfig, HybridBandConfig,
}
use bucks.Risk.Engine.{PortfolioState, OrderProposal}
use bucks.Money.{DecimalOps}
use bucks.Common.{arith, inl, ◌↔◌, inr, true, some, ◌≡◌}
use bucks.Risk.Engine.Gate.{check_order-approved, check_daily_loss-approved}

module _ (M : DecimalOps) where
  open M use {Decimal, zero_decimal, sub, mul, cmp, sign, abs}

  within_band-InBand :
      (b : HybridBandConfig M) (risk_amt notional : Decimal)
      → (within_band M b risk_amt notional ≡ true) ↔ InBand M b risk_amt notional
  unfolding within_band
  within_band-InBand b risk_amt notional = ground arith

  trade_magnitude-Magnitude :
      (p : OrderProposal M) (risk_amt notional : Decimal)
      → (trade_magnitude M p ≡ some (risk_amt, notional)) ↔ Magnitude M p risk_amt notional
  unfolding trade_magnitude
  trade_magnitude-Magnitude p risk_amt notional = ground arith

  Passes-Cleared :
      (cfg : TraderConfig M) (m : Moment) (d : TradeDecision M) (ps : PortfolioState M)
      (equity : Decimal) (w : World M)
      → Passes M cfg m d ps equity w
      → Cleared M cfg m d ps equity w
  Passes-Cleared cfg m d ps equity w
        (calm, (runs, (day, (opened, (wanted, (gate, ((a, amounts, band), venue))))))) =
      (
        (calm_iff M cfg equity w.trader).0 calm,
        runs,
        ground arith,
        ground arith,
        (check_order-approved M cfg.engine d.proposal ps).0 gate,
        (
          a.0,
          a.1,
          (trade_magnitude-Magnitude d.proposal a.0 a.1).0 amounts,
          elim band [
            | inl inside ↦ inl ((within_band-InBand cfg.band a.0 a.1).0 inside)
            | inr granted ↦ inr granted
          ],
        ),
        venue,
      )

  Cleared-Passes :
      (cfg : TraderConfig M) (m : Moment) (d : TradeDecision M) (ps : PortfolioState M)
      (equity : Decimal) (w : World M)
      → Cleared M cfg m d ps equity w
      → Passes M cfg m d ps equity w
  Cleared-Passes cfg m d ps equity w
        (calm, runs, opened, wanted, permitted, (r, n, amounts, band), venue) =
      (
        (calm_iff M cfg equity w.trader).1 calm,
        (
          runs,
          (
            (check_daily_loss-approved M cfg.engine ps).1 permitted.1,
            (
              ground arith,
              (
                ground (arith, permitted.0.0),
                (
                  (check_order-approved M cfg.engine d.proposal ps).1 permitted,
                  (
                    (
                      (r, n),
                      (trade_magnitude-Magnitude d.proposal r n).1 amounts,
                      elim band [
                        | inl inside ↦ inl ((within_band-InBand cfg.band r n).1 inside)
                        | inr granted ↦ inr granted
                      ],
                    ),
                    venue,
                  ),
                ),
              ),
            ),
          ),
        ),
      )

  -- A tick whose order is cleared hands the broker exactly one request, that of its decision, and
  -- records a placement, under the id of that request, exactly if the broker accepts it. A tick whose order is not cleared hands the
  -- broker nothing and records no placement.
  pub tick-Cleared :
      (cfg : TraderConfig M) (m : Moment) (d : TradeDecision M) (ps : PortfolioState M)
      (equity : Decimal) (w : World M)
      → SendsIf M (Cleared M cfg m d ps equity w) cfg m d w (tick M cfg m d ps equity w)
  tick-Cleared cfg m d ps equity w =
      SendsIf-iff M (Passes M cfg m d ps equity w) _ cfg m d w (tick M cfg m d ps equity w)
        (Passes-Cleared cfg m d ps equity w, Cleared-Passes cfg m d ps equity w)
        (tick-Passes M cfg m d ps equity w)
