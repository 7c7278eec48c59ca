-- ===== src/Risk/Engine/Safety.antt =====
-- What the limits of the risk engine guarantee, given the order and rounding laws of decimals.
use bucks.Common.Text.{lookup}
use bucks.Risk.Engine.Gate.{check_order-approved}
use bucks.Risk.Engine.{
  Positions, projected_exposure, exposure_of_held, symbol_exposure_of, symbol_exposure_after_order,
  same_direction, approved, check_order, HeldPosition, PortfolioState, reduced_exposure,
  OrderProposal, new_engine, Config,
}
use bucks.Money.Laws.{Positive, NonNegative, RoundingLaws, AtMost, OrderLaws}
use bucks.Money.{is_eq, DecimalOps}
use bucks.Common.{Option-cases, inr, inl, some, false, ◌≡◌, arith}

module _ (M : DecimalOps) where
  open M use {Decimal, zero_decimal, add, sub, mul, cmp, sign, abs}

  pub new_engine-capped :
      (hard_cap default_pct : Decimal) (cfg : Config M)
      → OrderLaws M
      → AtMost M (new_engine M hard_cap default_pct cfg).max_risk_pct hard_cap
  unfolding new_engine
  new_engine-capped hard_cap default_pct cfg laws = ground (arith, laws.cmp_refl hard_cap)

  -- Whatever the configuration asks for, an approved order with a stop risks (quantity times the
  -- distance from entry to stop) at most the hard cap's share of the equity.
  pub check_order-hard_cap :
      (hard_cap default_pct : Decimal) (cfg : Config M) (p : OrderProposal M)
      (ps : PortfolioState M) (diff risk budget : Decimal)
      → OrderLaws M
      → RoundingLaws M
      → check_order M (new_engine M hard_cap default_pct cfg) p ps ≡ approved
      → Positive M p.stop_px
      → sub p.entry_px p.stop_px ≡ some diff
      → mul p.qty (abs diff) ≡ some risk
      → mul hard_cap ps.equity ≡ some budget
      → AtMost M risk budget
  check_order-hard_cap hard_cap default_pct cfg p ps diff risk budget laws rounding ok_order stop
        ediff erisk ebudget =
      let (input, _, within, _, _) =
        (check_order-approved M (new_engine M hard_cap default_pct cfg) p ps).0 ok_order in
      elim within [
        | inl no_stop ↦ cc (stop, no_stop)
        | inr (diff', risk', budget', ed, er, eb, small) ↦
            laws.cmp_trans risk budget' budget (ground (arith, ed, ediff, er, erisk, small)) (
              rounding.mul_mono (new_engine M hard_cap default_pct cfg).max_risk_pct hard_cap
                ps.equity budget' budget (new_engine-capped hard_cap default_pct cfg laws) input.3
                eb ebudget)
      ]

  -- The held position is on the other side of the order and at least as large.
  pub record Reduces (p : OrderProposal M) (held : HeldPosition M) : Type 0 where
    pub open_position : is_eq (sign held.qty) ≡ false
    pub opposite : same_direction (sign held.qty) p.side ≡ false
    pub no_flip : AtMost M p.qty (abs held.qty)

  reduced_exposure-le :
      (current qty entry projected : Decimal) (held : HeldPosition M)
      → OrderLaws M
      → RoundingLaws M
      → NonNegative M current
      → NonNegative M qty
      → AtMost M qty (abs held.qty)
      → reduced_exposure M current qty entry held ≡ some projected
      → AtMost M projected current
  unfolding reduced_exposure
  reduced_exposure-le current qty entry projected held laws rounding h k small e =
      elim (Option-cases (mul qty (abs held.mark_px))) [
        | inl failed ↦ ground (arith, nonnegative)
        | inr (reduction, er) ↦ ground (
          arith,
          nonnegative,
          rounding.sub_le current reduction projected (
              rounding.mul_nonneg qty (abs held.mark_px) reduction k (laws.sign_abs held.mark_px)
                er),
        )
      ]
    where
      -- A closed position leaves zero, which is at most the current exposure.
      nonnegative : AtMost M zero_decimal current
      nonnegative = ground (arith, laws.cmp_flip current zero_decimal, laws.sign_zero current)

  exposure_parts :
      (positions : Positions M) (p : OrderProposal M) (notional current projected : Decimal)
      (held : HeldPosition M)
      → lookup p.symbol positions ≡ some held
      → Reduces p held
      → symbol_exposure_after_order M positions p notional ≡ some (current, projected)
      → (n : Decimal) × (current ≡ abs n)
        × (reduced_exposure M current p.qty p.entry_px held ≡ some projected)
  unfolding symbol_exposure_after_order symbol_exposure_of exposure_of_held projected_exposure
  exposure_parts positions p notional current projected held found r e =
      elim (Option-cases (mul held.qty held.mark_px)) [
        | inl failed ↦ absurd (ground (arith, found))
        | inr (n, en) ↦
            (n, ground (arith, found), ground (arith, found, r.open_position, r.opposite))
      ]

  -- An order against a held position that is at least as large never raises the exposure of its
  -- symbol: where the engine computes a projection at all, it is at most the current exposure.
  pub symbol_exposure_after_order-le :
      (positions : Positions M) (p : OrderProposal M) (notional current projected : Decimal)
      (held : HeldPosition M)
      → OrderLaws M
      → RoundingLaws M
      → lookup p.symbol positions ≡ some held
      → Reduces p held
      → NonNegative M p.qty
      → symbol_exposure_after_order M positions p notional ≡ some (current, projected)
      → AtMost M projected current
  symbol_exposure_after_order-le positions p notional current projected held laws rounding found r k
        e =
      let (n, size, reduced) =
        exposure_parts positions p notional current projected held found r e in
      reduced_exposure-le current p.qty p.entry_px projected held laws rounding
        (rw size (laws.sign_abs n)) k r.no_flip reduced
