-- ===== src/Risk/Engine/Gate.antt =====
-- `CheckOrder` against an independent statement of the limits.
use bucks.Orders.{other_side, side_sell, SideValue, side_buy}
use bucks.Common.Text.{lookup}
use bucks.Common.Int.{◌+ℤ◌, pos, ◌≤ℤ◌}
use bucks.Risk.Engine.{
  is_buy_or_sell, symbol_exposure_after_order, check_order, current_gross, rejected, open_count,
  stop_on_protective_side, reject_if, approved, per_trade_risk_amount, with_amount, Limit,
  ◌then_check◌, check_slots, check_exposure, check_trade_risk, check_daily_loss, check_input,
  PortfolioState, OrderProposal, Decision, Engine,
}
use bucks.Money.{is_lt, is_gt, DecimalOps}
use mathlib.Core.Option.{some-injective}
use bucks.Common.{
  inr, inl, sym, Option-cases, ◌≢◌, subst, none, arith, some, refl, ◌⊎◌, ◌↔◌, false, true, ◌≡◌,
  Option, Bool,
}

pub Decision-cases : (dec : Decision) → (dec ≡ approved) ⊎ ((l : Limit) × (dec ≡ rejected l))
Decision-cases approved = inl refl
Decision-cases (rejected l) = inr (l, refl)

pub then_check-approved :
    (d d' : Decision) → ((d then_check d') ≡ approved) ↔ ((d ≡ approved) × (d' ≡ approved))
then_check-approved approved d' = ((λ h. (refl, h)), (λ h. h.1))
then_check-approved (rejected l) d' = ((λ h. cc h), (λ h. cc (h.0)))

pub reject_if-approved : (test : Bool) (l : Limit) → (reject_if test l ≡ approved) ↔ (test ≡ false)
reject_if-approved true l = ((λ h. cc h), (λ h. cc h))
reject_if-approved false l = ((λ h. refl), (λ h. refl))

pub with_amount-approved :
    {A : Type 0} (o : Option A) (k : A → Decision)
    → (with_amount o k ≡ approved) ↔ ((a : A) × (o ≡ some a) × (k a ≡ approved))
with_amount-approved none k = ((λ h. cc h), (λ (a, e, h). cc e))
with_amount-approved {A} (some a) k = ((λ h. (a, refl, h)), back)
  where
    back : (b : A) × (some a ≡ some b) × (k b ≡ approved) → k a ≡ approved
    back (b, e, h) = subst (λ x. k x ≡ approved) (sym (some-injective a b e)) h

module _ (M : DecimalOps) where
  open M use {Decimal, zero_decimal, add, sub, mul, cmp, sign, abs}

  -- A well-formed proposal, with a stop on its protective side where one is required.
  abbrev pub InputOk : Engine M → OrderProposal M → PortfolioState M → Type 0
  InputOk e p ps =
      (is_gt (sign p.qty) ≡ true)
      × (is_gt (sign p.entry_px) ≡ true)
      × ((p.side ≡ side_buy) ⊎ (p.side ≡ side_sell))
      × (is_gt (sign ps.equity) ≡ true)
      × ((e.cfg.require_stop ≡ false)
          ⊎ ((is_gt (sign p.stop_px) ≡ true)
              × (stop_on_protective_side M p.side p.entry_px p.stop_px ≡ true)))

  -- The daily breaker is off, the day is not at a loss, or the loss is below its budget.
  abbrev pub DailyLossOk : Engine M → PortfolioState M → Type 0
  DailyLossOk e ps =
      (is_gt (sign e.cfg.max_daily_loss_pct) ≡ false)
      ⊎ ((is_lt (sign ps.realized_pnl_today) ≡ false)
          ⊎ ((is_gt (sign ps.equity) ≡ true)
              × ((budget : Decimal) × (mul e.cfg.max_daily_loss_pct ps.equity ≡ some budget)
                  × (is_lt (cmp (abs ps.realized_pnl_today) budget) ≡ true))))

  -- There is no stop, or the quantity times the distance to it is within the risk budget.
  abbrev pub TradeRiskOk : Engine M → OrderProposal M → PortfolioState M → Type 0
  TradeRiskOk e p ps =
      (is_gt (sign p.stop_px) ≡ false)
      ⊎ ((diff : Decimal) × (risk : Decimal) × (budget : Decimal) × (sub p.entry_px p.stop_px
            ≡ some diff)
          × (mul p.qty (abs diff) ≡ some risk)
          × (mul e.max_risk_pct ps.equity ≡ some budget)
          × (is_gt (cmp risk budget) ≡ false))

  -- A cap is off, or the amount is at most the cap times the equity.
  abbrev pub CapOk : (cap amount equity : Decimal) → Type 0
  CapOk cap amount equity =
      (is_gt (sign cap) ≡ false)
      ⊎ ((budget : Decimal) × (mul cap equity ≡ some budget) × (is_gt (cmp amount budget) ≡ false))

  abbrev pub ExposureOk : Engine M → PortfolioState M → (new_gross projected : Decimal) → Type 0
  ExposureOk e ps new_gross projected =
      CapOk e.cfg.max_gross_leverage new_gross ps.equity
      × ((is_gt (sign e.cfg.max_total_exposure) ≡ false)
          ⊎ (is_gt (cmp new_gross e.cfg.max_total_exposure) ≡ false))
      × CapOk e.cfg.max_concentration_pct projected ps.equity

  -- The cap is off, the symbol is held, or there is a slot for one more.
  abbrev pub SlotsOk : Engine M → OrderProposal M → PortfolioState M → Type 0
  SlotsOk e p ps =
      (e.cfg.max_open_positions ≤ℤ pos 0)
      ⊎ ((lookup p.symbol ps.positions ≢ none)
          ⊎ (open_count M ps +ℤ pos 1 ≤ℤ e.cfg.max_open_positions))

  is_buy_or_sell-true :
      (side : SideValue) → (is_buy_or_sell side ≡ true) ↔ ((side ≡ side_buy) ⊎ (side ≡ side_sell))
  is_buy_or_sell-true side_buy = ((λ h. inl refl), (λ h. refl))
  is_buy_or_sell-true side_sell = ((λ h. inr refl), (λ h. refl))
  is_buy_or_sell-true (other_side n) = ((λ h. cc h), back)
    where
      back :
          (other_side n ≡ side_buy) ⊎ (other_side n ≡ side_sell)
          → is_buy_or_sell (other_side n) ≡ true
      back (inl e) = cc e
      back (inr e) = cc e

  check_input-approved :
      (e : Engine M) (p : OrderProposal M) (ps : PortfolioState M)
      → (check_input M e p ps ≡ approved) ↔ InputOk e p ps
  unfolding check_input
  check_input-approved e p ps = ground (arith, is_buy_or_sell-true p.side)

  pub check_daily_loss-approved :
      (e : Engine M) (ps : PortfolioState M)
      → (check_daily_loss M e ps ≡ approved) ↔ DailyLossOk e ps
  unfolding check_daily_loss
  check_daily_loss-approved e ps = ground arith

  check_trade_risk-approved :
      (e : Engine M) (p : OrderProposal M) (ps : PortfolioState M)
      → (check_trade_risk M e p ps ≡ approved) ↔ TradeRiskOk e p ps
  unfolding check_trade_risk per_trade_risk_amount
  check_trade_risk-approved e p ps = ground arith

  check_exposure-approved :
      (e : Engine M) (ps : PortfolioState M) (new_gross projected : Decimal)
      → (check_exposure M e ps new_gross projected ≡ approved) ↔ ExposureOk e ps new_gross projected
  unfolding check_exposure
  check_exposure-approved e ps new_gross projected = ground arith

  check_slots-approved :
      (e : Engine M) (p : OrderProposal M) (ps : PortfolioState M)
      → (check_slots M e p ps ≡ approved) ↔ SlotsOk e p ps
  unfolding check_slots
  check_slots-approved e p ps = elim (Option-cases (lookup p.symbol ps.positions)) [
    | inl new_symbol ↦ rw (new_symbol, check_slots) (ground arith)
    | inr (held, e') ↦ rw (e', check_slots) (ground arith)
  ]

  -- The amounts behind the exposure checks: each decimal operation succeeds.
  pub record Exposure (p : OrderProposal M) (ps : PortfolioState M) (new_gross projected : Decimal)
      : Type 0 where
    pub notional : Decimal
    pub notional_eq : mul p.qty p.entry_px ≡ some notional
    pub gross : Decimal
    pub gross_eq : current_gross M ps ≡ some gross
    pub current : Decimal
    pub symbol_eq :
        symbol_exposure_after_order M ps.positions p notional ≡ some (current, projected)
    pub others : Decimal
    pub others_eq : sub gross current ≡ some others
    pub new_gross_eq : add others projected ≡ some new_gross

  -- Every limit of the configuration holds for the order on this portfolio.
  abbrev pub Permitted : Engine M → OrderProposal M → PortfolioState M → Type 0
  Permitted e p ps =
      InputOk e p ps
      × DailyLossOk e ps
      × TradeRiskOk e p ps
      × ((new_gross : Decimal) × (projected : Decimal) × Exposure p ps new_gross projected
          × ExposureOk e ps new_gross projected)
      × SlotsOk e p ps

  permitted :
      (e : Engine M) (p : OrderProposal M) (ps : PortfolioState M)
      → check_order M e p ps ≡ approved
      → Permitted e p ps
  unfolding check_order
  permitted e p ps h =
      let (input, h1) = (then_check-approved _ _).0 h in
      let (daily, h2) = (then_check-approved _ _).0 h1 in
      let (risk, h3) = (then_check-approved _ _).0 h2 in
      let (notional, notional_eq, h4) = (with_amount-approved _ _).0 h3 in
      let (gross, gross_eq, h5) = (with_amount-approved _ _).0 h4 in
      let (exposure, symbol_eq, h6) = (with_amount-approved _ _).0 h5 in
      let (others, others_eq, h7) = (with_amount-approved _ _).0 h6 in
      let (new_gross, new_gross_eq, h8) = (with_amount-approved _ _).0 h7 in
      let (caps, slots) = (then_check-approved _ _).0 h8 in
      (
        (check_input-approved e p ps).0 input,
        (check_daily_loss-approved e ps).0 daily,
        (check_trade_risk-approved e p ps).0 risk,
        (
          new_gross,
          exposure.1,
          record {
            notional = notional;
            notional_eq = notional_eq;
            gross = gross;
            gross_eq = gross_eq;
            current = exposure.0;
            symbol_eq = symbol_eq;
            others = others;
            others_eq = others_eq;
            new_gross_eq = new_gross_eq;
          },
          (check_exposure-approved e ps new_gross exposure.1).0 caps,
        ),
        (check_slots-approved e p ps).0 slots,
      )

  approves :
      (e : Engine M) (p : OrderProposal M) (ps : PortfolioState M)
      → Permitted e p ps
      → check_order M e p ps ≡ approved
  unfolding check_order
  approves e p ps (input, daily, risk, (new_gross, projected, x, caps), slots) =
      rw
        (
          (check_input-approved e p ps).1 input,
          (check_daily_loss-approved e ps).1 daily,
          (check_trade_risk-approved e p ps).1 risk,
          x.notional_eq,
          x.gross_eq,
        )
        (rw (x.symbol_eq, x.others_eq)
          (rw (x.new_gross_eq, (check_exposure-approved e ps new_gross projected).1 caps)
            ((check_slots-approved e p ps).1 slots)))

  -- `CheckOrder` approves an order exactly when it is well formed (a buy or a sell of a positive
  -- quantity at a positive price, on a positive equity), has a protective stop if one is
  -- required, the daily loss is below its budget, the trade's risk is within its budget, all
  -- decimal operations succeed, and the exposure after the order is within the leverage, total and
  -- concentration caps and the symbol has a slot; a cap that is not positive is off.
  pub check_order-approved :
      (e : Engine M) (p : OrderProposal M) (ps : PortfolioState M)
      → (check_order M e p ps ≡ approved) ↔ Permitted e p ps
  check_order-approved e p ps = (permitted e p ps, approves e p ps)
