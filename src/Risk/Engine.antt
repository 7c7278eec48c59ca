-- ===== src/Risk/Engine.antt =====
-- internal/risk/engine.go: the pre-trade risk gate.
pub mod Drawdown
pub mod Gate
pub mod Safety
use bucks.Common.Text.{lookup}
use bucks.Orders.{SideValue, side_buy, side_sell, other_side}
use bucks.Common.Int.{◌+ℤ◌, pos, ltb_ℤ, leb_ℤ, ℤ}
use bucks.Common.{
  suc, [], ◌∷◌, ◌&&◌, ◌||◌, false, none, some, true, not, ℕ, Ordering, List, String, if◌then◌else◌,
  Option, Bool,
}
use bucks.Money.{is_eq, is_lt, is_gt, DecimalOps}

-- `LimitNone` is the approval.
pub data Limit : Type 0 where
  missing_stop per_trade_risk daily_loss gross_leverage total_exposure : Limit
  concentration max_open_positions invalid_input : Limit

-- A decision: approved, or rejected by a limit. The prose of `Reason` is left out.
pub data Decision : Type 0 where
  approved : Decision
  rejected : Limit → Decision

-- `if !decision.Approved { return decision }`
infixr 5 ◌then_check◌
abbrev pub ◌then_check◌ : Decision → Decision → Decision
approved then_check d = d
(rejected l) then_check d = rejected l

-- `if test { return reject(l) }`
abbrev pub reject_if : Bool → Limit → Decision
reject_if true l = rejected l
reject_if false l = approved

-- `if err != nil { return reject(LimitInvalidInput) }`
abbrev pub with_amount {ℓ} : {A : Type ℓ} → Option A → (A → Decision) → Decision
with_amount none k = rejected invalid_input
with_amount (some a) k = k a

-- `sameDirection`, from the sign of the held quantity.
abbrev pub same_direction : Ordering → SideValue → Bool
same_direction Ordering.gt side_buy = true
same_direction Ordering.gt side_sell = false
same_direction Ordering.gt (other_side n) = false
same_direction Ordering.lt side_sell = true
same_direction Ordering.lt side_buy = false
same_direction Ordering.lt (other_side n) = false
same_direction Ordering.eq side = false

-- `side == SideBuy || side == SideSell`
abbrev pub is_buy_or_sell : SideValue → Bool
is_buy_or_sell side_buy = true
is_buy_or_sell side_sell = true
is_buy_or_sell (other_side n) = false

module _ (M : DecimalOps) where
  open M use {Decimal, zero_decimal, add, sub, mul, cmp, sign, abs}

  pub record Config : Type 0 where
    pub max_risk_per_trade_pct : Decimal
    pub max_daily_loss_pct : Decimal
    pub max_gross_leverage : Decimal
    pub max_total_exposure : Decimal
    pub max_concentration_pct : Decimal
    pub max_open_positions : ℤ
    pub max_drawdown_pct : Decimal
    pub require_stop : Bool

  pub record Engine : Type 0 where
    pub cfg : Config
    pub max_risk_pct : Decimal

  -- `NewEngine`; the two parsed constants are arguments.
  unfoldable pub new_engine : (hard_cap default_pct : Decimal) → Config → Engine
  new_engine hard_cap default_pct cfg =
      let wanted =
        if is_gt (sign cfg.max_risk_per_trade_pct)
        then cfg.max_risk_per_trade_pct
        else default_pct in
      record { cfg = cfg; max_risk_pct = if is_gt (cmp wanted hard_cap) then hard_cap else wanted }

  pub record OrderProposal : Type 0 where
    pub symbol : String
    pub side : SideValue
    pub qty : Decimal
    pub entry_px : Decimal
    pub stop_px : Decimal
    pub account_equity : Decimal

  pub record HeldPosition : Type 0 where
    pub qty : Decimal
    pub mark_px : Decimal

  abbrev pub Positions : Type 0
  Positions = List (String × HeldPosition)

  pub record PortfolioState : Type 0 where
    pub equity : Decimal
    pub cash : Decimal
    pub positions : Positions
    pub realized_pnl_today : Decimal
    pub gross_exposure : Option Decimal
    pub open_position_count : ℤ

  unfoldable pub drawdown_breached : Engine → (peak current : Decimal) → Bool
  drawdown_breached e peak current =
      if not (is_gt (sign e.cfg.max_drawdown_pct))
      then false
      else if not (is_gt (sign peak))
      then false
      else elim (sub peak current) [
        | none ↦ false
        | some drop ↦
            if not (is_gt (sign drop)) then false else elim (mul e.cfg.max_drawdown_pct peak) [
              | none ↦ false
              | some threshold ↦ not (is_lt (cmp drop threshold))
            ]
      ]

  unfoldable pub check_daily_loss : Engine → PortfolioState → Decision
  check_daily_loss e ps =
      if not (is_gt (sign e.cfg.max_daily_loss_pct)) || not (is_lt (sign ps.realized_pnl_today))
      then approved
      else reject_if (not (is_gt (sign ps.equity))) invalid_input
        then_check with_amount (mul e.cfg.max_daily_loss_pct ps.equity) λ loss_budget.
          reject_if (not (is_lt (cmp (abs ps.realized_pnl_today) loss_budget))) daily_loss

  abbrev pub stop_on_protective_side : SideValue → (entry stop : Decimal) → Bool
  stop_on_protective_side side_buy entry stop = is_lt (cmp stop entry)
  stop_on_protective_side side_sell entry stop = is_gt (cmp stop entry)
  stop_on_protective_side (other_side n) entry stop = false

  unfoldable pub per_trade_risk_amount : (qty entry stop : Decimal) → Option Decimal
  per_trade_risk_amount qty entry stop = elim (sub entry stop) [
    | none ↦ none
    | some diff ↦ mul qty (abs diff)
  ]

  -- The loop of `grossExposureOf`, in the order in which the map is ranged over.
  unfoldable pub gross_exposure_from : Decimal → Positions → Option Decimal
  gross_exposure_from total [] = some total
  gross_exposure_from total ((symbol, held) ∷ positions) = elim (mul held.qty held.mark_px) [
    | none ↦ none
    | some notional ↦ elim (add total (abs notional)) [
      | none ↦ none
      | some total' ↦ gross_exposure_from total' positions
    ]
  ]

  unfoldable pub gross_exposure_of : Positions → Option Decimal
  gross_exposure_of positions = gross_exposure_from zero_decimal positions

  unfoldable pub exposure_of_held : Option HeldPosition → Option Decimal
  exposure_of_held none = some zero_decimal
  exposure_of_held (some held) = elim (mul held.qty held.mark_px) [
    | none ↦ none
    | some notional ↦ some (abs notional)
  ]

  unfoldable pub symbol_exposure_of : Positions → String → Option Decimal
  symbol_exposure_of positions symbol = exposure_of_held (lookup symbol positions)

  -- The exposure of a held position of the other direction, reduced, closed or flipped.
  unfoldable pub reduced_exposure : (current qty entry : Decimal) → HeldPosition → Option Decimal
  reduced_exposure current qty entry held = elim (cmp qty (abs held.qty)) [
    | Ordering.lt ↦ elim (mul qty (abs held.mark_px)) [
      | none ↦ none
      | some reduction ↦ sub current reduction
    ]
    | Ordering.eq ↦ some zero_decimal
    | Ordering.gt ↦ elim (sub qty (abs held.qty)) [ none ↦ none | some excess ↦ mul excess entry ]
  ]

  -- The exposure after the order, from the current one.
  unfoldable pub projected_exposure :
      (current order_notional : Decimal) → OrderProposal → Option HeldPosition → Option Decimal
  projected_exposure current order_notional p none = some order_notional
  projected_exposure current order_notional p (some held) =
      if is_eq (sign held.qty)
      then some order_notional
      else if same_direction (sign held.qty) p.side
      then add current order_notional
      else reduced_exposure current p.qty p.entry_px held

  -- `symbolExposureAfterOrder`: the current exposure and the projected one.
  unfoldable pub symbol_exposure_after_order :
      Positions → OrderProposal → Decimal → Option (Decimal × Decimal)
  symbol_exposure_after_order positions p order_notional =
      elim (symbol_exposure_of positions p.symbol) [
        | none ↦ none
        | some current ↦
            elim (projected_exposure current order_notional p (lookup p.symbol positions)) [
              | none ↦ none
              | some projected ↦ some (current, projected)
            ]
      ]

  -- `countOpen`
  unfoldable pub count_open : Positions → ℕ
  count_open [] = 0
  count_open ((symbol, held) ∷ positions) =
      let rest = count_open positions in if is_eq (sign held.qty) then rest else suc rest

  -- Stages 0 and 1 of `CheckOrder`: the input and the protective stop.
  unfoldable pub check_input : Engine → OrderProposal → PortfolioState → Decision
  check_input e p ps =
      reject_if (not (is_gt (sign p.qty))) invalid_input
      then_check reject_if (not (is_gt (sign p.entry_px))) invalid_input
      then_check reject_if (not (is_buy_or_sell p.side)) invalid_input
      then_check reject_if (not (is_gt (sign ps.equity))) invalid_input
      then_check (if e.cfg.require_stop
          then reject_if (not (is_gt (sign p.stop_px))) missing_stop
            then_check reject_if (not (stop_on_protective_side p.side p.entry_px p.stop_px))
                missing_stop
          else approved)

  -- Stage 3: the risk between entry and stop.
  unfoldable pub check_trade_risk : Engine → OrderProposal → PortfolioState → Decision
  check_trade_risk e p ps =
      if is_gt (sign p.stop_px)
      then (with_amount (per_trade_risk_amount p.qty p.entry_px p.stop_px) λ risk.
          with_amount (mul e.max_risk_pct ps.equity)
            λ risk_budget. reject_if (is_gt (cmp risk risk_budget)) per_trade_risk)
      else approved

  -- Stages 4 to 6 on the gross exposure and the symbol's exposure after the order.
  unfoldable pub check_exposure :
      Engine → PortfolioState → (new_gross projected : Decimal) → Decision
  check_exposure e ps new_gross projected =
      (if is_gt (sign e.cfg.max_gross_leverage)
        then (with_amount (mul e.cfg.max_gross_leverage ps.equity)
            λ leverage_budget. reject_if (is_gt (cmp new_gross leverage_budget)) gross_leverage)
        else approved)
      then_check reject_if
          (is_gt (sign e.cfg.max_total_exposure) && is_gt (cmp new_gross e.cfg.max_total_exposure))
          total_exposure
      then_check (if is_gt (sign e.cfg.max_concentration_pct)
          then (with_amount (mul e.cfg.max_concentration_pct ps.equity) λ concentration_budget.
              reject_if (is_gt (cmp projected concentration_budget)) concentration)
          else approved)

  -- The number of open symbols that stage 7 reads.
  unfoldable pub open_count : PortfolioState → ℤ
  open_count ps =
      if leb_ℤ (pos 0) ps.open_position_count
      then ps.open_position_count
      else pos (count_open ps.positions)

  -- Stage 7: a slot for a new symbol.
  unfoldable pub check_slots : Engine → OrderProposal → PortfolioState → Decision
  check_slots e p ps =
      if ltb_ℤ (pos 0) e.cfg.max_open_positions
      then elim (lookup p.symbol ps.positions) [
        | some held ↦ approved
        | none ↦
            reject_if (ltb_ℤ e.cfg.max_open_positions (open_count ps +ℤ pos 1)) max_open_positions
      ]
      else approved

  -- The gross exposure that the portfolio has before the order.
  unfoldable pub current_gross : PortfolioState → Option Decimal
  current_gross ps = elim ps.gross_exposure [
    | none ↦ gross_exposure_of ps.positions
    | some g ↦ some g
  ]

  -- `CheckOrder`
  unfoldable pub check_order : Engine → OrderProposal → PortfolioState → Decision
  check_order e p ps =
      check_input e p ps
      then_check check_daily_loss e ps
      then_check check_trade_risk e p ps
      then_check with_amount (mul p.qty p.entry_px) λ order_notional.
        with_amount (current_gross ps) λ cur_gross.
          with_amount (symbol_exposure_after_order ps.positions p order_notional) λ exposure.
            with_amount (sub cur_gross exposure.0) λ others.
              with_amount (add others exposure.1)
                λ new_gross. check_exposure e ps new_gross exposure.1 then_check check_slots e p ps
