-- ===== src/Backtest.antt =====
-- internal/backtest: the types of one forward pass of a strategy over bars, and the prices of its
-- fills. Win rate, profit factor, warnings and the fingerprint, which are floating point and text, are
-- left out.
pub mod Accounts
pub mod Books
pub mod Run
pub mod Steps
pub mod Trades
use bucks.Common.Int.{ℤ}
use bucks.Money.{is_lt, is_gt, is_eq, DecimalOps}
use bucks.Common.{
  ◌==◌, length, ◌++◌, ◌+◌, some, ok, ◌>>=◌, or_fail, none, if◌then◌else◌, Result, Option, ℕ, Bool,
  String, List, ◌∷◌, [],
}
use bucks.Orders.{Side, buy, sell}

pub data Action : Type 0 where
  hold enter_long enter_short exit : Action

-- Any decimal error ends the run.
pub data BacktestError : Type 0 where
  arithmetic : BacktestError

-- `entrySide`, `exitSide`
abbrev pub entry_side : Action → Side
entry_side enter_short = sell
entry_side enter_long = buy
entry_side exit = buy
entry_side hold = buy

abbrev pub exit_side : Side → Side
exit_side buy = sell
exit_side sell = buy

module _ (M : DecimalOps) where
  open M use {Decimal, zero_decimal, add, sub, mul, quo, cmp, sign, abs}

  pub record Bar : Type 0 where
    pub symbol : String
    pub open_px : Decimal
    pub high_px : Decimal
    pub low_px : Decimal
    pub close_px : Decimal
    pub volume : Decimal
    pub ts : ℤ

  pub record Signal : Type 0 where
    pub action : Action
    pub stop : Decimal
    pub reason : String

  -- With the parsed constant 10000.
  pub record BacktestConfig : Type 0 where
    pub starting_cash : Decimal
    pub qty : Decimal
    pub commission_per_trade : Decimal
    pub slippage_bps : Decimal
    pub enter_at_next_open : Bool
    pub bps_divisor : Decimal

  pub record Trade : Type 0 where
    pub symbol : String
    pub side : Side
    pub qty : Decimal
    pub entry_px : Decimal
    pub exit_px : Decimal
    pub gross_pnl : Decimal
    pub fees : Decimal
    pub net_pnl : Decimal
    pub reason : String
    pub entry_bar : Bar
    pub open_index : ℕ

  -- An open `position`.
  pub record OpenPosition : Type 0 where
    pub side : Side
    pub qty : Decimal
    pub entry_px : Decimal
    pub entry_fee : Decimal
    pub open_bar : ℕ
    pub open_ts : Bar

  -- The variables of `Run`. No position and no pending signal are `none`.
  pub record Walk : Type 0 where
    pub pos : Option OpenPosition
    pub trades : List Trade
    pub gross_sum : Decimal
    pub fee_sum : Decimal
    pub net_sum : Decimal
    pub gross_profit_sum : Decimal
    pub gross_loss_sum : Decimal
    pub wins : ℕ
    pub losses : ℕ
    pub equity : Decimal
    pub peak : Decimal
    pub max_dd : Decimal
    pub pend_entry : Option Signal
    pub pend_exit : Option Signal

  pub record Summary : Type 0 where
    pub net_pnl : Decimal
    pub gross_pnl : Decimal
    pub fees_paid : Decimal
    pub ending_cash : Decimal
    pub num_trades : ℕ
    pub num_wins : ℕ
    pub num_losses : ℕ
    pub expectancy : Decimal
    pub max_drawdown : Decimal
    pub trades : List Trade

  -- A decimal operation, or the error.
  abbrev pub exact : Option Decimal → Result BacktestError Decimal
  exact o = or_fail o arithmetic

  -- `applySlippage`
  unfoldable pub apply_slippage :
      BacktestConfig → (raw : Decimal) → Side → Result BacktestError Decimal
  apply_slippage cfg raw side =
      if is_eq (sign cfg.slippage_bps)
      then ok raw
      else exact (quo cfg.slippage_bps cfg.bps_divisor) >>= λ fraction.
          exact (mul raw fraction) >>= λ adj.
          exact (elim side [ buy ↦ add raw adj | sell ↦ sub raw adj ])

  -- `grossPnL`
  unfoldable pub gross_pnl_of :
      Side → (entry_px exit_px qty : Decimal) → Result BacktestError Decimal
  gross_pnl_of side entry_px exit_px qty =
      exact (elim side [ buy ↦ sub exit_px entry_px | sell ↦ sub entry_px exit_px ]) >>= λ diff.
      exact (mul diff qty)
