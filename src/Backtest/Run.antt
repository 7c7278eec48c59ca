-- ===== src/Backtest/Run.antt =====
-- The loop of `Run`, and what it returns.
use bucks.Backtest.Trades.{open_position, close_trade}
use bucks.Backtest.{
  hold, exit, enter_short, enter_long, exact, entry_side, Summary, BacktestError, Signal, Walk, Bar,
  Action, BacktestConfig,
}
use bucks.Money.{DecimalOps}
use bucks.Common.{
  ◌==◌, length, ◌+◌, some, ok, ◌>>=◌, none, if◌then◌else◌, Result, Option, ℕ, List, ◌∷◌, [],
}

module _ (M : DecimalOps) where
  open M use {Decimal, zero_decimal, add, sub, mul, quo, cmp, sign, abs}

  -- A pending exit fills at the open.
  unfoldable pub fill_exit : BacktestConfig M → Bar M → Walk M → Result BacktestError (Walk M)
  fill_exit cfg bar w = elim w.pend_exit [
    | none ↦ ok w
    | some sig ↦ elim w.pos [
      | none ↦ ok w
      | some p ↦ close_trade M cfg bar bar.open_px sig.reason p w >>= λ w'.
          ok (record w' { pend_exit = none })
    ]
  ]

  -- A pending entry fills at the open.
  unfoldable pub fill_entry : BacktestConfig M → ℕ → Bar M → Walk M → Result BacktestError (Walk M)
  fill_entry cfg i bar w = elim w.pend_entry [
    | none ↦ ok w
    | some sig ↦ elim w.pos [
      | some p ↦ ok w
      | none ↦ open_position M cfg i bar (entry_side sig.action) bar.open_px w >>= λ w'.
          ok (record w' { pend_entry = none })
    ]
  ]

  -- Step 1 of the loop.
  unfoldable pub fill_pending :
      BacktestConfig M → ℕ → Bar M → Walk M → Result BacktestError (Walk M)
  fill_pending cfg i bar w =
      if cfg.enter_at_next_open
      then (fill_exit cfg bar w >>= λ w'. fill_entry cfg i bar w')
      else ok w

  -- A signal to enter: pending, or filled at the close.
  unfoldable pub enter :
      BacktestConfig M → ℕ → Bar M → Signal M → Walk M → Result BacktestError (Walk M)
  enter cfg i bar sig w = elim w.pos [
    | some p ↦ ok w
    | none ↦ elim w.pend_entry [
      | some pending ↦ ok w
      | none ↦
          if cfg.enter_at_next_open
          then ok (record w { pend_entry = some sig })
          else open_position M cfg i bar (entry_side sig.action) bar.close_px w
    ]
  ]

  -- A signal to exit.
  unfoldable pub leave :
      BacktestConfig M → Bar M → Signal M → Walk M → Result BacktestError (Walk M)
  leave cfg bar sig w = elim w.pos [
    | none ↦ ok w
    | some p ↦ elim w.pend_exit [
      | some pending ↦ ok w
      | none ↦
          if cfg.enter_at_next_open
          then ok (record w { pend_exit = some sig })
          else close_trade M cfg bar bar.close_px sig.reason p w
    ]
  ]

  -- Step 3.
  abbrev pub route :
      Action → BacktestConfig M → ℕ → Bar M → Signal M → Walk M → Result BacktestError (Walk M)
  route enter_long cfg i bar sig w = enter cfg i bar sig w
  route enter_short cfg i bar sig w = enter cfg i bar sig w
  route exit cfg i bar sig w = leave cfg bar sig w
  route hold cfg i bar sig w = ok w

  -- Step 4, on the last bar.
  unfoldable pub close_last :
      BacktestConfig M → Option (Bar M) → Walk M → Result BacktestError (Walk M)
  close_last cfg none w = ok w
  close_last cfg (some bar) w = elim w.pos [
    | none ↦ ok w
    | some p ↦ close_trade M cfg bar bar.close_px "backtest: end-of-data close" p w
  ]

  abbrev pub starting : BacktestConfig M → Walk M
  starting cfg = record {
    pos = none;
    trades = [];
    gross_sum = zero_decimal;
    fee_sum = zero_decimal;
    net_sum = zero_decimal;
    gross_profit_sum = zero_decimal;
    gross_loss_sum = zero_decimal;
    wins = 0;
    losses = 0;
    equity = cfg.starting_cash;
    peak = cfg.starting_cash;
    max_dd = zero_decimal;
    pend_entry = none;
    pend_exit = none;
  }

  -- The end of `Run`. `of_count` is `intDecimal`.
  unfoldable pub summarize :
      (of_count : ℕ → Decimal) → BacktestConfig M → Walk M → Result BacktestError (Summary M)
  summarize of_count cfg w = do
    end_cash ← exact M (add cfg.starting_cash w.net_sum)
    expectancy ←
        (if length w.trades == 0
          then ok zero_decimal
          else exact M (quo w.net_sum (of_count (length w.trades))))
    ok (record {
      net_pnl = w.net_sum;
      gross_pnl = w.gross_sum;
      fees_paid = w.fee_sum;
      ending_cash = end_cash;
      num_trades = length w.trades;
      num_wins = w.wins;
      num_losses = w.losses;
      expectancy = expectancy;
      max_drawdown = w.max_dd;
      trades = w.trades;
    })

  module _ {Brain : Type 0} (on_bar : Brain → Bar M → Brain × Signal M) where
    -- The loop, with the last bar.
    unfoldable pub walk_bars :
        BacktestConfig M
        → ℕ
        → Brain
        → Option (Bar M)
        → List (Bar M)
        → Walk M
        → Result BacktestError (Walk M × Option (Bar M))
    walk_bars cfg i brain last [] w = ok (w, last)
    walk_bars cfg i brain last (bar ∷ bars) w =
        let (brain', sig) = on_bar brain bar in
        fill_pending cfg i bar w >>= λ w'. route sig.action cfg i bar sig w' >>= λ w''.
        walk_bars cfg (i + 1) brain' (some bar) bars w''

    -- `Run`
    unfoldable pub run_backtest :
        (of_count : ℕ → Decimal)
        → BacktestConfig M
        → Brain
        → List (Bar M)
        → Result BacktestError (Summary M)
    run_backtest of_count cfg brain bars = do
      (w, last) ← walk_bars cfg 0 brain none bars (starting cfg)
      w' ← close_last cfg last w
      summarize of_count cfg w'
