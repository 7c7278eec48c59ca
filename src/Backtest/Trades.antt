-- ===== src/Backtest/Trades.antt =====
-- `closeTrade` and `openPosition` of the engine.
use bucks.Backtest.{
  gross_pnl_of, exit_side, apply_slippage, OpenPosition, exact, Bar, BacktestError, Trade,
  BacktestConfig, Walk,
}
use bucks.Money.{is_lt, is_gt, DecimalOps}
use bucks.Common.{◌++◌, ◌+◌, some, ok, ◌>>=◌, none, if◌then◌else◌, Result, ℕ, String, ◌∷◌, []}
use bucks.Orders.{Side}

module _ (M : DecimalOps) where
  open M use {Decimal, zero_decimal, add, sub, mul, quo, cmp, sign, abs}

  -- The peak and the drawdown after a trade.
  unfoldable pub track_drawdown : Walk M → Result BacktestError (Walk M)
  track_drawdown w =
      if is_gt (cmp w.equity w.peak)
      then ok (record w { peak = w.equity })
      else exact M (sub w.peak w.equity) >>= λ dd.
          ok (if is_gt (cmp dd w.max_dd) then record w { max_dd = dd } else w)

  -- The sums of gross profits and losses.
  unfoldable pub track_edge : Decimal → Walk M → Result BacktestError (Walk M)
  track_edge gross w =
      if is_gt (sign gross)
      then (exact M (add w.gross_profit_sum gross) >>= λ sum.
          ok (record w { gross_profit_sum = sum }))
      else if is_lt (sign gross)
      then (exact M (add w.gross_loss_sum (abs gross)) >>= λ sum.
          ok (record w { gross_loss_sum = sum }))
      else ok w

  -- A net win, a net loss or neither.
  unfoldable pub count_net : Decimal → Walk M → Walk M
  count_net net w =
      if is_gt (sign net)
      then record w { wins = w.wins + 1 }
      else if is_lt (sign net)
      then record w { losses = w.losses + 1 }
      else w

  -- The amounts of a round trip: exit price, gross, fees and net.
  unfoldable pub round_trip :
      BacktestConfig M
      → Bar M
      → (exit_raw : Decimal) → (reason : String) → OpenPosition M
      → Result BacktestError (Trade M)
  round_trip cfg bar exit_raw reason p = do
    exit_px ← apply_slippage M cfg exit_raw (exit_side p.side)
    gross ← gross_pnl_of M p.side p.entry_px exit_px p.qty
    fees ← exact M (add p.entry_fee cfg.commission_per_trade)
    net ← exact M (sub gross fees)
    ok (record {
      symbol = bar.symbol;
      side = p.side;
      qty = p.qty;
      entry_px = p.entry_px;
      exit_px = exit_px;
      gross_pnl = gross;
      fees = fees;
      net_pnl = net;
      reason = reason;
      entry_bar = p.open_ts;
      open_index = p.open_bar;
    })

  -- The sums, the counts, the equity curve and the list, for a trade.
  unfoldable pub book_trade : Trade M → Walk M → Result BacktestError (Walk M)
  book_trade t w = do
    gross_sum ← exact M (add w.gross_sum t.gross_pnl)
    fee_sum ← exact M (add w.fee_sum t.fees)
    net_sum ← exact M (add w.net_sum t.net_pnl)
    w' ← track_edge t.gross_pnl (
        count_net t.net_pnl
          (record w { gross_sum = gross_sum; fee_sum = fee_sum; net_sum = net_sum }))
    equity ← exact M (add w'.equity t.net_pnl)
    w'' ← track_drawdown (record w' { equity = equity })
    ok (record w'' { trades = w''.trades ++ t ∷ []; pos = none })

  -- `closeTrade`, of an open position.
  unfoldable pub close_trade :
      BacktestConfig M
      → Bar M
      → (exit_raw : Decimal) → (reason : String) → OpenPosition M
      → Walk M
      → Result BacktestError (Walk M)
  close_trade cfg bar exit_raw reason p w =
      round_trip cfg bar exit_raw reason p >>= λ t. book_trade t w

  -- `openPosition`
  unfoldable pub open_position :
      BacktestConfig M
      → ℕ
      → Bar M
      → Side
      → (entry_raw : Decimal) → Walk M
      → Result BacktestError (Walk M)
  open_position cfg i bar side entry_raw w = do
    entry_px ← apply_slippage M cfg entry_raw side
    ok (record w {
      pos = some (record {
        side = side;
        qty = cfg.qty;
        entry_px = entry_px;
        entry_fee = cfg.commission_per_trade;
        open_bar = i;
        open_ts = bar;
      });
    })
