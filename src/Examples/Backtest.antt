-- ===== src/Examples/Backtest.antt =====
-- A run of the backtest engine: a long that wins, and a short that the end of the data closes.
use bucks.Backtest.Trades.{
  count_net, track_drawdown, track_edge, book_trade, round_trip, close_trade, open_position,
}
use bucks.Backtest.Run.{
  summarize, close_last, leave, enter, fill_entry, fill_exit, fill_pending, walk_bars, run_backtest,
}
use bucks.Common.Int.{pos, negsuc, ◌+ℤ◌, ◌-ℤ◌, ◌*ℤ◌}
use bucks.Orders.{sell, buy}
use bucks.Common.{zero, suc, refl, ok, ◌≡◌, [], ◌∷◌, true, List, ℕ}
use bucks.Backtest.{
  hold, enter_short, exit, enter_long, gross_pnl_of, apply_slippage, Action, Signal, Bar,
  BacktestConfig, Summary, Trade,
}
use bucks.Backtest.Books.{run_backtest-Accounted, Accounted}
use bucks.Money.Whole.{whole}

abbrev priced : ℕ → ℕ → ℕ → Bar whole
priced open_at close_at time = record {
  symbol = "AAPL";
  open_px = pos open_at;
  high_px = pos 60;
  low_px = pos 5;
  close_px = pos close_at;
  volume = pos 1000;
  ts = pos time;
}

abbrev says : Action → Signal whole
says action = record { action = action; stop = pos 1; reason = "rule" }

-- A strategy that counts the bars it has seen.
abbrev counted : ℕ → Bar whole → ℕ × Signal whole
counted zero bar = (1, says enter_long)
counted (suc zero) bar = (2, says exit)
counted (suc (suc zero)) bar = (3, says enter_short)
counted (suc (suc (suc n))) bar = (4, says hold)

abbrev costs : BacktestConfig whole
costs = record {
  starting_cash = pos 1000;
  qty = pos 2;
  commission_per_trade = pos 1;
  slippage_bps = pos 0;
  enter_at_next_open = true;
  bps_divisor = pos 10000;
}

abbrev four_bars : List (Bar whole)
four_bars = priced 9 9 1 ∷ priced 10 20 2 ∷ priced 50 45 3 ∷ priced 30 40 4 ∷ []

abbrev long_won : Trade whole
long_won = record {
  symbol = "AAPL";
  side = buy;
  qty = pos 2;
  entry_px = pos 10;
  exit_px = pos 50;
  gross_pnl = pos 80;
  fees = pos 2;
  net_pnl = pos 78;
  reason = "rule";
  entry_bar = priced 10 20 2;
  open_index = 1;
}

abbrev short_lost : Trade whole
short_lost = record {
  symbol = "AAPL";
  side = sell;
  qty = pos 2;
  entry_px = pos 30;
  exit_px = pos 40;
  gross_pnl = negsuc 19;
  fees = pos 2;
  net_pnl = negsuc 21;
  reason = "backtest: end-of-data close";
  entry_bar = priced 30 40 4;
  open_index = 3;
}

abbrev summary : Summary whole
summary = record {
  net_pnl = pos 56;
  gross_pnl = pos 60;
  fees_paid = pos 4;
  ending_cash = pos 1056;
  num_trades = 2;
  num_wins = 1;
  num_losses = 1;
  expectancy = pos 28;
  max_drawdown = pos 22;
  trades = long_won ∷ short_lost ∷ [];
}

backtested : run_backtest whole counted pos costs 0 four_bars ≡ ok summary
unfolding run_backtest walk_bars fill_pending fill_exit fill_entry enter leave open_position
    close_trade round_trip book_trade track_edge track_drawdown count_net apply_slippage
    gross_pnl_of close_last summarize ◌+ℤ◌ ◌-ℤ◌ ◌*ℤ◌
backtested = refl

run_backtest-Accounted_example : Accounted whole counted costs summary
run_backtest-Accounted_example =
    run_backtest-Accounted whole counted pos costs 0 four_bars summary backtested

-- A slippage of a whole price: a purchase costs twice as much.
slipped :
    apply_slippage whole (record costs { slippage_bps = pos 10000 }) (pos 30) buy ≡ ok (pos 60)
unfolding apply_slippage ◌+ℤ◌ ◌*ℤ◌
slipped = refl
