-- ===== src/Backtest/Books.antt =====
-- The summary of `Run`, against the books of its trades.
use bucks.Backtest.Steps.{fill_pending-Sound, route-Sound, close_last-Sound}
use bucks.Backtest.Run.{
  route, close_last, fill_pending, run_backtest, summarize, walk_bars, starting,
}
use bucks.Backtest.Accounts.{
  Sound, Booked, exact-some, sum_from, count_of, nets, grosses, all_fees, Costed,
}
use bucks.Backtest.{Summary, Signal, exact, Bar, Walk, BacktestConfig}
use bucks.Money.{is_lt, is_gt, DecimalOps}
use bucks.Common.{
  ◌==◌, ◌+◌, length, subst, ok-injective, >>=-eq-ok, refl, All, if◌then◌else◌, none, ok, ℕ, some,
  ◌≡◌, Option, List, ◌∷◌, [],
}

module _ (M : DecimalOps) where
  open M use {Decimal, zero_decimal, add, sub, sign}

  starting-Sound : (cfg : BacktestConfig M) → Sound M cfg (starting M cfg)
  unfolding sum_from count_of
  starting-Sound cfg = (
    record {
      gross_sums = refl;
      fee_sums = refl;
      net_sums = refl;
      equity_sums = refl;
      win_count = refl;
      loss_count = refl;
      costed = tt;
    },
    tt,
  )

  module _ {Brain : Type 0} (on_bar : Brain → Bar M → Brain × Signal M) where
    walk_bars-Sound :
        (cfg : BacktestConfig M) (i : ℕ) (brain : Brain) (last : Option (Bar M))
        (bars : List (Bar M)) (w : Walk M) (end : Walk M × Option (Bar M))
        → Sound M cfg w
        → walk_bars M on_bar cfg i brain last bars w ≡ ok end
        → Sound M cfg end.0
    unfolding walk_bars
    walk_bars-Sound cfg i brain last [] w end s e = subst (λ x. Sound M cfg x.0) (ok-injective e) s
    walk_bars-Sound cfg i brain last (bar ∷ bars) w end s e =
        let next = on_bar brain bar in
        let (v, e1, r1) = >>=-eq-ok (fill_pending M cfg i bar w) _ e in
        let (u, e2, r2) = >>=-eq-ok (route M next.1.action cfg i bar next.1 v) _ r1 in
        walk_bars-Sound cfg (i + 1) next.0 (some bar) bars u end
          (route-Sound M next.1.action cfg i bar next.1 v u
            (fill_pending-Sound M cfg i bar w v s e1) e2)
          r2

    -- A summary whose figures are those of its trades.
    pub record Accounted (cfg : BacktestConfig M) (r : Summary M) : Type 0 where
      pub net_total : sum_from M zero_decimal (nets M r.trades) ≡ some r.net_pnl
      pub gross_total : sum_from M zero_decimal (grosses M r.trades) ≡ some r.gross_pnl
      pub fee_total : sum_from M zero_decimal (all_fees M r.trades) ≡ some r.fees_paid
      pub cash : add cfg.starting_cash r.net_pnl ≡ some r.ending_cash
      pub trade_count : r.num_trades ≡ length r.trades
      pub win_count : r.num_wins ≡ count_of M (λ x. is_gt (sign x)) (nets M r.trades)
      pub loss_count : r.num_losses ≡ count_of M (λ x. is_lt (sign x)) (nets M r.trades)
      pub costed : All (Costed M cfg) r.trades

    summarize-Accounted :
        (of_count : ℕ → Decimal) (cfg : BacktestConfig M) (w : Walk M) (r : Summary M)
        → Booked M cfg w
        → summarize M of_count cfg w ≡ ok r
        → Accounted cfg r
    unfolding summarize
    summarize-Accounted of_count cfg w r b e =
        let (cash, e1, r1) = >>=-eq-ok (exact M (add cfg.starting_cash w.net_sum)) _ e in
        let (expectancy, e2, r2) =
          >>=-eq-ok
            (if length w.trades == 0
              then ok zero_decimal
              else exact M (M.quo w.net_sum (of_count (length w.trades))))
            _ r1 in
        subst (Accounted cfg) (ok-injective r2) (record {
          net_total = b.net_sums;
          gross_total = b.gross_sums;
          fee_total = b.fee_sums;
          cash = exact-some M (add cfg.starting_cash w.net_sum) cash e1;
          trade_count = refl;
          win_count = b.win_count;
          loss_count = b.loss_count;
          costed = b.costed;
        })

    -- Whatever the strategy and the bars, the figures of a backtest that returns no error are those of
    -- its trades: net, gross and fees are the sums over the trades, the ending cash is the starting cash
    -- with the net added, the counts are the numbers of trades, of net wins and of net losses, and each
    -- trade has the gross of its prices, the fees of two commissions, and the gross less the fees as its
    -- net.
    pub run_backtest-Accounted :
        (of_count : ℕ → Decimal) (cfg : BacktestConfig M) (brain : Brain) (bars : List (Bar M))
        (r : Summary M)
        → run_backtest M on_bar of_count cfg brain bars ≡ ok r
        → Accounted cfg r
    unfolding run_backtest
    run_backtest-Accounted of_count cfg brain bars r e =
        let (walked, e1, r1) =
          >>=-eq-ok (walk_bars M on_bar cfg 0 brain none bars (starting M cfg)) _ e in
        let (closed, e2, r2) = >>=-eq-ok (close_last M cfg walked.1 walked.0) _ r1 in
        summarize-Accounted of_count cfg closed r
          (close_last-Sound M cfg walked.1 walked.0 closed
            (walk_bars-Sound cfg 0 brain none bars (starting M cfg) walked (starting-Sound cfg) e1)
            e2).0
          r2
