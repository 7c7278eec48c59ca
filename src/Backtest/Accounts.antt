-- ===== src/Backtest/Accounts.antt =====
-- The books of a backtest: sums and counts over its trades, and what `closeTrade` does to them.
use bucks.Backtest.Trades.{book_trade, count_net, track_drawdown, track_edge, round_trip}
use bucks.Backtest.{
  exact, exit_side, apply_slippage, Bar, OpenPosition, gross_pnl_of, Walk, BacktestConfig, Trade,
}
use bucks.Money.{is_lt, is_gt, DecimalOps}
use bucks.Common.{
  ◌∙◌, sym, subst, ap, ok-injective, >>=-eq-ok, refl, arith, inr, All, inl, suc, String,
  Option-cases, if◌then◌else◌, none, ok, ◌++◌, map, ℕ, some, ◌≡◌, Bool, Option, List, ◌∷◌, [],
}

module _ (M : DecimalOps) where
  open M use {Decimal, zero_decimal, add, sub, sign}

  -- Amounts added up from the first, where no addition fails.
  unfoldable pub sum_from : Decimal → List Decimal → Option Decimal
  sum_from total [] = some total
  sum_from total (x ∷ xs) = elim (add total x) [ none ↦ none | some total' ↦ sum_from total' xs ]

  unfoldable pub count_of : (Decimal → Bool) → List Decimal → ℕ
  count_of test [] = 0
  count_of test (x ∷ xs) = let rest = count_of test xs in if test x then suc rest else rest

  abbrev pub nets : List (Trade M) → List Decimal
  nets trades = map (λ t. t.net_pnl) trades

  abbrev pub grosses : List (Trade M) → List Decimal
  grosses trades = map (λ t. t.gross_pnl) trades

  abbrev pub all_fees : List (Trade M) → List Decimal
  all_fees trades = map (λ t. t.fees) trades

  -- A trade's gross is that of its prices, its fees are two commissions, and its net is the gross
  -- less the fees.
  abbrev pub Costed : BacktestConfig M → Trade M → Type 0
  Costed cfg t =
      (gross_pnl_of M t.side t.entry_px t.exit_px t.qty ≡ ok t.gross_pnl)
      × (add cfg.commission_per_trade cfg.commission_per_trade ≡ some t.fees)
      × (sub t.gross_pnl t.fees ≡ some t.net_pnl)

  -- Sums, counts and an equity that are those of the trades.
  pub record BookedAs (cfg : BacktestConfig M) (trades : List (Trade M))
      (gross_sum fee_sum net_sum equity : Decimal) (wins losses : ℕ) : Type 0 where
    pub gross_sums : sum_from zero_decimal (grosses trades) ≡ some gross_sum
    pub fee_sums : sum_from zero_decimal (all_fees trades) ≡ some fee_sum
    pub net_sums : sum_from zero_decimal (nets trades) ≡ some net_sum
    pub equity_sums : sum_from cfg.starting_cash (nets trades) ≡ some equity
    pub win_count : wins ≡ count_of (λ x. is_gt (sign x)) (nets trades)
    pub loss_count : losses ≡ count_of (λ x. is_lt (sign x)) (nets trades)
    pub costed : All (Costed cfg) trades

  abbrev pub Booked : BacktestConfig M → Walk M → Type 0
  Booked cfg w = BookedAs cfg w.trades w.gross_sum w.fee_sum w.net_sum w.equity w.wins w.losses

  -- The commission that an open position has paid.
  abbrev pub FeePaid : BacktestConfig M → Option (OpenPosition M) → Type 0
  FeePaid cfg none = Unit
  FeePaid cfg (some p) = p.entry_fee ≡ cfg.commission_per_trade

  abbrev pub Sound : BacktestConfig M → Walk M → Type 0
  Sound cfg w = Booked cfg w × FeePaid cfg w.pos

  sum_from-snoc :
      (total sum x next : Decimal) (xs : List Decimal)
      → sum_from total xs ≡ some sum
      → add sum x ≡ some next
      → sum_from total (xs ++ x ∷ []) ≡ some next
  unfolding sum_from
  sum_from-snoc total sum x next [] e h = ground (arith, e, h)
  sum_from-snoc total sum x next (y ∷ xs) e h = elim (Option-cases (add total y)) [
    | inl failed ↦ absurd (ground (arith, e, failed))
    | inr (t, et) ↦ rw et (sum_from-snoc t sum x next xs (ground (arith, e, et)) h)
  ]

  count_of-snoc :
      (test : Decimal → Bool) (x : Decimal) (xs : List Decimal)
      → count_of test (xs ++ x ∷ []) ≡ (if test x then suc (count_of test xs) else count_of test xs)
  unfolding count_of
  count_of-snoc test x [] = refl
  count_of-snoc test x (y ∷ xs) = ground (arith, count_of-snoc test x xs)

  pub exact-some : (o : Option Decimal) (x : Decimal) → exact M o ≡ ok x → o ≡ some x
  exact-some none x e = absurd (cc e)
  exact-some (some y) x e = ap some (ok-injective e)

  pub round_trip-Costed :
      (cfg : BacktestConfig M) (bar : Bar M) (exit_raw : Decimal) (reason : String)
      (p : OpenPosition M) (t : Trade M)
      → p.entry_fee ≡ cfg.commission_per_trade
      → round_trip M cfg bar exit_raw reason p ≡ ok t
      → Costed cfg t
  unfolding round_trip
  round_trip-Costed cfg bar exit_raw reason p t paid e =
      let (exit_px, e1, r1) = >>=-eq-ok (apply_slippage M cfg exit_raw (exit_side p.side)) _ e in
      let (gross, e2, r2) = >>=-eq-ok (gross_pnl_of M p.side p.entry_px exit_px p.qty) _ r1 in
      let (fees, e3, r3) = >>=-eq-ok (exact M (add p.entry_fee cfg.commission_per_trade)) _ r2 in
      let (net, e4, r4) = >>=-eq-ok (exact M (sub gross fees)) _ r3 in
      rw (← ok-injective r4) (
        e2,
        subst (λ fee. add fee cfg.commission_per_trade ≡ some fees) paid
            (exact-some (add p.entry_fee cfg.commission_per_trade) fees e3),
        exact-some (sub gross fees) net e4,
      )

  -- What does not change the accounts.
  abbrev SameBooks : Walk M → Walk M → Type 0
  SameBooks w w' =
      (w'.trades ≡ w.trades)
      × (w'.gross_sum ≡ w.gross_sum)
      × (w'.fee_sum ≡ w.fee_sum)
      × (w'.net_sum ≡ w.net_sum)
      × (w'.equity ≡ w.equity)
      × (w'.wins ≡ w.wins)
      × (w'.losses ≡ w.losses)

  track_edge-SameBooks :
      (gross : Decimal) (w w' : Walk M) → track_edge M gross w ≡ ok w' → SameBooks w w'
  unfolding track_edge
  track_edge-SameBooks gross w w' e = ground (arith, e)

  track_drawdown-SameBooks : (w w' : Walk M) → track_drawdown M w ≡ ok w' → SameBooks w w'
  unfolding track_drawdown
  track_drawdown-SameBooks w w' e = ground (arith, e)

  count_net-SameBooks :
      (net : Decimal) (w : Walk M)
      → let w' = count_net M net w in
        (w'.trades ≡ w.trades)
        × (w'.gross_sum ≡ w.gross_sum)
        × (w'.fee_sum ≡ w.fee_sum)
        × (w'.net_sum ≡ w.net_sum)
        × (w'.equity ≡ w.equity)
        × (w'.wins ≡ (if is_gt (sign net) then suc w.wins else w.wins))
        × (w'.losses ≡ (if is_lt (sign net) then suc w.losses else w.losses))
  unfolding count_net
  count_net-SameBooks net w = ground arith

  map-snoc :
      (f : Trade M → Decimal) (trades : List (Trade M)) (t : Trade M)
      → map f (trades ++ t ∷ []) ≡ map f trades ++ f t ∷ []
  map-snoc f [] t = refl
  map-snoc f (x ∷ trades) t = ap (λ xs. f x ∷ xs) (map-snoc f trades t)

  Costed-snoc :
      (cfg : BacktestConfig M) (trades : List (Trade M)) (t : Trade M)
      → All (Costed cfg) trades
      → Costed cfg t
      → All (Costed cfg) (trades ++ t ∷ [])
  Costed-snoc cfg [] t all c = (c, tt)
  Costed-snoc cfg (x ∷ trades) t (first, all) c = (first, Costed-snoc cfg trades t all c)

  -- One more trade in the books.
  extend-Booked :
      (cfg : BacktestConfig M) (t : Trade M) (w w' : Walk M)
      → Booked cfg w
      → Costed cfg t
      → w'.trades ≡ w.trades ++ t ∷ []
      → add w.gross_sum t.gross_pnl ≡ some w'.gross_sum
      → add w.fee_sum t.fees ≡ some w'.fee_sum
      → add w.net_sum t.net_pnl ≡ some w'.net_sum
      → add w.equity t.net_pnl ≡ some w'.equity
      → w'.wins ≡ (if is_gt (sign t.net_pnl) then suc w.wins else w.wins)
      → w'.losses ≡ (if is_lt (sign t.net_pnl) then suc w.losses else w.losses)
      → Booked cfg w'
  extend-Booked cfg t w w' b costed trades gross fees net equity wins losses = record {
    gross_sums =
        rw (trades, map-snoc (λ x. x.gross_pnl) w.trades t)
          (sum_from-snoc zero_decimal w.gross_sum t.gross_pnl w'.gross_sum (grosses w.trades)
            b.gross_sums gross);
    fee_sums =
        rw (trades, map-snoc (λ x. x.fees) w.trades t)
          (sum_from-snoc zero_decimal w.fee_sum t.fees w'.fee_sum (all_fees w.trades) b.fee_sums
            fees);
    net_sums =
        rw (trades, map-snoc (λ x. x.net_pnl) w.trades t)
          (sum_from-snoc zero_decimal w.net_sum t.net_pnl w'.net_sum (nets w.trades) b.net_sums
            net);
    equity_sums =
        rw (trades, map-snoc (λ x. x.net_pnl) w.trades t)
          (sum_from-snoc cfg.starting_cash w.equity t.net_pnl w'.equity (nets w.trades)
            b.equity_sums equity);
    win_count =
        rw
          (
            trades,
            map-snoc (λ x. x.net_pnl) w.trades t,
            count_of-snoc (λ x. is_gt (sign x)) t.net_pnl (nets w.trades),
            ← b.win_count,
          )
          wins;
    loss_count =
        rw
          (
            trades,
            map-snoc (λ x. x.net_pnl) w.trades t,
            count_of-snoc (λ x. is_lt (sign x)) t.net_pnl (nets w.trades),
            ← b.loss_count,
          )
          losses;
    costed = subst (All (Costed cfg)) (sym trades) (Costed-snoc cfg w.trades t b.costed costed);
  }

  pub book_trade-Sound :
      (cfg : BacktestConfig M) (t : Trade M) (w w' : Walk M)
      → Booked cfg w
      → Costed cfg t
      → book_trade M t w ≡ ok w'
      → Sound cfg w'
  unfolding book_trade
  book_trade-Sound cfg t w w' b costed e =
      let (gross, e1, r1) = >>=-eq-ok (exact M (add w.gross_sum t.gross_pnl)) _ e in
      let (fees, e2, r2) = >>=-eq-ok (exact M (add w.fee_sum t.fees)) _ r1 in
      let (net, e3, r3) = >>=-eq-ok (exact M (add w.net_sum t.net_pnl)) _ r2 in
      let v : Walk M = record w { gross_sum = gross; fee_sum = fees; net_sum = net } in
      let c = count_net M t.net_pnl v in
      let (edge, e4, r4) = >>=-eq-ok (track_edge M t.gross_pnl c) _ r3 in
      let (equity, e5, r5) = >>=-eq-ok (exact M (add edge.equity t.net_pnl)) _ r4 in
      let (dd, e6, r6) = >>=-eq-ok (track_drawdown M (record edge { equity = equity })) _ r5 in
      let (t1, g1, f1, n1, q1, wi1, lo1) = count_net-SameBooks t.net_pnl v in
      let (t2, g2, f2, n2, q2, wi2, lo2) = track_edge-SameBooks t.gross_pnl c edge e4 in
      let (t3, g3, f3, n3, q3, wi3, lo3) =
        track_drawdown-SameBooks (record edge { equity = equity }) dd e6 in
      subst (Sound cfg) (ok-injective r6) (
        extend-Booked cfg t w (record dd { trades = dd.trades ++ t ∷ []; pos = none }) b costed
            (ap (λ xs. xs ++ t ∷ []) (t3 ∙ t2 ∙ t1))
            (exact-some (add w.gross_sum t.gross_pnl) gross e1 ∙ ap some (sym (g3 ∙ g2 ∙ g1)))
            (exact-some (add w.fee_sum t.fees) fees e2 ∙ ap some (sym (f3 ∙ f2 ∙ f1)))
            (exact-some (add w.net_sum t.net_pnl) net e3 ∙ ap some (sym (n3 ∙ n2 ∙ n1)))
            (subst (λ q. add q t.net_pnl ≡ some equity) (q2 ∙ q1)
                (exact-some (add edge.equity t.net_pnl) equity e5)
              ∙ ap some (sym q3))
            (wi3 ∙ wi2 ∙ wi1) (lo3 ∙ lo2 ∙ lo1),
        tt,
      )
