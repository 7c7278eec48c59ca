-- ===== src/Backtest/Steps.antt =====
-- The steps of the loop of `Run`, against the books of the trades.
use bucks.Backtest.Run.{close_last, route, leave, enter, fill_pending, fill_entry, fill_exit}
use bucks.Backtest.Trades.{round_trip, open_position, close_trade}
use bucks.Backtest.Accounts.{Sound, Booked, FeePaid, book_trade-Sound, round_trip-Costed}
use bucks.Orders.{Side}
use bucks.Backtest.{
  hold, exit, enter_short, enter_long, entry_side, Action, Signal, apply_slippage, Bar,
  OpenPosition, Walk, BacktestConfig,
}
use bucks.Money.{DecimalOps}
use bucks.Common.{
  true, false, ◌>>=◌, subst, ok-injective, >>=-eq-ok, refl, String, if◌then◌else◌, none, ok, ℕ,
  some, ◌≡◌, Bool, Option,
}

module _ (M : DecimalOps) where
  open M use {Decimal, zero_decimal, add, sub, sign}

  pub close_trade-Sound :
      (cfg : BacktestConfig M) (bar : Bar M) (exit_raw : Decimal) (reason : String)
      (p : OpenPosition M) (w w' : Walk M)
      → Booked M cfg w
      → p.entry_fee ≡ cfg.commission_per_trade
      → close_trade M cfg bar exit_raw reason p w ≡ ok w'
      → Sound M cfg w'
  unfolding close_trade
  close_trade-Sound cfg bar exit_raw reason p w w' b paid e =
      let (t, e1, r1) = >>=-eq-ok (round_trip M cfg bar exit_raw reason p) _ e in
      book_trade-Sound M cfg t w w' b (round_trip-Costed M cfg bar exit_raw reason p t paid e1) r1

  pub open_position-Sound :
      (cfg : BacktestConfig M) (i : ℕ) (bar : Bar M) (side : Side) (entry_raw : Decimal)
      (w w' : Walk M)
      → Booked M cfg w
      → open_position M cfg i bar side entry_raw w ≡ ok w'
      → Sound M cfg w'
  unfolding open_position
  open_position-Sound cfg i bar side entry_raw w w' b e =
      let (px, e1, r1) = >>=-eq-ok (apply_slippage M cfg entry_raw side) _ e in
      subst (Sound M cfg) (ok-injective r1) (b, refl)

  pub fill_exit-Sound :
      (cfg : BacktestConfig M) (bar : Bar M) (w w' : Walk M)
      → Sound M cfg w
      → fill_exit M cfg bar w ≡ ok w'
      → Sound M cfg w'
  unfolding fill_exit
  fill_exit-Sound cfg bar w w' (b, paid) e = split w.pend_exit w.pos paid e
    where
      split :
          (pending : Option (Signal M)) (held : Option (OpenPosition M))
          → FeePaid M cfg held
          → (elim pending [
            | none ↦ ok w
            | some sig ↦ elim held [
              | none ↦ ok w
              | some p ↦ close_trade M cfg bar bar.open_px sig.reason p w >>= λ v.
                  ok (record v { pend_exit = none })
            ]
          ])
            ≡ ok w'
          → Sound M cfg w'
      split none held h r = subst (Sound M cfg) (ok-injective r) (b, paid)
      split (some sig) none h r = subst (Sound M cfg) (ok-injective r) (b, paid)
      split (some sig) (some p) h r =
          let (v, e1, r1) = >>=-eq-ok (close_trade M cfg bar bar.open_px sig.reason p w) _ r in
          subst (Sound M cfg) (ok-injective r1)
            (close_trade-Sound cfg bar bar.open_px sig.reason p w v b h e1)

  pub fill_entry-Sound :
      (cfg : BacktestConfig M) (i : ℕ) (bar : Bar M) (w w' : Walk M)
      → Sound M cfg w
      → fill_entry M cfg i bar w ≡ ok w'
      → Sound M cfg w'
  unfolding fill_entry
  fill_entry-Sound cfg i bar w w' (b, paid) e = split w.pend_entry w.pos paid e
    where
      split :
          (pending : Option (Signal M)) (held : Option (OpenPosition M))
          → FeePaid M cfg held
          → (elim pending [
            | none ↦ ok w
            | some sig ↦ elim held [
              | some p ↦ ok w
              | none ↦ open_position M cfg i bar (entry_side sig.action) bar.open_px w >>= λ v.
                  ok (record v { pend_entry = none })
            ]
          ])
            ≡ ok w'
          → Sound M cfg w'
      split none held h r = subst (Sound M cfg) (ok-injective r) (b, paid)
      split (some sig) (some p) h r = subst (Sound M cfg) (ok-injective r) (b, paid)
      split (some sig) none h r =
          let (v, e1, r1) =
            >>=-eq-ok (open_position M cfg i bar (entry_side sig.action) bar.open_px w) _ r in
          subst (Sound M cfg) (ok-injective r1)
            (open_position-Sound cfg i bar (entry_side sig.action) bar.open_px w v b e1)

  pub fill_pending-Sound :
      (cfg : BacktestConfig M) (i : ℕ) (bar : Bar M) (w w' : Walk M)
      → Sound M cfg w
      → fill_pending M cfg i bar w ≡ ok w'
      → Sound M cfg w'
  unfolding fill_pending
  fill_pending-Sound cfg i bar w w' s e = split cfg.enter_at_next_open e
    where
      split :
          (next_open : Bool)
          → (if next_open then (fill_exit M cfg bar w >>= λ v. fill_entry M cfg i bar v) else ok w)
            ≡ ok w'
          → Sound M cfg w'
      split false r = subst (Sound M cfg) (ok-injective r) s
      split true r =
          let (v, e1, r1) = >>=-eq-ok (fill_exit M cfg bar w) _ r in
          fill_entry-Sound cfg i bar v w' (fill_exit-Sound cfg bar w v s e1) r1

  pub enter-Sound :
      (cfg : BacktestConfig M) (i : ℕ) (bar : Bar M) (sig : Signal M) (w w' : Walk M)
      → Sound M cfg w
      → enter M cfg i bar sig w ≡ ok w'
      → Sound M cfg w'
  unfolding enter
  enter-Sound cfg i bar sig w w' (b, paid) e = split w.pos w.pend_entry cfg.enter_at_next_open e
    where
      split :
          (held : Option (OpenPosition M)) (pending : Option (Signal M)) (next_open : Bool)
          → (elim held [
            | some p ↦ ok w
            | none ↦ elim pending [
              | some q ↦ ok w
              | none ↦
                  if next_open
                  then ok (record w { pend_entry = some sig })
                  else open_position M cfg i bar (entry_side sig.action) bar.close_px w
            ]
          ])
            ≡ ok w'
          → Sound M cfg w'
      split (some p) pending next_open r = subst (Sound M cfg) (ok-injective r) (b, paid)
      split none (some q) next_open r = subst (Sound M cfg) (ok-injective r) (b, paid)
      split none none true r = subst (Sound M cfg) (ok-injective r) (b, paid)
      split none none false r =
          open_position-Sound cfg i bar (entry_side sig.action) bar.close_px w w' b r

  pub leave-Sound :
      (cfg : BacktestConfig M) (bar : Bar M) (sig : Signal M) (w w' : Walk M)
      → Sound M cfg w
      → leave M cfg bar sig w ≡ ok w'
      → Sound M cfg w'
  unfolding leave
  leave-Sound cfg bar sig w w' (b, paid) e = split w.pos paid w.pend_exit cfg.enter_at_next_open e
    where
      split :
          (held : Option (OpenPosition M))
          → FeePaid M cfg held
          → (pending : Option (Signal M)) (next_open : Bool)
          → (elim held [
            | none ↦ ok w
            | some p ↦ elim pending [
              | some q ↦ ok w
              | none ↦
                  if next_open
                  then ok (record w { pend_exit = some sig })
                  else close_trade M cfg bar bar.close_px sig.reason p w
            ]
          ])
            ≡ ok w'
          → Sound M cfg w'
      split none h pending next_open r = subst (Sound M cfg) (ok-injective r) (b, paid)
      split (some p) h (some q) next_open r = subst (Sound M cfg) (ok-injective r) (b, paid)
      split (some p) h none true r = subst (Sound M cfg) (ok-injective r) (b, paid)
      split (some p) h none false r = close_trade-Sound cfg bar bar.close_px sig.reason p w w' b h r

  pub route-Sound :
      (action : Action) (cfg : BacktestConfig M) (i : ℕ) (bar : Bar M) (sig : Signal M)
      (w w' : Walk M)
      → Sound M cfg w
      → route M action cfg i bar sig w ≡ ok w'
      → Sound M cfg w'
  route-Sound enter_long cfg i bar sig w w' s e = enter-Sound cfg i bar sig w w' s e
  route-Sound enter_short cfg i bar sig w w' s e = enter-Sound cfg i bar sig w w' s e
  route-Sound exit cfg i bar sig w w' s e = leave-Sound cfg bar sig w w' s e
  route-Sound hold cfg i bar sig w w' s e = subst (Sound M cfg) (ok-injective e) s

  pub close_last-Sound :
      (cfg : BacktestConfig M) (last : Option (Bar M)) (w w' : Walk M)
      → Sound M cfg w
      → close_last M cfg last w ≡ ok w'
      → Sound M cfg w'
  unfolding close_last
  close_last-Sound cfg none w w' s e = subst (Sound M cfg) (ok-injective e) s
  close_last-Sound cfg (some bar) w w' (b, paid) e = split w.pos paid e
    where
      split :
          (held : Option (OpenPosition M))
          → FeePaid M cfg held
          → (elim held [
            | none ↦ ok w
            | some p ↦ close_trade M cfg bar bar.close_px "backtest: end-of-data close" p w
          ])
            ≡ ok w'
          → Sound M cfg w'
      split none h r = subst (Sound M cfg) (ok-injective r) (b, paid)
      split (some p) h r =
          close_trade-Sound cfg bar bar.close_px "backtest: end-of-data close" p w w' b h r
