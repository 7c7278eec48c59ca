-- ===== src/Harness/Report.antt =====
-- internal/harness/report.go: the scheduled report. The account, the positions and the sorting of
-- the positions by symbol are answers of the broker and of the library.
use bucks.Common.Int.{ℤ}
use bucks.Common.Text.{lookup}
use bucks.Orders.{SideValue}
use bucks.Money.{DecimalOps}
use bucks.Common.{
  inr, refl, inl, ◌⊎◌, Bool-cases, ◌≡◌, if◌then◌else◌, false, some, none, ◌++◌, true, Bool, Option,
  String, List, ◌∷◌, [],
}
use bucks.Harness.Trader.{
  market_closed, halted, no_signal, denied, risk_rejected, approved_placed, auto_placed, Moment,
  TraderConfig, TradeError, TradeRecord, World, Outcome, report_failed,
}
use bucks.Harness.Trader.Tick.{due}

module _ (M : DecimalOps) where
  open M use {Decimal, zero_decimal, add, sub, mul}

  -- A position as the broker reports it.
  pub record BrokerPosition : Type 0 where
    pub symbol : String
    pub qty : Decimal
    pub avg_entry_px : Decimal

  pub record ReportPosition : Type 0 where
    pub symbol : String
    pub qty : Decimal
    pub mark_px : Decimal
    pub unrealized_pl : Decimal

  pub record TradeRationale : Type 0 where
    pub symbol : String
    pub side : SideValue
    pub qty : Decimal
    pub reason : String
    pub automatic : Bool
    pub skipped : Bool
    pub time : ℤ

  pub record Report : Type 0 where
    pub generated_at : ℤ
    pub equity : Decimal
    pub realized_pl : Decimal
    pub unrealized_pl : Decimal
    pub positions : List ReportPosition
    pub rationales : List TradeRationale

  -- `unrealizedPnL`
  unfoldable pub unrealized_pnl : BrokerPosition → (mark : Decimal) → Option Decimal
  unrealized_pnl held mark = elim (sub mark held.avg_entry_px) [
    | none ↦ none
    | some diff ↦ mul diff held.qty
  ]

  -- The mark of a position, or its entry price where there is none.
  unfoldable pub mark_of : List (String × Decimal) → BrokerPosition → Decimal
  mark_of marks held = elim (lookup held.symbol marks) [
    | none ↦ held.avg_entry_px
    | some mark ↦ mark
  ]

  -- The loop of `BuildReport`: the total and the lines, behind what was there before.
  unfoldable pub report_lines :
      List (String × Decimal)
      → (total : Decimal) → List ReportPosition
      → List BrokerPosition
      → Option (Decimal × List ReportPosition)
  report_lines marks total lines [] = some (total, lines)
  report_lines marks total lines (held ∷ rest) = elim (unrealized_pnl held (mark_of marks held)) [
    | none ↦ none
    | some gain ↦ elim (add total gain) [
      | none ↦ none
      | some total' ↦
          report_lines marks total'
            (lines
              ++ (record {
                symbol = held.symbol;
                qty = held.qty;
                mark_px = mark_of marks held;
                unrealized_pl = gain;
              })
                ∷ [])
            rest
    ]
  ]

  abbrev pub rationale : (automatic skipped : Bool) → TradeRecord M → TradeRationale
  rationale automatic skipped r = record {
    symbol = r.symbol;
    side = r.side;
    qty = r.qty;
    reason = r.reason;
    automatic = automatic;
    skipped = skipped;
    time = r.time;
  }

  -- What a record adds to the rationales.
  unfoldable pub rationale_of : Outcome → TradeRecord M → List TradeRationale
  rationale_of auto_placed r = rationale true false r ∷ []
  rationale_of approved_placed r = rationale false false r ∷ []
  rationale_of risk_rejected r = rationale false true r ∷ []
  rationale_of denied r = rationale false true r ∷ []
  rationale_of no_signal r = []
  rationale_of halted r = []
  rationale_of market_closed r = []

  unfoldable pub rationales : List (TradeRecord M) → List TradeRationale
  rationales [] = []
  rationales (r ∷ ledger) = rationale_of r.outcome r ++ rationales ledger

  -- `BuildReport`
  unfoldable pub build_report :
      (generated_at : ℤ) (account : Option Decimal) (positions : Option (List BrokerPosition))
      → (by_symbol : List BrokerPosition → List BrokerPosition) (realized_pl : Decimal)
      → (marks : List (String × Decimal)) → World M
      → Option Report
  build_report generated_at none positions by_symbol realized_pl marks w = none
  build_report generated_at (some equity) none by_symbol realized_pl marks w = none
  build_report generated_at (some equity) (some positions) by_symbol realized_pl marks w =
      elim (report_lines marks zero_decimal [] (by_symbol positions)) [
        | none ↦ none
        | some (total, lines) ↦ some (record {
          generated_at = generated_at;
          equity = equity;
          realized_pl = realized_pl;
          unrealized_pl = total;
          positions = lines;
          rationales = rationales w.trader.ledger;
        })
      ]

  -- What `SendReport` was given, and the error.
  abbrev pub send_report :
      (delivered : Bool) → World M → Option Report → World M × (Option Report × Option TradeError)
  send_report delivered w none = (w, (none, some report_failed))
  send_report delivered w (some report) =
      (w, (some report, if delivered then none else some report_failed))

  -- `MaybeReport`: the report that was sent, and the error.
  unfoldable pub maybe_report :
      TraderConfig M
      → Moment
      → (account : Option Decimal) → (positions : Option (List BrokerPosition))
      → (by_symbol : List BrokerPosition → List BrokerPosition) → (realized_pl : Decimal)
      → (marks : List (String × Decimal)) → World M
      → World M × (Option Report × Option TradeError)
  maybe_report cfg m account positions by_symbol realized_pl marks w =
      if due M w.trader.have_report cfg.report_every w.trader.last_report m.now
      then (let w' : World M = record w {
        trader = record w.trader { last_report = m.now; have_report = true };
      } in
          send_report m.alert_delivered w'
            (build_report m.now_at_alert account positions by_symbol realized_pl marks w'))
      else (w, (none, none))

  -- The world after `MaybeReport`: only the cadence's mark may have moved.
  abbrev pub Marked : World M → World M → Type 0
  Marked w w' =
      (w' ≡ w)
      ⊎ ((now : ℤ) × (w'
            ≡ record w { trader = record w.trader { last_report = now; have_report = true } }))

  send_report-world :
      (delivered : Bool) (w : World M) (report : Option Report)
      → (send_report delivered w report).0 ≡ w
  send_report-world delivered w none = refl
  send_report-world delivered w (some report) = refl

  pub maybe_report-Marked :
      (cfg : TraderConfig M) (m : Moment) (account : Option Decimal)
      (positions : Option (List BrokerPosition))
      (by_symbol : List BrokerPosition → List BrokerPosition) (realized_pl : Decimal)
      (marks : List (String × Decimal)) (w : World M)
      → Marked w (maybe_report cfg m account positions by_symbol realized_pl marks w).0
  unfolding maybe_report
  maybe_report-Marked cfg m account positions by_symbol realized_pl marks w =
      elim (Bool-cases (due M w.trader.have_report cfg.report_every w.trader.last_report m.now)) [
        | inl e ↦ rw (maybe_report, e) (inr (m.now, send_report-world m.alert_delivered _ _))
        | inr e ↦ rw (maybe_report, e) (inl refl)
      ]
