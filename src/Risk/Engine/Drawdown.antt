-- ===== src/Risk/Engine/Drawdown.antt =====
-- `DrawdownBreached`, the signal that trips the kill switch.
use bucks.Risk.Engine.{drawdown_breached, Engine}
use bucks.Money.Laws.{AtMost, RoundingLaws, Positive, OrderLaws}
use bucks.Money.{is_lt, DecimalOps}
use bucks.Common.{false, arith, ◌↔◌, true, some, ◌≡◌}

module _ (M : DecimalOps) where
  open M use {Decimal, zero_decimal, sub, mul, cmp, sign}

  -- The breaker is on, there is a peak, and the drop from it is positive and at least the
  -- configured share of the peak.
  abbrev pub Breach : Engine M → (peak current : Decimal) → Type 0
  Breach e peak current =
      (drop : Decimal) × (threshold : Decimal) × Positive M e.cfg.max_drawdown_pct
      × Positive M peak
      × (sub peak current ≡ some drop)
      × Positive M drop
      × (mul e.cfg.max_drawdown_pct peak ≡ some threshold)
      × (is_lt (cmp drop threshold) ≡ false)

  -- The signal is raised exactly at a breach.
  pub drawdown_breached_iff :
      (e : Engine M) (peak current : Decimal)
      → (drawdown_breached M e peak current ≡ true) ↔ Breach e peak current
  unfolding drawdown_breached
  drawdown_breached_iff e peak current = (
    (λ h. ground arith),
    (λ (drop, threshold, on, top, e1, pos_drop, e2, deep).
        rw (on, top, e1) (rw (pos_drop, e2, deep))),
  )

  -- A breach stays a breach while the equity falls: from the same peak, at any lower equity whose
  -- drop is computed, the signal is raised again.
  pub drawdown_breached_mono :
      (e : Engine M) (peak current lower drop : Decimal)
      → OrderLaws M
      → RoundingLaws M
      → AtMost M lower current
      → sub peak lower ≡ some drop
      → drawdown_breached M e peak current ≡ true
      → drawdown_breached M e peak lower ≡ true
  drawdown_breached_mono e peak current lower drop laws rounding le edrop h =
      let (drop', threshold, on, top, e1, positive, e2, deep) =
        (drawdown_breached_iff e peak current).0 h in
      let wider = rounding.sub_anti peak lower current drop drop' le edrop e1 in
      (drawdown_breached_iff e peak lower).1 (
        drop,
        threshold,
        on,
        top,
        edrop,
        ground (
          arith,
          positive,
          laws.sign_zero drop,
          laws.sign_zero drop',
          laws.cmp_trans drop' drop zero_decimal wider,
        ),
        e2,
        ground (
          arith,
          deep,
          laws.cmp_flip drop threshold,
          laws.cmp_flip drop' threshold,
          laws.cmp_trans threshold drop' drop,
          wider,
        ),
      )
