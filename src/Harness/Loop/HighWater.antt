-- ===== src/Harness/Loop/HighWater.antt =====
-- The peak that drawdowns are measured from.
use bucks.Harness.Trader.Tick.{heartbeat, tick}
use bucks.Harness.Loop.{reports, counts, halts, beats, here, ticks, later, Reaches, Step}
use bucks.Money.Laws.{AtMost, OrderLaws}
use bucks.Harness.Trader.{World, TraderConfig, update_peak_and_check, Trader}
use bucks.Money.{is_gt, DecimalOps}
use bucks.Harness.Report.{maybe_report, maybe_report-Marked}
use bucks.Common.{
  ap, refl, ◌++◌, sym, ◌∙◌, subst, Bool-cases, arith, ◌⊎◌, inl, true, false, inr, All, ◌≡◌, List,
  ◌∷◌, [],
}
use bucks.Harness.Trader.Effects.{tick-Effect, heartbeat-Effect}
use bucks.Harness.Trader.Clearance.{high_water}
use mathlib.Core.List.{Mem, mem-cons_self, mem-cons_of_mem}

module _ (M : DecimalOps) where
  -- There is no peak before the first equity; then it is one of the equities and the highest.
  abbrev pub IsHighWater : List M.Decimal → Trader M → Type 0
  IsHighWater seen t =
      ((seen ≡ []) × (t.have_peak ≡ false))
      ⊎ ((t.have_peak ≡ true) × Mem t.peak_equity seen × All (λ e. AtMost M e t.peak_equity) seen)

  raise-AtMost :
      (seen : List M.Decimal) (low high : M.Decimal)
      → OrderLaws M
      → AtMost M low high
      → All (λ e. AtMost M e low) seen
      → All (λ e. AtMost M e high) seen
  raise-AtMost [] low high laws h below = tt
  raise-AtMost (e ∷ seen) low high laws h (first, rest) =
      (laws.cmp_trans e low high first h, raise-AtMost seen low high laws h rest)

  update_peak_and_check-peak :
      (cfg : TraderConfig M) (equity : M.Decimal) (t : Trader M)
      → ((update_peak_and_check M cfg equity t).0.have_peak ≡ true)
        × ((update_peak_and_check M cfg equity t).0.peak_equity ≡ high_water M t equity)
  unfolding update_peak_and_check
  update_peak_and_check-peak cfg equity t = ground arith

  -- One of the equities, and the highest.
  abbrev Tops : List M.Decimal → M.Decimal → Type 0
  Tops seen top = Mem top seen × All (λ e. AtMost M e top) seen

  high_water-Tops :
      (equity : M.Decimal) (seen : List M.Decimal) (t : Trader M)
      → OrderLaws M
      → IsHighWater seen t
      → Tops (equity ∷ seen) (high_water M t equity)
  high_water-Tops equity seen t laws (inl (empty, fresh)) =
      rw (fresh, empty) (mem-cons_self, (ground (arith, laws.cmp_refl equity), tt))
  high_water-Tops equity seen t laws (inr (have, top, below)) =
      elim (Bool-cases (is_gt (M.cmp equity t.peak_equity))) [
        | inl e ↦ subst (Tops (equity ∷ seen)) (sym (raised e)) (
          mem-cons_self,
          (
            ground (arith, laws.cmp_refl equity),
            raise-AtMost seen t.peak_equity equity laws (under e) below,
          ),
        )
        | inr e ↦
            subst (Tops (equity ∷ seen)) (sym (kept e)) (mem-cons_of_mem equity top, (e, below))
      ]
    where
      raised : is_gt (M.cmp equity t.peak_equity) ≡ true → high_water M t equity ≡ equity
      raised e = rw (have, e) refl

      kept : is_gt (M.cmp equity t.peak_equity) ≡ false → high_water M t equity ≡ t.peak_equity
      kept e = rw (have, e) refl

      under : is_gt (M.cmp equity t.peak_equity) ≡ true → AtMost M t.peak_equity equity
      under e = ground (arith, laws.cmp_flip t.peak_equity equity)

  update_peak_and_check-IsHighWater :
      (cfg : TraderConfig M) (equity : M.Decimal) (seen : List M.Decimal) (t : Trader M)
      → OrderLaws M
      → IsHighWater seen t
      → IsHighWater (equity ∷ seen) (update_peak_and_check M cfg equity t).0
  update_peak_and_check-IsHighWater cfg equity seen t laws h =
      let (have, peak) = update_peak_and_check-peak cfg equity t in
      let (top, below) =
        subst (Tops (equity ∷ seen)) (sym peak) (high_water-Tops equity seen t laws h) in
      inr (have, top, below)

  -- The same peak is as high.
  same-IsHighWater :
      (seen : List M.Decimal) (t t' : Trader M)
      → t'.peak_equity ≡ t.peak_equity
      → t'.have_peak ≡ t.have_peak
      → IsHighWater seen t
      → IsHighWater seen t'
  same-IsHighWater seen t t' peak have (inl (empty, fresh)) = inl (empty, have ∙ fresh)
  same-IsHighWater seen t t' peak have (inr (had, was, rest)) =
      let (top, below) = subst (Tops seen) (sym peak) (was, rest) in inr (have ∙ had, top, below)

  Step-IsHighWater :
      {cfg : TraderConfig M} {before seen : List M.Decimal} {w w' : World M}
      → OrderLaws M
      → Step M cfg seen w w'
      → IsHighWater before w.trader
      → IsHighWater (seen ++ before) w'.trader
  Step-IsHighWater {cfg} {before} laws (ticks m d ps equity w) h =
      let (peak, have, _, _) = tick-Effect M cfg m d ps equity w in
      same-IsHighWater (equity ∷ before) (update_peak_and_check M cfg equity w.trader).0
        (tick M cfg m d ps equity w).0.trader peak have
        (update_peak_and_check-IsHighWater cfg equity before w.trader laws h)
  Step-IsHighWater {cfg} {before} laws (beats m delivered equity w) h =
      let (peak, have, _, _) = heartbeat-Effect M cfg m delivered equity w in
      same-IsHighWater (equity ∷ before) (update_peak_and_check M cfg equity w.trader).0
        (heartbeat M cfg m delivered equity w).0.trader peak have
        (update_peak_and_check-IsHighWater cfg equity before w.trader laws h)
  Step-IsHighWater {cfg} {before} laws (reports m account positions by_symbol realized_pl marks w)
        h =
      elim (maybe_report-Marked M cfg m account positions by_symbol realized_pl marks w) [
        | inl e ↦
            same-IsHighWater before w.trader
              (maybe_report M cfg m account positions by_symbol realized_pl marks w).0.trader
              (ap (λ v. v.trader.peak_equity) e) (ap (λ v. v.trader.have_peak) e) h
        | inr (now, e) ↦
            same-IsHighWater before w.trader
              (maybe_report M cfg m account positions by_symbol realized_pl marks w).0.trader
              (ap (λ v. v.trader.peak_equity) e) (ap (λ v. v.trader.have_peak) e) h
      ]
  Step-IsHighWater laws (halts disk now reason kind w) h = h
  Step-IsHighWater laws (counts disk now w) h = h

  -- However the loop runs from a trader without a peak, it has no peak before the first tick or
  -- heartbeat, and then its peak is the highest of the equities that its ticks and heartbeats were
  -- given.
  pub Reaches-IsHighWater :
      {cfg : TraderConfig M} {start : World M} {seen : List M.Decimal} {w : World M}
      → OrderLaws M
      → start.trader.have_peak ≡ false
      → Reaches M cfg start seen w
      → IsHighWater seen w.trader
  Reaches-IsHighWater laws fresh here = inl (refl, fresh)
  Reaches-IsHighWater laws fresh (later r s) =
      Step-IsHighWater laws s (Reaches-IsHighWater laws fresh r)
