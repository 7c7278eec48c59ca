-- ===== src/Ledger/Conservation.antt =====
-- The quantity of a fill against what the lots gain or lose.
use bucks.Common.Int.{◌+ℤ◌, sub_ℕ, pos, ℤ}
use bucks.Ledger.{
  settle, arithmetic, after_loop, LedgerError, short, flat, long, Position, reduce_lot, take_of,
  gain_per_unit, out_of_fuel, or_failed, failed, Dir, consumed, consume, Consumed, Lot,
}
use bucks.Money.Laws.{GridLaws}
use bucks.Money.{is_eq, is_gt, DecimalOps}
use native.Mathlib.Nat.{le_refl}
use bucks.Common.{
  ok, err, ◌≢◌, Result, ◌++◌, if◌then◌else◌, zero, inl, false, Bool-cases, refl, inr, none, suc,
  arith, ◌≤◌, some, ◌⊎◌, length, ◌≡◌, [], All, ◌+◌, Option, ◌∷◌, ◌<◌, ℕ, List,
}

module _ (M : DecimalOps) (OnGrid : M.Decimal → Type 0) (units : M.Decimal → ℕ)
    (laws : GridLaws M OnGrid units) where
  open M use {Decimal, zero_decimal, add, sub, mul, cmp, sign}

  abbrev pub GoodLot : Lot M → Type 0
  GoodLot l = OnGrid l.qty × (0 < units l.qty)

  abbrev pub total : List (Lot M) → ℕ
  total [] = 0
  total (l ∷ lots) = units l.qty + total lots

  -- What the loop keeps, from these lots and this quantity to take.
  abbrev pub Conserves : List (Lot M) → Decimal → Consumed M → Type 0
  Conserves lots remaining (consumed lots' remaining' realized) =
      All GoodLot lots'
      × OnGrid remaining'
      × (total lots' + units remaining ≡ total lots + units remaining')
      × ((units remaining' ≡ 0) ⊎ (lots' ≡ []))
      × (units remaining' ≤ units remaining)
  Conserves lots remaining (failed lots') = All GoodLot lots'
  Conserves lots remaining out_of_fuel = ⊥

  Conserves-or_failed :
      {A : Type 0} (lots : List (Lot M)) (remaining : Decimal) (o : Option A) (now : List (Lot M))
      (k : A → Consumed M)
      → All GoodLot now
      → ((a : A) → o ≡ some a → Conserves lots remaining (k a))
      → Conserves lots remaining (or_failed M o now k)
  Conserves-or_failed lots remaining none now k good h = good
  Conserves-or_failed lots remaining (some a) now k good h = h a refl

  Conserves-step :
      (lots mid : List (Lot M)) (remaining less : Decimal) (c : Consumed M)
      → total mid + units remaining ≡ total lots + units less
      → units less ≤ units remaining
      → Conserves mid less c
      → Conserves lots remaining c
  Conserves-step lots mid remaining less (consumed lots' rem' realized) e le
        (g, on, eq, last, le') =
      (g, on, omega (arith, e, eq), last, omega (arith, le, le'))
  Conserves-step lots mid remaining less (failed lots') e le g = g
  Conserves-step lots mid remaining less out_of_fuel e le g = g

  consume_done :
      (fuel : ℕ) (dir : Dir) (px : Decimal) (lots : List (Lot M)) (remaining realized : Decimal)
      → 0 < fuel
      → All GoodLot lots
      → OnGrid remaining
      → units remaining ≡ 0
      → Conserves lots remaining (consume M fuel dir px lots remaining realized)
  unfolding consume
  consume_done zero dir px lots remaining realized f good on z = absurd (omega arith)
  consume_done (suc fuel) dir px [] remaining realized f good on z =
      (tt, on, refl, inr refl, le_refl _)
  consume_done (suc fuel) dir px (l ∷ lots) remaining realized f good on z =
      let stops : is_gt (sign remaining) ≡ false = rw (laws.sign_units remaining on, z) refl in
      rw stops (good, on, refl, inl z, le_refl _)

  -- What a round takes: all of the lot or all of the rest.
  take_units :
      (a b : Decimal)
      → OnGrid a
      → OnGrid b
      → OnGrid (take_of M a b)
        × (units (take_of M a b) ≤ units a)
        × (units (take_of M a b) ≤ units b)
        × ((units (take_of M a b) ≡ units a) ⊎ (units (take_of M a b) ≡ units b))
  take_units a b ha hb = ground (arith, laws.cmp_units a b ha hb)

  lots_left :
      (l : Lot M) (lots : List (Lot M)) (left : Decimal)
      → All GoodLot lots
      → OnGrid left
      → let lots' = if is_eq (sign left) then lots else record l { qty = left } ∷ lots in
        All GoodLot lots'
        × (total lots' ≡ units left + total lots)
        × ((units left ≡ 0) → length lots' ≡ length lots)
  lots_left l lots left good on = ground (arith, laws.sign_units left on)

  reduce_lot-Conserves :
      (next : List (Lot M) → Decimal → Consumed M) (l : Lot M) (lots : List (Lot M))
      (remaining : Decimal)
      → All GoodLot (l ∷ lots)
      → OnGrid remaining
      → ((lots' : List (Lot M)) (less : Decimal)
          → All GoodLot lots'
          → OnGrid less
          → (length lots' ≡ length lots) ⊎ (units less ≡ 0)
          → Conserves lots' less (next lots' less))
      → Conserves
          (l ∷ lots)
          remaining
          (reduce_lot M next l lots (take_of M l.qty remaining) remaining)
  unfolding reduce_lot
  reduce_lot-Conserves next l lots remaining good on h =
      let take = take_of M l.qty remaining in
      let (on_take, le_lot, le_rest, all) = take_units l.qty remaining good.0.0 on in
      Conserves-or_failed (l ∷ lots) remaining (sub l.qty take) (l ∷ lots) _ good λ left eleft.
        let (on_left, left_eq) = laws.sub_units l.qty take left good.0.0 on_take le_lot eleft in
        let (good', total_eq, size_kept) = lots_left l lots left good.1 on_left in
        Conserves-or_failed (l ∷ lots) remaining (sub remaining take) _ _ good' λ less eless.
          let (on_less, less_eq) = laws.sub_units remaining take less on on_take le_rest eless in
          Conserves-step (l ∷ lots) _ remaining less _ (omega (arith, total_eq, left_eq, less_eq))
            (omega (arith, less_eq))
            (h _ less good' on_less (elim all [
              | inl whole ↦ inl (size_kept (omega (arith, whole, left_eq)))
              | inr rest ↦ inr (omega (arith, rest, less_eq))
            ]))

  pub consume-Conserves :
      (fuel : ℕ) (dir : Dir) (px : Decimal) (lots : List (Lot M)) (remaining realized : Decimal)
      → length lots + 1 < fuel
      → All GoodLot lots
      → OnGrid remaining
      → Conserves lots remaining (consume M fuel dir px lots remaining realized)
  unfolding consume
  consume-Conserves zero dir px lots remaining realized f good on = absurd (omega arith)
  consume-Conserves (suc fuel) dir px [] remaining realized f good on =
      (tt, on, refl, inr refl, le_refl _)
  consume-Conserves (suc fuel) dir px (l ∷ lots) remaining realized f good on =
      elim (Bool-cases (is_gt (sign remaining))) [
        | inr stops ↦
            rw stops (good, on, refl, inl (ground (arith, laws.sign_units remaining on)), le_refl _)
        | inl more ↦ rw more (
            Conserves-or_failed (l ∷ lots) remaining (gain_per_unit M dir px l.px) (l ∷ lots) _ good
              λ diff _.
                Conserves-or_failed (l ∷ lots) remaining (mul (take_of M l.qty remaining) diff)
                  (l ∷ lots) _ good
                  λ gain _.
                    Conserves-or_failed (l ∷ lots) remaining (add realized gain) (l ∷ lots) _ good
                      λ realized' _.
                        reduce_lot-Conserves _ l lots remaining good on λ lots' less good' on' size.
                          elim size [
                            | inl same_length ↦
                                consume-Conserves fuel dir px lots' less realized'
                                  (omega (arith, f, same_length)) good' on'
                            | inr zero_left ↦
                                consume_done fuel dir px lots' less realized' (omega (arith, f))
                                  good' on' zero_left
                          ])
      ]

  -- A signed quantity in grid units.
  abbrev pub signed : Dir → ℕ → ℤ
  signed long n = pos n
  signed short n = sub_ℕ 0 n
  signed flat n = pos 0

  -- A flat position has no lots; any other has some, each of a positive quantity on the grid.
  abbrev pub GoodPosition : Position M → Type 0
  GoodPosition p =
      ((p.dir ≡ flat) × (p.lots ≡ [])) ⊎ ((p.dir ≢ flat) × (p.lots ≢ []) × All GoodLot p.lots)

  -- What a fill has done to a position.
  abbrev pub Filled :
      Dir → Decimal → Position M → Option (Position M × Result LedgerError Decimal) → Type 0
  Filled fill_dir qty p none = ⊥
  Filled fill_dir qty p (some (p', err e)) = e ≡ arithmetic
  Filled fill_dir qty p (some (p', ok realized)) =
      GoodPosition p'
      × (signed p'.dir (total p'.lots) ≡ signed p.dir (total p.lots) +ℤ signed fill_dir (units qty))

  pub All-append : (xs ys : List (Lot M)) → All GoodLot xs → All GoodLot ys → All GoodLot (xs ++ ys)
  All-append [] ys hx hy = hy
  All-append (x ∷ xs) ys hx hy = (hx.0, All-append xs ys hx.1 hy)

  pub total-append : (xs ys : List (Lot M)) → total (xs ++ ys) ≡ total xs + total ys
  total-append [] ys = omega arith
  total-append (x ∷ xs) ys = omega (arith, total-append xs ys)

  pub append-ne : (xs : List (Lot M)) (y : Lot M) → xs ++ y ∷ [] ≢ []
  append-ne [] y = λ e. cc e
  append-ne (x ∷ xs) y = λ e. cc e

  -- The position after the loop, closed, flipped or reduced, for each direction.
  settle-Filled :
      (fill_dir dir : Dir) (qty px : Decimal) (lots lots' : List (Lot M)) (rest : Decimal)
      → ((dir ≡ long) × (fill_dir ≡ short)) ⊎ ((dir ≡ short) × (fill_dir ≡ long))
      → All GoodLot lots'
      → OnGrid rest
      → total lots' + units qty ≡ total lots + units rest
      → (units rest ≡ 0) ⊎ (lots' ≡ [])
      → let p' = settle M fill_dir px (record { dir = dir; lots = lots }) lots' rest in
        GoodPosition p'
        × (signed p'.dir (total p'.lots) ≡ signed dir (total lots) +ℤ signed fill_dir (units qty))
  unfolding ◌+ℤ◌
  settle-Filled long short qty px lots [] rest opposite good on eq ends =
      ground (arith, laws.sign_units rest on)
  settle-Filled long short qty px lots (l ∷ lots') rest opposite good on eq ends =
      ground (arith, laws.sign_units rest on)
  settle-Filled short long qty px lots [] rest opposite good on eq ends =
      ground (arith, laws.sign_units rest on)
  settle-Filled short long qty px lots (l ∷ lots') rest opposite good on eq ends =
      ground (arith, laws.sign_units rest on)
  settle-Filled long long qty px lots lots' rest opposite good on eq ends = absurd (ground arith)
  settle-Filled long flat qty px lots lots' rest opposite good on eq ends = absurd (ground arith)
  settle-Filled short short qty px lots lots' rest opposite good on eq ends = absurd (ground arith)
  settle-Filled short flat qty px lots lots' rest opposite good on eq ends = absurd (ground arith)
  settle-Filled flat fill_dir qty px lots lots' rest opposite good on eq ends =
      absurd (ground arith)

  pub after_loop-Filled :
      (fill_dir dir : Dir) (qty px : Decimal) (lots : List (Lot M)) (c : Consumed M)
      → ((dir ≡ long) × (fill_dir ≡ short)) ⊎ ((dir ≡ short) × (fill_dir ≡ long))
      → Conserves lots qty c
      → Filled fill_dir qty
          (record { dir = dir; lots = lots })
          (after_loop M fill_dir px (record { dir = dir; lots = lots }) c)
  after_loop-Filled fill_dir dir qty px lots (failed lots') opposite g = refl
  after_loop-Filled fill_dir dir qty px lots out_of_fuel opposite g = g
  after_loop-Filled fill_dir dir qty px lots (consumed lots' rest realized) opposite
        (good, on, eq, ends, le) =
      settle-Filled fill_dir dir qty px lots lots' rest opposite good on eq ends
