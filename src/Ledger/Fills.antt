-- ===== src/Ledger/Fills.antt =====
-- `Apply` on a whole accountant.
use bucks.Common.Text.{insert, same_iff, lookup-insert, same, lookup}
use bucks.Orders.{sell, buy, Side}
use bucks.Common.Int.{◌+ℤ◌}
use bucks.Ledger.Conservation.{
  total-append, All-append, append-ne, consume-Conserves, after_loop-Filled, Filled, GoodPosition,
}
use bucks.Ledger.{
  stored, LedgerError, Position, or_flat, Accountant, dir_of_side, apply, consume, after_loop, flat,
  short, long, apply_to, Dir, Lot,
}
use bucks.Money.Laws.{GridLaws}
use bucks.Money.{is_gt, DecimalOps}
use bucks.Common.{
  if◌then◌else◌, ok, err, none, true, some, [], Result, ◌∷◌, Option, String, arith, refl, ◌+◌,
  length, inr, inl, All, ◌<◌, ◌⊎◌, ◌≢◌, ◌≡◌, ℕ, List,
}

-- A fill has a direction.
side_way : (side : Side) → dir_of_side side ≢ flat
side_way buy = λ e. cc e
side_way sell = λ e. cc e

module _ (M : DecimalOps) (OnGrid : M.Decimal → Type 0) (units : M.Decimal → ℕ)
    (laws : GridLaws M OnGrid units) where
  open M use {Decimal, zero_decimal, sign}

  opposite-Filled :
      (fill_dir dir : Dir) (qty px : Decimal) (lots : List (Lot M))
      → ((dir ≡ long) × (fill_dir ≡ short)) ⊎ ((dir ≡ short) × (fill_dir ≡ long))
      → All (λ l. OnGrid l.qty × (0 < units l.qty)) lots
      → OnGrid qty
      → Filled M OnGrid units laws fill_dir qty
          (record { dir = dir; lots = lots })
          (after_loop M fill_dir px
            (record { dir = dir; lots = lots })
            (consume M (length lots + 2) dir px lots qty zero_decimal))
  opposite-Filled fill_dir dir qty px lots o good on =
      after_loop-Filled M OnGrid units laws fill_dir dir qty px lots _ o (
        consume-Conserves M OnGrid units laws (length lots + 2) dir px lots qty zero_decimal
          (omega arith) good on)

  apply_to-Filled :
      (fill_dir dir : Dir) (qty px : Decimal) (lots : List (Lot M))
      → fill_dir ≢ flat
      → GoodPosition M OnGrid units laws (record { dir = dir; lots = lots })
      → OnGrid qty
      → 0 < units qty
      → Filled M OnGrid units laws fill_dir qty
          (record { dir = dir; lots = lots })
          (apply_to M fill_dir qty px (record { dir = dir; lots = lots }))
  unfolding apply_to ◌+ℤ◌
  apply_to-Filled fill_dir flat qty px lots way good on positive =
      (inr (way, (λ e. cc e), ((on, positive), tt)), ground (arith, way))
  apply_to-Filled long long qty px lots way (inl (e, _)) on positive = cc e
  apply_to-Filled long long qty px lots way (inr (open_dir, some_lots, good)) on positive = (
    inr (
      open_dir,
      append-ne M OnGrid units laws lots _,
      All-append M OnGrid units laws lots _ good ((on, positive), tt),
    ),
    ground (arith, total-append M OnGrid units laws lots (record { qty = qty; px = px } ∷ [])),
  )
  apply_to-Filled short short qty px lots way (inl (e, _)) on positive = cc e
  apply_to-Filled short short qty px lots way (inr (open_dir, some_lots, good)) on positive = (
    inr (
      open_dir,
      append-ne M OnGrid units laws lots _,
      All-append M OnGrid units laws lots _ good ((on, positive), tt),
    ),
    ground (arith, total-append M OnGrid units laws lots (record { qty = qty; px = px } ∷ [])),
  )
  apply_to-Filled short long qty px lots way (inl (e, _)) on positive = cc e
  apply_to-Filled short long qty px lots way (inr (_, _, good)) on positive =
      opposite-Filled short long qty px lots (inl (refl, refl)) good on
  apply_to-Filled long short qty px lots way (inl (e, _)) on positive = cc e
  apply_to-Filled long short qty px lots way (inr (_, _, good)) on positive =
      opposite-Filled long short qty px lots (inr (refl, refl)) good on
  apply_to-Filled flat long qty px lots way good on positive = absurd (way refl)
  apply_to-Filled flat short qty px lots way good on positive = absurd (way refl)

  -- What `Apply` has done to the accountant: it returned; the symbol's position changed as the fill
  -- says, or a decimal operation failed; and the other symbols are as they were.
  abbrev pub Applied :
      String
      → Dir
      → Decimal
      → Accountant M
      → Option (Accountant M × Result LedgerError Decimal)
      → Type 0
  Applied symbol dir qty a none = ⊥
  Applied symbol dir qty a (some (a', r)) =
      Filled M OnGrid units laws dir qty (or_flat M (lookup symbol a))
        (some (or_flat M (lookup symbol a'), r))
      × ((other : String)
          → lookup other a' ≡ (if same symbol other then lookup symbol a' else lookup other a))

  stored_only :
      (symbol : String) (p : Position M) (a : Accountant M) (other : String)
      → lookup other (insert symbol p a)
        ≡ (if same symbol other then lookup symbol (insert symbol p a) else lookup other a)
  stored_only symbol p a other =
      rw
        (
          lookup-insert symbol other p a,
          lookup-insert symbol symbol p a,
          (same_iff symbol symbol).1 refl,
        )
        refl

  stored-Applied :
      (symbol : String) (dir : Dir) (qty : Decimal) (a : Accountant M)
      (done : Option (Position M × Result LedgerError Decimal))
      → Filled M OnGrid units laws dir qty (or_flat M (lookup symbol a)) done
      → Applied symbol dir qty a (stored M symbol a done)
  stored-Applied symbol dir qty a none h = h
  stored-Applied symbol dir qty a (some (p, err e)) h = (h, stored_only symbol p a)
  stored-Applied symbol dir qty a (some (p, ok realized)) h = (
    rw (lookup-insert symbol symbol p a, (same_iff symbol symbol).1 refl) h,
    stored_only symbol p a,
  )

  -- A fill of a positive quantity on the lot grid at a positive price always returns. It moves the
  -- signed open quantity of its symbol, the sum of the lots, by exactly its own signed quantity,
  -- whether it opens, extends, reduces, closes or flips the position, and leaves the position well
  -- formed; or it returns the error of a decimal operation that failed. Other symbols are
  -- untouched.
  pub apply-Applied :
      (symbol : String) (side : Side) (qty px : Decimal) (a : Accountant M)
      → GoodPosition M OnGrid units laws (or_flat M (lookup symbol a))
      → OnGrid qty
      → 0 < units qty
      → is_gt (sign px) ≡ true
      → Applied symbol (dir_of_side side) qty a (apply M symbol side qty px a)
  unfolding apply
  apply-Applied symbol side qty px a good on positive priced =
      let sized : is_gt (sign qty) ≡ true = ground (arith, laws.sign_units qty on) in
      rw (sized, priced)
        (stored-Applied symbol (dir_of_side side) qty a _ (
          apply_to-Filled (dir_of_side side) (or_flat M (lookup symbol a)).dir qty px
            (or_flat M (lookup symbol a)).lots (side_way side) good on positive))
