-- ===== src/Ledger.antt =====
-- internal/ledger/ledger.go: realized profit and loss by FIFO lots.
pub mod Basis
pub mod Conservation
pub mod Fills
pub mod Reconciler
pub mod Seeding
use bucks.Common.Text.{insert, erase, lookup}
use bucks.Orders.{sell, buy, Side}
use bucks.Money.{is_gt, is_eq, DecimalOps}
use bucks.Common.{
  ◌+◌, length, ◌++◌, err, zero, not, ok, ◌∷◌, none, false, [], Result, suc, some, true, ℕ,
  if◌then◌else◌, Option, Ordering, String, Bool, List,
}

-- `dir` is +1, -1 or 0.
pub data Dir : Type 0 where
  long short flat : Dir

pub data LedgerError : Type 0 where
  qty_not_positive price_not_positive arithmetic : LedgerError

abbrev pub dir_of_side : Side → Dir
dir_of_side buy = long
dir_of_side sell = short

abbrev same_dir : Dir → Dir → Bool
same_dir long long = true
same_dir short short = true
same_dir flat flat = true
same_dir long short = false
same_dir long flat = false
same_dir short long = false
same_dir short flat = false
same_dir flat long = false
same_dir flat short = false

module _ (M : DecimalOps) where
  open M use {Decimal, zero_decimal, add, sub, mul, cmp, sign, abs, neg}

  pub record Lot : Type 0 where
    pub qty : Decimal
    pub px : Decimal

  pub record Position : Type 0 where
    pub dir : Dir
    pub lots : List Lot

  -- The map from symbols to open positions; a symbol without an entry has a nil position.
  abbrev pub Accountant : Type 0
  Accountant = List (String × Position)

  abbrev dir_of_sign : Ordering → Dir
  dir_of_sign Ordering.gt = long
  dir_of_sign Ordering.lt = short
  dir_of_sign Ordering.eq = flat

  -- `Seed`
  unfoldable pub seed : String → (signed_qty avg_px : Decimal) → Accountant → Accountant
  seed symbol signed_qty avg_px a =
      if is_eq (sign signed_qty)
      then erase symbol a
      else insert symbol
          (record {
            dir = dir_of_sign (sign signed_qty);
            lots = record { qty = abs signed_qty; px = avg_px } ∷ [];
          })
          a

  -- What the loop of `Apply` leaves: the lots, the remaining quantity and the realized sum; or the
  -- lots as they stand when an operation fails.
  pub data Consumed : Type 0 where
    consumed : List Lot → Decimal → Decimal → Consumed
    failed : List Lot → Consumed
    out_of_fuel : Consumed

  abbrev pub or_failed {ℓ} : {A : Type ℓ} → Option A → List Lot → (A → Consumed) → Consumed
  or_failed none lots k = failed lots
  or_failed (some a) lots k = k a

  -- `px - entry` for a long position, `entry - px` for a short one.
  abbrev pub gain_per_unit : Dir → (px entry : Decimal) → Option Decimal
  gain_per_unit long px entry = sub px entry
  gain_per_unit short px entry = sub entry px
  gain_per_unit flat px entry = sub entry px

  -- The part of a lot that a round takes.
  abbrev pub take_of : (lot_qty remaining : Decimal) → Decimal
  take_of lot_qty remaining = if is_gt (cmp lot_qty remaining) then remaining else lot_qty

  -- The end of a round: the oldest lot and the remaining quantity less what was taken.
  unfoldable pub reduce_lot :
      (List Lot → Decimal → Consumed) → Lot → List Lot → (take remaining : Decimal) → Consumed
  reduce_lot next l lots take remaining = or_failed (sub l.qty take) (l ∷ lots) λ new_lot_qty.
      let lots' =
        if is_eq (sign new_lot_qty) then lots else record l { qty = new_lot_qty } ∷ lots in
      or_failed (sub remaining take) lots' λ remaining'. next lots' remaining'

  -- The loop of `Apply` over the oldest lots, on fuel.
  unfoldable pub consume : ℕ → Dir → Decimal → List Lot → (remaining realized : Decimal) → Consumed
  consume zero dir px lots remaining realized = out_of_fuel
  consume (suc fuel) dir px [] remaining realized = consumed [] remaining realized
  consume (suc fuel) dir px (l ∷ lots) remaining realized =
      let take = take_of l.qty remaining in
      let round = or_failed (gain_per_unit dir px l.px) (l ∷ lots) λ diff.
        or_failed (mul take diff) (l ∷ lots) λ gain.
          or_failed (add realized gain) (l ∷ lots) λ realized'.
            reduce_lot (λ lots' remaining'. consume fuel dir px lots' remaining' realized') l lots
              take remaining in
      if is_gt (sign remaining) then round else consumed (l ∷ lots) remaining realized

  -- The position after the loop: flipped, closed or reduced.
  abbrev pub settle : Dir → (px : Decimal) → Position → List Lot → Decimal → Position
  settle fill_dir px p lots remaining =
      if is_gt (sign remaining)
      then record { dir = fill_dir; lots = record { qty = remaining; px = px } ∷ [] }
      else record { dir = elim lots [ [] ↦ flat | l ∷ rest ↦ p.dir ]; lots = lots }

  abbrev pub after_loop :
      Dir → (px : Decimal) → Position → Consumed → Option (Position × Result LedgerError Decimal)
  after_loop fill_dir px p (consumed lots remaining realized) =
      some (settle fill_dir px p lots remaining, ok realized)
  after_loop fill_dir px p (failed lots) = some (record p { lots = lots }, err arithmetic)
  after_loop fill_dir px p out_of_fuel = none

  -- A fill on a position that is not nil. Each round closes a lot or the fill, so the fuel is one
  -- round for each lot and two more.
  unfoldable pub apply_to :
      Dir → (qty px : Decimal) → Position → Option (Position × Result LedgerError Decimal)
  unfolding consume
  apply_to fill_dir qty px p =
      let opened : Position = record {
        dir = fill_dir;
        lots = record { qty = qty; px = px } ∷ [];
      } in
      let extended : Position = record p { lots = p.lots ++ record { qty = qty; px = px } ∷ [] } in
      let looped =
        after_loop fill_dir px p (consume (length p.lots + 2) p.dir px p.lots qty zero_decimal) in
      if same_dir p.dir flat
      then some (opened, ok zero_decimal)
      else if same_dir p.dir fill_dir
      then some (extended, ok zero_decimal)
      else looped

  abbrev pub or_flat : Option Position → Position
  or_flat none = record { dir = flat; lots = [] }
  or_flat (some p) = p

  abbrev pub stored :
      String
      → Accountant
      → Option (Position × Result LedgerError Decimal)
      → Option (Accountant × Result LedgerError Decimal)
  stored symbol a none = none
  stored symbol a (some (p, r)) = some (insert symbol p a, r)

  -- `Apply`: the accountant afterwards, also behind an error, and the realized sum.
  unfoldable pub apply :
      String
      → Side
      → (qty px : Decimal) → Accountant
      → Option (Accountant × Result LedgerError Decimal)
  unfolding apply_to
  apply symbol side qty px a =
      if not (is_gt (sign qty))
      then some (a, err qty_not_positive)
      else if not (is_gt (sign px))
      then some (a, err price_not_positive)
      else stored symbol a (apply_to (dir_of_side side) qty px (or_flat (lookup symbol a)))

  -- The loop and the sign of `Position`.
  unfoldable pub sum_lots : Decimal → List Lot → Option Decimal
  sum_lots total [] = some total
  sum_lots total (l ∷ lots) = elim (add total l.qty) [ none ↦ none | some t ↦ sum_lots t lots ]

  unfoldable pub position_of : Position → Option Decimal
  unfolding sum_lots
  position_of p =
      if same_dir p.dir flat then some zero_decimal else elim (sum_lots zero_decimal p.lots) [
        | none ↦ none
        | some total ↦ if same_dir p.dir short then some (neg total) else some total
      ]

  -- `Position`
  unfoldable pub position : String → Accountant → Option Decimal
  unfolding position_of
  position symbol a = position_of (or_flat (lookup symbol a))
