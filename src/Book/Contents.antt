-- ===== src/Book/Contents.antt =====
-- The order book as a function from sides and prices to quantities.
use bucks.Common.Int.{ℤ}
use bucks.Common.{
  false, refl, some, Bool, [], arith, ◌∷◌, ◌&&◌, true, ◌≡◌, List, if◌then◌else◌, none, Option,
}
use bucks.Book.Levels.{Ascending, set_levels-Ascending, set_levels-qty_in}
use bucks.Book.{
  levels_from, BookSide, bid, ask, same_side, Level, SequencedBook, set_level, levels_of, qty_at,
  seed_levels, is_zero, Snapshot, apply_snapshot, Delta,
}
use bucks.Money.{is_eq, DecimalOps}
use bucks.Money.Laws.{OrderLaws}

module _ (M : DecimalOps) where
  open M use {Decimal, cmp, sign}

  abbrev pub Contents : Type 0
  Contents = BookSide → Decimal → Option Decimal

  abbrev pub nothing : Contents
  nothing side at = none

  -- Absolute: the quantity that a side has at a price afterwards, where zero is no level.
  abbrev pub written : BookSide → (price qty : Decimal) → Contents → Contents
  written side price qty f s at =
      if same_side side s && is_eq (cmp price at)
      then (if is_zero M qty then none else some qty)
      else f s at

  abbrev pub all_written : List (Delta M) → Contents → Contents
  all_written [] f = f
  all_written (d ∷ ds) f = all_written ds (written d.side d.price d.qty f)

  -- Levels of zero are skipped.
  abbrev pub seeded : BookSide → List (Level M) → Contents → Contents
  seeded side [] f = f
  seeded side (lv ∷ levels) f =
      seeded side levels (if is_zero M lv.qty then f else written side lv.price lv.qty f)

  abbrev pub contents_of : Snapshot M → Contents
  contents_of snap = seeded ask snap.asks (seeded bid snap.bids nothing)

  -- A book in order that reads as the contents say.
  pub record Shows (b : SequencedBook M) (f : Contents) : Type 0 where
    pub ordered : (s : BookSide) → Ascending M (levels_of M s b)
    pub reads : (s : BookSide) (at : Decimal) → qty_at M s at b ≡ f s at

  module _ (laws : OrderLaws M) where
    pub set_level-Shows :
        (side : BookSide) (price qty : Decimal) (b : SequencedBook M) (f : Contents)
        → Shows b f
        → Shows (set_level M side price qty b) (written side price qty f)
    set_level-Shows bid price qty b f h = record { ordered = ordered; reads = reads }
      where
        ordered : (s : BookSide) → Ascending M (levels_of M s (set_level M bid price qty b))
        ordered bid = set_levels-Ascending M laws price qty b.bids (h.ordered bid)
        ordered ask = h.ordered ask

        reads :
            (s : BookSide) (at : Decimal)
            → qty_at M s at (set_level M bid price qty b) ≡ written bid price qty f s at
        reads bid at =
            ground
              (arith, set_levels-qty_in M laws price qty at b.bids (h.ordered bid), h.reads bid at)
        reads ask at = h.reads ask at
    set_level-Shows ask price qty b f h = record { ordered = ordered; reads = reads }
      where
        ordered : (s : BookSide) → Ascending M (levels_of M s (set_level M ask price qty b))
        ordered ask = set_levels-Ascending M laws price qty b.asks (h.ordered ask)
        ordered bid = h.ordered bid

        reads :
            (s : BookSide) (at : Decimal)
            → qty_at M s at (set_level M ask price qty b) ≡ written ask price qty f s at
        reads ask at =
            ground
              (arith, set_levels-qty_in M laws price qty at b.asks (h.ordered ask), h.reads ask at)
        reads bid at = h.reads bid at

    seed_levels-Shows :
        (side : BookSide) (levels : List (Level M)) (b : SequencedBook M) (f : Contents)
        → Shows b f
        → Shows (seed_levels M side levels b) (seeded side levels f)
    unfolding seed_levels
    seed_levels-Shows side [] b f h = h
    seed_levels-Shows side (lv ∷ levels) b f h =
        seed_levels-Shows side levels _ _ (split (is_zero M lv.qty))
      where
        split :
            (zero_qty : Bool)
            → Shows
                (if zero_qty then b else set_level M side lv.price lv.qty b)
                (if zero_qty then f else written side lv.price lv.qty f)
        split true = h
        split false = set_level-Shows side lv.price lv.qty b f h

    empty-Shows : (b : SequencedBook M) → Shows (record b { bids = []; asks = [] }) nothing
    unfolding levels_from
    empty-Shows b = record { ordered = ordered; reads = reads }
      where
        ordered : (s : BookSide) → Ascending M (levels_of M s (record b { bids = []; asks = [] }))
        ordered bid = tt
        ordered ask = tt

        reads :
            (s : BookSide) (at : Decimal) → qty_at M s at (record b { bids = []; asks = [] }) ≡ none
        reads bid at = refl
        reads ask at = refl

    pub relabel-Shows :
        (b : SequencedBook M) (last : ℤ) (flag : Bool) (f : Contents)
        → Shows b f
        → Shows (record b { last_u = last; ready = flag }) f
    relabel-Shows b last flag f h = record { ordered = ordered; reads = reads }
      where
        ordered :
            (s : BookSide) → Ascending M (levels_of M s (record b { last_u = last; ready = flag }))
        ordered bid = h.ordered bid
        ordered ask = h.ordered ask

        reads :
            (s : BookSide) (at : Decimal)
            → qty_at M s at (record b { last_u = last; ready = flag }) ≡ f s at
        reads bid at = h.reads bid at
        reads ask at = h.reads ask at

    pub apply_snapshot-Shows :
        (snap : Snapshot M) (b : SequencedBook M)
        → Shows (apply_snapshot M snap b) (contents_of snap)
    unfolding apply_snapshot
    apply_snapshot-Shows snap b =
        relabel-Shows _ snap.last_update_id true _ (
          seed_levels-Shows ask snap.asks _ _ (seed_levels-Shows bid snap.bids _ _ (empty-Shows b)))
