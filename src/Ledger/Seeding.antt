-- ===== src/Ledger/Seeding.antt =====
-- `Seed` against `Position`.
use bucks.Money.Laws.{SignLaws}
use bucks.Common.Text.{lookup-insert, same_iff, lookup-erase, lookup, same}
use bucks.Ledger.{
  Position, flat, or_flat, position_of, Dir, short, long, Accountant, sum_lots, seed, position,
}
use bucks.Money.{is_eq, DecimalOps}
use bucks.Common.{
  true, ◌∙◌, ◌≢◌, Bool, ap, [], inr, refl, inl, Bool-cases, if◌then◌else◌, false, some, ◌≡◌,
  Ordering, String, ◌∷◌,
}

abbrev is_short : Dir → Bool
is_short short = true
is_short long = false
is_short flat = false

module _ (M : DecimalOps) where
  open M use {Decimal, zero_decimal, sign, add, abs, neg}

  position_of-lot :
      (dir : Dir) (q px : Decimal)
      → dir ≢ flat
      → add zero_decimal q ≡ some q
      → position_of M (record { dir = dir; lots = record { qty = q; px = px } ∷ [] })
        ≡ some (if is_short dir then neg q else q)
  unfolding position_of sum_lots
  position_of-lot long q px d e = rw e refl
  position_of-lot short q px d e = rw e refl
  position_of-lot flat q px d e = absurd (d refl)

  position_of-flat : position_of M (record { dir = flat; lots = [] }) ≡ some zero_decimal
  unfolding position_of
  position_of-flat = refl

  abbrev position_after : Ordering → (q px : Decimal) → Position M
  position_after Ordering.gt q px = record {
    dir = long;
    lots = record { qty = abs q; px = px } ∷ [];
  }
  position_after Ordering.lt q px = record {
    dir = short;
    lots = record { qty = abs q; px = px } ∷ [];
  }
  position_after Ordering.eq q px = record { dir = flat; lots = [] }

  seeded-lookup :
      (symbol : String) (q px : Decimal) (a : Accountant M) (o : Ordering)
      → sign q ≡ o
      → or_flat M (lookup symbol (seed M symbol q px a)) ≡ position_after o q px
  unfolding seed
  seeded-lookup symbol q px a Ordering.eq e =
      rw e (rw (lookup-erase symbol symbol a, (same_iff symbol symbol).1 refl) refl)
  seeded-lookup symbol q px a Ordering.gt e = rw e (
      rw
        (
          lookup-insert symbol symbol (position_after Ordering.gt q px) a,
          (same_iff symbol symbol).1 refl,
        )
        refl)
  seeded-lookup symbol q px a Ordering.lt e = rw e (
      rw
        (
          lookup-insert symbol symbol (position_after Ordering.lt q px) a,
          (same_iff symbol symbol).1 refl,
        )
        refl)

  position_of-after :
      (q px : Decimal) (o : Ordering)
      → SignLaws M
      → add zero_decimal (abs q) ≡ some (abs q)
      → sign q ≡ o
      → position_of M (position_after o q px) ≡ some (if is_eq o then zero_decimal else q)
  position_of-after q px Ordering.eq laws exact e = position_of-flat
  position_of-after q px Ordering.gt laws exact e =
      position_of-lot long (abs q) px (λ z. cc z) exact ∙ ap some (laws.abs_positive q e)
  position_of-after q px Ordering.lt laws exact e =
      position_of-lot short (abs q) px (λ z. cc z) exact ∙ ap some (laws.neg_abs q e)

  seeded-position :
      (symbol : String) (q px : Decimal) (a : Accountant M) (o : Ordering)
      → SignLaws M
      → add zero_decimal (abs q) ≡ some (abs q)
      → sign q ≡ o
      → position M symbol (seed M symbol q px a) ≡ some (if is_eq o then zero_decimal else q)
  unfolding position
  seeded-position symbol q px a o laws exact e =
      ap (position_of M) (seeded-lookup symbol q px a o e) ∙ position_of-after q px o laws exact e

  seeded-other :
      (symbol other : String) (q px : Decimal) (a : Accountant M)
      → same symbol other ≡ false
      → lookup other (seed M symbol q px a) ≡ lookup other a
  unfolding seed
  seeded-other symbol other q px a ne = elim (Bool-cases (is_eq (sign q))) [
    | inl flat_qty ↦ rw flat_qty (rw (lookup-erase symbol other a, ne) refl)
    | inr some_qty ↦ rw some_qty (rw (lookup-insert symbol other _ a, ne) refl)
  ]

  -- `Seed` replaces whatever the symbol had: `Position` then reads the broker's signed quantity
  -- back, long, short or flat, if its size survives being added to zero; and it reads for every
  -- other symbol what it read before.
  pub position-seed :
      (symbol other : String) (q px : Decimal) (a : Accountant M)
      → SignLaws M
      → add zero_decimal (abs q) ≡ some (abs q)
      → same symbol other ≡ false
      → (position M symbol (seed M symbol q px a)
          ≡ some (if is_eq (sign q) then zero_decimal else q))
        × (position M other (seed M symbol q px a) ≡ position M other a)
  unfolding position
  position-seed symbol other q px a laws exact ne = (
    seeded-position symbol q px a (sign q) laws exact refl,
    ap (λ o. position_of M (or_flat M o)) (seeded-other symbol other q px a ne),
  )
