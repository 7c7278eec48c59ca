-- ===== src/Book/Levels.antt =====
-- Writing a level and reading it back, where the levels ascend.
use bucks.Common.{
  Bool, some, inr, ◌⊎◌, if◌then◌else◌, inl, Ordering, refl, none, [], false, All, Option, ◌∷◌, true,
  arith, List, ◌≡◌,
}
use bucks.Book.{levels_below, Level, set_levels, qty_found, levels_from, is_zero}
use bucks.Money.{is_lt, is_eq, DecimalOps}
use bucks.Money.Laws.{OrderLaws}

module _ (M : DecimalOps) where
  open M use {Decimal, cmp, sign}

  abbrev pub Before : Decimal → Decimal → Type 0
  Before a b = is_lt (cmp a b) ≡ true

  -- Prices that strictly ascend, and a quantity other than zero at each.
  abbrev pub Ascending : List (Level M) → Type 0
  Ascending [] = Unit
  Ascending (l ∷ levels) =
      (is_zero M l.qty ≡ false) × All (λ m. Before l.price m.price) levels × Ascending levels

  abbrev pub qty_in : Decimal → List (Level M) → Option Decimal
  qty_in price levels = qty_found M price (levels_from M price levels)

  module _ (laws : OrderLaws M) where
    Before-trans : (a b c : Decimal) → Before a b → Before b c → Before a c
    Before-trans a b c h k = ground (
      arith,
      laws.cmp_trans c a b,
      laws.cmp_flip a c,
      laws.cmp_flip a b,
      laws.cmp_flip b a,
      laws.cmp_flip b c,
    )

    All-Before :
        (a b : Decimal) (levels : List (Level M))
        → Before a b
        → All (λ m. Before b m.price) levels
        → All (λ m. Before a m.price) levels
    All-Before a b [] h all = tt
    All-Before a b (m ∷ levels) h (first, all) =
        (Before-trans a b m.price h first, All-Before a b levels h all)

    -- Nothing stands at a price below all levels.
    qty_in-below :
        (price : Decimal) (levels : List (Level M))
        → All (λ m. Before price m.price) levels
        → qty_in price levels ≡ none
    unfolding levels_from
    qty_in-below price [] all = refl
    qty_in-below price (m ∷ levels) (first, all) =
        ground (arith, laws.cmp_flip m.price price, laws.cmp_flip price m.price)

    pub compare-cases : (o : Ordering) → (o ≡ Ordering.lt) ⊎ (o ≡ Ordering.eq) ⊎ (o ≡ Ordering.gt)
    compare-cases Ordering.lt = inl refl
    compare-cases Ordering.eq = inr (inl refl)
    compare-cases Ordering.gt = inr (inr refl)

    by_zero :
        (P : List (Level M) → Type 0) (qty : Decimal) (xs ys : List (Level M))
        → (is_zero M qty ≡ true → P xs)
        → (is_zero M qty ≡ false → P ys)
        → P (if is_zero M qty then xs else ys)
    by_zero P qty xs ys f g = split (is_zero M qty) f g
      where
        split : (b : Bool) → (b ≡ true → P xs) → (b ≡ false → P ys) → P (if b then xs else ys)
        split true f g = f refl
        split false f g = g refl

    -- A price strictly above a level's is not one at or below it.
    apart :
        (low price at : Decimal)
        → cmp low price ≡ Ordering.lt
        → is_lt (cmp low at) ≡ false
        → is_eq (cmp price at) ≡ false
    apart low price at h k = ground (
      arith,
      laws.cmp_trans price at low,
      laws.cmp_flip low price,
      laws.cmp_flip low at,
      laws.cmp_flip at price,
      laws.cmp_flip price at,
    )

    -- Prices that compare as equal compare alike.
    congruent : (a b c : Decimal) → cmp a b ≡ Ordering.eq → cmp a c ≡ cmp b c
    congruent a b c h = ground (
      arith,
      laws.cmp_trans a b c,
      laws.cmp_trans b a c,
      laws.cmp_trans c a b,
      laws.cmp_trans c b a,
      laws.cmp_flip a b,
      laws.cmp_flip b a,
      laws.cmp_flip a c,
      laws.cmp_flip c a,
      laws.cmp_flip b c,
      laws.cmp_flip c b,
    )

    Before-not_above : (a b c : Decimal) → is_lt (cmp a b) ≡ false → Before a c → Before b c
    Before-not_above a b c h k =
        ground
          (arith, laws.cmp_trans c b a, laws.cmp_flip b c, laws.cmp_flip a c, laws.cmp_flip a b)

    All-not_above :
        (a b : Decimal) (levels : List (Level M))
        → is_lt (cmp a b) ≡ false
        → All (λ m. Before a m.price) levels
        → All (λ m. Before b m.price) levels
    All-not_above a b [] h all = tt
    All-not_above a b (m ∷ levels) h (first, all) =
        (Before-not_above a b m.price h first, All-not_above a b levels h all)

    set_levels-lower :
        (price qty : Decimal) (l : Level M) (levels : List (Level M))
        → cmp l.price price ≡ Ordering.lt
        → set_levels M price qty (l ∷ levels) ≡ l ∷ set_levels M price qty levels
    unfolding set_levels levels_below levels_from
    set_levels-lower price qty l levels h = rw h refl

    set_levels-same :
        (price qty : Decimal) (l : Level M) (levels : List (Level M))
        → cmp l.price price ≡ Ordering.eq
        → set_levels M price qty (l ∷ levels)
          ≡ (if is_zero M qty then levels else record { price = l.price; qty = qty } ∷ levels)
    unfolding set_levels levels_below levels_from
    set_levels-same price qty l levels h = rw (h, h) refl

    set_levels-higher :
        (price qty : Decimal) (l : Level M) (levels : List (Level M))
        → cmp l.price price ≡ Ordering.gt
        → set_levels M price qty (l ∷ levels)
          ≡ (if is_zero M qty then l ∷ levels else record { price = price; qty = qty } ∷ l ∷ levels)
    unfolding set_levels levels_below levels_from
    set_levels-higher price qty l levels h = rw (h, h) refl

    set_levels-All :
        (a price qty : Decimal) (levels : List (Level M))
        → Before a price
        → All (λ m. Before a m.price) levels
        → All (λ m. Before a m.price) (set_levels M price qty levels)
    unfolding set_levels levels_below levels_from
    set_levels-All a price qty [] h all =
        by_zero (All (λ m. Before a m.price)) qty [] (record { price = price; qty = qty } ∷ [])
          (λ z. tt) (λ z. (h, tt))
    set_levels-All a price qty (l ∷ levels) h (first, all) =
        elim (compare-cases (cmp l.price price)) [
          | inl e ↦
              rw (set_levels-lower price qty l levels e)
                (first, set_levels-All a price qty levels h all)
          | inr (inl e) ↦ rw (set_levels-same price qty l levels e) (
              by_zero (All (λ m. Before a m.price)) qty levels
                (record { price = l.price; qty = qty } ∷ levels) (λ z. all) (λ z. (first, all)))
          | inr (inr e) ↦ rw (set_levels-higher price qty l levels e) (
              by_zero (All (λ m. Before a m.price)) qty (l ∷ levels)
                (record { price = price; qty = qty } ∷ l ∷ levels) (λ z. (first, all))
                (λ z. (h, (first, all))))
        ]

    pub set_levels-Ascending :
        (price qty : Decimal) (levels : List (Level M))
        → Ascending levels
        → Ascending (set_levels M price qty levels)
    unfolding set_levels levels_below levels_from
    set_levels-Ascending price qty [] asc =
        by_zero Ascending qty [] (record { price = price; qty = qty } ∷ []) (λ z. tt)
          (λ z. (z, tt, tt))
    set_levels-Ascending price qty (l ∷ levels) (nz, all, asc) =
        elim (compare-cases (cmp l.price price)) [
          | inl e ↦ rw (set_levels-lower price qty l levels e) (
            nz,
            set_levels-All l.price price qty levels (ground (arith, e)) all,
            set_levels-Ascending price qty levels asc,
          )
          | inr (inl e) ↦ rw (set_levels-same price qty l levels e) (
              by_zero Ascending qty levels (record { price = l.price; qty = qty } ∷ levels)
                (λ z. asc) (λ z. (z, all, asc)))
          | inr (inr e) ↦ rw (set_levels-higher price qty l levels e) (
              by_zero Ascending qty (l ∷ levels) (record { price = price; qty = qty } ∷ l ∷ levels)
                (λ z. (nz, all, asc))
                (λ z.
                  let h : Before price l.price = ground (arith, e, laws.cmp_flip price l.price) in
                  (z, (h, All-Before price l.price levels h all), (nz, all, asc))))
        ]

    -- What a write does to what is read at a price.
    pub set_levels-qty_in :
        (price qty at : Decimal) (levels : List (Level M))
        → Ascending levels
        → qty_in at (set_levels M price qty levels) ≡ (
            if is_eq (cmp price at)
            then (if is_zero M qty then none else some qty)
            else qty_in at levels)
    unfolding set_levels levels_below levels_from
    set_levels-qty_in price qty at [] asc = ground arith
    set_levels-qty_in price qty at (l ∷ levels) (nz, all, asc) =
        elim (compare-cases (cmp l.price price)) [
          | inl e ↦ rw (set_levels-lower price qty l levels e) (
              ground
                (arith, e, set_levels-qty_in price qty at levels asc, apart l.price price at e))
          | inr (inl e) ↦
              let above : is_lt (cmp l.price at) ≡ false → qty_in at levels ≡ none =
                λ h. qty_in-below at levels (All-not_above l.price at levels h all) in
              rw (set_levels-same price qty l levels e)
                (ground (arith, e, above, congruent l.price price at e))
          | inr (inr e) ↦ rw (set_levels-higher price qty l levels e) (
              ground (
                arith,
                e,
                apart price l.price at,
                congruent price at l.price,
                Before-trans price l.price at,
                laws.cmp_flip price l.price,
                laws.cmp_flip l.price at,
                laws.cmp_flip at l.price,
                laws.cmp_flip price at,
                laws.cmp_flip at price,
              ))
        ]
