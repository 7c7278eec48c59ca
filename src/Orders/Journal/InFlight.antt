-- ===== src/Orders/Journal/InFlight.antt =====
-- The orders that a replay hands to the boot reconciliation.
use bucks.Orders.{new_order, is_terminal, Order}
use bucks.Common.Text.{lookup-insert, same, insert, lookup}
use bucks.Orders.Journal.Recovery.{fold_records-append, fold_records, recover}
use bucks.Orders.Journal.{
  entry, apply_record, intent, fold_record, ReplayResult, Entries, collect, Record,
}
use bucks.Money.{DecimalOps}
use bucks.Common.{
  true, false, All, ok-injective, ℕ, >>=-eq-ok, ap, refl, not, arith, [], some, ◌∷◌, ◌++◌, ok, none,
  ◌≡◌, Option, String, List,
}

module _ (M : DecimalOps) where
  open M use {Decimal, zero_decimal, cmp}

  insert-new :
      (id : String) (o : Option (Order M)) (entries : Entries M)
      → lookup id entries ≡ none
      → insert id o entries ≡ entries ++ (id, o) ∷ []
  unfolding lookup insert
  insert-new id o [] h = refl
  insert-new id o ((j, p) ∷ entries) h = ground (arith, insert-new id o entries)

  collect-append :
      (entries : Entries M) (results : List (ReplayResult M)) (id : String) (o : Order M)
      → collect M entries ≡ ok results
      → collect M (entries ++ (id, some o) ∷ [])
        ≡ ok (results ++ record { order = o; in_flight = not (is_terminal o.state) } ∷ [])
  unfolding collect
  collect-append [] results id o h = ground arith
  collect-append ((j, none) ∷ entries) results id o h = cc h
  collect-append ((j, some p) ∷ entries) results id o h =
      let (rs, e, f) = >>=-eq-ok (collect M entries) _ h in
      rw (collect-append entries rs id o e) (
        ap
          (λ (l : List (ReplayResult M)).
            ok (l ++ record { order = o; in_flight = not (is_terminal o.state) } ∷ []))
          (ok-injective f))

  -- Records of other ids leave an id unseen.
  fold_record-lookup :
      (rec : Record M) (id : String) (entries next : Entries M)
      → fold_record M entries rec ≡ ok next
      → same rec.cl_ord_id id ≡ false
      → lookup id entries ≡ none
      → lookup id next ≡ none
  unfolding fold_record
  fold_record-lookup rec id entries next h other unseen =
      let (o, _, f) = >>=-eq-ok (apply_record M (entry M (lookup rec.cl_ord_id entries)) rec) _ h in
      rw (← ok-injective f, lookup-insert rec.cl_ord_id id o entries, other, unseen) refl

  fold_record-intent :
      (rec : Record M) (qty px : Decimal) (entries : Entries M)
      → rec.type ≡ intent
      → rec.qty ≡ some qty
      → rec.px ≡ some px
      → lookup rec.cl_ord_id entries ≡ none
      → fold_record M entries rec
        ≡ ok (
            entries
            ++ (
              rec.cl_ord_id,
              some (new_order M rec.cl_ord_id rec.strategy rec.symbol rec.side qty px),
            )
              ∷ [])
  unfolding fold_record apply_record
  fold_record-intent rec qty px entries kind has_qty has_px unseen =
      rw (unseen, kind, apply_record)
        (rw (has_qty, has_px) (ap ok (insert-new rec.cl_ord_id _ entries unseen)))

  module _ (marshal : Record M → Option (List ℕ)) (unmarshal : List ℕ → Option (Record M)) where
    fold_records-lookup :
        (recs : List (Record M)) (id : String) (entries last : Entries M)
        → fold_records M marshal unmarshal recs entries ≡ ok last
        → All (λ rec. same rec.cl_ord_id id ≡ false) recs
        → lookup id entries ≡ none
        → lookup id last ≡ none
    unfolding fold_records
    fold_records-lookup [] id entries last h others unseen = rw (← ok-injective h) unseen
    fold_records-lookup (rec ∷ recs) id entries last h others unseen =
        let (next, e, f) = >>=-eq-ok (fold_record M entries rec) _ h in
        fold_records-lookup recs id next last f others.1
          (fold_record-lookup rec id entries next e others.0 unseen)

    -- Behind records that fold to some orders, and with no record of its id among them, an intent
    -- record adds its order last, new and in flight, and the orders before it are as they were.
    pub recover-intent :
        (recs : List (Record M)) (rec : Record M) (qty px : Decimal)
        (results : List (ReplayResult M))
        → recover M marshal unmarshal recs ≡ ok results
        → rec.type ≡ intent
        → rec.qty ≡ some qty
        → rec.px ≡ some px
        → All (λ earlier. same earlier.cl_ord_id rec.cl_ord_id ≡ false) recs
        → recover M marshal unmarshal (recs ++ rec ∷ [])
          ≡ ok (
              results
              ++ record {
                order = new_order M rec.cl_ord_id rec.strategy rec.symbol rec.side qty px;
                in_flight = true;
              }
                ∷ [])
    unfolding recover fold_records lookup new_order
    recover-intent recs rec qty px results found kind has_qty has_px others =
        let (entries, e, f) = >>=-eq-ok (fold_records M marshal unmarshal recs []) _ found in
        let unseen = fold_records-lookup recs rec.cl_ord_id [] entries e others refl in
        rw (fold_records-append M marshal unmarshal recs (rec ∷ []) [], e)
          (rw (fold_record-intent rec qty px entries kind has_qty has_px unseen)
            (collect-append entries results rec.cl_ord_id _ f))
