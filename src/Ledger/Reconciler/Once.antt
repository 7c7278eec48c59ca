-- ===== src/Ledger/Reconciler/Once.antt =====
-- Broker fills that are delivered again.
use bucks.Ledger.Reconciler.Synced.{remember_broker_fill-cases}
use bucks.Common.Text.{same_iff, lookup, same}
use bucks.Ledger.{apply, LedgerError, Accountant, Position}
use bucks.Common.Int.{leb_ℤ, ℤ}
use bucks.Orders.{seen}
use bucks.Ledger.Reconciler.{
  next_cursor, ReconcileError, applied_fill, Reconciler, Faults, reconcile_fills, reconcile_fill,
  remember_fill, save_current_state, Fill,
}
use bucks.Ledger.Basis.{encode_basis, BasisState}
use bucks.Money.{DecimalOps}
use bucks.Common.{
  ◌∙◌, sym, subst, false, ok, arith, some, ◌&&◌, err, inr, refl, inl, ◌⊎◌, true, Result,
  Option-cases, Bool-cases, none, All, ◌≡◌, [], ℕ, Option, String, List, ◌∷◌,
}

module _ (M : DecimalOps) (text_of : M.Decimal → String)
    (marshal : BasisState → Option (List ℕ)) where
  open M use {Decimal}

  abbrev pub ids_of : List (Fill Decimal × Faults) → List String
  ids_of [] = []
  ids_of ((f, db) ∷ fills) = f.id ∷ ids_of fills

  -- What a round does to the ids: it leaves them, without an error only where the id is there; or
  -- it adds the fill's.
  abbrev Ids :
      Fill Decimal
      → Reconciler M text_of marshal
      → Reconciler M text_of marshal × Option ReconcileError
      → Type 0
  Ids f r (r', e) =
      ((r'.store.fill_ids ≡ r.store.fill_ids) × ((e ≡ none) → seen f.id r.store.fill_ids ≡ true))
      ⊎ (r'.store.fill_ids ≡ f.id ∷ r.store.fill_ids)

  save_current_state-same :
      (db : Faults) (at : ℤ) (r : Reconciler M text_of marshal)
      → let after = (save_current_state M text_of marshal db at r).0 in
        (after.acct ≡ r.acct)
        × (after.store.trades ≡ r.store.trades)
        × (after.store.fill_ids ≡ r.store.fill_ids)
  unfolding save_current_state
  save_current_state-same db at r =
      elim (Bool-cases
        (leb_ℤ (next_cursor at r.after) r.after && leb_ℤ r.after (next_cursor at r.after))) [
          | inl same_cursor ↦ rw (same_cursor, save_current_state) (refl, refl, refl)
          | inr later ↦ elim (Option-cases (encode_basis M text_of marshal r.acct)) [
            | inl unencoded ↦ rw (later, unencoded, save_current_state) (refl, refl, refl)
            | inr (basis, e) ↦ elim (Bool-cases db.save_fails) [
              | inl fails ↦ rw (later, e, fails, save_current_state) (refl, refl, refl)
              | inr works ↦ rw (later, e, works, save_current_state) (refl, refl, refl)
            ]
          ]
        ]

  remember_fill-Ids :
      (db : Faults) (f : Fill Decimal) (prev : Option (Position M)) (realized : Decimal)
      (r : Reconciler M text_of marshal)
      → Ids f r (remember_fill M text_of marshal db f prev realized r)
  unfolding remember_fill
  remember_fill-Ids db f prev realized r =
      elim (Option-cases (encode_basis M text_of marshal r.acct)) [
        | inl unencoded ↦ rw (unencoded, remember_fill) (inl (refl, λ h. cc h))
        | inr (basis, e) ↦
            rw (e, remember_fill)
              (elim (remember_broker_fill-cases M text_of marshal db.remember_fails f.id f.symbol
                realized (next_cursor f.at r.after) basis r.store) [
                  | inl failed ↦ rw failed (inl (refl, λ h. cc h))
                  | inr (inl (old, there)) ↦ rw old (inl (refl, λ h. there))
                  | inr (inr (_, (trades, done))) ↦ rw done (inr refl)
                ])
      ]

  reconcile_fill-Ids :
      (db : Faults) (f : Fill Decimal) (r : Reconciler M text_of marshal)
      → Ids f r (reconcile_fill M text_of marshal db f r)
  unfolding reconcile_fill applied_fill
  reconcile_fill-Ids db f r = elim (Bool-cases (same f.id "")) [
    | inl missing ↦ rw missing (inl (refl, λ h. cc h))
    | inr named ↦ elim (Bool-cases db.seen_fails) [
      | inl fails ↦ rw (named, fails) (inl (refl, λ h. cc h))
      | inr works ↦ elim (Bool-cases (seen f.id r.store.fill_ids)) [
        | inl old ↦ rw (named, works, old) (inl ((save_current_state-same db f.at r).2, λ h. refl))
        | inr new ↦
            subst (Ids f r) (sym (applies named works new))
              (after_apply (apply M f.symbol f.side f.qty f.px r.acct))
      ]
    ]
  ]
    where
      applies :
          same f.id "" ≡ false
          → db.seen_fails ≡ false
          → seen f.id r.store.fill_ids ≡ false
          → reconcile_fill M text_of marshal db f r
            ≡ applied_fill M text_of marshal db f r (apply M f.symbol f.side f.qty f.px r.acct)
      applies named works new = rw (named, works, new, reconcile_fill) refl

      after_apply :
          (done : Option (Accountant M × Result LedgerError Decimal))
          → Ids f r (applied_fill M text_of marshal db f r done)
      after_apply none = inl (refl, λ h. cc h)
      after_apply (some (acct, err e)) = inl (refl, λ h. cc h)
      after_apply (some (acct, ok realized)) =
          remember_fill-Ids db f (lookup f.symbol r.acct) realized (record r { acct = acct })

  -- A fill that is in the store already leaves the accountant, the rows and the ids.
  seen_fill-same :
      (db : Faults) (f : Fill Decimal) (r : Reconciler M text_of marshal)
      → seen f.id r.store.fill_ids ≡ true
      → let after = (reconcile_fill M text_of marshal db f r).0 in
        (after.acct ≡ r.acct)
        × (after.store.trades ≡ r.store.trades)
        × (after.store.fill_ids ≡ r.store.fill_ids)
  unfolding reconcile_fill
  seen_fill-same db f r old = elim (Bool-cases (same f.id "")) [
    | inl missing ↦ rw (missing, reconcile_fill) (refl, refl, refl)
    | inr named ↦ elim (Bool-cases db.seen_fails) [
      | inl fails ↦ rw (named, fails, reconcile_fill) (refl, refl, refl)
      | inr works ↦ rw (named, works, old, reconcile_fill) (save_current_state-same db f.at r)
    ]
  ]

  seen-grows :
      (id : String) (db : Faults) (f : Fill Decimal) (r : Reconciler M text_of marshal)
      → seen id r.store.fill_ids ≡ true
      → seen id (reconcile_fill M text_of marshal db f r).0.store.fill_ids ≡ true
  unfolding seen
  seen-grows id db f r h = elim (reconcile_fill-Ids db f r) [
    | inl (kept, _) ↦ rw kept h
    | inr added ↦ rw added (ground (arith, h))
  ]

  seen-posted :
      (db : Faults) (f : Fill Decimal) (r : Reconciler M text_of marshal)
      → (reconcile_fill M text_of marshal db f r).1 ≡ none
      → seen f.id (reconcile_fill M text_of marshal db f r).0.store.fill_ids ≡ true
  unfolding seen
  seen-posted db f r h = elim (reconcile_fill-Ids db f r) [
    | inl (kept, there) ↦ rw kept (there h)
    | inr added ↦ rw added (ground (arith, same_iff f.id f.id))
  ]

  -- Without an error every fill is in the store.
  seen-after :
      (id : String) (fills : List (Fill Decimal × Faults)) (r : Reconciler M text_of marshal)
      → (reconcile_fills M text_of marshal fills r).1 ≡ none
      → (seen id (ids_of fills) ≡ true) ⊎ (seen id r.store.fill_ids ≡ true)
      → seen id (reconcile_fills M text_of marshal fills r).0.store.fill_ids ≡ true
  unfolding reconcile_fills seen
  seen-after id [] r h (inl there) = cc there
  seen-after id [] r h (inr there) = there
  seen-after id ((f, db) ∷ fills) r h there =
      elim (Option-cases (reconcile_fill M text_of marshal db f r).1) [
        | inr (e, stopped) ↦ absurd (cc (rw (stopped, reconcile_fills) at h))
        | inl going ↦
            let here : seen f.id (reconcile_fill M text_of marshal db f r).0.store.fill_ids ≡ true =
              seen-posted db f r going in
            rw (going, reconcile_fills)
              (seen-after id fills (reconcile_fill M text_of marshal db f r).0
                (rw (going, reconcile_fills) at h)
                (elim there [
                  | inr before ↦ inr (seen-grows id db f r before)
                  | inl listed ↦ elim (Bool-cases (same f.id id)) [
                    | inl this ↦ inr (rw (← (same_iff f.id id).0 this) here)
                    | inr other ↦ inl (rw other at listed)
                  ]
                ]))
      ]

  again-same :
      (again : List (Fill Decimal × Faults)) (r : Reconciler M text_of marshal)
      → All (λ f. seen f.0.id r.store.fill_ids ≡ true) again
      → let later = (reconcile_fills M text_of marshal again r).0 in
        (later.acct ≡ r.acct) × (later.store.trades ≡ r.store.trades)
  unfolding reconcile_fills
  again-same [] r h = (refl, refl)
  again-same ((f, db) ∷ again) r h =
      let (acct, trades, ids) = seen_fill-same db f r h.0 in
      elim (Option-cases (reconcile_fill M text_of marshal db f r).1) [
        | inr (e, stopped) ↦ rw (stopped, reconcile_fills) (acct, trades)
        | inl going ↦
            let (acct', trades') =
              again-same again (reconcile_fill M text_of marshal db f r).0 (still again h.1 ids) in
            rw (going, reconcile_fills) (acct' ∙ acct, trades' ∙ trades)
      ]
    where
      still :
          (fills : List (Fill Decimal × Faults)) {ids ids' : List String}
          → All (λ g. seen g.0.id ids ≡ true) fills
          → ids' ≡ ids
          → All (λ g. seen g.0.id ids' ≡ true) fills
      still fills all e = subst (λ xs. All (λ g. seen g.0.id xs ≡ true) fills) (sym e) all

  listed-seen :
      (ids : List String) (st : List String) (again : List (Fill Decimal × Faults))
      → ((id : String) → seen id ids ≡ true → seen id st ≡ true)
      → All (λ g. seen g.0.id ids ≡ true) again
      → All (λ g. seen g.0.id st ≡ true) again
  listed-seen ids st [] h all = tt
  listed-seen ids st (g ∷ again) h all = (h g.0.id all.0, listed-seen ids st again h all.1)

  -- Exactly once: fills that were reconciled without an error may be delivered again, in any order,
  -- number and form and with any failures of the store; the accountant and the realized rows stay
  -- as they are.
  pub reconcile_fills-once :
      (fills again : List (Fill Decimal × Faults)) (r : Reconciler M text_of marshal)
      → (reconcile_fills M text_of marshal fills r).1 ≡ none
      → All (λ g. seen g.0.id (ids_of fills) ≡ true) again
      → let first = (reconcile_fills M text_of marshal fills r).0 in
        let later = (reconcile_fills M text_of marshal again first).0 in
        (later.acct ≡ first.acct) × (later.store.trades ≡ first.store.trades)
  reconcile_fills-once fills again r h listed =
      again-same again (reconcile_fills M text_of marshal fills r).0 (
        listed-seen (ids_of fills) _ again (λ id there. seen-after id fills r h (inl there)) listed)
