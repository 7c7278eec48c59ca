-- ===== src/Ledger/Reconciler/Synced.antt =====
-- The accountant in memory against the basis in the store.
use bucks.Common.Int.{leb_ℤ, ℤ}
use bucks.Orders.{seen, Side}
use bucks.Ledger.{stored, LedgerError, apply, Accountant, Position}
use bucks.Common.Text.{same, same_iff, lookup, insert, erase}
use bucks.Ledger.Reconciler.{
  store_failed, apply_failed, applied_fill, Store, reconcile_fills, reconcile_fill, next_cursor,
  Fill, remember_broker_fill, Faults, remember_fill, save_current_state, restore, Reconciler,
}
use bucks.Ledger.Basis.{encode_basis, BasisState}
use bucks.Money.{is_eq, is_gt, DecimalOps}
use bucks.Common.{
  if◌then◌else◌, ◌||◌, true, false, err, refl, ◌⊎◌, ◌&&◌, Bool, Bool-cases, ok, Result, [], ◌∷◌,
  inr, inl, arith, Option-cases, none, some, ◌≡◌, ℕ, Option, String, List,
}

module _ (M : DecimalOps) (text_of : M.Decimal → String)
    (marshal : BasisState → Option (List ℕ)) where
  open M use {Decimal, sign}

  -- The store holds the basis of the accountant at the cursor.
  abbrev pub IsSynced : Reconciler M text_of marshal → Type 0
  IsSynced r =
      (basis : List ℕ) × (encode_basis M text_of marshal r.acct ≡ some basis)
      × (r.store.state ≡ some (r.after, basis))

  erase-new :
      (symbol : String) (p : Position M) (a : Accountant M)
      → lookup symbol a ≡ none
      → erase symbol (insert symbol p a) ≡ a
  unfolding erase insert lookup
  erase-new symbol p [] h = ground (arith, same_iff symbol symbol)
  erase-new symbol p ((name, q) ∷ a) h = ground (arith, erase-new symbol p a)

  insert-back :
      (symbol : String) (p q : Position M) (a : Accountant M)
      → lookup symbol a ≡ some q
      → insert symbol q (insert symbol p a) ≡ a
  unfolding insert lookup
  insert-back symbol p q [] h = cc h
  insert-back symbol p q ((name, old) ∷ a) h =
      ground (arith, insert-back symbol p q a, same_iff symbol symbol, same_iff name symbol)

  -- `restore` undoes what `Apply` stored.
  restore-insert :
      (symbol : String) (p : Position M) (a : Accountant M)
      → restore M text_of marshal symbol (lookup symbol a) (insert symbol p a) ≡ a
  unfolding restore
  restore-insert symbol p a = elim (Option-cases (lookup symbol a)) [
    | inl new ↦ rw new (erase-new symbol p a new)
    | inr (q, old) ↦ rw old (insert-back symbol p q a old)
  ]

  stored-insert :
      (symbol : String) (a a' : Accountant M) (realized : Decimal)
      (done : Option (Position M × Result LedgerError Decimal))
      → stored M symbol a done ≡ some (a', ok realized)
      → (p : Position M) × (a' ≡ insert symbol p a)
  stored-insert symbol a a' realized none h = cc h
  stored-insert symbol a a' realized (some (p, r)) h = (p, cc h)

  apply-insert :
      (symbol : String) (side : Side) (qty px realized : Decimal) (a a' : Accountant M)
      → apply M symbol side qty px a ≡ some (a', ok realized)
      → (p : Position M) × (a' ≡ insert symbol p a)
  unfolding apply
  apply-insert symbol side qty px realized a a' h = elim (Bool-cases (is_gt (sign qty))) [
    | inr none_left ↦ absurd (ground (arith, none_left))
    | inl sized ↦ elim (Bool-cases (is_gt (sign px))) [
      | inr free ↦ absurd (ground (arith, sized, free))
      | inl priced ↦ stored-insert symbol a a' realized _ (rw (sized, priced) at h)
    ]
  ]

  save_current_state-Synced :
      (db : Faults) (at : ℤ) (r : Reconciler M text_of marshal)
      → IsSynced r
      → IsSynced (save_current_state M text_of marshal db at r).0
  unfolding save_current_state
  save_current_state-Synced db at r (basis, e, held) =
      elim (Bool-cases
        (leb_ℤ (next_cursor at r.after) r.after && leb_ℤ r.after (next_cursor at r.after))) [
          | inl same_cursor ↦ rw same_cursor (basis, e, held)
          | inr later ↦ elim (Bool-cases db.save_fails) [
            | inl fails ↦ rw (later, e, fails) (basis, e, held)
            | inr works ↦ rw (later, e, works) (basis, e, refl)
          ]
        ]

  -- What `RememberBrokerFill` may return.
  pub remember_broker_fill-cases :
      (fails : Bool) (id symbol : String) (realized : Decimal) (cursor : ℤ) (basis : List ℕ)
      (st : Store M text_of marshal)
      → let after =
          remember_broker_fill M text_of marshal fails id symbol realized cursor basis st in
        (after ≡ err store_failed)
        ⊎ (((after ≡ ok (st, false)) × (seen id st.fill_ids ≡ true))
            ⊎ ((seen id st.fill_ids ≡ false)
                × ((trades : List (String × Decimal)) × (after
                      ≡ ok (
                        record {
                          fill_ids = id ∷ st.fill_ids;
                          trades = trades;
                          state = some (cursor, basis);
                        },
                        true,
                      )))))
  unfolding remember_broker_fill
  remember_broker_fill-cases fails id symbol realized cursor basis st =
      elim (Bool-cases (same id "" || same symbol "" || fails)) [
        | inl refused ↦ inl (rw refused refl)
        | inr fine ↦ elim (Bool-cases (seen id st.fill_ids)) [
          | inl old ↦ inr (inl (rw (fine, old) refl, old))
          | inr new ↦ inr (
              inr (
                new,
                (
                  (if is_eq (sign realized) then st.trades else (symbol, realized) ∷ st.trades),
                  rw (fine, new) refl,
                ),
              ))
        ]
      ]

  remember_fill-Synced :
      (db : Faults) (f : Fill Decimal) (p : Position M) (realized : Decimal)
      (r : Reconciler M text_of marshal)
      → IsSynced r
      → IsSynced
          (remember_fill M text_of marshal db f
            (lookup f.symbol r.acct)
            realized
            (record r { acct = insert f.symbol p r.acct })).0
  unfolding remember_fill
  remember_fill-Synced db f p realized r s =
      elim (Option-cases (encode_basis M text_of marshal (insert f.symbol p r.acct))) [
        | inl unencoded ↦ rw (unencoded, remember_fill) (rw (restore-insert f.symbol p r.acct) s)
        | inr (basis, e) ↦
            rw (e, remember_fill)
              (elim (remember_broker_fill-cases db.remember_fails f.id f.symbol realized
                (next_cursor f.at r.after) basis r.store) [
                  | inl failed ↦ rw failed (rw (restore-insert f.symbol p r.acct) s)
                  | inr (inl (old, _)) ↦ rw old (rw (restore-insert f.symbol p r.acct) s)
                  | inr (inr (_, (trades, done))) ↦ rw done (basis, e, refl)
                ])
      ]

  -- A round keeps memory and store together, unless `Apply` failed.
  reconcile_fill-Synced :
      (db : Faults) (f : Fill Decimal) (r : Reconciler M text_of marshal)
      → IsSynced r
      → IsSynced (reconcile_fill M text_of marshal db f r).0
        ⊎ ((reconcile_fill M text_of marshal db f r).1 ≡ some apply_failed)
  unfolding reconcile_fill applied_fill
  reconcile_fill-Synced db f r s = elim (Bool-cases (same f.id "")) [
    | inl missing ↦ rw missing (inl s)
    | inr named ↦ elim (Bool-cases db.seen_fails) [
      | inl fails ↦ rw (named, fails) (inl s)
      | inr works ↦ elim (Bool-cases (seen f.id r.store.fill_ids)) [
        | inl old ↦ rw (named, works, old) (inl (save_current_state-Synced db f.at r s))
        | inr new ↦
            rw (named, works, new) (after_apply (apply M f.symbol f.side f.qty f.px r.acct) refl)
      ]
    ]
  ]
    where
      after_apply :
          (done : Option (Accountant M × Result LedgerError Decimal))
          → apply M f.symbol f.side f.qty f.px r.acct ≡ done
          → IsSynced (applied_fill M text_of marshal db f r done).0
            ⊎ ((applied_fill M text_of marshal db f r done).1 ≡ some apply_failed)
      after_apply none h = inl s
      after_apply (some (acct, err e)) h = inr refl
      after_apply (some (acct, ok realized)) h =
          let (p, stored_p) = apply-insert f.symbol f.side f.qty f.px realized r.acct acct h in
          rw stored_p (inl (remember_fill-Synced db f p realized r s))

  -- After any fills and any failures of the store, the basis and the cursor in the store are those
  -- in memory, if they were before; the one exception is an `Apply` that failed.
  pub reconcile_fills-Synced :
      (fills : List (Fill Decimal × Faults)) (r : Reconciler M text_of marshal)
      → IsSynced r
      → IsSynced (reconcile_fills M text_of marshal fills r).0
        ⊎ ((reconcile_fills M text_of marshal fills r).1 ≡ some apply_failed)
  unfolding reconcile_fills
  reconcile_fills-Synced [] r s = inl s
  reconcile_fills-Synced ((f, db) ∷ fills) r s =
      let once = reconcile_fill-Synced db f r s in
      elim (Option-cases (reconcile_fill M text_of marshal db f r).1) [
        | inl going ↦ elim once [
          | inl synced ↦
              rw (going, reconcile_fills)
                (reconcile_fills-Synced fills (reconcile_fill M text_of marshal db f r).0 synced)
          | inr failed ↦ absurd (cc (going, failed))
        ]
        | inr (e, stopped) ↦ elim once [
          | inl synced ↦ rw (stopped, reconcile_fills) (inl synced)
          | inr failed ↦ inr (rw (stopped, reconcile_fills) (cc (stopped, failed)))
        ]
      ]
