-- ===== src/Orders/Journal/Roundtrip.antt =====
-- An order that is journaled as it moves, and its replay.
use bucks.Orders.Journal.Recovery.{replay-torn, NoNewline, Written, recover, fold_records}
use bucks.Common.Text.{same_iff, insert, lookup}
use bucks.Orders.Transitions.{step-Legal, Legal}
use bucks.Orders.Journal.Appends.{intent_record_of, IntentRecord, bare_record}
use bucks.Orders.Journal.{
  file, replay, collect, fold_record, replayed, replayed_fill, reject_event, cancel_event, fill,
  apply_event, Record, apply_record,
}
use bucks.Orders.{is_terminal, new_order, reject, cancel, apply_fill, OrderError, Order}
use bucks.Money.{DecimalOps}
use bucks.Common.{
  ◌∙◌, subst, not, true, ◌++◌, inr, inl, Option-cases, ap, ℕ, refl, Option, ok, [], some, ◌≡◌, none,
  String, List, ◌∷◌,
}
use bucks.Orders.Lifecycle.{Call, fills, cancels, rejects, step, run}

module _ (M : DecimalOps) where
  open M use {Decimal}

  -- The record of a call.
  abbrev pub event_of : String → Call M → Record M
  event_of id (fills fill_id qty px) = record (bare_record M fill id) {
    fill_id = fill_id;
    qty = some qty;
    px = some px;
  }
  event_of id cancels = bare_record M cancel_event id
  event_of id rejects = bare_record M reject_event id

  -- The records of those calls that returned no error.
  unfoldable pub journaled : List (Call M) → Order M → List (Record M)
  journaled [] o = []
  journaled (c ∷ cs) o =
      let rest = journaled cs (step M c o).0 in
      elim (step M c o).1 [ none ↦ event_of o.cl_ord_id c ∷ rest | some e ↦ rest ]

  replayed_fill-ok :
      (r : Order M × Option OrderError) → r.1 ≡ none → replayed_fill M r ≡ ok (some r.0)
  replayed_fill-ok (p, none) e = refl
  replayed_fill-ok (p, some failure) e = cc e

  replayed-ok : (r : Order M × Option OrderError) → r.1 ≡ none → replayed M r ≡ ok (some r.0)
  replayed-ok (p, none) e = refl
  replayed-ok (p, some failure) e = cc e

  -- A call that succeeded is replayed by its record.
  apply_record-event :
      (c : Call M) (o : Order M)
      → (step M c o).1 ≡ none
      → apply_record M (some o) (event_of o.cl_ord_id c) ≡ ok (some (step M c o).0)
  unfolding apply_record apply_event step
  apply_record-event (fills fill_id qty px) o h = replayed_fill-ok (apply_fill M fill_id qty px o) h
  apply_record-event cancels o h = replayed-ok (cancel M o) h
  apply_record-event rejects o h = replayed-ok (reject M o) h

  event_of-cl_ord_id : (id : String) (c : Call M) → (event_of id c).cl_ord_id ≡ id
  event_of-cl_ord_id id (fills fill_id qty px) = refl
  event_of-cl_ord_id id cancels = refl
  event_of-cl_ord_id id rejects = refl

  step-cl_ord_id : (c : Call M) (o : Order M) → (step M c o).0.cl_ord_id ≡ o.cl_ord_id
  step-cl_ord_id c o = go (step M c o) (step-Legal M c o)
    where
      go : (r : Order M × Option OrderError) → Legal M o r → r.0.cl_ord_id ≡ o.cl_ord_id
      go (p, none) h = h.1.0
      go (p, some e) h = ap (λ (q : Order M). q.cl_ord_id) h

  step-failed :
      (c : Call M) (o : Order M) (e : OrderError) → (step M c o).1 ≡ some e → (step M c o).0 ≡ o
  step-failed c o e h = go (step M c o) (step-Legal M c o) h
    where
      go : (r : Order M × Option OrderError) → Legal M o r → r.1 ≡ some e → r.0 ≡ o
      go (p, none) legal h = cc h
      go (p, some failure) legal h = legal

  -- A record on the one entry of its id.
  fold_record-one :
      (rec : Record M) (o p : Order M)
      → apply_record M (some o) rec ≡ ok (some p)
      → fold_record M ((rec.cl_ord_id, some o) ∷ []) rec ≡ ok ((rec.cl_ord_id, some p) ∷ [])
  unfolding fold_record lookup insert
  fold_record-one rec o p h = rw ((same_iff rec.cl_ord_id rec.cl_ord_id).1 refl, h) refl

  fold_record-event :
      (id : String) (c : Call M) (o p : Order M)
      → apply_record M (some o) (event_of id c) ≡ ok (some p)
      → fold_record M ((id, some o) ∷ []) (event_of id c) ≡ ok ((id, some p) ∷ [])
  fold_record-event id (fills fill_id qty px) o p h =
      fold_record-one (event_of id (fills fill_id qty px)) o p h
  fold_record-event id cancels o p h = fold_record-one (event_of id cancels) o p h
  fold_record-event id rejects o p h = fold_record-one (event_of id rejects) o p h

  module _ (marshal : Record M → Option (List ℕ)) (unmarshal : List ℕ → Option (Record M)) where
    fold_records-journaled :
        (cs : List (Call M)) (id : String) (o : Order M)
        → o.cl_ord_id ≡ id
        → fold_records M marshal unmarshal (journaled cs o) ((id, some o) ∷ [])
          ≡ ok ((id, some (run M cs o)) ∷ [])
    unfolding journaled fold_records run
    fold_records-journaled [] id o h = refl
    fold_records-journaled (c ∷ cs) id o h = elim (Option-cases (step M c o).1) [
      | inl fine ↦
          let event =
            fold_record-event o.cl_ord_id c o (step M c o).0 (apply_record-event c o fine) in
          let event_id =
            subst
              (λ x.
                fold_record M ((x, some o) ∷ []) (event_of o.cl_ord_id c)
                ≡ ok ((x, some (step M c o).0) ∷ []))
              h event in
          rw (fine, journaled)
            (rw (event_id, fold_records)
              (fold_records-journaled cs id (step M c o).0 (step-cl_ord_id c o ∙ h)))
      | inr (e, failed) ↦
          rw (failed, journaled) (rw (step-failed c o e failed) (fold_records-journaled cs id o h))
    ]

    recover-journaled :
        (cs : List (Call M)) (rec : IntentRecord M)
        → let o = new_order M rec.cl_ord_id rec.strategy rec.symbol rec.side rec.qty rec.px in
          recover M marshal unmarshal (intent_record_of M rec ∷ journaled cs o)
          ≡ ok
              (record { order = run M cs o; in_flight = not (is_terminal (run M cs o).state) } ∷ [])
    unfolding recover fold_records collect fold_record apply_record apply_event intent_record_of
        lookup insert new_order
    recover-journaled cs rec =
        let o = new_order M rec.cl_ord_id rec.strategy rec.symbol rec.side rec.qty rec.px in
        rw (fold_records-journaled cs rec.cl_ord_id o refl) refl

    -- An order that is journaled as it moves, each call that returned no error behind its intent,
    -- comes back exactly as it was in memory, also when a crash tears the line being written; it
    -- is handed over as in flight exactly when it is not closed.
    pub replay-journaled :
        (cs : List (Call M)) (rec : IntentRecord M) (bytes tail : List ℕ)
        → Written M marshal unmarshal
            (intent_record_of M rec
              ∷ journaled cs
                  (new_order M rec.cl_ord_id rec.strategy rec.symbol rec.side rec.qty rec.px))
            bytes
        → NoNewline tail
        → let o = new_order M rec.cl_ord_id rec.strategy rec.symbol rec.side rec.qty rec.px in
          replay M unmarshal (file (bytes ++ tail) true)
          ≡ ok
              (record { order = run M cs o; in_flight = not (is_terminal (run M cs o).state) } ∷ [])
    replay-journaled cs rec bytes tail w h =
        let o = new_order M rec.cl_ord_id rec.strategy rec.symbol rec.side rec.qty rec.px in
        replay-torn M marshal unmarshal (intent_record_of M rec ∷ journaled cs o) bytes tail w h
        ∙ recover-journaled cs rec
