-- ===== src/Book/Recovery.antt =====
-- What the book holds after a resync, and after a live update.
use bucks.Book.Replay.{
  replay_deltas-submitted, write_delta-Shows, replay_deltas-Shows, apply_delta-cases, followed,
  ShowsUpTo, ShowsAfter,
}
use bucks.Common.{
  ◌∙◌, Bool, ap, Result, ◌++◌, some, inr, none, subst, Option, inl, refl, err, ◌⊎◌, false, ok, [],
  if◌then◌else◌, true, ◌∷◌, ◌≡◌,
}
use bucks.Common.Int.{leb_ℤ, ℤ}
use bucks.Book.Contents.{Contents, written, contents_of, apply_snapshot-Shows}
use bucks.Book.{
  resync_gap, prune_buffer_through, Delta, GapRecoverer, Snapshot, SequencedBook, apply_delta,
  write_delta, sort_deltas, resync, ResyncReason, buffer_delta, apply_live, apply_snapshot,
  GapError, gap_error, sequence_gap,
}
use bucks.Money.{DecimalOps}
use bucks.Money.Laws.{OrderLaws}

module _ (M : DecimalOps) where
  open M use {Decimal}

  module _ (laws : OrderLaws M) where
    -- Whatever the book was: a resync whose snapshot arrives leaves a seeded book that reads, at every
    -- price of either side, as the levels of the snapshot with those buffered updates written over them,
    -- in the order of their update ids, that follow on the snapshot up to the first gap; its levels
    -- ascend strictly and none is zero; and one event goes out, with the update id that the book has
    -- come to. A resync whose snapshot fails changes nothing.
    pub resync-Shows :
        (reason : ResyncReason) (at : ℤ) (fetched : Option (Snapshot M)) (g : GapRecoverer M)
        → let (g', done) = resync M reason at fetched g in
          ((fetched ≡ none) × (done ≡ false) × (g' ≡ g))
          ⊎ ((snap : Snapshot M) × (fetched ≡ some snap)
              × (done ≡ true)
              × ShowsAfter M g'.book snap.last_update_id
                  (followed M snap.last_update_id (sort_deltas M g.buffer))
                  (contents_of M snap)
              × (g'.submitted
                  ≡ g.submitted
                    ++ (record {
                      symbol = g.symbol;
                      reason = reason;
                      last_update_id = g'.book.last_u;
                      ts = at;
                    })
                      ∷ []))
    unfolding resync apply_snapshot
    resync-Shows reason at none g = inl (refl, refl, refl)
    resync-Shows reason at (some snap) g = inr (
      snap,
      refl,
      refl,
      replay_deltas-Shows M laws (sort_deltas M g.buffer)
          (record g { book = apply_snapshot M snap g.book; buffer = [] }) snap.last_update_id
          (contents_of M snap) (refl, refl, apply_snapshot-Shows M laws snap g.book),
      ap
          (λ events.
            events
            ++ (record {
              symbol = g.symbol;
              reason = reason;
              last_update_id = (resync M reason at (some snap) g).0.book.last_u;
              ts = at;
            })
              ∷ [])
          (replay_deltas-submitted M (sort_deltas M g.buffer)
            (record g { book = apply_snapshot M snap g.book; buffer = [] })),
    )

    apply_live-step :
        (d : Delta M) (at : ℤ) (fetched : Option (Snapshot M)) (g : GapRecoverer M)
        (r : SequencedBook M × Result GapError Bool)
        → g.book.ready ≡ true
        → apply_delta M d g.book ≡ r
        → apply_live M d at fetched g ≡ elim r.1 [
          | ok true ↦
              (prune_buffer_through M r.0.last_u (record (buffer_delta M d g) { book = r.0 }), true)
          | ok false ↦ (buffer_delta M d g, true)
          | err gap ↦ resync M resync_gap at fetched (buffer_delta M d g)
        ]
    unfolding apply_live buffer_delta
    apply_live-step d at fetched g r ready e =
        taken g.book.ready _ (resync M resync_gap at fetched (buffer_delta M d g)) ready
        ∙ ap
            (λ (x : SequencedBook M × Result GapError Bool).
              elim x.1 as (λ o. GapRecoverer M × Bool) [
                | ok true ↦ (
                  prune_buffer_through M x.0.last_u (record (buffer_delta M d g) { book = x.0 }),
                  true,
                )
                | ok false ↦ (buffer_delta M d g, true)
                | err gap ↦ resync M resync_gap at fetched (buffer_delta M d g)
              ])
            e
      where
        taken : {A : Type 0} (b : Bool) (x y : A) → b ≡ true → (if b then x else y) ≡ x
        taken true x y h = refl
        taken false x y h = absurd (cc h)

    -- A live update on a seeded book that shows some contents up to an update id: it changes no level
    -- if its id is covered; it is written over the contents if it reaches back to the id or below, and
    -- the book then shows them up to the id of the update; and otherwise it is a gap, on which the call
    -- is a resync that has the update in its buffer. Without a gap no event goes out.
    pub apply_live-Shows :
        (d : Delta M) (at : ℤ) (fetched : Option (Snapshot M)) (g : GapRecoverer M) (last : ℤ)
        (f : Contents M)
        → ShowsUpTo M g.book last f
        → let (g', done) = apply_live M d at fetched g in
          ((leb_ℤ d.u last ≡ true)
            × (done ≡ true)
            × ShowsUpTo M g'.book last f
            × (g'.submitted ≡ g.submitted))
          ⊎ ((leb_ℤ d.u last ≡ false)
              × (leb_ℤ d.pu last ≡ true)
              × (done ≡ true)
              × ShowsUpTo M g'.book d.u (written M d.side d.price d.qty f)
              × (g'.submitted ≡ g.submitted))
          ⊎ ((leb_ℤ d.u last ≡ false)
              × (leb_ℤ d.pu last ≡ false)
              × (apply_live M d at fetched g ≡ resync M resync_gap at fetched (buffer_delta M d g)))
    unfolding buffer_delta
    apply_live-Shows d at fetched g last f (ready, upto, h) =
        elim (apply_delta-cases M d g.book ready) [
          | inl (stale, e) ↦
              rw (apply_live-step d at fetched g (g.book, ok false) ready e)
                (inl (subst (λ x. leb_ℤ d.u x ≡ true) upto stale, refl, (ready, upto, h), refl))
          | inr (inl (fresh, chained, e)) ↦
              rw (apply_live-step d at fetched g (write_delta M d g.book, ok true) ready e) (
                inr (
                  inl (
                    subst (λ x. leb_ℤ d.u x ≡ false) upto fresh,
                    subst (λ x. leb_ℤ d.pu x ≡ true) upto chained,
                    refl,
                    write_delta-Shows M laws d g.book last f (ready, upto, h),
                    refl,
                  )))
          | inr (inr (fresh, gap, e)) ↦ inr (
              inr (
                subst (λ x. leb_ℤ d.u x ≡ false) upto fresh,
                subst (λ x. leb_ℤ d.pu x ≡ false) upto gap,
                apply_live-step d at fetched g (g.book, err (gap_error M d g.book sequence_gap))
                    ready e,
              ))
        ]
