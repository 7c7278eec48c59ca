-- ===== src/Book/Replay.antt =====
-- What a replay of buffered updates makes of the book.
use bucks.Common.{
  Bool, ap, Result, inr, subst, inl, arith, refl, err, ◌⊎◌, false, ok, [], if◌then◌else◌, true, ◌∷◌,
  List, ◌≡◌,
}
use bucks.Common.Int.{leb_ℤ, ℤ}
use bucks.Book.Contents.{Shows, Contents, all_written, written, set_level-Shows, relabel-Shows}
use bucks.Book.{
  ask, bid, set_level, BookSide, Delta, GapRecoverer, SequencedBook, apply_delta, write_delta,
  replay_deltas, buffer_delta, GapError, gap_error, sequence_gap,
}
use bucks.Money.{DecimalOps}
use bucks.Money.Laws.{OrderLaws}

module _ (M : DecimalOps) where
  open M use {Decimal}

  -- The updates of a stream that follow on an update id, up to the first gap: what is covered is
  -- skipped, and the next one reaches back to the id or below.
  abbrev pub followed : ℤ → List (Delta M) → List (Delta M)
  followed last [] = []
  followed last (d ∷ ds) =
      let skipped = followed last ds in
      let rest = followed d.u ds in
      if leb_ℤ d.u last then skipped else if leb_ℤ d.pu last then d ∷ rest else []

  abbrev pub last_of : ℤ → List (Delta M) → ℤ
  last_of last [] = last
  last_of last (d ∷ ds) = last_of d.u ds

  followed-skip :
      (last : ℤ) (d : Delta M) (ds : List (Delta M))
      → leb_ℤ d.u last ≡ true
      → followed last (d ∷ ds) ≡ followed last ds
  followed-skip last d ds h = rw h refl

  followed-next :
      (last : ℤ) (d : Delta M) (ds : List (Delta M))
      → leb_ℤ d.u last ≡ false
      → leb_ℤ d.pu last ≡ true
      → followed last (d ∷ ds) ≡ d ∷ followed d.u ds
  followed-next last d ds h k = rw (h, k) refl

  followed-gap :
      (last : ℤ) (d : Delta M) (ds : List (Delta M))
      → leb_ℤ d.u last ≡ false
      → leb_ℤ d.pu last ≡ false
      → followed last (d ∷ ds) ≡ []
  followed-gap last d ds h k = rw (h, k) refl

  -- A seeded book that shows the contents up to an update id.
  abbrev pub ShowsUpTo : SequencedBook M → ℤ → Contents M → Type 0
  ShowsUpTo b last f = (b.ready ≡ true) × (b.last_u ≡ last) × Shows M b f

  -- The contents after the updates that follow on an update id.
  abbrev pub ShowsAfter : SequencedBook M → ℤ → List (Delta M) → Contents M → Type 0
  ShowsAfter b last ds f = ShowsUpTo b (last_of last ds) (all_written M ds f)

  pub apply_delta-cases :
      (d : Delta M) (b : SequencedBook M)
      → b.ready ≡ true
      → ((leb_ℤ d.u b.last_u ≡ true) × (apply_delta M d b ≡ (b, ok false)))
        ⊎ ((leb_ℤ d.u b.last_u ≡ false)
            × (leb_ℤ d.pu b.last_u ≡ true)
            × (apply_delta M d b ≡ (write_delta M d b, ok true)))
        ⊎ ((leb_ℤ d.u b.last_u ≡ false)
            × (leb_ℤ d.pu b.last_u ≡ false)
            × (apply_delta M d b ≡ (b, err (gap_error M d b sequence_gap))))
  unfolding apply_delta
  apply_delta-cases d b h = ground (arith, h)

  -- One round of the replay loop, by what `ApplyDelta` returns.
  replay_deltas-step :
      (d : Delta M) (ds : List (Delta M)) (g : GapRecoverer M)
      (r : SequencedBook M × Result GapError Bool)
      → apply_delta M d g.book ≡ r
      → replay_deltas M (d ∷ ds) g ≡ elim r.1 [
        | err gap ↦ g
        | ok true ↦ replay_deltas M ds (buffer_delta M d (record g { book = r.0 }))
        | ok false ↦ replay_deltas M ds g
      ]
  unfolding replay_deltas
  replay_deltas-step d ds g r e =
      ap
        (λ (x : SequencedBook M × Result GapError Bool). elim x.1 as (λ o. GapRecoverer M) [
          | err gap ↦ g
          | ok true ↦ replay_deltas M ds (buffer_delta M d (record g { book = x.0 }))
          | ok false ↦ replay_deltas M ds g
        ])
        e

  pub replay_deltas-submitted :
      (ds : List (Delta M)) (g : GapRecoverer M) → (replay_deltas M ds g).submitted ≡ g.submitted
  unfolding replay_deltas buffer_delta
  replay_deltas-submitted [] g = refl
  replay_deltas-submitted (d ∷ ds) g =
      split (λ b. replay_deltas-submitted ds (buffer_delta M d (record g { book = b })))
        (replay_deltas-submitted ds g) (apply_delta M d g.book)
    where
      split :
          ((b : SequencedBook M)
            → (replay_deltas M ds (buffer_delta M d (record g { book = b }))).submitted
              ≡ g.submitted)
          → (replay_deltas M ds g).submitted ≡ g.submitted
          → (r : SequencedBook M × Result GapError Bool)
          → (elim r.1 as (λ o. GapRecoverer M) [
            | err gap ↦ g
            | ok true ↦ replay_deltas M ds (buffer_delta M d (record g { book = r.0 }))
            | ok false ↦ replay_deltas M ds g
          ]).submitted
            ≡ g.submitted
      split applied skipped (b, err gap) = refl
      split applied skipped (b, ok true) = applied b
      split applied skipped (b, ok false) = skipped

  module _ (laws : OrderLaws M) where
    pub write_delta-Shows :
        (d : Delta M) (b : SequencedBook M) (last : ℤ) (f : Contents M)
        → ShowsUpTo b last f
        → ShowsUpTo (write_delta M d b) d.u (written M d.side d.price d.qty f)
    write_delta-Shows d b last f (ready, at, h) = (
      kept d.side,
      refl,
      relabel-Shows M laws (set_level M d.side d.price d.qty b) d.u
          (set_level M d.side d.price d.qty b).ready _
          (set_level-Shows M laws d.side d.price d.qty b f h),
    )
      where
        kept : (s : BookSide) → (set_level M s d.price d.qty b).ready ≡ true
        kept bid = ready
        kept ask = ready

    pub replay_deltas-Shows :
        (ds : List (Delta M)) (g : GapRecoverer M) (last : ℤ) (f : Contents M)
        → ShowsUpTo g.book last f
        → ShowsAfter (replay_deltas M ds g).book last (followed last ds) f
    unfolding replay_deltas buffer_delta
    replay_deltas-Shows [] g last f h = h
    replay_deltas-Shows (d ∷ ds) g last f (ready, at, h) = elim (apply_delta-cases d g.book ready) [
      | inl (stale, e) ↦
          rw
            (
              followed-skip last d ds (subst (λ x. leb_ℤ d.u x ≡ true) at stale),
              replay_deltas-step d ds g (g.book, ok false) e,
            )
            (replay_deltas-Shows ds g last f (ready, at, h))
      | inr (inl (fresh, chained, e)) ↦
          rw
            (
              followed-next last d ds (subst (λ x. leb_ℤ d.u x ≡ false) at fresh)
                  (subst (λ x. leb_ℤ d.pu x ≡ true) at chained),
              replay_deltas-step d ds g (write_delta M d g.book, ok true) e,
            )
            (replay_deltas-Shows ds (buffer_delta M d (record g { book = write_delta M d g.book }))
              d.u (written M d.side d.price d.qty f)
              (write_delta-Shows d g.book last f (ready, at, h)))
      | inr (inr (fresh, gap, e)) ↦
          rw
            (
              followed-gap last d ds (subst (λ x. leb_ℤ d.u x ≡ false) at fresh)
                  (subst (λ x. leb_ℤ d.pu x ≡ false) at gap),
              replay_deltas-step d ds g (g.book, err (gap_error M d g.book sequence_gap)) e,
            )
            (ready, at, h)
    ]
