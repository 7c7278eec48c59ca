-- ===== src/Book/Invariant.antt =====
-- The recoverer over any calls.
use bucks.Common.Int.{ℤ}
use bucks.Common.{
  inr, sym, subst, inl, ◌⊎◌, String, if◌then◌else◌, ◌++◌, false, true, ok, refl, err, zero, Bool,
  suc, none, arith, ◌-◌, some, Result, ◌≤◌, [], drop, ◌≡◌, ◌∷◌, Option, length, List, ℕ,
}
use bucks.Book.{
  ask, set_level, bid, write_delta, resync_gap, prune_buffer_through, sort_deltas, apply_snapshot,
  GapError, Delta, GapRecoverer, Snapshot, SequencedBook, BookSide, levels_of, apply_delta,
  replay_deltas, resync, ResyncReason, resync_reconnect, buffer_delta, kept_above, apply_live,
  reconnect, new_sequenced_book, new_gap_recoverer,
}
use bucks.Book.Levels.{set_levels-Ascending, Ascending}
use bucks.Book.Recovery.{resync-Shows}
use bucks.Money.{DecimalOps}
use bucks.Money.Laws.{OrderLaws}

length-drop : {A : Type 0} (n : ℕ) (xs : List A) → length (drop n xs) ≡ length xs - n
length-drop zero xs = omega arith
length-drop (suc n) [] = omega arith
length-drop (suc n) (x ∷ xs) = omega (arith, length-drop n xs)

module _ (M : DecimalOps) where
  -- A call of the recoverer: a live update, or a reconnect.
  pub data FeedCall : Type 0 where
    applies : Delta M → (at : ℤ) → (fetched : Option (Snapshot M)) → FeedCall
    reconnects : (at : ℤ) → (fetched : Option (Snapshot M)) → FeedCall

  abbrev pub call : FeedCall → GapRecoverer M → GapRecoverer M
  call (applies d at fetched) g = (apply_live M d at fetched g).0
  call (reconnects at fetched) g = (reconnect M at fetched g).0

  unfoldable pub run_calls : List FeedCall → GapRecoverer M → GapRecoverer M
  run_calls [] g = g
  run_calls (c ∷ cs) g = run_calls cs (call c g)

  -- The buffer is within a bound, which is the recoverer's.
  abbrev pub Sized : ℕ → GapRecoverer M → Type 0
  Sized max g = (g.max_buffer ≡ max) × (length g.buffer ≤ max)

  abbrev pub IsOrdered : SequencedBook M → Type 0
  IsOrdered b = (s : BookSide) → Ascending M (levels_of M s b)

  buffer_delta-Sized :
      (max : ℕ) (d : Delta M) (g : GapRecoverer M)
      → g.max_buffer ≡ max
      → Sized max (buffer_delta M d g)
  unfolding buffer_delta
  buffer_delta-Sized max d g e =
      let grown = g.buffer ++ d ∷ [] in
      (e, ground (arith, e, length-drop (length grown - g.max_buffer) grown))

  kept_above-le : (through : ℤ) (ds : List (Delta M)) → length (kept_above M through ds) ≤ length ds
  unfolding kept_above
  kept_above-le through [] = omega arith
  kept_above-le through (d ∷ ds) = ground (arith, kept_above-le through ds)

  replay_deltas-Sized :
      (max : ℕ) (ds : List (Delta M)) (g : GapRecoverer M)
      → Sized max g
      → Sized max (replay_deltas M ds g)
  unfolding replay_deltas
  replay_deltas-Sized max [] g h = h
  replay_deltas-Sized max (d ∷ ds) g h =
      split
        (λ b.
          replay_deltas-Sized max ds (buffer_delta M d (record g { book = b }))
            (buffer_delta-Sized max d (record g { book = b }) h.0))
        (replay_deltas-Sized max ds g h) (apply_delta M d g.book)
    where
      split :
          ((b : SequencedBook M)
            → Sized max (replay_deltas M ds (buffer_delta M d (record g { book = b }))))
          → Sized max (replay_deltas M ds g)
          → (r : SequencedBook M × Result GapError Bool)
          → Sized max (elim r.1 as (λ o. GapRecoverer M) [
            | err gap ↦ g
            | ok true ↦ replay_deltas M ds (buffer_delta M d (record g { book = r.0 }))
            | ok false ↦ replay_deltas M ds g
          ])
      split applied skipped (b, err gap) = h
      split applied skipped (b, ok true) = applied b
      split applied skipped (b, ok false) = skipped

  resync-Sized :
      (max : ℕ) (reason : ResyncReason) (at : ℤ) (fetched : Option (Snapshot M))
      (g : GapRecoverer M)
      → Sized max g
      → Sized max (resync M reason at fetched g).0
  unfolding resync
  resync-Sized max reason at none g h = h
  resync-Sized max reason at (some snap) g h =
      let fresh : GapRecoverer M = record g { book = apply_snapshot M snap g.book; buffer = [] } in
      let replayed = replay_deltas M (sort_deltas M g.buffer) fresh in
      let (max_eq, small) =
        replay_deltas-Sized max (sort_deltas M g.buffer) fresh (h.0, omega arith) in
      (max_eq, omega (arith, small, kept_above-le replayed.book.last_u replayed.buffer))

  apply_live-Sized :
      (max : ℕ) (d : Delta M) (at : ℤ) (fetched : Option (Snapshot M)) (g : GapRecoverer M)
      → Sized max g
      → Sized max (apply_live M d at fetched g).0
  unfolding apply_live
  apply_live-Sized max d at fetched g h =
      split (buffer_delta M d g).book.ready (apply_delta M d (buffer_delta M d g).book)
    where
      kept : Sized max (buffer_delta M d g)
      kept = buffer_delta-Sized max d g h.0

      split :
          (ready : Bool) (r : SequencedBook M × Result GapError Bool)
          → Sized max
              (if ready
                then (elim r.1 as (λ o. GapRecoverer M × Bool) [
                  | ok true ↦ (
                    prune_buffer_through M r.0.last_u (record (buffer_delta M d g) { book = r.0 }),
                    true,
                  )
                  | ok false ↦ (buffer_delta M d g, true)
                  | err gap ↦ resync M resync_gap at fetched (buffer_delta M d g)
                ])
                else resync M resync_gap at fetched (buffer_delta M d g)).0
      split false r = resync-Sized max resync_gap at fetched (buffer_delta M d g) kept
      split true (b, err gap) = resync-Sized max resync_gap at fetched (buffer_delta M d g) kept
      split true (b, ok false) = kept
      split true (b, ok true) =
          (kept.0, omega (arith, kept.1, kept_above-le b.last_u (buffer_delta M d g).buffer))

  module _ (laws : OrderLaws M) where
    write_delta-IsOrdered :
        (d : Delta M) (b : SequencedBook M) → IsOrdered b → IsOrdered (write_delta M d b)
    write_delta-IsOrdered d b h = on d.side
      where
        on :
            (side s : BookSide)
            → Ascending M
                (levels_of M s (record (set_level M side d.price d.qty b) { last_u = d.u }))
        on bid bid = set_levels-Ascending M laws d.price d.qty b.bids (h bid)
        on bid ask = h ask
        on ask bid = h bid
        on ask ask = set_levels-Ascending M laws d.price d.qty b.asks (h ask)

    apply_delta-book :
        (d : Delta M) (b : SequencedBook M)
        → ((apply_delta M d b).0 ≡ b) ⊎ ((apply_delta M d b).0 ≡ write_delta M d b)
    unfolding apply_delta
    apply_delta-book d b = ground arith

    apply_delta-IsOrdered :
        (d : Delta M) (b : SequencedBook M) → IsOrdered b → IsOrdered (apply_delta M d b).0
    apply_delta-IsOrdered d b h = elim (apply_delta-book d b) [
      | inl e ↦ subst IsOrdered (sym e) h
      | inr e ↦ subst IsOrdered (sym e) (write_delta-IsOrdered d b h)
    ]

    resync-IsOrdered :
        (reason : ResyncReason) (at : ℤ) (fetched : Option (Snapshot M)) (g : GapRecoverer M)
        → IsOrdered g.book
        → IsOrdered (resync M reason at fetched g).0.book
    resync-IsOrdered reason at fetched g h = elim (resync-Shows M laws reason at fetched g) [
      | inl (failed, done, e) ↦ subst (λ (x : GapRecoverer M). IsOrdered x.book) (sym e) h
      | inr (snap, found, done, (ready, upto, shows), submitted) ↦ shows.ordered
    ]

    apply_live-IsOrdered :
        (d : Delta M) (at : ℤ) (fetched : Option (Snapshot M)) (g : GapRecoverer M)
        → IsOrdered g.book
        → IsOrdered (apply_live M d at fetched g).0.book
    unfolding apply_live buffer_delta
    apply_live-IsOrdered d at fetched g h =
        split (buffer_delta M d g).book.ready (apply_delta M d g.book)
          (apply_delta-IsOrdered d g.book h)
      where
        resynced : IsOrdered (resync M resync_gap at fetched (buffer_delta M d g)).0.book
        resynced = resync-IsOrdered resync_gap at fetched (buffer_delta M d g) h

        split :
            (ready : Bool) (r : SequencedBook M × Result GapError Bool)
            → IsOrdered r.0
            → IsOrdered
                (if ready
                  then (elim r.1 as (λ o. GapRecoverer M × Bool) [
                    | ok true ↦ (
                      prune_buffer_through M r.0.last_u
                          (record (buffer_delta M d g) { book = r.0 }),
                      true,
                    )
                    | ok false ↦ (buffer_delta M d g, true)
                    | err gap ↦ resync M resync_gap at fetched (buffer_delta M d g)
                  ])
                  else resync M resync_gap at fetched (buffer_delta M d g)).0.book
        split false r k = resynced
        split true (b, err gap) k = resynced
        split true (b, ok false) k = h
        split true (b, ok true) k = k

    -- Both parts of the invariant, over any calls.
    run_calls-kept :
        (max : ℕ) (calls : List FeedCall) (g : GapRecoverer M)
        → IsOrdered g.book
        → Sized max g
        → IsOrdered (run_calls calls g).book × Sized max (run_calls calls g)
    unfolding run_calls
    run_calls-kept max [] g h k = (h, k)
    run_calls-kept max (applies d at fetched ∷ calls) g h k =
        run_calls-kept max calls (apply_live M d at fetched g).0
          (apply_live-IsOrdered d at fetched g h) (apply_live-Sized max d at fetched g k)
    run_calls-kept max (reconnects at fetched ∷ calls) g h k =
        run_calls-kept max calls (reconnect M at fetched g).0
          (resync-IsOrdered resync_reconnect at fetched g h)
          (resync-Sized max resync_reconnect at fetched g k)

    -- After any updates and reconnects of a new recoverer, whatever the snapshots, the prices of each
    -- side ascend strictly with no quantity zero, and at most 4096 updates are buffered.
    pub run_calls-IsOrdered :
        (symbol : String) (calls : List FeedCall)
        → let g = run_calls calls (new_gap_recoverer M symbol (new_sequenced_book M symbol)) in
          IsOrdered g.book × (length g.buffer ≤ 4096)
    run_calls-IsOrdered symbol calls =
        let new = new_gap_recoverer M symbol (new_sequenced_book M symbol) in
        let (ordered, sized) = run_calls-kept 4096 calls new empty (refl, omega arith) in
        (ordered, sized.1)
      where
        empty : IsOrdered (new_sequenced_book M symbol)
        empty bid = tt
        empty ask = tt
