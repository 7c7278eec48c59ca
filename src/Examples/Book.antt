-- ===== src/Examples/Book.antt =====
-- Runs of the order book: a resync, and a live update after it.
use bucks.Book.Replay.{followed, ShowsUpTo, ShowsAfter}
use bucks.Common.{
  ◌≤◌, length, ap, sym, subst, inr, inl, ◌++◌, ◌⊎◌, false, refl, none, true, ◌≡◌, some, [], List,
  ◌∷◌, ℕ,
}
use bucks.Common.Int.{leb_ℤ, pos}
use bucks.Money.Whole.{whole, whole-OrderLaws}
use bucks.Book.{
  new_sequenced_book, new_gap_recoverer, resync_gap, apply_live, levels_from, levels_below,
  set_levels, seed_levels, apply_snapshot, apply_delta, place_delta, replay_deltas, BookSide, Delta,
  Level, Snapshot, SequencedBook, GapRecoverer, bid, ask, resync, resync_reconnect, sort_deltas,
  buffer_delta,
}
use bucks.Book.Contents.{written, contents_of, all_written, Contents}
use bucks.Book.Invariant.{run_calls-IsOrdered, IsOrdered, run_calls, FeedCall, applies, reconnects}
use bucks.Book.Recovery.{apply_live-Shows, resync-Shows}

abbrev level : ℕ → ℕ → Level whole
level price qty = record { price = pos price; qty = pos qty }

abbrev depth : Snapshot whole
depth = record {
  symbol = "BTCUSDT";
  last_update_id = pos 100;
  bids = level 99 5 ∷ level 97 2 ∷ level 98 0 ∷ [];
  asks = level 102 4 ∷ level 101 3 ∷ [];
}

abbrev update : BookSide → ℕ → ℕ → ℕ → ℕ → Delta whole
update side price qty before id = record {
  side = side;
  price = pos price;
  qty = pos qty;
  pu = pos before;
  u = pos id;
}

-- In the order of arrival: the second of the chain, one that the snapshot covers, the one that
-- straddles it, and one behind a gap.
abbrev arrived : List (Delta whole)
arrived =
    update ask 101 0 102 103
    ∷ update bid 99 1 98 99
    ∷ update bid 98 7 99 102
    ∷ update ask 103 6 104 105
    ∷ []

abbrev stale_book : SequencedBook whole
stale_book = record {
  symbol = "BTCUSDT";
  bids = level 50 1 ∷ [];
  asks = [];
  last_u = pos 7;
  ready = true;
}

abbrev recoverer : GapRecoverer whole
recoverer = record {
  book = stale_book;
  symbol = "BTCUSDT";
  buffer = arrived;
  max_buffer = 4096;
  submitted = [];
}

abbrev recovered_book : SequencedBook whole
recovered_book = record {
  symbol = "BTCUSDT";
  bids = level 97 2 ∷ level 98 7 ∷ level 99 5 ∷ [];
  asks = level 102 4 ∷ [];
  last_u = pos 103;
  ready = true;
}

abbrev recovered : GapRecoverer whole
recovered = (resync whole resync_reconnect (pos 9) (some depth) recoverer).0

resynced : recovered.book ≡ recovered_book
unfolding resync replay_deltas sort_deltas place_delta apply_delta apply_snapshot buffer_delta
    seed_levels set_levels levels_below levels_from
resynced = refl

resync-Shows_example :
    let (g', done) = resync whole resync_reconnect (pos 9) (some depth) recoverer in
    ((some depth ≡ none) × (done ≡ false) × (g' ≡ recoverer))
    ⊎ ((snap : Snapshot whole) × (some depth ≡ some snap)
        × (done ≡ true)
        × ShowsAfter whole g'.book snap.last_update_id
            (followed whole snap.last_update_id (sort_deltas whole arrived))
            (contents_of whole snap)
        × (g'.submitted
            ≡ []
              ++ (record {
                symbol = "BTCUSDT";
                reason = resync_reconnect;
                last_update_id = g'.book.last_u;
                ts = pos 9;
              })
                ∷ []))
resync-Shows_example =
    resync-Shows whole whole-OrderLaws resync_reconnect (pos 9) (some depth) recoverer

-- The contents that the recovered book shows, and the update that follows on it.
abbrev shown : Contents whole
shown =
    all_written whole (update bid 98 7 99 102 ∷ update ask 101 0 102 103 ∷ [])
      (contents_of whole depth)

abbrev next_update : Delta whole
next_update = update bid 97 0 103 104

recovered-Shows : ShowsUpTo whole recovered.book (pos 103) shown
unfolding resync sort_deltas place_delta
recovered-Shows =
    elim (resync-Shows whole whole-OrderLaws resync_reconnect (pos 9) (some depth) recoverer) [
      | inl (failed, done, same) ↦ absurd (cc failed)
      | inr (snap, e, done, shows, submitted) ↦
          subst
            (λ s.
              ShowsAfter whole recovered.book s.last_update_id
                (followed whole s.last_update_id (sort_deltas whole arrived)) (contents_of whole s))
            (sym (ap (λ o. elim o [ none ↦ depth | some s ↦ s ]) e)) shows
    ]

apply_live-Shows_example :
    let (g', done) = apply_live whole next_update (pos 10) none recovered in
    ((leb_ℤ (pos 104) (pos 103) ≡ true)
      × (done ≡ true)
      × ShowsUpTo whole g'.book (pos 103) shown
      × (g'.submitted ≡ recovered.submitted))
    ⊎ ((leb_ℤ (pos 104) (pos 103) ≡ false)
        × (leb_ℤ (pos 103) (pos 103) ≡ true)
        × (done ≡ true)
        × ShowsUpTo whole g'.book (pos 104) (written whole bid (pos 97) (pos 0) shown)
        × (g'.submitted ≡ recovered.submitted))
    ⊎ ((leb_ℤ (pos 104) (pos 103) ≡ false)
        × (leb_ℤ (pos 103) (pos 103) ≡ false)
        × (apply_live whole next_update (pos 10) none recovered
            ≡ resync whole resync_gap (pos 10) none (buffer_delta whole next_update recovered)))
apply_live-Shows_example =
    apply_live-Shows whole whole-OrderLaws next_update (pos 10) none recovered (pos 103) shown
      recovered-Shows

-- The first update seeds the book; a reconnect fails; an update behind a gap resyncs it.
abbrev feed_calls : List (FeedCall whole)
feed_calls =
    applies (update bid 99 6 100 101) (pos 1) (some depth)
    ∷ reconnects (pos 2) none
    ∷ applies (update ask 105 1 110 111) (pos 3) (some depth)
    ∷ []

run_calls-IsOrdered_example :
    let g =
      run_calls whole feed_calls
        (new_gap_recoverer whole "BTCUSDT" (new_sequenced_book whole "BTCUSDT")) in
    IsOrdered whole g.book × (length g.buffer ≤ 4096)
run_calls-IsOrdered_example = run_calls-IsOrdered whole whole-OrderLaws "BTCUSDT" feed_calls
