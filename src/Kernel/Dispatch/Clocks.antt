-- ===== src/Kernel/Dispatch/Clocks.antt =====
-- The live clock against the clock of a backtest.
use bucks.Kernel.Dispatch.{
  left_pending, publish, panicked, drain, unfinished, drive, and_then, drained, run, Drained,
  Kernel, feed, Act, Event,
}
use bucks.Common.{refl, ◌∙◌, sym, ◌≡◌, ◌++◌, ℕ, List, ◌∷◌, []}
use mathlib.Core.List.{append_assoc, append-nil}

module _ (Payload State : Type 0)
    (handle : ℕ → Event Payload State → State → State × List (Act Payload State)) where
  -- `Feed` of each event of a batch.
  abbrev pub feed_all :
      List (Event Payload State) → List (Event Payload State) → List (Event Payload State)
  feed_all [] pending = pending
  feed_all (e ∷ batch) pending = feed_all batch (feed Payload State handle e pending)

  -- A live session: each batch is fed, and then the clock drives the kernel.
  unfoldable pub live :
      ℕ
      → List (List (Event Payload State))
      → List (Event Payload State)
      → Kernel Payload State
      → Drained Payload State
  live fuel [] pending k = drained k
  live fuel (batch ∷ batches) pending k =
      let (pending', r) = drive Payload State handle fuel (feed_all batch pending) k in
      and_then Payload State handle r (live fuel batches pending')

  abbrev pub flatten : List (List (Event Payload State)) → List (Event Payload State)
  flatten [] = []
  flatten (batch ∷ batches) = batch ++ flatten batches

  feed_all-append :
      (batch pending : List (Event Payload State)) → feed_all batch pending ≡ pending ++ batch
  unfolding feed
  feed_all-append [] pending = sym (append-nil pending)
  feed_all-append (e ∷ batch) pending =
      feed_all-append batch (pending ++ e ∷ []) ∙ append_assoc pending (e ∷ []) batch

  and_then_assoc :
      (r : Drained Payload State) (f g : Kernel Payload State → Drained Payload State)
      → and_then Payload State handle (and_then Payload State handle r f) g
        ≡ and_then Payload State handle r (λ k. and_then Payload State handle (f k) g)
  and_then_assoc (drained k) f g = refl
  and_then_assoc (unfinished k) f g = refl
  and_then_assoc (panicked e k) f g = refl

  and_then_cong :
      (r : Drained Payload State) (f g : Kernel Payload State → Drained Payload State)
      → ((k : Kernel Payload State) → f k ≡ g k)
      → and_then Payload State handle r f ≡ and_then Payload State handle r g
  and_then_cong (drained k) f g h = h k
  and_then_cong (unfinished k) f g h = refl
  and_then_cong (panicked e k) f g h = refl

  run-append :
      (fuel : ℕ) (xs ys : List (Event Payload State)) (k : Kernel Payload State)
      → run Payload State handle fuel (xs ++ ys) k
        ≡ and_then Payload State handle
            (run Payload State handle fuel xs k)
            (run Payload State handle fuel ys)
  unfolding run
  run-append fuel [] ys k = refl
  run-append fuel (x ∷ xs) ys k =
      let first = drain Payload State handle fuel (publish Payload State x k) in
      and_then_cong first (run Payload State handle fuel (xs ++ ys)) _ (run-append fuel xs ys)
      ∙ sym (
          and_then_assoc first (run Payload State handle fuel xs)
            (run Payload State handle fuel ys))

  -- A session that goes on has no event left.
  resumes :
      (fuel : ℕ) (batches : List (List (Event Payload State)))
      (pending : List (Event Payload State)) (r : Drained Payload State)
      → and_then Payload State handle r
          (live fuel batches (left_pending Payload State handle pending r))
        ≡ and_then Payload State handle r (live fuel batches [])
  resumes fuel batches pending (drained k) = refl
  resumes fuel batches pending (unfinished k) = refl
  resumes fuel batches pending (panicked e k) = refl

  -- Whatever the batches, a live session leaves the kernel exactly as a backtest over all their events
  -- in a row, and panics at the same event, if at any.
  pub live-eq-run :
      (fuel : ℕ) (batches : List (List (Event Payload State))) (k : Kernel Payload State)
      → live fuel batches [] k ≡ (drive Payload State handle fuel (flatten batches) k).1
  unfolding live run
  live-eq-run fuel [] k = refl
  live-eq-run fuel (batch ∷ batches) k =
      let fed : feed_all batch [] ≡ batch = feed_all-append batch [] in
      rw fed (
        resumes fuel batches batch (run Payload State handle fuel batch k)
        ∙ and_then_cong (run Payload State handle fuel batch k) (live fuel batches []) _
            (live-eq-run fuel batches)
        ∙ sym (run-append fuel batch (flatten batches) k))
