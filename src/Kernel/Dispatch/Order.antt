-- ===== src/Kernel/Dispatch/Order.antt =====
-- The events that are dispatched against those that were published.
use bucks.Common.Text.{lookup}
use bucks.Kernel.Dispatch.{
  mark, run, and_then, drain, reset, subscribed, popped, deliver, advanced, Subscription,
  drain_loop, went_backward, run_handlers, subscribe, subscribes, panicked, publishes, unfinished,
  Act, drained, perform, publish, Drained, Kernel, Event,
}
use bucks.Common.{
  zero, Bool-cases, suc, sym, List-cases, subst, Bool, inr, inl, false, ℕ, refl, ◌⊎◌, ◌∙◌, true, ap,
  arith, ◌++◌, ◌≡◌, All, List, ◌∷◌, [],
}
use bucks.Common.Int.{ℤ, ◌≤ℤ◌, ◌<ℤ◌}
use mathlib.Core.List.{append_assoc, append-nil}

module _ (Payload State : Type 0) where
  -- No event of the list is before one that stands in front of it.
  abbrev pub IsChronological : List (Event Payload State) → Type 0
  IsChronological [] = Unit
  IsChronological (e ∷ events) =
      All (λ later. e.timestamp ≤ℤ later.timestamp) events × IsChronological events

  -- What was published is what was dispatched and then the queue.
  abbrev pub IsFifo : Kernel Payload State → Type 0
  IsFifo k = k.published ≡ k.dispatched ++ k.bus.queue

  -- The dispatched events are in the order of their times and at most at the clock's time.
  abbrev pub ClockedAt : List (Event Payload State) → (now : ℤ) → (now_set : Bool) → Type 0
  ClockedAt dispatched now now_set =
      IsChronological dispatched
      × All (λ e. e.timestamp ≤ℤ now) dispatched
      × ((now_set ≡ true) ⊎ (dispatched ≡ []))

  abbrev pub IsClocked : Kernel Payload State → Type 0
  IsClocked k = ClockedAt k.dispatched k.now k.now_set

  -- What holds of the kernel however a run ended. Of a drained one, all that was published was
  -- dispatched; a panic has an event before the clock's time, which is the next that was published.
  abbrev pub Ordered : Drained Payload State → Type 0
  Ordered (drained k) = (k.published ≡ k.dispatched) × IsClocked k × (k.bus.queue ≡ [])
  Ordered (unfinished k) = IsFifo k × IsClocked k
  Ordered (panicked e k) =
      (k.published ≡ k.dispatched ++ e ∷ k.bus.queue) × IsClocked k × (e.timestamp <ℤ k.now)

  All-snoc :
      {A : Type 0} (P : A → Type 0) (xs : List A) (x : A) → All P xs → P x → All P (xs ++ x ∷ [])
  All-snoc P [] x all h = (h, tt)
  All-snoc P (y ∷ xs) x (first, all) h = (first, All-snoc P xs x all h)

  IsChronological-snoc :
      (events : List (Event Payload State)) (e : Event Payload State)
      → IsChronological events
      → All (λ x. x.timestamp ≤ℤ e.timestamp) events
      → IsChronological (events ++ e ∷ [])
  IsChronological-snoc [] e sorted below = (tt, tt)
  IsChronological-snoc (x ∷ events) e (first, sorted) (h, below) =
      (All-snoc _ events e first h, IsChronological-snoc events e sorted below)

  below_later :
      (events : List (Event Payload State)) (t t' : ℤ)
      → t ≤ℤ t'
      → All (λ e. e.timestamp ≤ℤ t) events
      → All (λ e. e.timestamp ≤ℤ t') events
  below_later [] t t' h below = tt
  below_later (e ∷ events) t t' h (first, below) =
      (omega (arith, h, first), below_later events t t' h below)

  -- Publishing and subscribing keep the order and leave the clock alone.
  abbrev Kept : Kernel Payload State → Kernel Payload State → Type 0
  Kept k k' =
      IsFifo k' × (k'.dispatched ≡ k.dispatched) × (k'.now ≡ k.now) × (k'.now_set ≡ k.now_set)

  publish-IsFifo :
      (e : Event Payload State) (k : Kernel Payload State)
      → IsFifo k
      → IsFifo (publish Payload State e k)
  unfolding publish
  publish-IsFifo e k fifo =
      ap (λ events. events ++ e ∷ []) fifo ∙ append_assoc k.dispatched k.bus.queue (e ∷ [])

  perform-Kept :
      (acts : List (Act Payload State)) (k : Kernel Payload State)
      → IsFifo k
      → Kept k (perform Payload State acts k)
  unfolding perform publish subscribe
  perform-Kept [] k fifo = (fifo, refl, refl, refl)
  perform-Kept (publishes e ∷ acts) k fifo =
      perform-Kept acts (publish Payload State e k) (publish-IsFifo e k fifo)
  perform-Kept (subscribes topic handler ∷ acts) k fifo =
      perform-Kept acts (record k { bus = subscribe Payload State topic handler k.bus }) fifo

  module _ (handle : ℕ → Event Payload State → State → State × List (Act Payload State)) where
    run_handlers-Kept :
        (subs : List (Subscription Payload State)) (e : Event Payload State)
        (k : Kernel Payload State)
        → IsFifo k
        → Kept k (run_handlers Payload State handle subs e k)
    unfolding run_handlers
    run_handlers-Kept [] e k fifo = (fifo, refl, refl, refl)
    run_handlers-Kept (s ∷ subs) e k fifo =
        let done = handle s.handler e k.state in
        let k' = perform Payload State done.1 (record k { state = done.0 }) in
        let (fifo', d, n, t) = perform-Kept done.1 (record k { state = done.0 }) fifo in
        let (fifo'', d', n', t') = run_handlers-Kept subs e k' fifo' in
        (fifo'', d' ∙ d, n' ∙ n, t' ∙ t)

    same-IsClocked :
        (k k' : Kernel Payload State)
        → k'.dispatched ≡ k.dispatched
        → k'.now ≡ k.now
        → k'.now_set ≡ k.now_set
        → IsClocked k
        → IsClocked k'
    same-IsClocked k k' d n t h =
        subst (λ d'. ClockedAt d' k'.now k'.now_set) (sym d)
          (subst (λ n'. ClockedAt k.dispatched n' k'.now_set) (sym n)
            (subst (λ t'. ClockedAt k.dispatched k.now t') (sym t) h))

    advanced-IsClocked :
        (e : Event Payload State) (k : Kernel Payload State)
        → went_backward Payload State handle e k ≡ false
        → IsClocked k
        → IsClocked (advanced Payload State handle e k)
    advanced-IsClocked e k forward (sorted, below, inl set) =
        let below' = below_later k.dispatched k.now e.timestamp (ground arith) below in
        (
          IsChronological-snoc k.dispatched e sorted below',
          All-snoc _ k.dispatched e below' (omega arith),
          inl refl,
        )
    advanced-IsClocked e k forward (sorted, below, inr empty) =
        rw empty ((tt, tt), (omega arith, tt), inl refl)

    -- One round of the loop keeps the order and the clock.
    deliver-Ordered :
        (e : Event Payload State) (rest : List (Event Payload State)) (k : Kernel Payload State)
        → k.bus.queue ≡ e ∷ rest
        → went_backward Payload State handle e k ≡ false
        → IsFifo k
        → IsClocked k
        → let k' = deliver Payload State handle e (popped Payload State handle rest k) in
          IsFifo k' × IsClocked k'
    deliver-Ordered e rest k queue forward fifo clocked =
        let k1 = advanced Payload State handle e (popped Payload State handle rest k) in
        let k' = deliver Payload State handle e (popped Payload State handle rest k) in
        let (fifo', d, n, t) =
          run_handlers-Kept (subscribed Payload State (lookup e.topic k.bus.subscribers)) e k1 (
            fifo
            ∙ ap (λ q. k.dispatched ++ q) queue
            ∙ sym (append_assoc k.dispatched (e ∷ []) rest)) in
        (fifo', same-IsClocked k1 k' d n t (advanced-IsClocked e k forward clocked))

    drain_loop-Ordered :
        (fuel : ℕ) (k : Kernel Payload State)
        → IsFifo k
        → IsClocked k
        → Ordered (drain_loop Payload State handle fuel k)
    unfolding drain_loop
    drain_loop-Ordered zero k fifo clocked = elim (List-cases k.bus.queue) [
      | inl e ↦
          rw (drain_loop, e)
            (fifo ∙ ap (λ q. k.dispatched ++ q) e ∙ append-nil k.dispatched, clocked, e)
      | inr (e, rest, queue) ↦ rw (drain_loop, queue) (fifo, clocked)
    ]
    drain_loop-Ordered (suc fuel) k fifo clocked = elim (List-cases k.bus.queue) [
      | inl e ↦
          rw (drain_loop, e)
            (fifo ∙ ap (λ q. k.dispatched ++ q) e ∙ append-nil k.dispatched, clocked, e)
      | inr (e, rest, queue) ↦ elim (Bool-cases (went_backward Payload State handle e k)) [
        | inl back ↦
            rw (drain_loop, queue, back)
              (fifo ∙ ap (λ q. k.dispatched ++ q) queue, clocked, ground arith)
        | inr forward ↦
            rw (drain_loop, queue, forward)
              (let (fifo', clocked') = deliver-Ordered e rest k queue forward fifo clocked in
                drain_loop-Ordered fuel
                  (deliver Payload State handle e (popped Payload State handle rest k)) fifo'
                  clocked')
      ]
    ]

    -- Nothing is queued or being dispatched, and what was published was dispatched in order.
    abbrev pub IsIdle : Kernel Payload State → Type 0
    IsIdle k = Ordered (drained k) × (k.bus.dispatching ≡ false)

    -- What `Run` leaves behind: an idle kernel, if it was not stopped by a panic.
    abbrev pub Ran : Drained Payload State → Type 0
    Ran (drained k) = IsIdle k
    Ran (unfinished k) = Ordered (unfinished k)
    Ran (panicked e k) = Ordered (panicked e k)

    reset-Ran : (r : Drained Payload State) → Ordered r → Ran (reset Payload State handle r)
    reset-Ran (drained k) h = (h, refl)
    reset-Ran (unfinished k) h = h
    reset-Ran (panicked e k) h = h

    submit-Ran :
        (fuel : ℕ) (e : Event Payload State) (k : Kernel Payload State)
        → IsIdle k
        → Ran (drain Payload State handle fuel (publish Payload State e k))
    unfolding drain publish
    submit-Ran fuel e k ((fifo, clocked, empty), free) =
        let k' = mark Payload State handle true (publish Payload State e k) in
        rw free (
          reset-Ran (drain_loop Payload State handle fuel k') (
            drain_loop-Ordered fuel k'
              (publish-IsFifo e k
                (fifo ∙ sym (append-nil k.dispatched) ∙ ap (λ q. k.dispatched ++ q) (sym empty)))
              clocked))

    and_then-Ran :
        (r : Drained Payload State) (next : Kernel Payload State → Drained Payload State)
        → Ran r
        → ((k : Kernel Payload State) → IsIdle k → Ran (next k))
        → Ran (and_then Payload State handle r next)
    and_then-Ran (drained k) next h on = on k h
    and_then-Ran (unfinished k) next h on = h
    and_then-Ran (panicked e k) next h on = h

    -- From an idle kernel, as a new one with any subscriptions is, `Run` dispatches exactly what it
    -- and the handlers publish, in the order of publishing, and the times of dispatched events never
    -- decrease; it leaves the kernel idle. Where it panics, the events before were dispatched like
    -- this, and the next published event is the one that is older than the clock.
    pub run-Ran :
        (fuel : ℕ) (events : List (Event Payload State)) (k : Kernel Payload State)
        → IsIdle k
        → Ran (run Payload State handle fuel events k)
    unfolding run
    run-Ran fuel [] k idle = idle
    run-Ran fuel (e ∷ events) k idle =
        and_then-Ran (drain Payload State handle fuel (publish Payload State e k))
          (run Payload State handle fuel events) (submit-Ran fuel e k idle) (run-Ran fuel events)
