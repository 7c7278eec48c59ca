-- ===== src/Kernel/Dispatch/Termination.antt =====
-- The drain under handlers that publish events of a lower rank.
use bucks.Common.Text.{lookup}
use bucks.Kernel.Dispatch.{
  mark, drain, submit, reset, advanced, subscribed, popped, deliver, went_backward, unfinished,
  Subscription, subscribe, panicked, subscribes, drain_loop, run_handlers, publish, drained,
  publishes, perform, Kernel, Drained, Act, Event,
}
use bucks.Common.{
  true, ◌+◌, zero, suc, inr, inl, refl, Bool-cases, sym, suc, ap, ◌∙◌, ◌≡◌, arith, ◌<◌, ◌≤◌, ◌++◌,
  All, ℕ, List, ◌∷◌, [],
}
use mathlib.Core.List.{append_assoc, append-nil}

module _ (Payload State : Type 0) (rank : Event Payload State → ℕ) where
  abbrev pub Below : ℕ → List (Event Payload State) → Type 0
  Below r events = All (λ e. rank e < r) events

  -- The events of a handler's acts rank below `r`.
  abbrev pub Falls : ℕ → List (Act Payload State) → Type 0
  Falls r [] = Unit
  Falls r (publishes e ∷ acts) = (rank e < r) × Falls r acts
  Falls r (subscribes topic handler ∷ acts) = Falls r acts

  -- The loop came to its end, with an empty queue or a panic.
  abbrev pub Ends : Drained Payload State → Type 0
  Ends (drained k) = Unit
  Ends (panicked e k) = Unit
  Ends (unfinished k) = ⊥

  Below-append :
      (r : ℕ) (xs ys : List (Event Payload State)) → Below r xs → Below r ys → Below r (xs ++ ys)
  Below-append r [] ys hx hy = hy
  Below-append r (x ∷ xs) ys (first, hx) hy = (first, Below-append r xs ys hx hy)

  Below-mono : (r r' : ℕ) (xs : List (Event Payload State)) → r ≤ r' → Below r xs → Below r' xs
  Below-mono r r' [] h below = tt
  Below-mono r r' (x ∷ xs) h (first, below) = (omega (arith, first, h), Below-mono r r' xs h below)

  -- A queue with something new behind it.
  abbrev Grown : ℕ → List (Event Payload State) → Kernel Payload State → Type 0
  Grown r queue k' =
      (fresh : List (Event Payload State)) × (k'.bus.queue ≡ queue ++ fresh) × Below r fresh

  then-Grown :
      (r : ℕ) (queue : List (Event Payload State)) (k k' : Kernel Payload State)
      → Grown r queue k
      → Grown r k.bus.queue k'
      → Grown r queue k'
  then-Grown r queue k k' (fresh, e, below) (fresh', e', below') = (
    fresh ++ fresh',
    e' ∙ ap (λ q. q ++ fresh') e ∙ append_assoc queue fresh fresh',
    Below-append r fresh fresh' below below',
  )

  perform-Grown :
      (r : ℕ) (acts : List (Act Payload State)) (k : Kernel Payload State)
      → Falls r acts
      → Grown r k.bus.queue (perform Payload State acts k)
  unfolding perform publish subscribe
  perform-Grown r [] k falls = ([], sym (append-nil k.bus.queue), tt)
  perform-Grown r (publishes e ∷ acts) k (lower, falls) =
      then-Grown r k.bus.queue (publish Payload State e k)
        (perform Payload State acts (publish Payload State e k)) (e ∷ [], refl, (lower, tt))
        (perform-Grown r acts (publish Payload State e k) falls)
  perform-Grown r (subscribes topic handler ∷ acts) k falls =
      perform-Grown r acts (record k { bus = subscribe Payload State topic handler k.bus }) falls

  module _ (handle : ℕ → Event Payload State → State → State × List (Act Payload State)) where
    -- Every handler publishes events of a lower rank only.
    abbrev pub IsFalling : Type 0
    IsFalling =
        (handler : ℕ) (e : Event Payload State) (state : State)
        → Falls (rank e) (handle handler e state).1

    run_handlers-Grown :
        (subs : List (Subscription Payload State)) (e : Event Payload State)
        (k : Kernel Payload State)
        → IsFalling
        → Grown (rank e) k.bus.queue (run_handlers Payload State handle subs e k)
    unfolding run_handlers
    run_handlers-Grown [] e k falling = ([], sym (append-nil k.bus.queue), tt)
    run_handlers-Grown (s ∷ subs) e k falling =
        let done = handle s.handler e k.state in
        let k1 : Kernel Payload State = record k { state = done.0 } in
        let k2 = perform Payload State done.1 k1 in
        then-Grown (rank e) k.bus.queue k2 (run_handlers Payload State handle subs e k2)
          (perform-Grown (rank e) done.1 k1 (falling s.handler e k.state))
          (run_handlers-Grown subs e k2 falling)

    abbrev EndsFrom : Kernel Payload State → Type 0
    EndsFrom k = (fuel : ℕ) × Ends (drain_loop Payload State handle fuel k)

    ends_empty : (k : Kernel Payload State) → k.bus.queue ≡ [] → EndsFrom k
    unfolding drain_loop
    ends_empty k e = (0, rw (drain_loop, e) tt)

    -- One round: a panic ends the loop, and otherwise the rest of it does.
    ends_round :
        (e : Event Payload State) (rest : List (Event Payload State)) (k : Kernel Payload State)
        → k.bus.queue ≡ e ∷ rest
        → EndsFrom (deliver Payload State handle e (popped Payload State handle rest k))
        → EndsFrom k
    unfolding drain_loop
    ends_round e rest k queue (fuel, ends) =
        elim (Bool-cases (went_backward Payload State handle e k)) [
          | inl back ↦ (suc fuel, rw (drain_loop, queue, back) tt)
          | inr forward ↦ (suc fuel, rw (drain_loop, queue, forward) ends)
        ]

    -- Events of rank `r` at the head of the queue are dispatched, and leave lower ones.
    ends_generation :
        (r : ℕ) (head : List (Event Payload State)) (tail : List (Event Payload State))
        (k : Kernel Payload State)
        → IsFalling
        → ((queue : List (Event Payload State)) (k : Kernel Payload State)
            → k.bus.queue ≡ queue
            → Below r queue
            → EndsFrom k)
        → k.bus.queue ≡ head ++ tail
        → Below (suc r) head
        → Below r tail
        → EndsFrom k
    ends_generation r [] tail k falling lower e hh ht = lower tail k e ht
    ends_generation r (x ∷ head) tail k falling lower e (first, hh) ht =
        let k' = deliver Payload State handle x (popped Payload State handle (head ++ tail) k) in
        let (fresh, e', below) =
          run_handlers-Grown (subscribed Payload State (lookup x.topic k.bus.subscribers)) x
            (advanced Payload State handle x (popped Payload State handle (head ++ tail) k))
            falling in
        ends_round x (head ++ tail) k e (
          ends_generation r head (tail ++ fresh) k' falling lower
            (e' ∙ append_assoc head tail fresh) hh
            (Below-append r tail fresh ht
              (Below-mono (rank x) r fresh (omega (arith, first)) below)))

    ends-Below :
        (r : ℕ) (queue : List (Event Payload State)) (k : Kernel Payload State)
        → IsFalling
        → k.bus.queue ≡ queue
        → Below r queue
        → EndsFrom k
    ends-Below zero [] k falling e below = ends_empty k e
    ends-Below zero (x ∷ queue) k falling e below = absurd (omega (arith, below.0))
    ends-Below (suc r) queue k falling e below =
        ends_generation r queue [] k falling (λ q k' e' h. ends-Below r q k' falling e' h)
          (e ∙ sym (append-nil queue)) below tt

    -- A number above every rank of a queue.
    bound : List (Event Payload State) → ℕ
    bound [] = 0
    bound (e ∷ events) = suc (rank e) + bound events

    Below-bound : (events : List (Event Payload State)) → Below (bound events) events
    unfolding bound
    Below-bound [] = tt
    Below-bound (e ∷ events) = (
      omega arith,
      Below-mono (bound events) (suc (rank e) + bound events) events (omega arith)
          (Below-bound events),
    )

    reset-Ends : (r : Drained Payload State) → Ends r → Ends (reset Payload State handle r)
    reset-Ends (drained k) h = tt
    reset-Ends (panicked e k) h = tt
    reset-Ends (unfinished k) h = h

    -- If what any handler publishes ranks below the event that it handles, `Submit` on any kernel comes
    -- to an end: with enough fuel the model's `submit` reaches an empty queue or the panic of an event
    -- that is older than the clock.
    pub submit-Ends :
        (e : Event Payload State) (k : Kernel Payload State)
        → IsFalling
        → (fuel : ℕ) × Ends (submit Payload State handle fuel e k)
    unfolding submit drain
    submit-Ends e k falling =
        let k' = mark Payload State handle true (publish Payload State e k) in
        let (fuel, ends) =
          ends-Below (bound k'.bus.queue) k'.bus.queue k' falling refl (Below-bound k'.bus.queue) in
        elim (Bool-cases (publish Payload State e k).bus.dispatching) [
          | inl busy ↦ (0, rw (submit, drain, busy) tt)
          | inr free ↦ (
            fuel,
            rw (submit, drain, free) (reset-Ends (drain_loop Payload State handle fuel k') ends),
          )
        ]
