-- ===== src/Kernel/Dispatch.antt =====
-- internal/kernel/bus.go, cache.go and kernel.go: the event loop. Go handlers are closures; here a
-- handler is a number, and `handle` says what the handler does with an event: how it changes the
-- state that handlers share (the cache among it), and what it publishes and subscribes to. A call of
-- `Submit` by a handler publishes, since its drain returns at once.
pub mod Order
pub mod Clocks
pub mod Termination
use bucks.Common.Text.{lookup, insert}
use bucks.Common.{
  zero, ◌+◌, none, if◌then◌else◌, suc, ◌&&◌, true, some, ◌++◌, Option, false, Bool, ℕ, String, List,
  ◌∷◌, [],
}
use bucks.Common.Int.{ℤ, ltb_ℤ, pos}

module _ (Payload State : Type 0) where
  pub record Event : Type 0 where
    pub topic : String
    pub timestamp : ℤ
    pub payload : Payload

  -- What a handler does to the bus.
  pub data Act : Type 0 where
    publishes : Event → Act
    subscribes : String → ℕ → Act

  -- `subscription`
  pub record Subscription : Type 0 where
    pub seq : ℕ
    pub handler : ℕ

  pub record Bus : Type 0 where
    pub subscribers : List (String × List Subscription)
    pub next_seq : ℕ
    pub queue : List Event
    pub dispatching : Bool

  -- With the calls of `Publish` and the events that `onDispatch` let through, the oldest first.
  pub record Kernel : Type 0 where
    pub bus : Bus
    pub now : ℤ
    pub now_set : Bool
    pub state : State
    pub published : List Event
    pub dispatched : List Event

  -- `New`
  unfoldable pub new_kernel : State → Kernel
  new_kernel state = record {
    bus = record { subscribers = []; next_seq = 0; queue = []; dispatching = false };
    now = pos 0;
    now_set = false;
    state = state;
    published = [];
    dispatched = [];
  }

  abbrev pub subscribed : Option (List Subscription) → List Subscription
  subscribed none = []
  subscribed (some subs) = subs

  -- `Subscribe`
  unfoldable pub subscribe : String → ℕ → Bus → Bus
  subscribe topic handler b = record b {
    subscribers =
        insert topic
          (subscribed (lookup topic b.subscribers)
            ++ (record { seq = b.next_seq; handler = handler }) ∷ [])
          b.subscribers;
    next_seq = b.next_seq + 1;
  }

  -- `Publish`
  unfoldable pub publish : Event → Kernel → Kernel
  publish e k = record k {
    bus = record k.bus { queue = k.bus.queue ++ e ∷ [] };
    published = k.published ++ e ∷ [];
  }

  unfoldable pub perform : List Act → Kernel → Kernel
  perform [] k = k
  perform (publishes e ∷ acts) k = perform acts (publish e k)
  perform (subscribes topic handler ∷ acts) k =
      perform acts (record k { bus = subscribe topic handler k.bus })

  -- What ends a drain: an empty queue, the panic of an event that is older than the clock, or, in the
  -- model, the end of the fuel.
  pub data Drained : Type 0 where
    drained unfinished : Kernel → Drained
    panicked : Event → Kernel → Drained

  module _ (handle : ℕ → Event → State → State × List Act) where
    -- `for _, s := range subs { s.handler(b, e) }`
    unfoldable pub run_handlers : List Subscription → Event → Kernel → Kernel
    run_handlers [] e k = k
    run_handlers (s ∷ subs) e k =
        let (state, acts) = handle s.handler e k.state in
        run_handlers subs e (perform acts (record k { state = state }))

    -- `advanceTo`, where it does not panic.
    abbrev pub advanced : Event → Kernel → Kernel
    advanced e k = record k {
      now = e.timestamp;
      now_set = true;
      dispatched = k.dispatched ++ e ∷ [];
    }

    -- The panic of `advanceTo`.
    abbrev pub went_backward : Event → Kernel → Bool
    went_backward e k = k.now_set && ltb_ℤ e.timestamp k.now

    -- An event that was let through is given to the handlers that are subscribed now.
    abbrev pub deliver : Event → Kernel → Kernel
    deliver e k = run_handlers (subscribed (lookup e.topic k.bus.subscribers)) e (advanced e k)

    abbrev pub popped : List Event → Kernel → Kernel
    popped rest k = record k { bus = record k.bus { queue = rest } }

    -- The loop of `drain`.
    unfoldable pub drain_loop : ℕ → Kernel → Drained
    drain_loop zero k = elim k.bus.queue [ [] ↦ drained k | e ∷ rest ↦ unfinished k ]
    drain_loop (suc fuel) k = elim k.bus.queue [
      | [] ↦ drained k
      | e ∷ rest ↦
          if went_backward e (popped rest k)
          then panicked e (popped rest k)
          else drain_loop fuel (deliver e (popped rest k))
    ]

    abbrev pub mark : Bool → Kernel → Kernel
    mark flag k = record k { bus = record k.bus { dispatching = flag } }

    -- The deferred reset of `dispatching`, also behind a panic.
    abbrev pub reset : Drained → Drained
    reset (drained k) = drained (mark false k)
    reset (unfinished k) = unfinished k
    reset (panicked e k) = panicked e (mark false k)

    -- `drain`
    unfoldable pub drain : ℕ → Kernel → Drained
    drain fuel k = if k.bus.dispatching then drained k else reset (drain_loop fuel (mark true k))

    -- `Submit`
    unfoldable pub submit : ℕ → Event → Kernel → Drained
    submit fuel e k = drain fuel (publish e k)

    -- The next event of `Run`, unless a panic unwinds it.
    abbrev pub and_then : Drained → (Kernel → Drained) → Drained
    and_then (drained k) next = next k
    and_then (unfinished k) next = unfinished k
    and_then (panicked e k) next = panicked e k

    -- `Run`
    unfoldable pub run : ℕ → List Event → Kernel → Drained
    run fuel [] k = drained k
    run fuel (e ∷ events) k = and_then (drain fuel (publish e k)) (run fuel events)

    -- `c.pending = nil`, which a panic of `Run` does not come to.
    abbrev pub left_pending : List Event → Drained → List Event
    left_pending pending (drained k) = []
    left_pending pending (unfinished k) = pending
    left_pending pending (panicked e k) = pending

    -- `LiveClock`, its `Feed` and `Drive`: the clock and what the kernel did.
    unfoldable pub feed : Event → List Event → List Event
    feed e pending = pending ++ e ∷ []

    abbrev pub drive : ℕ → List Event → Kernel → List Event × Drained
    drive fuel pending k = let r = run fuel pending k in (left_pending pending r, r)
