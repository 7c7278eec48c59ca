-- ===== src/Lib.antt =====
-- A verification library for bucks, an autonomous trading program: the parts that decide whether
-- an order may go out, that account for what came back, and that keep this true across crashes.
--
-- The parts, and the files that model them:
--
-- - internal/orders/order.go: Orders. `State`, `Side` and `Order` have the source's constructors and
--   fields; the set of applied fills is the list of its ids. A method that mutates the order is a
--   function from an order to the order afterwards and the returned error. Orders/Fills, Lifecycle,
--   Transitions and Totals prove things of it.
-- - internal/orders/journal.go: Orders/Journal. A journal file is its bytes; `append_record` takes how
--   the device ends the write, and `replay` takes what the operating system hands it. json is a pair
--   of parameters, `marshal` and `unmarshal`; `Encodes` says what is relied on of them, for the
--   records at hand only. Order state is folded by the functions of Orders. Its children: Appends has
--   the typed appends; Recovery, InFlight, Roundtrip and Reopened say what a restart finds.
-- - internal/risk/engine.go: Risk/Engine. `check_order` is `CheckOrder`, its stages as functions
--   that are chained as the early returns chain them. A decision keeps the limit, not the prose. The
--   side of a proposal is a `SideValue`, which may be neither a buy nor a sell.
-- - internal/risk/killswitch.go: Risk/KillSwitch. The switch holds what stands in its state file; each
--   call takes the clock's reading and whether the disk commits or at which step it fails.
-- - internal/risk/ratelimit.go: Risk/Backoff. `NewBackoff`, `Delay` and `expWindow` on signed
--   integers of 64 bits; the generator is an argument, and the panic of `Int63n` a value. The token bucket computes with floating point and is left out.
-- - internal/ledger/ledger.go: Ledger. FIFO lots per symbol, with `Seed`, `Apply` and `Position`.
--   Ledger/Basis has `encodeBasis` and `restoreBasis`; json and the texts of decimals are parameters.
-- - internal/ledger/reconciler.go and internal/memory/store.go: Ledger/Reconciler. `LoadState` and
--   `Reconcile` over broker fills, with the tables of the store as explicit state; each fill comes
--   with the store calls that fail on it.
-- - internal/supervisor/supervisor.go: Supervisor. A run of the component is what it returns and when
--   its context is done. The observer of events is left out.
-- - internal/probe/writegate.go: Probe/WriteGate.
-- - internal/kernel/unixnanos.go: Kernel/UnixNanos. The panics of `Add` are values.
-- - internal/kernel/bus.go and kernel.go: Kernel/Dispatch. A handler is a number; what it does to the
--   state that handlers share, publishes and subscribes to is a parameter. The kernel also keeps what
--   was published and what was dispatched. Order, Termination and Clocks prove things of it.
-- - internal/harness/trader.go, report.go and run.go: Harness. Harness/Trader has the state of the loop
--   and the steps of a tick, Harness/Trader/Tick `Tick` and `Heartbeat`, Harness/Report the scheduled
--   report and Harness/Run the loop. A call takes a `Moment`, what the clocks, the disk, the channel,
--   the operator and the broker answer during it, and returns the `World` after it: the trader, its
--   kill switch, the requests with whether the broker accepted them and the alerts with whether the
--   channel delivered them. Harness/Run/Script has the calls of `Run` in a row. Harness/Loop is the step relation of
--   that world: the loop's own calls in any order, halts by others and the runaway guard.
-- - internal/orders/clordid.go: Orders/ClientOrderId. The hash and its text encoding are parameters.
-- - internal/brokers/reconcile.go: Brokers/Reconcile, on what `Replay`, `GetOrder` and `Positions`
--   answer.
-- - internal/backtest/engine.go and money.go, strategy/strategy.go: Backtest. `run_backtest` is
--   `Engine.Run` over any strategy, a state and what it makes of a bar; no open position and no pending
--   signal are `none`. Backtest/Trades has `closeTrade` and `openPosition`, Backtest/Run the loop. The
--   floating-point ratios, the warnings and the fingerprint are left out.
-- - internal/data/book.go: Book. The levels of a side are a list; the slices before and behind the index
--   that `sort.Search` finds are `levels_below` and `levels_from`. A call of `resync` takes what the
--   snapshot function answers, and the events that it submits are kept. Best bid and ask are left out.
-- - internal/orders/money.go: Money. The decimal type of github.com/govalues/decimal is a parameter, a
--   record of the operations that the program calls. Money/Laws states what theorems rely on: exact
--   comparison, monotone rounding, and exact sums of quantities on a lot grid. Money/Whole is an
--   instance, at which Examples applies every theorem.
--
-- How they interact: a tick of the loop asks the kill switch and the gate before it hands an order to
-- the broker, and halts the switch at a drawdown; the order is journaled, then moved by fills; fills
-- also move the ledger, whose realized loss the gate reads. A restart replays the journal, compares it
-- with the broker and opens the kill switch's file.
--
-- Integers and fuel. A number of the source that is not negative is a natural number, any other a
-- signed one; where a product or a sum may leave 64 bits the wrap-around is written out. The loop of
-- `Apply` has one round of fuel for each lot and two more, and the loop of `Supervise` one for each
-- restart and one more; both are proved to be enough, the first
-- for quantities on the lot grid. The dispatch loop of the kernel is as long as its handlers make it; it
-- has fuel, enough of which exists where handlers publish events of a lower rank. All other loops are
-- structural.
--
-- Go maps are lists of pairs in iteration order, over which `lookup` takes the entry of a key.
--
-- Not modelled: mutexes (each call is one step), log and error texts, network and terminal code, and
-- the packages that only call libraries.
pub mod Backtest
pub mod Book
pub mod Brokers
pub mod Common
pub mod Examples
pub mod Harness
pub mod Kernel
pub mod Ledger
pub mod Money
pub mod Orders
pub mod Probe
pub mod Risk
pub mod Supervisor
