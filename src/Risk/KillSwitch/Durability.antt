-- ===== src/Risk/KillSwitch/Durability.antt =====
-- The halt across restarts and failed writes.
use bucks.Common.Int.{pos, ℤ}
use bucks.Risk.KillSwitch.{
  Halted, running, broker_halted, query_failed, not_registered, answers, app_halted, BrokerLayer,
  is_halted, persist_failed, PersistStep, no_halt, unreadable_reason, manual, opened_with, fails_at,
  commits, guard_disabled, unreadable, record_order, absent, corrupt, holds, HaltKind, clear,
  KillSwitchError, StateFile, halt, open_switch, Disk, KillSwitch,
}
use bucks.Common.{
  inr, inl, some, ◌⊎◌, none, sym, All, refl, false, true, [], err, ok, ◌≡◌, Bool, String, arith,
  ◌∷◌, Result, List,
}

-- What may happen to a switch: calls, each at a time and with a disk that commits or fails, and
-- restarts of the program.
pub data Op : Type 0 where
  halts : Disk → ℤ → String → HaltKind → Op
  clears records : Disk → ℤ → Op
  restarts : ℤ → Op

-- A restart that cannot read the file brings no switch up.
unfoldable pub reopened : ℤ → KillSwitch → Result KillSwitchError KillSwitch
unfolding open_switch
reopened now k = open_switch k.runaway_window k.max_orders_per_window now k.path

abbrev or_same : KillSwitch → Result KillSwitchError KillSwitch → KillSwitch
or_same k (ok k') = k'
or_same k (err e) = k

unfoldable pub step : Op → KillSwitch → KillSwitch
unfolding reopened halt clear record_order guard_disabled
step (halts disk now reason kind) k = (halt disk now reason kind k).0
step (clears disk now) k = (clear disk now k).0
step (records disk now) k = (record_order disk now k).0
step (restarts now) k = or_same k (reopened now k)

unfoldable pub run : List Op → KillSwitch → KillSwitch
run [] k = k
run (op ∷ ops) k = run ops (step op k)

-- The flag that a restart would read from the file.
abbrev pub Agrees : StateFile → Bool → Type 0
Agrees (holds st) halted = st.halted ≡ halted
Agrees corrupt halted = halted ≡ true
Agrees absent halted = halted ≡ false
Agrees unreadable halted = ⊥

abbrev pub IsSynced : KillSwitch → Type 0
IsSynced k = Agrees k.path k.state.halted

pub open_switch-IsSynced :
    (window max now : ℤ) (path : StateFile) (k : KillSwitch)
    → open_switch window max now path ≡ ok k
    → IsSynced k
unfolding open_switch
open_switch-IsSynced window max now (holds st) k h = ground arith
open_switch-IsSynced window max now corrupt k h = ground arith
open_switch-IsSynced window max now absent k h = ground arith
open_switch-IsSynced window max now unreadable k h = cc h

open_switch-Agrees :
    (window max now : ℤ) (path : StateFile) (halted : Bool)
    → Agrees path halted
    → (k : KillSwitch) × (open_switch window max now path ≡ ok k) × (k.state.halted ≡ halted)
unfolding open_switch
open_switch-Agrees window max now (holds st) halted h =
    (opened_with window max (holds st) st, refl, h)
open_switch-Agrees window max now corrupt halted h = (
  opened_with window max corrupt
      (record { halted = true; kind = manual; reason = unreadable_reason; halted_at = now }),
  refl,
  sym h,
)
open_switch-Agrees window max now absent halted h = (
  opened_with window max absent
      (record { halted = false; kind = no_halt; reason = ""; halted_at = pos 0 }),
  refl,
  sym h,
)
open_switch-Agrees window max now unreadable halted h = absurd h

step-IsSynced : (op : Op) (k : KillSwitch) → IsSynced k → IsSynced (step op k)
unfolding step
step-IsSynced (halts disk now reason kind) k s = ground arith
step-IsSynced (clears disk now) k s = ground arith
step-IsSynced (records disk now) k s = ground arith
step-IsSynced (restarts now) k s = ground arith

run-IsSynced : (ops : List Op) (k : KillSwitch) → IsSynced k → IsSynced (run ops k)
unfolding run
run-IsSynced [] k s = s
run-IsSynced (op ∷ ops) k s = run-IsSynced ops (step op k) (step-IsSynced op k s)

-- A switch that was opened, and then called and restarted in any way, with any of its writes
-- failing, can be opened again, and comes up halted exactly when it was halted.
pub run-reopened :
    (window max now later : ℤ) (path : StateFile) (k : KillSwitch) (ops : List Op)
    → open_switch window max now path ≡ ok k
    → (k' : KillSwitch) × (reopened later (run ops k) ≡ ok k')
      × (k'.state.halted ≡ (run ops k).state.halted)
unfolding reopened
run-reopened window max now later path k ops h =
    open_switch-Agrees (run ops k).runaway_window (run ops k).max_orders_per_window later
      (run ops k).path (run ops k).state.halted
      (run-IsSynced ops k (open_switch-IsSynced window max now path k h))

-- Every operation but `Clear`.
abbrev pub NotClear : Op → Type 0
NotClear (halts disk now reason kind) = Unit
NotClear (clears disk now) = ⊥
NotClear (records disk now) = Unit
NotClear (restarts now) = Unit

step-halted :
    (op : Op) (k : KillSwitch)
    → IsSynced k
    → NotClear op
    → k.state.halted ≡ true
    → (step op k).state.halted ≡ true
unfolding step
step-halted (halts disk now reason kind) k s n h = ground arith
step-halted (clears disk now) k s n h = absurd n
step-halted (records disk now) k s n h = ground arith
step-halted (restarts now) k s n h = ground arith

run-halted_from :
    (ops : List Op) (k : KillSwitch)
    → IsSynced k
    → All NotClear ops
    → k.state.halted ≡ true
    → (run ops k).state.halted ≡ true
unfolding run
run-halted_from [] k s n h = h
run-halted_from (op ∷ ops) k s n h =
    run-halted_from ops (step op k) (step-IsSynced op k s) n.1 (step-halted op k s n.0 h)

pub Halted-cases :
    (h : Halted)
    → (h ≡ running)
      ⊎ (((reason : String) × (h ≡ app_halted reason))
          ⊎ ((reason : String) × (h ≡ broker_halted reason)))
Halted-cases running = inl refl
Halted-cases (app_halted reason) = inr (inl (reason, refl))
Halted-cases (broker_halted reason) = inr (inr (reason, refl))

pub is_halted-app :
    (layer : BrokerLayer) (k : KillSwitch)
    → k.state.halted ≡ true
    → is_halted layer k ≡ app_halted k.state.reason
unfolding is_halted
is_halted-app not_registered k h = rw h refl
is_halted-app query_failed k h = rw h refl
is_halted-app (answers true reason) k h = rw h refl
is_halted-app (answers false reason) k h = rw h refl

-- A halt is lifted by `Clear` only: a halted switch is halted after any further calls other than
-- `Clear` and any restarts, and `IsHalted` reports it with its reason, whatever the broker's layer
-- answers.
pub run-halted :
    (window max now : ℤ) (path : StateFile) (k : KillSwitch) (before after : List Op)
    (layer : BrokerLayer)
    → open_switch window max now path ≡ ok k
    → (run before k).state.halted ≡ true
    → All NotClear after
    → let later = run after (run before k) in
      (later.state.halted ≡ true) × (is_halted layer later ≡ app_halted later.state.reason)
run-halted window max now path k before after layer h halted n =
    let still : (run after (run before k)).state.halted ≡ true =
      run-halted_from after (run before k)
        (run-IsSynced before k (open_switch-IsSynced window max now path k h)) n halted in
    (still, is_halted-app layer (run after (run before k)) still)

-- `Halt` on a halted switch changes nothing and returns no error, so the first cause stays. On a
-- running switch it either commits the new cause to memory and disk alike, where the disk commits;
-- or it returns the error of the step that failed and leaves the switch as it was.
pub halt_commits :
    (disk : Disk) (now : ℤ) (reason : String) (kind : HaltKind) (k : KillSwitch)
    → let (after, failure) = halt disk now reason kind k in
      ((k.state.halted ≡ true) × (after ≡ k) × (failure ≡ none))
      ⊎ (((k.state.halted ≡ false)
            × (disk ≡ commits)
            × (failure ≡ none)
            × (after.state
                ≡ record { halted = true; kind = kind; reason = reason; halted_at = now })
            × (after.path ≡ holds after.state))
          ⊎ ((k.state.halted ≡ false)
              × (after ≡ k)
              × ((at : PersistStep) × (disk ≡ fails_at at) × (failure ≡ some (persist_failed at)))))
unfolding halt
halt_commits commits now reason kind k = ground arith
halt_commits (fails_at at) now reason kind k = ground arith

-- `Clear` on a running switch changes nothing and returns no error. On a halted switch it either
-- lifts the halt in memory and on disk alike and empties the runaway window, where the disk
-- commits; or it returns the error of the step that failed and leaves the switch as it was, halted.
pub clear_commits :
    (disk : Disk) (now : ℤ) (k : KillSwitch)
    → let (after, failure) = clear disk now k in
      ((k.state.halted ≡ false) × (after ≡ k) × (failure ≡ none))
      ⊎ (((k.state.halted ≡ true)
            × (disk ≡ commits)
            × (failure ≡ none)
            × (after.state.halted ≡ false)
            × (after.path ≡ holds after.state)
            × (after.order_times ≡ []))
          ⊎ ((k.state.halted ≡ true)
              × (after ≡ k)
              × ((at : PersistStep) × (disk ≡ fails_at at) × (failure ≡ some (persist_failed at)))))
unfolding clear
clear_commits commits now k = ground arith
clear_commits (fails_at at) now k = ground arith
