-- ===== src/Risk/KillSwitch.antt =====
-- internal/risk/killswitch.go: the durable HALTED flag. The injected clock is an argument, in
-- nanoseconds; the JSON of the state file is read back as it was written.
pub mod Durability
pub mod Runaway
use bucks.Common.Int.{◌-ℤ◌, pos, leb_ℤ, ltb_ℤ, ℤ}
use bucks.Common.{
  ◌&&◌, length, ◌++◌, ◌||◌, err, false, true, not, some, none, ok, if◌then◌else◌, ◌∷◌, Option,
  Result, [], String, Bool, List,
}

pub data HaltKind : Type 0 where
  no_halt max_daily_loss runaway_order_guard manual broker_native : HaltKind

pub record HaltState : Type 0 where
  pub halted : Bool
  pub kind : HaltKind
  pub reason : String
  pub halted_at : ℤ

-- The file at `path`: what `Open` finds there.
pub data StateFile : Type 0 where
  absent corrupt unreadable : StateFile
  holds : HaltState → StateFile

-- The steps of `persistStateLocked` that can fail; the rename commits.
pub data PersistStep : Type 0 where
  marshal temp_file write fsync close rename : PersistStep

pub data Disk : Type 0 where
  commits : Disk
  fails_at : PersistStep → Disk

pub data KillSwitchError : Type 0 where
  unreadable_state : KillSwitchError
  persist_failed : PersistStep → KillSwitchError

-- What the broker-native layer answers, where one is registered.
pub data BrokerLayer : Type 0 where
  not_registered query_failed : BrokerLayer
  answers : Bool → String → BrokerLayer

pub record KillSwitch : Type 0 where
  pub path : StateFile
  pub state : HaltState
  pub runaway_window : ℤ
  pub max_orders_per_window : ℤ
  pub order_times : List ℤ

-- The reasons that the code words.
abbrev unreadable_reason : String
unreadable_reason = "kill-switch file unreadable — fail-safe halt; operator must inspect"

abbrev runaway_reason : String
runaway_reason = "runaway-order guard"

abbrev opened_with : ℤ → ℤ → StateFile → HaltState → KillSwitch
opened_with window max file st = record {
  path = file;
  state = st;
  runaway_window = window;
  max_orders_per_window = max;
  order_times = [];
}

-- `Open`
unfoldable pub open_switch : (window max now : ℤ) → StateFile → Result KillSwitchError KillSwitch
open_switch window max now (holds st) = ok (opened_with window max (holds st) st)
open_switch window max now corrupt = ok (
    opened_with window max corrupt
      (record { halted = true; kind = manual; reason = unreadable_reason; halted_at = now }))
open_switch window max now absent = ok (
    opened_with window max absent
      (record { halted = false; kind = no_halt; reason = ""; halted_at = pos 0 }))
open_switch window max now unreadable = err unreadable_state

-- `persistStateLocked`: the switch with its file replaced, or the error of the step that failed.
unfoldable pub persist_state : Disk → HaltState → KillSwitch → KillSwitch × Option KillSwitchError
persist_state commits st k = (record k { path = holds st }, none)
persist_state (fails_at at) st k = (k, some (persist_failed at))

-- `k.state = newState`, if the state was persisted.
abbrev commit_state :
    HaltState → KillSwitch × Option KillSwitchError → KillSwitch × Option KillSwitchError
commit_state st (k, none) = (record k { state = st }, none)
commit_state st (k, some e) = (k, some e)

unfoldable pub halt :
    Disk → ℤ → String → HaltKind → KillSwitch → KillSwitch × Option KillSwitchError
unfolding persist_state
halt disk now reason kind k =
    if k.state.halted
    then (k, none)
    else (let st : HaltState = record {
      halted = true;
      kind = kind;
      reason = reason;
      halted_at = now;
    } in
        commit_state st (persist_state disk st k))

-- `k.orderTimes = nil` on a clear that was persisted.
abbrev reset_window : KillSwitch × Option KillSwitchError → KillSwitch × Option KillSwitchError
reset_window (k, none) = (record k { order_times = [] }, none)
reset_window (k, some e) = (k, some e)

unfoldable pub clear : Disk → ℤ → KillSwitch → KillSwitch × Option KillSwitchError
unfolding persist_state
clear disk now k =
    if not k.state.halted
    then (k, none)
    else (let st : HaltState = record {
      halted = false;
      kind = no_halt;
      reason = "";
      halted_at = now;
    } in
        reset_window (commit_state st (persist_state disk st k)))

-- The order times after the cutoff.
unfoldable pub prune : ℤ → List ℤ → List ℤ
prune cutoff [] = []
prune cutoff (t ∷ ts) = if ltb_ℤ cutoff t then t ∷ prune cutoff ts else prune cutoff ts

abbrev tripped_with :
    KillSwitch × Option KillSwitchError → KillSwitch × (Bool × Option KillSwitchError)
tripped_with (k, e) = (k, (true, e))

unfoldable pub guard_disabled : KillSwitch → Bool
guard_disabled k = leb_ℤ k.max_orders_per_window (pos 0) || leb_ℤ k.runaway_window (pos 0)

-- `RecordOrder`: the switch, whether this call tripped it, and the returned error.
unfoldable pub record_order : Disk → ℤ → KillSwitch → KillSwitch × (Bool × Option KillSwitchError)
unfolding persist_state
record_order disk now k =
    if guard_disabled k
    then (k, (false, none))
    else (let times = prune (now -ℤ k.runaway_window) k.order_times ++ now ∷ [] in
        let k' = record k { order_times = times } in
        if ltb_ℤ k.max_orders_per_window (pos (length times)) && not k.state.halted
        then (let st : HaltState = record {
          halted = true;
          kind = runaway_order_guard;
          reason = runaway_reason;
          halted_at = now;
        } in
            tripped_with (commit_state st (persist_state disk st k')))
        else (k', (false, none)))

-- `IsHalted`: which layer halts trading, and its reason.
pub data Halted : Type 0 where
  running : Halted
  app_halted broker_halted : String → Halted

unfoldable pub is_halted : BrokerLayer → KillSwitch → Halted
is_halted (answers true reason) k =
    if k.state.halted then app_halted k.state.reason else broker_halted reason
is_halted (answers false reason) k = if k.state.halted then app_halted k.state.reason else running
is_halted not_registered k = if k.state.halted then app_halted k.state.reason else running
is_halted query_failed k = if k.state.halted then app_halted k.state.reason else running

-- `Kind`
unfoldable pub halt_kind : KillSwitch → HaltKind
halt_kind k = if not k.state.halted then no_halt else k.state.kind
