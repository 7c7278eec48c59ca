-- ===== src/Risk/KillSwitch/Runaway.antt =====
-- The runaway-order guard against the whole history of order times.
use bucks.Risk.KillSwitch.{fails_at, guard_disabled, Disk, commits, record_order, prune, KillSwitch}
use bucks.Common.Int.{◌+ℤ◌, ltb_ℤ, +ℤ_parts, ◌<ℤ◌, pos, -ℤ_parts, leb_ℤ, ◌-ℤ◌, ◌≤ℤ◌, ℤ}
use mathlib.Core.List.{append_assoc, append-nil}
use bucks.Common.{
  suc, if◌then◌else◌, ℕ, length, ◌↔◌, true, ◌∙◌, refl, false, arith, ◌≡◌, [], ◌++◌, ◌∷◌, List,
}

-- Clock readings that never fall.
abbrev pub Rising : ℤ → List ℤ → Type 0
Rising t [] = Unit
Rising t (u ∷ us) = (t ≤ℤ u) × Rising u us

prune-append :
    (cutoff : ℤ) (xs ys : List ℤ) → prune cutoff (xs ++ ys) ≡ prune cutoff xs ++ prune cutoff ys
unfolding prune
prune-append cutoff [] ys = refl
prune-append cutoff (x ∷ xs) ys = ground (arith, prune-append cutoff xs ys)

-- A later cutoff makes an earlier one unnecessary.
prune-prune :
    (early late : ℤ) (xs : List ℤ) → early ≤ℤ late → prune late (prune early xs) ≡ prune late xs
unfolding prune
prune-prune early late [] h = refl
prune-prune early late (x ∷ xs) h = ground (arith, prune-prune early late xs h)

-- The last of some times, or the time before them.
abbrev pub last_of : ℤ → List ℤ → ℤ
last_of last [] = last
last_of last (t ∷ ts) = last_of t ts

-- The calls of `RecordOrder`, each with its disk and its time.
abbrev pub times_of : List (Disk × ℤ) → List ℤ
times_of [] = []
times_of ((disk, now) ∷ calls) = now ∷ times_of calls

unfoldable pub record_all : List (Disk × ℤ) → KillSwitch → KillSwitch
record_all [] k = k
record_all ((disk, now) ∷ calls) k = record_all calls (record_order disk now k).0

-- The number of times in a list that are less than a window old.
unfoldable pub count_recent : (window now : ℤ) → List ℤ → ℕ
count_recent window now [] = 0
count_recent window now (t ∷ ts) =
    let rest = count_recent window now ts in if ltb_ℤ now (t +ℤ window) then suc rest else rest

-- What a prune at a time keeps of a history.
abbrev in_window : ℤ → ℤ → List ℤ → List ℤ
in_window window now history = prune (now -ℤ window) history

record_order-times :
    (disk : Disk) (now : ℤ) (k : KillSwitch)
    → guard_disabled k ≡ false
    → (record_order disk now k).0.order_times
      ≡ in_window k.runaway_window now k.order_times ++ now ∷ []
unfolding record_order
record_order-times commits now k h = ground arith
record_order-times (fails_at at) now k h = ground arith

record_order-config :
    (disk : Disk) (now : ℤ) (k : KillSwitch)
    → ((record_order disk now k).0.runaway_window ≡ k.runaway_window)
      × ((record_order disk now k).0.max_orders_per_window ≡ k.max_orders_per_window)
unfolding record_order
record_order-config commits now k = (ground arith, ground arith)
record_order-config (fails_at at) now k = (ground arith, ground arith)

in_window-now :
    (window now : ℤ) → leb_ℤ window (pos 0) ≡ false → in_window window now (now ∷ []) ≡ now ∷ []
unfolding prune
in_window-now window now h = ground (arith, -ℤ_parts now window)

in_window-step :
    (window last now : ℤ) (history : List ℤ)
    → leb_ℤ window (pos 0) ≡ false
    → last ≤ℤ now
    → in_window window now (in_window window last history) ++ now ∷ []
      ≡ in_window window now (history ++ now ∷ [])
in_window-step window last now history h le = rw (
  prune-append (now -ℤ window) history (now ∷ []),
  in_window-now window now h,
  prune-prune (last -ℤ window) (now -ℤ window) history
      (omega (arith, -ℤ_parts now window, -ℤ_parts last window)),
)

-- The window of the switch, seen from a history of all orders up to `last`.
record Tracks (window max last : ℤ) (history : List ℤ) (k : KillSwitch) : Type 0 where
  window_eq : k.runaway_window ≡ window
  max_eq : k.max_orders_per_window ≡ max
  times : k.order_times ≡ in_window window last history

module _ (window max : ℤ) (has_window : leb_ℤ window (pos 0) ≡ false)
    (has_max : leb_ℤ max (pos 0) ≡ false) where
  Tracks-enabled :
      (last : ℤ) (history : List ℤ) (k : KillSwitch)
      → Tracks window max last history k
      → guard_disabled k ≡ false
  unfolding guard_disabled
  Tracks-enabled last history k t = rw (t.window_eq, t.max_eq, has_window, has_max)

  record_order-Tracks :
      (disk : Disk) (last now : ℤ) (history : List ℤ) (k : KillSwitch)
      → last ≤ℤ now
      → Tracks window max last history k
      → Tracks window max now (history ++ now ∷ []) (record_order disk now k).0
  record_order-Tracks disk last now history k le t = record {
    window_eq = (record_order-config disk now k).0 ∙ t.window_eq;
    max_eq = (record_order-config disk now k).1 ∙ t.max_eq;
    times =
        record_order-times disk now k (Tracks-enabled last history k t)
        ∙ rw (t.window_eq, t.times) (in_window-step window last now history has_window le);
  }

  record_all-Tracks :
      (calls : List (Disk × ℤ)) (last : ℤ) (history : List ℤ) (k : KillSwitch)
      → Rising last (times_of calls)
      → Tracks window max last history k
      → Tracks window max
          (last_of last (times_of calls))
          (history ++ times_of calls)
          (record_all calls k)
  unfolding record_all
  record_all-Tracks [] last history k r t = rw (append-nil history) t
  record_all-Tracks ((disk, now) ∷ calls) last history k r t =
      rw (← append_assoc history (now ∷ []) (times_of calls)) (
        record_all-Tracks calls now (history ++ now ∷ []) (record_order disk now k).0 r.1
          (record_order-Tracks disk last now history k r.0 t))

record_order-tripped :
    (disk : Disk) (now : ℤ) (k : KillSwitch)
    → guard_disabled k ≡ false
    → ((record_order disk now k).1.0 ≡ true) ↔ (
        (k.state.halted ≡ false)
        × (k.max_orders_per_window
            <ℤ pos (length (in_window k.runaway_window now k.order_times ++ now ∷ []))))
unfolding record_order
record_order-tripped commits now k h = ground arith
record_order-tripped (fails_at at) now k h = ground arith

length-in_window :
    (window now : ℤ) (history : List ℤ)
    → length (in_window window now history) ≡ count_recent window now history
unfolding prune count_recent
length-in_window window now [] = refl
length-in_window window now (t ∷ history) =
    ground (arith, length-in_window window now history, -ℤ_parts now window, +ℤ_parts t window)

-- With the guard on and a clock that never falls, a call of `RecordOrder` trips it exactly when the
-- switch is not halted and more of the orders since the guard was empty, this one included, than the
-- limit are less than a window old, however the earlier calls' writes ended.
pub record_order-trips :
    (window max start now : ℤ) (calls : List (Disk × ℤ)) (disk : Disk) (k : KillSwitch)
    → leb_ℤ window (pos 0) ≡ false
    → leb_ℤ max (pos 0) ≡ false
    → k.runaway_window ≡ window
    → k.max_orders_per_window ≡ max
    → k.order_times ≡ []
    → Rising start (times_of calls)
    → last_of start (times_of calls) ≤ℤ now
    → ((record_order disk now (record_all calls k)).1.0 ≡ true) ↔ (
        ((record_all calls k).state.halted ≡ false)
        × (max <ℤ pos (count_recent window now (times_of calls ++ now ∷ []))))
unfolding prune record_all
record_order-trips window max start now calls disk k has_window has_max window_eq max_eq empty
      rising le =
    let t =
      record_all-Tracks window max has_window has_max calls start [] k rising
        (record { window_eq = window_eq; max_eq = max_eq; times = empty }) in
    let at =
      record_order-tripped disk now (record_all calls k)
        (Tracks-enabled window max has_window has_max _ _ _ t) in
    let count =
      in_window-step window (last_of start (times_of calls)) now (times_of calls) has_window le in
    rw (t.window_eq, t.max_eq, t.times, count, length-in_window) at at
