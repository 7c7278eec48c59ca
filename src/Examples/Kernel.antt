-- ===== src/Examples/Kernel.antt =====
-- Runs of the event kernel. A payload is a number; the handler of countdowns publishes the next lower
-- one a second later.
use bucks.Kernel.Dispatch.Clocks.{live-eq-run, live}
use bucks.Kernel.Dispatch.Termination.{submit-Ends, Falls, IsFalling}
use bucks.Kernel.Dispatch.Order.{run-Ran, IsIdle, Ran}
use bucks.Kernel.Dispatch.{publishes, submit, subscribe, Act, new_kernel, Event, Kernel}
use bucks.Common.Int.{◌+ℤ◌, pos, ℤ}
use bucks.Kernel.Dispatch.{run, submit}
use bucks.Kernel.Dispatch.Termination.{Ends}
use bucks.Common.{arith, refl, inr, ◌≡◌, zero, suc, ℕ, List, ◌∷◌, []}

abbrev at_second : ℤ → ℕ → Event ℕ ℕ
at_second t n = record { topic = "tick"; timestamp = t; payload = n }

-- The state counts the events that were handled.
abbrev countdown : ℕ → Event ℕ ℕ → ℕ → ℕ × List (Act ℕ ℕ)
countdown handler e handled = (
  suc handled,
  elim e.payload [ zero ↦ [] | suc n ↦ publishes (at_second (e.timestamp +ℤ pos 1) n) ∷ [] ],
)

abbrev listening : Kernel ℕ ℕ
listening = record (new_kernel ℕ ℕ 0) { bus = subscribe ℕ ℕ "tick" 0 (new_kernel ℕ ℕ 0).bus }

abbrev payload_of : Event ℕ ℕ → ℕ
payload_of e = e.payload

listening-IsIdle : IsIdle ℕ ℕ countdown listening
unfolding new_kernel subscribe
listening-IsIdle = ((refl, (tt, tt, inr refl), refl), refl)

run-Ran_example :
    Ran ℕ ℕ countdown
      (run ℕ ℕ countdown 10 (at_second (pos 1) 2 ∷ at_second (pos 9) 0 ∷ []) listening)
run-Ran_example =
    run-Ran ℕ ℕ countdown 10 (at_second (pos 1) 2 ∷ at_second (pos 9) 0 ∷ []) listening
      listening-IsIdle

countdown-IsFalling : IsFalling ℕ ℕ payload_of countdown
countdown-IsFalling handler e state = fall e.payload (e.timestamp +ℤ pos 1)
  where
    fall :
        (n : ℕ) (t : ℤ)
        → Falls ℕ ℕ payload_of n (elim n [ zero ↦ [] | suc m ↦ publishes (at_second t m) ∷ [] ])
    fall zero t = tt
    fall (suc m) t = (omega arith, tt)

submit-Ends_example :
    (fuel : ℕ) × Ends ℕ ℕ payload_of (submit ℕ ℕ countdown fuel (at_second (pos 1) 2) listening)
submit-Ends_example =
    submit-Ends ℕ ℕ payload_of countdown (at_second (pos 1) 2) listening countdown-IsFalling

live-eq-run_example :
    live ℕ ℕ countdown 10
      ((at_second (pos 1) 2 ∷ []) ∷ (at_second (pos 9) 0 ∷ []) ∷ [])
      []
      listening
    ≡ run ℕ ℕ countdown 10 (at_second (pos 1) 2 ∷ at_second (pos 9) 0 ∷ []) listening
live-eq-run_example =
    live-eq-run ℕ ℕ countdown 10 ((at_second (pos 1) 2 ∷ []) ∷ (at_second (pos 9) 0 ∷ []) ∷ [])
      listening
