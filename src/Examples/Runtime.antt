-- ===== src/Examples/Runtime.antt =====
-- Runs of the supervisor, the write gate and the kernel's clock arithmetic.
use bucks.Supervisor.Restarts.{supervise-Ends, Ends, backoff_for-eq-min, backoff_for-le}
use bucks.Kernel.UnixNanos.{
  add, add-exact, sum, negative_overflow, int64_min, positive_overflow, int64_max,
}
use bucks.Common.Int.{◌+ℤ◌, ◌≤ℤ◌, ltb_ℤ, pos_part, pos}
use bucks.Supervisor.{
  recovered_nil, backoff_loop, Ending, supervise_loop, Round, supervise, Outcome, backoff_for,
  normalize, Policy,
}
use bucks.Common.{
  ◌↔◌, refl, arith, false, none, ◌^◌, not, some, ltb, min, ◌<◌, [], if◌then◌else◌, ◌≡◌, ◌*◌, true,
  String, ◌≤◌, suc, ◌∷◌, ℕ, List,
}
use bucks.Probe.WriteGate.{
  run-assert_write_allowed, operator_confirm_required, last_word, paper_run_required,
  ran_after_probe, read_probe_required, probed, assert_write_allowed, new_write_gate, Call, run,
  probes, paper_runs, confirms,
}

-- Three restarts, from a tenth of a second, doubled up to half a second.
abbrev policy : Policy
policy = record {
  max_restarts = pos 3;
  base_backoff = pos 100_000_000;
  max_backoff = pos 500_000_000;
  factor = pos 2;
}

base_fits : pos_part (normalize policy).base_backoff * pos_part (normalize policy).factor < 2 ^ 63
unfolding normalize
base_fits = omega arith

max_fits : pos_part (normalize policy).max_backoff * pos_part (normalize policy).factor < 2 ^ 63
unfolding normalize
max_fits = omega arith

backoff_for-eq-min_example :
    let p = normalize policy in
    backoff_for p (suc 2)
    ≡ min (pos_part p.max_backoff) (pos_part p.base_backoff * pos_part p.factor ^ 2)
backoff_for-eq-min_example = backoff_for-eq-min policy 2 base_fits max_fits

restart_delay_capped : backoff_for policy 70 ≤ 500_000_000
restart_delay_capped = backoff_for-le policy 70

-- Two failing runs and a clean one.
abbrev rounds : ℕ → Round String
rounds n = record {
  failure = if ltb n 2 then some "broken pipe" else none;
  done_after = false;
  done_waiting = false;
}

supervise-Ends_example :
    (out : Outcome String) × (ending : Ending) × (supervise policy rounds ≡ some (out, ending))
    × (pos out.restarts ≤ℤ (normalize policy).max_restarts)
    × Ends (normalize policy) rounds out ending
supervise-Ends_example = supervise-Ends policy rounds

two_restarts :
    supervise policy rounds
    ≡ some (
      record {
        restarts = 2;
        recovered = true;
        gave_up = false;
        backoffs = 100_000_000 ∷ 200_000_000 ∷ [];
        last_err = some "broken pipe";
      },
      recovered_nil,
    )
unfolding supervise normalize supervise_loop backoff_for backoff_loop
two_restarts = refl

abbrev calls : List Call
calls = paper_runs ∷ probes ∷ confirms true ∷ paper_runs ∷ []

run-assert_write_allowed_example :
    let g = run calls new_write_gate in
    (assert_write_allowed g ≡ (
      if not (probed false calls)
      then some read_probe_required
      else if not (ran_after_probe false calls)
      then some paper_run_required
      else if not (last_word false calls)
      then some operator_confirm_required
      else none))
    × ((assert_write_allowed g ≡ none)
        ↔ ((ran_after_probe false calls ≡ true) × (last_word false calls ≡ true)))
run-assert_write_allowed_example = run-assert_write_allowed calls

add-exact_example : add int64_max (pos 1) ≡ (
    if ltb_ℤ int64_max (int64_max +ℤ pos 1)
    then positive_overflow
    else if ltb_ℤ (int64_max +ℤ pos 1) int64_min
    then negative_overflow
    else sum (int64_max +ℤ pos 1))
add-exact_example =
    add-exact int64_max (pos 1) (omega arith, omega arith) (omega arith, omega arith)
