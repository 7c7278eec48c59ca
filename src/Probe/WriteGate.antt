-- ===== src/Probe/WriteGate.antt =====
-- internal/probe/writegate.go: the latch that keeps writes locked.
use bucks.Common.{
  refl, ◌↔◌, some, arith, not, ◌||◌, [], none, if◌then◌else◌, ◌≡◌, ◌∷◌, Option, true, false, Bool,
  List,
}

pub record WriteGate : Type 0 where
  pub read_probed : Bool
  pub paper_run : Bool
  pub operator_ok : Bool

pub data GateError : Type 0 where
  read_probe_required paper_run_required operator_confirm_required : GateError

-- `NewWriteGate`
abbrev pub new_write_gate : WriteGate
new_write_gate = record { read_probed = false; paper_run = false; operator_ok = false }

unfoldable pub mark_read_probed : WriteGate → WriteGate
mark_read_probed g = record g { read_probed = true }

unfoldable pub record_paper_run : WriteGate → WriteGate × Option GateError
record_paper_run g =
    if not g.read_probed
    then (g, some read_probe_required)
    else (record g { paper_run = true }, none)

unfoldable pub confirm_writes : Bool → WriteGate → WriteGate
confirm_writes operator_approved g = record g { operator_ok = operator_approved }

unfoldable pub assert_write_allowed : WriteGate → Option GateError
assert_write_allowed g =
    if not g.read_probed
    then some read_probe_required
    else if not g.paper_run
    then some paper_run_required
    else if not g.operator_ok
    then some operator_confirm_required
    else none

unfoldable pub assert_read_allowed : WriteGate → Option GateError
assert_read_allowed g = none

-- The calls that change the gate.
pub data Call : Type 0 where
  probes paper_runs : Call
  confirms : Bool → Call

unfoldable pub step : Call → WriteGate → WriteGate
step probes g = mark_read_probed g
step paper_runs g = (record_paper_run g).0
step (confirms operator_approved) g = confirm_writes operator_approved g

unfoldable pub run : List Call → WriteGate → WriteGate
run [] g = g
run (c ∷ cs) g = run cs (step c g)

-- What a history of calls says, read without the gate: whether the surface was probed.
unfoldable pub probed : Bool → List Call → Bool
probed p [] = p
probed p (probes ∷ cs) = probed true cs
probed p (paper_runs ∷ cs) = probed p cs
probed p (confirms b ∷ cs) = probed p cs

-- Whether a paper run came after a probe; the first argument says that a probe came before.
unfoldable pub ran_after_probe : Bool → List Call → Bool
ran_after_probe p [] = false
ran_after_probe p (probes ∷ cs) = ran_after_probe true cs
ran_after_probe p (paper_runs ∷ cs) = p || ran_after_probe p cs
ran_after_probe p (confirms b ∷ cs) = ran_after_probe p cs

-- The operator's last word, or the one before the history.
unfoldable pub last_word : Bool → List Call → Bool
last_word b [] = b
last_word b (probes ∷ cs) = last_word b cs
last_word b (paper_runs ∷ cs) = last_word b cs
last_word b (confirms b' ∷ cs) = last_word b' cs

run-history :
    (cs : List Call) (g : WriteGate)
    → run cs g ≡ record {
      read_probed = probed g.read_probed cs;
      paper_run = g.paper_run || ran_after_probe g.read_probed cs;
      operator_ok = last_word g.operator_ok cs;
    }
unfolding run step mark_read_probed record_paper_run confirm_writes probed ran_after_probe last_word
run-history [] g = ground arith
run-history (probes ∷ cs) g = run-history cs (mark_read_probed g)
run-history (paper_runs ∷ cs) g = ground (arith, run-history cs (record_paper_run g).0)
run-history (confirms b ∷ cs) g = run-history cs (confirm_writes b g)

probed-true : (cs : List Call) → probed true cs ≡ true
unfolding probed
probed-true [] = refl
probed-true (probes ∷ cs) = probed-true cs
probed-true (paper_runs ∷ cs) = probed-true cs
probed-true (confirms b ∷ cs) = probed-true cs

ran-probed : (p : Bool) (cs : List Call) → ran_after_probe p cs ≡ true → probed p cs ≡ true
unfolding probed ran_after_probe
ran-probed p [] h = cc h
ran-probed p (probes ∷ cs) h = ran-probed true cs h
ran-probed true (paper_runs ∷ cs) h = probed-true cs
ran-probed false (paper_runs ∷ cs) h = ran-probed false cs h
ran-probed p (confirms b ∷ cs) h = ran-probed p cs h

-- From a new gate, after any calls: writes are allowed exactly when a paper run came after a probe
-- and the operator's last word was yes. The error names the first precondition that is missing.
pub run-assert_write_allowed :
    (cs : List Call)
    → let g = run cs new_write_gate in
      (assert_write_allowed g ≡ (
        if not (probed false cs)
        then some read_probe_required
        else if not (ran_after_probe false cs)
        then some paper_run_required
        else if not (last_word false cs)
        then some operator_confirm_required
        else none))
      × ((assert_write_allowed g ≡ none)
          ↔ ((ran_after_probe false cs ≡ true) × (last_word false cs ≡ true)))
unfolding assert_write_allowed
run-assert_write_allowed cs = ground (arith, run-history cs new_write_gate, ran-probed false cs)
