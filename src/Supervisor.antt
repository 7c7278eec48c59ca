-- ===== src/Supervisor.antt =====
-- internal/supervisor/supervisor.go: restarts of a failing component with bounded backoff.
-- Durations are nanoseconds; one that is not negative is a number, and a product wraps at 64 bits.
pub mod Restarts
use bucks.Common.Int.{leb_ℤ, pos, pos_part, ltb_ℤ, ℤ}
use bucks.Common.{
  true, ◌&&◌, some, not, ◌∷◌, ◌^◌, leb, ◌++◌, ◌%◌, ◌||◌, ◌+◌, zero, ◌*◌, ◌==◌, [], none, suc, ltb,
  Bool, false, Option, ℕ, if◌then◌else◌, List,
}

pub record Policy : Type 0 where
  pub max_restarts : ℤ
  pub base_backoff : ℤ
  pub max_backoff : ℤ
  pub factor : ℤ

-- `normalize`
unfoldable pub normalize : Policy → Policy
normalize p = record {
  max_restarts = if ltb_ℤ p.max_restarts (pos 0) then pos 0 else p.max_restarts;
  base_backoff = if leb_ℤ p.base_backoff (pos 0) then pos 100_000_000 else p.base_backoff;
  max_backoff = if leb_ℤ p.max_backoff (pos 0) then pos 30_000_000_000 else p.max_backoff;
  factor = if ltb_ℤ p.factor (pos 1) then pos 2 else p.factor;
}

-- The value of 64 bits read as a signed integer is at most zero.
abbrev at_most_zero_64 : ℕ → Bool
at_most_zero_64 raw = raw == 0 || leb (2 ^ 63) raw

-- The loop of `backoffFor`, on the rounds left; `at_most_zero_64` is the code's overflow guard.
unfoldable pub backoff_loop : ℕ → (d factor max : ℕ) → ℕ
backoff_loop zero d factor max = if ltb max d then max else d
backoff_loop (suc i) d factor max =
    let raw = d * factor % 2 ^ 64 in
    let rest = backoff_loop i raw factor max in
    if (not (leb (2 ^ 63) raw) && leb max raw) || at_most_zero_64 raw then max else rest

-- `backoffFor` of a normalized policy.
unfoldable pub backoff_for : Policy → ℕ → ℕ
backoff_for p zero = 0
backoff_for p (suc n) =
    backoff_loop n (pos_part p.base_backoff) (pos_part p.factor) (pos_part p.max_backoff)

-- What happens around one run of the component: how `Run` returns, and whether the context is done
-- after it and while the backoff is waited for.
pub record Round (E : Type 0) : Type 0 where
  pub failure : Option E
  pub done_after : Bool
  pub done_waiting : Bool

pub record Outcome (E : Type 0) : Type 0 where
  pub restarts : ℕ
  pub recovered : Bool
  pub gave_up : Bool
  pub backoffs : List ℕ
  pub last_err : Option E

-- What `Supervise` returns beside the outcome.
pub data Ending : Type 0 where
  recovered_nil canceled_err gave_up_err : Ending

module _ {E : Type 0} where
  -- The loop of `Supervise`: `rounds n` is what happens around the run after `n` restarts. `none`
  -- stands for fuel that ran out.
  unfoldable pub supervise_loop :
      ℕ → Policy → (ℕ → Round E) → Outcome E → Option (Outcome E × Ending)
  supervise_loop zero p rounds out = none
  supervise_loop (suc fuel) p rounds out =
      let round = rounds out.restarts in
      let attempt = suc out.restarts in
      let failed : Outcome E = record out { last_err = round.failure } in
      let waited : Outcome E = record failed {
        backoffs = out.backoffs ++ backoff_for p attempt ∷ [];
      } in
      let again = supervise_loop fuel p rounds (record waited { restarts = attempt }) in
      elim round.failure [
        | none ↦ some (record out { recovered = true }, recovered_nil)
        | some e ↦
            if round.done_after
            then some (failed, canceled_err)
            else if leb_ℤ p.max_restarts (pos out.restarts)
            then some (record failed { gave_up = true }, gave_up_err)
            else if round.done_waiting
            then some (waited, canceled_err)
            else again
      ]

  abbrev pub fresh_outcome : Outcome E
  fresh_outcome = record {
    restarts = 0;
    recovered = false;
    gave_up = false;
    backoffs = [];
    last_err = none;
  }

  -- `New` and `Supervise`: one round for each restart and one more.
  unfoldable pub supervise : Policy → (ℕ → Round E) → Option (Outcome E × Ending)
  supervise policy rounds =
      let p = normalize policy in
      supervise_loop (pos_part p.max_restarts + 1) p rounds fresh_outcome
