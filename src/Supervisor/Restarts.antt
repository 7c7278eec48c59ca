-- ===== src/Supervisor/Restarts.antt =====
-- The restarts of `Supervise` and their delays.
use bucks.Common.Int.{leb_ℤ, ◌≤ℤ◌, pos, pos_part}
use bucks.Supervisor.{
  supervise, canceled_err, gave_up_err, recovered_nil, Ending, supervise_loop, Outcome, normalize,
  Round, Policy, backoff_for, backoff_loop,
}
use native.Mathlib.Nat.{pow-suc, pow-zero}
use bucks.Common.{
  refl, Option-cases, some, ◌⊎◌, ◌∷◌, false, ◌+◌, true, ◌++◌, inr, Option, none, [], inl, ◌≢◌, List,
  Bool-cases, ◌<◌, ◌≡◌, min, leb, zero, ◌^◌, ◌%◌, ◌*◌, suc, arith, ◌≤◌, ℕ,
}

-- No delay is above the maximum, at any factor, also where the product wraps.
pub backoff_loop-le : (i d factor max : ℕ) → backoff_loop i d factor max ≤ max
unfolding backoff_loop
backoff_loop-le zero d factor max = ground arith
backoff_loop-le (suc i) d factor max =
    ground (arith, backoff_loop-le i (d * factor % 2 ^ 64) factor max)

pow-suc_left : (d f i : ℕ) → d * f * f ^ i ≡ d * f ^ suc i
pow-suc_left d f i = grind (arith, pow-suc f i)

pow-pos : (f i : ℕ) → 1 ≤ f → 1 ≤ f ^ i
pow-pos f zero h = rw (pow-zero f) (omega arith)
pow-pos f (suc i) h = grind (arith, pow-suc f i, pow-pos f i h)

mul-ge : (a b : ℕ) → 1 ≤ b → a ≤ a * b
mul-ge a b h = grind arith

mul_mono : (a b c : ℕ) → a ≤ b → a * c ≤ b * c
mul_mono a b c h = grind arith

backoff_loop-eq-min :
    (i d factor max : ℕ)
    → 1 ≤ d
    → 1 ≤ factor
    → 1 ≤ max
    → d * factor < 2 ^ 63
    → max * factor < 2 ^ 63
    → backoff_loop i d factor max ≡ min max (d * factor ^ i)
unfolding backoff_loop
backoff_loop-eq-min zero d factor max hd hf hm k km =
    let once : d * factor ^ 0 ≡ d = rw (pow-zero factor) (omega arith) in ground (arith, once)
backoff_loop-eq-min (suc i) d factor max hd hf hm k km =
    let raw : d * factor % 2 ^ 64 ≡ d * factor = omega (arith, k) in
    let positive : 1 ≤ d * factor = omega (arith, mul-ge d factor hf) in
    rw raw (elim (Bool-cases (leb max (d * factor))) [
      | inl past ↦
          let grown : d * factor ≤ d * factor * factor ^ i =
            mul-ge (d * factor) (factor ^ i) (pow-pos factor i hf) in
          ground (arith, past, k, grown, pow-suc_left d factor i)
      | inr below ↦
          let small : d * factor ≤ max = ground (arith, below) in
          let next : d * factor * factor < 2 ^ 63 =
            omega (arith, km, mul_mono (d * factor) max factor small) in
          ground (
            arith,
            below,
            k,
            positive,
            backoff_loop-eq-min i (d * factor) factor max positive hf hm next km,
            pow-suc_left d factor i,
          )
    ])

-- Where neither the maximum nor the base times the factor overflows 63 bits, the delay before the
-- restart `n + 1` is the smaller of the maximum and `base * factor ^ n`.
pub backoff_for-eq-min :
    (policy : Policy) (n : ℕ)
    → pos_part (normalize policy).base_backoff * pos_part (normalize policy).factor < 2 ^ 63
    → pos_part (normalize policy).max_backoff * pos_part (normalize policy).factor < 2 ^ 63
    → let p = normalize policy in
      backoff_for p (suc n)
      ≡ min (pos_part p.max_backoff) (pos_part p.base_backoff * pos_part p.factor ^ n)
unfolding backoff_for normalize
backoff_for-eq-min policy n h k =
    backoff_loop-eq-min n _ _ _ (ground arith) (ground arith) (ground arith) h k

-- No delay is above the maximum, at any factor, also where the product wraps around.
pub backoff_for-le : (p : Policy) (n : ℕ) → backoff_for p n ≤ pos_part p.max_backoff
unfolding backoff_for
backoff_for-le p zero = omega arith
backoff_for-le p (suc n) = backoff_loop-le n _ _ _

-- The delays before the first restarts.
pub delays : Policy → ℕ → List ℕ
delays p zero = []
delays p (suc n) = delays p n ++ backoff_for p (suc n) ∷ []

-- Each of the first runs failed.
abbrev pub AllFailed : {E : Type 0} → (ℕ → Round E) → ℕ → Type 0
AllFailed rounds zero = Unit
AllFailed rounds (suc n) = AllFailed rounds n × ((rounds n).failure ≢ none)

module _ {E : Type 0} (p : Policy) (rounds : ℕ → Round E) where
  -- How supervision may end: clean; given up with the restarts used up; or by the context, after
  -- a run or while waiting.
  abbrev pub Ends : Outcome E → Ending → Type 0
  Ends out recovered_nil =
      (out.recovered ≡ true)
      × (out.gave_up ≡ false)
      × ((rounds out.restarts).failure ≡ none)
      × (out.backoffs ≡ delays p out.restarts)
      × AllFailed rounds out.restarts
  Ends out gave_up_err =
      (out.recovered ≡ false)
      × (out.gave_up ≡ true)
      × (p.max_restarts ≤ℤ pos out.restarts)
      × (out.backoffs ≡ delays p out.restarts)
      × AllFailed rounds (suc out.restarts)
  Ends out canceled_err =
      (out.recovered ≡ false)
      × (out.gave_up ≡ false)
      × AllFailed rounds (suc out.restarts)
      × (((out.backoffs ≡ delays p out.restarts) × ((rounds out.restarts).done_after ≡ true))
          ⊎ ((out.backoffs ≡ delays p (suc out.restarts))
              × ((rounds out.restarts).done_waiting ≡ true)))

  supervise_loop-Ends :
      (fuel n : ℕ) (last : Option E)
      → pos n ≤ℤ p.max_restarts
      → pos_part p.max_restarts < fuel + n
      → AllFailed rounds n
      → (out : Outcome E) × (ending : Ending) × (supervise_loop fuel p rounds (record {
        restarts = n;
        recovered = false;
        gave_up = false;
        backoffs = delays p n;
        last_err = last;
      })
          ≡ some (out, ending))
        × (pos out.restarts ≤ℤ p.max_restarts)
        × Ends out ending
  unfolding supervise_loop delays
  supervise_loop-Ends zero n last h f failed = absurd (ground (arith, h, f))
  supervise_loop-Ends (suc fuel) n last h f failed = elim (Option-cases (rounds n).failure) [
    | inl clean ↦ (
      record {
        restarts = n;
        recovered = true;
        gave_up = false;
        backoffs = delays p n;
        last_err = last;
      },
      recovered_nil,
      ground (arith, clean),
      h,
      (refl, refl, clean, refl, failed),
    )
    | inr (e, fails) ↦
        let broken : (rounds n).failure ≢ none = λ z. cc (z, fails) in
        elim (Bool-cases (rounds n).done_after) [
          | inl done ↦ (
            record {
              restarts = n;
              recovered = false;
              gave_up = false;
              backoffs = delays p n;
              last_err = (rounds n).failure;
            },
            canceled_err,
            ground (arith, fails, done),
            h,
            (refl, refl, (failed, broken), inl (refl, done)),
          )
          | inr on ↦ elim (Bool-cases (leb_ℤ p.max_restarts (pos n))) [
            | inl spent ↦ (
              record {
                restarts = n;
                recovered = false;
                gave_up = true;
                backoffs = delays p n;
                last_err = (rounds n).failure;
              },
              gave_up_err,
              ground (arith, fails, on, spent),
              h,
              (refl, refl, ground (arith, spent), refl, (failed, broken)),
            )
            | inr more ↦ elim (Bool-cases (rounds n).done_waiting) [
              | inl stop ↦ (
                record {
                  restarts = n;
                  recovered = false;
                  gave_up = false;
                  backoffs = delays p (suc n);
                  last_err = (rounds n).failure;
                },
                canceled_err,
                ground (arith, fails, on, more, stop),
                h,
                (refl, refl, (failed, broken), inr (refl, stop)),
              )
              | inr going ↦
                  let (out, ending, eq, bound, ends) =
                    supervise_loop-Ends fuel (suc n) (rounds n).failure (ground (arith, more))
                      (omega (arith, f)) (failed, broken) in
                  (out, ending, ground (arith, fails, on, more, going, eq), bound, ends)
            ]
          ]
        ]
  ]

normalize-max_restarts : (policy : Policy) → pos 0 ≤ℤ (normalize policy).max_restarts
unfolding normalize
normalize-max_restarts policy = ground arith

-- Supervision always ends, after at most `MaxRestarts` restarts, and each delay that it applied is
-- the one of its restart. It ends recovered exactly with the first clean run; it gives up only when
-- the restarts are used up and every run failed; and otherwise the context was done, after a run
-- that failed or during the wait for the next.
pub supervise-Ends :
    {E : Type 0} (policy : Policy) (rounds : ℕ → Round E)
    → (out : Outcome E) × (ending : Ending) × (supervise policy rounds ≡ some (out, ending))
      × (pos out.restarts ≤ℤ (normalize policy).max_restarts)
      × Ends (normalize policy) rounds out ending
unfolding supervise delays
supervise-Ends policy rounds =
    supervise_loop-Ends (normalize policy) rounds (pos_part (normalize policy).max_restarts + 1) 0
      none (normalize-max_restarts policy) (omega arith) tt
