-- ===== src/Risk/Backoff.antt =====
-- internal/risk/ratelimit.go: retry delays with full jitter. A duration is a signed integer of
-- nanoseconds, and its arithmetic wraps at 64 bits as an int64 does.
use bucks.Common.Int.{◌≤ℤ◌, ◌<ℤ◌, pos, negsuc, sub_ℕ, ltb_ℤ, leb_ℤ, pos_part, ℤ}
use bucks.Kernel.UnixNanos.{add_64}
use native.Mathlib.Nat.{pow-suc}
use bucks.Common.{
  false, refl, ◌-◌, ◌∙◌, inr, inl, Bool-cases, ap, ◌+◌, zero, min, ◌≡◌, ◌*◌, arith, suc, ◌<◌, ◌^◌,
  ◌/◌, ◌≤◌, if◌then◌else◌, ℕ, Option, some, none,
}

pub record Backoff : Type 0 where
  pub base : ℤ
  pub cap : ℤ

abbrev default_base : ℤ
default_base = pos 100_000_000

-- `NewBackoff`
unfoldable pub new_backoff : ℤ → ℤ → Backoff
new_backoff base cap =
    let base' = if leb_ℤ base (pos 0) then default_base else base in
    record { base = base'; cap = if ltb_ℤ cap base' then base' else cap }

-- `n / 2`, which rounds towards zero.
abbrev pub half : ℤ → ℤ
half (pos n) = pos (n / 2)
half (negsuc n) = sub_ℕ 0 (suc n / 2)

-- `w *= 2` on int64.
unfoldable pub double_64 : ℤ → ℤ
double_64 w = add_64 w w

-- The loop of `expWindow`, on the doublings left and the window so far.
unfoldable pub exp_loop : ℕ → (w cap : ℤ) → ℤ
exp_loop zero w cap = if ltb_ℤ cap w then cap else w
exp_loop (suc i) w cap =
    let rest = exp_loop i (double_64 w) cap in if ltb_ℤ (half cap) w then cap else rest

unfoldable pub exp_window : Backoff → ℤ → ℤ
exp_window b attempt = exp_loop (pos_part attempt) b.base b.cap

-- `rng.Int63n(n)`, which panics on a bound that is not positive; `draw` is the generator.
abbrev pub int63n : (draw : ℕ → ℕ) → ℤ → Option ℤ
int63n draw n = if leb_ℤ n (pos 0) then none else some (pos (draw (pos_part n)))

-- `Delay`; `none` is the panic.
unfoldable pub delay : (draw : ℕ → ℕ) → Backoff → ℤ → ℤ → Option ℤ
delay draw b attempt retry_after =
    if ltb_ℤ (pos 0) retry_after
    then some (if ltb_ℤ b.cap retry_after then b.cap else retry_after)
    else (let window = exp_window b attempt in
        if leb_ℤ window (pos 0) then some (pos 0) else int63n draw (add_64 window (pos 1)))

pow-pos : (n : ℕ) → 1 ≤ 2 ^ n
pow-pos zero = omega arith
pow-pos (suc n) = omega (arith, pow-pos n, pow-suc 2 n)

doubled : (w i : ℕ) → w * 2 * 2 ^ i ≡ w * 2 ^ suc i
doubled w i = grind (arith, pow-suc 2 i)

-- Once the window is past half of the cap, one more doubling is past the cap.
past_half : (w cap i : ℕ) → cap / 2 < w → cap < w * 2 ^ suc i
past_half w cap i h =
    let grown : w * 2 ≤ w * 2 * 2 ^ i = grind (arith, pow-pos i) in
    omega (arith, grown, doubled w i)

double_64-exact : (w : ℕ) → w * 2 < 2 ^ 63 → double_64 (pos w) ≡ pos (w * 2)
unfolding double_64 add_64
double_64-exact w h = ground (arith, h)

exp_loop-eq-min :
    (i w cap : ℕ)
    → w ≤ cap
    → cap < 2 ^ 63
    → exp_loop i (pos w) (pos cap) ≡ pos (min cap (w * 2 ^ i))
unfolding exp_loop
exp_loop-eq-min zero w cap h k = ground (arith, h)
exp_loop-eq-min (suc i) w cap h k = elim (Bool-cases (ltb_ℤ (pos (cap / 2)) (pos w))) [
  | inl past ↦ rw past (ap pos (omega (arith, past_half w cap i (ground (arith, past)))))
  | inr small ↦
      let le : w ≤ cap / 2 = ground (arith, small) in
      rw (small, double_64-exact w (omega (arith, le, k)))
        (exp_loop-eq-min i (w * 2) cap (omega (arith, le)) k
          ∙ ap (λ n. pos (min cap n)) (doubled w i))
]

new_backoff-sized :
    (limit : ℕ) (base cap : ℤ)
    → 100_000_000 < limit
    → base <ℤ pos limit
    → cap <ℤ pos limit
    → let b = new_backoff base cap in
      (b.base ≡ pos (pos_part b.base))
      × (b.cap ≡ pos (pos_part b.cap))
      × (pos_part b.base ≤ pos_part b.cap)
      × (pos_part b.cap < limit)
unfolding new_backoff
new_backoff-sized limit base cap large h k =
    (ground arith, ground arith, ground arith, ground arith)

-- The loop with its early exit computes the smaller of the cap and `base * 2 ^ attempt`, which is
-- what it would be without a bound on integers, although its doublings wrap at 64 bits as signed
-- integers, at any attempt, for a backoff made by `NewBackoff` from durations of 64 bits.
pub exp_window-eq-min :
    (base cap attempt : ℤ)
    → base <ℤ pos (2 ^ 63)
    → cap <ℤ pos (2 ^ 63)
    → let b = new_backoff base cap in
      exp_window b attempt ≡ pos (min (pos_part b.cap) (pos_part b.base * 2 ^ pos_part attempt))
unfolding exp_window
exp_window-eq-min base cap attempt h k =
    let b = new_backoff base cap in
    let (base_eq, cap_eq, le, small) = new_backoff-sized (2 ^ 63) base cap (omega arith) h k in
    ap (λ w. exp_loop (pos_part attempt) w b.cap) base_eq
    ∙ ap (λ c. exp_loop (pos_part attempt) (pos (pos_part b.base)) c) cap_eq
    ∙ exp_loop-eq-min (pos_part attempt) (pos_part b.base) (pos_part b.cap) le small

next_bound : (m : ℕ) → m < 2 ^ 63 - 1 → add_64 (pos m) (pos 1) ≡ pos (m + 1)
unfolding add_64
next_bound m h = ground (arith, h)

-- Below the greatest duration as the cap there is always a delay, at most the cap, for any generator
-- whose draws are below their bound.
pub delay-le-cap :
    (draw : ℕ → ℕ) (base cap attempt retry_after : ℤ)
    → base <ℤ pos (2 ^ 63 - 1)
    → cap <ℤ pos (2 ^ 63 - 1)
    → ((n : ℕ) → 0 < n → draw n < n)
    → let b = new_backoff base cap in
      (d : ℤ) × (delay draw b attempt retry_after ≡ some d) × (d ≤ℤ b.cap)
unfolding delay
delay-le-cap draw base cap attempt retry_after h k below =
    let b = new_backoff base cap in
    let (base_eq, cap_eq, le, small) = new_backoff-sized (2 ^ 63 - 1) base cap (omega arith) h k in
    let m = min (pos_part b.cap) (pos_part b.base * 2 ^ pos_part attempt) in
    let window : exp_window b attempt ≡ pos m =
      exp_window-eq-min base cap attempt (omega (arith, h)) (omega (arith, k)) in
    elim (Bool-cases (ltb_ℤ (pos 0) retry_after)) [
      | inl hinted ↦ rw hinted (_, refl, ground (arith, hinted))
      | inr free ↦
          rw (free, window)
            (elim (Bool-cases (leb_ℤ (pos m) (pos 0))) [
              | inl zero_window ↦ rw zero_window (pos 0, refl, ground (arith, cap_eq))
              | inr open_window ↦
                  let positive : leb_ℤ (pos (m + 1)) (pos 0) ≡ false = ground arith in
                  rw (open_window, next_bound m (omega (arith, small)), positive)
                    (pos (draw (m + 1)), refl, ground (arith, cap_eq, below (m + 1) (omega arith)))
            ])
    ]
