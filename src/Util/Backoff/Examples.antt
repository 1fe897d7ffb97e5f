-- ===== src/Util/Backoff/Examples.antt =====
-- The default policy, with the smallest and the greatest random numbers.
use natscli.Prelude.{ℕ, ◌+◌, ◌-◌, ◌/◌, ◌≤◌, true, [], ◌∷◌, some, ◌≡◌, refl, arith, ◌==◌}
use natscli.Util.Backoff.{default_backoff, jitter, duration, succeeded, for_loop}
use natscli.Util.Backoff.Delays.{At, duration-bounds}

abbrev greatest : ℕ → ℕ
greatest k = k - 1

-- the first delay, and the one of every try from the last index on
first_and_last :
    (duration default_backoff greatest 0 ≡ some 749)
    × (duration default_backoff greatest 99 ≡ some 29999)
unfolding duration jitter
first_and_last = (refl, refl)

-- the callback is told its try from one on, the sleeps count from zero
third_try :
    for_loop default_backoff (λ try k. 0) (λ try. true) (λ try. true) (λ try. try == 3) 5 0
    ≡ ((1, 250) ∷ (2, 375) ∷ [], succeeded)
unfolding for_loop duration jitter
third_try = refl

duration_bounds_run :
    (base : ℕ) × (d : ℕ) × At default_backoff 99 base
    × (duration default_backoff greatest 99 ≡ some d)
    × (base / 2 ≤ d)
    × (d ≤ base / 2 + (base - 1))
duration_bounds_run = duration-bounds default_backoff greatest 99 (omega arith) (λ k h. omega arith)
