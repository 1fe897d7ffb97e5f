-- ===== src/Util/Backoff.antt =====
-- internal/util/backoff.go: delays that grow with the tries. `rand m` is what rand.N(m) gave; a context
-- and a callback are what they answer at each try.
pub mod Delays
mod Examples
use natscli.Prelude.{
  ℕ, zero, suc, ◌+◌, ◌-◌, ◌/◌, Bool, true, false, not, List, [], ◌∷◌, Option, none, some, leb, ◌==◌,
  if◌then◌else◌, length, get_elem?,
}

abbrev pub default_backoff : List ℕ
default_backoff =
    500 ∷ 750 ∷ 1000 ∷ 1500 ∷ 2000 ∷ 2500 ∷ 3000 ∷ 3500 ∷ 4000 ∷ 4500 ∷ 5000 ∷ 5500 ∷ 5750 ∷ 6000
    ∷ 6500 ∷ 7000 ∷ 7500 ∷ 8000 ∷ 8500 ∷ 9000 ∷ 9500 ∷ 10000 ∷ 10500 ∷ 10750 ∷ 11000 ∷ 11500 ∷ 12000
    ∷ 12500 ∷ 13000 ∷ 13500 ∷ 14000 ∷ 14500 ∷ 15000 ∷ 15500 ∷ 15750 ∷ 16000 ∷ 16500 ∷ 17000 ∷ 17500
    ∷ 18000 ∷ 18500 ∷ 19000 ∷ 19500 ∷ 20000 ∷ []

unfoldable pub jitter : (ℕ → ℕ) → ℕ → ℕ
jitter rand millis = if millis == 0 then 0 else millis / 2 + rand millis

-- the delay that an index picks; a policy without delays panics
picked : (ℕ → ℕ) → Option ℕ → Option ℕ
picked rand none = none
picked rand (some m) = some (jitter rand m)

-- Duration, in milliseconds
unfoldable pub duration : List ℕ → (ℕ → ℕ) → ℕ → Option ℕ
unfolding picked
duration millis rand n = picked rand (
    if leb (length millis) n
    then (if length millis == 0 then none else get_elem? millis (length millis - 1))
    else get_elem? millis n)

pub data ForResult : Type 0 where
  succeeded cancelled panicked out_of_fuel : ForResult

-- What the loop did: the tries that it made and the delay behind each that failed.
abbrev pub Trace : Type 0
Trace = List (ℕ × ℕ) × ForResult

pub slept : ℕ → Option ℕ → Bool → Trace → Trace
slept tries none woken next = ([], panicked)
slept tries (some d) false next = ((tries, d) ∷ [], cancelled)
slept tries (some d) true (rest, ending) = ((tries, d) ∷ rest, ending)

-- For, after `tries` tries: `alive` is the context before a try and `woken` at its sleep's end
unfoldable pub for_loop :
    List ℕ → (ℕ → ℕ → ℕ) → (ℕ → Bool) → (ℕ → Bool) → (ℕ → Bool) → ℕ → ℕ → Trace
unfolding slept
for_loop millis rand alive woken cb zero tries = ([], out_of_fuel)
for_loop millis rand alive woken cb (suc fuel) tries =
    let next = for_loop millis rand alive woken cb fuel (tries + 1) in
    if not (alive (tries + 1))
    then ([], cancelled)
    else (if cb (tries + 1)
        then ([], succeeded)
        else slept (tries + 1) (duration millis (rand (tries + 1)) tries) (woken (tries + 1)) next)
