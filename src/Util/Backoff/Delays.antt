-- ===== src/Util/Backoff/Delays.antt =====
-- How long the delays are, and how often a loop tries.
use natscli.Prelude.{
  ℕ, ◌+◌, ◌-◌, ◌/◌, ◌≤◌, ◌<◌, min, false, List, inl, inr, none, some, ◌≡◌, refl, ap, arith, leb,
  ◌==◌, if◌then◌else◌, leb→le, ==_iff, Bool-cases, length, get_elem?, get_elem?-some,
}
use natscli.Util.Backoff.{jitter, picked, duration}

-- A delay stands in a policy at the index, or is its last one.
abbrev pub At : List ℕ → ℕ → ℕ → Type 0
At millis n m = get_elem? millis (min n (length millis - 1)) ≡ some m

index_lem :
    (xs : List ℕ) (n : ℕ)
    → 1 ≤ length xs
    → (if leb (length xs) n
        then (if length xs == 0 then none else get_elem? xs (length xs - 1))
        else get_elem? xs n)
      ≡ get_elem? xs (min n (length xs - 1))
index_lem xs n h = elim (Bool-cases (leb (length xs) n)) [
  | inl e ↦
      let some_of : (length xs == 0) ≡ false = ground arith in
      let le = leb→le _ _ e in rw (e, some_of) (ap (get_elem? xs) (omega arith))
  | inr e ↦ let lt : n < length xs = ground arith in rw e (ap (get_elem? xs) (omega arith))
]

jitter_bounds :
    (rand : ℕ → ℕ) (m : ℕ)
    → ((k : ℕ) → 0 < k → rand k < k)
    → (m / 2 ≤ jitter rand m) × (jitter rand m ≤ m / 2 + (m - 1))
unfolding jitter
jitter_bounds rand m below = elim (Bool-cases (m == 0)) [
  | inl e ↦ let z = (==_iff m 0).0 e in rw e (omega arith, omega arith)
  | inr e ↦
      let some_of : 0 < m = ground arith in
      let less = below m some_of in rw e (omega arith, omega arith)
]

-- If the random numbers stay below their bound, a policy with delays waits between one half and three
-- halves of the delay at the try's index, or of the last one for a later try, the upper end excluded;
-- it waits not at all if that delay is zero.
pub duration-bounds :
    (millis : List ℕ) (rand : ℕ → ℕ) (n : ℕ)
    → 1 ≤ length millis
    → ((k : ℕ) → 0 < k → rand k < k)
    → (base : ℕ) × (d : ℕ) × At millis n base
      × (duration millis rand n ≡ some d)
      × (base / 2 ≤ d)
      × (d ≤ base / 2 + (base - 1))
unfolding duration picked
duration-bounds millis rand n some_of below =
    let (base, at) = get_elem?-some millis (min n (length millis - 1)) (omega arith) in
    let (low, high) = jitter_bounds rand base below in
    (base, jitter rand base, at, rw (index_lem millis n some_of, at) refl, low, high)
