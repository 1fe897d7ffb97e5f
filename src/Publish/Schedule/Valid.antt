-- ===== src/Publish/Schedule/Valid.antt =====
-- Which schedules are accepted, and the pattern of one that is.
use natscli.Prelude.{
  ℕ, ◌+◌, ◌≤◌, Bool, true, false, [], ◌++◌, ◌↔◌, ◌⊎◌, inl, inr, none, some, ◌≡◌, refl, arith, Text,
  codes, str_eq, if◌then◌else◌, Bool-cases, Option-cases,
}
use natscli.Publish.Schedule.{
  Schedule, Times, positive, is_given, schedule_error, validate_schedule_headers, pattern_of,
}

abbrev one_if : Bool → ℕ
one_if b = if b then 1 else 0

-- How many of --schedule-at, --schedule-after, --schedule-every and --schedule-cron are given.
abbrev pub kinds : Schedule → ℕ
kinds s =
    one_if (is_given s.at)
    + one_if (positive s.after)
    + one_if (positive s.every)
    + one_if (is_given s.cron)

abbrev pub IsValid : Schedule → Type 0
IsValid s =
    (is_given s.dest ≡ true)
    × (s.after_is_set ≡ true → positive s.after ≡ true)
    × (s.every_is_set ≡ true → positive s.every ≡ true)
    × (kinds s ≤ 1)

-- A schedule passes the tests exactly if it is valid.
schedule_error_iff : (s : Schedule) → (schedule_error s ≡ none) ↔ IsValid s
unfolding schedule_error
schedule_error_iff s = (λ h. ground arith, λ h. ground arith)

-- What an accepted schedule becomes: the time of --schedule-at, if it is given, in UTC.
abbrev pub Parsed : Times → Schedule → Schedule → Type 0
Parsed times s v =
    ((is_given s.at ≡ false) × (v ≡ s))
    ⊎ ((t : Text) × (is_given s.at ≡ true)
        × (times.utc s.at ≡ some t)
        × (v ≡ record s { at_parsed = t }))

-- A schedule is accepted exactly if it has a destination, --schedule-after and --schedule-every are
-- positive where they are given, at most one of these two, --schedule-at and --schedule-cron is given, and
-- the time of --schedule-at parses.
pub validate_schedule_headers_iff :
    (times : Times) (s v : Schedule)
    → (validate_schedule_headers times s ≡ inr v) ↔ (IsValid s × Parsed times s v)
unfolding validate_schedule_headers
validate_schedule_headers_iff times s v =
    let valid = schedule_error_iff s in
    elim (Option-cases (schedule_error s)) [
      | inr (e, eq) ↦ (λ h. ground arith, λ (ok, r). ground arith)
      | inl eq ↦ elim (Bool-cases (is_given s.at)) [
        | inl g ↦ elim (Option-cases (times.utc s.at)) [
          | inl t ↦ (λ h. ground arith, λ (ok, r). ground arith)
          | inr (u, t) ↦ (λ h. ground arith, λ (ok, r). ground arith)
        ]
        | inr g ↦ (λ h. ground arith, λ (ok, r). ground arith)
      ]
    ]

-- An accepted schedule has the pattern of the one kind that is given, and none if there is none; the
-- time of --schedule-at is its parsed one, which is never empty.
pub pattern_of_lem :
    (times : Times) (now : ℕ) (s v : Schedule)
    → ((t u : Text) → times.utc t ≡ some u → is_given u ≡ true)
    → s.at_parsed ≡ []
    → validate_schedule_headers times s ≡ inr v
    → (is_given s.at ≡ true
        → (t : Text) × (times.utc s.at ≡ some t)
          × (pattern_of times now v ≡ some (codes "@at " ++ t)))
      × (positive s.after ≡ true
          → pattern_of times now v ≡ some (codes "@at " ++ times.from_now now s.after))
      × (positive s.every ≡ true
          → pattern_of times now v ≡ some (codes "@every " ++ times.duration s.every))
      × (is_given s.cron ≡ true → pattern_of times now v ≡ some s.cron)
      × (kinds s ≡ 0 → pattern_of times now v ≡ none)
unfolding pattern_of
pattern_of_lem times now s v full fresh h =
    let ((dest, after, every, few), parsed) = (validate_schedule_headers_iff times s v).0 h in
    let empty : is_given s.at_parsed ≡ false = unfold str_eq in rw fresh refl in
    elim parsed [
      | inl (g, e) ↦ rw e (
        λ h. ground arith,
        λ h. ground arith,
        λ h. ground arith,
        λ h. ground arith,
        λ h. ground arith,
      )
      | inr (t, g, u, e) ↦
          let some_of = full s.at t u in
          rw e (
            λ h. (t, u, ground arith),
            λ h. ground arith,
            λ h. ground arith,
            λ h. ground arith,
            λ h. ground arith,
          )
    ]
