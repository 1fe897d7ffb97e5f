-- ===== src/Duration/RoundTrip.antt =====
-- A duration that is shown as parts parses to its whole seconds.
use natscli.Prelude.{
  ℕ, ◌+◌, ◌-◌, ◌*◌, ◌/◌, ◌%◌, ◌^◌, ◌≤◌, ◌<◌, true, false, List, [], ◌∷◌, ◌++◌, ◌≢◌, inl, inr, some,
  ◌≡◌, refl, ap, ◌∙◌, arith, str_eq, ltb, ◌==◌, lt→ltb, ltb_false→le, Bool-cases, cons-ne-nil,
  cons-ne-nil,
}
use natscli.Prelude.Int.{pos}
use natscli.Util.Decimal.{is_letter}
use natscli.Duration.{
  Numbers, part_value, parse_duration, decimal, human, humanize_duration, second,
}
use natscli.Duration.Digits.{decimal-Spells}
use natscli.Duration.Matches.{part_of}
use natscli.Duration.Items.{IsExact, Item, text_of, sum_of, Fine, parse_items}

module _ (num : Numbers) (exact : IsExact num) where
  year_value :
      (n : ℕ)
      → n < 293
      → part_value num (part_of (decimal n) b'y') ≡ some (n * (365 * 24 * 3600 * second))
  unfolding part_value str_eq
  year_value n h =
      let spells = decimal-Spells n (omega arith) in
      let float =
        exact.float_exact (decimal n) n (24 ∷ 365 ∷ []) spells (omega arith) (omega arith) in
      rw float (ap some (omega arith))

  day_value :
      (n : ℕ)
      → n < 1000
      → part_value num (part_of (decimal n) b'd') ≡ some (n * (24 * 3600 * second))
  unfolding part_value str_eq
  day_value n h =
      let spells = decimal-Spells n (omega arith) in
      let float = exact.float_exact (decimal n) n (24 ∷ []) spells (omega arith) (omega arith) in
      rw float (ap some (omega arith))

  hour_value :
      (n : ℕ) → n < 100 → part_value num (part_of (decimal n) b'h') ≡ some (n * (3600 * second))
  unfolding part_value str_eq
  hour_value n h =
      exact.go_exact (decimal n) n b'h' 3600 (decimal-Spells n (omega arith)) refl (omega arith)

  minute_value :
      (n : ℕ) → n < 100 → part_value num (part_of (decimal n) b'm') ≡ some (n * (60 * second))
  unfolding part_value str_eq
  minute_value n h =
      exact.go_exact (decimal n) n b'm' 60 (decimal-Spells n (omega arith)) refl (omega arith)

  second_value :
      (n : ℕ) → n < 100 → part_value num (part_of (decimal n) b's') ≡ some (n * (1 * second))
  unfolding part_value str_eq
  second_value n h =
      exact.go_exact (decimal n) n b's' 1 (decimal-Spells n (omega arith)) refl (omega arith)

  -- The parts that are shown for a number of seconds.
  abbrev seconds_part : ℕ → List Item
  seconds_part t = (t % 60, b's', t % 60 * (1 * second)) ∷ []

  abbrev minutes_part : ℕ → List Item
  minutes_part t = (t / 60 % 60, b'm', t / 60 % 60 * (60 * second)) ∷ seconds_part t

  abbrev hours_part : ℕ → List Item
  hours_part t = (t / 60 / 60 % 24, b'h', t / 60 / 60 % 24 * (3600 * second)) ∷ minutes_part t

  abbrev days_part : ℕ → List Item
  days_part t =
      (t / 60 / 60 / 24 % 365, b'd', t / 60 / 60 / 24 % 365 * (24 * 3600 * second)) ∷ hours_part t

  letter :
      (is_letter b's' ≡ true)
      × (is_letter b'm' ≡ true)
      × (is_letter b'h' ≡ true)
      × (is_letter b'd' ≡ true)
      × (is_letter b'y' ≡ true)
  unfolding is_letter
  letter = (refl, refl, refl, refl, refl)

  minutes_part-Fine : (t : ℕ) → Fine num (minutes_part t)
  minutes_part-Fine t = (
    omega arith,
    letter.1,
    minute_value (t / 60 % 60) (omega arith),
    (omega arith, letter.0, second_value (t % 60) (omega arith), tt),
  )

  hours_part-Fine : (t : ℕ) → Fine num (hours_part t)
  hours_part-Fine t =
      (omega arith, letter.2, hour_value (t / 60 / 60 % 24) (omega arith), minutes_part-Fine t)

  days_part-Fine : (t : ℕ) → Fine num (days_part t)
  days_part-Fine t =
      (omega arith, letter.3, day_value (t / 60 / 60 / 24 % 365) (omega arith), hours_part-Fine t)

  abbrev years_part : ℕ → List Item
  years_part t =
      (t / 60 / 60 / 24 / 365, b'y', t / 60 / 60 / 24 / 365 * (365 * 24 * 3600 * second))
      ∷ days_part t

  years_part-Fine : (t : ℕ) → t < 2 ^ 63 / second + 1 → Fine num (years_part t)
  years_part-Fine t h =
      (omega arith, letter.4, year_value (t / 60 / 60 / 24 / 365) (omega arith), days_part-Fine t)

  -- The parts that are shown, what they add up to, and their text.
  abbrev Shown : ℕ → List Item → Type 0
  Shown d items =
      Fine num items
      × (items ≢ [])
      × (sum_of items ≡ d / second * second)
      × (human num d ≡ text_of items)

  human_lem : (d : ℕ) → 60 * second ≤ d → d < 2 ^ 63 → (items : List Item) × Shown d items
  unfolding human
  human_lem d low high =
      let t = d / second in
      elim (Bool-cases (ltb 0 (t / 60 / 60 / 24 / 365))) [
        | inl y ↦ (
          years_part t,
          (years_part-Fine t (omega arith), cons-ne-nil _ _, omega arith, rw y refl),
        )
        | inr y ↦
            let no_years = ltb_false→le 0 (t / 60 / 60 / 24 / 365) y in
            elim (Bool-cases (ltb 0 (t / 60 / 60 / 24))) [
              | inl dd ↦ (
                days_part t,
                (
                  days_part-Fine t,
                  cons-ne-nil _ _,
                  omega arith,
                  rw (y, dd) (ap (λ n. decimal n ++ b'd' ∷ text_of (hours_part t)) (omega arith)),
                ),
              )
              | inr dd ↦
                  let no_days = ltb_false→le 0 (t / 60 / 60 / 24) dd in
                  elim (Bool-cases (ltb 0 (t / 60 / 60))) [
                    | inl h ↦ (
                      hours_part t,
                      (
                        hours_part-Fine t,
                        cons-ne-nil _ _,
                        omega arith,
                        rw (y, dd, h)
                            (ap (λ n. decimal n ++ b'h' ∷ text_of (minutes_part t)) (omega arith)),
                      ),
                    )
                    | inr h ↦
                        let no_hours = ltb_false→le 0 (t / 60 / 60) h in
                        let some_of : ltb 0 (t / 60) ≡ true = lt→ltb 0 (t / 60) (omega arith) in
                        (
                          minutes_part t,
                          (
                            minutes_part-Fine t,
                            cons-ne-nil _ _,
                            omega arith,
                            rw (y, dd, h, some_of)
                                (ap (λ n. decimal n ++ b'm' ∷ text_of (seconds_part t))
                                  (omega arith)),
                          ),
                        )
                  ]
            ]
      ]

  -- If the library's numbers are exact, a duration of a minute or more that is no `never` parses, as it is
  -- shown, to its whole seconds.
  pub parse_duration-humanize_duration :
      (d : ℕ)
      → 60 * second ≤ d
      → d < 2 ^ 63 - 1
      → parse_duration num (humanize_duration num (pos d)) ≡ some (pos (d / second * second))
  unfolding humanize_duration
  parse_duration-humanize_duration d low high =
      let (items, (fine, some_of, total, shown)) = human_lem d low (omega arith) in
      let not_never : (d == 2 ^ 63 - 1) ≡ false = ground arith in
      let not_micro : ltb d 1000000 ≡ false = ground arith in
      let not_milli : ltb d second ≡ false = ground arith in
      rw (not_never, not_micro, not_milli, shown)
        (parse_items num items fine some_of (omega arith) ∙ ap (λ n. some (pos n)) total)
