-- ===== src/Publish/Action/Choice.antt =====
-- Which loop is run for which flags.
use natscli.Prelude.{
  Bool, true, false, ◌||◌, ◌≢◌, ◌↔◌, inl, inr, ◌≡◌, refl, arith, Bool-cases, Sum-cases,
}
use natscli.Publish.Schedule.{Schedule, Times, validate_schedule_headers}
use natscli.Publish.Schedule.Valid.{IsValid, Parsed, validate_schedule_headers_iff}
use natscli.Publish.Stdin.{SendOn, Publisher}
use natscli.Publish.Atomic.{is_eof}
use natscli.Publish.Action.{Flags, Action, schedule_given, schedule_of, choose, publish_action}

-- The schedule that is used: the flags' own if none is given, else the parsed one of valid flags.
abbrev pub Scheduled : Times → Schedule → Bool → Schedule → Type 0
Scheduled times s schedules v =
    (schedule_given s ≡ schedules)
    × (schedules ≡ true → IsValid s × Parsed times s v)
    × (schedules ≡ false → v ≡ s)

schedule_of_iff :
    (times : Times) (s : Schedule) (schedules : Bool) (v : Schedule)
    → (schedule_of times s ≡ inr (schedules, v)) ↔ Scheduled times s schedules v
unfolding schedule_of
schedule_of_iff times s schedules v =
    let parsed = validate_schedule_headers_iff times s v in
    elim (Bool-cases (schedule_given s)) [
      | inl g ↦ elim (Sum-cases (validate_schedule_headers times s)) [
        | inl (e, eq) ↦ (λ h. ground arith, λ (a, b, d). ground arith)
        | inr (w, eq) ↦ (
          λ h. (ground arith, λ k. parsed.0 (ground arith), λ k. ground arith),
          λ (a, b, d). ground arith,
        )
      ]
      | inr g ↦
          (λ h. (ground arith, λ k. ground arith, λ k. ground arith), λ (a, b, d). ground arith)
    ]

-- Without a flag of a schedule there is none.
schedule_of_none :
    (times : Times) (s : Schedule) → schedule_given s ≡ false → schedule_of times s ≡ inr (false, s)
unfolding schedule_of
schedule_of_none times s h = rw h refl

schedule_of_given :
    (times : Times) (s : Schedule) (schedules : Bool) (v : Schedule)
    → schedule_of times s ≡ inr (schedules, v)
    → schedule_given s ≡ schedules
schedule_of_given times s schedules v h = ((schedule_of_iff times s schedules v).0 h).0

-- An atomic batch is published exactly with --atomic, no flag of a schedule, a server of API level 2 and
-- lines read from standard input; JetStream messages exactly without --atomic and with --jetstream or
-- valid flags of a schedule; and plain ones exactly with none of these flags.
pub publish_action_iff :
    (times : Times) (level : Bool) (pub_of : Publisher) (fl : Flags)
    → ((publish_action times level pub_of fl ≡ inr Action.publish_atomic_batch) ↔ (
        (fl.atomic ≡ true)
        × (schedule_given fl.schedule ≡ false)
        × (level ≡ true)
        × (pub_of.use_stdin ≡ true)
        × (pub_of.send_on ≡ SendOn.newline)))
      × ((schedules : Bool) (v : Schedule)
          → (publish_action times level pub_of fl ≡ inr (Action.publish_jetstream schedules v)) ↔ (
              (fl.atomic ≡ false)
              × ((fl.jetstream || schedules) ≡ true)
              × Scheduled times fl.schedule schedules v))
      × ((publish_action times level pub_of fl ≡ inr Action.publish_nats_msg)
          ↔ ((fl.atomic ≡ false) × (fl.jetstream ≡ false) × (schedule_given fl.schedule ≡ false)))
unfolding publish_action choose is_eof
publish_action_iff times level pub_of fl =
    let s = fl.schedule in
    elim (Sum-cases (schedule_of times s)) [
      | inl (e, eq) ↦
          let no : schedule_given s ≢ false = λ g. ground (arith, schedule_of_none times s g) in
          (
            (λ h. ground arith, λ (a, g, l, u, n). absurd (no g)),
            λ b v.
                (λ h. ground arith, λ (a, j, k). ground (arith, (schedule_of_iff times s b v).1 k)),
            (λ h. ground arith, λ (a, j, g). absurd (no g)),
          )
      | inr ((b, w), eq) ↦
          let given = schedule_of_given times s b w eq in
          (
            (λ h. ground arith, λ (a, g, l, u, n). ground arith),
            λ d v. (
              λ h. (ground arith, ground arith, (schedule_of_iff times s d v).0 (ground arith)),
              λ (a, j, k). ground (arith, (schedule_of_iff times s d v).1 k),
            ),
            (λ h. ground arith, λ (a, j, g). ground arith),
          )
    ]
