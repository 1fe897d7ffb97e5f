-- ===== src/Publish/Schedule/Examples.antt =====
-- A schedule of two kinds, and one of none.
use natscli.Prelude.{true, inr, none, some, ◌≡◌, refl, codes, str_eq}
use natscli.Prelude.Int.{pos}
use natscli.Publish.Samples.{times, no_schedule}
use natscli.Publish.Schedule.{
  Schedule, ScheduleError, schedule_error, validate_schedule_headers, pattern_of,
}

abbrev to_dest : Schedule
to_dest = record no_schedule { dest = codes "d" }

two_kinds :
    schedule_error (record to_dest { at = codes "t"; after = pos 5; after_is_set = true })
    ≡ some ScheduleError.at_with_after
unfolding schedule_error str_eq
two_kinds = refl

-- a destination alone is accepted, and leaves the pattern out
no_kind :
    (validate_schedule_headers times to_dest ≡ inr to_dest) × (pattern_of times 0 to_dest ≡ none)
unfolding validate_schedule_headers schedule_error pattern_of str_eq
no_kind = (refl, refl)
