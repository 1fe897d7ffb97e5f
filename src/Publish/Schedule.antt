-- ===== src/Publish/Schedule.antt =====
-- cli/pub_command.go: validateScheduleHeaders and addScheduleHeaders. The times of package time and the
-- header names of jsm.go are parameters; a duration is its nanoseconds.
pub mod Valid
mod Examples
use natscli.Prelude.{
  ℕ, ◌+◌, Bool, not, ◌&&◌, ◌||◌, [], ◌++◌, ◌⊎◌, inl, inr, Option, none, some, Text, codes, str_eq,
  if◌then◌else◌,
}
use natscli.Prelude.Int.{ℤ, pos, ltb_ℤ}
use natscli.Publish.Message.{Packages}

pub data ScheduleError : Type 0 where
  destination_required after_not_positive every_not_positive : ScheduleError
  at_with_after every_with_other cron_with_other bad_time : ScheduleError

-- the schedule's flags, and scheduleAtParsed
pub record Schedule : Type 0 where
  pub dest : Text
  pub at : Text
  pub at_parsed : Text
  pub after : ℤ
  pub after_is_set : Bool
  pub every : ℤ
  pub every_is_set : Bool
  pub cron : Text
  pub ttl : ℤ
  pub source : Text

-- time.Parse and Format of an RFC3339 time in UTC; the time `after` from now; a duration's text; the
-- names of the headers
pub record Times : Type 0 where
  pub utc : Text → Option Text
  pub from_now : ℕ → ℤ → Text
  pub duration : ℤ → Text
  pub target_key : Text
  pub pattern_key : Text
  pub ttl_key : Text
  pub source_key : Text

abbrev pub positive : ℤ → Bool
positive n = ltb_ℤ (pos 0) n

abbrev pub is_given : Text → Bool
is_given t = not (str_eq t [])

parsed_at : Schedule → Option Text → ScheduleError ⊎ Schedule
parsed_at s none = inl ScheduleError.bad_time
parsed_at s (some t) = inr (record s { at_parsed = t })

-- validateScheduleHeaders
unfoldable pub schedule_error : Schedule → Option ScheduleError
schedule_error s =
    if str_eq s.dest []
    then some ScheduleError.destination_required
    else if s.after_is_set && not (positive s.after)
    then some ScheduleError.after_not_positive
    else if s.every_is_set && not (positive s.every)
    then some ScheduleError.every_not_positive
    else if is_given s.at && positive s.after
    then some ScheduleError.at_with_after
    else if positive s.every && (is_given s.at || positive s.after)
    then some ScheduleError.every_with_other
    else if is_given s.cron && (is_given s.at || positive s.after || positive s.every)
    then some ScheduleError.cron_with_other
    else none

unfoldable pub validate_schedule_headers : Times → Schedule → ScheduleError ⊎ Schedule
unfolding parsed_at
validate_schedule_headers times s = elim (schedule_error s) [
  | some e ↦ inl e
  | none ↦ if is_given s.at then parsed_at s (times.utc s.at) else inr s
]

-- the switch of addScheduleHeaders
unfoldable pub pattern_of : Times → ℕ → Schedule → Option Text
pattern_of times now s =
    if is_given s.at_parsed
    then some (codes "@at " ++ s.at_parsed)
    else if positive s.after
    then some (codes "@at " ++ times.from_now now s.after)
    else if positive s.every
    then some (codes "@every " ++ times.duration s.every)
    else if is_given s.cron
    then some s.cron
    else none

set_if {ℓ} : {H : Type ℓ} → Packages H → Text → Option Text → H → H
set_if p key none h = h
set_if p key (some v) h = p.set_header key v h

-- addScheduleHeaders
unfoldable pub add_schedule_headers {ℓ} : {H : Type ℓ} → Packages H → Times → ℕ → Schedule → H → H
unfolding set_if
add_schedule_headers p times now s h =
    let targeted = p.set_header times.target_key s.dest h in
    let patterned = set_if p times.pattern_key (pattern_of times now s) targeted in
    let ttl = if positive s.ttl then some (times.duration s.ttl) else none in
    let source = if is_given s.source then some s.source else none in
    set_if p times.source_key source (set_if p times.ttl_key ttl patterned)
