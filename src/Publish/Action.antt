-- ===== src/Publish/Action.antt =====
-- cli/pub_command.go, publishAction: the count, the publisher, the schedule and which loop is run. The
-- connection is left out; whether the server has API level 2 is a parameter.
pub mod Choice
pub mod Composed
mod Examples
use natscli.Prelude.{
  ℕ, Bool, true, false, not, ◌&&◌, ◌||◌, ◌⊎◌, inl, inr, Text, codes, str_eq, if◌then◌else◌,
}
use natscli.Prelude.Int.{ℤ, pos, pos_part, ltb_ℤ}
use natscli.Publish.Schedule.{
  Schedule, ScheduleError, Times, positive, is_given, validate_schedule_headers,
}
use natscli.Publish.Stdin.{SendOn, Publisher, use_stdin_of}
use natscli.Publish.Atomic.{is_eof}

pub record Flags : Type 0 where
  pub body_is_set : Bool
  pub force_stdin : Bool
  pub atomic : Bool
  pub jetstream : Bool
  pub templates : Bool
  pub count : ℤ
  pub send_on : Text
  pub schedule : Schedule

pub data ActionError : Type 0 where
  bad_schedule : ScheduleError → ActionError
  atomic_with_schedules not_by_lines api_level : ActionError

-- the loop that is run: publishAtomicBatch, publishJetstream with c.schedules, or publishNatsMsg
pub data Action : Type 0 where
  publish_atomic_batch : Action
  publish_jetstream : Bool → Schedule → Action
  publish_nats_msg : Action

unfoldable pub count_of : ℤ → ℕ
count_of n = if ltb_ℤ n (pos 1) then 1 else pos_part n

-- NewPublisher and SetSendOnNewLine
unfoldable pub publisher_of : Bool → Bool → Flags → Publisher
publisher_of stdin_terminal terminal fl = record {
  use_stdin = use_stdin_of fl.body_is_set stdin_terminal terminal fl.force_stdin;
  templates = fl.templates;
  send_on = if str_eq fl.send_on (codes "newline") then SendOn.newline else SendOn.eof;
}

-- whether a flag of a schedule is given
unfoldable pub schedule_given : Schedule → Bool
schedule_given s =
    is_given s.cron
    || s.after_is_set
    || is_given s.at
    || is_given s.source
    || positive s.ttl
    || s.every_is_set
    || is_given s.dest

unfoldable pub schedule_of : Times → Schedule → ScheduleError ⊎ (Bool × Schedule)
schedule_of times s =
    if schedule_given s
    then elim (validate_schedule_headers times s) [ inl e ↦ inl e | inr v ↦ inr (true, v) ]
    else inr (false, s)

-- the switch
unfoldable pub choose :
    Bool → Publisher → Flags → ScheduleError ⊎ (Bool × Schedule) → ActionError ⊎ Action
choose level pub_of fl (inl e) = inl (bad_schedule e)
choose level pub_of fl (inr (schedules, s)) =
    if fl.atomic
    then if schedules
      then inl ActionError.atomic_with_schedules
      else if not (pub_of.use_stdin && not (is_eof pub_of.send_on))
      then inl ActionError.not_by_lines
      else if level
      then inr Action.publish_atomic_batch
      else inl ActionError.api_level
    else if fl.jetstream || schedules
    then inr (Action.publish_jetstream schedules s)
    else inr Action.publish_nats_msg

unfoldable pub publish_action : Times → Bool → Publisher → Flags → ActionError ⊎ Action
publish_action times level pub_of fl = choose level pub_of fl (schedule_of times fl.schedule)
