-- ===== src/Consumers/Names.antt =====
-- cli/consumer_command.go: the policies by their names, the start of a consumer and the backoff.
pub mod Starts
mod Examples
use natscli.Prelude.{
  ℕ, suc, ◌+◌, ◌-◌, ◌^◌, Bool, false, ◌||◌, List, [], ◌∷◌, ◌⊎◌, inl, inr, Option, none, some, Text,
  codes, str_eq, ltb, ◌==◌, if◌then◌else◌, all,
}
use natscli.Prelude.Int.{ℤ, pos, negsuc, ◌+ℤ◌, ◌-ℤ◌}
use natscli.Duration.{parse_duration, decimal}
use natscli.Util.Decimal.{is_digit, parse_int}
use natscli.Dialog.{Refusal}
use natscli.Streams.Names.{to_lower, is_empty}
use natscli.Streams.Edit.{or_else, is_zero}
use natscli.Consumers.{
  AckPolicy, ReplayPolicy, Start, BackoffFlags, Externals, deliver_all, deliver_last, deliver_new,
  deliver_last_per_subject, deliver_by_start_sequence, deliver_by_start_time,
}

unfoldable pub replay_policy_from_string : Text → Refusal ⊎ ReplayPolicy
unfolding to_lower
replay_policy_from_string s =
    let p = to_lower s in
    if str_eq p (codes "instant")
    then inr ReplayPolicy.replay_instant
    else if str_eq p (codes "original")
    then inr ReplayPolicy.replay_original
    else inl Refusal.invalid_replay

unfoldable pub ack_policy_from_string : Text → Refusal ⊎ AckPolicy
unfolding to_lower
ack_policy_from_string s =
    let p = to_lower s in
    if str_eq p (codes "none")
    then inr AckPolicy.ack_none
    else if str_eq p (codes "all")
    then inr AckPolicy.ack_all
    else if str_eq p (codes "explicit")
    then inr AckPolicy.ack_explicit
    else if str_eq p (codes "flowcontrol")
        || str_eq p (codes "flow_control")
        || str_eq p (codes "fc")
    then inr AckPolicy.ack_flow_control
    else inl Refusal.invalid_ack

-- Every call passes the percentage of the flag.
unfoldable pub sample_freq_from_int : ℤ → Refusal ⊎ Text
sample_freq_from_int (negsuc n) = inl Refusal.invalid_sample
sample_freq_from_int (pos n) =
    if ltb 100 n then inl Refusal.invalid_sample else inr (if n == 0 then [] else decimal n)

-- `^\d+$`
unfoldable pub is_sequence : Text → Bool
unfolding is_digit
is_sequence [] = false
is_sequence (c ∷ s) = all is_digit (c ∷ s)

-- strconv.Atoi of digits: out of range it gives the greatest number, and its error is not looked at.
abbrev pub sequence_of : Option ℤ → ℕ
sequence_of none = 2 ^ 63 - 1
sequence_of (some (pos n)) = n
sequence_of (some (negsuc n)) = 2 ^ 64 - suc n

-- where a consumer starts that starts a time before now
abbrev pub started_at : Externals → Start → Option ℤ → Refusal ⊎ Start
started_at ext old none = inl Refusal.invalid_start
started_at ext old (some d) =
    inr
      (record old { deliver_policy = deliver_by_start_time; opt_start_time = some (ext.now -ℤ d) })

unfoldable pub set_start_policy : Externals → Text → Start → Refusal ⊎ Start
unfolding is_sequence
set_start_policy ext s old =
    if is_empty s
    then inr old
    else if str_eq s (codes "all")
    then inr (record old { deliver_policy = deliver_all })
    else if str_eq s (codes "last")
    then inr (record old { deliver_policy = deliver_last })
    else if str_eq s (codes "new") || str_eq s (codes "next")
    then inr (record old { deliver_policy = deliver_new })
    else if str_eq s (codes "subject") || str_eq s (codes "last_per_subject")
    then inr (record old { deliver_policy = deliver_last_per_subject })
    else if is_sequence s
    then inr (record old {
      deliver_policy = deliver_by_start_sequence;
      opt_start_seq = sequence_of (parse_int s 64);
    })
    else started_at ext old (parse_duration ext.numbers s)

unfoldable pub backoff_policy : Externals → BackoffFlags → Refusal ⊎ List ℤ
backoff_policy ext b =
    if str_eq b.mode (codes "none")
    then inr []
    else if is_empty b.mode || b.steps == 0 || is_zero b.min_wait || is_zero b.max_wait
    then inl Refusal.invalid_backoff
    else if str_eq b.mode (codes "linear")
    then or_else (ext.linear_backoff_periods b.steps b.min_wait b.max_wait) Refusal.invalid_backoff
    else inl Refusal.invalid_backoff

-- parsePauseUntil: a time stamp, or a duration from now
abbrev from_now : Externals → Option ℤ → Refusal ⊎ ℤ
from_now ext none = inl Refusal.invalid_pause
from_now ext (some d) = inr (ext.now +ℤ d)

abbrev stamp_or : Externals → Text → Option ℤ → Refusal ⊎ ℤ
stamp_or ext s none = from_now ext (parse_duration ext.numbers s)
stamp_or ext s (some ts) = inr ts

unfoldable pub parse_pause_until : Externals → Text → Refusal ⊎ ℤ
parse_pause_until ext s =
    if is_empty s then inl Refusal.invalid_pause else stamp_or ext s (ext.date_time s)
