-- ===== src/Consumers/Create.antt =====
-- cli/consumer_command.go, prepareConfig: what the flags leave open is set to its default or asked for. What
-- survey reads into a number is a number as ask_one_int reads it.
pub mod Config
pub mod Sound
pub mod Settled
mod Examples
use natscli.Prelude.{
  ℕ, ◌-◌, ◌*◌, Bool, true, false, not, ◌&&◌, ◌||◌, List, [], ◌∷◌, ◌⊎◌, inl, inr, Text, codes,
  str_eq, ltb, ◌==◌, if◌then◌else◌, any,
}
use natscli.Prelude.Int.{ℤ, pos, negsuc}
use natscli.Duration.{Numbers, parse_duration, decimal}
use natscli.Util.Subjects.{split_string}
use natscli.Dialog.{
  Refusal, Dialog, pure, refuse, or_refuse, ◌>>=◌, ask_one, ask_confirmation, ask_one_int,
}
use natscli.Streams.Names.{is_empty}
use natscli.Streams.Edit.{is_zero, is_minus_one, is_nil}
use natscli.Streams.Create.{minus_one, lift, given_or, ask_text, not_above}
use natscli.Consumers.{
  AckPolicy, DeliverPolicy, Start, Filters, BackoffFlags, ConsumerCmd, Externals, ack_none, ack_all,
  ack_explicit, ack_flow_control, deliver_all, deliver_last, deliver_new, deliver_last_per_subject,
  deliver_by_start_sequence, deliver_by_start_time,
}
use natscli.Consumers.Names.{set_start_policy, backoff_policy}
use natscli.Consumers.Names.Starts.{default_start}
use natscli.Consumers.Copy.{unset}

abbrev pub is_push : ConsumerCmd → Bool
is_push c = not (is_empty c.delivery)

abbrev pub is_ack_none : AckPolicy → Bool
is_ack_none ack_none = true
is_ack_none ack_all = false
is_ack_none ack_explicit = false
is_ack_none ack_flow_control = false

abbrev pub is_last_per_subject : DeliverPolicy → Bool
is_last_per_subject deliver_last_per_subject = true
is_last_per_subject deliver_all = false
is_last_per_subject deliver_last = false
is_last_per_subject deliver_new = false
is_last_per_subject deliver_by_start_sequence = false
is_last_per_subject deliver_by_start_time = false

unfoldable pub ask_consumer_name : ConsumerCmd → Dialog ConsumerCmd
ask_consumer_name c =
    given_or (not (is_empty c.consumer) || c.ephemeral) c
      (ask_one >>= λ name. pure (record c { consumer = name }))

-- `\.|\*|>`
abbrev pub is_special : ℕ → Bool
is_special c = c == b'.' || c == b'*' || c == b'>'

abbrev pub durable_of : ConsumerCmd → Text
durable_of c = if c.ephemeral then [] else c.consumer

unfoldable pub check_durable : ConsumerCmd → Dialog ConsumerCmd
check_durable c = if any is_special (durable_of c) then refuse Refusal.invalid_durable else pure c

unfoldable pub ask_target : ConsumerCmd → Dialog ConsumerCmd
ask_target c =
    given_or (c.pull || is_push c) c (ask_one >>= λ target. pure (record c { delivery = target }))

abbrev default_text : Text → Text → Text
default_text s d = if is_empty s then d else s

abbrev default_replay : ConsumerCmd → Text
default_replay c =
    if is_push c then codes "instant" else default_text c.replay_policy (codes "instant")

-- the block of acceptDefaults; what is delivered is replayed instantly, whatever the flag says
unfoldable pub default_consumer_flags : ConsumerCmd → ConsumerCmd
default_consumer_flags c =
    if c.accept_defaults
    then record c {
      delivery_group = if str_eq c.delivery_group unset then [] else c.delivery_group;
      start_policy = default_text c.start_policy (codes "all");
      ack_policy =
          default_text c.ack_policy
            (if c.pull || is_empty c.delivery then codes "explicit" else codes "none");
      max_deliver = if is_zero c.max_deliver then minus_one else c.max_deliver;
      max_ack_pending = if is_minus_one c.max_ack_pending then pos 0 else c.max_ack_pending;
      replay_policy = default_replay c;
      idle_heartbeat = default_text c.idle_heartbeat (codes "-1");
      headers_only = record c.headers_only { is_set = true };
      flow_control = record c.flow_control { is_set = c.flow_control.is_set || is_push c };
    }
    else c

unfoldable pub ask_group : ConsumerCmd → Dialog Text
ask_group c =
    given_or (not (is_push c && str_eq c.delivery_group unset)) c.delivery_group ask_one
    >>= λ group. pure (if str_eq group unset then [] else group)

unfoldable pub ask_start : Externals → ConsumerCmd → Dialog Start
ask_start ext c = ask_text c.start_policy >>= λ s. lift (set_start_policy ext s default_start)

-- a percentage that is 0 or less is none
unfoldable pub sample_flag : ℤ → Refusal ⊎ Text
sample_flag (negsuc n) = inr []
sample_flag (pos n) =
    if n == 0 then inr [] else if ltb 100 n then inl Refusal.invalid_sample else inr (decimal n)

-- Push consumers are asked once more when the first answer is empty.
unfoldable pub ask_replay_again : ConsumerCmd → Text → Dialog Text
ask_replay_again c s = if is_push c && is_empty s then ask_one else pure s

-- one filter, or several; all subjects where the last message of each is asked for
filters_of : List Text → Filters
filters_of [] = record { filter_subject = []; filter_subjects = [] }
filters_of (s ∷ []) = record { filter_subject = s; filter_subjects = [] }
filters_of (s ∷ t ∷ ss) = record { filter_subject = []; filter_subjects = s ∷ t ∷ ss }

unfoldable pub all_or : DeliverPolicy → List Text → Filters
unfolding filters_of
all_or policy ss =
    if is_nil ss && is_last_per_subject policy
    then record { filter_subject = codes ">"; filter_subjects = [] }
    else filters_of ss

unfoldable pub ask_filters : ConsumerCmd → DeliverPolicy → Dialog Filters
unfolding all_or
ask_filters c policy =
    given_or (not (is_nil c.filter_subjects) || c.accept_defaults) c.filter_subjects
      (ask_one >>= λ s. pure (split_string s))
    >>= λ ss. pure (all_or policy ss)

unfoldable pub ask_max_deliver : ConsumerCmd → AckPolicy → Dialog ℤ
ask_max_deliver c ack =
    given_or (not (is_zero c.max_deliver) || is_ack_none ack) c.max_deliver ask_one_int

unfoldable pub ask_max_ack_pending : ConsumerCmd → AckPolicy → Dialog ℤ
ask_max_ack_pending c ack =
    given_or (not (is_minus_one c.max_ack_pending) || is_ack_none ack) c.max_ack_pending ask_one_int
    >>= λ n. pure (if is_minus_one n then pos 0 else n)

unfoldable pub ask_heartbeat : Externals → ConsumerCmd → Dialog ℤ
ask_heartbeat ext c =
    if is_empty c.delivery || str_eq c.idle_heartbeat (codes "-1")
    then pure (pos 0)
    else (ask_text c.idle_heartbeat >>= λ s.
        or_refuse (parse_duration ext.numbers s) Refusal.invalid_heartbeat)

unfoldable pub ask_flow_control : ConsumerCmd → Dialog Bool
ask_flow_control c =
    if is_empty c.delivery
    then pure false
    else given_or c.flow_control.is_set c.flow_control.value ask_confirmation

unfoldable pub ask_headers_only : ConsumerCmd → Dialog Bool
ask_headers_only c = given_or c.headers_only.is_set c.headers_only.value ask_confirmation

ask_retry_time : Numbers → Dialog ℤ
ask_retry_time num = ask_one >>= λ d. or_refuse (parse_duration num d) Refusal.invalid_backoff

ask_backoff_times : Numbers → Text → BackoffFlags → Dialog BackoffFlags
unfolding ask_retry_time
ask_backoff_times num mode b = ask_retry_time num >>= λ least. ask_retry_time num >>= λ most.
    ask_one_int >>= λ steps.
    if not_above steps 0
    then refuse Refusal.invalid_backoff
    else pure (record b {
      mode = mode;
      min_wait = least;
      max_wait = most;
      steps = natscli.Streams.Sources.uint64 steps;
    })

unfoldable pub ask_backoff_policy : Numbers → BackoffFlags → Dialog BackoffFlags
unfolding ask_backoff_times
ask_backoff_policy num b = ask_confirmation >>= λ ok.
    if ok
    then (ask_one >>= λ mode.
        if str_eq mode (codes "none")
        then pure (record b { mode = mode })
        else ask_backoff_times num mode b)
    else pure b

unfoldable pub ask_backoff : Externals → ConsumerCmd → AckPolicy → Dialog BackoffFlags
ask_backoff ext c ack =
    given_or (is_ack_none ack || c.accept_defaults || not (is_empty c.backoff.mode)) c.backoff
      (ask_backoff_policy ext.numbers c.backoff)

unfoldable pub settle_backoff : Externals → BackoffFlags → Dialog (List ℤ)
settle_backoff ext b = if is_empty b.mode then pure [] else lift (backoff_policy ext b)
