-- ===== src/Subscribe/Inputs.antt =====
-- cli/sub_command.go: validateInputs and makeConsumerConfig. What the server answers about a stream and its
-- API level, the making of a directory, the inbox and parseDuration are parameters.
pub mod Accepted
mod Examples
use natscli.Prelude.{
  ℕ, ◌-◌, Bool, true, false, not, ◌&&◌, ◌||◌, List, [], ◌∷◌, ◌⊎◌, inl, inr, Option, none, some,
  Text, codes, str_eq, ltb, ◌==◌, if◌then◌else◌, length, get_or, get_or,
}
use natscli.Prelude.Int.{ℤ}

pub data Retention : Type 0 where
  limits interest work_queue : Retention

pub record StreamInfo : Type 0 where
  pub retention : Retention
  pub allow_direct : Bool

-- js.StreamNameBySubject, js.Stream and RequireAPILevel
pub record Server : Type 0 where
  pub stream_name_by_subject : Text → Option Text
  pub stream_info : Text → Option StreamInfo
  pub api_level : Bool

-- the flags and arguments that are looked at
pub record Inputs : Type 0 where
  pub subjects : List Text
  pub queue : Text
  pub durable : Text
  pub stream : Text
  pub sseq : ℕ
  pub deliver_all : Bool
  pub deliver_new : Bool
  pub deliver_last : Bool
  pub deliver_since : Text
  pub deliver_last_per_subject : Bool
  pub direct : Bool
  pub inbox : Bool
  pub stop_at_pending_zero : Bool
  pub dump : Text
  pub report_subjects : Bool
  pub report_subjects_count : ℕ
  pub report_sub : Bool
  pub time_stamps : Bool
  pub delta_time_stamps : Bool
  pub backup : Text
  pub graph_only : Bool
  pub quiet : Bool
  pub match_replies : Bool

pub data InputError : Type 0 where
  subjects_and_durable subject_required one_subject terminate_at_end inbox_with_stream : InputError
  queue_with_stream inbox_with_dump subject_count timestamps backup_with_report
        quiet_without_backup :
      InputError
  quiet_with_dump dump_directory no_stream unknown_stream direct_with_durable direct_subjects :
      InputError
  direct_not_allowed api_level match_with_stream backup_with_batches : InputError

-- c.jetStream
unfoldable pub is_jetstream : Inputs → Bool
is_jetstream c =
    ltb 0 c.sseq
    || ltb 0 (length c.durable)
    || c.deliver_all
    || c.deliver_new
    || c.deliver_last
    || not (str_eq c.deliver_since [])
    || c.deliver_last_per_subject
    || not (str_eq c.stream [])
    || c.direct

-- the switch on the subjects, with the inbox that nc.NewRespInbox gives
unfoldable pub with_subjects : Text → Inputs → InputError ⊎ Inputs
with_subjects inbox c =
    if length c.subjects == 0 && c.inbox
    then inr (record c { subjects = inbox ∷ [] })
    else if length c.subjects == 0 && str_eq c.stream []
    then inl InputError.subject_required
    else if ltb 1 (length c.subjects) && is_jetstream c
    then inl InputError.one_subject
    else inr c

-- the checks of flags against each other
unfoldable pub flags_error : Bool → Bool → Inputs → Option InputError
flags_error jet made c =
    if c.stop_at_pending_zero && not jet
    then some InputError.terminate_at_end
    else if c.inbox && jet
    then some InputError.inbox_with_stream
    else if not (str_eq c.queue []) && jet
    then some InputError.queue_with_stream
    else if str_eq c.dump (codes "-") && c.inbox
    then some InputError.inbox_with_dump
    else if c.report_subjects && c.report_subjects_count == 0
    then some InputError.subject_count
    else if c.time_stamps && c.delta_time_stamps
    then some InputError.timestamps
    else if not (str_eq c.backup []) && ((c.report_sub || c.report_subjects) || c.graph_only)
    then some InputError.backup_with_report
    else if c.quiet && str_eq c.backup []
    then some InputError.quiet_without_backup
    else if c.quiet && not (str_eq c.dump [])
    then some InputError.quiet_with_dump
    else if not (str_eq c.dump []) && not (str_eq c.dump (codes "-")) && not made
    then some InputError.dump_directory
    else none

-- the stream, which the first subject names where none is given
unfoldable pub stream_name : Server → Inputs → Option Text
stream_name srv c =
    if str_eq c.stream []
    then srv.stream_name_by_subject (get_or c.subjects 0 [])
    else some c.stream

is_queue : Retention → Bool
is_queue Retention.limits = false
is_queue Retention.interest = true
is_queue Retention.work_queue = true

unfoldable pub use_direct : StreamInfo → Inputs → Bool
unfolding is_queue
use_direct info c = str_eq c.durable [] && (c.direct || is_queue info.retention)

unfoldable pub stream_error : Server → StreamInfo → Inputs → Option InputError
stream_error srv info c =
    if c.direct && not (str_eq c.durable [])
    then some InputError.direct_with_durable
    else if use_direct info c && ltb 1 (length c.subjects)
    then some InputError.direct_subjects
    else if use_direct info c && not info.allow_direct
    then some InputError.direct_not_allowed
    else if use_direct info c && not srv.api_level
    then some InputError.api_level
    else if c.match_replies
    then some InputError.match_with_stream
    else if not (str_eq c.backup []) && use_direct info c && c.deliver_last_per_subject
    then some InputError.backup_with_batches
    else none

unfoldable pub checked {ℓ} : {A : Type ℓ} → Option InputError → A → InputError ⊎ A
checked none a = inr a
checked (some e) a = inl e

unfoldable pub found : Server → Inputs → Text → Option StreamInfo → InputError ⊎ Inputs
unfolding checked
found srv c name none = inl InputError.unknown_stream
found srv c name (some info) =
    checked (stream_error srv info c) (record c { stream = name; direct = use_direct info c })

unfoldable pub named : Server → Inputs → Option Text → InputError ⊎ Inputs
unfolding found
named srv c none = inl InputError.no_stream
named srv c (some name) = found srv c name (srv.stream_info name)

-- from the checks of flags on; `report_subjects` is set by --report-subscriptions
unfoldable pub validate_rest : Server → Bool → Bool → Inputs → InputError ⊎ Inputs
unfolding named
validate_rest srv jet made c = elim (flags_error jet made c) [
  | some e ↦ inl e
  | none ↦
      let reported = record c { report_subjects = c.report_sub || c.report_subjects } in
      if jet then named srv reported (stream_name srv reported) else inr reported
]

-- validateInputs
unfoldable pub validate_inputs : Server → Text → Bool → Inputs → InputError ⊎ Inputs
validate_inputs srv inbox made c =
    if ltb 0 (length c.subjects) && not (str_eq c.durable [])
    then inl InputError.subjects_and_durable
    else elim (with_subjects inbox c) [
      | inl e ↦ inl e
      | inr s ↦ validate_rest srv (is_jetstream c) made s
    ]

-- makeConsumerConfig: the delivery policy, with its sequence or how long ago, none where the duration does
-- not parse
pub data Deliver : Type 0 where
  all_messages last new_messages last_per_subject unset : Deliver
  from_sequence : ℕ → Deliver
  since : ℤ → Deliver

unfoldable pub make_consumer_config : (Text → Option ℤ) → Inputs → Option Deliver
make_consumer_config parse c =
    if ltb 0 c.sseq
    then some (from_sequence c.sseq)
    else if c.deliver_last
    then some Deliver.last
    else if c.deliver_all
    then some Deliver.all_messages
    else if c.deliver_new
    then some Deliver.new_messages
    else if not (str_eq c.deliver_since [])
    then elim (parse c.deliver_since) [ none ↦ none | some d ↦ some (since d) ]
    else if c.deliver_last_per_subject
    then some Deliver.last_per_subject
    else some Deliver.unset
