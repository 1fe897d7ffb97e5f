-- ===== src/Consumers/Copy.antt =====
-- cli/consumer_command.go, cpAction: the configuration of a consumer's copy. Errors come in the code's order.
pub mod Consistent
mod Examples
use natscli.Prelude.{
  ◌-◌, false, ◌||◌, List, [], ◌∷◌, ◌⊎◌, inr, Text, codes, str_eq, ◌==◌, if◌then◌else◌,
}
use natscli.Prelude.Int.{ℤ, pos}
use natscli.Duration.{parse_duration}
use natscli.Dialog.{Refusal}
use natscli.Streams.Names.{is_empty}
use natscli.Streams.Edit.{attempt, or_else, is_minus_one, if_set, unless_zero}
use natscli.Consumers.{
  Start, Delivery, Filters, ConsumerConfig, ConsumerCmd, Externals, AckPolicy, ReplayPolicy,
}
use natscli.Consumers.Names.{set_start_policy, ack_policy_from_string, replay_policy_from_string}
use natscli.Consumers.Edit.{if_positive, edit_sample, edit_backoff, edit_pulls}

abbrev pub unset : Text
unset = codes "_unset_"

-- one filter, or several, are set beside those there are
unfoldable pub copy_filters : List Text → Filters → Filters
copy_filters [] old = old
copy_filters (s ∷ []) old = record old { filter_subject = s }
copy_filters (s ∷ t ∷ ss) old = record old { filter_subjects = s ∷ t ∷ ss }

-- where the copy delivers, and how many pulls may wait
unfoldable pub copy_target : ConsumerCmd → Delivery → Delivery
copy_target c d =
    let target = if is_empty c.delivery then d.deliver_subject else c.delivery in
    if c.pull
    then record d { deliver_subject = []; max_waiting = c.max_waiting }
    else record d { deliver_subject = target }

unfoldable pub copy_heartbeat : Externals → ConsumerCmd → ℤ → Refusal ⊎ ℤ
copy_heartbeat ext c old =
    if is_empty c.idle_heartbeat || str_eq c.idle_heartbeat (codes "-1")
    then inr old
    else or_else (parse_duration ext.numbers c.idle_heartbeat) Refusal.invalid_heartbeat

-- A consumer that is pulled from has no heartbeat and no flow control.
unfoldable pub without_push : Delivery → Delivery
without_push d =
    if is_empty d.deliver_subject then record d { heartbeat = pos 0; flow_control = false } else d

-- the three tests on the group, one behind the other
unfoldable pub copy_group : ConsumerCmd → Text → Text
copy_group c old =
    let given = if str_eq c.delivery_group unset then old else c.delivery_group in
    let of_target = if is_empty c.delivery then [] else given in
    if str_eq c.delivery_group unset then [] else of_target

unfoldable pub copy_delivery : ConsumerCmd → ℤ → Delivery → Delivery
unfolding copy_target without_push copy_group
copy_delivery c heartbeat d =
    let target = copy_target c d in
    let pushed = without_push (record target {
      rate_limit = if c.bps_rate_limit == 0 then d.rate_limit else c.bps_rate_limit;
      heartbeat = heartbeat;
      flow_control = if_set c.flow_control d.flow_control;
    }) in
    record pushed { deliver_group = copy_group c d.deliver_group }

unfoldable pub named_policy {ℓ} : {A : Type ℓ} → Text → A → (Text → Refusal ⊎ A) → Refusal ⊎ A
named_policy s old f = if is_empty s then inr old else f s

unfoldable pub copied :
    ConsumerCmd
    → Text
    → ConsumerConfig
    → Text
    → Start
    → AckPolicy
    → ReplayPolicy
    → ℤ
    → List ℤ
    → ConsumerConfig
unfolding copy_delivery copy_filters
copied c destination cfg sample start ack replay heartbeat back_off = record cfg {
  durable = if c.ephemeral then [] else destination;
  description = if is_empty c.description then cfg.description else c.description;
  sample_frequency = sample;
  start = start;
  delivery = copy_delivery c heartbeat cfg.delivery;
  acks = record {
    ack_policy = ack;
    ack_wait = if_positive c.ack_wait cfg.acks.ack_wait;
    max_deliver = unless_zero c.max_deliver cfg.acks.max_deliver;
    max_ack_pending =
        if is_minus_one c.max_ack_pending then cfg.acks.max_ack_pending else c.max_ack_pending;
    back_off = back_off;
  };
  filters = copy_filters c.filter_subjects cfg.filters;
  replay_policy = replay;
  inactive_threshold = if_positive c.inactive_threshold cfg.inactive_threshold;
  pulls = edit_pulls c cfg.pulls;
  headers_only = if_set c.headers_only cfg.headers_only;
}

-- the configuration that the copy is made with
unfoldable pub cp_config :
    Externals → ConsumerCmd → Text → ConsumerConfig → Refusal ⊎ ConsumerConfig
unfolding named_policy
cp_config ext c destination cfg = attempt (edit_sample c.sample_pct cfg.sample_frequency) (λ sample.
    attempt (set_start_policy ext c.start_policy cfg.start) (λ start.
      attempt (named_policy c.ack_policy cfg.acks.ack_policy ack_policy_from_string) (λ ack.
        attempt (named_policy c.replay_policy cfg.replay_policy replay_policy_from_string)
          (λ replay. attempt (copy_heartbeat ext c cfg.delivery.heartbeat) (λ heartbeat.
            attempt (edit_backoff ext c cfg.acks.back_off) (λ back_off.
              inr (copied c destination cfg sample start ack replay heartbeat back_off)))))))
