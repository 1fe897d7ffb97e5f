-- ===== src/Consumers/Create/Examples.antt =====
-- Consumers that are made with defaults.
use natscli.Prelude.{true, false, [], ◌∷◌, inr, ◌≡◌, refl, ap, codes, str_eq}
use natscli.Prelude.Int.{pos}
use natscli.Dialog.{Terminal}
use natscli.Streams.Names.{to_lower}
use natscli.Streams.Create.{ask_text}
use natscli.Consumers.{ConsumerConfig, ConsumerCmd, Priorities, priority_overflow}
use natscli.Consumers.Samples.{externals, plain_consumer, stored_consumer}
use natscli.Consumers.Names.{set_start_policy, ack_policy_from_string, replay_policy_from_string}
use natscli.Consumers.Names.Starts.{default_start}
use natscli.Consumers.Copy.{named_policy}
use natscli.Consumers.Create.{
  ask_consumer_name, check_durable, ask_target, default_consumer_flags, ask_group, ask_start,
  sample_flag, all_or, ask_filters, ask_max_deliver, ask_max_ack_pending, ask_heartbeat,
  ask_flow_control, ask_headers_only, ask_backoff, settle_backoff, ask_replay_again,
}
use natscli.Consumers.Create.Config.{
  settle_max_deliver, created_acks, created_delivery, created_pulls, check_pull, settle_pause,
  settle_priorities, ask_policies, created_consumer, settle_consumer, prepare_consumer_from_flags,
}
use natscli.Consumers.Create.Sound.{IsSound}
use natscli.Consumers.Create.Settled.{prepare_consumer_from_flags-IsSound}

abbrev pulled : ConsumerCmd
pulled = record plain_consumer {
  accept_defaults = true;
  pull = true;
  overflow_groups = codes "A" ∷ [];
  filter_subjects = codes "a" ∷ codes "b" ∷ [];
}

abbrev closed : Terminal
closed = record { is_terminal = false; answers = [] }

-- the groups are those of the flag for pinned clients, of which there are none
abbrev overflow : Priorities
overflow = record { policy = priority_overflow; groups = []; pinned_ttl = pos 0 }

no_groups : settle_priorities pulled closed ≡ (inr overflow, closed)
unfolding settle_priorities
no_groups = refl

abbrev made : ConsumerConfig
made = record stored_consumer {
  name = [];
  start = default_start;
  delivery = record {
    deliver_subject = [];
    deliver_group = [];
    heartbeat = pos 0;
    flow_control = false;
    max_waiting = pos 0;
    rate_limit = 0;
  };
  acks = record stored_consumer.acks { ack_wait = pos 0; max_ack_pending = pos 0 };
  priorities = overflow;
}

makes : prepare_consumer_from_flags externals pulled closed ≡ (inr made, closed)
unfolding prepare_consumer_from_flags ask_consumer_name check_durable ask_target
    default_consumer_flags settle_consumer ask_policies ask_group ask_start sample_flag all_or
    ask_filters ask_max_deliver ask_max_ack_pending ask_heartbeat ask_flow_control ask_headers_only
    ask_backoff settle_backoff ask_replay_again settle_max_deliver created_acks created_delivery
    created_pulls check_pull settle_pause settle_priorities created_consumer set_start_policy
    ack_policy_from_string replay_policy_from_string named_policy ask_text to_lower str_eq
makes = refl

prepare_consumer_from_flags-IsSound_example : IsSound made
prepare_consumer_from_flags-IsSound_example =
    prepare_consumer_from_flags-IsSound externals pulled closed made (ap (λ r. r.0) makes)

-- what is delivered is replayed instantly, although the original pace was asked for
paced :
    (default_consumer_flags
      (record pulled { delivery = codes "out"; replay_policy = codes "original" })).replay_policy
    ≡ codes "instant"
unfolding default_consumer_flags str_eq
paced = refl
