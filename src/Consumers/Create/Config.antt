-- ===== src/Consumers/Create/Config.antt =====
-- cli/consumer_command.go, prepareConfig: the configuration made of a file, or of the flags and the answers.
use natscli.Prelude.{
  ◌+◌, Bool, not, ◌&&◌, List, [], Option, none, some, Text, codes, str_eq, ◌==◌, if◌then◌else◌,
  length,
}
use natscli.Prelude.Int.{ℤ, pos}
use natscli.Dialog.{Refusal, Dialog, pure, refuse, or_refuse, ◌>>=◌}
use natscli.Streams.Names.{is_empty}
use natscli.Streams.Edit.{is_minus_one, is_nil, if_set}
use natscli.Streams.Create.{minus_one, lift, ask_text}
use natscli.Consumers.{
  AckPolicy, ReplayPolicy, Start, Delivery, Acks, Pulls, Filters, Priorities, ConsumerConfig,
  ConsumerCmd, Externals, PriorityPolicy,
}
use natscli.Consumers.Names.{ack_policy_from_string, replay_policy_from_string, parse_pause_until}
use natscli.Consumers.Edit.{if_positive}
use natscli.Consumers.Copy.{named_policy}
use natscli.Consumers.Create.{
  is_push, is_ack_none, ask_consumer_name, check_durable, durable_of, ask_target,
  default_consumer_flags, ask_group, ask_start, sample_flag, ask_replay_again, ask_filters,
  ask_max_deliver, ask_max_ack_pending, ask_heartbeat, ask_flow_control, ask_headers_only,
  ask_backoff, settle_backoff,
}

-- the deliveries: none is counted without acknowledgement, and a backoff has one more than its steps
unfoldable pub settle_max_deliver : AckPolicy → List ℤ → ℤ → ℤ
settle_max_deliver ack back_off n =
    let counted =
      if is_minus_one n && not (is_nil back_off) then pos (length back_off + 1) else n in
    if is_ack_none ack then minus_one else counted

unfoldable pub created_acks : ConsumerCmd → AckPolicy → List ℤ → ℤ → ℤ → Acks
unfolding settle_max_deliver
created_acks c ack back_off deliver pending = record {
  ack_policy = ack;
  ack_wait = if_positive c.ack_wait (pos 0);
  max_deliver = settle_max_deliver ack back_off deliver;
  max_ack_pending = pending;
  back_off = back_off;
}

unfoldable pub created_delivery : ConsumerCmd → Text → ℤ → Bool → Delivery
created_delivery c group heartbeat flow = record {
  deliver_subject = c.delivery;
  deliver_group = group;
  heartbeat = heartbeat;
  flow_control = flow;
  max_waiting = if is_empty c.delivery then c.max_waiting else pos 0;
  rate_limit = c.bps_rate_limit;
}

unfoldable pub created_pulls : ConsumerCmd → Pulls
created_pulls c = record {
  max_request_batch = if_positive c.max_pull_batch (pos 0);
  max_request_expires = if_positive c.max_pull_expire (pos 0);
  max_request_max_bytes = if_positive c.max_pull_bytes (pos 0);
}

-- what is refused of a consumer that is pulled from
unfoldable pub check_pull : ConsumerCmd → Dialog (Unit {0})
check_pull c =
    if is_empty c.delivery && not (c.bps_rate_limit == 0)
    then refuse Refusal.rate_limit_on_pull
    else if is_empty c.delivery
        && not (is_empty c.idle_heartbeat)
        && not (str_eq c.idle_heartbeat (codes "-1"))
    then refuse Refusal.heartbeat_on_pull
    else pure tt

unfoldable pub settle_pause : Externals → Text → Dialog (Option ℤ)
settle_pause ext s =
    if is_empty s then pure none else (lift (parse_pause_until ext s) >>= λ ts. pure (some ts))

-- The switch on the groups: an overflow consumer gets the pinned groups, of which there are none.
unfoldable pub settle_priorities : ConsumerCmd → Dialog Priorities
settle_priorities c =
    if not (is_nil c.pinned_groups) && not (is_nil c.overflow_groups)
    then refuse Refusal.overflow_and_pinned
    else if not (is_nil c.pinned_groups)
    then pure (record {
      policy = PriorityPolicy.priority_pinned_client;
      groups = c.pinned_groups;
      pinned_ttl = c.pinned_ttl;
    })
    else if not (is_nil c.overflow_groups)
    then pure (record {
      policy = PriorityPolicy.priority_overflow;
      groups = c.pinned_groups;
      pinned_ttl = pos 0;
    })
    else if not (is_nil c.prioritized_groups)
    then pure (record {
      policy = PriorityPolicy.priority_prioritized;
      groups = c.prioritized_groups;
      pinned_ttl = pos 0;
    })
    else pure (record { policy = PriorityPolicy.priority_none; groups = []; pinned_ttl = pos 0 })

-- the policies, the sample and the start
pub record Named : Type 0 where
  pub group : Text
  pub start : Start
  pub ack : AckPolicy
  pub sample : Text
  pub replay : ReplayPolicy

unfoldable pub ask_policies : Externals → ConsumerCmd → Dialog Named
ask_policies ext c = ask_group c >>= λ group. ask_start ext c >>= λ start.
    ask_text c.ack_policy >>= λ ack_name. ask_text c.replay_policy >>= λ replay_name.
    lift (ack_policy_from_string ack_name) >>= λ ack. lift (sample_flag c.sample_pct) >>= λ sample.
    ask_replay_again c replay_name >>= λ again.
    lift (named_policy again ReplayPolicy.replay_instant replay_policy_from_string) >>= λ replay.
    pure (record { group = group; start = start; ack = ack; sample = sample; replay = replay })

-- the literal at the end, from what was settled
unfoldable pub created_consumer :
    Externals
    → ConsumerCmd
    → Named
    → Filters
    → Acks
    → Delivery
    → Bool
    → Option ℤ
    → Priorities
    → ConsumerConfig
created_consumer ext c n filters acks delivery headers pause priorities = record {
  name = if c.ephemeral then c.consumer else [];
  durable = durable_of c;
  description = c.description;
  start = n.start;
  delivery = delivery;
  acks = acks;
  pulls = created_pulls c;
  filters = filters;
  priorities = priorities;
  replay_policy = n.replay;
  sample_frequency = n.sample;
  headers_only = headers;
  inactive_threshold = c.inactive_threshold;
  replicas = c.replicas;
  memory_storage = c.memory;
  metadata = ext.filter_server_metadata (if_set c.metadata []);
  pause_until = pause;
}

unfoldable pub settle_consumer : Externals → ConsumerCmd → Dialog ConsumerConfig
settle_consumer ext c = ask_policies ext c >>= λ n.
    ask_filters c n.start.deliver_policy >>= λ filters. ask_max_deliver c n.ack >>= λ deliver.
    ask_max_ack_pending c n.ack >>= λ pending. ask_heartbeat ext c >>= λ heartbeat.
    ask_flow_control c >>= λ flow. ask_headers_only c >>= λ headers.
    ask_backoff ext c n.ack >>= λ b. settle_backoff ext b >>= λ back_off. check_pull c >>= λ u.
    settle_pause ext c.pause_until >>= λ pause. settle_priorities c >>= λ priorities. pure (
      created_consumer ext c n filters (created_acks c n.ack back_off deliver pending)
        (created_delivery c n.group heartbeat flow) headers pause priorities)

unfoldable pub prepare_consumer_from_flags : Externals → ConsumerCmd → Dialog ConsumerConfig
prepare_consumer_from_flags ext c = ask_consumer_name c >>= λ named.
    check_durable named >>= λ checked.
    ask_target checked >>= λ target. settle_consumer ext (default_consumer_flags target)

-- what the flags change of a file
unfoldable pub consumer_with_flags : Externals → ConsumerCmd → ConsumerConfig → ConsumerConfig
consumer_with_flags ext c cfg = record cfg {
  durable =
      if not (is_empty cfg.durable) && not (is_empty c.consumer) then c.consumer else cfg.durable;
  delivery = record cfg.delivery {
    deliver_subject =
        if not (is_empty cfg.delivery.deliver_subject) && is_push c
        then c.delivery
        else cfg.delivery.deliver_subject;
  };
  metadata = ext.filter_server_metadata cfg.metadata;
}

unfoldable pub prepare_consumer_config : Externals → ConsumerCmd → Dialog ConsumerConfig
prepare_consumer_config ext c =
    if is_empty c.input_file
    then prepare_consumer_from_flags ext c
    else (or_refuse (ext.read_config c.input_file) Refusal.invalid_input >>= λ cfg.
        pure (consumer_with_flags ext c cfg))
