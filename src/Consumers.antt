-- ===== src/Consumers.antt =====
-- cli/consumer_command.go: the configuration of a consumer, and the flags that describe it. The fields are
-- those of api.ConsumerConfig that the commands read or set. Numbers and durations are integers.
pub mod Names
pub mod Edit
pub mod Copy
pub mod Create
pub mod Level
pub mod Commands
pub mod Samples
mod Examples
use natscli.Prelude.{ℕ, Bool, List, Option, Text}
use natscli.Prelude.Int.{ℤ}
use natscli.Duration.{Numbers}
use natscli.Streams.{Flag, Metadata}

pub data DeliverPolicy : Type 0 where
  deliver_all deliver_last deliver_new deliver_last_per_subject : DeliverPolicy
  deliver_by_start_sequence deliver_by_start_time : DeliverPolicy

pub data AckPolicy : Type 0 where
  ack_none ack_all ack_explicit ack_flow_control : AckPolicy

pub data ReplayPolicy : Type 0 where
  replay_instant replay_original : ReplayPolicy

pub data PriorityPolicy : Type 0 where
  priority_none priority_pinned_client priority_overflow priority_prioritized : PriorityPolicy

pub record Start : Type 0 where
  pub deliver_policy : DeliverPolicy
  pub opt_start_seq : ℕ
  pub opt_start_time : Option ℤ

pub record Delivery : Type 0 where
  pub deliver_subject : Text
  pub deliver_group : Text
  pub heartbeat : ℤ
  pub flow_control : Bool
  pub max_waiting : ℤ
  pub rate_limit : ℕ

pub record Acks : Type 0 where
  pub ack_policy : AckPolicy
  pub ack_wait : ℤ
  pub max_deliver : ℤ
  pub max_ack_pending : ℤ
  pub back_off : List ℤ

pub record Pulls : Type 0 where
  pub max_request_batch : ℤ
  pub max_request_expires : ℤ
  pub max_request_max_bytes : ℤ

pub record Filters : Type 0 where
  pub filter_subject : Text
  pub filter_subjects : List Text

pub record Priorities : Type 0 where
  pub policy : PriorityPolicy
  pub groups : List Text
  pub pinned_ttl : ℤ

pub record ConsumerConfig : Type 0 where
  pub name : Text
  pub durable : Text
  pub description : Text
  pub start : Start
  pub delivery : Delivery
  pub acks : Acks
  pub pulls : Pulls
  pub filters : Filters
  pub priorities : Priorities
  pub replay_policy : ReplayPolicy
  pub sample_frequency : Text
  pub headers_only : Bool
  pub inactive_threshold : ℤ
  pub replicas : ℤ
  pub memory_storage : Bool
  pub metadata : Metadata
  pub pause_until : Option ℤ

pub record BackoffFlags : Type 0 where
  pub mode : Text
  pub steps : ℕ
  pub min_wait : ℤ
  pub max_wait : ℤ

-- The fields of consumerCmd that the configuration is made from.
pub record ConsumerCmd : Type 0 where
  pub consumer : Text
  pub input_file : Text
  pub accept_defaults : Bool
  pub description : Text
  pub ephemeral : Bool
  pub pull : Bool
  pub delivery : Text
  pub delivery_group : Text
  pub start_policy : Text
  pub ack_policy : Text
  pub replay_policy : Text
  pub ack_wait : ℤ
  pub sample_pct : ℤ
  pub filter_subjects : List Text
  pub max_deliver : ℤ
  pub max_ack_pending : ℤ
  pub idle_heartbeat : Text
  pub flow_control : Flag Bool
  pub headers_only : Flag Bool
  pub backoff : BackoffFlags
  pub inactive_threshold : ℤ
  pub max_pull_batch : ℤ
  pub max_pull_expire : ℤ
  pub max_pull_bytes : ℤ
  pub max_waiting : ℤ
  pub bps_rate_limit : ℕ
  pub replicas : ℤ
  pub memory : Bool
  pub metadata : Flag Metadata
  pub pause_until : Text
  pub pinned_groups : List Text
  pub pinned_ttl : ℤ
  pub overflow_groups : List Text
  pub prioritized_groups : List Text

-- What the model takes from elsewhere: numbers in durations, the file that describes a consumer, a time stamp, the time, jsm's linear backoff and its filter of metadata.
pub record Externals : Type 0 where
  pub numbers : Numbers
  pub read_config : Text → Option ConsumerConfig
  pub date_time : Text → Option ℤ
  pub now : ℤ
  pub linear_backoff_periods : ℕ → ℤ → ℤ → Option (List ℤ)
  pub filter_server_metadata : Metadata → Metadata
