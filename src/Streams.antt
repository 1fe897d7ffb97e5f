-- ===== src/Streams.antt =====
-- cli/stream_command.go: the configuration of a stream, and the flags that describe it. The fields are
-- those of api.StreamConfig that the commands read or set, the limits, the switches and the policies in
-- a record each. Numbers and durations are integers, and a pointer that may be nil is an option.
pub mod Names
pub mod Edit
pub mod Sizes
pub mod Create
pub mod Sources
pub mod Commands
pub mod Samples
use natscli.Prelude.{ℕ, Bool, List, Option, Text}
use natscli.Prelude.Int.{ℤ}
use natscli.Duration.{Numbers}

pub data Retention : Type 0 where
  limits_policy interest_policy work_queue_policy : Retention

pub data Discard : Type 0 where
  discard_old discard_new : Discard

pub data Storage : Type 0 where
  file_storage memory_storage : Storage

pub data Compression : Type 0 where
  no_compression s2_compression : Compression

pub record Limits : Type 0 where
  pub max_msgs : ℤ
  pub max_msgs_per : ℤ
  pub max_bytes : ℤ
  pub max_age : ℤ
  pub max_msg_size : ℤ
  pub max_consumers : ℤ
  pub duplicates : ℤ
  pub replicas : ℤ

pub record Switches : Type 0 where
  pub rollup_allowed : Bool
  pub deny_purge : Bool
  pub deny_delete : Bool
  pub allow_direct : Bool
  pub mirror_direct : Bool
  pub allow_msg_schedules : Bool
  pub allow_msg_ttl : Bool
  pub allow_atomic_publish : Bool
  pub allow_batch_publish : Bool
  pub allow_msg_counter : Bool
  pub discard_new_per : Bool

pub record Policies : Type 0 where
  pub discard : Discard
  pub storage : Storage
  pub retention : Retention

pub record Placement : Type 0 where
  pub cluster : Text
  pub tags : List Text

pub record RePublish : Type 0 where
  pub source : Text
  pub destination : Text
  pub headers_only : Bool

pub record Transform : Type 0 where
  pub source : Text
  pub destination : Text

pub record External : Type 0 where
  pub api_prefix : Text
  pub deliver_prefix : Text

pub record ConsumerSource : Type 0 where
  pub name : Text
  pub deliver_subject : Text

pub record StreamSource : Type 0 where
  pub name : Text
  pub opt_start_seq : ℕ
  pub opt_start_time : Option ℤ
  pub subject_transforms : List Transform
  pub external : Option External
  pub consumer : Option ConsumerSource

abbrev pub Metadata : Type 0
Metadata = List (Text × Text)

pub record ConsumerLimits : Type 0 where
  pub inactive_threshold : ℤ
  pub max_ack_pending : ℤ

pub record StreamConfig : Type 0 where
  pub name : Text
  pub description : Text
  pub subjects : List Text
  pub no_ack : Bool
  pub limits : Limits
  pub switches : Switches
  pub policies : Policies
  pub compression : Compression
  pub placement : Option Placement
  pub mirror : Option StreamSource
  pub sources : List StreamSource
  pub re_publish : Option RePublish
  pub subject_transform : Option Transform
  pub subject_delete_marker_ttl : ℤ
  pub metadata : Metadata
  pub first_seq : ℕ
  pub consumer_limits : ConsumerLimits
  pub async_persist_mode : Bool

-- A flag's value, and whether the flag was given.
pub record Flag (A : Type 0) : Type 0 where
  pub value : A
  pub is_set : Bool

pub record LimitFlags : Type 0 where
  pub max_msg_limit : ℤ
  pub max_msg_per_subject_limit : ℤ
  pub max_bytes_limit_string : Text
  pub max_bytes_limit : ℤ
  pub max_age_limit : Text
  pub max_msg_size_string : Text
  pub max_msg_size : ℤ
  pub max_consumers : ℤ
  pub dupe_window : Text
  pub replicas : ℤ

pub record SwitchFlags : Type 0 where
  pub allow_rollup : Flag Bool
  pub deny_purge : Flag Bool
  pub deny_delete : Flag Bool
  pub allow_direct : Flag Bool
  pub allow_mirror_direct : Flag Bool
  pub allow_schedules : Flag Bool
  pub allow_msg_ttl : Bool
  pub allow_atomic_batch : Flag Bool
  pub allow_fast_batch : Flag Bool
  pub allow_counter : Flag Bool
  pub discard_per_subj : Flag Bool

pub record PolicyFlags : Type 0 where
  pub discard_policy : Text
  pub storage : Text
  pub retention_policy_s : Text

-- The fields of streamCmd that the configuration is made from.
pub record StreamCmd : Type 0 where
  pub stream : Text
  pub input_file : Text
  pub accept_defaults : Bool
  pub ack : Bool
  pub subjects : List Text
  pub limits : LimitFlags
  pub switches : SwitchFlags
  pub policies : PolicyFlags
  pub compression : Flag Text
  pub placement_cluster : Flag Text
  pub placement_tags : Flag (List Text)
  pub sources : List Text
  pub mirror : Text
  pub no_mirror : Bool
  pub description : Text
  pub metadata : Flag Metadata
  pub repub_source : Text
  pub repub_dest : Text
  pub repub_headers_only : Bool
  pub no_repub : Bool
  pub subject_transform_source : Text
  pub subject_transform_dest : Text
  pub no_subject_transform : Bool
  pub subject_delete_marker_ttl : Flag ℤ
  pub first_seq : ℕ
  pub limit_inactive_threshold : ℤ
  pub limit_max_ack_pending : ℤ
  pub persist_mode : Text

-- What the model takes from elsewhere: numbers in durations, a duration as a text, the file and the JSON
-- that describe a stream or a source, a compression's name, a time stamp, and jsm's filter of metadata.
pub record Externals : Type 0 where
  pub numbers : Numbers
  pub duration_string : ℤ → Text
  pub read_config : Text → Option StreamConfig
  pub read_source : Text → Option StreamSource
  pub compression_of : Text → Option Compression
  pub time_of : Text → Option ℤ
  pub filter_server_metadata : Metadata → Metadata
