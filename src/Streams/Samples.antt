-- ===== src/Streams/Samples.antt =====
-- A command without flags, a stream's configuration, and answers from elsewhere that are exact.
use natscli.Prelude.{
  ◌*◌, Bool, true, false, [], ◌∷◌, Option, none, some, Text, codes, str_eq, if◌then◌else◌,
}
use natscli.Prelude.Int.{pos, negsuc}
use natscli.Util.Decimal.{value}
use natscli.Duration.{Numbers}
use natscli.Duration.Items.{product}
use natscli.Streams.{
  Retention, Discard, Storage, StreamConfig, Flag, LimitFlags, StreamCmd, Externals, Compression,
}

abbrev pub numbers : Numbers
numbers = record {
  float_times = λ t fs. some (value t * product fs);
  go_duration = λ t. if str_eq t (codes "1h") then some 3600000000000 else some 120000000000;
  rounded = λ n d. [];
  seconds = λ d. [];
}

abbrev compression_named : Text → Option Compression
compression_named s =
    if str_eq s (codes "none")
    then some Compression.no_compression
    else if str_eq s (codes "s2")
    then some Compression.s2_compression
    else none

abbrev pub stored : StreamConfig
stored = record {
  name = codes "ORDERS";
  description = [];
  subjects = codes "orders.>" ∷ [];
  no_ack = true;
  limits = record {
    max_msgs = negsuc 0;
    max_msgs_per = negsuc 0;
    max_bytes = pos 1000;
    max_age = pos 0;
    max_msg_size = negsuc 0;
    max_consumers = negsuc 0;
    duplicates = pos 0;
    replicas = pos 3;
  };
  switches = record {
    rollup_allowed = false;
    deny_purge = false;
    deny_delete = true;
    allow_direct = true;
    mirror_direct = false;
    allow_msg_schedules = false;
    allow_msg_ttl = true;
    allow_atomic_publish = false;
    allow_batch_publish = false;
    allow_msg_counter = false;
    discard_new_per = false;
  };
  policies = record {
    discard = Discard.discard_old;
    storage = Storage.file_storage;
    retention = Retention.limits_policy;
  };
  compression = Compression.no_compression;
  placement = some (record { cluster = codes "C1"; tags = [] });
  mirror = none;
  sources = [];
  re_publish = none;
  subject_transform = none;
  subject_delete_marker_ttl = pos 0;
  metadata = [];
  first_seq = 0;
  consumer_limits = record { inactive_threshold = pos 0; max_ack_pending = pos 0 };
  async_persist_mode = false;
}

abbrev pub externals : Externals
externals = record {
  numbers = numbers;
  duration_string = λ z. codes "2m";
  read_config = λ file. some stored;
  read_source = λ s. none;
  compression_of = compression_named;
  time_of = λ s. none;
  filter_server_metadata = λ m. m;
}

abbrev off : Flag Bool
off = record { value = false; is_set = false }

abbrev pub no_limit_flags : LimitFlags
no_limit_flags = record {
  max_msg_limit = pos 0;
  max_msg_per_subject_limit = pos 0;
  max_bytes_limit_string = [];
  max_bytes_limit = pos 0;
  max_age_limit = [];
  max_msg_size_string = [];
  max_msg_size = pos 0;
  max_consumers = negsuc 0;
  dupe_window = [];
  replicas = pos 0;
}

abbrev pub plain : StreamCmd
plain = record {
  stream = codes "ORDERS";
  input_file = [];
  accept_defaults = false;
  ack = true;
  subjects = [];
  limits = no_limit_flags;
  switches = record {
    allow_rollup = off;
    deny_purge = off;
    deny_delete = off;
    allow_direct = record { value = true; is_set = false };
    allow_mirror_direct = off;
    allow_schedules = off;
    allow_msg_ttl = false;
    allow_atomic_batch = off;
    allow_fast_batch = off;
    allow_counter = off;
    discard_per_subj = off;
  };
  policies = record { discard_policy = []; storage = []; retention_policy_s = [] };
  compression = record { value = []; is_set = false };
  placement_cluster = record { value = []; is_set = false };
  placement_tags = record { value = []; is_set = false };
  sources = [];
  mirror = [];
  no_mirror = false;
  description = [];
  metadata = record { value = []; is_set = false };
  repub_source = [];
  repub_dest = [];
  repub_headers_only = false;
  no_repub = false;
  subject_transform_source = [];
  subject_transform_dest = [];
  no_subject_transform = false;
  subject_delete_marker_ttl = record { value = pos 0; is_set = false };
  first_seq = 0;
  limit_inactive_threshold = pos 0;
  limit_max_ack_pending = pos 0;
  persist_mode = [];
}
