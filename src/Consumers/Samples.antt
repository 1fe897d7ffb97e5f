-- ===== src/Consumers/Samples.antt =====
-- A consumer, a command without flags, and answers from elsewhere.
use natscli.Prelude.{true, false, [], ◌∷◌, none, some, codes}
use natscli.Prelude.Int.{pos, negsuc}
use natscli.Streams.Samples.{numbers}
use natscli.Consumers.{
  AckPolicy, ReplayPolicy, ConsumerConfig, ConsumerCmd, Externals, PriorityPolicy,
  deliver_by_start_sequence,
}

abbrev pub stored_consumer : ConsumerConfig
stored_consumer = record {
  name = codes "C";
  durable = codes "C";
  description = [];
  start = record {
    deliver_policy = deliver_by_start_sequence;
    opt_start_seq = 7;
    opt_start_time = none;
  };
  delivery = record {
    deliver_subject = codes "out";
    deliver_group = codes "G";
    heartbeat = pos 5;
    flow_control = true;
    max_waiting = pos 0;
    rate_limit = 0;
  };
  acks = record {
    ack_policy = AckPolicy.ack_explicit;
    ack_wait = pos 30;
    max_deliver = negsuc 0;
    max_ack_pending = pos 100;
    back_off = [];
  };
  pulls = record {
    max_request_batch = pos 0;
    max_request_expires = pos 0;
    max_request_max_bytes = pos 0;
  };
  filters = record { filter_subject = []; filter_subjects = codes "a" ∷ codes "b" ∷ [] };
  priorities = record { policy = PriorityPolicy.priority_none; groups = []; pinned_ttl = pos 0 };
  replay_policy = ReplayPolicy.replay_instant;
  sample_frequency = [];
  headers_only = false;
  inactive_threshold = pos 0;
  replicas = pos 0;
  memory_storage = false;
  metadata = [];
  pause_until = none;
}

abbrev pub externals : Externals
externals = record {
  numbers = numbers;
  read_config = λ file. none;
  date_time = λ s. none;
  now = pos 1000;
  linear_backoff_periods = λ n a b. some (a ∷ b ∷ []);
  filter_server_metadata = λ m. m;
}

abbrev pub plain_consumer : ConsumerCmd
plain_consumer = record {
  consumer = codes "C";
  input_file = [];
  accept_defaults = false;
  description = [];
  ephemeral = false;
  pull = false;
  delivery = [];
  delivery_group = codes "_unset_";
  start_policy = [];
  ack_policy = [];
  replay_policy = [];
  ack_wait = negsuc 999999999;
  sample_pct = negsuc 0;
  filter_subjects = [];
  max_deliver = pos 0;
  max_ack_pending = negsuc 0;
  idle_heartbeat = [];
  flow_control = record { value = false; is_set = false };
  headers_only = record { value = false; is_set = false };
  backoff = record { mode = []; steps = 10; min_wait = pos 60; max_wait = pos 1200 };
  inactive_threshold = pos 0;
  max_pull_batch = pos 0;
  max_pull_expire = pos 0;
  max_pull_bytes = pos 0;
  max_waiting = pos 0;
  bps_rate_limit = 0;
  replicas = pos 0;
  memory = false;
  metadata = record { value = []; is_set = false };
  pause_until = [];
  pinned_groups = [];
  pinned_ttl = pos 0;
  overflow_groups = [];
  prioritized_groups = [];
}
