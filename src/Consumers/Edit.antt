-- ===== src/Consumers/Edit.antt =====
-- cli/consumer_command.go: copyAndEditConsumer, and the checks of editAction around it.
pub mod Kept
mod Examples
use natscli.Prelude.{Bool, false, List, [], ◌∷◌, ◌⊎◌, inr, Text, ◌==◌, if◌then◌else◌}
use natscli.Prelude.Int.{ℤ, pos, negsuc, ltb_ℤ}
use natscli.Dialog.{Refusal}
use natscli.Streams.Names.{is_empty}
use natscli.Streams.Edit.{attempt, or_else, is_minus_one, if_set, unless_zero}
use natscli.Consumers.{Pulls, Filters, ConsumerConfig, ConsumerCmd, Externals}
use natscli.Consumers.Names.{sample_freq_from_int, backoff_policy}

abbrev pub is_positive : ℤ → Bool
is_positive z = ltb_ℤ (pos 0) z

abbrev pub if_positive : ℤ → ℤ → ℤ
if_positive z old = if is_positive z then z else old

-- -1 * time.Second
abbrev pub minus_second : ℤ
minus_second = negsuc 999999999

abbrev pub is_minus_second : ℤ → Bool
is_minus_second (pos n) = false
is_minus_second (negsuc n) = n == 999999999

-- one filter, or several, replaces those there are
unfoldable pub edit_filters : List Text → Filters → Filters
edit_filters [] old = old
edit_filters (s ∷ []) old = record { filter_subject = s; filter_subjects = [] }
edit_filters (s ∷ t ∷ ss) old = record { filter_subject = []; filter_subjects = s ∷ t ∷ ss }

unfoldable pub edit_pulls : ConsumerCmd → Pulls → Pulls
edit_pulls c old = record {
  max_request_batch = if_positive c.max_pull_batch old.max_request_batch;
  max_request_expires = if_positive c.max_pull_expire old.max_request_expires;
  max_request_max_bytes = if_positive c.max_pull_bytes old.max_request_max_bytes;
}

unfoldable pub edit_sample : ℤ → Text → Refusal ⊎ Text
edit_sample pct old = if is_minus_one pct then inr old else sample_freq_from_int pct

unfoldable pub edit_backoff : Externals → ConsumerCmd → List ℤ → Refusal ⊎ List ℤ
edit_backoff ext c old = if is_empty c.backoff.mode then inr old else backoff_policy ext c.backoff

unfoldable pub edited_consumer : ConsumerCmd → ConsumerConfig → Text → List ℤ → ConsumerConfig
unfolding edit_filters edit_pulls
edited_consumer c cfg sample back_off = record cfg {
  description = if is_empty c.description then cfg.description else c.description;
  inactive_threshold = unless_zero c.inactive_threshold cfg.inactive_threshold;
  acks = record cfg.acks {
    max_deliver = unless_zero c.max_deliver cfg.acks.max_deliver;
    max_ack_pending =
        if is_minus_one c.max_ack_pending then cfg.acks.max_ack_pending else c.max_ack_pending;
    ack_wait = if is_minus_second c.ack_wait then cfg.acks.ack_wait else c.ack_wait;
    back_off = back_off;
  };
  delivery = record cfg.delivery {
    max_waiting = unless_zero c.max_waiting cfg.delivery.max_waiting;
    deliver_subject = if is_empty c.delivery then cfg.delivery.deliver_subject else c.delivery;
  };
  sample_frequency = sample;
  pulls = edit_pulls c cfg.pulls;
  headers_only = if_set c.headers_only cfg.headers_only;
  filters = edit_filters c.filter_subjects cfg.filters;
  replicas = if_positive c.replicas cfg.replicas;
  metadata = if_set c.metadata cfg.metadata;
}

unfoldable pub copy_and_edit_consumer :
    Externals → ConsumerCmd → ConsumerConfig → Refusal ⊎ ConsumerConfig
copy_and_edit_consumer ext c cfg =
    if is_empty c.input_file
    then attempt (edit_sample c.sample_pct cfg.sample_frequency) (λ sample.
      attempt (edit_backoff ext c cfg.acks.back_off)
        (λ back_off. inr (edited_consumer c cfg sample back_off)))
    else or_else (ext.read_config c.input_file) Refusal.invalid_input
