-- ===== src/Streams/Create/Config.antt =====
-- cli/stream_command.go, prepareConfig: the configuration made of a file, or of the flags and the answers.
use natscli.Prelude.{
  Bool, not, ◌&&◌, ◌||◌, List, [], ◌∷◌, Option, none, some, Text, codes, str_eq, if◌then◌else◌,
}
use natscli.Prelude.Int.{ℤ, pos, ltb_ℤ}
use natscli.Dialog.{Refusal, Dialog, pure, refuse, or_refuse, ◌>>=◌}
use natscli.Streams.{
  Limits, Switches, Policies, Placement, StreamSource, StreamConfig, SwitchFlags, StreamCmd,
  Externals, Compression, Storage,
}
use natscli.Streams.Names.{
  is_empty, discard_policy_from_string, retention_policy_from_string, check_repub_transform,
  re_publish_flags, transform_flags,
}
use natscli.Streams.Edit.{is_nil, load_config_file, placement_or_empty}
use natscli.Streams.Sources.{is_json_object_string, parse_stream_source, ask_mirror, ask_source}
use natscli.Streams.Create.{
  lift, apply_defaults, ask_name, ask_subjects, check_mirror, ask_text, ask_storage, ask_replicas,
  ask_limits, ask_switches,
}

-- a placement that the flags name
unfoldable pub placement_flags : StreamCmd → Option Placement
placement_flags c =
    if not (is_empty c.placement_cluster.value) || not (is_nil c.placement_tags.value)
    then some (record { cluster = c.placement_cluster.value; tags = c.placement_tags.value })
    else none

placed_by_flags : StreamCmd → Option Placement → Option Placement
placed_by_flags c old =
    let p = placement_or_empty old in
    if is_nil c.placement_tags.value && is_empty c.placement_cluster.value
    then old
    else some (record {
      tags = if is_nil c.placement_tags.value then p.tags else c.placement_tags.value;
      cluster = if is_empty c.placement_cluster.value then p.cluster else c.placement_cluster.value;
    })

-- The flags that are looked at beside a file; the subjects are taken as they are.
unfoldable pub file_with_flags : Externals → StreamCmd → StreamConfig → StreamConfig
unfolding placed_by_flags
file_with_flags ext c cfg = record cfg {
  metadata = ext.filter_server_metadata cfg.metadata;
  name = if is_empty c.stream then cfg.name else c.stream;
  subjects = if is_nil c.subjects then cfg.subjects else c.subjects;
  placement = placed_by_flags c cfg.placement;
  description = if is_empty c.description then cfg.description else c.description;
  limits = record cfg.limits {
    replicas = if ltb_ℤ (pos 0) c.limits.replicas then c.limits.replicas else cfg.limits.replicas;
  };
}

unfoldable pub prepare_from_file : Externals → StreamCmd → Dialog StreamConfig
unfolding file_with_flags
prepare_from_file ext c = lift (load_config_file ext c) >>= λ cfg. pure (file_with_flags ext c cfg)

abbrev pub created_switches : SwitchFlags → Switches
created_switches s = record {
  rollup_allowed = s.allow_rollup.value;
  deny_purge = s.deny_purge.value;
  deny_delete = s.deny_delete.value;
  allow_direct = s.allow_direct.value;
  mirror_direct = s.allow_mirror_direct.value;
  allow_msg_schedules = s.allow_schedules.value;
  allow_msg_ttl = s.allow_msg_ttl;
  allow_atomic_publish = s.allow_atomic_batch.value;
  allow_batch_publish = s.allow_fast_batch.value;
  allow_msg_counter = s.allow_counter.value;
  discard_new_per = s.discard_per_subj.value;
}

abbrev at_least_zero : ℤ → ℤ
at_least_zero z = if ltb_ℤ (pos 0) z then z else pos 0

-- the literal of the configuration, and what is set behind it from the flags alone
unfoldable pub created :
    Externals → StreamCmd → Policies → Compression → Limits → SwitchFlags → StreamConfig
created ext c policies compression limits switches = record {
  name = c.stream;
  description = c.description;
  subjects = c.subjects;
  no_ack = not c.ack;
  limits = limits;
  switches = created_switches switches;
  policies = policies;
  compression = compression;
  placement = placement_flags c;
  mirror = none;
  sources = [];
  re_publish = re_publish_flags c;
  subject_transform = transform_flags c;
  subject_delete_marker_ttl = c.subject_delete_marker_ttl.value;
  metadata = ext.filter_server_metadata c.metadata.value;
  first_seq = c.first_seq;
  consumer_limits = record {
    inactive_threshold = at_least_zero c.limit_inactive_threshold;
    max_ack_pending = at_least_zero c.limit_max_ack_pending;
  };
  async_persist_mode = str_eq c.persist_mode (codes "async");
}

unfoldable pub ask_for_mirror : Externals → StreamCmd → Dialog (Option StreamSource)
ask_for_mirror ext c =
    if is_empty c.mirror
    then pure none
    else ((if is_json_object_string c.mirror
          then parse_stream_source ext c.mirror
          else ask_mirror ext c.accept_defaults c.mirror)
        >>= λ m. pure (some m))

-- the loop over the sources
unfoldable pub ask_for_sources : Externals → Bool → List Text → Dialog (List StreamSource)
ask_for_sources ext accept_defaults [] = pure []
ask_for_sources ext accept_defaults (source ∷ sources) =
    (if is_json_object_string source
      then parse_stream_source ext source
      else ask_source ext accept_defaults source)
    >>= λ s. ask_for_sources ext accept_defaults sources >>= λ ss. pure (s ∷ ss)

abbrev pub unless_refused : Option Refusal → Dialog (Unit {0})
unless_refused none = pure tt
unless_refused (some e) = refuse e

-- the policies by their names, the storage being settled before
unfoldable pub name_policies : Storage → Text → Text → Dialog Policies
name_policies storage retention discard = lift (retention_policy_from_string retention) >>= λ r.
    lift (discard_policy_from_string discard) >>= λ d.
    pure (record { storage = storage; retention = r; discard = d })

unfoldable pub complete : Externals → StreamCmd → StreamConfig → Dialog StreamConfig
complete ext c cfg = ask_for_mirror ext c >>= λ m.
    ask_for_sources ext c.accept_defaults c.sources >>= λ ss.
    unless_refused (check_repub_transform c) >>= λ u. pure (record cfg { mirror = m; sources = ss })

-- what is settled behind the name and the subjects
unfoldable pub settle : Externals → Bool → StreamCmd → Dialog StreamConfig
settle ext require_size c = ask_storage c.policies.storage >>= λ storage.
    or_refuse (ext.compression_of c.compression.value) Refusal.invalid_compression
    >>= λ compression. ask_replicas c.limits.replicas >>= λ replicas.
        ask_text c.policies.retention_policy_s >>= λ retention.
        ask_text c.policies.discard_policy >>= λ discard.
        ask_limits ext require_size c replicas >>= λ limits.
        ask_switches c.accept_defaults c.switches >>= λ switches.
        name_policies storage retention discard >>= λ policies.
        complete ext c (created ext c policies compression limits switches)

unfoldable pub prepare_from_flags : Externals → Bool → StreamCmd → Dialog StreamConfig
prepare_from_flags ext require_size c = ask_name c >>= λ named. ask_subjects named >>= λ subjects.
    check_mirror subjects >>= λ checked.
    settle ext require_size (apply_defaults require_size checked)

unfoldable pub prepare_config : Externals → Bool → StreamCmd → Dialog StreamConfig
prepare_config ext require_size c =
    if is_empty c.input_file then prepare_from_flags ext require_size c else prepare_from_file ext c
