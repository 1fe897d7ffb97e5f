-- ===== src/Streams/Edit.antt =====
-- cli/stream_command.go: loadConfigFile, and copyAndEditStream, which edits a copy of a stream's
-- configuration by the flags. Errors come in the order of the code.
pub mod Parts
pub mod Unset
pub mod Repeated
pub mod Accepted
pub mod Samples
mod Examples
use natscli.Prelude.{
  ◌-◌, ◌%◌, ◌^◌, Bool, true, false, not, ◌&&◌, ◌||◌, List, [], ◌∷◌, ◌⊎◌, inl, inr, Option, none,
  some, Text, ltb, ◌==◌, if◌then◌else◌,
}
use natscli.Prelude.Int.{ℤ, pos, negsuc}
use natscli.Duration.{Numbers, parse_duration}
use natscli.Util.Subjects.{split_cli_subjects}
use natscli.Dialog.{Refusal}
use natscli.Streams.{
  Limits, Switches, Policies, Placement, StreamConfig, Flag, LimitFlags, SwitchFlags, PolicyFlags,
  StreamCmd, Externals, Compression,
}
use natscli.Streams.Names.{
  discard_policy_from_string, store_type_from_string, retention_policy_from_string, is_empty,
  check_repub_transform, re_publish_flags, transform_flags,
}

abbrev pub attempt {ℓ κ} : {A : Type ℓ} {B : Type κ} → Refusal ⊎ A → (A → Refusal ⊎ B) → Refusal ⊎ B
attempt (inl e) f = inl e
attempt (inr a) f = f a

abbrev pub or_else {ℓ} : {A : Type ℓ} → Option A → Refusal → Refusal ⊎ A
or_else none e = inl e
or_else (some a) e = inr a

-- int32 of an int64
unfoldable pub int32 : ℤ → ℤ
int32 (pos n) = let r = n % 2 ^ 32 in if ltb r (2 ^ 31) then pos r else negsuc (2 ^ 32 - r - 1)
int32 (negsuc n) = let r = n % 2 ^ 32 in if ltb r (2 ^ 31) then negsuc r else pos (2 ^ 32 - r - 1)

abbrev pub is_zero : ℤ → Bool
is_zero (pos n) = n == 0
is_zero (negsuc n) = false

abbrev pub is_minus_one : ℤ → Bool
is_minus_one (pos n) = false
is_minus_one (negsuc n) = n == 0

unfoldable pub edit_policies : PolicyFlags → Policies → Refusal ⊎ Policies
edit_policies c p =
    attempt
      (if is_empty c.discard_policy
        then inr p.discard
        else discard_policy_from_string c.discard_policy)
      (λ d.
        attempt (if is_empty c.storage then inr p.storage else store_type_from_string c.storage)
          (λ s.
            attempt
              (if is_empty c.retention_policy_s
                then inr p.retention
                else retention_policy_from_string c.retention_policy_s)
              (λ r. inr (record { discard = d; storage = s; retention = r }))))

-- a duration that a flag gives, if it is given
abbrev pub duration_or : Numbers → Text → ℤ → Refusal → Refusal ⊎ ℤ
duration_or num s old e = if is_empty s then inr old else or_else (parse_duration num s) e

abbrev pub unless_zero : ℤ → ℤ → ℤ
unless_zero z old = if is_zero z then old else z

unfoldable pub edit_limits : Numbers → LimitFlags → Limits → Refusal ⊎ Limits
unfolding int32
edit_limits num c l =
    attempt (duration_or num c.max_age_limit l.max_age Refusal.invalid_max_age) (λ age.
      attempt (duration_or num c.dupe_window l.duplicates Refusal.invalid_window) (λ window.
        inr (record {
          max_msgs = unless_zero c.max_msg_limit l.max_msgs;
          max_msgs_per = unless_zero c.max_msg_per_subject_limit l.max_msgs_per;
          max_bytes = unless_zero c.max_bytes_limit l.max_bytes;
          max_age = age;
          max_msg_size = if is_zero c.max_msg_size then l.max_msg_size else int32 c.max_msg_size;
          max_consumers = if is_minus_one c.max_consumers then l.max_consumers else c.max_consumers;
          duplicates = window;
          replicas = unless_zero c.replicas l.replicas;
        })))

abbrev pub if_set : {A : Type 0} → Flag A → A → A
if_set fl old = if fl.is_set then fl.value else old

unfoldable pub edit_switches : SwitchFlags → Switches → Switches
edit_switches c s = record {
  rollup_allowed = if_set c.allow_rollup s.rollup_allowed;
  deny_purge = if_set c.deny_purge s.deny_purge;
  deny_delete = if_set c.deny_delete s.deny_delete;
  allow_direct = if_set c.allow_direct s.allow_direct;
  mirror_direct = if_set c.allow_mirror_direct s.mirror_direct;
  allow_msg_schedules = if_set c.allow_schedules s.allow_msg_schedules;
  allow_msg_ttl = c.allow_msg_ttl || s.allow_msg_ttl;
  allow_atomic_publish = if_set c.allow_atomic_batch s.allow_atomic_publish;
  allow_batch_publish = if_set c.allow_fast_batch s.allow_batch_publish;
  allow_msg_counter = if_set c.allow_counter s.allow_msg_counter;
  discard_new_per = if_set c.discard_per_subj s.discard_new_per;
}

-- a list of tags that stands for none
abbrev pub no_tags : List Text → Bool
no_tags [] = true
no_tags (t ∷ []) = is_empty t
no_tags (t ∷ u ∷ ts) = false

abbrev pub is_nil {ℓ} : {A : Type ℓ} → List A → Bool
is_nil [] = true
is_nil (x ∷ xs) = false

abbrev pub placement_or_empty : Option Placement → Placement
placement_or_empty none = record { cluster = []; tags = [] }
placement_or_empty (some p) = p

unfoldable pub edit_placement : StreamCmd → Option Placement → Option Placement
edit_placement c old =
    let p = placement_or_empty old in
    let cluster = if_set c.placement_cluster p.cluster in
    let tags =
      if c.placement_tags.is_set
      then (if no_tags c.placement_tags.value then [] else c.placement_tags.value)
      else p.tags in
    if is_empty cluster && is_nil tags
    then none
    else some (record { cluster = cluster; tags = tags })

abbrev pub or_keep {ℓ} : {A : Type ℓ} → Option A → Option A → Option A
or_keep none old = old
or_keep (some a) old = some a

-- UnmarshalJSON of the quoted name
unfoldable pub edit_compression : Externals → Flag Text → Compression → Refusal ⊎ Compression
edit_compression ext c old =
    if c.is_set then or_else (ext.compression_of c.value) Refusal.invalid_compression else inr old

-- The configuration by the parts of it that were edited, when nothing was refused.
unfoldable pub edited : StreamCmd → StreamConfig → Policies → Limits → Compression → StreamConfig
unfolding edit_switches edit_placement
edited c cfg policies limits compression = record cfg {
  no_ack = not c.ack;
  policies = policies;
  subjects = if is_nil c.subjects then cfg.subjects else split_cli_subjects c.subjects;
  limits = limits;
  placement = edit_placement c cfg.placement;
  description = if is_empty c.description then cfg.description else c.description;
  switches = edit_switches c.switches cfg.switches;
  metadata = if_set c.metadata cfg.metadata;
  compression = compression;
  re_publish = if c.no_repub then none else or_keep (re_publish_flags c) cfg.re_publish;
  subject_transform =
      if c.no_subject_transform then none else or_keep (transform_flags c) cfg.subject_transform;
  subject_delete_marker_ttl = if_set c.subject_delete_marker_ttl cfg.subject_delete_marker_ttl;
  mirror = if c.no_mirror then none else cfg.mirror;
}

unfoldable pub edit_flags : Externals → StreamCmd → StreamConfig → Refusal ⊎ StreamConfig
unfolding edit_policies edit_limits edit_compression edited
edit_flags ext c cfg = attempt (edit_policies c.policies cfg.policies) (λ policies.
    attempt (edit_limits ext.numbers c.limits cfg.limits) (λ limits.
      if not (is_nil c.sources) || not (is_empty c.mirror)
      then inl Refusal.mirror_or_sources
      else attempt (edit_compression ext c.compression cfg.compression)
          (λ compression. inr (edited c cfg policies limits compression))))

-- a file is read, and the stream's name is the argument's where one is given
unfoldable pub load_config_file : Externals → StreamCmd → Refusal ⊎ StreamConfig
load_config_file ext c =
    attempt (or_else (ext.read_config c.input_file) Refusal.invalid_input)
      (λ cfg. inr (if is_empty c.stream then cfg else record cfg { name = c.stream }))

unfoldable pub checked_edit :
    Option Refusal → Externals → StreamCmd → StreamConfig → Refusal ⊎ StreamConfig
unfolding edit_flags
checked_edit none ext c cfg = edit_flags ext c cfg
checked_edit (some e) ext c cfg = inl e

unfoldable pub copy_and_edit_stream : Externals → StreamCmd → StreamConfig → Refusal ⊎ StreamConfig
unfolding load_config_file checked_edit
copy_and_edit_stream ext c cfg =
    if is_empty c.input_file
    then checked_edit (check_repub_transform c) ext c cfg
    else load_config_file ext c
