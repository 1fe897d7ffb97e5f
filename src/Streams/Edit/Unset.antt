-- ===== src/Streams/Edit/Unset.antt =====
-- What an edit leaves alone.
use natscli.Prelude.{
  Bool, true, false, not, ◌&&◌, inr, Option, none, some, ◌≡◌, refl, ap, arith, str_eq,
}
use natscli.Streams.{
  Limits, Switches, Policies, Placement, StreamConfig, Flag, LimitFlags, SwitchFlags, PolicyFlags,
  StreamCmd, Externals,
}
use natscli.Streams.Names.{is_empty, check_repub_transform, re_publish_flags, transform_flags}
use natscli.Streams.Edit.{
  is_zero, is_minus_one, is_nil, edit_policies, edit_limits, edit_switches, edit_placement,
  edit_compression, edited, checked_edit, copy_and_edit_stream,
}

abbrev pub is_unset : {A : Type 0} → Flag A → Bool
is_unset f = not f.is_set

abbrev no_policies : PolicyFlags → Bool
no_policies p = is_empty p.discard_policy && is_empty p.storage && is_empty p.retention_policy_s

abbrev no_limits : LimitFlags → Bool
no_limits l =
    is_zero l.max_msg_limit
    && is_zero l.max_msg_per_subject_limit
    && is_zero l.max_bytes_limit
    && is_empty l.max_age_limit
    && is_zero l.max_msg_size
    && is_minus_one l.max_consumers
    && is_empty l.dupe_window
    && is_zero l.replicas

abbrev no_switches : SwitchFlags → Bool
no_switches s =
    is_unset s.allow_rollup
    && is_unset s.deny_purge
    && is_unset s.deny_delete
    && is_unset s.allow_direct
    && is_unset s.allow_mirror_direct
    && is_unset s.allow_schedules
    && not s.allow_msg_ttl
    && is_unset s.allow_atomic_batch
    && is_unset s.allow_fast_batch
    && is_unset s.allow_counter
    && is_unset s.discard_per_subj

-- No flag was given, other than --ack.
pub record NoFlags (c : StreamCmd) : Type 0 where
  pub from_flags : is_empty c.input_file ≡ true
  pub policies_unset : no_policies c.policies ≡ true
  pub limits_unset : no_limits c.limits ≡ true
  pub switches_unset : no_switches c.switches ≡ true
  pub subjects_unset : is_nil c.subjects ≡ true
  pub compression_unset : c.compression.is_set ≡ false
  pub cluster_unset : c.placement_cluster.is_set ≡ false
  pub tags_unset : c.placement_tags.is_set ≡ false
  pub sources_unset : is_nil c.sources ≡ true
  pub mirror_unset : (is_empty c.mirror ≡ true) × (c.no_mirror ≡ false)
  pub description_unset : is_empty c.description ≡ true
  pub metadata_unset : c.metadata.is_set ≡ false
  pub republish_unset :
      (is_empty c.repub_source ≡ true)
      × (is_empty c.repub_dest ≡ true)
      × (c.repub_headers_only ≡ false)
      × (c.no_repub ≡ false)
  pub transform_unset :
      (is_empty c.subject_transform_source ≡ true)
      × (is_empty c.subject_transform_dest ≡ true)
      × (c.no_subject_transform ≡ false)
  pub marker_unset : c.subject_delete_marker_ttl.is_set ≡ false

-- A placement names a cluster or a tag.
abbrev pub IsPlaced : Option Placement → Type 0
IsPlaced none = Unit
IsPlaced (some p) = (is_empty p.cluster && is_nil p.tags) ≡ false

edit_policies_same :
    (c : PolicyFlags) (p : Policies) → no_policies c ≡ true → edit_policies c p ≡ inr p
unfolding edit_policies
edit_policies_same c p h = ground arith

edit_limits_same :
    (ext : Externals) (c : LimitFlags) (l : Limits)
    → no_limits c ≡ true
    → edit_limits ext.numbers c l ≡ inr l
unfolding edit_limits
edit_limits_same ext c l h = ground arith

edit_switches_same : (c : SwitchFlags) (s : Switches) → no_switches c ≡ true → edit_switches c s ≡ s
unfolding edit_switches
edit_switches_same c s h = ground arith

edit_placement_same :
    (c : StreamCmd) (p : Option Placement)
    → c.placement_cluster.is_set ≡ false
    → c.placement_tags.is_set ≡ false
    → IsPlaced p
    → edit_placement c p ≡ p
unfolding edit_placement str_eq
edit_placement_same c none h k w = ground arith
edit_placement_same c (some p) h k w = ground arith

module _ (c : StreamCmd) (cfg : StreamConfig) (h : NoFlags c) (w : IsPlaced cfg.placement) where
  unset_check : check_repub_transform c ≡ none
  unfolding check_repub_transform
  unset_check =
      let (source, dest, headers, no_repub) = h.republish_unset in
      let (from, to, no_transform) = h.transform_unset in rw (source, dest, headers, from, to) refl

  unset_publish : re_publish_flags c ≡ none
  unfolding re_publish_flags
  unset_publish = rw h.republish_unset.0 refl

  unset_transform : transform_flags c ≡ none
  unfolding transform_flags
  unset_transform = rw h.transform_unset.0 refl

  unset_edited :
      edited c cfg cfg.policies cfg.limits cfg.compression ≡ record cfg { no_ack = not c.ack }
  unfolding edited
  unset_edited =
      let (source, dest, headers, no_repub) = h.republish_unset in
      let (from, to, no_transform) = h.transform_unset in
      rw
        (
          edit_placement_same c cfg.placement h.cluster_unset h.tags_unset w,
          edit_switches_same c.switches cfg.switches h.switches_unset,
          unset_publish,
          unset_transform,
          no_repub,
          no_transform,
          h.subjects_unset,
          h.description_unset,
          h.metadata_unset,
          h.marker_unset,
          h.mirror_unset.1,
        )
        refl

  unset_compression :
      (ext : Externals) → edit_compression ext c.compression cfg.compression ≡ inr cfg.compression
  unfolding edit_compression
  unset_compression ext = rw h.compression_unset refl

  -- An edit without flags changes nothing of a configuration whose placement, if it has one, names a
  -- cluster or a tag, except that the acknowledgement of messages is set by --ack, which is on when it
  -- is not given.
  pub copy_and_edit_stream_unset :
      (ext : Externals) → copy_and_edit_stream ext c cfg ≡ inr (record cfg { no_ack = not c.ack })
  unfolding copy_and_edit_stream checked_edit edited
  copy_and_edit_stream_unset ext =
      rw
        (
          h.from_flags,
          unset_check,
          edit_policies_same c.policies cfg.policies h.policies_unset,
          edit_limits_same ext c.limits cfg.limits h.limits_unset,
          h.sources_unset,
          h.mirror_unset.0,
          unset_compression ext,
        )
        (ap inr unset_edited)
