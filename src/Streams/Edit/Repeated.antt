-- ===== src/Streams/Edit/Repeated.antt =====
-- An edit that is made again changes nothing.
use natscli.Prelude.{
  Bool, true, false, inl, inr, Option, none, some, ◌≡◌, refl, sym, ap, ◌∙◌, arith, Text, str_eq,
  if◌then◌else◌, Bool-cases, Option-cases,
}
use natscli.Duration.{Numbers}
use natscli.Streams.Edit.Parts.{
  edit_flags_parts, edit_flags_of_parts, edit_by_file, edit_by_flags, edit_unchecked,
}
use natscli.Util.Subjects.{split_cli_subjects}
use natscli.Streams.{
  Limits, Switches, Policies, Placement, StreamConfig, Flag, LimitFlags, SwitchFlags, PolicyFlags,
  StreamCmd, Externals, Compression,
}
use natscli.Streams.Names.{is_empty, check_repub_transform, re_publish_flags, transform_flags}
use natscli.Streams.Edit.{
  is_nil, edit_policies, edit_limits, edit_switches, edit_placement, edit_compression, edited,
  copy_and_edit_stream, edit_flags, or_keep,
}

edit_policies_again :
    (c : PolicyFlags) (p q : Policies) → edit_policies c p ≡ inr q → edit_policies c q ≡ inr q
unfolding edit_policies
edit_policies_again c p q h = ground arith

edit_switches_again :
    (c : SwitchFlags) (s : Switches) → edit_switches c (edit_switches c s) ≡ edit_switches c s
unfolding edit_switches
edit_switches_again c s = ground arith

edit_placement_again :
    (c : StreamCmd) (p : Option Placement)
    → edit_placement c (edit_placement c p) ≡ edit_placement c p
unfolding edit_placement str_eq
edit_placement_again c p = ground arith

edit_limits_again :
    (num : Numbers) (c : LimitFlags) (l m : Limits)
    → edit_limits num c l ≡ inr m
    → edit_limits num c m ≡ inr m
unfolding edit_limits
edit_limits_again num c l m h = ground arith

edit_compression_again :
    (ext : Externals) (c : Flag Text) (old new : Compression)
    → edit_compression ext c old ≡ inr new
    → edit_compression ext c new ≡ inr new
unfolding edit_compression
edit_compression_again ext c old new h = elim (Bool-cases c.is_set) [
  | inl e ↦ ground arith
  | inr e ↦ ground arith
]

-- What is set, is set again.
pub set_again :
    {A : Type 0} (b : Bool) (new old : A)
    → (if b then new else (if b then new else old)) ≡ (if b then new else old)
set_again true new old = refl
set_again false new old = refl

pub kept_again :
    {A : Type 0} (b : Bool) (new old : A)
    → (if b then (if b then old else new) else new) ≡ (if b then old else new)
kept_again true new old = refl
kept_again false new old = refl

or_keep_again : {A : Type 0} (new old : Option A) → or_keep new (or_keep new old) ≡ or_keep new old
or_keep_again none old = refl
or_keep_again (some a) old = refl

removed_again :
    {A : Type 0} (b : Bool) (new old : Option A)
    → (if b then none else or_keep new (if b then none else or_keep new old))
      ≡ (if b then none else or_keep new old)
removed_again true new old = refl
removed_again false new old = or_keep_again new old

edited_again :
    (c : StreamCmd) (cfg : StreamConfig) (p : Policies) (l : Limits) (z : Compression)
    → edited c (edited c cfg p l z) p l z ≡ edited c cfg p l z
unfolding edited
edited_again c cfg p l z =
    rw
      (
        edit_switches_again c.switches cfg.switches,
        edit_placement_again c cfg.placement,
        removed_again c.no_repub (re_publish_flags c) cfg.re_publish,
        removed_again c.no_subject_transform (transform_flags c) cfg.subject_transform,
        kept_again (is_empty c.description) c.description cfg.description,
        kept_again (is_nil c.subjects) (split_cli_subjects c.subjects) cfg.subjects,
        set_again c.no_mirror none cfg.mirror,
        set_again c.subject_delete_marker_ttl.is_set c.subject_delete_marker_ttl.value
            cfg.subject_delete_marker_ttl,
        set_again c.metadata.is_set c.metadata.value cfg.metadata,
      )
      refl

edit_flags_again :
    (ext : Externals) (c : StreamCmd) (cfg new : StreamConfig)
    → edit_flags ext c cfg ≡ inr new
    → edit_flags ext c new ≡ inr new
unfolding edited
edit_flags_again ext c cfg new h =
    let (p, l, z, hp, hl, hs, hz, same) = edit_flags_parts ext c cfg new h in
    rw (sym same) (
      edit_flags_of_parts ext c (edited c cfg p l z) p l z
        (edit_policies_again c.policies cfg.policies p hp)
        (edit_limits_again ext.numbers c.limits cfg.limits l hl) hs
        (edit_compression_again ext c.compression cfg.compression z hz)
      ∙ ap inr (edited_again c cfg p l z))

-- An edit that is accepted, by a file too, is accepted again on its own result, and then changes nothing.
pub copy_and_edit_stream_again :
    (ext : Externals) (c : StreamCmd) (cfg new : StreamConfig)
    → copy_and_edit_stream ext c cfg ≡ inr new
    → copy_and_edit_stream ext c new ≡ inr new
copy_and_edit_stream_again ext c cfg new h = elim (Bool-cases (is_empty c.input_file)) [
  | inr file ↦ edit_by_file ext c new file ∙ sym (edit_by_file ext c cfg file) ∙ h
  | inl flags ↦ elim (Option-cases (check_repub_transform c)) [
    | inr (e, k) ↦ edit_unchecked ext c new e flags k ∙ sym (edit_unchecked ext c cfg e flags k) ∙ h
    | inl k ↦
        edit_by_flags ext c new flags k
        ∙ edit_flags_again ext c cfg new (sym (edit_by_flags ext c cfg flags k) ∙ h)
  ]
]
