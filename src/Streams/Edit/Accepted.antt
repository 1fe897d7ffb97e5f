-- ===== src/Streams/Edit/Accepted.antt =====
-- Which edits are accepted.
use natscli.Prelude.{
  Bool, true, false, ◌||◌, List, [], ◌∷◌, ◌↔◌, ◌⊎◌, inl, inr, Option, none, some, ◌≡◌, refl, sym,
  ◌∙◌, arith, Text, codes, str_eq, if◌then◌else◌, Bool-cases, Option-cases, any,
}
use natscli.Checks.Streams.Agreement.{true-ne-false}
use natscli.Duration.{Numbers, parse_duration}
use natscli.Dialog.{Refusal}
use natscli.Streams.{
  Limits, Policies, StreamConfig, Flag, LimitFlags, PolicyFlags, StreamCmd, Externals, Compression,
}
use natscli.Streams.Names.{
  is_empty, check_repub_transform, to_lower, discard_policy_from_string, store_type_from_string,
  retention_policy_from_string,
}
use natscli.Streams.Edit.{
  edit_policies, edit_limits, edit_compression, edited, copy_and_edit_stream, load_config_file,
  edit_flags,
}
use natscli.Streams.Edit.Parts.{
  edit_flags_parts, edit_flags_of_parts, edit_by_file, edit_by_flags, edit_unchecked, from_streams,
}

-- The flags come in pairs.
abbrev pub Paired : StreamCmd → Type 0
Paired c =
    (is_empty c.repub_source ≡ is_empty c.repub_dest)
    × (c.repub_headers_only ≡ true → is_empty c.repub_source ≡ false)
    × (is_empty c.subject_transform_source ≡ is_empty c.subject_transform_dest)

abbrev one_named : Text → Text → List Text → Bool
one_named s spelled names = is_empty s || any (str_eq spelled) names

-- Each policy is one that there is, or is left alone; only the storage is in lower case.
abbrev pub Named : PolicyFlags → Type 0
Named p =
    (one_named p.discard_policy (to_lower p.discard_policy) (codes "new" ∷ codes "old" ∷ []) ≡ true)
    × (one_named p.storage p.storage (codes "file" ∷ codes "f" ∷ codes "memory" ∷ codes "m" ∷ [])
        ≡ true)
    × (one_named p.retention_policy_s (to_lower p.retention_policy_s) (
          codes "limits"
          ∷ codes "interest"
          ∷ codes "work queue"
          ∷ codes "workq"
          ∷ codes "work"
          ∷ [])
        ≡ true)

abbrev Known : {A : Type 0} → Option A → Type 0
Known none = ⊥
Known (some a) = Unit

abbrev pub Timed : Numbers → Text → Type 0
Timed num s = is_empty s ≡ false → Known (parse_duration num s)

abbrev pub Valid : Externals → StreamCmd → Type 0
Valid ext c =
    Named c.policies
    × Timed ext.numbers c.limits.max_age_limit
    × Timed ext.numbers c.limits.dupe_window
    × (from_streams c ≡ false)
    × (c.compression.is_set ≡ true → Known (ext.compression_of c.compression.value))

-- What makes an edit acceptable: a file that can be read, or flags that are complete and valid.
abbrev pub Acceptable : Externals → StreamCmd → Type 0
Acceptable ext c =
    ((is_empty c.input_file ≡ false) × Known (ext.read_config c.input_file))
    ⊎ ((is_empty c.input_file ≡ true) × Paired c × Valid ext c)

check_repub_transform_iff : (c : StreamCmd) → (check_repub_transform c ≡ none) ↔ Paired c
unfolding check_repub_transform
check_repub_transform_iff c = (λ h. (ground arith, ground arith, ground arith), λ h. ground arith)

abbrev Succeeds : {A : Type 0} → Refusal ⊎ A → Type 0
Succeeds (inl e) = ⊥
Succeeds (inr a) = Unit

edit_policies_iff : (c : PolicyFlags) (p : Policies) → Succeeds (edit_policies c p) ↔ Named c
unfolding edit_policies discard_policy_from_string store_type_from_string
    retention_policy_from_string
edit_policies_iff c p = (λ h. (ground arith, ground arith, ground arith), λ h. ground arith)

edit_limits_iff :
    (num : Numbers) (c : LimitFlags) (l : Limits)
    → Succeeds (edit_limits num c l) ↔ (Timed num c.max_age_limit × Timed num c.dupe_window)
unfolding edit_limits
edit_limits_iff num c l = (λ h. (λ e. ground arith, λ e. ground arith), λ h. ground arith)

edit_compression_iff :
    (ext : Externals) (c : Flag Text) (z : Compression)
    → Succeeds (edit_compression ext c z) ↔ (c.is_set ≡ true → Known (ext.compression_of c.value))
unfolding edit_compression
edit_compression_iff ext c z = (λ h e. ground arith, λ h. ground arith)

inl-ne-inr : {A : Type 0} (e : Refusal) (a : A) → ¬ (inl e ≡ inr a)
inl-ne-inr e a h = ground arith

some-ne-none : (e : Refusal) → ¬ (some e ≡ none)
some-ne-none e h = ground arith

inr-Succeeds : {A : Type 0} (m : Refusal ⊎ A) (a : A) → m ≡ inr a → Succeeds m
inr-Succeeds m a h = ground arith

result_of : {A : Type 0} (m : Refusal ⊎ A) → Succeeds m → (a : A) × (m ≡ inr a)
result_of (inl e) h = absurd h
result_of (inr a) h = (a, refl)

edit_flags_iff :
    (ext : Externals) (c : StreamCmd) (cfg : StreamConfig)
    → ((new : StreamConfig) × (edit_flags ext c cfg ≡ inr new)) ↔ Valid ext c
edit_flags_iff ext c cfg = (
  λ (new, h).
      let (p, l, z, hp, hl, hs, hz, same) = edit_flags_parts ext c cfg new h in
      let times = (edit_limits_iff ext.numbers c.limits cfg.limits).0 (inr-Succeeds _ l hl) in
      (
        (edit_policies_iff c.policies cfg.policies).0 (inr-Succeeds _ p hp),
        times.0,
        times.1,
        hs,
        (edit_compression_iff ext c.compression cfg.compression).0 (inr-Succeeds _ z hz),
      ),
  λ (named, age, window, hs, known).
      let (p, hp) = result_of _ ((edit_policies_iff c.policies cfg.policies).1 named) in
      let (l, hl) =
        result_of _ ((edit_limits_iff ext.numbers c.limits cfg.limits).1 (age, window)) in
      let (z, hz) =
        result_of _ ((edit_compression_iff ext c.compression cfg.compression).1 known) in
      (edited c cfg p l z, edit_flags_of_parts ext c cfg p l z hp hl hs hz),
)

load_config_file_iff :
    (ext : Externals) (c : StreamCmd)
    → ((new : StreamConfig) × (load_config_file ext c ≡ inr new))
      ↔ Known (ext.read_config c.input_file)
unfolding load_config_file
load_config_file_iff ext c = elim (Option-cases (ext.read_config c.input_file)) [
  | inl e ↦ (λ (new, h). ground arith, λ k. ground arith)
  | inr (cfg, e) ↦ (
    λ h. ground arith,
    λ k. (if is_empty c.stream then cfg else record cfg { name = c.stream }, rw e refl),
  )
]

-- Whether an edit is accepted depends on the flags alone, not on what is edited: a file is read, or the
-- republishing and the subject transform come in pairs, each policy is one that there is (the storage in
-- lower case), the durations and the compression can be read, and no mirror and no source is given.
pub copy_and_edit_stream_iff :
    (ext : Externals) (c : StreamCmd) (cfg : StreamConfig)
    → ((new : StreamConfig) × (copy_and_edit_stream ext c cfg ≡ inr new)) ↔ Acceptable ext c
copy_and_edit_stream_iff ext c cfg = elim (Bool-cases (is_empty c.input_file)) [
  | inr file ↦
      let same = edit_by_file ext c cfg file in
      (
        λ (new, h). inl (file, (load_config_file_iff ext c).0 (new, sym same ∙ h)),
        λ ok. elim ok [
          | inl (f, known) ↦ let (new, h) = (load_config_file_iff ext c).1 known in (new, same ∙ h)
          | inr rest ↦ absurd (true-ne-false (sym rest.0 ∙ file))
        ],
      )
  | inl flags ↦ elim (Option-cases (check_repub_transform c)) [
    | inr (e, k) ↦ (
      λ (new, h). absurd (inl-ne-inr _ _ (sym (edit_unchecked ext c cfg e flags k) ∙ h)),
      λ ok. elim ok [
        | inl (f, known) ↦ absurd (true-ne-false (sym flags ∙ f))
        | inr (f, paired, valid) ↦
            absurd (some-ne-none _ (sym k ∙ (check_repub_transform_iff c).1 paired))
      ],
    )
    | inl k ↦
        let same = edit_by_flags ext c cfg flags k in
        (
          λ (new, h). inr (
            flags,
            (check_repub_transform_iff c).0 k,
            (edit_flags_iff ext c cfg).0 (new, sym same ∙ h),
          ),
          λ ok. elim ok [
            | inl (f, known) ↦ absurd (true-ne-false (sym flags ∙ f))
            | inr (f, paired, valid) ↦
                let (new, h) = (edit_flags_iff ext c cfg).1 valid in (new, same ∙ h)
          ],
        )
  ]
]
