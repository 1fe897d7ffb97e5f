-- ===== src/Streams/Create/Sound.antt =====
-- What holds of a configuration that is made of the flags and the answers.
use natscli.Prelude.{
  Bool, true, not, ◌&&◌, List, ◌⊎◌, inl, inr, Option, none, ◌≡◌, refl, sym, ap, ◌∙◌, arith, Text,
  if◌then◌else◌, Bool-cases, if_both,
}
use natscli.Prelude.Int.{ℤ, pos, ◌≤ℤ◌}
use natscli.Dialog.{ask_one, Terminal, Refusal, or_refuse}
use natscli.Dialog.Quiet.{Gives, >>=-Gives, >>=-Gives_any, pure-Gives, refuse-Gives, if-Gives}
use natscli.Streams.{StreamCmd, Externals, StreamConfig, StreamSource}
use natscli.Streams.Names.{is_empty, check_repub_transform}
use natscli.Streams.Edit.{is_nil}
use natscli.Streams.Create.{
  apply_defaults, default_limits, minus_one, ask_name, ask_subjects, check_mirror, ask_storage,
  ask_text, ask_replicas, ask_limits, ask_switches,
}
use natscli.Streams.Create.Config.{
  prepare_from_flags, settle, complete, created, ask_for_mirror, ask_for_sources, unless_refused,
  name_policies,
}
use natscli.Streams.Create.Bounds.{Bounded, ask_replicas-Gives, ask_limits-Gives}
use natscli.Checks.Streams.Agreement.{true-ne-false}

-- A mirror listens to no subjects.
abbrev pub Listens : StreamConfig → Type 0
Listens cfg = (cfg.mirror ≡ none) ⊎ (is_nil cfg.subjects ≡ true)

abbrev pub IsSound : ℤ → StreamConfig → Type 0
IsSound size cfg = Bounded size cfg.limits × Listens cfg

-- either nothing is mirrored or nothing is subscribed to
abbrev Chosen : StreamCmd → Type 0
Chosen c = (is_empty c.mirror ≡ true) ⊎ (is_nil c.subjects ≡ true)

apply_defaults-Chosen :
    (require_size : Bool) (c : StreamCmd) → Chosen c → Chosen (apply_defaults require_size c)
unfolding apply_defaults
apply_defaults-Chosen require_size c h = if_both Chosen c.accept_defaults _ _ (λ e. h) (λ e. h)

ask_for_mirror-Gives :
    (ext : Externals) (c : StreamCmd)
    → Gives (λ m. is_empty c.mirror ≡ true → m ≡ none) (ask_for_mirror ext c)
unfolding ask_for_mirror
ask_for_mirror-Gives ext c =
    let P : Option StreamSource → Type 0 = λ m. is_empty c.mirror ≡ true → m ≡ none in
    if-Gives P (is_empty c.mirror) _ _ (λ e. pure-Gives P none (λ h. refl))
      (λ e t m q h. absurd (true-ne-false (sym h ∙ e)))

listens :
    (c : StreamCmd)
    → Chosen c
    → (m : Option StreamSource) (subjects : List Text) → (is_empty c.mirror ≡ true → m ≡ none)
    → subjects ≡ c.subjects
    → (m ≡ none) ⊎ (is_nil subjects ≡ true)
listens c (inl e) m subjects hm same = inl (hm e)
listens c (inr e) m subjects hm same = inr (ap is_nil same ∙ e)

complete-Gives :
    (ext : Externals) (c : StreamCmd) (cfg : StreamConfig)
    → Chosen c
    → cfg.subjects ≡ c.subjects
    → Bounded c.limits.max_msg_size cfg.limits
    → Gives (IsSound c.limits.max_msg_size) (complete ext c cfg)
unfolding complete
complete-Gives ext c cfg h same bounded =
    let P = IsSound c.limits.max_msg_size in
    >>=-Gives (ask_for_mirror ext c) _ (λ m. is_empty c.mirror ≡ true → m ≡ none) P
      (ask_for_mirror-Gives ext c)
      (λ m hm. >>=-Gives_any (ask_for_sources ext c.accept_defaults c.sources) _ P (λ ss.
        >>=-Gives_any (unless_refused (check_repub_transform c)) _ P
          (λ u. pure-Gives P _ (bounded, listens c h m _ hm same))))

settle-Gives :
    (ext : Externals) (require_size : Bool) (c : StreamCmd)
    → Chosen c
    → Gives (IsSound c.limits.max_msg_size) (settle ext require_size c)
unfolding settle created
settle-Gives ext require_size c h =
    let P = IsSound c.limits.max_msg_size in
    >>=-Gives_any (ask_storage c.policies.storage) _ P (λ storage.
      >>=-Gives_any (or_refuse (ext.compression_of c.compression.value) Refusal.invalid_compression)
        _ P
        (λ compression.
          >>=-Gives (ask_replicas c.limits.replicas) _ (λ n. pos 1 ≤ℤ n) P
            (ask_replicas-Gives c.limits.replicas)
            (λ replicas hr. >>=-Gives_any (ask_text c.policies.retention_policy_s) _ P (λ retention.
              >>=-Gives_any (ask_text c.policies.discard_policy) _ P (λ discard.
                >>=-Gives (ask_limits ext require_size c replicas) _ (Bounded c.limits.max_msg_size)
                  P (ask_limits-Gives ext require_size c replicas hr)
                  (λ limits hl.
                    >>=-Gives_any (ask_switches c.accept_defaults c.switches) _ P (λ switches.
                      >>=-Gives_any (name_policies storage retention discard) _ P (λ policies.
                        complete-Gives ext c (created ext c policies compression limits switches) h
                          refl hl))))))))

-- What is asked before the limits leaves the limits alone.
abbrev Same : StreamCmd → StreamCmd → Type 0
Same c d = (d.limits ≡ c.limits) × (d.accept_defaults ≡ c.accept_defaults)

ask_name-Same : (c : StreamCmd) → Gives (Same c) (ask_name c)
unfolding ask_name
ask_name-Same c =
    if-Gives (Same c) (not (is_empty c.stream)) _ _ (λ e. pure-Gives (Same c) c (refl, refl))
      (λ e.
        >>=-Gives_any ask_one _ (Same c)
          (λ name. pure-Gives (Same c) (record c { stream = name }) (refl, refl)))

ask_subjects-Same : (b c : StreamCmd) → Same b c → Gives (Same b) (ask_subjects c)
unfolding ask_subjects
ask_subjects-Same b c h =
    if-Gives (Same b) (is_empty c.mirror && is_nil c.sources) _ _
      (λ e. >>=-Gives_any _ _ (Same b) (λ subjects. pure-Gives (Same b) _ h))
      (λ e. pure-Gives (Same b) c h)

abbrev Ready : StreamCmd → StreamCmd → Type 0
Ready b c = Chosen c × Same b c

check_mirror-Gives : (b c : StreamCmd) → Same b c → Gives (Ready b) (check_mirror c)
unfolding check_mirror
check_mirror-Gives b c h =
    if-Gives (Ready b) (not (is_empty c.mirror) && not (is_nil c.subjects)) _ _
      (λ e. refuse-Gives (Ready b) _) (λ e. pure-Gives (Ready b) c (ground arith, h))

-- The size of messages that the flags give, or the defaults where these are accepted.
abbrev pub size_of : StreamCmd → ℤ
size_of c =
    if c.accept_defaults && is_empty c.limits.max_msg_size_string
    then minus_one
    else c.limits.max_msg_size

size_of-Same : (b c : StreamCmd) → Same b c → size_of c ≡ size_of b
size_of-Same b c (same, accepts) = rw (same, accepts) refl

apply_defaults_size :
    (require_size : Bool) (c : StreamCmd)
    → (apply_defaults require_size c).limits.max_msg_size ≡ size_of c
unfolding apply_defaults default_limits
apply_defaults_size require_size c = elim (Bool-cases c.accept_defaults) [
  | inl e ↦ rw e refl
  | inr e ↦ rw e refl
]

-- A configuration that is made of flags and answers has one replica at least, a limit on bytes that is -1
-- or positive, and no subjects if it is a mirror. The size of a message that the flags give, or the defaults
-- where these are accepted, if it is not 0, is at most the greatest int32, and is stored as it is unless it is below the
-- least one, when it wraps around.
pub prepare_from_flags-IsSound :
    (ext : Externals) (require_size : Bool) (c : StreamCmd) (t : Terminal) (cfg : StreamConfig)
    → (prepare_from_flags ext require_size c t).0 ≡ inr cfg
    → IsSound (size_of c) cfg
unfolding prepare_from_flags
prepare_from_flags-IsSound ext require_size c =
    let P = IsSound (size_of c) in
    >>=-Gives (ask_name c) _ (Same c) P (ask_name-Same c) (λ named h.
      >>=-Gives (ask_subjects named) _ (Same c) P (ask_subjects-Same c named h) (λ subjects h'.
        >>=-Gives (check_mirror subjects) _ (Ready c) P (check_mirror-Gives c subjects h')
          (λ checked (chosen, same) t cfg made.
            rw⁻¹
              (ap (λ z. IsSound z cfg)
                (apply_defaults_size require_size checked ∙ size_of-Same c checked same))
              (settle-Gives ext require_size (apply_defaults require_size checked)
                (apply_defaults-Chosen require_size checked chosen) t cfg made))))
