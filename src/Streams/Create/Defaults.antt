-- ===== src/Streams/Create/Defaults.antt =====
-- With defaults for all prompts, nothing is asked.
use natscli.Prelude.{
  ℕ, Bool, true, false, not, ◌&&◌, [], ◌∷◌, ◌≡◌, refl, arith, Text, str_eq, if◌then◌else◌, if_both,
}
use natscli.Prelude.Int.{ℤ, pos, negsuc}
use natscli.Util.Subjects.{split_string, split_cli_subjects}
use natscli.Dialog.{pure, ◌>>=◌, ask_one}
use natscli.Dialog.Quiet.{
  IsQuiet, Gives, >>=-IsQuiet, >>=-IsQuiet_of, >>=-Gives, pure-Gives, refuse-Gives, if-IsQuiet,
  if-Gives,
}
use natscli.Streams.{StreamCmd, Externals}
use natscli.Streams.Names.{is_empty}
use natscli.Streams.Edit.{is_nil, is_zero, load_config_file}
use natscli.Streams.Create.{given_or, lift, apply_defaults, ask_name, ask_subjects, check_mirror}
use natscli.Streams.Create.Config.{prepare_from_file, prepare_from_flags, prepare_config}
use natscli.Streams.Create.Quietly.{lift-IsQuiet, given-IsQuiet}
use natscli.Streams.Create.Settled.{IsComplete, settle-IsQuiet}

-- Defaults are accepted, and no size is given as 0.
pub record TakesDefaults (c : StreamCmd) : Type 0 where
  pub accepts : c.accept_defaults ≡ true
  pub bytes_given :
      is_empty c.limits.max_bytes_limit_string ≡ false → is_zero c.limits.max_bytes_limit ≡ false
  pub size_given :
      is_empty c.limits.max_msg_size_string ≡ false → is_zero c.limits.max_msg_size ≡ false

default_text-ne-nil :
    (s : Text) (n : ℕ) (d : Text) → is_empty (if is_empty s then n ∷ d else s) ≡ false
unfolding str_eq
default_text-ne-nil [] n d = refl
default_text-ne-nil (c ∷ s) n d = refl

default_number-ne-zero :
    (z d : ℤ) → is_zero d ≡ false → is_zero (if is_zero z then d else z) ≡ false
default_number-ne-zero z d h = ground arith

apply_defaults-IsComplete :
    (require_size : Bool) (c : StreamCmd)
    → TakesDefaults c
    → IsComplete (apply_defaults require_size c)
unfolding apply_defaults
apply_defaults-IsComplete require_size c h = rw h.accepts (record {
  accepts = refl;
  storage_named = default_text-ne-nil c.policies.storage _ _;
  retention_named = default_text-ne-nil c.policies.retention_policy_s _ _;
  discard_named = default_text-ne-nil c.policies.discard_policy _ _;
  replicas_set = default_number-ne-zero c.limits.replicas (pos 1) refl;
  msgs_set = default_number-ne-zero c.limits.max_msg_limit (negsuc 0) refl;
  per_set = default_number-ne-zero c.limits.max_msg_per_subject_limit (negsuc 0) refl;
  bytes_set =
      if_both (λ z. is_zero z ≡ false) (is_empty c.limits.max_bytes_limit_string) _ _
        (λ e. if_both (λ z. is_zero z ≡ false) require_size _ _ (λ r. refl) (λ r. refl))
        h.bytes_given;
  age_set = default_text-ne-nil c.limits.max_age_limit _ _;
  size_set =
      if_both (λ z. is_zero z ≡ false) (is_empty c.limits.max_msg_size_string) _ _ (λ e. refl)
        h.size_given;
})

-- The stream is named, and its messages come from somewhere.
pub record IsNamed (c : StreamCmd) : Type 0 where
  pub named : is_empty c.stream ≡ false
  pub fed : (is_empty c.mirror && is_nil c.sources && is_nil c.subjects) ≡ false

not_both : (b : Bool) → not b ≡ false → ¬ (b ≡ false)
not_both b h k = ground arith

other_false : (a b c : Bool) → (a && b) ≡ true → (a && b && c) ≡ false → not c ≡ true
other_false a b c h k = ground arith

ask_name-IsQuiet : (c : StreamCmd) → IsNamed c → IsQuiet (ask_name c)
unfolding ask_name
ask_name-IsQuiet c n = rw n.named (λ t. refl)

-- What the name and the subjects do not change.
with_name : (c : StreamCmd) (P : StreamCmd → Type 0) → IsNamed c → P c → Gives P (ask_name c)
unfolding ask_name
with_name c P n h =
    if-Gives P (not (is_empty c.stream)) _ _ (λ e. pure-Gives P c h)
      (λ e. absurd (not_both (is_empty c.stream) e n.named))

ask_subjects-IsQuiet : (c : StreamCmd) → IsNamed c → IsQuiet (ask_subjects c)
unfolding ask_subjects
ask_subjects-IsQuiet c n =
    if-IsQuiet (is_empty c.mirror && is_nil c.sources) _ _
      (λ e.
        >>=-IsQuiet
          (given_or (not (is_nil c.subjects)) c.subjects (ask_one >>= λ s. pure (split_string s))) _
          (given-IsQuiet (not (is_nil c.subjects)) c.subjects
            (ask_one >>= λ s. pure (split_string s))
            (other_false (is_empty c.mirror) (is_nil c.sources) (is_nil c.subjects) e n.fed))
          (λ s t. refl))
      (λ e t. refl)

with_subjects : (c : StreamCmd) → TakesDefaults c → Gives TakesDefaults (ask_subjects c)
unfolding ask_subjects
with_subjects c h =
    if-Gives TakesDefaults (is_empty c.mirror && is_nil c.sources) _ _
      (λ e.
        >>=-Gives
          (given_or (not (is_nil c.subjects)) c.subjects (ask_one >>= λ s. pure (split_string s))) _
          (λ s. Unit {0}) TakesDefaults (λ t a q. tt)
          (λ s u.
            pure-Gives TakesDefaults (record c { subjects = split_cli_subjects s })
              (record {
                accepts = h.accepts;
                bytes_given = h.bytes_given;
                size_given = h.size_given;
              })))
      (λ e. pure-Gives TakesDefaults c h)

check_mirror-IsQuiet : (c : StreamCmd) → IsQuiet (check_mirror c)
unfolding check_mirror
check_mirror-IsQuiet c =
    if-IsQuiet (not (is_empty c.mirror) && not (is_nil c.subjects)) _ _ (λ e t. refl) (λ e t. refl)

with_mirror : (c : StreamCmd) → TakesDefaults c → Gives TakesDefaults (check_mirror c)
unfolding check_mirror
with_mirror c h =
    if-Gives TakesDefaults (not (is_empty c.mirror) && not (is_nil c.subjects)) _ _
      (λ e. refuse-Gives TakesDefaults _) (λ e. pure-Gives TakesDefaults c h)

abbrev Ready : StreamCmd → Type 0
Ready c = IsNamed c × TakesDefaults c

prepare_from_flags-IsQuiet :
    (ext : Externals) (require_size : Bool) (c : StreamCmd)
    → IsNamed c
    → TakesDefaults c
    → IsQuiet (prepare_from_flags ext require_size c)
unfolding prepare_from_flags
prepare_from_flags-IsQuiet ext require_size c n h =
    >>=-IsQuiet_of (ask_name c) _ Ready (with_name c Ready n (n, h)) (ask_name-IsQuiet c n)
      (λ named (n1, h1).
        >>=-IsQuiet_of (ask_subjects named) _ TakesDefaults (with_subjects named h1)
          (ask_subjects-IsQuiet named n1)
          (λ subjects h2.
            >>=-IsQuiet_of (check_mirror subjects) _ TakesDefaults (with_mirror subjects h2)
              (check_mirror-IsQuiet subjects)
              (λ checked h3.
                settle-IsQuiet ext require_size (apply_defaults require_size checked)
                  (apply_defaults-IsComplete require_size checked h3))))

-- Making a configuration asks nothing, so that it needs no terminal, where defaults are accepted, the stream
-- is named, there are subjects, a mirror or sources, and no size is given as 0.
pub prepare_config-IsQuiet :
    (ext : Externals) (require_size : Bool) (c : StreamCmd)
    → IsNamed c
    → TakesDefaults c
    → IsQuiet (prepare_config ext require_size c)
unfolding prepare_config prepare_from_file
prepare_config-IsQuiet ext require_size c n h =
    if-IsQuiet (is_empty c.input_file) _ _ (λ e. prepare_from_flags-IsQuiet ext require_size c n h)
      (λ e. >>=-IsQuiet (lift (load_config_file ext c)) _ (lift-IsQuiet _) (λ cfg t. refl))
