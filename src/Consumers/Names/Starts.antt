-- ===== src/Consumers/Names/Starts.antt =====
-- Where a consumer starts.
use natscli.Prelude.{
  false, ◌||◌, List, [], ◌∷◌, ◌≢◌, ◌↔◌, inl, inr, none, ◌≡◌, arith, Text, codes, str_eq,
  Option-cases, any, Sum-cases,
}
use natscli.Duration.{parse_duration}
use natscli.Streams.Names.{is_empty}
use natscli.Consumers.{
  Start, Externals, deliver_all, deliver_by_start_sequence, deliver_by_start_time,
}
use natscli.Consumers.Names.{is_sequence, set_start_policy}

-- The start of a consumer that is made anew.
abbrev pub default_start : Start
default_start = record { deliver_policy = deliver_all; opt_start_seq = 0; opt_start_time = none }

-- A sequence and a time are there only where the policy asks for them, and a time is where it does.
abbrev pub IsConsistent : Start → Type 0
IsConsistent s =
    (s.deliver_policy ≢ deliver_by_start_sequence → s.opt_start_seq ≡ 0)
    × (s.deliver_policy ≢ deliver_by_start_time → s.opt_start_time ≡ none)
    × (s.deliver_policy ≡ deliver_by_start_time → s.opt_start_time ≢ none)

abbrev names : List Text
names =
    codes "all"
    ∷ codes "last"
    ∷ codes "new"
    ∷ codes "next"
    ∷ codes "subject"
    ∷ codes "last_per_subject"
    ∷ []

-- A policy that a new consumer starts by is empty, a name, a number, or a duration.
abbrev pub Startable : Externals → Text → Type 0
Startable ext s =
    (is_empty s || any (str_eq s) names || is_sequence s) ≡ false
    → parse_duration ext.numbers s ≢ none

pub set_start_policy-IsConsistent :
    (ext : Externals) (s : Text) (start : Start)
    → set_start_policy ext s default_start ≡ inr start
    → IsConsistent start
unfolding set_start_policy
set_start_policy-IsConsistent ext s start h = elim (Option-cases (parse_duration ext.numbers s)) [
  | inl e ↦ (λ k. ground arith, λ k. ground arith, λ k n. ground arith)
  | inr (d, e) ↦ (λ k. ground arith, λ k. ground arith, λ k n. ground arith)
]

set_start_policy_iff :
    (ext : Externals) (s : Text)
    → ((start : Start) × (set_start_policy ext s default_start ≡ inr start)) ↔ Startable ext s
unfolding set_start_policy
set_start_policy_iff ext s = (
  λ (start, h) k e. ground arith,
  λ h. elim (Sum-cases (set_start_policy ext s default_start)) [
    | inr (start, k) ↦ (start, k)
    | inl (r, k) ↦ elim (Option-cases (parse_duration ext.numbers s)) [
      | inl e ↦ absurd (h (ground arith) e)
      | inr (d, e) ↦ ground arith
    ]
  ],
)

-- A new consumer takes as its start what is empty, a name that is known, a number, or a duration, and nothing
-- else; and then it has a sequence or a time only where its policy asks for one, and always the time.
pub set_start_policy_lem :
    (ext : Externals) (s : Text)
    → (((start : Start) × (set_start_policy ext s default_start ≡ inr start)) ↔ Startable ext s)
      × ((start : Start) → set_start_policy ext s default_start ≡ inr start → IsConsistent start)
set_start_policy_lem ext s = (set_start_policy_iff ext s, set_start_policy-IsConsistent ext s)
