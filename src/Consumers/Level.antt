-- ===== src/Consumers/Level.antt =====
-- cli/consumer_command.go, checkConfigLevel: the API level that a consumer needs.
use natscli.Prelude.{
  ℕ, ◌≤◌, Bool, true, false, not, ◌&&◌, ◌||◌, List, [], ◌∷◌, ◌↔◌, ◌⊎◌, inl, inr, Option, none, some,
  ◌≡◌, refl, sym, arith, Text, leb, if◌then◌else◌, Bool-cases,
}
use natscli.Prelude.Int.{ℤ}
use natscli.Checks.Streams.Agreement.{true-ne-false}
use natscli.Streams.Edit.{is_nil}
use natscli.Consumers.{
  ConsumerConfig, PriorityPolicy, Priorities, priority_none, priority_pinned_client,
  priority_overflow, priority_prioritized,
}

abbrev pub is_some {ℓ} : {A : Type ℓ} → Option A → Bool
is_some none = false
is_some (some a) = true

abbrev pub is_none_policy : PriorityPolicy → Bool
is_none_policy priority_none = true
is_none_policy priority_pinned_client = false
is_none_policy priority_overflow = false
is_none_policy priority_prioritized = false

-- iu.RequireAPILevel, for a level that the meta leader may not give
abbrev pub supports : Option ℕ → ℕ → Bool
supports none n = false
supports (some level) n = leb n level

abbrev pub policy_level : PriorityPolicy → ℕ
policy_level priority_pinned_client = 2
policy_level priority_none = 1
policy_level priority_overflow = 1
policy_level priority_prioritized = 1

unfoldable pub check_priorities : Option ℕ → Priorities → Bool
check_priorities level p =
    if not (is_nil p.groups) || not (is_none_policy p.policy)
    then supports level (policy_level p.policy)
    else true

unfoldable pub check_config_level : Option ℕ → ConsumerConfig → Bool
unfolding check_priorities
check_config_level level cfg =
    (if is_some cfg.pause_until then supports level 1 else true)
    && check_priorities level cfg.priorities

-- Nothing of a configuration needs a level: it has no pause, no priority groups and no policy for them.
abbrev pub NeedsNone : ConsumerConfig → Type 0
NeedsNone cfg =
    (cfg.pause_until ≡ none)
    × (cfg.priorities.groups ≡ [])
    × (cfg.priorities.policy ≡ priority_none)

some_pause : (o : Option ℤ) → is_some o ≡ false → o ≡ none
some_pause none h = refl
some_pause (some t) h = absurd (true-ne-false h)

no_groups : (gs : List Text) → is_nil gs ≡ true → gs ≡ []
no_groups [] h = refl
no_groups (g ∷ gs) h = absurd (true-ne-false (sym h))

no_policy : (p : PriorityPolicy) → is_none_policy p ≡ true → p ≡ priority_none
no_policy priority_none h = refl
no_policy priority_pinned_client h = absurd (true-ne-false (sym h))
no_policy priority_overflow h = absurd (true-ne-false (sym h))
no_policy priority_prioritized h = absurd (true-ne-false (sym h))

-- what a policy asks of a level
policy_level_iff :
    (p : PriorityPolicy) (n : ℕ)
    → (policy_level p ≤ n) ↔ ((1 ≤ n) × (p ≡ priority_pinned_client → 2 ≤ n))
policy_level_iff priority_pinned_client n = (λ h. (omega arith, λ e. h), λ (h, k). k refl)
policy_level_iff priority_none n = (λ h. (h, λ e. ground arith), λ (h, k). h)
policy_level_iff priority_overflow n = (λ h. (h, λ e. ground arith), λ (h, k). h)
policy_level_iff priority_prioritized n = (λ h. (h, λ e. ground arith), λ (h, k). h)

-- The check passes exactly where a configuration has no pause, no priority groups and no policy for them, or
-- the meta leader has a level of 1 at least, which is 2 at least if the policy is a pinned client.
pub check_config_level_iff :
    (level : Option ℕ) (cfg : ConsumerConfig)
    → (check_config_level level cfg ≡ true) ↔ (
        NeedsNone cfg
        ⊎ ((n : ℕ) × (level ≡ some n)
            × (1 ≤ n)
            × (cfg.priorities.policy ≡ priority_pinned_client → 2 ≤ n)))
unfolding check_config_level check_priorities
check_config_level_iff none cfg =
    let pause = some_pause cfg.pause_until in
    let groups = no_groups cfg.priorities.groups in
    let policy = no_policy cfg.priorities.policy in
    (λ h. inl (pause ground arith, groups ground arith, policy ground arith), λ h. ground arith)
check_config_level_iff (some n) cfg =
    let pause = some_pause cfg.pause_until in
    let groups = no_groups cfg.priorities.groups in
    let policy = no_policy cfg.priorities.policy in
    let (asks, enough) = policy_level_iff cfg.priorities.policy n in
    (
      λ h.
          elim (Bool-cases
            (not (is_nil cfg.priorities.groups) || not (is_none_policy cfg.priorities.policy))) [
              | inl e ↦
                  let fits : policy_level cfg.priorities.policy ≤ n = ground arith in
                  let (one, two) = asks fits in inr (n, refl, one, two)
              | inr e ↦
                  let is_none = policy ground arith in
                  elim (Bool-cases (is_some cfg.pause_until)) [
                    | inl k ↦ inr (n, refl, ground arith, λ q. ground arith)
                    | inr k ↦ inl (pause k, groups ground arith, is_none)
                  ]
            ],
      λ h. ground arith,
    )
