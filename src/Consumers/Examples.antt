-- ===== src/Consumers/Examples.antt =====
-- The level that a pinned client needs.
use natscli.Prelude.{true, [], ◌∷◌, inr, some, ◌≡◌, refl, arith, codes}
use natscli.Prelude.Int.{pos}
use natscli.Consumers.{ConsumerConfig, PriorityPolicy}
use natscli.Consumers.Samples.{stored_consumer}
use natscli.Consumers.Level.{check_config_level, check_config_level_iff}

abbrev pinned : ConsumerConfig
pinned = record stored_consumer {
  priorities = record {
    policy = PriorityPolicy.priority_pinned_client;
    groups = codes "A" ∷ [];
    pinned_ttl = pos 0;
  };
}

check_config_level_iff_example : check_config_level (some 2) pinned ≡ true
check_config_level_iff_example =
    (check_config_level_iff (some 2) pinned).1 (inr (2, refl, omega arith, λ e. omega arith))
