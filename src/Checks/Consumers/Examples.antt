-- ===== src/Checks/Consumers/Examples.antt =====
-- The consumer check of groups of two replicas.
use natscli.Prelude.{
  ℕ, ◌≤◌, true, false, List, [], ◌∷◌, ◌↔◌, Option, none, some, ◌≡◌, refl, Text, codes, All,
}
use natscli.Checks.Replicas.{ClusterInfo, skipped, nil_pointer}
use natscli.Checks.Consumers.{
  ConsumerDetail, Trouble, check_state, compare_consumers, check_consumer,
}
use natscli.Checks.Consumers.Synced.{Same, compare_consumers_iff}
use natscli.Checks.Consumers.Rows.{check_consumer-skipped, check_consumer-no_cluster}

abbrev led : ClusterInfo
led = record { leader = codes "n1"; group = codes "C-R3F"; replicas = codes "n2" ∷ [] }

abbrev with_group : Option ClusterInfo → ℕ → ConsumerDetail
with_group c acked = record {
  server_id = codes "ID";
  stream_name = codes "ORDERS";
  consumer_name = codes "NEW";
  account = codes "my account";
  account_id = codes "A";
  raft_group = codes "C-R3F";
  state = record { msgs = 9; bytes = 100; first_seq = 1; last_seq = 9 };
  cluster = c;
  stream_cluster = some led;
  delivered_stream = 7;
  delivered_consumer = 7;
  ack_floor_stream = acked;
  ack_floor_consumer = acked;
}

abbrev group_of_two : Option ClusterInfo → List (Text × ConsumerDetail)
group_of_two c = (codes "n1", with_group (some led) 5) ∷ (codes "n2", with_group c 5) ∷ []

compare_consumers_iff_example :
    (after : List Trouble) × (compare_consumers
        (with_group (some led) 5)
        (group_of_two (some led))
        (some (check_state (with_group (some led) 5)))
      ≡ some after)
    × ((after ≡ []) ↔ (
        ((5 ≤ 9) × (7 ≤ 9))
        × All (λ p. Same led (with_group (some led) 5) p.1) (group_of_two (some led))))
compare_consumers_iff_example =
    compare_consumers_iff (with_group (some led) 5) led (group_of_two (some led)) refl
      ((led, refl), ((led, refl), tt))

check_consumer_skipped_run :
    (check_consumer true (codes "n1") (with_group (some led) 5) (group_of_two (some led)) ≡ skipped)
    ↔ (((5 ≤ 9) × (7 ≤ 9))
        × All (λ p. Same led (with_group (some led) 5) p.1) (group_of_two (some led)))
check_consumer_skipped_run =
    check_consumer-skipped (codes "n1") (with_group (some led) 5) (group_of_two (some led)) led led
      refl refl ((led, refl), ((led, refl), tt))

check_consumer_no_cluster_run :
    check_consumer false (codes "n2") (with_group none 5) (group_of_two none) ≡ nil_pointer
check_consumer_no_cluster_run =
    check_consumer-no_cluster false (codes "n2") (with_group none 5) (with_group (some led) 5)
      (codes "n1") led (group_of_two none) 0 refl refl (λ e. cc) refl
