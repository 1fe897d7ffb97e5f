-- ===== src/Checks/Streams/Examples.antt =====
-- The stream check of groups of two replicas.
use natscli.Prelude.{
  ℕ, true, false, List, [], ◌∷◌, ◌↔◌, ◌⊎◌, inl, inr, some, ◌≡◌, refl, Text, codes, str_eq, All,
}
use natscli.Checks.Replicas.{
  ClusterInfo, StreamState, skipped, nil_pointer, row, leaders_differ, find,
}
use natscli.Checks.Streams.{StreamDetail, in_sync, Row, check_replica}
use natscli.Checks.Streams.Agreement.{Agrees, Clustered, Led}
use natscli.Checks.Streams.Rows.{check_replica_iff, check_replica-skipped, check_replica-leaderless}

abbrev two_replicas : Text → ClusterInfo
two_replicas l = record { leader = l; group = codes "S-R3F"; replicas = codes "n2" ∷ [] }

abbrev holding : ℕ → ℕ → StreamState
holding m b = record { msgs = m; bytes = b; first_seq = 1; last_seq = 9 }

abbrev replica_in : Text → StreamState → StreamDetail
replica_in l s = record {
  server_id = codes "ID";
  stream_name = codes "ORDERS";
  account = codes "my account";
  account_id = codes "A";
  raft_group = codes "S-R3F";
  state = s;
  cluster = some (two_replicas l);
}

-- the two hold 9 and 8 messages in as many bytes
abbrev uneven : List (Text × StreamDetail)
uneven =
    (codes "n1", replica_in (codes "n1") (holding 9 100))
    ∷ (codes "n2", replica_in (codes "n1") (holding 8 100))
    ∷ []

abbrev no_leader : List (Text × StreamDetail)
no_leader =
    (codes "n1", replica_in [] (holding 9 100)) ∷ (codes "n2", replica_in [] (holding 9 100)) ∷ []

-- they pass for in sync, though they differ in their messages
uneven_in_sync :
    (r : Row) × (check_replica false (codes "n1") (replica_in (codes "n1") (holding 9 100)) uneven
      ≡ row r)
    × (r.status ≡ in_sync)
uneven_in_sync =
    let all : All (λ p. Clustered p.1) uneven =
      ((two_replicas (codes "n1"), refl), ((two_replicas (codes "n1"), refl), tt)) in
    let (r, is_row, iff) =
      check_replica_iff (codes "n1") (replica_in (codes "n1") (holding 9 100)) uneven
        (two_replicas (codes "n1")) refl all in
    (
      r,
      is_row,
      iff.1 (
        (
          (inl refl, refl, refl, unfold leaders_differ str_eq in refl),
          ((inr refl, refl, refl, unfold leaders_differ str_eq in refl), tt),
        ),
        inl (refl, unfold str_eq in refl),
      ),
    )

check_replica_iff_example :
    (r : Row) × (check_replica false (codes "n1") (replica_in (codes "n1") (holding 9 100)) uneven
      ≡ row r)
    × ((r.status ≡ in_sync) ↔ (
        All (λ p. Agrees (two_replicas (codes "n1")) (holding 9 100) p.1) uneven
        × Led (codes "n1") (codes "S-R3F") (two_replicas (codes "n1"))))
check_replica_iff_example =
    check_replica_iff (codes "n1") (replica_in (codes "n1") (holding 9 100)) uneven
      (two_replicas (codes "n1")) refl
      ((two_replicas (codes "n1"), refl), ((two_replicas (codes "n1"), refl), tt))

check_replica_skipped_run :
    (check_replica true (codes "n1") (replica_in (codes "n1") (holding 9 100)) uneven ≡ skipped)
    ↔ All (λ p. Agrees (two_replicas (codes "n1")) (holding 9 100) p.1) uneven
check_replica_skipped_run =
    check_replica-skipped (codes "n1") (replica_in (codes "n1") (holding 9 100)) uneven
      (two_replicas (codes "n1")) refl
      ((two_replicas (codes "n1"), refl), ((two_replicas (codes "n1"), refl), tt))

check_replica_leaderless_run :
    (check_replica true (codes "n1") (replica_in [] (holding 9 100)) no_leader ≡ skipped)
    ⊎ (check_replica true (codes "n1") (replica_in [] (holding 9 100)) no_leader ≡ nil_pointer)
check_replica_leaderless_run =
    check_replica-leaderless (codes "n1") (replica_in [] (holding 9 100)) no_leader
      (two_replicas []) refl refl (λ e. cc) (unfold find str_eq in refl)
