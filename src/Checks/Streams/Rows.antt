-- ===== src/Checks/Streams/Rows.antt =====
-- When the stream check prints a replica, and as what.
use natscli.Prelude.{
  true, false, List, [], ◌≢◌, ◌↔◌, ◌⊎◌, inl, inr, Option, none, some, ◌≡◌, refl, sym, ap, ◌∙◌, Text,
  str_eq→eq, str_eq, Bool-cases, Option-cases, All,
}
use natscli.Checks.Replicas.{ClusterInfo, Outcome, skipped, nil_pointer, row, find}
use natscli.Checks.Streams.{
  StreamDetail, in_sync, Flags, Row, own_status, row_of, against_leader, print_row, filtered,
  compare_peers, check_replica,
}
use natscli.Checks.Streams.Agreement.{Agrees, Clustered, Led, peers_lem, own_iff, true-ne-false}

-- without the filter, a replica with a cluster is printed with its own status
printed :
    (server : Text) (replica : StreamDetail) (stream : List (Text × StreamDetail))
    (cluster : ClusterInfo) (flags : Flags)
    → (r : Row) × (print_row false server replica stream (some cluster) flags ≡ row r)
      × (r.status ≡ (own_status server replica.raft_group cluster flags).0)
unfolding print_row row_of
printed server replica stream cluster flags = elim (Bool-cases (str_eq server cluster.leader)) [
  | inl leads ↦ rw leads (_, refl, refl)
  | inr follows ↦ rw follows (_, refl, refl)
]

row-ne-skipped : (r : Row) → ◌≢◌ {A = Outcome Row} (row r) skipped
row-ne-skipped r e = cc

print_row-ne-skipped :
    (server : Text) (replica : StreamDetail) (stream : List (Text × StreamDetail))
    (cluster : Option ClusterInfo) (flags : Flags)
    → print_row true server replica stream cluster flags ≢ skipped
unfolding print_row against_leader
print_row-ne-skipped server replica stream none flags = λ e. cc
print_row-ne-skipped server replica stream (some cluster) flags =
    elim (Bool-cases (str_eq server cluster.leader)) [
      | inl leads ↦ rw leads (λ e. cc)
      | inr follows ↦ rw follows (elim (Option-cases (find cluster.leader stream)) [
        | inl e ↦ rw e (λ k. cc)
        | inr (leader, e) ↦ rw e (λ k. cc)
      ])
    ]

-- Where every replica of a stream has a cluster, the check without its filter prints each, and prints
-- it as in sync exactly if every replica has its number of messages or its number of bytes, its first
-- and its last sequence and no other leader, and it itself either leads and is none of its leader's
-- replicas, or follows a leader in a group that has a name.
pub check_replica_iff :
    (server : Text) (replica : StreamDetail) (stream : List (Text × StreamDetail))
    (cluster : ClusterInfo)
    → replica.cluster ≡ some cluster
    → All (λ p. Clustered p.1) stream
    → (r : Row) × (check_replica false server replica stream ≡ row r)
      × ((r.status ≡ in_sync) ↔ (
          All (λ p. Agrees cluster replica.state p.1) stream
          × Led server replica.raft_group cluster))
unfolding check_replica filtered
check_replica_iff server replica stream cluster has h =
    let (flags, compared, marked, agreed) =
      peers_lem replica cluster has stream (in_sync, false) h in
    let both = marked (λ e. refl, λ e. refl) in
    let (r, is_row, same) = printed server replica stream cluster flags in
    let own = own_iff server replica.raft_group cluster flags in
    rw (compared, has)
      (
        r,
        is_row,
        rw same (
          λ e. ((agreed.0 (both.1 (own.0 e).0)).1, (own.0 e).1),
          λ e. own.1 (both.0 (agreed.1 (refl, e.0)), e.1),
        ),
      )

-- Where every replica of a stream has a cluster, the filter drops a replica exactly if the others agree
-- with it, whatever it says of its leader: one that has no leader, but agrees, is dropped.
pub check_replica-skipped :
    (server : Text) (replica : StreamDetail) (stream : List (Text × StreamDetail))
    (cluster : ClusterInfo)
    → replica.cluster ≡ some cluster
    → All (λ p. Clustered p.1) stream
    → (check_replica true server replica stream ≡ skipped)
      ↔ All (λ p. Agrees cluster replica.state p.1) stream
unfolding check_replica filtered
check_replica-skipped server replica stream cluster has h =
    let (flags, compared, marked, agreed) =
      peers_lem replica cluster has stream (in_sync, false) h in
    rw compared (elim (Bool-cases (flags.1)) [
      | inl e ↦ rw e (
        λ k. absurd (print_row-ne-skipped server replica stream replica.cluster flags k),
        λ k. absurd (true-ne-false (sym e ∙ agreed.1 (refl, k))),
      )
      | inr e ↦ rw e (λ k. (agreed.0 e).1, λ k. refl)
    ])

leaderless_row :
    (server : Text) (replica : StreamDetail) (stream : List (Text × StreamDetail))
    (cluster : ClusterInfo) (flags : Flags)
    → cluster.leader ≡ []
    → server ≢ []
    → find [] stream ≡ none
    → print_row true server replica stream (some cluster) flags ≡ nil_pointer
unfolding print_row against_leader
leaderless_row server replica stream cluster flags leaderless named absent =
    elim (Bool-cases (str_eq server cluster.leader)) [
      | inl leads ↦ absurd (named (str_eq→eq server cluster.leader leads ∙ leaderless))
      | inr follows ↦ rw (follows, leaderless, absent) refl
    ]

filter_marked :
    (server : Text) (replica : StreamDetail) (stream : List (Text × StreamDetail)) (flags : Flags)
    → flags.1 ≡ true
    → filtered true server replica stream (some flags)
      ≡ print_row true server replica stream replica.cluster flags
unfolding filtered
filter_marked server replica stream (status, true) e = refl
filter_marked server replica stream (status, false) e = absurd (true-ne-false (sym e))

-- A replica without a leader, on a server with a name, is never printed by the check with its filter,
-- if no server's name is empty: it is dropped, or the check reads a leader that is not there.
pub check_replica-leaderless :
    (server : Text) (replica : StreamDetail) (stream : List (Text × StreamDetail))
    (cluster : ClusterInfo)
    → replica.cluster ≡ some cluster
    → cluster.leader ≡ []
    → server ≢ []
    → find [] stream ≡ none
    → (check_replica true server replica stream ≡ skipped)
      ⊎ (check_replica true server replica stream ≡ nil_pointer)
unfolding check_replica filtered
check_replica-leaderless server replica stream cluster has leaderless named absent =
    elim (Option-cases (compare_peers replica stream (some (in_sync, false)))) [
      | inl e ↦ rw e (inr refl)
      | inr (flags, e) ↦ rw e (elim (Bool-cases (flags.1)) [
        | inl marked ↦ inr (
            filter_marked server replica stream flags marked
            ∙ ap (λ c. print_row true server replica stream c flags) has
            ∙ leaderless_row server replica stream cluster flags leaderless named absent)
        | inr unmarked ↦ rw unmarked (inl refl)
      ])
    ]
