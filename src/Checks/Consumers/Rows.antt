-- ===== src/Checks/Consumers/Rows.antt =====
-- When the consumer check drops a replica, and when it meets a nil pointer.
use natscli.Prelude.{
  ℕ, zero, suc, ◌≤◌, Bool, true, ◌&&◌, List, [], ◌∷◌, ◌≢◌, ◌↔◌, inl, inr, Option, none, some, ◌≡◌,
  refl, sym, ap, ◌∙◌, Text, str_eq→eq, str_eq, Bool-cases, Option-cases, get_elem?, All,
  cons-ne-nil,
}
use natscli.Checks.Replicas.{ClusterInfo, skipped, nil_pointer, leaders_differ, find}
use natscli.Checks.Consumers.{
  ConsumerDetail, ConsumerStatus, Trouble, check_state, compare_clusters, note_leaders,
  compare_consumer, compare_consumers, no_trouble, intersects, add_row, against_leader,
  print_consumer, with_cluster, compared_consumer, check_consumer,
}
use natscli.Checks.Consumers.Synced.{Same, Clustered, compare_consumers_iff}

add_row-ne-skipped :
    (account node : Text) (status : ConsumerStatus) (against : Option ConsumerDetail)
    (stream_cluster : Option ClusterInfo)
    → add_row account node status against stream_cluster ≢ skipped
unfolding add_row
add_row-ne-skipped account node status against none = λ e. cc
add_row-ne-skipped account node status against (some c) = λ e. cc

print_consumer-ne-skipped :
    (server : Text) (r : ConsumerDetail) (peers : List (Text × ConsumerDetail))
    (status : ConsumerStatus) (cluster : ClusterInfo)
    → print_consumer true server r peers status cluster ≢ skipped
unfolding print_consumer against_leader
print_consumer-ne-skipped server r peers status cluster =
    elim (Bool-cases (str_eq server cluster.leader)) [
      | inl leads ↦ rw leads (add_row-ne-skipped _ _ _ _ r.stream_cluster)
      | inr follows ↦ rw follows (elim (Option-cases (find cluster.leader peers)) [
        | inl e ↦ rw e (λ k. cc)
        | inr (leader, e) ↦ rw e (add_row-ne-skipped _ _ _ _ r.stream_cluster)
      ])
    ]

with_cluster-skipped :
    (server : Text) (r : ConsumerDetail) (peers : List (Text × ConsumerDetail)) (ts : List Trouble)
    (cluster : ClusterInfo) (both : Bool)
    → (with_cluster true server r peers ts cluster (some both) ≡ skipped) ↔ (ts ≡ [])
unfolding with_cluster no_trouble
with_cluster-skipped server r peers [] cluster both = (λ e. refl, λ e. refl)
with_cluster-skipped server r peers (t ∷ ts) cluster both = (
  λ e. absurd (print_consumer-ne-skipped server r peers _ cluster e),
  λ e. absurd (cons-ne-nil t ts e),
)

-- Where every replica of a consumer and its stream has a cluster, the check with its filter drops a
-- replica exactly if nothing was delivered or acknowledged ahead of the stream and every replica has
-- the same sequences and no other leader.
pub check_consumer-skipped :
    (server : Text) (r : ConsumerDetail) (peers : List (Text × ConsumerDetail))
    (cluster stream_cluster : ClusterInfo)
    → r.cluster ≡ some cluster
    → r.stream_cluster ≡ some stream_cluster
    → All (λ p. Clustered p.1) peers
    → (check_consumer true server r peers ≡ skipped) ↔ (
        ((r.ack_floor_stream ≤ r.state.last_seq) × (r.delivered_stream ≤ r.state.last_seq))
        × All (λ p. Same cluster r p.1) peers)
unfolding check_consumer compared_consumer intersects
check_consumer-skipped server r peers cluster stream_cluster has streams h =
    let (after, compared, iff) = compare_consumers_iff r cluster peers has h in
    let skips =
      with_cluster-skipped server r peers after cluster
        (str_eq server cluster.leader && str_eq cluster.leader stream_cluster.leader) in
    let step =
      ap (λ x. compared_consumer true server r peers x r.cluster) compared
      ∙ ap (compared_consumer true server r peers (some after)) has
      ∙ ap (λ x. with_cluster true server r peers after cluster (intersects server cluster x))
          streams in
    (λ k. iff.0 (skips.0 (sym step ∙ k)), λ k. step ∙ skips.1 (iff.1 k))

none-stays :
    (r : ConsumerDetail) (peers : List (Text × ConsumerDetail))
    → compare_consumers r peers none ≡ none
unfolding compare_consumers compare_consumer
none-stays r [] = refl
none-stays r (p ∷ peers) = none-stays r peers

no_cluster_r-step :
    (r peer : ConsumerDetail) (c : ClusterInfo) (ts : List Trouble)
    → r.cluster ≡ none
    → peer.cluster ≡ some c
    → c.leader ≢ []
    → compare_consumer r peer (some ts) ≡ none
unfolding compare_consumer compare_clusters note_leaders leaders_differ
no_cluster_r-step r peer c ts e f leads = elim (Bool-cases (str_eq c.leader [])) [
  | inl no_leader ↦ absurd (leads (str_eq→eq c.leader [] no_leader))
  | inr some_leader ↦ rw (e, f, some_leader) refl
]

no_cluster_r-stops :
    (r peer : ConsumerDetail) (name : Text) (c : ClusterInfo) (peers : List (Text × ConsumerDetail))
    (i : ℕ) (ts : Option (List Trouble))
    → r.cluster ≡ none
    → peer.cluster ≡ some c
    → c.leader ≢ []
    → get_elem? peers i ≡ some (name, peer)
    → compare_consumers r peers ts ≡ none
unfolding compare_consumers
no_cluster_r-stops r peer name c peers i none e f leads at = none-stays r peers
no_cluster_r-stops r peer name c [] i (some ts) e f leads at = cc
no_cluster_r-stops r peer name c ((n, q) ∷ peers) zero (some ts) e f leads at =
    let same : ◌≡◌ {A = Text × ConsumerDetail} (n, q) (name, peer) = cc in
    ap (compare_consumers r peers)
      (no_cluster_r-step r q c ts e (ap (λ x. x.1.cluster) same ∙ f) leads)
    ∙ none-stays r peers
no_cluster_r-stops r peer name c (p ∷ peers) (suc i) (some ts) e f leads at =
    no_cluster_r-stops r peer name c peers i _ e f leads at

-- If a replica has no cluster and another one, anywhere in the group, names a leader, the check of that
-- replica meets a nil pointer, with the filter and without.
pub check_consumer-no_cluster :
    (filter_unsynced : Bool) (server : Text) (r peer : ConsumerDetail) (name : Text)
    (c : ClusterInfo) (peers : List (Text × ConsumerDetail)) (i : ℕ)
    → r.cluster ≡ none
    → peer.cluster ≡ some c
    → c.leader ≢ []
    → get_elem? peers i ≡ some (name, peer)
    → check_consumer filter_unsynced server r peers ≡ nil_pointer
unfolding check_consumer compared_consumer
check_consumer-no_cluster filter_unsynced server r peer name c peers i e f leads at =
    rw (no_cluster_r-stops r peer name c peers i (some (check_state r)) e f leads at) refl
