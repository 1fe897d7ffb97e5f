-- ===== src/Checks/Consumers.antt =====
-- cli/server_consumer_check.go: the replicas of each consumer, as the servers report them, compared.
-- Consumers.Collect groups the reports. A replica's statuses are the list of those that were set: what is printed of them comes in the order
-- of a Go map, which is none.
pub mod Collect
pub mod Synced
pub mod Rows
mod Examples
use natscli.Prelude.{
  ℕ, ◌+◌, ◌-◌, ◌*◌, Bool, true, false, not, ◌&&◌, ◌||◌, List, [], ◌∷◌, ◌++◌, filter, Option, none,
  some, Text, str_eq, ltb, ◌==◌, if◌then◌else◌,
}
use natscli.Checks.Replicas.{
  ClusterInfo, StreamState, Outcome, skipped, nil_pointer, row, leaders_differ, short_account, find,
}

pub record ConsumerDetail : Type 0 where
  pub server_id : Text
  pub stream_name : Text
  pub consumer_name : Text
  pub account : Text
  pub account_id : Text
  pub raft_group : Text
  pub state : StreamState
  pub cluster : Option ClusterInfo
  pub stream_cluster : Option ClusterInfo
  pub delivered_stream : ℕ
  pub delivered_consumer : ℕ
  pub ack_floor_stream : ℕ
  pub ack_floor_consumer : ℕ

pub data Trouble : Type 0 where
  delivered_ahead ack_floor_ahead delivered ack_floor no_cluster no_cluster_r multileader : Trouble

-- The statuses of trouble; each sets `unsynced` as well. `EMPTY`, which does not, is a test of its own.
abbrev pub note_if : Bool → Trouble → List Trouble → List Trouble
note_if true t ts = t ∷ ts
note_if false t ts = ts

-- what the replica shows by itself
unfoldable pub check_state : ConsumerDetail → List Trouble
check_state r =
    note_if (ltb r.state.last_seq r.ack_floor_stream) ack_floor_ahead
      (note_if (ltb r.state.last_seq r.delivered_stream) delivered_ahead [])

pub compare_sequences : ConsumerDetail → ConsumerDetail → List Trouble → List Trouble
compare_sequences peer r ts =
    note_if
      (not (peer.ack_floor_stream == r.ack_floor_stream)
        || not (peer.ack_floor_consumer == r.ack_floor_consumer))
      ack_floor
      (note_if
        (not (peer.delivered_stream == r.delivered_stream)
          || not (peer.delivered_consumer == r.delivered_consumer))
        delivered ts)

-- `none` is a nil pointer: the leader of a replica without a cluster is read
note_leaders : Option Bool → List Trouble → Option (List Trouble)
note_leaders none ts = none
note_leaders (some differ) ts = some (note_if differ multileader ts)

compare_clusters : Option ClusterInfo → Option ClusterInfo → List Trouble → Option (List Trouble)
unfolding note_leaders
compare_clusters none r ts = some (no_cluster ∷ ts)
compare_clusters (some p) none ts = note_leaders (leaders_differ (some p) none) (no_cluster_r ∷ ts)
compare_clusters (some p) (some r) ts = note_leaders (leaders_differ (some p) (some r)) ts

pub compare_consumer :
    ConsumerDetail → ConsumerDetail → Option (List Trouble) → Option (List Trouble)
unfolding compare_sequences compare_clusters
compare_consumer r peer none = none
compare_consumer r peer (some ts) =
    compare_clusters peer.cluster r.cluster (compare_sequences peer r ts)

unfoldable pub compare_consumers :
    ConsumerDetail → List (Text × ConsumerDetail) → Option (List Trouble) → Option (List Trouble)
compare_consumers r [] ts = ts
compare_consumers r ((name, peer) ∷ peers) ts =
    compare_consumers r peers (compare_consumer r peer ts)

-- `EMPTY`
unfoldable pub is_empty : ConsumerDetail → Bool
is_empty r =
    (r.ack_floor_stream == 0 || r.ack_floor_consumer == 0)
    || (r.delivered_consumer == 0 || r.delivered_stream == 0)

-- The printed status: the troubles with whether the consumer is empty, `IN SYNC` being no trouble and
-- not empty; or one of the replica's own, which take its place.
pub data ConsumerStatus : Type 0 where
  found : List Trouble → Bool → Bool → ConsumerStatus  -- with whether the leaders intersect
  without_cluster leaderless missing_group : ConsumerStatus

pub record ConsumerRow : Type 0 where
  pub account : Text
  pub node : Text
  pub status : ConsumerStatus
  pub against : Option ConsumerDetail  -- with the filter, the leader that a follower is printed against
  pub stream_leader : Text

-- `serverName == replica.Cluster.Leader && replica.Cluster.Leader == replica.StreamCluster.Leader`
intersects : Text → ClusterInfo → Option ClusterInfo → Option Bool
intersects server cluster none = if str_eq server cluster.leader then none else some false
intersects server cluster (some stream_cluster) =
    some (str_eq server cluster.leader && str_eq cluster.leader stream_cluster.leader)

-- what the replica itself says of its leader, in place of what was found
final_status : Text → Text → ClusterInfo → ConsumerStatus → ConsumerStatus
final_status server raft_group cluster status =
    if str_eq server cluster.leader
    then status
    else (if str_eq cluster.leader []
        then leaderless
        else (if str_eq raft_group [] then missing_group else status))

-- `AddRow` reads the stream's leader
add_row :
    Text → Text → ConsumerStatus → Option ConsumerDetail → Option ClusterInfo → Outcome ConsumerRow
add_row account node status against none = nil_pointer
add_row account node status against (some stream_cluster) = row (record {
  account = account;
  node = node;
  status = status;
  against = against;
  stream_leader = stream_cluster.leader;
})

against_leader :
    ConsumerDetail → Text → ConsumerStatus → Option ConsumerDetail → Outcome ConsumerRow
unfolding add_row
against_leader r server status none = nil_pointer
against_leader r server status (some leader) =
    add_row (short_account r.account) server status (some leader) r.stream_cluster

no_trouble : List Trouble → Bool
no_trouble [] = true
no_trouble (t ∷ ts) = false

-- the row, behind the filter
print_consumer :
    Bool
    → Text
    → ConsumerDetail
    → List (Text × ConsumerDetail)
    → ConsumerStatus
    → ClusterInfo
    → Outcome ConsumerRow
unfolding add_row against_leader
print_consumer filter_unsynced server r peers status cluster =
    let account = short_account r.account in
    if str_eq server cluster.leader
    then add_row account (server ++ b'*' ∷ []) status none r.stream_cluster
    else (if filter_unsynced
        then against_leader r server status (find cluster.leader peers)
        else add_row account server status none r.stream_cluster)

with_cluster :
    Bool
    → Text
    → ConsumerDetail
    → List (Text × ConsumerDetail)
    → List Trouble
    → ClusterInfo
    → Option Bool
    → Outcome ConsumerRow
unfolding print_consumer final_status no_trouble
with_cluster filter_unsynced server r peers ts cluster none = nil_pointer
with_cluster filter_unsynced server r peers ts cluster (some both) =
    if filter_unsynced && no_trouble ts
    then skipped
    else print_consumer filter_unsynced server r peers
        (final_status server r.raft_group cluster (found ts (is_empty r) both)) cluster

-- without a cluster there is no leader to print against
without : Bool → Text → ConsumerDetail → List Trouble → Outcome ConsumerRow
unfolding add_row no_trouble
without filter_unsynced server r ts =
    if filter_unsynced
    then (if no_trouble ts then skipped else nil_pointer)
    else add_row (short_account r.account) server without_cluster none r.stream_cluster

compared_consumer :
    Bool
    → Text
    → ConsumerDetail
    → List (Text × ConsumerDetail)
    → Option (List Trouble)
    → Option ClusterInfo
    → Outcome ConsumerRow
unfolding with_cluster without intersects
compared_consumer filter_unsynced server r peers none cluster = nil_pointer
compared_consumer filter_unsynced server r peers (some ts) none =
    without filter_unsynced server r ts
compared_consumer filter_unsynced server r peers (some ts) (some cluster) =
    with_cluster filter_unsynced server r peers ts cluster
      (intersects server cluster r.stream_cluster)

-- One round of the loop over the replicas, behind the filters by name.
unfoldable pub check_consumer :
    Bool → Text → ConsumerDetail → List (Text × ConsumerDetail) → Outcome ConsumerRow
unfolding compared_consumer
check_consumer filter_unsynced server r peers =
    compared_consumer filter_unsynced server r peers
      (compare_consumers r peers (some (check_state r))) r.cluster
