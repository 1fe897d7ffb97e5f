-- ===== src/Checks/Streams.antt =====
-- cli/server_stream_check.go: the replicas of each stream, as the servers report them, compared.
pub mod Agreement
pub mod Rows
mod Examples
use natscli.Prelude.{
  ◌+◌, ◌*◌, Bool, true, false, not, ◌&&◌, List, [], ◌∷◌, ◌++◌, Option, none, some, Text, str_eq,
  ◌==◌, if◌then◌else◌, any,
}
use natscli.Checks.Replicas.{
  ClusterInfo, StreamState, Outcome, skipped, nil_pointer, row, leaders_differ, short_account,
  put_in, find, group_key,
}

pub record StreamDetail : Type 0 where
  pub server_id : Text
  pub stream_name : Text
  pub account : Text
  pub account_id : Text
  pub raft_group : Text
  pub state : StreamState
  pub cluster : Option ClusterInfo

-- What a server reports of a stream, of an account, and of itself.
pub record StreamReport : Type 0 where
  pub name : Text
  pub group : Text
  pub state : StreamState
  pub cluster : Option ClusterInfo

pub record AccountReport : Type 0 where
  pub name : Text
  pub id : Text
  pub streams : List StreamReport

pub record ServerReport : Type 0 where
  pub name : Text
  pub id : Text
  pub accounts : List AccountReport

abbrev pub Groups : Type 0
Groups = List (Text × List (Text × StreamDetail))

-- `if stream.RaftGroup == "" && stream.Cluster != nil { stream.RaftGroup = stream.Cluster.RaftGroup }`
unfoldable pub group_of : Text → Option ClusterInfo → Text
group_of group none = group
group_of group (some cluster) = if str_eq group [] then cluster.group else group

collect_streams : ServerReport → AccountReport → List StreamReport → Groups → Groups
collect_streams server acc [] groups = groups
collect_streams server acc (stream ∷ streams) groups =
    let group = group_of stream.group stream.cluster in
    let detail : StreamDetail = record {
      server_id = server.id;
      stream_name = stream.name;
      account = acc.name;
      account_id = acc.id;
      raft_group = group;
      state = stream.state;
      cluster = stream.cluster;
    } in
    collect_streams server acc streams (put_in (group_key acc.name group) server.name detail groups)

collect_accounts : ServerReport → List AccountReport → Groups → Groups
collect_accounts server [] groups = groups
collect_accounts server (acc ∷ accounts) groups =
    collect_accounts server accounts (collect_streams server acc acc.streams groups)

-- a response with no server or no data is none
unfoldable pub collect : List (Option ServerReport) → Groups → Groups
unfolding collect_streams collect_accounts
collect [] groups = groups
collect (none ∷ responses) groups = collect responses groups
collect (some server ∷ responses) groups =
    collect responses (collect_accounts server server.accounts groups)

pub data Status : Type 0 where
  in_sync unsynced multileader leaderless missing_group leader_is_follower : Status

-- The local variables `status` and `unsynced`.
abbrev pub Flags : Type 0
Flags = Status × Bool

abbrev pub mark : Bool → Status → Flags → Flags
mark true status flags = (status, true)
mark false status flags = flags

pub compare_states : StreamState → StreamState → Flags → Flags
compare_states peer replica flags = mark (not (peer.last_seq == replica.last_seq)) unsynced (
    mark (not (peer.first_seq == replica.first_seq)) unsynced
      (mark (not (peer.msgs == replica.msgs) && not (peer.bytes == replica.bytes)) unsynced flags))

mark_leaders : Option Bool → Flags → Option Flags
mark_leaders none flags = none
mark_leaders (some differ) flags = some (mark differ multileader flags)

pub compare_peer : StreamDetail → StreamDetail → Option Flags → Option Flags
unfolding compare_states mark_leaders
compare_peer replica peer none = none
compare_peer replica peer (some flags) =
    mark_leaders (leaders_differ peer.cluster replica.cluster)
      (compare_states peer.state replica.state flags)

-- The loop over the peers of a replica, which is one of them.
unfoldable pub compare_peers :
    StreamDetail → List (Text × StreamDetail) → Option Flags → Option Flags
compare_peers replica [] flags = flags
compare_peers replica ((name, peer) ∷ peers) flags =
    compare_peers replica peers (compare_peer replica peer flags)

-- What the replica itself says of its leader.
unfoldable pub own_status : Text → Text → ClusterInfo → Flags → Flags
own_status server raft_group cluster flags =
    if str_eq server cluster.leader
    then mark (any (str_eq cluster.leader) cluster.replicas) leader_is_follower flags
    else (if str_eq cluster.leader []
        then (leaderless, true)
        else (if str_eq raft_group [] then (missing_group, true) else flags))

-- A row: with the filter, a replica that does not lead is printed against the leader's state.
pub record Row : Type 0 where
  pub account : Text
  pub node : Text
  pub status : Status
  pub against : Option StreamState

row_of : Text → StreamDetail → Flags → Option StreamState → Text → Row
row_of server replica flags against suffix = record {
  account = short_account replica.account;
  node = server ++ suffix;
  status = flags.0;
  against = against;
}

against_leader : Text → StreamDetail → Flags → Option StreamDetail → Outcome Row
unfolding row_of
against_leader server replica flags none = nil_pointer
against_leader server replica flags (some leader) =
    row (row_of server replica flags (some leader.state) [])

print_row :
    Bool
    → Text
    → StreamDetail
    → List (Text × StreamDetail)
    → Option ClusterInfo
    → Flags
    → Outcome Row
unfolding against_leader row_of
print_row filter_unsynced server replica stream none flags = nil_pointer
print_row filter_unsynced server replica stream (some cluster) flags =
    let after = own_status server replica.raft_group cluster flags in
    if str_eq server cluster.leader
    then row (row_of server replica after none (b'*' ∷ []))
    else (if filter_unsynced
        then against_leader server replica after (find cluster.leader stream)
        else row (row_of server replica after none []))

filtered : Bool → Text → StreamDetail → List (Text × StreamDetail) → Option Flags → Outcome Row
unfolding print_row
filtered filter_unsynced server replica stream none = nil_pointer
filtered filter_unsynced server replica stream (some flags) =
    if filter_unsynced && not (flags.1)
    then skipped
    else print_row filter_unsynced server replica stream replica.cluster flags

-- One round of the loop over the replicas, behind the filters by name. The last test, for a nil
-- replica, comes after the replica was read, so a replica is given here.
unfoldable pub check_replica : Bool → Text → StreamDetail → List (Text × StreamDetail) → Outcome Row
unfolding filtered
check_replica filter_unsynced server replica stream =
    filtered filter_unsynced server replica stream
      (compare_peers replica stream (some (in_sync, false)))
