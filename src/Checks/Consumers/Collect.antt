-- ===== src/Checks/Consumers/Collect.antt =====
-- cli/server_consumer_check.go, the collection of the servers' reports: the replicas of each consumer by
-- its group and its server. The map of streams, which is built along the way and read by nothing, is
-- left out.
use natscli.Prelude.{ℕ, List, [], ◌∷◌, Option, none, some, Text}
use natscli.Checks.Replicas.{ClusterInfo, StreamState, put_in, find, group_key}
use natscli.Checks.Streams.{group_of}
use natscli.Checks.Consumers.{ConsumerDetail}

-- What a server reports of a consumer, and of the stream it belongs to.
pub record ConsumerReport : Type 0 where
  pub name : Text
  pub stream : Text
  pub cluster : Option ClusterInfo
  pub delivered_stream : ℕ
  pub delivered_consumer : ℕ
  pub ack_floor_stream : ℕ
  pub ack_floor_consumer : ℕ

pub record StreamConsumers : Type 0 where
  pub state : StreamState
  pub cluster : Option ClusterInfo
  pub consumers : List ConsumerReport
  pub raft_groups : List (Text × Text)

pub record AccountConsumers : Type 0 where
  pub name : Text
  pub id : Text
  pub streams : List StreamConsumers

pub record ServerConsumers : Type 0 where
  pub name : Text
  pub id : Text
  pub accounts : List AccountConsumers

abbrev pub Groups : Type 0
Groups = List (Text × List (Text × ConsumerDetail))

-- the group that the stream lists for the consumer, if any
listed_group : Option Text → Text
listed_group none = []
listed_group (some group) = group

consumer_detail :
    ServerConsumers → AccountConsumers → StreamConsumers → ConsumerReport → Text → ConsumerDetail
consumer_detail server acc stream consumer group = record {
  server_id = server.id;
  stream_name = consumer.stream;
  consumer_name = consumer.name;
  account = acc.name;
  account_id = acc.id;
  raft_group = group;
  state = stream.state;
  cluster = consumer.cluster;
  stream_cluster = stream.cluster;
  delivered_stream = consumer.delivered_stream;
  delivered_consumer = consumer.delivered_consumer;
  ack_floor_stream = consumer.ack_floor_stream;
  ack_floor_consumer = consumer.ack_floor_consumer;
}

collect_consumers :
    ServerConsumers → AccountConsumers → StreamConsumers → List ConsumerReport → Groups → Groups
unfolding listed_group consumer_detail
collect_consumers server acc stream [] groups = groups
collect_consumers server acc stream (consumer ∷ consumers) groups =
    let group = group_of (listed_group (find consumer.name stream.raft_groups)) consumer.cluster in
    collect_consumers server acc stream consumers (
      put_in (group_key acc.name group) server.name
        (consumer_detail server acc stream consumer group) groups)

collect_streams : ServerConsumers → AccountConsumers → List StreamConsumers → Groups → Groups
unfolding collect_consumers
collect_streams server acc [] groups = groups
collect_streams server acc (stream ∷ streams) groups =
    collect_streams server acc streams (collect_consumers server acc stream stream.consumers groups)

collect_accounts : ServerConsumers → List AccountConsumers → Groups → Groups
unfolding collect_streams
collect_accounts server [] groups = groups
collect_accounts server (acc ∷ accounts) groups =
    collect_accounts server accounts (collect_streams server acc acc.streams groups)

-- a response with no server or no data is none
unfoldable pub collect_responses : List (Option ServerConsumers) → Groups → Groups
unfolding collect_accounts
collect_responses [] groups = groups
collect_responses (none ∷ responses) groups = collect_responses responses groups
collect_responses (some server ∷ responses) groups =
    collect_responses responses (collect_accounts server server.accounts groups)
