-- ===== src/Checks/Replicas.antt =====
-- What the two checks share: the server library's reports, as far as the checks read them, and the maps
-- from a group's key to its replicas by the name of the server.
use natscli.Prelude.{
  ℕ, min, Bool, false, not, ◌&&◌, List, [], ◌∷◌, ◌++◌, map, Option, none, some, Text, str_eq, split,
  ◌==◌, if◌then◌else◌, length, take,
}

-- server.ClusterInfo: of each replica the name
pub record ClusterInfo : Type 0 where
  pub leader : Text
  pub group : Text
  pub replicas : List Text

-- server.StreamState
pub record StreamState : Type 0 where
  pub msgs : ℕ
  pub bytes : ℕ
  pub first_seq : ℕ
  pub last_seq : ℕ

-- How a check of one replica ends: no row, a run-time panic on a nil pointer, or a row.
pub data Outcome {ℓ} (R : Type ℓ) : Type ℓ where
  skipped nil_pointer : Outcome R
  row : R → Outcome R

-- `peer.Cluster.Leader != "" && replica.Cluster.Leader != "" && peer.Cluster.Leader != replica.Cluster.Leader`,
-- which is evaluated from left to right and may meet a nil pointer
unfoldable pub leaders_differ : Option ClusterInfo → Option ClusterInfo → Option Bool
leaders_differ none replica = none
leaders_differ (some peer) none = if str_eq peer.leader [] then some false else none
leaders_differ (some peer) (some replica) = some (
    not (str_eq peer.leader [])
    && (not (str_eq replica.leader []) && not (str_eq peer.leader replica.leader)))

-- `strings.Replace(replica.Account[:alen], " ", "_", -1)`
unfoldable pub short_account : Text → Text
short_account account =
    map (λ c. if c == b' ' then b'_' else c) (take (min 10 (length account)) account)

module _ {ℓ} {A : Type ℓ} where
  -- assigning to an entry of a map
  unfoldable pub put : Text → A → List (Text × A) → List (Text × A)
  put k a [] = (k, a) ∷ []
  put k a ((j, b) ∷ entries) =
      let rest = put k a entries in if str_eq k j then (k, a) ∷ entries else (j, b) ∷ rest

  unfoldable pub find : Text → List (Text × A) → Option A
  find k [] = none
  find k ((j, b) ∷ entries) = let rest = find k entries in if str_eq k j then some b else rest

  known : Option (List (Text × A)) → List (Text × A)
  known none = []
  known (some m) = m

-- `if m, ok = streams[key]; !ok { m = make(…); streams[key] = m }` and then `m[server] = detail`
unfoldable pub put_in {ℓ} :
    {A : Type ℓ} → Text → Text → A → List (Text × List (Text × A)) → List (Text × List (Text × A))
unfolding known
put_in key server a groups = put key (put server a (known (find key groups))) groups

-- `fmt.Sprintf("%s|%s", acc.Name, raftGroup)`, and with `/server` behind it
unfoldable pub group_key : Text → Text → Text
group_key account group = account ++ b'|' ∷ group

unfoldable pub replica_key : Text → Text → Text
replica_key key server = key ++ b'/' ∷ server

-- the parts of a replica's key: account, group and server
first_two : List Text → Option (Text × Text)
first_two (a ∷ b ∷ more) = some (a, b)
first_two few = none

key_rest : Option (Text × Text) → Option (Text × Text × Text)
unfolding first_two
key_rest none = none
key_rest (some (account, rest)) = with_account (first_two (split rest b'/'))
  where
    with_account : Option (Text × Text) → Option (Text × Text × Text)
    with_account none = none
    with_account (some (group, server)) = some (account, group, server)

unfoldable pub parse_key : Text → Option (Text × Text × Text)
unfolding first_two key_rest
parse_key key = key_rest (first_two (split key b'|'))
