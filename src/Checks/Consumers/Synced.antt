-- ===== src/Checks/Consumers/Synced.antt =====
-- When a replica of a consumer is in trouble, and when the check meets a nil pointer.
use natscli.Prelude.{
  ℕ, ◌≤◌, Bool, true, false, not, ◌||◌, List, [], ◌∷◌, ◌↔◌, some, ◌≡◌, refl, ap, ◌∙◌, arith, Text,
  ltb, ◌==◌, All, cons-ne-nil,
}
use natscli.Checks.Replicas.{ClusterInfo, leaders_differ}
use natscli.Checks.Consumers.{
  ConsumerDetail, Trouble, delivered_ahead, ack_floor_ahead, delivered, ack_floor, multileader,
  note_if, check_state, compare_sequences, compare_clusters, note_leaders, compare_consumer,
  compare_consumers,
}

abbrev pub Same : ClusterInfo → ConsumerDetail → ConsumerDetail → Type 0
Same cluster r peer =
    ((peer.ack_floor_stream ≡ r.ack_floor_stream)
      × (peer.ack_floor_consumer ≡ r.ack_floor_consumer))
    × ((peer.delivered_stream ≡ r.delivered_stream)
        × (peer.delivered_consumer ≡ r.delivered_consumer))
    × (leaders_differ peer.cluster (some cluster) ≡ some false)

abbrev pub Clustered : ConsumerDetail → Type 0
Clustered peer = (c : ClusterInfo) × (peer.cluster ≡ some c)

note_if_iff :
    (b : Bool) (t : Trouble) (ts : List Trouble) → (note_if b t ts ≡ []) ↔ ((b ≡ false) × (ts ≡ []))
note_if_iff true t ts = (λ e. absurd (cons-ne-nil t ts e), λ e. cc)
note_if_iff false t ts = (λ e. (refl, e), λ e. e.1)

note_both :
    (a b : Bool) (t u : Trouble) (ts : List Trouble)
    → (note_if a t (note_if b u ts) ≡ []) ↔ ((a ≡ false) × (b ≡ false) × (ts ≡ []))
note_both a b t u ts =
    let outer = note_if_iff a t (note_if b u ts) in
    let inner = note_if_iff b u ts in
    (
      λ e. let last = inner.0 (outer.0 e).1 in ((outer.0 e).0, last.0, last.1),
      λ e. outer.1 (e.0, inner.1 (e.1, e.2)),
    )

ltb-false_iff : (a b : ℕ) → (ltb a b ≡ false) ↔ (b ≤ a)
ltb-false_iff a b = ground arith

differ_iff : (a b c d : ℕ) → ((not (a == b) || not (c == d)) ≡ false) ↔ ((a ≡ b) × (c ≡ d))
differ_iff a b c d = ground arith

state_iff :
    (r : ConsumerDetail)
    → (check_state r ≡ [])
      ↔ ((r.ack_floor_stream ≤ r.state.last_seq) × (r.delivered_stream ≤ r.state.last_seq))
unfolding check_state
state_iff r =
    let both =
      note_both (ltb r.state.last_seq r.ack_floor_stream) _ ack_floor_ahead delivered_ahead [] in
    let ack = ltb-false_iff r.state.last_seq r.ack_floor_stream in
    let sent = ltb-false_iff r.state.last_seq r.delivered_stream in
    (λ e. (ack.0 (both.0 e).0, sent.0 (both.0 e).1), λ e. both.1 (ack.1 e.0, sent.1 e.1, refl))

sequences_iff :
    (peer r : ConsumerDetail) (ts : List Trouble)
    → (compare_sequences peer r ts ≡ []) ↔ (
        ((peer.ack_floor_stream ≡ r.ack_floor_stream)
          × (peer.ack_floor_consumer ≡ r.ack_floor_consumer))
        × ((peer.delivered_stream ≡ r.delivered_stream)
            × (peer.delivered_consumer ≡ r.delivered_consumer))
        × (ts ≡ []))
unfolding compare_sequences
sequences_iff peer r ts =
    let ack =
      differ_iff peer.ack_floor_stream r.ack_floor_stream peer.ack_floor_consumer
        r.ack_floor_consumer in
    let sent =
      differ_iff peer.delivered_stream r.delivered_stream peer.delivered_consumer
        r.delivered_consumer in
    let both =
      note_both
        (not (peer.ack_floor_stream == r.ack_floor_stream)
          || not (peer.ack_floor_consumer == r.ack_floor_consumer))
        (not (peer.delivered_stream == r.delivered_stream)
          || not (peer.delivered_consumer == r.delivered_consumer))
        ack_floor delivered ts in
    (
      λ e. (ack.0 (both.0 e).0, sent.0 (both.0 e).1, (both.0 e).2),
      λ e. both.1 (ack.1 e.0, sent.1 e.1, e.2),
    )

module _ (r : ConsumerDetail) (cluster : ClusterInfo) (has : r.cluster ≡ some cluster) where
  leaders_known :
      (peer : ConsumerDetail) (ts : List Trouble)
      → Clustered peer
      → (d : Bool) × (leaders_differ peer.cluster (some cluster) ≡ some d)
        × (compare_clusters peer.cluster r.cluster ts ≡ some (note_if d multileader ts))
  unfolding leaders_differ compare_clusters note_leaders
  leaders_known peer ts (c, e) = rw (e, has) (_, refl, refl)

  peer_step :
      (peer : ConsumerDetail) (ts : List Trouble)
      → Clustered peer
      → (after : List Trouble) × (compare_consumer r peer (some ts) ≡ some after)
        × ((after ≡ []) ↔ ((ts ≡ []) × Same cluster r peer))
  unfolding compare_consumer
  peer_step peer ts h =
      let sequences = sequences_iff peer r ts in
      let (d, known, compared) = leaders_known peer (compare_sequences peer r ts) h in
      let noted = note_if_iff d multileader (compare_sequences peer r ts) in
      (
        note_if d multileader (compare_sequences peer r ts),
        compared,
        (
          λ e.
              let (agreed, alike) = noted.0 e in
              let (ack, sent, before) = sequences.0 alike in
              (before, (ack, sent, known ∙ ap some agreed)),
          λ e.
              let same = e.1 in
              let agreed : d ≡ false = cc in noted.1 (agreed, sequences.1 (same.0, same.1, e.0)),
        ),
      )

  pub peers_lem :
      (peers : List (Text × ConsumerDetail)) (ts : List Trouble)
      → All (λ p. Clustered p.1) peers
      → (after : List Trouble) × (compare_consumers r peers (some ts) ≡ some after)
        × ((after ≡ []) ↔ ((ts ≡ []) × All (λ p. Same cluster r p.1) peers))
  unfolding compare_consumers
  peers_lem [] ts h = (ts, refl, (λ e. (e, tt), λ e. e.0))
  peers_lem ((name, peer) ∷ peers) ts (h, hs) =
      let (one, step, one_iff) = peer_step peer ts h in
      let (after, steps, all_iff) = peers_lem peers one hs in
      (
        after,
        ap (compare_consumers r peers) step ∙ steps,
        (
          λ e. let later = all_iff.0 e in let now = one_iff.0 later.0 in (now.0, (now.1, later.1)),
          λ e. all_iff.1 (one_iff.1 (e.0, e.1.0), e.1.1),
        ),
      )

-- Where every replica of a consumer has a cluster, comparing it meets no nil pointer, and finds no
-- trouble exactly if nothing was delivered or acknowledged ahead of the stream and every replica has
-- its delivered and acknowledged sequences and no other leader.
pub compare_consumers_iff :
    (r : ConsumerDetail) (cluster : ClusterInfo) (peers : List (Text × ConsumerDetail))
    → r.cluster ≡ some cluster
    → All (λ p. Clustered p.1) peers
    → (after : List Trouble) × (compare_consumers r peers (some (check_state r)) ≡ some after)
      × ((after ≡ []) ↔ (
          ((r.ack_floor_stream ≤ r.state.last_seq) × (r.delivered_stream ≤ r.state.last_seq))
          × All (λ p. Same cluster r p.1) peers))
compare_consumers_iff r cluster peers has h =
    let (after, compared, iff) = peers_lem r cluster has peers (check_state r) h in
    let own = state_iff r in
    (after, compared, (λ e. (own.0 (iff.0 e).0, (iff.0 e).1), λ e. iff.1 (own.1 e.0, e.1)))
