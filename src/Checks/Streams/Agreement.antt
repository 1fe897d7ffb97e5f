-- ===== src/Checks/Streams/Agreement.antt =====
-- What the status of a replica says of its peers.
use natscli.Prelude.{
  Bool, true, false, not, ◌&&◌, ◌||◌, List, [], ◌∷◌, ◌≢◌, ◌↔◌, ◌⊎◌, inl, inr, some, ◌≡◌, refl, sym,
  ap, ◌∙◌, arith, Text, str_eq→eq, str_eq_iff, str_eq, ◌==◌, Bool-cases, any, All, ||-neither,
}
use natscli.Checks.Replicas.{ClusterInfo, StreamState, leaders_differ}
use natscli.Checks.Streams.{
  StreamDetail, Status, in_sync, unsynced, multileader, leader_is_follower, Flags, mark,
  compare_states, compare_peer, compare_peers, own_status,
}

-- What the check compares of two replicas: either the messages or the bytes, the first and the last
-- sequence, and the leaders that they name.
abbrev pub Agrees : ClusterInfo → StreamState → StreamDetail → Type 0
Agrees cluster state peer =
    ((peer.state.msgs ≡ state.msgs) ⊎ (peer.state.bytes ≡ state.bytes))
    × (peer.state.first_seq ≡ state.first_seq)
    × (peer.state.last_seq ≡ state.last_seq)
    × (leaders_differ peer.cluster (some cluster) ≡ some false)

abbrev pub Clustered : StreamDetail → Type 0
Clustered peer = (c : ClusterInfo) × (peer.cluster ≡ some c)

-- The flags mean the same: a replica is in sync or is marked.
abbrev pub Marked : Flags → Type 0
Marked flags = (flags.1 ≡ false) ↔ (flags.0 ≡ in_sync)

mark-flag : (b : Bool) (s : Status) (flags : Flags) → (mark b s flags).1 ≡ (b || flags.1)
mark-flag true s flags = refl
mark-flag false s flags = refl

mark-Marked :
    (b : Bool) (s : Status) (flags : Flags) → s ≢ in_sync → Marked flags → Marked (mark b s flags)
mark-Marked true s flags ne h = (λ e. cc, λ e. absurd (ne e))
mark-Marked false s flags ne h = h

states_iff :
    (peer replica : StreamState) (flags : Flags)
    → ((compare_states peer replica flags).1 ≡ false) ↔ (
        (flags.1 ≡ false)
        × ((peer.msgs ≡ replica.msgs) ⊎ (peer.bytes ≡ replica.bytes))
        × (peer.first_seq ≡ replica.first_seq)
        × (peer.last_seq ≡ replica.last_seq))
unfolding compare_states
states_iff peer replica flags =
    rw (mark-flag _ _ _, mark-flag _ _ _, mark-flag _ _ _) (ground arith)

states-Marked :
    (peer replica : StreamState) (flags : Flags)
    → Marked flags
    → Marked (compare_states peer replica flags)
unfolding compare_states
states-Marked peer replica flags h =
    let msgs_differ = not (peer.msgs == replica.msgs) && not (peer.bytes == replica.bytes) in
    let first_differs = not (peer.first_seq == replica.first_seq) in
    let ne : unsynced ≢ in_sync = λ e. cc in
    mark-Marked (not (peer.last_seq == replica.last_seq)) unsynced _ ne
      (mark-Marked first_differs unsynced _ ne (mark-Marked msgs_differ unsynced flags ne h))

module _ (replica : StreamDetail) (cluster : ClusterInfo)
    (has : replica.cluster ≡ some cluster) where
  leaders_known :
      (peer : StreamDetail)
      → Clustered peer
      → (d : Bool) × (leaders_differ peer.cluster replica.cluster ≡ some d)
        × (leaders_differ peer.cluster (some cluster) ≡ some d)
  unfolding leaders_differ
  leaders_known peer (c, e) = rw (e, has) (_, refl, refl)

  peer_step :
      (peer : StreamDetail) (flags : Flags)
      → Clustered peer
      → (after : Flags) × (compare_peer replica peer (some flags) ≡ some after)
        × (Marked flags → Marked after)
        × ((after.1 ≡ false) ↔ ((flags.1 ≡ false) × Agrees cluster replica.state peer))
  unfolding compare_peer
  peer_step peer flags h =
      let (d, known, known_some) = leaders_known peer h in
      let states = states_iff peer.state replica.state flags in
      let compared = compare_states peer.state replica.state flags in
      (
        mark d multileader compared,
        rw known refl,
        λ m.
            mark-Marked d multileader compared (λ e. cc)
              (states-Marked peer.state replica.state flags m),
        (
          λ e.
              let both = ||-neither d compared.1 (sym (mark-flag d multileader compared) ∙ e) in
              let fine = states.0 both.1 in
              (fine.0, (fine.1, fine.2, fine.3, known_some ∙ ap some both.0)),
          λ e.
              let alike : compared.1 ≡ false = states.1 (e.0, e.1.0, e.1.1, e.1.2) in
              let agreed : d ≡ false = cc in
              mark-flag d multileader compared ∙ rw (agreed, alike) refl,
        ),
      )

  pub peers_lem :
      (peers : List (Text × StreamDetail)) (flags : Flags)
      → All (λ p. Clustered p.1) peers
      → (after : Flags) × (compare_peers replica peers (some flags) ≡ some after)
        × (Marked flags → Marked after)
        × ((after.1 ≡ false)
            ↔ ((flags.1 ≡ false) × All (λ p. Agrees cluster replica.state p.1) peers))
  unfolding compare_peers
  peers_lem [] flags h = (flags, refl, λ m. m, (λ e. (e, tt), λ e. e.0))
  peers_lem ((name, peer) ∷ peers) flags (h, hs) =
      let (one, step, marked, one_iff) = peer_step peer flags h in
      let (after, steps, all_marked, all_iff) = peers_lem peers one hs in
      (
        after,
        ap (compare_peers replica peers) step ∙ steps,
        λ m. all_marked (marked m),
        (
          λ e. let later = all_iff.0 e in let now = one_iff.0 later.0 in (now.0, (now.1, later.1)),
          λ e. all_iff.1 (one_iff.1 (e.0, e.1.0), e.1.1),
        ),
      )

-- What a replica must say of its leader itself.
abbrev pub Led : Text → Text → ClusterInfo → Type 0
Led server raft_group cluster =
    ((server ≡ cluster.leader) × (any (str_eq cluster.leader) cluster.replicas ≡ false))
    ⊎ ((server ≢ cluster.leader) × (cluster.leader ≢ []) × (raft_group ≢ []))

pub true-ne-false : true ≢ false
true-ne-false e = cc

pub str_eq-false : (s t : Text) → str_eq s t ≡ false → s ≢ t
str_eq-false s t e h =
    let same : str_eq s t ≡ true = (str_eq_iff s t).1 h in true-ne-false (sym same ∙ e)

mark-in_sync :
    (b : Bool) (s : Status) (flags : Flags)
    → s ≢ in_sync
    → ((mark b s flags).0 ≡ in_sync) ↔ ((flags.0 ≡ in_sync) × (b ≡ false))
mark-in_sync true s flags ne = (λ e. absurd (ne e), λ e. cc)
mark-in_sync false s flags ne = (λ e. (e, refl), λ e. e.0)

pub own_iff :
    (server raft_group : Text) (cluster : ClusterInfo) (flags : Flags)
    → ((own_status server raft_group cluster flags).0 ≡ in_sync)
      ↔ ((flags.0 ≡ in_sync) × Led server raft_group cluster)
unfolding own_status
own_iff server raft_group cluster flags = elim (Bool-cases (str_eq server cluster.leader)) [
  | inl leads ↦
      let same = str_eq→eq server cluster.leader leads in
      let told =
        mark-in_sync (any (str_eq cluster.leader) cluster.replicas) leader_is_follower flags
          (λ e. cc) in
      rw leads (
        (λ e. ((told.0 e).0, inl (same, (told.0 e).1))),
        (λ e. told.1 (e.0, elim (e.1) [ inl l ↦ l.1 | inr f ↦ absurd (f.0 same) ])),
      )
  | inr follows ↦
      let other = str_eq-false server cluster.leader follows in
      rw follows (elim (Bool-cases (str_eq cluster.leader [])) [
        | inl no_leader ↦
            let empty = str_eq→eq cluster.leader [] no_leader in
            rw no_leader
              (λ e. cc, λ e. elim (e.1) [ inl l ↦ absurd (other l.0) | inr f ↦ absurd (f.1 empty) ])
        | inr has_leader ↦
            let leader = str_eq-false cluster.leader [] has_leader in
            rw has_leader (elim (Bool-cases (str_eq raft_group [])) [
              | inl no_group ↦
                  let empty = str_eq→eq raft_group [] no_group in
                  rw no_group (
                    λ e. cc,
                    λ e. elim (e.1) [ inl l ↦ absurd (other l.0) | inr f ↦ absurd (f.2 empty) ],
                  )
              | inr in_group ↦
                  rw in_group
                    (λ e. (e, inr (other, leader, str_eq-false raft_group [] in_group)), λ e. e.0)
            ])
      ])
]
