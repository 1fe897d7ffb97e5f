-- ===== src/Subscribe/Handlers/Replies.antt =====
-- Once --count messages have come, the replies to the requests among them end the command.
use natscli.Prelude.{
  ◌<◌, Bool, true, false, not, ◌||◌, List, [], ◌∷◌, ◌++◌, ◌≢◌, ◌⊎◌, inl, inr, none, some, ◌≡◌, refl,
  sym, ap, ◌∙◌, arith, Text, str_eq_iff, str_eq, if◌then◌else◌, Option-cases, any, if_both,
  List-cases, cons-ne-nil, cons-ne-nil, List-cases,
}
use natscli.Checks.Streams.Agreement.{true-ne-false}
use natscli.Subscribe.Handlers.{
  uint_size, Msg, SubCmd, State, count_dropped, match_handler, matched, end_matched, print_msg,
  of_inbox, handle_arrival, start, find, delete,
}
use natscli.Subscribe.Handlers.Limit.{count_dropped_same, Reach, Reach-IsCounted}

module _ (collide : Text → Text → Bool) (c : SubCmd) where
  -- The replies arrive one after the other.
  abbrev pub handle_replies : List Msg → State → State
  handle_replies [] s = s
  handle_replies (m ∷ ms) s = handle_replies ms (handle_arrival collide c false (of_inbox m) s)

  -- Every request in the map has a reply among the messages.
  abbrev pub Answered : List Msg → List (Text × Msg) → Type 0
  Answered ms [] = Unit
  Answered ms ((k, m) ∷ rest) = (any (λ r. str_eq r.subject k) ms ≡ true) × Answered ms rest

  delete-Answered :
      (r : Msg) (ms : List Msg) (q : List (Text × Msg))
      → Answered (r ∷ ms) q
      → Answered ms (delete r.subject q)
  unfolding delete
  delete-Answered r ms [] h = tt
  delete-Answered r ms ((k, m) ∷ q) (a, h) =
      if_both (Answered ms) (str_eq k r.subject) (delete r.subject q) ((k, m) ∷ delete r.subject q)
        (λ e. delete-Answered r ms q h)
        (λ e. (
          ground (arith, str_eq_iff r.subject k, str_eq_iff k r.subject),
          delete-Answered r ms q h,
        ))

  -- a reply whose request is not in the map deletes nothing
  delete-none : (k : Text) (q : List (Text × Msg)) → find k q ≡ none → delete k q ≡ q
  unfolding delete find
  delete-none k [] h = refl
  delete-none k ((j, m) ∷ q) h = let rest = delete-none k q in ground arith

  keeps_cancelled :
      (m : Msg) (s : State)
      → s.cancelled ≡ true
      → (handle_arrival collide c false (of_inbox m) s).cancelled ≡ true
  unfolding handle_arrival match_handler matched end_matched print_msg
  keeps_cancelled m s h =
      let (r, sub, map_of, can) = count_dropped_same collide c m s in
      if_both (λ u. u.cancelled ≡ true) (s.inbox_subscribed || not c.match_replies)
        (match_handler c m s) s
        (λ e. elim (Option-cases (find m.subject (count_dropped m.sub s).match_map)) [
          | inl n ↦ rw n (can ∙ h)
          | inr (q, n) ↦ rw n (ground arith)
        ])
        (λ e. h)

  stays_cancelled :
      (ms : List Msg) (s : State) → s.cancelled ≡ true → (handle_replies ms s).cancelled ≡ true
  stays_cancelled [] s h = h
  stays_cancelled (m ∷ ms) s h = stays_cancelled ms _ (keeps_cancelled m s h)

  -- The command waits for replies: all messages have come, requests are left.
  abbrev Waits : State → Type 0
  Waits s = (s.received ≡ c.limit) × (s.inbox_subscribed ≡ true) × (s.match_map ≢ [])

  inbox_same : (m : Msg) (s : State) → (count_dropped m.sub s).inbox_subscribed ≡ s.inbox_subscribed
  unfolding count_dropped
  inbox_same m s = ground arith

  end_matched_same :
      (m : Msg) (s : State) (x : Text × Msg) (xs : List (Text × Msg))
      → s.match_map ≡ x ∷ xs
      → end_matched c m s ≡ s
  unfolding end_matched
  end_matched_same m s x xs e = ground arith

  matched-Waits :
      (m request : Msg) (ms : List Msg) (s : State)
      → 0 < c.limit
      → (s.received ≡ c.limit) × (s.inbox_subscribed ≡ true)
      → Answered (m ∷ ms) s.match_map
      → ((matched c m (some request) s).cancelled ≡ true)
        ⊎ (Waits (matched c m (some request) s)
            × Answered ms (matched c m (some request) s).match_map)
  unfolding matched print_msg
  matched-Waits m request ms s some_of (full, inbox) h =
      let left = delete-Answered m ms s.match_map h in
      elim (List-cases (delete m.subject s.match_map)) [
        | inl e ↦ inl (unfold end_matched in ground arith)
        | inr (x, xs, e) ↦
            let shown = record s {
              match_map = delete m.subject s.match_map;
              printed = s.printed ++ (request, some m, s.counter) ∷ [];
            } in
            inr (
              rw (end_matched_same m shown x xs e)
                ((full, inbox, λ k. cons-ne-nil x xs (sym e ∙ k)), left))
      ]

  match_handler-Waits :
      (m : Msg) (ms : List Msg) (s : State)
      → 0 < c.limit
      → Waits s
      → Answered (m ∷ ms) s.match_map
      → ((match_handler c m s).cancelled ≡ true)
        ⊎ (Waits (match_handler c m s) × Answered ms (match_handler c m s).match_map)
  unfolding match_handler matched
  match_handler-Waits m ms s some_of (full, inbox, more) h =
      let (r, sub, map_of, can) = count_dropped_same collide c m s in
      let counted = count_dropped m.sub s in
      let full_of = r ∙ full in
      let inbox_of = inbox_same m s ∙ inbox in
      let answered : Answered (m ∷ ms) counted.match_map = rw map_of h in
      elim (Option-cases (find m.subject counted.match_map)) [
        | inl n ↦ rw n (
            inr (
              (full_of, inbox_of, λ k. more (sym map_of ∙ k)),
              rw⁻¹ (delete-none m.subject counted.match_map n)
                  (delete-Answered m ms counted.match_map answered),
            ))
        | inr (q, n) ↦ rw n (matched-Waits m q ms counted some_of (full_of, inbox_of) answered)
      ]

  not_answered : (q : List (Text × Msg)) → q ≢ [] → ¬ Answered [] q
  not_answered [] h a = h refl
  not_answered ((k, m) ∷ q) h (a, b) = true-ne-false (sym a)

  replies_cancel :
      (ms : List Msg) (s : State)
      → 0 < c.limit
      → Waits s
      → Answered ms s.match_map
      → (handle_replies ms s).cancelled ≡ true
  unfolding handle_arrival
  replies_cancel [] s some_of (full, inbox, more) h = absurd (not_answered s.match_map more h)
  replies_cancel (m ∷ ms) s some_of (full, inbox, more) h =
      let arrived : handle_arrival collide c false (of_inbox m) s ≡ match_handler c m s =
        ap (λ b. if b || not c.match_replies then match_handler c m s else s) inbox in
      ap (λ u. (handle_replies ms u).cancelled) arrived
      ∙ (elim (match_handler-Waits m ms s some_of (full, inbox, more) h) [
        | inl e ↦ stays_cancelled ms (match_handler c m s) e
        | inr (w, a) ↦ replies_cancel ms (match_handler c m s) some_of w a
      ])

  -- With --match-replies and a --count above zero that fits in a word, from every state that the command can reach in which
  -- that many messages have come and the subscription for
  -- replies is there: when a reply to each request that still waits has been handled, the command is over,
  -- whatever other messages come between them on that subscription.
  pub replies_end :
      (ms : List Msg) (s : State)
      → c.match_replies ≡ true
      → 0 < c.limit
      → c.limit < uint_size
      → Reach collide c start s
      → s.received ≡ c.limit
      → s.inbox_subscribed ≡ true
      → Answered ms s.match_map
      → (handle_replies ms s).cancelled ≡ true
  replies_end ms s matching some_of fits r full inbox h =
      let (le, ends, over) = Reach-IsCounted collide c matching some_of fits r in
      elim (List-cases s.match_map) [
        | inl e ↦ stays_cancelled ms s (over (ends.0 full) e)
        | inr (x, xs, e) ↦
            replies_cancel ms s some_of (full, inbox, λ k. cons-ne-nil x xs (sym e ∙ k)) h
      ]
