-- ===== src/Subscribe/Handlers/Limit.antt =====
-- --match-replies and --count: the messages of the subscriptions and of the inbox come one at a time, in
-- the order of their arrival.
use natscli.Prelude.{
  ℕ, ◌+◌, ◌/◌, ◌%◌, ◌≤◌, ◌<◌, Bool, true, false, not, ◌||◌, [], ◌≢◌, ◌↔◌, inl, inr, Option, none,
  some, ◌≡◌, refl, sym, ◌∙◌, arith, Text, Bool-cases, Option-cases, if_both,
}
use natscli.Checks.Streams.Agreement.{true-ne-false}
use natscli.Subscribe.Handlers.{
  Subscription, Msg, SubCmd, State, uint_size, count_dropped, handle_received, end_received,
  count_received, should_ignore, msg_handler, match_handler, matched, end_matched, print_msg,
  handle_msg, Arrival, of_inbox, of_subject, handle_arrival, start, find,
}

-- The number of messages dropped fits in the int that Dropped answers.
abbrev pub SubFits : Option Subscription → Type 0
SubFits none = Unit
SubFits (some sub) = (n : ℕ) → sub.dropped ≡ some n → n < uint_size / 2

abbrev pub FitsInt : Arrival → Type 0
FitsInt (of_inbox m) = SubFits m.sub
FitsInt (of_subject m) = SubFits m.sub

module _ (collide : Text → Text → Bool) (c : SubCmd) where
  -- A step: a message arrives, with any answer of the timer, or the timer fires.
  pub data Step : State → State → Type 0 where
    arrives :
        (s : State) (expired : Bool) (a : Arrival)
        → FitsInt a
        → Step s (handle_arrival collide c expired a s)
    timer_fires : (s : State) → Step s (record s { cancelled = true })

  pub data Reach (s : State) : State → Type 0 where
    here : Reach s s
    then_step : {t u : State} → Reach s t → Step t u → Reach s u

  -- The messages counted are at most --count; there are that many exactly if the subscriptions are gone,
  -- and then, if no request waits for its reply, the command is over.
  abbrev pub IsCounted : State → Type 0
  IsCounted s =
      (s.received ≤ c.limit)
      × ((s.received ≡ c.limit) ↔ (s.subscribed ≡ false))
      × (s.subscribed ≡ false → s.match_map ≡ [] → s.cancelled ≡ true)

  pub count_dropped_same :
      (m : Msg) (s : State)
      → ((count_dropped m.sub s).received ≡ s.received)
        × ((count_dropped m.sub s).subscribed ≡ s.subscribed)
        × ((count_dropped m.sub s).match_map ≡ s.match_map)
        × ((count_dropped m.sub s).cancelled ≡ s.cancelled)
  unfolding count_dropped
  count_dropped_same m s = (ground arith, ground arith, ground arith, ground arith)

  handle_received_same :
      (m : Msg) (s : State)
      → ((handle_received c m s).received ≡ s.received)
        × ((handle_received c m s).subscribed ≡ s.subscribed)
        × ((handle_received c m s).cancelled ≡ s.cancelled)
  unfolding handle_received handle_msg print_msg
  handle_received_same m s = (ground arith, ground arith, ground arith)

  end_received-IsCounted :
      (expired : Bool) (s : State)
      → 0 < c.limit
      → s.received ≤ c.limit
      → s.subscribed ≡ true
      → IsCounted (end_received c expired s)
  unfolding end_received
  end_received-IsCounted expired s some_of le h =
      ((ground arith), (λ e. ground arith, λ e. ground arith), λ e d. ground arith)

  IsCounted-same :
      (s u : State)
      → (u.received ≡ s.received)
        × (u.subscribed ≡ s.subscribed)
        × (u.match_map ≡ s.match_map)
        × (u.cancelled ≡ s.cancelled)
      → IsCounted s
      → IsCounted u
  IsCounted-same s u (r, sub, map_of, can) (le, ends, over) = (
    omega arith,
    (λ e. sub ∙ ends.0 (sym r ∙ e), λ e. r ∙ ends.1 (sym sub ∙ e)),
    λ e d. can ∙ over (sym sub ∙ e) (sym map_of ∙ d),
  )

  count_up : (n : ℕ) → n < c.limit → c.limit < uint_size → (n + 1) % uint_size ≤ c.limit
  count_up n h k = omega arith

  msg_handler-IsCounted :
      (expired : Bool) (m : Msg) (s : State)
      → 0 < c.limit
      → c.limit < uint_size
      → s.subscribed ≡ true
      → IsCounted s
      → IsCounted (msg_handler collide c expired m s)
  unfolding msg_handler count_received
  msg_handler-IsCounted expired m s some_of fits h (le, ends, over) =
      let dropped = count_dropped m.sub s in
      let (r, sub, map_of, can) = count_dropped_same m s in
      let handled = handle_received c m (count_received dropped) in
      let (r2, sub2, can2) = handle_received_same m (count_received dropped) in
      let short : s.received ≢ c.limit = λ e. true-ne-false (sym h ∙ ends.0 e) in
      let less : dropped.received < c.limit = omega (arith, short) in
      let more : handled.received ≤ c.limit = rw r2 (count_up dropped.received less fits) in
      let still : handled.subscribed ≡ true = sub2 ∙ (sub ∙ h) in
      elim (Bool-cases (should_ignore collide m.subject c.ignore_subjects)) [
        | inl e ↦ rw e (IsCounted-same s dropped (r, sub, map_of, can) (le, ends, over))
        | inr e ↦ rw e (end_received-IsCounted expired handled some_of more still)
      ]

  matched-IsCounted :
      (reply request : Msg) (s : State)
      → 0 < c.limit
      → IsCounted s
      → IsCounted (matched c reply (some request) s)
  unfolding matched end_matched print_msg
  matched-IsCounted reply request s some_of (le, ends, over) =
      (ground arith, (λ e. ground arith, λ e. ground arith), λ e d. ground arith)

  match_handler-IsCounted :
      (reply : Msg) (s : State) → 0 < c.limit → IsCounted s → IsCounted (match_handler c reply s)
  unfolding match_handler matched
  match_handler-IsCounted reply s some_of h =
      let counted = count_dropped reply.sub s in
      let k = IsCounted-same s counted (count_dropped_same reply s) h in
      elim (Option-cases (find reply.subject counted.match_map)) [
        | inl e ↦ rw e k
        | inr (q, e) ↦ rw e (matched-IsCounted reply q counted some_of k)
      ]

  still_there :
      (s : State)
      → c.match_replies ≡ true
      → (s.subscribed || not c.match_replies) ≡ true
      → s.subscribed ≡ true
  still_there s matching e = ground arith

  Step-IsCounted :
      {s u : State}
      → c.match_replies ≡ true
      → 0 < c.limit
      → c.limit < uint_size
      → Step s u
      → IsCounted s
      → IsCounted u
  unfolding handle_arrival
  Step-IsCounted matching some_of fits (timer_fires s) (le, ends, over) = (le, ends, λ e d. refl)
  Step-IsCounted matching some_of fits (arrives s expired (of_inbox m) f) h =
      if_both IsCounted (s.inbox_subscribed || not c.match_replies) (match_handler c m s) s
        (λ e. match_handler-IsCounted m s some_of h) (λ e. h)
  Step-IsCounted matching some_of fits (arrives s expired (of_subject m) f) h =
      if_both IsCounted (s.subscribed || not c.match_replies) (msg_handler collide c expired m s) s
        (λ e. msg_handler-IsCounted expired m s some_of fits (still_there s matching e) h) (λ e. h)

  -- With --match-replies and a --count that fits in a word, whatever messages and replies arrive in whatever
  -- order and whenever the timer fires: no more than --count messages are ever counted, the
  -- subscriptions end exactly when that many are, and from then on the command is over as soon as no
  -- request waits for its reply.
  pub Reach-IsCounted :
      {s : State}
      → c.match_replies ≡ true
      → 0 < c.limit
      → c.limit < uint_size
      → Reach start s
      → IsCounted s
  Reach-IsCounted matching some_of fits here = (
    omega arith,
    (λ e. absurd (omega arith), λ e. absurd (true-ne-false e)),
    λ e d. absurd (true-ne-false e),
  )
  Reach-IsCounted matching some_of fits (then_step r st) =
      Step-IsCounted matching some_of fits st (Reach-IsCounted matching some_of fits r)
