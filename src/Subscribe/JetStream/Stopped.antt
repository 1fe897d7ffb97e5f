-- ===== src/Subscribe/JetStream/Stopped.antt =====
-- When a subscription to a stream ends.
use natscli.Prelude.{
  ℕ, ◌+◌, ◌%◌, ◌≤◌, ◌<◌, Bool, true, false, [], Option, ◌≡◌, refl, sym, ap, ◌∙◌, arith, Text,
  if◌then◌else◌, if_both,
}
use natscli.Checks.Streams.Agreement.{true-ne-false}
use natscli.Subscribe.Handlers.{
  SubCmd, State, Msg, uint_size, should_ignore, count_received, print_msg, start,
}
use natscli.Subscribe.JetStream.{
  StreamMsg, is_flow_control, handle_stream_received, end_stream_received, stream_msg_handler,
  handle_stream_arrival,
}

module _ (collide : Text → Text → Bool) (c : SubCmd) (stop_at_pending_zero : Bool) where
  -- A step: a message arrives, with any answer of the timer, or the timer fires.
  pub data StreamStep : State → State → Type 0 where
    delivered :
        (s : State) (expired : Bool) (m : StreamMsg)
        → StreamStep s (handle_stream_arrival collide c stop_at_pending_zero expired m s)
    fires : (s : State) → StreamStep s (record s { cancelled = true })

  pub data StreamReach (s : State) : State → Type 0 where
    at_start : StreamReach s s
    one_more : {t u : State} → StreamReach s t → StreamStep t u → StreamReach s u

  -- While the consumers run fewer messages than --count were counted; once they are stopped the command is
  -- over; and the counter is the number of messages received.
  abbrev pub IsStopped : State → Type 0
  IsStopped s =
      (s.received ≤ c.limit)
      × (s.subscribed ≡ true → s.received < c.limit)
      × (s.subscribed ≡ false → s.cancelled ≡ true)
      × (s.counter ≡ s.received)
      × (s.match_map ≡ [])

  handled_same :
      (m : Msg) (s : State)
      → ((handle_stream_received c m s).received ≡ s.received)
        × ((handle_stream_received c m s).subscribed ≡ s.subscribed)
        × ((handle_stream_received c m s).counter ≡ s.counter)
        × ((handle_stream_received c m s).match_map ≡ s.match_map)
  unfolding handle_stream_received print_msg
  handled_same m s = (ground arith, ground arith, ground arith, ground arith)

  end_stream_received-IsStopped :
      (expired : Bool) (pending : Option ℕ) (s : State)
      → 0 < c.limit
      → s.received ≤ c.limit
      → s.subscribed ≡ true
      → s.counter ≡ s.received
      → s.match_map ≡ []
      → IsStopped (end_stream_received c stop_at_pending_zero expired pending s)
  unfolding end_stream_received
  end_stream_received-IsStopped expired pending s some_of le h same none_of =
      (ground arith, λ e. ground arith, λ e. ground arith, ground arith, ground arith)

  one_up : (n : ℕ) → n < c.limit → c.limit < uint_size → ((n + 1) % uint_size ≤ c.limit)
  one_up n h k = omega arith

  stream_msg_handler-IsStopped :
      (expired : Bool) (m : StreamMsg) (s : State)
      → 0 < c.limit
      → c.limit < uint_size
      → s.subscribed ≡ true
      → IsStopped s
      → IsStopped (stream_msg_handler collide c stop_at_pending_zero expired m s)
  unfolding stream_msg_handler count_received
  stream_msg_handler-IsStopped expired m s some_of fits h (le, open_of, over, same, none_of) =
      let up = count_received s in
      let handled = handle_stream_received c m.msg up in
      let (r, sub, count, map_of) = handled_same m.msg up in
      let more : handled.received ≤ c.limit = rw r (one_up s.received (open_of h) fits) in
      let still : handled.subscribed ≡ true = sub ∙ h in
      let numbered : handled.counter ≡ handled.received =
        count ∙ (ap (λ n. (n + 1) % uint_size) same ∙ sym r) in
      let ended =
        end_stream_received-IsStopped expired m.num_pending handled some_of more still numbered
          (map_of ∙ none_of) in
      let before : IsStopped s = (le, open_of, over, same, none_of) in
      if_both IsStopped (should_ignore collide m.msg.subject c.ignore_subjects) s
        (if is_flow_control m
          then s
          else end_stream_received c stop_at_pending_zero expired m.num_pending handled)
        (λ e. before)
        (λ e.
          if_both IsStopped (is_flow_control m) s
            (end_stream_received c stop_at_pending_zero expired m.num_pending handled) (λ d. before)
            (λ d. ended))

  -- With a --count above zero that fits in a word, whatever messages of a stream are delivered one at a time
  -- and whenever the timer fires: no more than --count messages are ever counted, the consumers are
  -- stopped when that many are, the command is over when they are, and the counter is the number of
  -- messages received.
  pub StreamReach-IsStopped :
      (s : State) → 0 < c.limit → c.limit < uint_size → StreamReach start s → IsStopped s
  unfolding handle_stream_arrival
  StreamReach-IsStopped s some_of fits at_start =
      (omega arith, λ e. omega arith, λ e. absurd (true-ne-false e), refl, refl)
  StreamReach-IsStopped s some_of fits (one_more r (fires t)) =
      let (le, open_of, over, same, none_of) = StreamReach-IsStopped t some_of fits r in
      (le, open_of, λ e. refl, same, none_of)
  StreamReach-IsStopped s some_of fits (one_more r (delivered t expired m)) =
      let h = StreamReach-IsStopped t some_of fits r in
      if_both IsStopped t.subscribed (stream_msg_handler collide c stop_at_pending_zero expired m t)
        t (λ e. stream_msg_handler-IsStopped expired m t some_of fits e h) (λ e. h)
