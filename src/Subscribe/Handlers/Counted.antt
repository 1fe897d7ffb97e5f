-- ===== src/Subscribe/Handlers/Counted.antt =====
-- What the counter in front of a message counts.
use natscli.Prelude.{
  ℕ, ◌+◌, ◌-◌, ◌/◌, ◌%◌, ◌<◌, Bool, not, ◌||◌, List, [], ◌∷◌, Option, none, some, ◌≡◌, refl, arith,
  Text, ◌==◌, if_both,
}
use natscli.Subscribe.Handlers.{
  Subscription, Msg, SubCmd, State, uint_size, value_of, set_value, count_of, count_dropped,
  handle_received, end_received, count_received, should_ignore, msg_handler, match_handler, matched,
  end_matched, print_msg, handle_msg, Arrival, of_inbox, of_subject, handle_arrival, start, find,
}
use natscli.Subscribe.Handlers.Limit.{
  SubFits, FitsInt, arrives, timer_fires, Reach, here, then_step,
}

abbrev pub total : List (ℕ × ℕ) → ℕ
total [] = 0
total ((k, v) ∷ m) = v + total m

abbrev pub AllFit : List (ℕ × ℕ) → Type 0
AllFit [] = Unit
AllFit ((k, v) ∷ m) = (v < uint_size) × AllFit m

-- The counter is the number of messages received and of those dropped by a subscription before its last
-- message, in a word.
abbrev pub IsNumbered : State → Type 0
IsNumbered s = (s.counter ≡ (s.received + total s.last_dropped) % uint_size) × AllFit s.last_dropped

total-set_value :
    (k v : ℕ) (m : List (ℕ × ℕ)) → total (set_value k v m) + value_of k m ≡ total m + v
unfolding set_value value_of
total-set_value k v [] = omega arith
total-set_value k v ((j, w) ∷ m) = let rest = total-set_value k v m in ground arith

AllFit-set_value :
    (k v : ℕ) (m : List (ℕ × ℕ)) → v < uint_size → AllFit m → AllFit (set_value k v m)
unfolding set_value
AllFit-set_value k v [] h f = (h, tt)
AllFit-set_value k v ((j, w) ∷ m) h (a, b) =
    if_both AllFit (j == k) ((k, v) ∷ m) ((j, w) ∷ set_value k v m) (λ e. (h, b))
      (λ e. (a, AllFit-set_value k v m h b))

value_of_fits : (k : ℕ) (m : List (ℕ × ℕ)) → AllFit m → value_of k m < uint_size
unfolding value_of
value_of_fits k [] f = omega arith
value_of_fits k ((j, w) ∷ m) (a, b) = let rest = value_of_fits k m b in ground arith

drop_step :
    (counter received old new d v : ℕ)
    → counter ≡ (received + old) % uint_size
    → new + v ≡ old + d
    → v < uint_size
    → (counter + d + (uint_size - v)) % uint_size ≡ (received + new) % uint_size
drop_step counter received old new d v c e f = omega arith

up_step :
    (counter received t : ℕ)
    → counter ≡ (received + t) % uint_size
    → (counter + 1) % uint_size ≡ ((received + 1) % uint_size + t) % uint_size
up_step counter received t c = omega arith

count_of-IsNumbered :
    (sub : Subscription) (o : Option ℕ) (s : State)
    → ((n : ℕ) → o ≡ some n → n < uint_size / 2)
    → IsNumbered s
    → IsNumbered (count_of sub o s)
unfolding count_of
count_of-IsNumbered sub none s f h = h
count_of-IsNumbered sub (some d) s f (c, fits) =
    let less = f d refl in
    (
      drop_step s.counter s.received (total s.last_dropped) _ d (value_of sub.id s.last_dropped) c
          (total-set_value sub.id d s.last_dropped) (value_of_fits sub.id s.last_dropped fits),
      AllFit-set_value sub.id d s.last_dropped (omega arith) fits,
    )

count_dropped-IsNumbered :
    (o : Option Subscription) (s : State)
    → SubFits o
    → IsNumbered s
    → IsNumbered (count_dropped o s)
unfolding count_dropped
count_dropped-IsNumbered none s f h = h
count_dropped-IsNumbered (some sub) s f h = count_of-IsNumbered sub sub.dropped s f h

abbrev SameNumbers : State → State → Type 0
SameNumbers s u =
    (u.counter ≡ s.counter) × (u.received ≡ s.received) × (u.last_dropped ≡ s.last_dropped)

SameNumbers-IsNumbered : (s u : State) → SameNumbers s u → IsNumbered s → IsNumbered u
SameNumbers-IsNumbered s u (c, r, d) (n, f) = (rw (c, r, d) n, rw d f)

module _ (collide : Text → Text → Bool) (c : SubCmd) where
  handle_received_numbers : (m : Msg) (s : State) → SameNumbers s (handle_received c m s)
  unfolding handle_received handle_msg print_msg
  handle_received_numbers m s = (ground arith, ground arith, ground arith)

  end_received_numbers : (expired : Bool) (s : State) → SameNumbers s (end_received c expired s)
  unfolding end_received
  end_received_numbers expired s = (ground arith, ground arith, ground arith)

  matched_numbers : (reply : Msg) (o : Option Msg) (s : State) → SameNumbers s (matched c reply o s)
  unfolding matched end_matched print_msg
  matched_numbers reply none s = (refl, refl, refl)
  matched_numbers reply (some request) s = (ground arith, ground arith, ground arith)

  count_received-IsNumbered : (s : State) → IsNumbered s → IsNumbered (count_received s)
  unfolding count_received
  count_received-IsNumbered s (n, f) = (up_step s.counter s.received (total s.last_dropped) n, f)

  handle_arrival-IsNumbered :
      (expired : Bool) (a : Arrival) (s : State)
      → FitsInt a
      → IsNumbered s
      → IsNumbered (handle_arrival collide c expired a s)
  unfolding handle_arrival match_handler msg_handler
  handle_arrival-IsNumbered expired (of_inbox m) s f h =
      let counted = count_dropped m.sub s in
      let k = count_dropped-IsNumbered m.sub s f h in
      let o = find m.subject counted.match_map in
      if_both IsNumbered (s.inbox_subscribed || not c.match_replies) (matched c m o counted) s
        (λ e.
          SameNumbers-IsNumbered counted (matched c m o counted) (matched_numbers m o counted) k)
        (λ e. h)
  handle_arrival-IsNumbered expired (of_subject m) s f h =
      let counted = count_dropped m.sub s in
      let k = count_dropped-IsNumbered m.sub s f h in
      let up = count_received counted in
      let handled = handle_received c m up in
      let whole =
        SameNumbers-IsNumbered handled (end_received c expired handled)
          (end_received_numbers expired handled)
          (SameNumbers-IsNumbered up handled (handle_received_numbers m up)
            (count_received-IsNumbered counted k)) in
      if_both IsNumbered (s.subscribed || not c.match_replies) _ s
        (λ e.
          if_both IsNumbered (should_ignore collide m.subject c.ignore_subjects) counted
            (end_received c expired handled) (λ e. k) (λ e. whole))
        (λ e. h)

  -- Whatever messages and replies arrive, in whatever order, and whenever the timer fires, the counter that
  -- is printed with a message is, in a word, the number of messages received and of those that the
  -- client reported as dropped, where these numbers fit in an int.
  pub Reach-IsNumbered : {s : State} → Reach collide c start s → IsNumbered s
  Reach-IsNumbered here = (refl, tt)
  Reach-IsNumbered (then_step r (arrives s expired a f)) =
      handle_arrival-IsNumbered expired a s f (Reach-IsNumbered r)
  Reach-IsNumbered (then_step r (timer_fires s)) = Reach-IsNumbered r
