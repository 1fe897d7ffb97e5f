-- ===== src/Subscribe/Handlers.antt =====
-- cli/sub_command.go: countDropped, createMsgHandler, handleMsg, createMatchHandler and
-- handleInArrivalOrder. Whether two subjects collide is a parameter; a message carries what its
-- subscription answers; acknowledgements and the drawing are left out.
pub mod Counted
pub mod Limit
pub mod Replies
pub mod Together
mod Examples
use natscli.Prelude.{
  ℕ, ◌+◌, ◌-◌, ◌%◌, ◌^◌, Bool, true, false, not, ◌&&◌, ◌||◌, List, [], ◌∷◌, ◌++◌, Option, none,
  some, Text, str_eq, ltb, ◌==◌, if◌then◌else◌,
}

-- m.Sub, with what Dropped answers, none for an error
pub record Subscription : Type 0 where
  pub id : ℕ
  pub subscribed_to : Text
  pub dropped : Option ℕ

pub record Msg : Type 0 where
  pub subject : Text
  pub reply : Text
  pub size : ℕ
  pub sub : Option Subscription

pub record SubCmd : Type 0 where
  pub match_replies : Bool
  pub limit : ℕ
  pub report_subjects : Bool
  pub report_sub : Bool
  pub graph_only : Bool
  pub ignore_subjects : List Text

-- subscriptionState, whether the subscriptions and the one for replies are valid, and what is printed: a
-- message, its reply and the counter
pub record State : Type 0 where
  pub counter : ℕ
  pub received : ℕ
  pub match_map : List (Text × Msg)
  pub last_dropped : List (ℕ × ℕ)
  pub subject_report : List (Text × ℕ)
  pub subject_bytes : List (Text × ℕ)
  pub message_rates : List (Text × ℕ)
  pub subscribed : Bool
  pub inbox_subscribed : Bool
  pub cancelled : Bool
  pub printed : List (Msg × Option Msg × ℕ)

abbrev pub uint_size : ℕ
uint_size = 2 ^ 64

-- maps: a value that is set comes first; a missing one is zero
unfoldable pub value_of : ℕ → List (ℕ × ℕ) → ℕ
value_of k [] = 0
value_of k ((j, v) ∷ m) = let rest = value_of k m in if j == k then v else rest

unfoldable pub set_value : ℕ → ℕ → List (ℕ × ℕ) → List (ℕ × ℕ)
set_value k v [] = (k, v) ∷ []
set_value k v ((j, w) ∷ m) =
    let rest = set_value k v m in if j == k then (k, v) ∷ m else (j, w) ∷ rest

unfoldable pub increase : ℕ → Text → List (Text × ℕ) → List (Text × ℕ)
increase by k [] = (k, by) ∷ []
increase by k ((j, n) ∷ m) =
    let rest = increase by k m in if str_eq j k then (j, n + by) ∷ m else (j, n) ∷ rest

unfoldable pub find : Text → List (Text × Msg) → Option Msg
find k [] = none
find k ((j, m) ∷ rest) = let more = find k rest in if str_eq j k then some m else more

unfoldable pub delete : Text → List (Text × Msg) → List (Text × Msg)
delete k [] = []
delete k ((j, m) ∷ rest) = let more = delete k rest in if str_eq j k then more else (j, m) ∷ more

abbrev is_empty {ℓ} : {A : Type ℓ} → List A → Bool
is_empty [] = true
is_empty (x ∷ xs) = false

count_of : Subscription → Option ℕ → State → State
count_of sub none s = s
count_of sub (some dropped) s = record s {
  counter = (s.counter + dropped + (uint_size - value_of sub.id s.last_dropped)) % uint_size;
  last_dropped = set_value sub.id dropped s.last_dropped;
}

unfoldable pub count_dropped : Option Subscription → State → State
unfolding count_of
count_dropped none s = s
count_dropped (some sub) s = count_of sub sub.dropped s

unfoldable pub should_ignore : (Text → Text → Bool) → Text → List Text → Bool
should_ignore collide subject [] = false
should_ignore collide subject (ignore ∷ rest) =
    collide subject ignore || should_ignore collide subject rest

unfoldable pub print_msg : Msg → Option Msg → State → State
print_msg m reply s = record s { printed = s.printed ++ (m, reply, s.counter) ∷ [] }

unfoldable pub handle_msg : SubCmd → Msg → State → State
unfolding print_msg
handle_msg c m s =
    if c.match_replies && not (str_eq m.reply [])
    then record s { match_map = (m.reply, m) ∷ delete m.reply s.match_map }
    else print_msg m none s

report_subject : SubCmd → Msg → Option Subscription → Text
report_subject c m none = m.subject
report_subject c m (some sub) = if c.report_sub then sub.subscribed_to else m.subject

handle_subject_report : SubCmd → Msg → State → State
handle_subject_report c m s = record s {
  subject_report = increase 1 (report_subject c m m.sub) s.subject_report;
  subject_bytes = increase m.size (report_subject c m m.sub) s.subject_bytes;
}

handle_graph_update : Option Subscription → State → State
handle_graph_update none s = s
handle_graph_update (some sub) s = record s {
  message_rates = increase 1 sub.subscribed_to s.message_rates;
}

-- the switch of createMsgHandler
unfoldable pub handle_received : SubCmd → Msg → State → State
unfolding report_subject handle_subject_report handle_graph_update
handle_received c m s =
    if c.report_subjects
    then handle_subject_report c m s
    else if c.graph_only
    then handle_graph_update m.sub s
    else handle_msg c m s

-- what follows it; `expired` is whether there is a timer whose Reset answers that it had fired
unfoldable pub end_received : SubCmd → Bool → State → State
end_received c expired s =
    if ltb 0 c.limit && s.received == c.limit
    then record s {
      subscribed = false;
      cancelled = s.cancelled || (not c.match_replies || is_empty s.match_map);
    }
    else record s { cancelled = s.cancelled || expired }

unfoldable pub count_received : State → State
count_received s = record s {
  counter = (s.counter + 1) % uint_size;
  received = (s.received + 1) % uint_size;
}

-- createMsgHandler
unfoldable pub msg_handler : (Text → Text → Bool) → SubCmd → Bool → Msg → State → State
msg_handler collide c expired m s =
    if should_ignore collide m.subject c.ignore_subjects
    then count_dropped m.sub s
    else end_received c expired (handle_received c m (count_received (count_dropped m.sub s)))

-- createMatchHandler
unfoldable pub end_matched : SubCmd → Msg → State → State
end_matched c reply s =
    if ltb 0 c.limit && s.received == c.limit && is_empty s.match_map
    then record s {
      inbox_subscribed = elim reply.sub [ none ↦ s.inbox_subscribed | some sub ↦ false ];
      cancelled = true;
    }
    else s

unfoldable pub matched : SubCmd → Msg → Option Msg → State → State
matched c reply none s = s
matched c reply (some request) s =
    let shown = print_msg request (some reply) s in
    end_matched c reply (record shown { match_map = delete reply.subject shown.match_map })

unfoldable pub match_handler : SubCmd → Msg → State → State
match_handler c reply s =
    let counted = count_dropped reply.sub s in
    matched c reply (find reply.subject counted.match_map) counted

-- a message of the subscription for replies, or of another
pub data Arrival : Type 0 where
  of_inbox of_subject : Msg → Arrival

-- The message's handler. With --match-replies it is called by a round of handleInArrivalOrder, which drops
-- what arrives for a subscription that has ended; without it the client calls it with what has arrived.
unfoldable pub handle_arrival : (Text → Text → Bool) → SubCmd → Bool → Arrival → State → State
handle_arrival collide c expired (of_inbox m) s =
    if s.inbox_subscribed || not c.match_replies then match_handler c m s else s
handle_arrival collide c expired (of_subject m) s =
    if s.subscribed || not c.match_replies then msg_handler collide c expired m s else s

abbrev pub start : State
start = record {
  counter = 0;
  received = 0;
  match_map = [];
  last_dropped = [];
  subject_report = [];
  subject_bytes = [];
  message_rates = [];
  subscribed = true;
  inbox_subscribed = true;
  cancelled = false;
  printed = [];
}
