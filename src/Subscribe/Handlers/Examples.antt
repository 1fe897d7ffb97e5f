-- ===== src/Subscribe/Handlers/Examples.antt =====
-- Two requests, and a reply to each.
use natscli.Prelude.{true, false, List, [], ◌∷◌, none, ◌≡◌, refl, arith, Text, codes, str_eq}
use natscli.Subscribe.Handlers.{
  Msg, SubCmd, State, of_subject, handle_arrival, start, msg_handler, handle_msg, handle_received,
  end_received, count_received, count_dropped, should_ignore, delete,
}
use natscli.Subscribe.Handlers.Limit.{Reach, here, then_step, arrives, IsCounted}
use natscli.Subscribe.Handlers.Counted.{IsNumbered}
use natscli.Subscribe.Handlers.Replies.{handle_replies, Answered, replies_end}
use natscli.Subscribe.Handlers.Together.{Reach-IsSound}

abbrev two : SubCmd
two = record {
  match_replies = true;
  limit = 2;
  report_subjects = false;
  report_sub = false;
  graph_only = false;
  ignore_subjects = codes "x" ∷ [];
}

abbrev message_of : Text → Text → Msg
message_of subj reply = record { subject = subj; reply = reply; size = 1; sub = none }

abbrev asked : Text → State → State
asked reply s = handle_arrival str_eq two false (of_subject (message_of (codes "a") reply)) s

abbrev waiting : State
waiting = asked (codes "r2") (asked (codes "r1") start)

reached : Reach str_eq two start waiting
reached = then_step (then_step here (arrives _ false _ tt)) (arrives _ false _ tt)

abbrev replies : List Msg
replies = message_of (codes "r2") [] ∷ message_of (codes "r1") [] ∷ []

Reach-IsSound_example : IsCounted str_eq two waiting × IsNumbered waiting
Reach-IsSound_example = Reach-IsSound str_eq two waiting refl (omega arith) (omega arith) reached

full : waiting.received ≡ 2
unfolding handle_arrival msg_handler should_ignore str_eq count_dropped count_received
    handle_received handle_msg end_received delete
full = refl

listening : waiting.inbox_subscribed ≡ true
unfolding handle_arrival msg_handler should_ignore str_eq count_dropped count_received
    handle_received handle_msg end_received delete
listening = refl

answered : Answered str_eq two replies waiting.match_map
unfolding handle_arrival msg_handler should_ignore str_eq count_dropped count_received
    handle_received handle_msg end_received delete
answered = (refl, (refl, tt))

replies_end_run : (handle_replies str_eq two replies waiting).cancelled ≡ true
replies_end_run =
    replies_end str_eq two replies waiting refl (omega arith) (omega arith) reached full listening
      answered
