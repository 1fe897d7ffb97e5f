-- ===== src/Subscribe/JetStream.antt =====
-- cli/sub_command.go: createJetStreamMsgHandler and handleJetstreamFlowContolMsg. A message carries what its
-- metadata answers; acknowledgements are left out.
pub mod Stopped
mod Examples
use natscli.Prelude.{
  ℕ, Bool, true, false, not, ◌&&◌, ◌||◌, List, [], ◌∷◌, Option, none, some, Text, codes, str_eq,
  ltb, ◌==◌, if◌then◌else◌,
}
use natscli.Subscribe.Handlers.{
  SubCmd, State, Msg, should_ignore, increase, count_received, print_msg,
}

-- the message, its Status and Nats-Consumer-Stalled headers, and NumPending, none without metadata
pub record StreamMsg : Type 0 where
  pub msg : Msg
  pub status : Text
  pub stalled : Text
  pub num_pending : Option ℕ

-- handleJetstreamFlowContolMsg: whether it is one, and the subject that is answered
unfoldable pub is_flow_control : StreamMsg → Bool
is_flow_control m = m.msg.size == 0 && str_eq m.status (codes "100")

unfoldable pub flow_control_answer : StreamMsg → Option Text
flow_control_answer m =
    if not (is_flow_control m)
    then none
    else if not (str_eq m.msg.reply [])
    then some m.msg.reply
    else if not (str_eq m.stalled [])
    then some m.stalled
    else none

-- the report or the printed message
unfoldable pub handle_stream_received : SubCmd → Msg → State → State
handle_stream_received c m s =
    if c.report_subjects
    then record s {
      subject_report = increase 1 m.subject s.subject_report;
      subject_bytes = increase m.size m.subject s.subject_bytes;
    }
    else print_msg m none s

-- meta.NumPending == 0
unfoldable pub at_pending_zero : Option ℕ → Bool
at_pending_zero none = false
at_pending_zero (some n) = n == 0

is_none {ℓ} : {A : Type ℓ} → List A → Bool
is_none [] = true
is_none (x ∷ xs) = false

-- `subscribed` is whether the consumers run
unfoldable pub end_stream_received : SubCmd → Bool → Bool → Option ℕ → State → State
unfolding is_none
end_stream_received c stop_at_pending_zero expired pending s =
    if (ltb 0 c.limit && s.received == c.limit) || (stop_at_pending_zero && at_pending_zero pending)
    then record s {
      subscribed = false;
      cancelled = s.cancelled || (not c.match_replies || is_none s.match_map);
    }
    else record s { cancelled = s.cancelled || expired }

-- createJetStreamMsgHandler; a consumer that is stopped calls it no more
unfoldable pub stream_msg_handler :
    (Text → Text → Bool) → SubCmd → Bool → Bool → StreamMsg → State → State
stream_msg_handler collide c stop_at_pending_zero expired m s =
    if should_ignore collide m.msg.subject c.ignore_subjects
    then s
    else if is_flow_control m
    then s
    else end_stream_received c stop_at_pending_zero expired m.num_pending
        (handle_stream_received c m.msg (count_received s))

unfoldable pub handle_stream_arrival :
    (Text → Text → Bool) → SubCmd → Bool → Bool → StreamMsg → State → State
handle_stream_arrival collide c stop_at_pending_zero expired m s =
    if s.subscribed then stream_msg_handler collide c stop_at_pending_zero expired m s else s
