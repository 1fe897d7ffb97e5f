-- ===== src/Subscribe/JetStream/Examples.antt =====
-- A flow control message, and the last of what is pending.
use natscli.Prelude.{true, false, [], none, some, ◌≡◌, refl, arith, codes, str_eq}
use natscli.Subscribe.Handlers.{SubCmd, State, start, should_ignore, count_received, print_msg}
use natscli.Subscribe.JetStream.{
  StreamMsg, is_flow_control, flow_control_answer, handle_stream_received, at_pending_zero,
  end_stream_received, stream_msg_handler, handle_stream_arrival,
}
use natscli.Subscribe.JetStream.Stopped.{
  at_start, one_more, delivered, IsStopped, StreamReach-IsStopped,
}

abbrev ten : SubCmd
ten = record {
  match_replies = false;
  limit = 10;
  report_subjects = false;
  report_sub = false;
  graph_only = false;
  ignore_subjects = [];
}

abbrev final_message : StreamMsg
final_message = record {
  msg = record { subject = codes "s"; reply = codes "ack"; size = 1; sub = none };
  status = [];
  stalled = [];
  num_pending = some 0;
}

abbrev flow_control : StreamMsg
flow_control = record {
  msg = record { subject = codes "s"; reply = codes "fc"; size = 0; sub = none };
  status = codes "100";
  stalled = [];
  num_pending = none;
}

flow_control_answered : flow_control_answer flow_control ≡ some (codes "fc")
unfolding flow_control_answer is_flow_control str_eq
flow_control_answered = refl

abbrev ended : State
ended = handle_stream_arrival str_eq ten true false final_message start

terminates_at_end : (ended.received ≡ 1) × (ended.cancelled ≡ true)
unfolding handle_stream_arrival stream_msg_handler should_ignore is_flow_control count_received
    handle_stream_received end_stream_received at_pending_zero print_msg
terminates_at_end = (refl, refl)

StreamReach-IsStopped_example : IsStopped str_eq ten true ended
StreamReach-IsStopped_example =
    StreamReach-IsStopped str_eq ten true ended (omega arith) (omega arith)
      (one_more at_start (delivered start false final_message))
