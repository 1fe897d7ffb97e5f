-- ===== src/Publish/Action/Examples.antt =====
-- The flags of an atomic batch, and what is written for two lines.
use natscli.Prelude.{Bool, true, false, ◌||◌, [], ◌↔◌, inr, some, ◌≡◌, refl, arith, str_eq}
use natscli.Publish.Samples.{
  packages, command, lines, by_lines, server, times, atomic_flags, no_schedule,
}
use natscli.Publish.Stdin.{SendOn, use_stdin_of}
use natscli.Publish.Stdin.Lines.{lines_of}
use natscli.Publish.Atomic.{is_eof, publish_atomic_batch, write_atomic}
use natscli.Publish.Atomic.Pending.{messages_of}
use natscli.Publish.Schedule.{Schedule}
use natscli.Publish.Action.{
  Action, publisher_of, publish_action, choose, schedule_of, schedule_given,
}
use natscli.Publish.Action.Choice.{Scheduled, publish_action_iff}
use natscli.Publish.Action.Composed.{publish_atomic_batch_messages}

chosen :
    publish_action times true (publisher_of false true atomic_flags) atomic_flags
    ≡ inr Action.publish_atomic_batch
unfolding publish_action choose schedule_of schedule_given publisher_of use_stdin_of is_eof str_eq
chosen = refl

publish_atomic_batch_messages_example :
    publish_atomic_batch packages (publisher_of false true atomic_flags) command server 4 lines
    ≡ some (
        write_atomic server command
          (messages_of packages true command 0 (lines_of [] lines.pieces)))
publish_atomic_batch_messages_example =
    publish_atomic_batch_messages packages times true false true atomic_flags command server 4 lines
      refl chosen refl (omega arith)

publish_action_iff_example :
    ((publish_action times true by_lines atomic_flags ≡ inr Action.publish_atomic_batch) ↔ (
      (true ≡ true)
      × (schedule_given no_schedule ≡ false)
      × (true ≡ true)
      × (true ≡ true)
      × (SendOn.newline ≡ SendOn.newline)))
    × ((schedules : Bool) (v : Schedule)
        → (publish_action times true by_lines atomic_flags
            ≡ inr (Action.publish_jetstream schedules v))
          ↔ ((true ≡ false)
              × ((false || schedules) ≡ true)
              × Scheduled times no_schedule schedules v))
    × ((publish_action times true by_lines atomic_flags ≡ inr Action.publish_nats_msg)
        ↔ ((true ≡ false) × (false ≡ false) × (schedule_given no_schedule ≡ false)))
publish_action_iff_example = publish_action_iff times true by_lines atomic_flags
