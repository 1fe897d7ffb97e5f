-- ===== src/Publish/Action/Composed.antt =====
-- From the flags of an atomic batch to what is written.
use natscli.Prelude.{ℕ, ◌<◌, Bool, true, false, [], inr, some, ◌≡◌, ◌∙◌, arith, length}
use natscli.Publish.Message.{Packages, PubCmd}
use natscli.Publish.Schedule.{Times}
use natscli.Publish.Stdin.{Reader, use_stdin_of}
use natscli.Publish.Stdin.Lines.{lines_of}
use natscli.Publish.Atomic.{Server, publish_atomic_batch, write_atomic}
use natscli.Publish.Atomic.Pending.{messages_of, publish_atomic_batch_lem}
use natscli.Publish.Action.{Flags, Action, publisher_of, publish_action}
use natscli.Publish.Action.Choice.{publish_action_iff}

body_not_set :
    (stdin_terminal terminal : Bool) (fl : Flags)
    → (publisher_of stdin_terminal terminal fl).use_stdin ≡ true
    → fl.body_is_set ≡ false
unfolding publisher_of use_stdin_of
body_not_set stdin_terminal terminal fl h = ground arith

-- Where the flags choose an atomic batch, the command has a body exactly if the flags do, the input does
-- not fail and there is a round more than there
-- are pieces of lines, the loop ends, and what it writes as a batch is the messages of each line of the
-- input, in order: for each counter from 1 to --count the message built from the line, the messages of
-- a line up to the first whose headers are not accepted.
pub publish_atomic_batch_messages {ℓ} :
    {H : Type ℓ} (p : Packages H) (times : Times) (level stdin_terminal terminal : Bool)
    (fl : Flags) (c : PubCmd) (srv : Server H) (fuel : ℕ) (r : Reader)
    → c.body_is_set ≡ fl.body_is_set
    → publish_action times level (publisher_of stdin_terminal terminal fl) fl
      ≡ inr Action.publish_atomic_batch
    → r.broken ≡ false
    → length r.pieces < fuel
    → publish_atomic_batch p (publisher_of stdin_terminal terminal fl) c srv fuel r
      ≡ some (write_atomic srv c (messages_of p fl.templates c 0 (lines_of [] r.pieces)))
unfolding publisher_of
publish_atomic_batch_messages p times level stdin_terminal terminal fl c srv fuel r same h ok
      enough =
    let pub_of = publisher_of stdin_terminal terminal fl in
    let (a, g, l, u, n) = (publish_action_iff times level pub_of fl).0.0 h in
    publish_atomic_batch_lem p pub_of c srv fuel r
      (same ∙ body_not_set stdin_terminal terminal fl u) (u, n, ok) enough
