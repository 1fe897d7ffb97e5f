-- ===== src/Publish/Loops.antt =====
-- cli/pub_command.go: doJetstream, publishJetstream and publishNatsMsg. Whether a message is taken, and for
-- JetStream acknowledged, is a parameter, as are the pauses; a round over the input is one of fuel.
pub mod Agreement
mod Examples
use natscli.Prelude.{
  ℕ, zero, suc, ◌+◌, Bool, true, false, not, ◌||◌, List, [], ◌∷◌, ◌++◌, inl, inr, Option, none,
  some, Text, if◌then◌else◌,
}
use natscli.Publish.Message.{Packages, Message, PubError, PubCmd, message}
use natscli.Publish.Schedule.{Schedule, Times, add_schedule_headers}
use natscli.Publish.Stdin.{Publisher, Reader}
use natscli.Publish.Atomic.{is_eof, next, unread, stop, go}

-- nc.RequestMsg with jsm.ParsePubAck, and nc.PublishMsg with nc.LastError. RequestMsg sends the subject, data
-- and header of a message with an inbox to reply to, whatever the message's own reply subject is.
pub record Network {ℓ} (H : Type ℓ) : Type ℓ where
  pub inbox : ℕ → ℕ → Text
  pub request : ℕ → ℕ → Message H → Bool
  pub publish_msg : ℕ → ℕ → Message H → Bool

-- the messages sent, and the error that is returned
abbrev pub Sent {ℓ} : Type ℓ → Type ℓ
Sent H = List (Message H) × Option PubError

module _ {ℓ} {H : Type ℓ} (p : Packages H) (times : Times) (net : Network H) (pub_of : Publisher)
    (c : PubCmd) (schedules : Bool) (s : Schedule) where
  scheduled : ℕ → Message H → Message H
  scheduled now m =
      if schedules then record m { header = add_schedule_headers p times now s m.header } else m

  -- what RequestMsg sends of a message
  requested : ℕ → ℕ → Message H → Message H
  requested now i m = record m { reply = net.inbox now i }

  sent_one : Message H → Bool → Sent H → Sent H
  sent_one m false rest = (m ∷ [], some PubError.publish_failed)
  sent_one m true (sent, err) = (m ∷ sent, err)

  -- doJetstream from counter i on, with the rounds left
  unfoldable pub do_jetstream : ℕ → Text → ℕ → ℕ → Sent H
  unfolding scheduled requested sent_one
  do_jetstream now body i zero = ([], none)
  do_jetstream now body i (suc rounds) = elim (message p now pub_of.templates c body i) [
    | inl e ↦ ([], some e)
    | inr m ↦
        sent_one (requested now i (scheduled now m)) (net.request now i (scheduled now m))
          (do_jetstream now body (i + 1) rounds)
  ]

  -- the inner loop of publishNatsMsg
  unfoldable pub do_nats : ℕ → Text → ℕ → ℕ → Sent H
  unfolding sent_one
  do_nats now body i zero = ([], none)
  do_nats now body i (suc rounds) = elim (message p now pub_of.templates c body i) [
    | inl e ↦ ([], some e)
    | inr m ↦ sent_one m (net.publish_msg now i m) (do_nats now body (i + 1) rounds)
  ]

  unfoldable pub before : List (Message H) → Option (Sent H) → Option (Sent H)
  before sent none = none
  before sent (some (rest, err)) = some (sent ++ rest, err)

  -- publishJetstream: in the newline mode an error is logged
  unfoldable pub publish_jetstream : ℕ → ℕ → Bool → Text → Reader → Option (Sent H)
  publish_jetstream zero now ended body r = none
  publish_jetstream (suc fuel) now ended body r =
      elim (next pub_of (not (is_eof pub_of.send_on)) ended body r) [
        | unread e ↦ some ([], some e)
        | stop ↦ some ([], none)
        | go text at_end pieces ↦
            let (sent, err) = do_jetstream now text 1 c.cnt in
            let rest =
              publish_jetstream fuel (now + 1) at_end text (record r { pieces = pieces }) in
            if is_eof pub_of.send_on
            then some (sent, err)
            else if at_end || not pub_of.use_stdin
            then some (sent, none)
            else before sent rest
      ]

  more_nats : Bool → Sent H → Option (Sent H) → Option (Sent H)
  more_nats done (sent, some e) rest = some (sent, some e)
  more_nats true (sent, none) rest = some (sent, none)
  more_nats false (sent, none) rest = before sent rest

  -- publishNatsMsg: an error ends it
  unfoldable pub publish_nats_msg : ℕ → ℕ → Bool → Text → Reader → Option (Sent H)
  unfolding more_nats
  publish_nats_msg zero now ended body r = none
  publish_nats_msg (suc fuel) now ended body r =
      elim (next pub_of (not (is_eof pub_of.send_on)) ended body r) [
        | unread e ↦ some ([], some e)
        | stop ↦ some ([], none)
        | go text at_end pieces ↦
            more_nats (not pub_of.use_stdin || is_eof pub_of.send_on || at_end)
              (do_nats now text 1 c.cnt)
              (publish_nats_msg fuel (now + 1) at_end text (record r { pieces = pieces }))
      ]
