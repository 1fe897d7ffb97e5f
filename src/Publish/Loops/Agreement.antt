-- ===== src/Publish/Loops/Agreement.antt =====
-- What the loops over standard input send.
use natscli.Prelude.{
  ℕ, zero, suc, ◌+◌, ◌<◌, Bool, true, false, List, [], ◌∷◌, ◌++◌, append-nil, map, inr, none, some,
  ◌≡◌, refl, sym, ap, ◌∙◌, arith, Text, if◌then◌else◌, length,
}
use natscli.Publish.Message.{Packages, Message, PubCmd, message}
use natscli.Publish.Schedule.{Schedule, Times}
use natscli.Publish.Stdin.{SendOn, Publisher, Reader}
use natscli.Publish.Stdin.Lines.{lines_of}
use natscli.Publish.Atomic.{is_eof, next, stop, go}
use natscli.Publish.Atomic.Rounds.{IsLineReader, starts, stops, finishes, goes}
use natscli.Publish.Atomic.Pending.{counters, line_messages, messages_of, leading}
use natscli.Publish.Loops.{
  Network, more_nats, scheduled, requested, sent_one, do_jetstream, do_nats, before,
  publish_jetstream, publish_nats_msg,
}

module _ {ℓ} {H : Type ℓ} (p : Packages H) (times : Times) (net : Network H) (pub_of : Publisher)
    (c : PubCmd) (schedules : Bool) (s : Schedule) where
  -- What doJetstream sends of each line, in order.
  abbrev pub sent_of : ℕ → List Text → List (Message H)
  sent_of now [] = []
  sent_of now (t ∷ ts) =
      (do_jetstream p times net pub_of c schedules s now t 1 c.cnt).0 ++ sent_of (now + 1) ts

  jetstream_stop :
      (fuel now : ℕ) (body : Text) (r : Reader)
      → pub_of.send_on ≡ SendOn.newline
      → next pub_of true false body r ≡ stop
      → publish_jetstream p times net pub_of c schedules s (suc fuel) now false body r
        ≡ some ([], none)
  unfolding publish_jetstream is_eof
  jetstream_stop fuel now body r n e = ground arith

  jetstream_go :
      (fuel now : ℕ) (body t : Text) (done : Bool) (rest : List (Text × Bool)) (r : Reader)
      → pub_of.use_stdin ≡ true
      → pub_of.send_on ≡ SendOn.newline
      → next pub_of true false body r ≡ go t done rest
      → publish_jetstream p times net pub_of c schedules s (suc fuel) now false body r ≡ (
          if done
          then some ((do_jetstream p times net pub_of c schedules s now t 1 c.cnt).0, none)
          else before p times net pub_of c schedules s
              (do_jetstream p times net pub_of c schedules s now t 1 c.cnt).0
              (publish_jetstream p times net pub_of c schedules s fuel
                (now + 1)
                done
                t
                (record r { pieces = rest })))
  unfolding publish_jetstream is_eof
  jetstream_go fuel now body t done rest r u n e = ground arith

  -- With --jetstream and --send-on=newline, if the publisher reads lines from its standard input, no
  -- read fails and there is a round more than there are pieces of lines, the loop ends without an
  -- error, whatever the network answers: each line sends its messages, whether or not one of a line
  -- before it failed.
  pub publish_jetstream_lines :
      (fuel now : ℕ) (body : Text) (r : Reader)
      → IsLineReader pub_of r
      → length r.pieces < fuel
      → publish_jetstream p times net pub_of c schedules s fuel now false body r
        ≡ some (sent_of now (lines_of [] r.pieces), none)
  unfolding before
  publish_jetstream_lines zero now body r k h = absurd (omega arith)
  publish_jetstream_lines (suc fuel) now body r (u, n, b) h =
      elim (starts pub_of body r (u, n, b)) [
        | stops e l ↦ rw l (jetstream_stop fuel now body r n e)
        | finishes t e l ↦ rw l (
            jetstream_go fuel now body t true [] r u n e
            ∙ rw (append-nil (do_jetstream p times net pub_of c schedules s now t 1 c.cnt).0) refl)
        | goes t rest e l less ↦ rw l (
            jetstream_go fuel now body t false rest r u n e
            ∙ rw
                (publish_jetstream_lines fuel (now + 1) t (record r { pieces = rest }) (u, n, b)
                  (omega arith))
                refl)
      ]

  abbrev AllBuilt : Type ℓ
  AllBuilt =
      (now : ℕ) (t : Text) (i : ℕ)
      → (m : Message H) × (message p now pub_of.templates c t i ≡ inr m)

  do_nats_ok :
      (now i n : ℕ) (t : Text)
      → AllBuilt
      → ((now i : ℕ) (m : Message H) → net.publish_msg now i m ≡ true)
      → do_nats p times net pub_of c schedules s now t i n
        ≡ (leading (map (message p now pub_of.templates c t) (counters i n)), none)
  unfolding do_nats sent_one map
  do_nats_ok now i zero t built taken = refl
  do_nats_ok now i (suc n) t built taken =
      let (m, e) = built now t i in
      let sent = taken now i m in let rest = do_nats_ok now (i + 1) n t built taken in ground arith

  -- messages without what their replies go to
  abbrev pub without_reply : List (Message H) → List (Message H)
  without_reply [] = []
  without_reply (m ∷ ms) = record m { reply = [] } ∷ without_reply ms

  without_reply-append :
      (xs ys : List (Message H)) → without_reply (xs ++ ys) ≡ without_reply xs ++ without_reply ys
  without_reply-append [] ys = refl
  without_reply-append (m ∷ xs) ys =
      ap (λ ms. record m { reply = [] } ∷ ms) (without_reply-append xs ys)

  do_jetstream_ok :
      (now i n : ℕ) (t : Text)
      → schedules ≡ false
      → AllBuilt
      → ((now i : ℕ) (m : Message H) → net.request now i m ≡ true)
      → without_reply (do_jetstream p times net pub_of c schedules s now t i n).0
        ≡ without_reply (leading (map (message p now pub_of.templates c t) (counters i n)))
  unfolding do_jetstream sent_one scheduled requested map
  do_jetstream_ok now i zero t plain built taken = refl
  do_jetstream_ok now i (suc n) t plain built taken =
      let (m, e) = built now t i in
      let sent = taken now i m in
      let rest = do_jetstream_ok now (i + 1) n t plain built taken in
      let step : (do_jetstream p times net pub_of c schedules s now t i (suc n)).0
          ≡ record m { reply = net.inbox now i }
            ∷ (do_jetstream p times net pub_of c schedules s now t (i + 1) n).0 =
        ground arith in
      let built_first : leading (map (message p now pub_of.templates c t) (counters i (suc n)))
          ≡ m ∷ leading (map (message p now pub_of.templates c t) (counters (i + 1) n)) =
        ground arith in
      ap without_reply step
      ∙ (ap (λ ms. record m { reply = [] } ∷ ms) rest ∙ sym (ap without_reply built_first))

  sent_of_ok :
      (now : ℕ) (ts : List Text)
      → schedules ≡ false
      → AllBuilt
      → ((now i : ℕ) (m : Message H) → net.request now i m ≡ true)
      → without_reply (sent_of now ts) ≡ without_reply (messages_of p pub_of.templates c now ts)
  sent_of_ok now [] plain built taken = refl
  sent_of_ok now (t ∷ ts) plain built taken =
      without_reply-append (do_jetstream p times net pub_of c schedules s now t 1 c.cnt).0
        (sent_of (now + 1) ts)
      ∙ (rw
          (
            do_jetstream_ok now 1 c.cnt t plain built taken,
            sent_of_ok (now + 1) ts plain built taken,
          )
          (sym (
            without_reply-append (line_messages p pub_of.templates c now t)
              (messages_of p pub_of.templates c (now + 1) ts))))

  nats_stop :
      (fuel now : ℕ) (body : Text) (r : Reader)
      → pub_of.send_on ≡ SendOn.newline
      → next pub_of true false body r ≡ stop
      → publish_nats_msg p times net pub_of c schedules s (suc fuel) now false body r
        ≡ some ([], none)
  unfolding publish_nats_msg is_eof
  nats_stop fuel now body r n e = ground arith

  nats_go :
      (fuel now : ℕ) (body t : Text) (done : Bool) (rest : List (Text × Bool)) (r : Reader)
      → pub_of.use_stdin ≡ true
      → pub_of.send_on ≡ SendOn.newline
      → next pub_of true false body r ≡ go t done rest
      → publish_nats_msg p times net pub_of c schedules s (suc fuel) now false body r
        ≡ more_nats p times net pub_of c schedules s done
            (do_nats p times net pub_of c schedules s now t 1 c.cnt)
            (publish_nats_msg p times net pub_of c schedules s fuel
              (now + 1)
              done
              t
              (record r { pieces = rest }))
  unfolding publish_nats_msg is_eof
  nats_go fuel now body t done rest r u n e = ground arith

  publish_nats_msg_lines :
      (fuel now : ℕ) (body : Text) (r : Reader)
      → IsLineReader pub_of r
      → length r.pieces < fuel
      → AllBuilt
      → ((now i : ℕ) (m : Message H) → net.publish_msg now i m ≡ true)
      → publish_nats_msg p times net pub_of c schedules s fuel now false body r
        ≡ some (messages_of p pub_of.templates c now (lines_of [] r.pieces), none)
  unfolding before more_nats
  publish_nats_msg_lines zero now body r k h built taken = absurd (omega arith)
  publish_nats_msg_lines (suc fuel) now body r (u, n, b) h built taken =
      let sent = λ (t : Text). do_nats_ok now 1 c.cnt t built taken in
      elim (starts pub_of body r (u, n, b)) [
        | stops e l ↦ rw l (nats_stop fuel now body r n e)
        | finishes t e l ↦ rw l (
            nats_go fuel now body t true [] r u n e
            ∙ rw (sent t) (rw (append-nil (line_messages p pub_of.templates c now t)) refl))
        | goes t rest e l less ↦ rw l (
            nats_go fuel now body t false rest r u n e
            ∙ rw
                (
                  sent t,
                  publish_nats_msg_lines fuel (now + 1) t (record r { pieces = rest }) (u, n, b)
                      (omega arith) built taken,
                )
                refl)
      ]

  -- If lines are read from standard input, no read fails, every message can be built, the network takes
  -- every message and there are no schedules, then publishing without JetStream sends the messages of each
  -- line, in order, and publishing to JetStream sends the same but for the subject of
  -- their replies; both end without an error.
  pub publish_agree :
      (fuel : ℕ) (body : Text) (r : Reader)
      → IsLineReader pub_of r
      → length r.pieces < fuel
      → schedules ≡ false
      → AllBuilt
      → ((now i : ℕ) (m : Message H) → net.publish_msg now i m ≡ true)
      → ((now i : ℕ) (m : Message H) → net.request now i m ≡ true)
      → (publish_nats_msg p times net pub_of c schedules s fuel 0 false body r
          ≡ some (messages_of p pub_of.templates c 0 (lines_of [] r.pieces), none))
        × ((sent : List (Message H)) × (publish_jetstream p times net pub_of c schedules s fuel 0
                false body r
              ≡ some (sent, none))
            × (without_reply sent
                ≡ without_reply (messages_of p pub_of.templates c 0 (lines_of [] r.pieces))))
  publish_agree fuel body r k h plain built taken answered = (
    publish_nats_msg_lines fuel 0 body r k h built taken,
    (
      sent_of 0 (lines_of [] r.pieces),
      publish_jetstream_lines fuel 0 body r k h,
      sent_of_ok 0 (lines_of [] r.pieces) plain built answered,
    ),
  )
