-- ===== src/Publish/Loops/Examples.antt =====
-- Two lines of input, published by either loop.
use natscli.Prelude.{ℕ, true, false, List, [], ◌∷◌, inr, none, some, ◌≡◌, refl, arith, Text, codes}
use natscli.Publish.Samples.{Pairs, packages, command, lines, by_lines, network, times, no_schedule}
use natscli.Publish.Message.{Message, PubCmd, message, prepare_msg, parse_strings_to_header}
use natscli.Publish.Stdin.Lines.{lines_of}
use natscli.Publish.Atomic.Pending.{messages_of}
use natscli.Publish.Loops.{publish_jetstream, publish_nats_msg}
use natscli.Publish.Loops.Agreement.{sent_of, without_reply, publish_jetstream_lines, publish_agree}

abbrev bare : PubCmd
bare = record command { hdrs = [] }

two_lines : lines_of [] lines.pieces ≡ codes "ab" ∷ codes "c" ∷ []
unfolding lines_of
two_lines = refl

built :
    (now : ℕ) (t : Text) (i : ℕ)
    → (m : Message Pairs) × (message packages now true bare t i ≡ inr m)
unfolding message prepare_msg parse_strings_to_header
built now t i = (_, refl)

by_lines_run :
    publish_jetstream packages times network by_lines command false no_schedule 4 0 false [] lines
    ≡ some (
      sent_of packages times network by_lines command false no_schedule 0
          (lines_of [] lines.pieces),
      none,
    )
by_lines_run =
    publish_jetstream_lines packages times network by_lines command false no_schedule 4 0 [] lines
      (refl, refl, refl) (omega arith)

publish_agree_example :
    (publish_nats_msg packages times network by_lines bare false no_schedule 4 0 false [] lines
      ≡ some (messages_of packages true bare 0 (lines_of [] lines.pieces), none))
    × ((sent : List (Message Pairs)) × (publish_jetstream packages times network by_lines bare false
            no_schedule 4 0 false [] lines
          ≡ some (sent, none))
        × (without_reply packages times network by_lines bare false no_schedule sent
            ≡ without_reply packages times network by_lines bare false no_schedule
                (messages_of packages true bare 0 (lines_of [] lines.pieces))))
publish_agree_example =
    publish_agree packages times network by_lines bare false no_schedule 4 [] lines
      (refl, refl, refl) (omega arith) refl built (λ now i m. refl) (λ now i m. refl)
