-- ===== src/Bench/Loops/Examples.antt =====
-- Three messages from number 10 on, of which the last one fails.
use natscli.Prelude.{
  ℕ, Bool, true, [], ◌∷◌, Option, some, ◌≡◌, refl, Text, codes, str_eq, has_prefix, ltb,
  if◌then◌else◌,
}
use natscli.Bench.Loops.{
  bad_reply, core_nats_publisher, core_nats_requester, kv_putter, is_good_reply, contains,
}
use natscli.Bench.Loops.Complete.{numbers, Complete, Fails, Answered, Refused, loops-Complete}

abbrev before_12 : ℕ → Bool
before_12 n = ltb n 12

abbrev reply : ℕ → Option Text
reply n = if ltb n 12 then some (codes "+OK") else some (codes "-ERR")

two_good : core_nats_requester reply 3 10 ≡ (10 ∷ 11 ∷ 12 ∷ [], bad_reply)
unfolding core_nats_requester is_good_reply contains has_prefix str_eq
two_good = refl

loops-Complete_example :
    Complete
      (λ n. before_12 n ≡ true)
      (Fails before_12)
      (numbers 10 3)
      (core_nats_publisher before_12 3 10)
    × Complete (Answered reply) (Refused reply) (numbers 10 3) (core_nats_requester reply 3 10)
    × Complete
        (λ n. before_12 n ≡ true)
        (Fails before_12)
        (numbers 10 3)
        (kv_putter before_12 0 (λ i. i) 3 10)
loops-Complete_example = loops-Complete before_12 reply (λ i. i) 3 10
