-- ===== src/Bench/Loops/Complete.antt =====
-- What the loops over a client's messages send, and when they finish.
use natscli.Prelude.{
  ℕ, zero, suc, ◌+◌, Bool, true, false, List, [], ◌∷◌, ◌++◌, ◌⊎◌, inl, inr, Option, none, some, ◌≡◌,
  refl, ap, arith, Text, if◌then◌else◌, all, All,
}
use natscli.Bench.Loops.{
  Loop, LoopEnd, finished, failed, bad_reply, core_loop, core_nats_publisher, is_good_reply,
  answered, request_loop, core_nats_requester, put_loop, kv_putter,
}

-- The numbers of `rounds` messages from `n` on.
abbrev pub numbers : ℕ → ℕ → List ℕ
numbers n zero = []
numbers n (suc rounds) = n ∷ numbers (n + 1) rounds

-- All messages are good, each was sent in order, and the loop finished; or the loop ended with the
-- first that is not, and with its error.
abbrev pub Complete : (ℕ → Type 0) → (ℕ → LoopEnd → Type 0) → List ℕ → Loop → Type 0
Complete Good Bad ns r =
    ((r.1 ≡ finished) × (r.0 ≡ ns) × All Good ns)
    ⊎ ((sent : List ℕ) × (n : ℕ) × (later : List ℕ) × Bad n (r.1)
        × (r.0 ≡ sent ++ n ∷ [])
        × (ns ≡ sent ++ n ∷ later)
        × All Good sent)

module _ (Good : ℕ → Type 0) (Bad : ℕ → LoopEnd → Type 0) where
  more-Complete :
      (n : ℕ) (ns : List ℕ) (next : Loop)
      → Good n
      → Complete Good Bad ns next
      → Complete Good Bad (n ∷ ns) (n ∷ next.0, next.1)
  more-Complete n ns next good (inl (e, sent, all)) = inl (e, ap (λ l. n ∷ l) sent, (good, all))
  more-Complete n ns next good (inr (sent, m, later, bad, e, f, all)) =
      inr (n ∷ sent, m, later, bad, ap (λ l. n ∷ l) e, ap (λ l. n ∷ l) f, (good, all))

  stop-Complete :
      (n : ℕ) (ns : List ℕ) (err : LoopEnd) → Bad n err → Complete Good Bad (n ∷ ns) (n ∷ [], err)
  stop-Complete n ns err bad = inr ([], n, ns, bad, refl, refl, tt)

-- publishing and putting: a message fails or it does not
abbrev pub Fails : (ℕ → Bool) → ℕ → LoopEnd → Type 0
Fails ok n e = (ok n ≡ false) × (e ≡ failed)

-- requesting: a reply that does not come, or that is not good
abbrev pub Answered : (ℕ → Option Text) → ℕ → Type 0
Answered reply n = (body : Text) × (reply n ≡ some body) × (is_good_reply body ≡ true)

abbrev pub Refused : (ℕ → Option Text) → ℕ → LoopEnd → Type 0
Refused reply n e =
    ((reply n ≡ none) × (e ≡ failed))
    ⊎ ((body : Text) × (reply n ≡ some body) × (is_good_reply body ≡ false) × (e ≡ bad_reply))

one-Complete :
    (ok : ℕ → Bool) (n : ℕ) (ns : List ℕ) (next : Loop) (b : Bool)
    → ok n ≡ b
    → Complete (λ n. ok n ≡ true) (Fails ok) ns next
    → Complete
        (λ n. ok n ≡ true)
        (Fails ok)
        (n ∷ ns)
        (if b then (n ∷ next.0, next.1) else (n ∷ [], failed))
one-Complete ok n ns next true e h = more-Complete (λ n. ok n ≡ true) (Fails ok) n ns next e h
one-Complete ok n ns next false e h =
    stop-Complete (λ n. ok n ≡ true) (Fails ok) n ns failed (e, refl)

reply-Complete :
    (reply : ℕ → Option Text) (n : ℕ) (ns : List ℕ) (next : Loop) (body : Text) (b : Bool)
    → reply n ≡ some body
    → is_good_reply body ≡ b
    → Complete (Answered reply) (Refused reply) ns next
    → Complete
        (Answered reply)
        (Refused reply)
        (n ∷ ns)
        (if b then (n ∷ next.0, next.1) else (n ∷ [], bad_reply))
reply-Complete reply n ns next body true e g h =
    more-Complete (Answered reply) (Refused reply) n ns next (body, e, g) h
reply-Complete reply n ns next body false e g h =
    stop-Complete (Answered reply) (Refused reply) n ns bad_reply (inr (body, e, g, refl))

answered-Complete :
    (reply : ℕ → Option Text) (n : ℕ) (ns : List ℕ) (o : Option Text) (next : Loop)
    → reply n ≡ o
    → Complete (Answered reply) (Refused reply) ns next
    → Complete (Answered reply) (Refused reply) (n ∷ ns) (answered n o next)
unfolding answered
answered-Complete reply n ns none next e h =
    stop-Complete (Answered reply) (Refused reply) n ns failed (inl (e, refl))
answered-Complete reply n ns (some body) next e h =
    reply-Complete reply n ns next body (is_good_reply body) e refl h

shift : (i offset : ℕ) → i + 1 + offset ≡ i + offset + 1
shift i offset = omega arith

put_shift : (i offset : ℕ) → offset + (i + 1) ≡ offset + i + 1
put_shift i offset = omega arith

zero_offset : (offset : ℕ) → 0 + offset ≡ offset
zero_offset offset = omega arith

offset_zero : (offset : ℕ) → offset + 0 ≡ offset
offset_zero offset = omega arith

core_loop-Complete :
    (ok : ℕ → Bool) (offset i rounds : ℕ)
    → Complete
        (λ n. ok n ≡ true)
        (Fails ok)
        (numbers (i + offset) rounds)
        (core_loop ok offset i rounds)
unfolding core_loop
core_loop-Complete ok offset i zero = inl (refl, refl, tt)
core_loop-Complete ok offset i (suc rounds) =
    one-Complete ok (i + offset) (numbers (i + offset + 1) rounds)
      (core_loop ok offset (i + 1) rounds) (ok (i + offset)) refl
      (rw (shift i offset) at (core_loop-Complete ok offset (i + 1) rounds))

request_loop-Complete :
    (reply : ℕ → Option Text) (offset i rounds : ℕ)
    → Complete
        (Answered reply)
        (Refused reply)
        (numbers (i + offset) rounds)
        (request_loop reply offset i rounds)
unfolding request_loop
request_loop-Complete reply offset i zero = inl (refl, refl, tt)
request_loop-Complete reply offset i (suc rounds) =
    answered-Complete reply (i + offset) (numbers (i + offset + 1) rounds) (reply (i + offset))
      (request_loop reply offset (i + 1) rounds) refl
      (rw (shift i offset) at (request_loop-Complete reply offset (i + 1) rounds))

put_loop-Complete :
    (ok : ℕ → Bool) (random : ℕ → ℕ) (offset i rounds : ℕ)
    → Complete
        (λ n. ok n ≡ true)
        (Fails ok)
        (numbers (offset + i) rounds)
        (put_loop ok 0 random offset i rounds)
unfolding put_loop
put_loop-Complete ok random offset i zero = inl (refl, refl, tt)
put_loop-Complete ok random offset i (suc rounds) =
    one-Complete ok (offset + i) (numbers (offset + i + 1) rounds)
      (put_loop ok 0 random offset (i + 1) rounds) (ok (offset + i)) refl
      (rw (put_shift i offset) at (put_loop-Complete ok random offset (i + 1) rounds))

-- A client that publishes sends the messages from its offset on, in order: all of its share if each is
-- published, and else up to the first that is not, which is the error it ends with.
core_nats_publisher-Complete :
    (ok : ℕ → Bool) (num_msg offset : ℕ)
    → Complete
        (λ n. ok n ≡ true)
        (Fails ok)
        (numbers offset num_msg)
        (core_nats_publisher ok num_msg offset)
unfolding core_nats_publisher
core_nats_publisher-Complete ok num_msg offset =
    rw (zero_offset offset) at (core_loop-Complete ok offset 0 num_msg)

-- A client that requests sends the requests from its offset on, in order: all of its share if each has
-- a good reply, and else up to the first that has none, which fails, or a bad one, which ends it.
core_nats_requester-Complete :
    (reply : ℕ → Option Text) (num_msg offset : ℕ)
    → Complete
        (Answered reply)
        (Refused reply)
        (numbers offset num_msg)
        (core_nats_requester reply num_msg offset)
unfolding core_nats_requester
core_nats_requester-Complete reply num_msg offset =
    rw (zero_offset offset) at (request_loop-Complete reply offset 0 num_msg)

-- Without --randomize, a client that puts values uses the keys from its offset on, in order: all of its
-- share if each is put, and else up to the first that is not, which is the error it ends with.
kv_putter-Complete :
    (ok : ℕ → Bool) (random : ℕ → ℕ) (num_msg offset : ℕ)
    → Complete
        (λ n. ok n ≡ true)
        (Fails ok)
        (numbers offset num_msg)
        (kv_putter ok 0 random num_msg offset)
unfolding kv_putter
kv_putter-Complete ok random num_msg offset =
    rw (offset_zero offset) at (put_loop-Complete ok random offset 0 num_msg)

-- The loops of a client that publishes, requests or, without --randomize, puts values go through its share
-- of the messages, in order: all of it if each is published, has a good reply or is put, and else up to
-- the first that is not; the error they end with is that one's.
pub loops-Complete :
    (ok : ℕ → Bool) (reply : ℕ → Option Text) (random : ℕ → ℕ) (num_msg offset : ℕ)
    → Complete
        (λ n. ok n ≡ true)
        (Fails ok)
        (numbers offset num_msg)
        (core_nats_publisher ok num_msg offset)
      × Complete
          (Answered reply)
          (Refused reply)
          (numbers offset num_msg)
          (core_nats_requester reply num_msg offset)
      × Complete
          (λ n. ok n ≡ true)
          (Fails ok)
          (numbers offset num_msg)
          (kv_putter ok 0 random num_msg offset)
loops-Complete ok reply random num_msg offset = (
  core_nats_publisher-Complete ok num_msg offset,
  core_nats_requester-Complete reply num_msg offset,
  kv_putter-Complete ok random num_msg offset,
)
