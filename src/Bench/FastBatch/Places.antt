-- ===== src/Bench/FastBatch/Places.antt =====
-- The places of the latencies are enough.
use natscli.Prelude.{
  ℕ, zero, suc, ◌+◌, ◌≤◌, ◌<◌, inl, inr, Option, none, some, ◌≡◌, arith, ltb, ltb→lt, lt→ltb,
  Bool-cases,
}
use natscli.Bench.FastBatch.{
  FastResult, done, failed, latency_out_of_range, acknowledge, and_then, fast_loop, publish_fast,
}

-- A sequence is at most what was sent.
abbrev pub AtMost : ℕ → Option ℕ → Type 0
AtMost n none = 0 ≤ n
AtMost n (some s) = s ≤ n

-- The result is an error of the library, or at most `n` was acknowledged, in no more places than that.
abbrev pub Placed : ℕ → FastResult → Type 0
Placed n (done batch ack_seq) = (batch ≤ ack_seq) × (ack_seq ≤ n)
Placed n failed = 0 ≤ n
Placed n latency_out_of_range = n < 0

acknowledge-Placed :
    (num_msg : ℕ) (ack : Option ℕ) (batch ack_seq i n : ℕ)
    → batch ≤ ack_seq
    → ack_seq ≤ i
    → i ≤ n
    → n ≤ num_msg
    → AtMost n ack
    → Placed n (acknowledge num_msg ack batch ack_seq)
unfolding acknowledge
acknowledge-Placed num_msg none batch ack_seq i n h k l m a = omega arith
acknowledge-Placed num_msg (some s) batch ack_seq i n h k l m a =
    elim (Bool-cases (ltb ack_seq s)) [
      | inl more ↦
          let lt = ltb→lt _ _ more in
          rw (more, lt→ltb batch num_msg (omega arith)) (omega arith, omega arith)
      | inr same ↦ rw same (omega arith, omega arith)
    ]

and_then-Placed :
    (n m : ℕ) (r : FastResult) (f : ℕ → ℕ → FastResult)
    → Placed n r
    → ((batch ack_seq : ℕ) → batch ≤ ack_seq → ack_seq ≤ n → Placed m (f batch ack_seq))
    → Placed m (and_then r f)
unfolding and_then
and_then-Placed n m (done batch ack_seq) f h k = k batch ack_seq h.0 h.1
and_then-Placed n m failed f h k = omega arith
and_then-Placed n m latency_out_of_range f h k = absurd (omega arith)

fast_loop-Placed :
    (ack : ℕ → Option ℕ) (num_msg i rounds batch ack_seq : ℕ)
    → ((j : ℕ) → AtMost (j + 1) (ack j))
    → i + rounds ≡ num_msg
    → batch ≤ ack_seq
    → ack_seq ≤ i
    → Placed num_msg (fast_loop ack num_msg i rounds batch ack_seq)
unfolding fast_loop
fast_loop-Placed ack num_msg i zero batch ack_seq known e h k = (omega arith, omega arith)
fast_loop-Placed ack num_msg i (suc rounds) batch ack_seq known e h k =
    and_then-Placed (i + 1) num_msg (acknowledge num_msg (ack i) batch ack_seq)
      (fast_loop ack num_msg (i + 1) rounds)
      (acknowledge-Placed num_msg (ack i) batch ack_seq i (i + 1) h k (omega arith) (omega arith)
        (known i))
      (λ b s hb hs. fast_loop-Placed ack num_msg (i + 1) rounds b s known (omega arith) hb hs)

-- If the library acknowledges no message before it was added, and closes with no more messages than
-- were added, publishing in fast batches never writes a latency out of range: it fails with the
-- library, or has no more latencies than acknowledged messages, which are no more than there are.
pub publish_fast-Placed :
    (ack : ℕ → Option ℕ) (closed : Option ℕ) (num_msg : ℕ)
    → ((j : ℕ) → AtMost (j + 1) (ack j))
    → AtMost num_msg closed
    → Placed num_msg (publish_fast ack closed num_msg)
unfolding publish_fast
publish_fast-Placed ack closed num_msg known last =
    and_then-Placed num_msg num_msg (fast_loop ack num_msg 0 num_msg 0 0)
      (acknowledge num_msg closed)
      (fast_loop-Placed ack num_msg 0 num_msg 0 0 known (omega arith) (omega arith) (omega arith))
      (λ b s hb hs.
        acknowledge-Placed num_msg closed b s num_msg num_msg hb hs (omega arith) (omega arith)
          last)
