-- ===== src/Bench/FastBatch.antt =====
-- cli/bench_command.go, jsPublisher: the fast batches, whose size the library chooses. `ack i` is the
-- acknowledged sequence that adding message `i` gave, or an error, and `closed` the batch size that
-- closing gave. The latencies are a slice of one place for each message; `batch` is the next place.
pub mod Places
mod Examples
use natscli.Prelude.{ℕ, zero, suc, ◌+◌, ◌-◌, Option, none, some, ltb, if◌then◌else◌}

pub data FastResult : Type 0 where
  done : ℕ → ℕ → FastResult  -- the places that were written, and the last acknowledged sequence
  failed latency_out_of_range : FastResult

-- `latencies[batch] = …; batch++` if the acknowledged sequence has grown
acknowledge : ℕ → Option ℕ → ℕ → ℕ → FastResult
acknowledge num_msg none batch ack_seq = failed
acknowledge num_msg (some s) batch ack_seq =
    if ltb ack_seq s
    then (if ltb batch num_msg then done (batch + 1) s else latency_out_of_range)
    else done batch ack_seq

and_then : FastResult → (ℕ → ℕ → FastResult) → FastResult
and_then (done batch ack_seq) f = f batch ack_seq
and_then failed f = failed
and_then latency_out_of_range f = latency_out_of_range

-- the loop at message `i`, with the rounds left
fast_loop : (ℕ → Option ℕ) → ℕ → ℕ → ℕ → ℕ → ℕ → FastResult
unfolding acknowledge and_then
fast_loop ack num_msg i zero batch ack_seq = done batch ack_seq
fast_loop ack num_msg i (suc rounds) batch ack_seq =
    and_then (acknowledge num_msg (ack i) batch ack_seq) (fast_loop ack num_msg (i + 1) rounds)

-- TypeJSPubBatchFast: the closing one counts if its size is more than was acknowledged
unfoldable pub publish_fast : (ℕ → Option ℕ) → Option ℕ → ℕ → FastResult
unfolding fast_loop acknowledge and_then
publish_fast ack closed num_msg =
    and_then (fast_loop ack num_msg 0 num_msg 0 0) (acknowledge num_msg closed)
