-- ===== src/Bench/Batches.antt =====
-- cli/bench_command.go, jsPublisher: the messages of one client, published in atomic batches, one
-- by one, or in asynchronous batches. `ok n` tells whether publishing message `n` succeeds (for an
-- asynchronous batch, `acked n` whether its acknowledgement does); the message's number is the one
-- in its subject and its de-duplication header. Pauses and latencies' values are not modelled.
pub mod Flat
mod Examples
use natscli.Prelude.{
  ℕ, zero, suc, ◌+◌, ◌-◌, ◌/◌, min, Bool, true, false, ◌&&◌, List, [], ◌∷◌, ◌++◌, ltb, ◌==◌,
  if◌then◌else◌, length,
}

pub record Sent : Type 0 where
  pub number : ℕ
  pub sequence : ℕ  -- the header Nats-Batch-Sequence
  pub commit : Bool  -- the header Nats-Batch-Commit

-- What was sent, and how the loop ended.
pub data Ending : Type 0 where
  finished failed latency_out_of_range out_of_fuel : Ending

abbrev pub Run : Type 0
Run = List Sent × Ending

pub prepend : List Sent → Run → Run
prepend sent (rest, ending) = (sent ++ rest, ending)

-- `int(math.Ceil(numMsg / batchSize))`, the length of the slice of latencies
unfoldable pub batch_count : ℕ → ℕ → ℕ
batch_count num_msg batch_size = (num_msg + (batch_size - 1)) / batch_size

module _ (ok : ℕ → Bool) (offset : ℕ) where
  -- the inner loop of an atomic batch at `j`, with the rounds left: what is sent, and whether all
  -- went well
  atomic_batch : ℕ → ℕ → ℕ → ℕ → List Sent × Bool
  atomic_batch i msgs j zero = ([], true)
  atomic_batch i msgs j (suc rounds) =
      let n = i + j + offset in
      let m : Sent = record { number = n; sequence = j + 1; commit = j + 1 == msgs } in
      let (rest, success) = atomic_batch i msgs (j + 1) rounds in
      if ok n then (m ∷ rest, success) else (m ∷ [], false)

  -- the outer loop: `latencies[batch]` is written behind each batch
  atomic_loop : ℕ → ℕ → ℕ → ℕ → ℕ → Run
  unfolding atomic_batch prepend
  atomic_loop num_msg batch_size zero i batch = ([], out_of_fuel)
  atomic_loop num_msg batch_size (suc fuel) i batch =
      let msgs = min batch_size (num_msg - i) in
      let (sent, success) = atomic_batch i msgs 0 msgs in
      let next = prepend sent (atomic_loop num_msg batch_size fuel (i + msgs) (batch + 1)) in
      if ltb i num_msg
      then (if success
          then (if ltb batch (batch_count num_msg batch_size)
              then next
              else (sent, latency_out_of_range))
          else (sent, failed))
      else ([], finished)

  -- TypeJSPubBatchAtomic
  unfoldable pub publish_atomic : ℕ → ℕ → Run
  unfolding atomic_loop
  publish_atomic num_msg batch_size = atomic_loop num_msg batch_size (num_msg + 1) 0 0

  -- TypeJSPubSync: one message at a time, `latencies[i]` being written behind each
  sync_loop : ℕ → ℕ → List ℕ × Ending
  sync_loop i zero = ([], finished)
  sync_loop i (suc rounds) =
      let n = i + offset in
      let (rest, ending) = sync_loop (i + 1) rounds in
      if ok n then (n ∷ rest, ending) else (n ∷ [], failed)

  unfoldable pub publish_sync : ℕ → List ℕ × Ending
  unfolding sync_loop
  publish_sync num_msg = sync_loop 0 num_msg

module _ (ok acked : ℕ → Bool) (offset : ℕ) where
  -- the messages of an asynchronous batch: `i+j < numMsg` ends the last one
  async_batch : ℕ → ℕ → ℕ → List ℕ × Bool
  async_batch i j zero = ([], true)
  async_batch i j (suc rounds) =
      let n = i + j + offset in
      let (rest, success) = async_batch i (j + 1) rounds in
      if ok n then (n ∷ rest, success) else (n ∷ [], false)

  -- the acknowledgements: `i` advances by one for each
  await_acks : List ℕ → Bool
  await_acks [] = true
  await_acks (n ∷ ns) = acked n && await_acks ns

  async_loop : ℕ → ℕ → ℕ → ℕ → List ℕ × Ending
  unfolding async_batch await_acks
  async_loop num_msg batch_size zero i = ([], out_of_fuel)
  async_loop num_msg batch_size (suc fuel) i =
      let (sent, success) = async_batch i 0 (min batch_size (num_msg - i)) in
      let (rest, ending) = async_loop num_msg batch_size fuel (i + length sent) in
      if ltb i num_msg
      then (if success && await_acks sent then (sent ++ rest, ending) else (sent, failed))
      else ([], finished)

  -- TypeJSPubAsync
  unfoldable pub publish_async : ℕ → ℕ → List ℕ × Ending
  unfolding async_loop
  publish_async num_msg batch_size = async_loop num_msg batch_size (num_msg + 1) 0
