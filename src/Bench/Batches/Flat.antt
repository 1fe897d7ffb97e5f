-- ===== src/Bench/Batches/Flat.antt =====
-- The loops over batches, against the messages in one row.
use natscli.Prelude.{
  ℕ, zero, suc, ◌+◌, ◌-◌, ◌*◌, ◌%◌, ◌≤◌, ◌<◌, min, Bool, true, false, ◌||◌, List, [], ◌∷◌, inl, inr,
  ◌≡◌, refl, sym, ap, ◌∙◌, arith, ltb, ◌==◌, if◌then◌else◌, ltb→lt, lt→ltb, ltb_false→le,
  Bool-cases,
}
use native.Mathlib.Nat.{mul-add-mod_self_right, mod-eq_of_lt, le-div_iff_mul-le}
use natscli.Bench.Batches.{
  Sent, finished, failed, Run, prepend, batch_count, atomic_batch, atomic_loop, publish_atomic,
}

-- Message `k` of a run of `num_msg` messages in batches of `batch_size`.
abbrev pub planned : ℕ → ℕ → ℕ → ℕ → Sent
planned offset num_msg batch_size k = record {
  number = k + offset;
  sequence = k % batch_size + 1;
  commit = (k % batch_size + 1 == batch_size) || (k + 1 == num_msg);
}

-- Publishing one message after the other until one fails: messages `k`, `k + 1`, …
pub in_a_row : (ℕ → Bool) → ℕ → ℕ → ℕ → ℕ → ℕ → Run
in_a_row ok offset num_msg batch_size k zero = ([], finished)
in_a_row ok offset num_msg batch_size k (suc rounds) =
    let m = planned offset num_msg batch_size k in
    let (rest, ending) = in_a_row ok offset num_msg batch_size (k + 1) rounds in
    if ok (k + offset) then (m ∷ rest, ending) else (m ∷ [], failed)

commit_at :
    (num_msg batch_size i q j : ℕ)
    → i ≡ q * batch_size
    → j < min batch_size (num_msg - i)
    → (j + 1 == min batch_size (num_msg - i)) ≡ ((j + 1 == batch_size) || (i + j + 1 == num_msg))
commit_at num_msg batch_size i q j e h = ground arith

mod_at : (batch_size i q j : ℕ) → i ≡ q * batch_size → j < batch_size → (i + j) % batch_size ≡ j
mod_at batch_size i q j e h =
    ap (λ t. (t + j) % batch_size) e ∙ mul-add-mod_self_right q batch_size j ∙ mod-eq_of_lt h

module _ (ok : ℕ → Bool) (offset num_msg batch_size : ℕ) where
  abbrev row : ℕ → ℕ → Run
  row = in_a_row ok offset num_msg batch_size

  abbrev size_at : ℕ → ℕ
  size_at i = min batch_size (num_msg - i)

  -- a batch, and then the row from behind it
  abbrev then_row : List Sent × Bool → ℕ → ℕ → Run
  then_row (sent, true) k rounds = prepend sent (row k rounds)
  then_row (sent, false) k rounds = (sent, failed)

  planned_at :
      (i q j : ℕ)
      → i ≡ q * batch_size
      → j < size_at i
      → ◌≡◌ {A = Sent}
          (record { number = i + j + offset; sequence = j + 1; commit = j + 1 == size_at i })
          (planned offset num_msg batch_size (i + j))
  planned_at i q j e h = λ t. record {
    number = i + j + offset;
    sequence = sym (mod_at batch_size i q j e (omega arith)) t + 1;
    commit =
        (commit_at num_msg batch_size i q j e h
            ∙ ap (λ r. (r + 1 == batch_size) || (i + j + 1 == num_msg))
                (sym (mod_at batch_size i q j e (omega arith))))
          t;
  }

  cons_run : Sent → Run → Run
  cons_run m (rest, ending) = (m ∷ rest, ending)

  row-zero : (k : ℕ) → row k 0 ≡ ([], finished)
  unfolding in_a_row
  row-zero k = refl

  row-suc :
      (k rounds : ℕ)
      → row k (suc rounds) ≡ (
          if ok (k + offset)
          then cons_run (planned offset num_msg batch_size k) (row (k + 1) rounds)
          else (planned offset num_msg batch_size k ∷ [], failed))
  unfolding in_a_row cons_run
  row-suc k rounds = refl

  then_row-cons :
      (m : Sent) (r : List Sent × Bool) (k rounds : ℕ)
      → then_row (m ∷ r.0, r.1) k rounds ≡ cons_run m (then_row r k rounds)
  unfolding cons_run prepend
  then_row-cons m (sent, true) k rounds = refl
  then_row-cons m (sent, false) k rounds = refl

  batch_fine :
      (i q j rounds : ℕ)
      → i ≡ q * batch_size
      → j < size_at i
      → ok (i + j + offset) ≡ true
      → atomic_batch ok offset i (size_at i) j (suc rounds) ≡ (
        planned offset num_msg batch_size (i + j)
            ∷ (atomic_batch ok offset i (size_at i) (j + 1) rounds).0,
        (atomic_batch ok offset i (size_at i) (j + 1) rounds).1,
      )
  unfolding atomic_batch
  batch_fine i q j rounds e h fine = rw fine (
      ap
        (λ m. (
          m ∷ (atomic_batch ok offset i (size_at i) (j + 1) rounds).0,
          (atomic_batch ok offset i (size_at i) (j + 1) rounds).1,
        ))
        (planned_at i q j e h))

  batch_bad :
      (i q j rounds : ℕ)
      → i ≡ q * batch_size
      → j < size_at i
      → ok (i + j + offset) ≡ false
      → atomic_batch ok offset i (size_at i) j (suc rounds)
        ≡ (planned offset num_msg batch_size (i + j) ∷ [], false)
  unfolding atomic_batch
  batch_bad i q j rounds e h bad = rw bad (ap (λ m. (m ∷ [], false)) (planned_at i q j e h))

  row_fine :
      (k rounds : ℕ)
      → ok (k + offset) ≡ true
      → row k (suc rounds) ≡ cons_run (planned offset num_msg batch_size k) (row (k + 1) rounds)
  row_fine k rounds fine = rw (row-suc k rounds, fine) refl

  row_bad :
      (k rounds : ℕ)
      → ok (k + offset) ≡ false
      → row k (suc rounds) ≡ (planned offset num_msg batch_size k ∷ [], failed)
  row_bad k rounds bad = rw (row-suc k rounds, bad) refl

  batch-row :
      (i q j rounds later : ℕ)
      → i ≡ q * batch_size
      → j + rounds ≡ size_at i
      → then_row (atomic_batch ok offset i (size_at i) j rounds) (i + j + rounds) later
        ≡ row (i + j) (rounds + later)
  batch-row i q j zero later e h =
      unfold atomic_batch prepend in
      ap (λ k. row k later) (omega arith) ∙ ap (row (i + j)) (omega arith)
  batch-row i q j (suc rounds) later e h =
      let m = planned offset num_msg batch_size (i + j) in
      let more = batch-row i q (j + 1) rounds later e (omega arith) in
      let r = atomic_batch ok offset i (size_at i) (j + 1) rounds in
      elim (Bool-cases (ok (i + j + offset))) [
        | inl fine ↦
            ap (λ b. then_row b (i + j + suc rounds) later)
              (batch_fine i q j rounds e (omega arith) fine)
            ∙ then_row-cons m r (i + j + suc rounds) later
            ∙ ap (cons_run m) (
                ap (λ k. then_row r k later) (omega arith)
                ∙ more
                ∙ ap (λ k. row k (rounds + later)) (omega arith))
            ∙ sym (row_fine (i + j) (rounds + later) fine)
            ∙ ap (row (i + j)) (omega arith)
        | inr bad ↦
            ap (λ b. then_row b (i + j + suc rounds) later)
              (batch_bad i q j rounds e (omega arith) bad)
            ∙ sym (row_bad (i + j) (rounds + later) bad)
            ∙ ap (row (i + j)) (omega arith)
      ]

  then_row_if :
      (b : List Sent × Bool) (next : Run) (k rounds : ℕ)
      → next ≡ row k rounds
      → (if b.1 then prepend b.0 next else (b.0, failed)) ≡ then_row b k rounds
  then_row_if (sent, true) next k rounds e = ap (prepend sent) e
  then_row_if (sent, false) next k rounds e = refl

  loop_more :
      (fuel i q : ℕ)
      → i < num_msg
      → q < batch_count num_msg batch_size
      → atomic_loop ok offset num_msg batch_size (suc fuel) i q ≡ (
          let b = atomic_batch ok offset i (size_at i) 0 (size_at i) in
          if b.1
          then prepend b.0 (atomic_loop ok offset num_msg batch_size fuel (i + size_at i) (q + 1))
          else (b.0, failed))
  unfolding atomic_loop
  loop_more fuel i q h k = rw (lt→ltb _ _ h, lt→ltb _ _ k) refl

  loop_done :
      (fuel i q : ℕ)
      → ltb i num_msg ≡ false
      → atomic_loop ok offset num_msg batch_size (suc fuel) i q ≡ ([], finished)
  unfolding atomic_loop
  loop_done fuel i q h = rw h refl

  in_slice :
      (i q : ℕ)
      → 1 ≤ batch_size
      → i ≡ q * batch_size
      → i < num_msg
      → q < batch_count num_msg batch_size
  unfolding batch_count
  in_slice i q some_size e h = (le-div_iff_mul-le some_size).1 (omega arith)

  loop-row :
      (fuel i q : ℕ)
      → 1 ≤ batch_size
      → i ≡ min (q * batch_size) num_msg
      → num_msg - i < fuel
      → atomic_loop ok offset num_msg batch_size fuel i q ≡ row i (num_msg - i)
  loop-row zero i q some_size e h = elim h [ ]
  loop-row (suc fuel) i q some_size e h = elim (Bool-cases (ltb i num_msg)) [
    | inl more ↦
        let lt = ltb→lt _ _ more in
        let at : i ≡ q * batch_size = omega arith in
        let s = size_at i in
        let rest = loop-row fuel (i + s) (q + 1) some_size (omega arith) (omega arith) in
        loop_more fuel i q lt (in_slice i q some_size at lt)
        ∙ then_row_if (atomic_batch ok offset i s 0 s) _ (i + s) (num_msg - (i + s)) rest
        ∙ ap (λ k. then_row (atomic_batch ok offset i s 0 s) k (num_msg - (i + s))) (omega arith)
        ∙ batch-row i q 0 s (num_msg - (i + s)) at (omega arith)
        ∙ ap (λ k. row k (s + (num_msg - (i + s)))) (omega arith)
        ∙ ap (row i) (omega arith)
    | inr done ↦
        let le = ltb_false→le _ _ done in
        loop_done fuel i q done ∙ sym (ap (row i) (omega arith) ∙ row-zero i)
  ]

-- For batches of at least one message, publishing in atomic batches sends exactly the messages
-- `0 … num_msg - 1` in order, up to the first that fails: message `k` has the number `k + offset`,
-- the batch sequence `k % batch_size + 1`, and the commit header precisely at the end of a full
-- batch and on the last message. The loop terminates and never indexes its latencies out of range.
pub publish_atomic_lem :
    (ok : ℕ → Bool) (offset num_msg batch_size : ℕ)
    → 1 ≤ batch_size
    → publish_atomic ok offset num_msg batch_size ≡ in_a_row ok offset num_msg batch_size 0 num_msg
unfolding publish_atomic
publish_atomic_lem ok offset num_msg batch_size some_size =
    loop-row ok offset num_msg batch_size (num_msg + 1) 0 0 some_size (omega arith) (omega arith)
    ∙ ap (in_a_row ok offset num_msg batch_size 0) (omega arith)
