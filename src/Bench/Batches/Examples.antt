-- ===== src/Bench/Batches/Examples.antt =====
-- Publishing in atomic batches, at concrete inputs.
use natscli.Prelude.{ℕ, Bool, true, false, not, [], ◌∷◌, ◌≡◌, refl, arith, ◌==◌}
use natscli.Bench.Batches.{Sent, finished, failed, batch_count, publish_atomic}
use natscli.Bench.Batches.Flat.{publish_atomic_lem, in_a_row}

abbrev reachable : ℕ → Bool
reachable n = true

abbrev fails_at_3 : ℕ → Bool
fails_at_3 n = not (n == 3)

abbrev message : ℕ → ℕ → Bool → Sent
message n j last = record { number = n; sequence = j; commit = last }

-- three messages in batches of two: the last one is a batch of its own
three_by_two :
    publish_atomic reachable 10 3 2
    ≡ (message 10 1 false ∷ message 11 2 true ∷ message 12 1 true ∷ [], finished)
unfolding publish_atomic batch_count
three_by_two = refl

-- the run ends with the message that fails
fails : (publish_atomic fails_at_3 0 9 4).1 ≡ failed
unfolding publish_atomic batch_count
fails = refl

publish_atomic_example : publish_atomic reachable 10 3 2 ≡ in_a_row reachable 10 3 2 0 3
publish_atomic_example = publish_atomic_lem reachable 10 3 2 (omega arith)
