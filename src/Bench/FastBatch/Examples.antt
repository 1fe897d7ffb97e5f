-- ===== src/Bench/FastBatch/Examples.antt =====
-- Five messages, acknowledged after the second and the fourth.
use natscli.Prelude.{ℕ, ◌+◌, ◌*◌, ◌/◌, Option, some, ◌≡◌, refl, arith}
use natscli.Bench.FastBatch.{done, publish_fast}
use natscli.Bench.FastBatch.Places.{AtMost, Placed, publish_fast-Placed}

abbrev every_second : ℕ → Option ℕ
every_second j = some ((j + 1) / 2 * 2)

every_second-AtMost : (j : ℕ) → AtMost (j + 1) (every_second j)
every_second-AtMost j = omega arith

three_places : publish_fast every_second (some 5) 5 ≡ done 3 5
unfolding publish_fast
three_places = refl

publish_fast-Placed_example : Placed 5 (publish_fast every_second (some 5) 5)
publish_fast-Placed_example =
    publish_fast-Placed every_second (some 5) 5 every_second-AtMost (omega arith)
