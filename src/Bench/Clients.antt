-- ===== src/Bench/Clients.antt =====
-- cli/bench_command.go, msgsPerClient and offset: the share of each client, and where it begins.
-- The number of messages is positive where these are called, so it is a natural number.
pub mod Shares
mod Examples
use natscli.Prelude.{
  ℕ, zero, suc, ◌+◌, ◌/◌, ◌%◌, ◌||◌, List, [], ◌∷◌, ◌==◌, if◌then◌else◌, get_or, replicate,
}

pub sum : List ℕ → ℕ
sum [] = 0
sum (x ∷ xs) = x + sum xs

-- `for i := 0; i < extra; i++ { counts[i]++ }`
bump_first : ℕ → List ℕ → List ℕ
bump_first zero counts = counts
bump_first (suc extra) [] = []
bump_first (suc extra) (c ∷ counts) = suc c ∷ bump_first extra counts

unfoldable pub msgs_per_client : ℕ → ℕ → List ℕ
unfolding bump_first
msgs_per_client num_msgs num_clients =
    if num_clients == 0 || num_msgs == 0
    then []
    else bump_first (num_msgs % num_clients) (replicate num_clients (num_msgs / num_clients))

-- the loop of `offset` at `i`, with the rounds left
offset_from : ℕ → List ℕ → ℕ → ℕ → ℕ
offset_from position counts i zero = position
offset_from position counts i (suc rounds) =
    offset_from (position + get_or counts i 0) counts (i + 1) rounds

unfoldable pub offset : ℕ → List ℕ → ℕ
unfolding offset_from
offset putter counts = offset_from 0 counts 0 putter
