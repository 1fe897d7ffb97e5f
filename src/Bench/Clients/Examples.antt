-- ===== src/Bench/Clients/Examples.antt =====
-- Runs of the division of messages.
use natscli.Prelude.{ℕ, suc, ◌+◌, ◌/◌, ◌≤◌, ◌<◌, List, [], ◌∷◌, ◌≡◌, refl, arith, length, get_or}
use natscli.Bench.Clients.{sum, msgs_per_client, offset}
use natscli.Bench.Clients.Shares.{Even, msgs_per_client_lem, offset_lem}

abbrev shares : List ℕ
shares = msgs_per_client 10 4

msgs_per_client_run : (length shares ≡ 4) × (sum shares ≡ 10) × Even (10 / 4) shares
msgs_per_client_run = msgs_per_client_lem 10 4 (omega arith) (omega arith)

offset_example :
    (offset 0 shares ≡ 0)
    × ((k : ℕ) → offset (suc k) shares ≡ offset k shares + get_or shares k 0)
    × ((j : ℕ)
        → j < 10
        → (k : ℕ) × (k < 4) × (offset k shares ≤ j) × (j < offset k shares + get_or shares k 0))
offset_example = offset_lem 10 4 (omega arith) (omega arith)

ten_by_four : shares ≡ 3 ∷ 3 ∷ 2 ∷ 2 ∷ []
unfolding msgs_per_client
ten_by_four = refl
