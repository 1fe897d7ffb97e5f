-- ===== src/Bench/Clients/Shares.antt =====
-- The clients' shares divide the messages.
use natscli.Prelude.{
  ℕ, zero, suc, ◌+◌, ◌*◌, ◌/◌, ◌%◌, ◌≤◌, ◌<◌, false, ◌||◌, List, [], ◌∷◌, ◌≡◌, refl, sym, ap, ◌∙◌,
  arith, ◌==◌, length, get_or, replicate, All, length-replicate,
}
use native.Mathlib.Nat.{mod-lt, div-add-mod'}
use native.Mathlib.Numerals.{add-one}
use native.Mathlib.Decide.{dec_lt}
use natscli.Bench.Clients.{sum, bump_first, msgs_per_client, offset_from, offset}

sum-replicate : (n c : ℕ) → sum (replicate n c) ≡ n * c
unfolding sum
sum-replicate zero c = omega arith
sum-replicate (suc n) c = omega (arith, sum-replicate n c)

sum-bump_first :
    (extra : ℕ) (counts : List ℕ)
    → extra ≤ length counts
    → sum (bump_first extra counts) ≡ sum counts + extra
unfolding sum bump_first
sum-bump_first zero counts h = omega arith
sum-bump_first (suc extra) [] h = absurd (omega arith)
sum-bump_first (suc extra) (c ∷ counts) h = omega (arith, sum-bump_first extra counts (omega arith))

length-bump_first : (extra : ℕ) (counts : List ℕ) → length (bump_first extra counts) ≡ length counts
unfolding bump_first
length-bump_first zero counts = refl
length-bump_first (suc extra) [] = refl
length-bump_first (suc extra) (c ∷ counts) = ap suc (length-bump_first extra counts)

-- every share is `m` or one more
abbrev pub Even : ℕ → List ℕ → Type 0
Even m = All (λ c. (m ≤ c) × (c ≤ m + 1))

replicate-Even : (n m : ℕ) → Even m (replicate n m)
replicate-Even zero m = tt
replicate-Even (suc n) m = ((omega arith, omega arith), replicate-Even n m)

bump_first-Even : (n extra m : ℕ) → Even m (bump_first extra (replicate n m))
unfolding bump_first
bump_first-Even n zero m = replicate-Even n m
bump_first-Even zero (suc extra) m = tt
bump_first-Even (suc n) (suc extra) m = ((omega arith, omega arith), bump_first-Even n extra m)

-- With at least one message and one client, each client has a share, the shares add up to the
-- number of messages, and any two differ by one at most.
pub msgs_per_client_lem :
    (num_msgs num_clients : ℕ)
    → 0 < num_msgs
    → 0 < num_clients
    → (length (msgs_per_client num_msgs num_clients) ≡ num_clients)
      × (sum (msgs_per_client num_msgs num_clients) ≡ num_msgs)
      × Even (num_msgs / num_clients) (msgs_per_client num_msgs num_clients)
unfolding msgs_per_client
msgs_per_client_lem n c pos_n pos_c =
    let some_of : (c == 0 || n == 0) ≡ false = ground arith in
    let mc = n / c in
    let extra = n % c in
    rw some_of (
      length-bump_first extra (replicate c mc) ∙ length-replicate c mc,
      omega (
        arith,
        sum-bump_first extra (replicate c mc)
            (omega (arith, length-replicate c mc, mod-lt n {m = c})),
        sum-replicate c mc,
        div-add-mod' n c,
      ),
      bump_first-Even c extra mc,
    )

offset_from-suc :
    (counts : List ℕ) (position i rounds : ℕ)
    → offset_from position counts i (suc rounds)
      ≡ offset_from position counts i rounds + get_or counts (i + rounds) 0
unfolding offset_from
offset_from-suc counts position i zero = ap (λ j. position + get_or counts j 0) (omega arith)
offset_from-suc counts position i (suc rounds) =
    offset_from-suc counts (position + get_or counts i 0) (i + 1) rounds
    ∙ ap (λ j. offset_from (position + get_or counts i 0) counts (i + 1) rounds + get_or counts j 0)
        (omega arith)

offset-suc : (counts : List ℕ) (k : ℕ) → offset (suc k) counts ≡ offset k counts + get_or counts k 0
unfolding offset
offset-suc counts k =
    offset_from-suc counts 0 0 k
    ∙ ap (λ j. offset_from 0 counts 0 k + get_or counts j 0) (omega arith)

offset_from_tail :
    (c : ℕ) (counts : List ℕ) (position i rounds : ℕ)
    → offset_from position (c ∷ counts) (suc i) rounds ≡ offset_from position counts i rounds
unfolding offset_from
offset_from_tail c counts position i zero = refl
offset_from_tail c counts position i (suc rounds) =
    rw (add-one i, add-one (suc i))
      (offset_from_tail c counts (position + get_or counts i 0) (suc i) rounds)

offset_from_all :
    (counts : List ℕ) (position : ℕ)
    → offset_from position counts 0 (length counts) ≡ position + sum counts
unfolding offset_from sum
offset_from_all [] position = omega arith
offset_from_all (c ∷ counts) position =
    ap (λ i. offset_from (position + c) (c ∷ counts) i (length counts)) (omega arith)
    ∙ offset_from_tail c counts (position + c) 0 (length counts)
    ∙ offset_from_all counts (position + c)
    ∙ omega arith

-- the client that a number below the offset of client `r` falls to
owner :
    (counts : List ℕ) (r j : ℕ)
    → j < offset r counts
    → (k : ℕ) × (k < r) × (offset k counts ≤ j) × (j < offset k counts + get_or counts k 0)
owner counts zero j h = unfold offset offset_from in absurd (omega arith)
owner counts (suc r) j h = elim (dec_lt j (offset r counts)) [
  | yes below ↦ let (k, less, low, high) = owner counts r j below in (k, omega arith, low, high)
  | no above ↦ (r, omega arith, omega arith, omega (arith, offset-suc counts r))
]

-- The clients' ranges, each beginning at the client's offset and as long as its share, follow one
-- another from zero, and every message number falls into one of them.
pub offset_lem :
    (num_msgs num_clients : ℕ)
    → 0 < num_msgs
    → 0 < num_clients
    → (offset 0 (msgs_per_client num_msgs num_clients) ≡ 0)
      × ((k : ℕ)
          → offset (suc k) (msgs_per_client num_msgs num_clients)
            ≡ offset k (msgs_per_client num_msgs num_clients)
              + get_or (msgs_per_client num_msgs num_clients) k 0)
      × ((j : ℕ)
          → j < num_msgs
          → (k : ℕ) × (k < num_clients)
            × (offset k (msgs_per_client num_msgs num_clients) ≤ j)
            × (j
                < offset k (msgs_per_client num_msgs num_clients)
                  + get_or (msgs_per_client num_msgs num_clients) k 0))
offset_lem n c pos_n pos_c =
    let counts = msgs_per_client n c in
    let (clients, total, _) = msgs_per_client_lem n c pos_n pos_c in
    let end : offset c counts ≡ n =
      ap (λ k. offset k counts) (sym clients)
      ∙ unfold offset in offset_from_all counts 0 ∙ omega (arith, total) in
    (
      unfold offset offset_from in refl,
      offset-suc counts,
      λ j h. owner counts c j (omega (arith, end)),
    )
