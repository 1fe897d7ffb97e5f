-- ===== src/Util/Groups/Columns.antt =====
-- Where SliceGroups puts each item.
use natscli.Prelude.{
  ℕ, zero, suc, ◌+◌, ◌-◌, ◌*◌, ◌/◌, ◌%◌, ◌≤◌, ◌<◌, List, [], ◌∷◌, ◌++◌, inl, inr, some, ◌≡◌, refl,
  sym, ap, ◌∙◌, arith, Text, ◌==◌, ==_iff, Bool-cases, length, get_elem?, get_or, replicate,
  length-append, length-replicate,
}
use native.Mathlib.Nat.{mod-lt, mod-add-mod, mod_self, div-add-mod', div-eq_of_lt-le}
use natscli.Util.Groups.{padded, chunk, chunks, slice_groups}

get_elem?-chunk :
    (input : List Text) (count i s rounds j : ℕ)
    → j < rounds
    → get_elem? (chunk input count i s rounds) j ≡ some (get_or input (i + (s + j) * count) [])
unfolding chunk
get_elem?-chunk input count i s zero j h = elim h [ ]
get_elem?-chunk input count i s (suc rounds) zero h =
    ap (λ t. some (get_or input (i + t * count) [])) (omega arith)
get_elem?-chunk input count i s (suc rounds) (suc j) h =
    get_elem?-chunk input count i (s + 1) rounds j (omega arith)
    ∙ ap (λ t. some (get_or input (i + t * count) [])) (omega arith)

get_elem?-chunks :
    (input : List Text) (count size i rounds j : ℕ)
    → j < rounds
    → get_elem? (chunks input count size i rounds) j ≡ some (chunk input count (i + j) 0 size)
unfolding chunks
get_elem?-chunks input count size i zero j h = elim h [ ]
get_elem?-chunks input count size i (suc rounds) zero h =
    ap (λ t. some (chunk input count t 0 size)) (omega arith)
get_elem?-chunks input count size i (suc rounds) (suc j) h =
    get_elem?-chunks input count size (i + 1) rounds j (omega arith)
    ∙ ap (λ t. some (chunk input count t 0 size)) (omega arith)

length-chunks :
    (input : List Text) (count size i rounds : ℕ)
    → length (chunks input count size i rounds) ≡ rounds
unfolding chunks
length-chunks input count size i zero = refl
length-chunks input count size i (suc rounds) =
    ap suc (length-chunks input count size (i + 1) rounds)

get_or-append :
    (xs ys : List Text) (j : ℕ) → j < length xs → get_or (xs ++ ys) j [] ≡ get_or xs j []
get_or-append [] ys j h = elim h [ ]
get_or-append (x ∷ xs) ys zero h = refl
get_or-append (x ∷ xs) ys (suc j) h = get_or-append xs ys j (omega arith)

get_elem?-get_or : (xs : List Text) (j : ℕ) → j < length xs → some (get_or xs j []) ≡ get_elem? xs j
get_elem?-get_or [] j h = elim h [ ]
get_elem?-get_or (x ∷ xs) zero h = refl
get_elem?-get_or (x ∷ xs) (suc j) h = get_elem?-get_or xs j (omega arith)

length-chunk :
    (input : List Text) (count i s rounds : ℕ) → length (chunk input count i s rounds) ≡ rounds
unfolding chunk
length-chunk input count i s zero = refl
length-chunk input count i s (suc rounds) = ap suc (length-chunk input count i (s + 1) rounds)

padding_fills : (n k : ℕ) → (n + (suc k - n % suc k)) % suc k ≡ 0
padding_fills n k =
    sym (mod-add-mod n (suc k) (suc k - n % suc k))
    ∙ ap (λ t. t % suc k) (whole n k)
    ∙ mod_self (suc k)
  where
    whole : (n k : ℕ) → n % suc k + (suc k - n % suc k) ≡ suc k
    whole n k = omega (arith, mod-lt n {m = suc k})

no_padding : (n k : ℕ) → suc k - n % suc k ≡ suc k → n % suc k ≡ 0
no_padding n k h = omega (arith, mod-lt n {m = suc k})

length-padded :
    (input : List Text) (k : ℕ)
    → (length (padded input (suc k)) % suc k ≡ 0)
      × (length input ≤ length (padded input (suc k)))
      × (length (padded input (suc k)) ≤ length input + k)
unfolding padded
length-padded input k = elim (Bool-cases (suc k - length input % suc k == suc k)) [
  | inl e ↦
      let same = (==_iff _ _).0 e in
      rw e (no_padding (length input) k same, omega arith, omega arith)
  | inr e ↦ rw e (
      rw
        (
          length-append input (replicate (suc k - length input % suc k) []),
          length-replicate {A = Text} (suc k - length input % suc k) [],
        )
        (padding_fills (length input) k, omega arith, ground arith))
]

get_elem?-padded :
    (input : List Text) (k j : ℕ)
    → j < length input
    → some (get_or (padded input (suc k)) j []) ≡ get_elem? input j
unfolding padded
get_elem?-padded input k j h = elim (Bool-cases (suc k - length input % suc k == suc k)) [
  | inl e ↦ rw e (get_elem?-get_or input j h)
  | inr e ↦ rw e (rw (get_or-append input _ j h) (get_elem?-get_or input j h))
]

position :
    (j count size : ℕ)
    → j < count * size
    → (j % count < count) × (j / count < size) × (j % count + (0 + j / count) * count ≡ j)
position j count size h = (grind arith, grind arith, grind arith)

-- the rows are as many as the items need
rows :
    (n total k : ℕ)
    → total % suc k ≡ 0
    → n ≤ total
    → total ≤ n + k
    → (total / suc k * suc k ≡ total) × (total / suc k ≡ (n + k) / suc k)
rows n total k exact low high =
    let whole : total / suc k * suc k ≡ total = omega (arith, div-add-mod' total (suc k)) in
    (
      whole,
      sym (
          div-eq_of_lt-le {k = total / suc k} (suc k) {m = n + k} (omega (arith, whole))
            (omega (arith, whole))),
    )

placed :
    (input : List Text) (k count j : ℕ)
    → j < length input
    → length input ≤ count * suc k
    → (g : List Text) × (get_elem? (chunks (padded input (suc k)) count (suc k) 0 count) (j % count)
        ≡ some g)
      × (length g ≡ suc k)
      × (get_elem? g (j / count) ≡ get_elem? input j)
placed input k count j h enough =
    let all_input = padded input (suc k) in
    let (row, column, index) = position j count (suc k) (omega arith) in
    (
      chunk all_input count (j % count) 0 (suc k),
      get_elem?-chunks all_input count (suc k) 0 count (j % count) row
          ∙ ap (λ t. some (chunk all_input count t 0 (suc k))) (omega arith),
      length-chunk all_input count (j % count) 0 (suc k),
      get_elem?-chunk all_input count (j % count) 0 (suc k) (j / count) column
          ∙ ap (λ t. some (get_or all_input t [])) index
          ∙ get_elem?-padded input k j h,
    )

-- With a size of at least one there are as many groups as the items need, each of that size, and
-- item `j` stands in group `j % count` at place `j / count`, where `count` is the number of groups:
-- the items run down the columns, and none is lost.
pub slice_groups_lem :
    (input : List Text) (k : ℕ)
    → (groups : List (List Text)) × (slice_groups input (suc k) ≡ some groups)
      × (length groups ≡ (length input + k) / suc k)
      × ((j : ℕ)
          → j < length input
          → (g : List Text) × (get_elem? groups (j % length groups) ≡ some g)
            × (length g ≡ suc k)
            × (get_elem? g (j / length groups) ≡ get_elem? input j))
unfolding slice_groups
slice_groups_lem input k =
    let all_input = padded input (suc k) in
    let count = length all_input / suc k in
    let (exact, low, high) = length-padded input k in
    let (whole, enough) = rows (length input) (length all_input) k exact low high in
    let size = length-chunks all_input count (suc k) 0 count in
    (
      chunks all_input count (suc k) 0 count,
      refl,
      size ∙ enough,
      λ j h. rw size (placed input k count j h (omega (arith, whole))),
    )
