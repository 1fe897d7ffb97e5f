-- ===== src/Util/Groups.antt =====
-- internal/util/util.go, SliceGroups: the input in columns. The callback is given one group at a
-- time, so the model returns the list of groups; `none` is the panic of a division by zero. The
-- size is a count: the program asks for one, two or three columns.
mod Columns
mod Examples
use natscli.Prelude.{
  ℕ, zero, suc, ◌+◌, ◌-◌, ◌*◌, ◌/◌, ◌%◌, List, [], ◌∷◌, ◌++◌, Option, none, some, Text, ◌==◌,
  if◌then◌else◌, length, get_or, replicate,
}

padded : List Text → ℕ → List Text
padded input size =
    let padding = size - length input % size in
    if padding == size then input else input ++ replicate padding []

-- the inner loop at `s`, with the rounds left
chunk : List Text → ℕ → ℕ → ℕ → ℕ → List Text
chunk input count i s zero = []
chunk input count i s (suc rounds) =
    get_or input (i + s * count) [] ∷ chunk input count i (s + 1) rounds

-- the outer loop at `i`, with the rounds left
chunks : List Text → ℕ → ℕ → ℕ → ℕ → List (List Text)
unfolding chunk
chunks input count size i zero = []
chunks input count size i (suc rounds) =
    chunk input count i 0 size ∷ chunks input count size (i + 1) rounds

pub slice_groups : List Text → ℕ → Option (List (List Text))
slice_groups input zero = none
slice_groups input (suc k) =
    let all_input = padded input (suc k) in
    let count = length all_input / suc k in some (chunks all_input count (suc k) 0 count)
