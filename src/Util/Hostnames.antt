-- ===== src/Util/Hostnames.antt =====
-- internal/util/util.go, CompactStrings: chop the common domain off a list of host names.
-- `name[i]` is read with i below the shortest name's number of parts, so no default is ever used.
pub mod Chop
mod Examples
use natscli.Prelude.{
  ℕ, zero, suc, ◌-◌, ◌^◌, List, [], ◌∷◌, ◌++◌, Bool, Text, map, length, get_or, all, ltb, str_eq,
  trim_suffix, split, if◌then◌else◌,
}

pub parts_of : Text → List Text
parts_of name = split name b'.'

abbrev pub max_int32 : ℕ
max_int32 = 2 ^ 31 - 1

-- the first loop's `shortest`, which starts at math.MaxInt32
shortest_from : ℕ → List (List Text) → ℕ
shortest_from shortest [] = shortest
shortest_from shortest (p ∷ ps) =
    shortest_from (if ltb (length p) shortest then length p else shortest) ps

-- the inner loop: every name has `s` for its part `i`
pub same_part : List (List Text) → ℕ → Text → Bool
same_part names i s = all (λ name. str_eq (get_or name i []) s) names

-- `for i := shortest - 1; i > 0; i--`, at `i`, with `toRemove` so far
chop_loop : List Text → List (List Text) → ℕ → Text → Text
chop_loop first names zero to_remove = to_remove
chop_loop first names (suc i) to_remove =
    let s = get_or first (suc i) [] in
    let removed = chop_loop first names i (b'.' ∷ (s ++ to_remove)) in
    if same_part names (suc i) s then removed else to_remove

-- the suffix that is chopped off
pub common_suffix : List Text → Text
common_suffix [] = []
common_suffix (name ∷ names) =
    let hn_parts = map parts_of (name ∷ names) in
    chop_loop (parts_of name) hn_parts (shortest_from max_int32 hn_parts - 1) []

unfoldable pub compact_strings : List Text → List Text
compact_strings [] = []
compact_strings (name ∷ names) =
    let to_remove = common_suffix (name ∷ names) in
    map (λ s. trim_suffix s to_remove) (name ∷ names)
