-- ===== src/Util/Groups/Examples.antt =====
-- Runs of SliceGroups.
use natscli.Prelude.{
  ℕ, ◌+◌, ◌/◌, ◌%◌, ◌<◌, List, [], ◌∷◌, some, ◌≡◌, refl, Text, codes, length, get_elem?,
}
use natscli.Util.Groups.{padded, chunk, chunks, slice_groups}
use natscli.Util.Groups.Columns.{slice_groups_lem}

abbrev names : List Text
names = codes "a" ∷ codes "b" ∷ codes "c" ∷ []

slice_groups_run :
    (groups : List (List Text)) × (slice_groups names 2 ≡ some groups)
    × (length groups ≡ (length names + 1) / 2)
    × ((j : ℕ)
        → j < length names
        → (g : List Text) × (get_elem? groups (j % length groups) ≡ some g)
          × (length g ≡ 2)
          × (get_elem? g (j / length groups) ≡ get_elem? names j))
slice_groups_run = slice_groups_lem names 1

two_columns :
    slice_groups names 2 ≡ some ((codes "a" ∷ codes "c" ∷ []) ∷ (codes "b" ∷ [] ∷ []) ∷ [])
unfolding slice_groups padded chunk chunks
two_columns = refl
