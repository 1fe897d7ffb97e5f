-- ===== src/Util/Subjects/Examples.antt =====
-- Runs of SplitCLISubjects.
use natscli.Prelude.{List, [], ◌∷◌, ◌≡◌, refl, Text, codes}
use natscli.Util.Subjects.{
  is_cli_separator, is_separator, fields_func, split_string, split_cli_subjects,
}

abbrev subjects : List Text
subjects = codes "orders.>,x" ∷ codes "logs" ∷ []

two_lists :
    split_cli_subjects (codes "a, b" ∷ codes "c" ∷ []) ≡ codes "a" ∷ codes "b" ∷ codes "c" ∷ []
unfolding split_cli_subjects is_cli_separator is_separator split_string fields_func
two_lists = refl
