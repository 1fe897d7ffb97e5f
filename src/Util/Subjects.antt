-- ===== src/Util/Subjects.antt =====
-- internal/util/util.go, SplitString and SplitCLISubjects, over ASCII texts: the white space that
-- unicode.IsSpace knows beyond ASCII is not modelled.
mod Fields
mod Examples
use natscli.Prelude.{ℕ, ◌+◌, Bool, ◌||◌, List, [], ◌∷◌, ◌++◌, Text, ◌==◌, if◌then◌else◌, any}
use natscli.Util.ByteSize.{is_space}

-- `,|\t|\s`: the regular expression's white space has no vertical tab
unfoldable pub is_cli_separator : ℕ → Bool
is_cli_separator c = c == b',' || c == 9 || c == 10 || c == 12 || c == 13 || c == b' '

-- unicode.IsSpace(c) || c == ','
pub is_separator : ℕ → Bool
unfolding is_space
is_separator c = is_space c || c == b','

-- a field ends, if it has begun
flush : Text → List Text → List Text
flush [] fields = fields
flush (c ∷ s) fields = (c ∷ s) ∷ fields

-- strings.FieldsFunc, with the field that is being read
fields_func : (ℕ → Bool) → Text → Text → List Text
unfolding flush
fields_func p [] cur = flush cur []
fields_func p (c ∷ s) cur =
    let ended = flush cur (fields_func p s []) in
    let longer = fields_func p s (cur ++ c ∷ []) in if p c then ended else longer

pub split_string : Text → List Text
split_string s = fields_func is_separator s []

unfoldable pub split_cli_subjects : List Text → List Text
split_cli_subjects [] = []
split_cli_subjects (s ∷ subjects) =
    (if any is_cli_separator s then split_string s else s ∷ []) ++ split_cli_subjects subjects
