-- ===== src/Publish/Stdin/Examples.antt =====
-- Reading lines, and an input that fails.
use natscli.Prelude.{true, false, [], ◌∷◌, inl, inr, ◌≡◌, refl, codes}
use natscli.Publish.Message.{PubError}
use natscli.Publish.Samples.{lines, by_lines}
use natscli.Publish.Stdin.{read_stdin, read_mode, read_line}

first_line : read_stdin by_lines lines ≡ (inr (codes "ab", false), (codes "c", false) ∷ [])
unfolding read_stdin read_mode read_line
first_line = refl

fails :
    (read_stdin by_lines (record lines { pieces = []; broken = true })).0 ≡ inl PubError.read_failed
unfolding read_stdin read_mode read_line
fails = refl
