-- ===== src/Util/Version/Examples.antt =====
-- Runs of VersionIsAtLeast.
use natscli.Prelude.{true, ◌∷◌, ◌++◌, ◌↔◌, inl, inr, ◌≡◌, refl, arith, Text, codes, cons-ne-nil}
use natscli.Prelude.Int.{pos}
use natscli.Util.Decimal.{is_digit, value}
use natscli.Util.Version.{version_is_at_least}
use natscli.Util.Version.Order.{
  Component, Ends, Below, version_is_at_least_iff, version_is_at_least_earlier,
}

abbrev server : Text
server = codes "2" ++ b'.' ∷ (codes "11" ++ b'.' ∷ (codes "4" ++ codes "-beta"))

two-Component : Component (codes "2")
unfolding is_digit
two-Component = (cons-ne-nil _ _, refl, omega arith)

eleven-Component : Component (codes "11")
unfolding is_digit
eleven-Component = (cons-ne-nil _ _, refl, omega arith)

four-Component : Component (codes "4")
unfolding is_digit
four-Component = (cons-ne-nil _ _, refl, omega arith)

beta-Ends : Ends (codes "-beta")
unfolding is_digit
beta-Ends = refl

version_is_at_least_iff_example :
    (version_is_at_least server (pos 2) (pos 10) (pos 9) ≡ true)
    ↔ Below
        (pos 2)
        (pos 10)
        (pos 9)
        (pos (value (codes "2")))
        (pos (value (codes "11")))
        (pos (value (codes "4")))
version_is_at_least_iff_example =
    version_is_at_least_iff (codes "2") (codes "11") (codes "4") (codes "-beta") (pos 2) (pos 10)
      (pos 9) two-Component eleven-Component four-Component beta-Ends

server_is_2_10_9 : version_is_at_least server (pos 2) (pos 10) (pos 9) ≡ true
server_is_2_10_9 = version_is_at_least_iff_example.1 (inr (refl, inl (omega arith)))

server_is_2_9_0 : version_is_at_least server (pos 2) (pos 9) (pos 0) ≡ true
server_is_2_9_0 =
    version_is_at_least_earlier server (pos 2) (pos 10) (pos 9) (pos 2) (pos 9) (pos 0)
      server_is_2_10_9 (inr (refl, inl (omega arith)))
