-- ===== src/Util/Hostnames/Examples.antt =====
-- Runs of CompactStrings.
use natscli.Prelude.{
  ℕ, suc, ◌<◌, List, [], ◌∷◌, ◌++◌, map, ◌≡◌, refl, arith, Text, codes, str_eq, trim_suffix, split,
  length, All,
}
use natscli.Util.Hostnames.Chop.{head_of, Stops, compact_strings_lem}
use natscli.Util.Hostnames.{
  compact_strings, common_suffix, chop_loop, shortest_from, parts_of, same_part,
}

three_hosts :
    compact_strings (codes "n1.x.com" ∷ codes "n2.x.com" ∷ codes "n3.y.com" ∷ [])
    ≡ codes "n1.x" ∷ codes "n2.x" ∷ codes "n3.y" ∷ []
unfolding compact_strings common_suffix chop_loop shortest_from parts_of same_part split trim_suffix
    str_eq
three_hosts = refl

abbrev hosts : List Text
hosts = codes "n2.x.com" ∷ codes "n3.y.com" ∷ []

hosts_three_parts : All (λ s. length (parts_of s) ≡ 3) (codes "n1.x.com" ∷ hosts)
unfolding parts_of split
hosts_three_parts = (refl, (refl, (refl, tt)))

compact_strings_example :
    (j : ℕ) × (j < 3)
    × (compact_strings (codes "n1.x.com" ∷ hosts)
        ≡ map (head_of (suc j)) (codes "n1.x.com" ∷ hosts))
    × All
        (λ s. head_of (suc j) s ++ common_suffix (codes "n1.x.com" ∷ hosts) ≡ s)
        (codes "n1.x.com" ∷ hosts)
    × Stops (parts_of (codes "n1.x.com")) (map parts_of (codes "n1.x.com" ∷ hosts)) j
compact_strings_example =
    compact_strings_lem (codes "n1.x.com") hosts 3 (omega arith) hosts_three_parts

-- Names of different lengths can collide: two distinct hosts are printed alike.
collision :
    compact_strings (codes "c.x" ∷ codes "a.x.b.x" ∷ codes "a.x.b" ∷ [])
    ≡ codes "c" ∷ codes "a.x.b" ∷ codes "a.x.b" ∷ []
unfolding compact_strings common_suffix chop_loop shortest_from parts_of same_part split trim_suffix
    str_eq
collision = refl
