-- ===== src/DeviceTree/Dispatch/Tests.antt =====
-- src/DeviceTree.cpp, `compatible_list_contains`: two strings, and the first of the next property.
use floss.Base.{ℕ, ◌≡◌, ◌↔◌, refl, Bool, true, List, [], ◌∷◌, done, arith}
use floss.LibC.{strlen, strnlen, strncmp}
use floss.LibC.Text.{literal, until_nul}
use floss.DeviceTree.Dispatch.{candidate_matches, contains_from, compatible_list_contains}
use floss.DeviceTree.Dispatch.Strings.{strings, size, Among, compatible_list_contains_iff}

abbrev names : List (List ℕ)
names = until_nul (literal "arm,primecell") ∷ until_nul (literal "arm,pl011") ∷ []

finds_pl011 :
    compatible_list_contains (strings names (literal "reg")) (size names) (literal "arm,pl011")
    ≡ done true
unfolding compatible_list_contains contains_from candidate_matches strlen strnlen strncmp
finds_pl011 = refl

compatible_list_contains_iff_example :
    (b : Bool) × (compatible_list_contains
        (strings names (literal "reg"))
        (size names)
        (literal "arm,gic")
      ≡ done b)
    × ((b ≡ true) ↔ Among (until_nul (literal "arm,gic")) names)
compatible_list_contains_iff_example =
    compatible_list_contains_iff (literal "arm,gic") (until_nul (literal "arm,gic")) refl
      (omega arith) names (literal "reg") (omega arith)
