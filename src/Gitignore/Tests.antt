-- ===== src/Gitignore/Tests.antt =====
-- The theorems on a checkout whose .gitignore names `build/`, with one tracked file below it. The
-- matcher of the model world is equality after the prefix "**/".

use ragota.Base.{Bool, List, Option, [], false, none, refl, some, true, ◌∷◌, ◌≡◌}
use ragota.Base.Text.{Str, codes, cut_prefix, split, str_eq, trim, trim_prefix}
use ragota.Gitignore.Check.{RepoPath, World, ignored, new_rules}
use ragota.Gitignore.Refinement.{ask, ignored-ask}
use ragota.Gitignore.Spec.{excludes}
use ragota.Gitignore.Tracked.{tracked-ignored}

abbrev toy_match : Str → Str → Bool
unfolding str_eq trim_prefix cut_prefix
toy_match glob rel = str_eq (trim_prefix glob (codes "**/")) rel

abbrev root_file : RepoPath → Option Str
root_file [] = some (codes "build/")
root_file (s ∷ dir) = none

abbrev checkout : World
unfolding toy_match
checkout = record {
  glob_match = toy_match;
  valid_pattern = λ s. true;
  ignore_file = root_file;
  exclude_file = none;
  index_names = some (codes "build/a.go" ∷ codes "b.go" ∷ []);
}

abbrev asked : List (Str × Bool)
asked = (codes "build/b.go", false) ∷ (codes "b.go", false) ∷ []

ignored-ask_example :
    (ignored checkout (ask checkout new_rules asked) (codes "build/c.go") false).1
    ≡ excludes checkout (codes "build/c.go") false
ignored-ask_example = ignored-ask checkout asked (codes "build/c.go") false

-- the directory of a name in the index, which the patterns exclude
tracked-ignored_example :
    (ignored checkout (ask checkout new_rules asked) (codes "build/") true).1 ≡ false
unfolding checkout str_eq split trim
tracked-ignored_example =
    tracked-ignored checkout asked (codes "build/a.go" ∷ codes "b.go" ∷ []) b'b' (codes "uild/a.go")
      1 (codes "build/") true refl refl refl
