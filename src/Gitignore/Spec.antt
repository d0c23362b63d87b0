-- ===== src/Gitignore/Spec.antt =====
-- What pkg/gitignore/gitignore.go decides, without its caches: the verdict of a path as a
-- function of the file system and the index alone.

use ragota.Base.{Bool, List, [], false, if◌then◌else◌, none, not, some, true, ◌&&◌, ◌==◌, ◌||◌, ◌∷◌}
use ragota.Base.Text.{Str, join, split, trim}
use ragota.Gitignore.Check.{
  RepoPath, World, match_in, member, outside, parsed, parts, track_names, verdict,
}

unfoldable pub verdict_from : World → RepoPath → List Str → Bool → Bool
unfolding parsed match_in join
verdict_from w [] below is_dir =
    elim (match_in w.glob_match (parsed w (w.ignore_file [])) (join b'/' below) is_dir) [
      | some v ↦ v
      | none ↦ verdict (match_in w.glob_match (parsed w w.exclude_file) (join b'/' below) is_dir)
    ]
verdict_from w (s ∷ dir) below is_dir =
    let above = verdict_from w dir (s ∷ below) is_dir in
    elim (match_in w.glob_match (parsed w (w.ignore_file (s ∷ dir))) (join b'/' below) is_dir) [
      | some v ↦ v
      | none ↦ above
    ]

-- the rules' verdict on a path itself
unfoldable pub is_matched : World → RepoPath → Bool → Bool
unfolding verdict_from
is_matched w [] is_dir = false
is_matched w (s ∷ dir) is_dir = verdict_from w dir (s ∷ []) is_dir

-- a directory or one above it is matched
unfoldable pub is_excluded : World → RepoPath → Bool
unfolding is_matched
is_excluded w [] = false
is_excluded w (s ∷ dir) = is_excluded w dir || is_matched w (s ∷ dir) true

unfoldable pub in_index : World → RepoPath → Bool
unfolding track_names member
in_index w p = elim w.index_names [ none ↦ false | some names ↦ member p (track_names names []) ]

unfoldable pub is_ignored : World → RepoPath → Bool → Bool
unfolding is_excluded is_matched in_index
is_ignored w [] is_dir = false
is_ignored w (s ∷ dir) is_dir =
    (is_excluded w dir || is_matched w (s ∷ dir) is_dir) && not (in_index w (s ∷ dir))

-- the verdict of `Ignored`
unfoldable pub excludes : World → Str → Bool → Bool
unfolding is_ignored outside trim split
excludes w raw is_dir =
    let rel = trim (λ c. c == b'/') raw in
    if outside rel then false else is_ignored w (parts rel) is_dir
