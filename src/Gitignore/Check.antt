-- ===== src/Gitignore/Check.antt =====
-- pkg/gitignore/gitignore.go: which paths a checkout's own rules exclude. The file system, git's
-- index and the module doublestar are the record `World`. A clean relative path is the list of
-- its parts, last first, so that `path.Dir` is the tail and the root is empty. A call holds the
-- mutex from begin to end.
use mathlib.Core.List.{reverse}
use ragota.Base.{
  Bool, List, Option, [], any, false, if◌then◌else◌, none, not, some, true, ◌&&◌, ◌==◌, ◌||◌, ◌∷◌,
}
use ragota.Base.Text.{Str, codes, has_prefix, join, split, str_eq, trim}
use ragota.Contract.Keys.{name}
use ragota.Gitignore.Line.{Pattern, parse}

abbrev pub RepoPath : Type 0
RepoPath = List Str

pub record World : Type 0 where
  pub glob_match : Str → Str → Bool  -- `doublestar.Match`, false on an error
  pub valid_pattern : Str → Bool  -- `doublestar.ValidatePattern`
  pub ignore_file : RepoPath → Option Str  -- the .gitignore of a directory
  pub exclude_file : Option Str  -- .git/info/exclude
  pub index_names : Option (List Str)  -- `git ls-files -z --cached`, split at the zero bytes

pub record Rules : Type 0 where
  pub dirs : List (RepoPath × List Pattern)
  pub verdicts : List (RepoPath × Bool)
  pub exclude : List Pattern
  pub exclude_loaded : Bool
  pub tracked : Option (List RepoPath)
  pub tracked_loaded : Bool

unfoldable pub path_eq : RepoPath → RepoPath → Bool
unfolding str_eq
path_eq [] [] = true
path_eq (a ∷ p) (b ∷ q) = str_eq a b && path_eq p q
path_eq _ _ = false

unfoldable pub lookup {ℓ} : {A : Type ℓ} → RepoPath → List (RepoPath × A) → Option A
unfolding path_eq
lookup k [] = none
lookup k ((k', a) ∷ m) = let rest = lookup k m in if path_eq k' k then some a else rest

-- `New`
abbrev pub new_rules : Rules
new_rules = record {
  dirs = [];
  verdicts = [];
  exclude = [];
  exclude_loaded = false;
  tracked = none;
  tracked_loaded = false;
}

-- `matchIn`: the last pattern that matches decides
unfoldable pub match_in : (Str → Str → Bool) → List Pattern → Str → Bool → Option Bool
match_in glob_match [] rel is_dir = none
match_in glob_match (p ∷ ps) rel is_dir = elim (match_in glob_match ps rel is_dir) [
  | some v ↦ some v
  | none ↦ if (is_dir || not p.dir_only) && glob_match p.glob rel then some (not p.negate) else none
]

unfoldable pub parsed : World → Option Str → List Pattern
unfolding parse
parsed w none = []
parsed w (some text) = parse w.valid_pattern text

-- `patternsFor`
unfoldable pub patterns_for : World → Rules → RepoPath → Rules × List Pattern
unfolding lookup parsed
patterns_for w r dir = elim (lookup dir r.dirs) [
  | some ps ↦ (r, ps)
  | none ↦ let ps = parsed w (w.ignore_file dir) in (record r { dirs = (dir, ps) ∷ r.dirs }, ps)
]

-- `infoExclude`
unfoldable pub info_exclude : World → Rules → Rules × List Pattern
unfolding parsed
info_exclude w r =
    let ps = if r.exclude_loaded then r.exclude else parsed w w.exclude_file in
    (record r { exclude = ps; exclude_loaded = true }, ps)

abbrev pub verdict : Option Bool → Bool
verdict (some v) = v
verdict none = false

-- The loop of `match`: `below` is the path from the directory on, first part first, as `relTo`
-- gives it.
unfoldable pub match_from : World → Rules → RepoPath → List Str → Bool → Rules × Bool
unfolding patterns_for match_in info_exclude join
match_from w r [] below is_dir =
    let (r1, ps) = patterns_for w r [] in
    elim (match_in w.glob_match ps (join b'/' below) is_dir) [
      | some v ↦ (r1, v)
      | none ↦
          let (r2, es) = info_exclude w r1 in
          (r2, verdict (match_in w.glob_match es (join b'/' below) is_dir))
    ]
match_from w r (s ∷ dir) below is_dir =
    let (r1, ps) = patterns_for w r (s ∷ dir) in
    elim (match_in w.glob_match ps (join b'/' below) is_dir) [
      | some v ↦ (r1, v)
      | none ↦ match_from w r1 dir (s ∷ below) is_dir
    ]

-- `match`, which is never asked about the root
unfoldable pub match_rel : World → Rules → RepoPath → Bool → Rules × Bool
unfolding match_from
match_rel w r [] is_dir = (r, false)
match_rel w r (s ∷ dir) is_dir = match_from w r dir (s ∷ []) is_dir

-- `dirExcluded`; false for the root, which stands for the callers' test that a parent is not "."
unfoldable pub dir_excluded : World → Rules → RepoPath → Rules × Bool
unfolding lookup match_rel
dir_excluded w r [] = (r, false)
dir_excluded w r (s ∷ dir) = elim (lookup (s ∷ dir) r.verdicts) [
  | some v ↦ (r, v)
  | none ↦
      let (r1, above) = dir_excluded w r dir in
      let (r2, v) = if above then (r1, true) else match_rel w r1 (s ∷ dir) true in
      (record r2 { verdicts = (s ∷ dir, v) ∷ r2.verdicts }, v)
]

unfoldable pub member : RepoPath → List RepoPath → Bool
unfolding path_eq
member p = any (path_eq p)

-- the loop of `loadTracked` over the directories above a name, which ends at a known one
unfoldable pub add_parents : RepoPath → List RepoPath → List RepoPath
unfolding member
add_parents [] t = t
add_parents (s ∷ dir) t = if member (s ∷ dir) t then t else add_parents dir ((s ∷ dir) ∷ t)

abbrev pub parts : Str → RepoPath
unfolding split
parts s = reverse (split b'/' s)

-- `tracked[p] = struct{}{}` and the loop over the parents of p
unfoldable pub add_name : RepoPath → List RepoPath → List RepoPath
unfolding add_parents
add_name [] t = t
add_name (s ∷ dir) t = add_parents dir ((s ∷ dir) ∷ t)

unfoldable pub track_names : List Str → List RepoPath → List RepoPath
unfolding add_name split
track_names [] t = t
track_names ([] ∷ names) t = track_names names t
track_names ((c ∷ name) ∷ names) t = track_names names (add_name (parts (c ∷ name)) t)

-- `loadTracked`
unfoldable pub load_tracked : World → Rules → Rules
unfolding track_names
load_tracked w r = if r.tracked_loaded then r else record r {
  tracked_loaded = true;
  tracked = elim w.index_names [ none ↦ r.tracked | some names ↦ some (track_names names []) ];
}

-- `isTracked`
unfoldable pub is_tracked : World → Rules → RepoPath → Rules × Bool
unfolding load_tracked member
is_tracked w r p =
    let r1 = load_tracked w r in (r1, elim r1.tracked [ none ↦ false | some t ↦ member p t ])

-- the steps of `Ignored` under the mutex
unfoldable pub ignored_at : World → Rules → RepoPath → Bool → Rules × Bool
unfolding dir_excluded match_rel is_tracked
ignored_at w r [] is_dir = (r, false)
ignored_at w r (s ∷ dir) is_dir =
    let (r1, above) = dir_excluded w r dir in
    let (r2, hit) = if above then (r1, true) else match_rel w r1 (s ∷ dir) is_dir in
    let (r3, is_kept) = is_tracked w r2 (s ∷ dir) in if hit then (r3, not is_kept) else (r2, false)

-- the root and what is not below it
unfoldable pub outside : Str → Bool
unfolding str_eq has_prefix
outside rel =
    str_eq rel []
    || str_eq rel (codes ".")
    || str_eq rel (codes "..")
    || has_prefix rel (codes "../")

-- `Ignored`. The path is clean after the slashes at its ends are cut.
unfoldable pub ignored : World → Rules → Str → Bool → Rules × Bool
unfolding trim outside ignored_at split
ignored w r raw is_dir =
    let rel = trim (λ c. c == b'/') raw in
    if outside rel then (r, false) else ignored_at w r (parts rel) is_dir
