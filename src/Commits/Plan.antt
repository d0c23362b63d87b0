-- ===== src/Commits/Plan.antt =====
-- internal/app/commits.go: commits and the merged plan. A Go map is the list of its entries.
pub mod LastChange
use ragota.Base.{Bool, List, Option, [], false, if◌then◌else◌, none, not, some, true, ◌&&◌, ◌∷◌}
use ragota.Base.Text.{Str, codes, str_eq}

pub record CommitFile : Type 0 where
  pub path : Str
  pub old_path : Str
  pub content : Str
  pub change : Str  -- `Status`: A, M, D or R

pub record CommitEvent : Type 0 where
  pub sha : Str
  pub parents : List Str
  pub files : List CommitFile

pub record PlanEntry : Type 0 where
  pub deletes : Bool
  pub new_content : Str

abbrev pub Plan : Type 0
Plan = List (Str × PlanEntry)

-- `plan[path] = entry`
unfoldable pub put : Str → PlanEntry → Plan → Plan
put k e [] = (k, e) ∷ []
put k e ((k', e') ∷ m) = let rest = put k e m in if str_eq k' k then (k, e) ∷ m else (k', e') ∷ rest

unfoldable pub planned : Str → Plan → Option PlanEntry
planned k [] = none
planned k ((k', e) ∷ m) = let rest = planned k m in if str_eq k' k then some e else rest

abbrev pub removal : PlanEntry
removal = record { deletes = true; new_content = [] }

abbrev pub upsert : CommitFile → PlanEntry
upsert f = record { deletes = false; new_content = f.content }

abbrev pub is_deletion : CommitFile → Bool
is_deletion f = str_eq f.change (codes "D")

abbrev pub is_rename : CommitFile → Bool
is_rename f = str_eq f.change (codes "R")

abbrev pub moves_away : CommitFile → Bool
moves_away f = not (str_eq f.old_path []) && not (str_eq f.old_path f.path)

-- the switch on the status of a file
unfoldable pub plan_file : CommitFile → Plan → Plan
unfolding put str_eq
plan_file f m =
    if is_deletion f
    then put f.path removal m
    else if is_rename f
    then put f.path (upsert f) (if moves_away f then put f.old_path removal m else m)
    else put f.path (upsert f) m

unfoldable pub plan_files : List CommitFile → Plan → Plan
unfolding plan_file
plan_files [] m = m
plan_files (f ∷ fs) m = plan_files fs (plan_file f m)

unfoldable pub plan_commits : List CommitEvent → Plan → Plan
unfolding plan_files
plan_commits [] m = m
plan_commits (c ∷ cs) m = plan_commits cs (plan_files c.files m)

-- `mergeCommitPlan`
unfoldable pub merge_commit_plan : List CommitEvent → Plan
unfolding plan_commits
merge_commit_plan batch = plan_commits batch []
