-- ===== src/Commits/Local.antt =====
-- internal/app/commits.go: `ApplyLocalChanges`, the pass over changes that no commit holds.
pub mod Cursor
mod Tests
use ragota.Base.{Bool, List, Option, [], false, length, none, some, true, ℕ, ◌++◌, ◌∷◌}
use ragota.Base.Int.{pos}
use ragota.Base.Text.{Str, codes, decimal, decimal_on, join_with}
use ragota.Commits.Apply.{Tree, apply_plan}
use ragota.Commits.Batch.{Applied, ApplyError, applied, broke, validate_files}
use ragota.Commits.Plan.{CommitFile, merge_commit_plan}
use ragota.RepoStore.{Repo, claim_repo, default_claim_ttl, failed, get_repo, idle, update_status}

pub data LocalAnswer : Type 0 where
  bad_change : ApplyError → LocalAnswer
  unknown_repo repo_busy all_applied : LocalAnswer
  left_unindexed : Str → LocalAnswer

unfoldable pub left_text : List Str → Str
unfolding join_with decimal_on
left_text paths =
    decimal (length paths) ++ codes " path(s) left unindexed: " ++ join_with (codes ", ") paths

-- what follows the pass, for the repository as it was read before
unfoldable pub finish_local :
    {I : Type 0} → List Repo → ℕ → Repo → I × Applied → List Repo × I × LocalAnswer
unfolding update_status left_text
finish_local rs now r (ix, broke message) =
    ((update_status rs r.repo failed message r.indexed_at).0, ix, left_unindexed message)
finish_local rs now r (ix, applied (p ∷ ps)) = (
  (update_status rs r.repo failed (left_text (p ∷ ps)) r.indexed_at).0,
  ix,
  left_unindexed (left_text (p ∷ ps)),
)
finish_local rs now r (ix, applied []) = ((update_status rs r.repo idle [] now).0, ix, all_applied)

-- what follows the claim
unfoldable pub claimed_local :
    {I : Type 0}
    → Tree I
    → ℕ
    → Repo
    → List CommitFile
    → I
    → List Repo × Option Bool
    → List Repo × I × LocalAnswer
unfolding finish_local apply_plan merge_commit_plan
claimed_local t finish r files ix (rs, none) = (rs, ix, unknown_repo)
claimed_local t finish r files ix (rs, some false) = (rs, ix, repo_busy)
claimed_local t finish r files ix (rs, some true) =
    let batch = record { sha = []; parents = []; files = files } ∷ [] in
    finish_local rs finish r (apply_plan t (merge_commit_plan batch) ix)

-- `ApplyLocalChanges`, called at one time and finish at another
unfoldable pub apply_local_changes :
    {I : Type 0}
    → Tree I
    → List Repo
    → ℕ
    → ℕ
    → Str
    → Str
    → List CommitFile
    → I
    → List Repo × I × LocalAnswer
unfolding validate_files get_repo claim_repo claimed_local
apply_local_changes t rs now finish owner id [] ix = (rs, ix, all_applied)
apply_local_changes t rs now finish owner id (f ∷ fs) ix = elim (validate_files (f ∷ fs)) [
  | some e ↦ (rs, ix, bad_change e)
  | none ↦ elim (get_repo rs id) [
    | none ↦ (rs, ix, unknown_repo)
    | some r ↦
        claimed_local t finish r (f ∷ fs) ix (claim_repo rs now id owner (pos default_claim_ttl))
  ]
]
