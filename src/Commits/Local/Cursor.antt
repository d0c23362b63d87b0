-- ===== src/Commits/Local/Cursor.antt =====
-- The commit cursor under `ApplyLocalChanges` of internal/app/commits.go.
use ragota.Base.{
  Bool, List, Option, Option-cases, [], false, inl, inr, none, refl, some, true, ℕ, ◌∙◌, ◌∷◌, ◌≡◌,
}
use ragota.Base.Int.{pos}
use ragota.Base.Text.{Str}
use ragota.Commits.Apply.{Tree, apply_plan}
use ragota.Commits.Batch.{Applied, applied, broke, validate_files}
use ragota.Commits.Cursor.{cursor_in, cursor_in-update}
use ragota.Commits.Local.{apply_local_changes, claimed_local, finish_local, left_text}
use ragota.Commits.Order.{claim-cursor_in}
use ragota.Commits.Plan.{CommitFile, merge_commit_plan}
use ragota.RepoStore.{
  Repo, RepoStatus, claim_repo, default_claim_ttl, failed, get_repo, idle, is_repo, update_status,
}

status-cursor_in :
    (rs : List Repo) (id : Str) (state : RepoStatus) (message : Str) (at : ℕ) (j : Str)
    → cursor_in (update_status rs id state message at).0 j ≡ cursor_in rs j
unfolding update_status
status-cursor_in rs id state message at j =
    cursor_in-update (is_repo id) _ rs j (λ r. refl) (λ r. refl)

module _ {I : Type 0} where
  finish-cursor_in :
      (rs : List Repo) (now : ℕ) (r : Repo) (ix : I) (result : Applied) (j : Str)
      → cursor_in (finish_local rs now r (ix, result)).0 j ≡ cursor_in rs j
  unfolding finish_local
  finish-cursor_in rs now r ix (broke m) j = status-cursor_in rs r.repo failed m r.indexed_at j
  finish-cursor_in rs now r ix (applied (p ∷ ps)) j =
      status-cursor_in rs r.repo failed (left_text (p ∷ ps)) r.indexed_at j
  finish-cursor_in rs now r ix (applied []) j = status-cursor_in rs r.repo idle [] now j

  claimed-cursor_in :
      (t : Tree I) (finish : ℕ) (r : Repo) (fs : List CommitFile) (ix : I) (rs : List Repo)
      (o : Option Bool) (j : Str)
      → cursor_in (claimed_local t finish r fs ix (rs, o)).0 j ≡ cursor_in rs j
  unfolding claimed_local
  claimed-cursor_in t finish r fs ix rs none j = refl
  claimed-cursor_in t finish r fs ix rs (some false) j = refl
  claimed-cursor_in t finish r fs ix rs (some true) j =
      let batch = record { sha = []; parents = []; files = fs } ∷ [] in
      let pass = apply_plan t (merge_commit_plan batch) ix in
      finish-cursor_in rs finish r pass.0 pass.1 j

  -- Local changes move the commit cursor of no repository, whether they are applied, left out in
  -- part or refused.
  pub apply_local_changes-cursor_in :
      (t : Tree I) (rs : List Repo) (now finish : ℕ) (owner id : Str) (fs : List CommitFile)
      (ix : I) (j : Str)
      → cursor_in (apply_local_changes t rs now finish owner id fs ix).0 j ≡ cursor_in rs j
  unfolding apply_local_changes
  apply_local_changes-cursor_in t rs now finish owner id [] ix j = refl
  apply_local_changes-cursor_in t rs now finish owner id (f ∷ fs) ix j =
      elim (Option-cases (validate_files (f ∷ fs))) [
        | inr (e, h) ↦ rw (h, apply_local_changes) refl
        | inl h ↦ elim (Option-cases (get_repo rs id)) [
          | inl e ↦ rw (h, e, apply_local_changes) refl
          | inr (r, e) ↦
              let claim = claim_repo rs now id owner (pos default_claim_ttl) in
              rw (h, e, apply_local_changes)
                (claimed-cursor_in t finish r (f ∷ fs) ix claim.0 claim.1 j
                  ∙ claim-cursor_in rs now id owner (pos default_claim_ttl) j)
        ]
      ]
