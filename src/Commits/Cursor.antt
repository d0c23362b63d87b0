-- ===== src/Commits/Cursor.antt =====
-- The commit cursor of internal/app/commits.go: when it moves, and to what.

-- whether the pass left nothing out
use ragota.Base.{
  Bool, Bool-cases, List, Option, Option-cases, [], ap, arith, false, if◌then◌else◌, inl, inr, none,
  refl, some, sym, true, ℕ, ◌∙◌, ◌∷◌, ◌≡◌,
}
use ragota.Base.Text.{Str, str_eq_iff}
use ragota.Commits.Batch.{Applied, applied, broke, last_sha, partly, run_apply_commits}
use ragota.Commits.Plan.{CommitEvent}
use ragota.RepoStore.{
  Repo, failed, get_repo, idle, is_repo, update_last_commit, update_repos, update_status,
}
use ragota.RepoStore.Claims.{get_repo-set, get_repo-update}

abbrev pub landed : Applied → Bool
landed (broke message) = false
landed (applied []) = true
landed (applied (p ∷ ps)) = false

abbrev pub row_after : Repo → Repo → List CommitEvent → ℕ → Applied → Repo
unfolding partly
row_after read r batch now result = record r {
  state = if landed result then idle else failed;
  last_error = elim result [ broke m ↦ m | applied [] ↦ [] | applied (p ∷ ps) ↦ partly (p ∷ ps) ];
  indexed_at = if landed result then now else read.indexed_at;
  last_commit = if landed result then last_sha batch else r.last_commit;
  claimer = [];
  claim_expires_at = 0;
  pending_commit = [];
}

abbrev pub is_none : Option Str → Bool
is_none none = true
is_none (some s) = false

moved :
    (rs : List Repo) (id sha : Str)
    → get_repo (update_last_commit rs id sha).0 id
      ≡ elim (get_repo rs id) [ none ↦ none | some r ↦ some (record r { last_commit = sha }) ]
unfolding update_last_commit
moved rs id sha = get_repo-set (λ r. record r { last_commit = sha }) rs id (λ r. refl)

-- The end of a run frees the repository's row from the claim and from the pending commit; it moves
-- the cursor to the batch's last commit and reports no error exactly if the pass left out no path.
pub run_apply_commits_lem :
    (rs : List Repo) (now : ℕ) (read : Repo) (batch : List CommitEvent) (result : Applied)
    → (get_repo (run_apply_commits rs now read batch result).0 read.repo
        ≡ elim (get_repo rs read.repo) [
          | none ↦ none
          | some r ↦ some (row_after read r batch now result)
        ])
      × (is_none (run_apply_commits rs now read batch result).1 ≡ landed result)
unfolding run_apply_commits update_status update_last_commit row_after
run_apply_commits_lem rs now read batch (broke m) = (get_repo-set _ rs read.repo (λ r. refl), refl)
run_apply_commits_lem rs now read batch (applied (p ∷ ps)) =
    (get_repo-set _ rs read.repo (λ r. refl), refl)
run_apply_commits_lem rs now read batch (applied []) = (
  get_repo-set _ (update_last_commit rs read.repo (last_sha batch)).0 read.repo (λ r. refl)
      ∙ (elim (Option-cases (get_repo rs read.repo)) [
        | inl e ↦ rw (moved rs read.repo (last_sha batch)) (rw e refl)
        | inr (r, e) ↦ rw (moved rs read.repo (last_sha batch)) (rw e refl)
      ]),
  refl,
)

pub get_repo-is_repo :
    (rs : List Repo) (id : Str) (r : Repo) → get_repo rs id ≡ some r → r.repo ≡ id
unfolding get_repo
get_repo-is_repo [] id r h = ground arith
get_repo-is_repo (x ∷ rs) id r h = elim (Bool-cases (is_repo id x)) [
  | inl e ↦
      let same : x ≡ r = ground arith in ap (λ y. y.repo) (sym same) ∙ (str_eq_iff x.repo id).0 e
  | inr e ↦ get_repo-is_repo rs id r (ground arith)
]

-- the cursor in rows
unfoldable pub cursor_in : List Repo → Str → Option Str
unfolding get_repo
cursor_in rs id = elim (get_repo rs id) [ none ↦ none | some r ↦ some r.last_commit ]

pub cursor_in-update :
    (p : Repo → Bool) (f : Repo → Repo) (rs : List Repo) (id : Str)
    → ((r : Repo) → (f r).repo ≡ r.repo)
    → ((r : Repo) → (f r).last_commit ≡ r.last_commit)
    → cursor_in (update_repos p f rs) id ≡ cursor_in rs id
unfolding cursor_in
cursor_in-update p f rs id h k = elim (Option-cases (get_repo rs id)) [
  | inl e ↦ rw (get_repo-update p f rs id h, cursor_in) (rw (e, cursor_in) refl)
  | inr (r, e) ↦
      rw (get_repo-update p f rs id h, cursor_in)
        (rw (e, cursor_in)
          (elim (Bool-cases (p r)) [ inl e' ↦ rw e' (ap some (k r)) | inr e' ↦ rw e' refl ]))
]

pub run-cursor_in :
    (rs : List Repo) (now : ℕ) (read : Repo) (batch : List CommitEvent) (result : Applied)
    → cursor_in (run_apply_commits rs now read batch result).0 read.repo
      ≡ elim (cursor_in rs read.repo) [
        | none ↦ none
        | some c ↦ some (if landed result then last_sha batch else c)
      ]
unfolding cursor_in row_after
run-cursor_in rs now read batch result =
    let after = (run_apply_commits_lem rs now read batch result).0 in
    elim (Option-cases (get_repo rs read.repo)) [
      | inl e ↦ rw (after, cursor_in) (rw (e, cursor_in) refl)
      | inr (r, e) ↦ rw (after, cursor_in) (rw (e, cursor_in) refl)
    ]
