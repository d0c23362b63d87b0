-- ===== src/Commits/Order.antt =====
-- What the worker of internal/app/jobs.go does to the commit cursor.
use mathlib.Core.Path.{subst}
use ragota.Base.{
  Bool-cases, List, Option, Option-cases, [], any, arith, false, if◌then◌else◌, inl, inr, none,
  refl, some, sym, true, ℕ, ◌+◌, ◌∙◌, ◌≡◌, ◌⊎◌,
}
use ragota.Base.Int.{pos, ℤ}
use ragota.Base.Text.{Str, str_eq}
use ragota.Commits.Batch.{Db, clear_pending_commit, commit_job_order, continues, last_sha}
use ragota.Commits.Cursor.{cursor_in, cursor_in-update, get_repo-is_repo, landed, run-cursor_in}
use ragota.Commits.Plan.{CommitEvent}
use ragota.Commits.Worker.{
  Passes, book_complete, book_release, commit_run, decode_commit_batch, run_batch, run_claimed,
  run_commit_job, run_queued_job,
}
use ragota.JobQueue.{Job, Kind, commits, has_pending_commit_before, index, is_index}
use ragota.RepoStore.{
  Repo, claim_repo, default_claim_ttl, get_repo, is_repo, may_claim, set_pending_commit, take_claim,
  ttl_of,
}

-- what may become of the cursor of a repository in the run of a job
unfoldable pub KeptOrMoved : Passes → Db → Job → Option Str → Type 0
KeptOrMoved w d j after =
    (after ≡ cursor_in d.repos j.repo_id)
    ⊎ ((r : Repo) × (batch : List CommitEvent) × (get_repo d.repos j.repo_id ≡ some r)
        × (decode_commit_batch w j.payload ≡ some batch)
        × (continues r batch ≡ true)
        × (landed (w.commit_pass r batch) ≡ true)
        × (after ≡ some (last_sha batch)))

keeps :
    (w : Passes) (d : Db) (j : Job) (after : Option Str)
    → after ≡ cursor_in d.repos j.repo_id
    → KeptOrMoved w d j after
unfolding KeptOrMoved
keeps w d j after h = inl h

pub claim-cursor_in :
    (rs : List Repo) (now : ℕ) (id owner : Str) (ttl : ℤ) (id' : Str)
    → cursor_in (claim_repo rs now id owner ttl).0 id' ≡ cursor_in rs id'
unfolding claim_repo
claim-cursor_in rs now id owner ttl id' =
    cursor_in-update (may_claim id now) (take_claim owner (now + ttl_of ttl)) rs id' (λ r. refl)
      (λ r. refl)

pending-cursor_in :
    (rs : List Repo) (id sha id' : Str)
    → cursor_in (set_pending_commit rs id sha).0 id' ≡ cursor_in rs id'
unfolding set_pending_commit
pending-cursor_in rs id sha id' =
    cursor_in-update (is_repo id) (λ r. record r { pending_commit = sha }) rs id' (λ r. refl)
      (λ r. refl)

clear-cursor_in :
    (rs : List Repo) (r : Repo) (sha id : Str)
    → cursor_in (clear_pending_commit rs r sha) id ≡ cursor_in rs id
unfolding clear_pending_commit
clear-cursor_in rs r sha id = elim (Bool-cases (str_eq r.pending_commit sha)) [
  | inl e ↦ rw e (pending-cursor_in rs r.repo [] id)
  | inr e ↦ rw e refl
]

-- the cursor after the pass of a commit job
commit_run-cursor_in :
    (w : Passes) (rs : List Repo) (now : ℕ) (r : Repo) (batch : List CommitEvent)
    → cursor_in (commit_run w now r batch rs).0 r.repo ≡ elim (cursor_in rs r.repo) [
      | none ↦ none
      | some c ↦ some (if landed (w.commit_pass r batch) then last_sha batch else c)
    ]
unfolding commit_run
commit_run-cursor_in w rs now r batch =
    run-cursor_in (set_pending_commit rs r.repo (last_sha batch)).0 now r batch
      (w.commit_pass r batch)
    ∙ rw (pending-cursor_in rs r.repo (last_sha batch) r.repo) refl

ran :
    (w : Passes) (d : Db) (now : ℕ) (j : Job) (r : Repo) (batch : List CommitEvent) (rs : List Repo)
    → get_repo d.repos j.repo_id ≡ some r
    → decode_commit_batch w j.payload ≡ some batch
    → continues r batch ≡ true
    → cursor_in rs j.repo_id ≡ cursor_in d.repos j.repo_id
    → KeptOrMoved w d j (cursor_in (commit_run w now r batch rs).0 j.repo_id)
unfolding cursor_in KeptOrMoved
ran w d now j r batch rs g p k same =
    let id = get_repo-is_repo d.repos j.repo_id r g in
    let known : cursor_in d.repos j.repo_id ≡ some r.last_commit = rw (g, cursor_in) refl in
    let after =
      subst
        (λ i. cursor_in (commit_run w now r batch rs).0 i ≡ elim (cursor_in rs i) [
          | none ↦ none
          | some c ↦ some (if landed (w.commit_pass r batch) then last_sha batch else c)
        ])
        id (commit_run-cursor_in w rs now r batch) in
    let moved : cursor_in (commit_run w now r batch rs).0 j.repo_id
        ≡ some (if landed (w.commit_pass r batch) then last_sha batch else r.last_commit) =
      after ∙ rw (same ∙ known) refl in
    elim (Bool-cases (landed (w.commit_pass r batch))) [
      | inl l ↦ inr (r, batch, g, p, k, l, moved ∙ rw l refl)
      | inr l ↦ inl (moved ∙ rw l (sym known))
    ]

run_claimed-KeptOrMoved :
    (w : Passes) (d : Db) (now : ℕ) (j : Job) (worker : Str) (r : Repo) (batch : List CommitEvent)
    → get_repo d.repos j.repo_id ≡ some r
    → decode_commit_batch w j.payload ≡ some batch
    → continues r batch ≡ true
    → KeptOrMoved w d j
        (cursor_in (run_claimed w d now j worker r (commit_run w now r batch)).repos j.repo_id)
unfolding run_claimed book_complete book_release
run_claimed-KeptOrMoved w d now j worker r batch g p k =
    let same = claim-cursor_in d.repos now j.repo_id worker (pos default_claim_ttl) j.repo_id in
    elim (Option-cases (claim_repo d.repos now j.repo_id worker (pos default_claim_ttl)).1) [
      | inl e ↦ rw (e, run_claimed) (keeps w d j _ same)
      | inr (true, e) ↦ rw (e, run_claimed) (ran w d now j r batch _ g p k same)
      | inr (false, e) ↦ rw (e, run_claimed) (keeps w d j _ same)
    ]

run_batch-KeptOrMoved :
    (w : Passes) (d : Db) (now : ℕ) (j : Job) (worker : Str) (r : Repo) (batch : List CommitEvent)
    → get_repo d.repos j.repo_id ≡ some r
    → decode_commit_batch w j.payload ≡ some batch
    → KeptOrMoved w d j (cursor_in (run_batch w d now j worker r batch).repos j.repo_id)
unfolding run_batch book_complete book_release commit_job_order
run_batch-KeptOrMoved w d now j worker r batch g p =
    let kept_cursor = clear-cursor_in d.repos r (last_sha batch) j.repo_id in
    elim (Bool-cases (continues r batch)) [
      | inl k ↦ rw (k, run_batch) (run_claimed-KeptOrMoved w d now j worker r batch g p k)
      | inr k ↦ elim (Bool-cases (any (λ c. str_eq c.sha r.last_commit) batch)) [
        | inl c ↦ rw (k, c, run_batch) (keeps w d j _ kept_cursor)
        | inr c ↦ elim (Bool-cases (has_pending_commit_before d.queue j.repo_id j.id)) [
          | inl e ↦ rw (k, c, e, run_batch) (keeps w d j _ refl)
          | inr e ↦ rw (k, c, e, run_batch) (keeps w d j _ kept_cursor)
        ]
      ]
    ]

run_commit_job-KeptOrMoved :
    (w : Passes) (d : Db) (now : ℕ) (j : Job) (worker : Str)
    → KeptOrMoved w d j (cursor_in (run_commit_job w d now j worker).repos j.repo_id)
unfolding run_commit_job book_complete
run_commit_job-KeptOrMoved w d now j worker =
    elim (Option-cases (decode_commit_batch w j.payload)) [
      | inl p ↦ rw (p, run_commit_job) (keeps w d j _ refl)
      | inr (batch, p) ↦ elim (Option-cases (get_repo d.repos j.repo_id)) [
        | inl g ↦ rw (p, g, run_commit_job) (keeps w d j _ refl)
        | inr (r, g) ↦
            rw (p, g, run_commit_job) (run_batch-KeptOrMoved w d now j worker r batch g p)
      ]
    ]

of_commits {ℓ} :
    (P : Db → Type ℓ) (k : Kind) (a b : Db)
    → elim k [ index ↦ true | commits ↦ false ] ≡ false
    → P b
    → P (elim k [ index ↦ a | commits ↦ b ])
of_commits P index a b h p = ground arith
of_commits P commits a b h p = p

-- The run of a queued commit job leaves the repository's cursor where it is, or moves it to the
-- last commit of the job's batch; it moves it only for a batch that continues the cursor that was
-- read, and whose pass left out no path.
pub run_queued_job-KeptOrMoved :
    (w : Passes) (d : Db) (now : ℕ) (j : Job) (worker : Str)
    → is_index j ≡ false
    → KeptOrMoved w d j (cursor_in (run_queued_job w d now j worker).repos j.repo_id)
unfolding run_queued_job
run_queued_job-KeptOrMoved w d now j worker h =
    of_commits (λ e. KeptOrMoved w d j (cursor_in e.repos j.repo_id)) j.kind _ _ h
      (run_commit_job-KeptOrMoved w d now j worker)
