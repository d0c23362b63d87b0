-- ===== src/Commits/Worker.antt =====
-- internal/app/jobs.go: the run of one claimed job. Heartbeats while the pass runs are steps of
-- the queue, and the queue may change under the pass: `during` is what the others do meanwhile.
-- The clock stands still during a job, so that `indexed_at` is the time of the claim.

-- what stands outside the model: the codec, the errors' texts, and the index passes
use ragota.Base.{Bool, List, Option, [], false, if◌then◌else◌, none, some, true, ℕ, ◌∷◌}
use ragota.Base.Int.{pos}
use ragota.Base.Text.{Str}
use ragota.Commits.Batch.{
  Applied, Db, clear_pending_commit, commit_job_order, covered, in_turn, last_sha,
  run_apply_commits, too_early,
}
use ragota.Commits.Plan.{CommitEvent}
use ragota.JobQueue.{Job, Queue, commits, complete, has_pending_commit_before, index, release}
use ragota.RepoStore.{Repo, claim_repo, default_claim_ttl, get_repo, set_pending_commit}

pub record Passes : Type 0 where
  pub unmarshal : Str → Option (List CommitEvent)  -- `json.Unmarshal`, without a value on an error
  pub undecodable : Str → Str
  pub gap_text : List CommitEvent → Repo → Str
  pub missing_text : Str → Str
  pub index_pass : Repo → Bool → List Repo → ℕ → List Repo × Option Str  -- `runIndex`
  pub commit_pass : Repo → List CommitEvent → Applied  -- `doApplyCommits`
  pub during : Queue → Queue

-- `decodeCommitBatch`
unfoldable pub decode_commit_batch : Passes → Str → Option (List CommitEvent)
decode_commit_batch w payload = elim (w.unmarshal payload) [
  | none ↦ none
  | some [] ↦ none
  | some (c ∷ cs) ↦ some (c ∷ cs)
]

-- `jobBookkeeper.complete`: a job that is not held any more is left alone
unfoldable pub book_complete : Db → Job → Str → Str → Db
unfolding complete
book_complete d j worker message = record d { queue = (complete d.queue j.id worker message).0 }

-- `jobBookkeeper.release`
unfoldable pub book_release : Db → Job → Str → Db
unfolding release
book_release d j worker = record d { queue = (release d.queue j.id worker).0 }

abbrev text_of : Option Str → Str
text_of none = []
text_of (some s) = s

-- the claim on the repository, the pass, and the result of the job
unfoldable pub run_claimed :
    Passes → Db → ℕ → Job → Str → Repo → (List Repo → List Repo × Option Str) → Db
unfolding claim_repo book_complete book_release
run_claimed w d now j worker r pass =
    let (rs, got) = claim_repo d.repos now j.repo_id worker (pos default_claim_ttl) in
    elim got [
      | none ↦ book_complete (record d { repos = rs }) j worker (w.missing_text j.repo_id)
      | some false ↦ book_release (record d { repos = rs }) j worker
      | some true ↦
          let (rs2, message) = pass rs in
          book_complete (record { queue = w.during d.queue; repos = rs2 }) j worker
            (text_of message)
    ]

-- the pass of a commit job: `SetRepoPendingCommit`, then `runApplyCommits`
unfoldable pub commit_run :
    Passes → ℕ → Repo → List CommitEvent → List Repo → List Repo × Option Str
unfolding set_pending_commit run_apply_commits
commit_run w now r batch rs =
    run_apply_commits (set_pending_commit rs r.repo (last_sha batch)).0 now r batch
      (w.commit_pass r batch)

-- a commit job whose batch is decoded
unfoldable pub run_batch : Passes → Db → ℕ → Job → Str → Repo → List CommitEvent → Db
unfolding commit_job_order clear_pending_commit has_pending_commit_before run_claimed commit_run
    book_complete book_release
run_batch w d now j worker r batch = elim (commit_job_order r batch) [
  | in_turn ↦ run_claimed w d now j worker r (commit_run w now r batch)
  | covered ↦
      book_complete (record d { repos = clear_pending_commit d.repos r (last_sha batch) }) j worker
        []
  | too_early ↦
      if has_pending_commit_before d.queue j.repo_id j.id
      then book_release d j worker
      else book_complete (record d { repos = clear_pending_commit d.repos r (last_sha batch) }) j
          worker (w.gap_text batch r)
]

-- `runQueuedJob`, by the kind of the job
unfoldable pub run_index_job : Passes → Db → ℕ → Job → Str → Db
unfolding get_repo run_claimed book_complete
run_index_job w d now j worker = elim (get_repo d.repos j.repo_id) [
  | none ↦ book_complete d j worker (w.missing_text j.repo_id)
  | some r ↦ run_claimed w d now j worker r (λ rs. w.index_pass r j.force rs now)
]

unfoldable pub run_commit_job : Passes → Db → ℕ → Job → Str → Db
unfolding decode_commit_batch get_repo run_batch book_complete
run_commit_job w d now j worker = elim (decode_commit_batch w j.payload) [
  | none ↦ book_complete d j worker (w.undecodable j.payload)
  | some batch ↦ elim (get_repo d.repos j.repo_id) [
    | none ↦ book_complete d j worker (w.missing_text j.repo_id)
    | some r ↦ run_batch w d now j worker r batch
  ]
]

unfoldable pub run_queued_job : Passes → Db → ℕ → Job → Str → Db
unfolding run_index_job run_commit_job
run_queued_job w d now j worker = elim j.kind [
  | index ↦ run_index_job w d now j worker
  | commits ↦ run_commit_job w d now j worker
]
