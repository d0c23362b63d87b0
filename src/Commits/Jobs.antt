-- ===== src/Commits/Jobs.antt =====
-- internal/app/jobs.go: one poll of the job queue, and what a client may read of it. A failure of
-- the database is left out.
pub mod Own
use ragota.Base.{List, if◌then◌else◌, ltb, none, some, ℕ}
use ragota.Base.Text.{Str, str_eq}
use ragota.Commits.Batch.{Db}
use ragota.Commits.Worker.{Passes, run_queued_job}
use ragota.JobQueue.{
  Job, Queue, Result, claim_next, fail, get_job, list_jobs, not_found, ok, requeue_stale,
}
use ragota.RepoStore.{get_repo}

-- what follows the claim of a job
unfoldable pub run_claim : Passes → Db → ℕ → Str → Result Job → Db
unfolding run_queued_job
run_claim w d now worker (fail e) = d
run_claim w d now worker (ok j) = run_queued_job w d now j worker

-- `pollIndexJobs`
unfoldable pub poll_index_jobs : Passes → Db → ℕ → Str → ℕ → Db
unfolding requeue_stale claim_next run_claim
poll_index_jobs w d now worker stale =
    let (swept, requeued) = requeue_stale d.queue now stale in
    let (claimed_queue, claim) = claim_next swept now worker in
    run_claim w (record d { queue = claimed_queue }) now worker claim

abbrev pub max_job_list_limit : ℕ
max_job_list_limit = 200

-- `RepoJobs`
unfoldable pub repo_jobs : Db → Str → ℕ → Result (List Job)
unfolding get_repo list_jobs
repo_jobs d id limit = elim (get_repo d.repos id) [
  | none ↦ fail not_found
  | some r ↦
      ok (list_jobs d.queue id (if ltb max_job_list_limit limit then max_job_list_limit else limit))
]

-- `RepoJob`
unfoldable pub repo_job : Queue → Str → ℕ → Result Job
unfolding get_job str_eq
repo_job q id job = elim (get_job q job) [
  | fail e ↦ fail e
  | ok j ↦ if str_eq j.repo_id id then ok j else fail not_found
]
