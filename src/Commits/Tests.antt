-- ===== src/Commits/Tests.antt =====
-- The theorems on commit batches, on one repository and two batches.

use ragota.Base.{List, [], all, false, none, not, refl, some, true, ◌&&◌, ◌↔◌, ◌∷◌, ◌≡◌, ◌≢◌}
use ragota.Base.Text.{Str, codes, has_prefix, split, str_eq}
use ragota.Commits.Accept.{Continued, apply_commits-accepted, apply_commits-refused, safe_commit}
use ragota.Commits.Batch.{
  Db, applied, apply_commits, clean_part, clean_parts, commit_job_order, continues, escapes,
  has_parent, last_is_up, run_apply_commits, start_batch, validate_batch, validate_commit_path,
  validate_files,
}
use ragota.Commits.Cursor.{cursor_in, is_none, landed, row_after, run_apply_commits_lem}
use ragota.Commits.Order.{KeptOrMoved, run_queued_job-KeptOrMoved}
use ragota.Commits.Paths.{stays, validate_commit_path_lem}
use ragota.Commits.Plan.{CommitEvent, CommitFile, merge_commit_plan, planned}
use ragota.Commits.Plan.LastChange.{all_files, last_action, planned-merge_commit_plan}
use ragota.Commits.Worker.{
  Passes, book_complete, commit_run, decode_commit_batch, run_batch, run_claimed, run_commit_job,
  run_queued_job,
}
use ragota.JobQueue.{Job, commits, complete, count, running, update}
use ragota.RepoStore.{
  Repo, claim_repo, count_repos, get_repo, idle, indexing, set_pending_commit, update_last_commit,
  update_repos, update_status,
}

abbrev the_repo : Str
the_repo = codes "r1"

abbrev row : Repo
row = record {
  repo = the_repo;
  repo_name = codes "one";
  source = codes "git";
  url = [];
  path = codes "/srv/one";
  branch = codes "main";
  created_at = 3;
  indexed_at = 7;
  state = idle;
  last_error = [];
  last_commit = codes "aa";
  pending_commit = [];
  active = true;
  claimer = [];
  claim_expires_at = 0;
}

abbrev busy_row : Repo
busy_row = record row { state = indexing; claim_expires_at = 900 }

abbrev change_at : Str → Str → CommitFile
change_at path change = record { path = path; old_path = []; content = codes "x"; change = change }

abbrev next_batch : List CommitEvent
next_batch =
    record {
      sha = codes "bb";
      parents = codes "aa" ∷ [];
      files = change_at (codes "a/b.go") (codes "M") ∷ change_at (codes "a/b.go") (codes "D") ∷ [];
    }
    ∷ []

abbrev other_batch : List CommitEvent
other_batch = record { sha = codes "dd"; parents = codes "cc" ∷ []; files = [] } ∷ []

abbrev one_repo : Db
one_repo = record { queue = record { jobs = []; next_id = 1 }; repos = row ∷ [] }

abbrev no_text : List CommitEvent → Str
no_text batch = []

planned-merge_commit_plan_example :
    planned (codes "a/b.go") (merge_commit_plan next_batch)
    ≡ last_action (codes "a/b.go") (all_files next_batch)
planned-merge_commit_plan_example = planned-merge_commit_plan (codes "a/b.go") next_batch

validate_commit_path_lem_example : (validate_commit_path (codes "a/../../b") ≡ none) ↔ (
    (not (str_eq (codes "a/../../b") [])
      && not (has_prefix (codes "a/../../b") (b'/' ∷ []))
      && not (has_prefix (codes "a/../../b") (92 ∷ []))
      && stays 0 (split b'/' (codes "a/../../b")))
    ≡ true)
validate_commit_path_lem_example = validate_commit_path_lem (codes "a/../../b")

apply_commits-refused_example :
    (apply_commits no_text true one_repo 10 (codes "me") the_repo other_batch).0 ≡ one_repo
unfolding apply_commits validate_batch validate_files validate_commit_path get_repo has_parent
    continues str_eq
apply_commits-refused_example =
    apply_commits-refused no_text true one_repo 10 (codes "me") the_repo other_batch refl

apply_commits-accepted_example :
    (next_batch ≢ [])
    × (all safe_commit next_batch ≡ true)
    × (r : Repo) × (get_repo one_repo.repos the_repo ≡ some r)
    × Continued r.last_commit next_batch
unfolding apply_commits validate_batch validate_files validate_commit_path get_repo has_parent
    continues str_eq start_batch claim_repo count_repos escapes clean_parts clean_part last_is_up
    split has_prefix
apply_commits-accepted_example =
    apply_commits-accepted no_text false one_repo 10 (codes "me") the_repo next_batch refl

run_apply_commits_lem_example :
    (get_repo (run_apply_commits (row ∷ []) 20 row next_batch (applied [])).0 row.repo
      ≡ elim (get_repo (row ∷ []) row.repo) [
        | none ↦ none
        | some r ↦ some (row_after row r next_batch 20 (applied []))
      ])
    × (is_none (run_apply_commits (row ∷ []) 20 row next_batch (applied [])).1
        ≡ landed (applied []))
run_apply_commits_lem_example = run_apply_commits_lem (row ∷ []) 20 row next_batch (applied [])

abbrev passes : Passes
passes = record {
  unmarshal = λ s. some next_batch;
  undecodable = λ s. s;
  gap_text = λ batch r. r.repo;
  missing_text = λ s. s;
  index_pass = λ r force rs now. (rs, none);
  commit_pass = λ r batch. applied [];
  during = λ q. q;
}

abbrev commit_job : Job
commit_job = record {
  id = 1;
  repo_id = the_repo;
  kind = commits;
  force = false;
  status = running;
  message = [];
  created_at = 1;
  claimed_at = 2;
  heartbeat_at = 2;
  claimed_by = codes "me";
  payload = codes "[]";
}

run_queued_job-KeptOrMoved_example :
    KeptOrMoved passes one_repo commit_job
      (cursor_in (run_queued_job passes one_repo 10 commit_job (codes "me")).repos the_repo)
run_queued_job-KeptOrMoved_example =
    run_queued_job-KeptOrMoved passes one_repo 10 commit_job (codes "me") refl

cursor_moves :
    cursor_in (run_queued_job passes one_repo 10 commit_job (codes "me")).repos the_repo
    ≡ some (codes "bb")
unfolding run_queued_job run_commit_job decode_commit_batch run_batch run_claimed commit_run
    book_complete complete update count claim_repo update_repos count_repos set_pending_commit
    run_apply_commits update_status update_last_commit get_repo commit_job_order has_parent
    continues str_eq cursor_in
cursor_moves = refl
