-- ===== src/Commits/Batch.antt =====
-- internal/app/commits.go: which batches are accepted, and what a run of one writes. The database
-- is the job queue and the rows of `repos`.

use ragota.Base.{
  Bool, List, Option, [], any, false, if◌then◌else◌, length, none, not, some, true, ℕ, ◌&&◌, ◌++◌,
  ◌||◌, ◌∷◌,
}
use ragota.Base.Int.{pos}
use ragota.Base.Text.{Str, codes, decimal, decimal_on, has_prefix, join_with, split, str_eq}
use ragota.Commits.Plan.{CommitEvent, CommitFile}
use ragota.JobQueue.{Queue, enqueue_commit}
use ragota.RepoStore.{
  Repo, claim_repo, default_claim_ttl, failed, get_repo, idle, set_pending_commit,
  update_last_commit, update_status,
}

pub record Db : Type 0 where
  pub queue : Queue
  pub repos : List Repo

pub data ApplyError : Type 0 where
  bad_request invalid_path repo_missing repo_busy : ApplyError

pub record Ack : Type 0 where
  pub accepted : Bool
  pub status_text : Str
  pub queued : Bool
  pub job_id : Option ℕ
  pub target : Str
  pub cursor_before : Str

pub data Answer : Type 0 where
  refused : ApplyError → Answer
  answered : Ack → Answer

-- `hasParent`
unfoldable pub has_parent : List Str → Str → Bool
unfolding str_eq
has_parent ps sha = any (λ p. str_eq p sha) ps

-- one part of a path in `filepath.Clean`; the parts so far are last first
unfoldable pub clean_part : List Str → Str → List Str
unfolding str_eq
clean_part stack s =
    if str_eq s [] || str_eq s (codes ".")
    then stack
    else if not (str_eq s (codes ".."))
    then s ∷ stack
    else elim stack [ [] ↦ s ∷ [] | t ∷ ts ↦ if str_eq t (codes "..") then s ∷ t ∷ ts else ts ]

unfoldable pub clean_parts : List Str → List Str → List Str
unfolding clean_part
clean_parts stack [] = stack
clean_parts stack (s ∷ ss) = clean_parts (clean_part stack s) ss

-- Whether the first part of `filepath.Clean` is "..", for a relative path: `clean == ".."` or
-- `clean` begins with "../".
unfoldable pub last_is_up : List Str → Bool
unfolding str_eq
last_is_up [] = false
last_is_up (s ∷ []) = str_eq s (codes "..")
last_is_up (s ∷ t ∷ ss) = last_is_up (t ∷ ss)

unfoldable pub escapes : Str → Bool
unfolding clean_parts split last_is_up
escapes path = last_is_up (clean_parts [] (split b'/' path))

-- `validateCommitPath`; none is success
unfoldable pub validate_commit_path : Str → Option ApplyError
unfolding str_eq escapes has_prefix
validate_commit_path path =
    if str_eq path []
    then some invalid_path
    else if has_prefix path (b'/' ∷ []) || has_prefix path (92 ∷ [])
    then some invalid_path
    else if escapes path
    then some invalid_path
    else none

unfoldable pub validate_files : List CommitFile → Option ApplyError
unfolding validate_commit_path str_eq
validate_files [] = none
validate_files (f ∷ fs) = elim (validate_commit_path f.path) [
  | some e ↦ some e
  | none ↦ elim (if str_eq f.old_path [] then none else validate_commit_path f.old_path) [
    | some e ↦ some e
    | none ↦ validate_files fs
  ]
]

unfoldable pub validate_batch : List CommitEvent → Option ApplyError
unfolding validate_files str_eq
validate_batch [] = none
validate_batch (c ∷ cs) =
    if str_eq c.sha []
    then some bad_request
    else elim (validate_files c.files) [ some e ↦ some e | none ↦ validate_batch cs ]

abbrev pub first_parents : List CommitEvent → List Str
first_parents [] = []
first_parents (c ∷ cs) = c.parents

abbrev pub last_sha : List CommitEvent → Str
last_sha [] = []
last_sha (c ∷ []) = c.sha
last_sha (c ∷ d ∷ cs) = last_sha (d ∷ cs)

-- the commit-gap check
unfoldable pub continues : Repo → List CommitEvent → Bool
unfolding has_parent str_eq
continues r batch = str_eq r.last_commit [] || has_parent (first_parents batch) r.last_commit

abbrev pub follows_pending : Repo → List CommitEvent → Bool
unfolding has_parent str_eq
follows_pending r batch =
    not (str_eq r.pending_commit []) && has_parent (first_parents batch) r.pending_commit

-- `encodeCommitBatch` and the queue, with distributed indexing
unfoldable pub queue_batch :
    (List CommitEvent → Str) → Db → ℕ → Repo → List CommitEvent → Db × Answer
unfolding enqueue_commit set_pending_commit
queue_batch encode d now r batch =
    let (q, j) = enqueue_commit d.queue now r.repo (encode batch) in
    (
      record { queue = q; repos = (set_pending_commit d.repos r.repo (last_sha batch)).0 },
      answered (record {
        accepted = true;
        status_text = codes "queued";
        queued = true;
        job_id = some j.id;
        target = last_sha batch;
        cursor_before = r.last_commit;
      }),
    )

-- the claim, after which the run starts in the background
unfoldable pub start_batch : Db → ℕ → Str → Repo → List CommitEvent → Db × Answer
unfolding claim_repo set_pending_commit
start_batch d now owner r batch =
    let (rs, got) = claim_repo d.repos now r.repo owner (pos default_claim_ttl) in
    elim got [
      | none ↦ (record d { repos = rs }, refused repo_missing)
      | some false ↦ (record d { repos = rs }, refused repo_busy)
      | some true ↦ (
        record d { repos = (set_pending_commit rs r.repo (last_sha batch)).0 },
        answered (record {
          accepted = true;
          status_text = codes "indexing";
          queued = false;
          job_id = none;
          target = last_sha batch;
          cursor_before = r.last_commit;
        }),
      )
    ]

abbrev gap : Repo → Ack
gap r = record {
  accepted = false;
  status_text = [];
  queued = false;
  job_id = none;
  target = [];
  cursor_before = r.last_commit;
}

-- `ApplyCommits`
unfoldable pub apply_commits :
    (List CommitEvent → Str) → Bool → Db → ℕ → Str → Str → List CommitEvent → Db × Answer
unfolding validate_batch get_repo queue_batch start_batch has_parent str_eq
apply_commits encode distributed d now owner id [] = (d, refused bad_request)
apply_commits encode distributed d now owner id (c ∷ cs) = elim (validate_batch (c ∷ cs)) [
  | some e ↦ (d, refused e)
  | none ↦ elim (get_repo d.repos id) [
    | none ↦ (d, refused repo_missing)
    | some r ↦
        if not (continues r (c ∷ cs))
        then (if follows_pending r (c ∷ cs) then (d, refused repo_busy) else (d, answered (gap r)))
        else if distributed
        then queue_batch encode d now r (c ∷ cs)
        else start_batch d now owner r (c ∷ cs)
  ]
]

-- What the index pass of `doApplyCommits` returns: an error, or the paths that it left out.
pub data Applied : Type 0 where
  broke : Str → Applied
  applied : List Str → Applied

unfoldable pub partly : List Str → Str
unfolding join_with decimal_on
partly paths =
    codes "commit batch partially applied; "
    ++ decimal (length paths)
    ++ codes " path(s) left unindexed: "
    ++ join_with (codes ", ") paths

-- `runApplyCommits`, for the repository as it was read before, with the error that it returns
unfoldable pub run_apply_commits :
    List Repo → ℕ → Repo → List CommitEvent → Applied → List Repo × Option Str
unfolding update_status update_last_commit join_with decimal_on partly
run_apply_commits rs now r batch (broke message) =
    ((update_status rs r.repo failed message r.indexed_at).0, some message)
run_apply_commits rs now r batch (applied (p ∷ ps)) =
    ((update_status rs r.repo failed (partly (p ∷ ps)) r.indexed_at).0, some (partly (p ∷ ps)))
run_apply_commits rs now r batch (applied []) =
    ((update_status (update_last_commit rs r.repo (last_sha batch)).0 r.repo idle [] now).0, none)

-- `clearPendingCommit`
unfoldable pub clear_pending_commit : List Repo → Repo → Str → List Repo
unfolding set_pending_commit str_eq
clear_pending_commit rs r sha =
    if not (str_eq r.pending_commit sha) then rs else (set_pending_commit rs r.repo []).0

pub data BatchOrder : Type 0 where
  in_turn covered too_early : BatchOrder

-- `commitJobOrder`
unfoldable pub commit_job_order : Repo → List CommitEvent → BatchOrder
unfolding has_parent str_eq
commit_job_order r batch =
    if continues r batch
    then in_turn
    else if any (λ c. str_eq c.sha r.last_commit) batch
    then covered
    else too_early
