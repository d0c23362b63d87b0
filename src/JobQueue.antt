-- ===== src/JobQueue.antt =====
-- internal/store/sqlite/jobs.go: the indexing job queue over the table `index_jobs`.
-- The table is the list of its rows in the order of their ids; `now` is `time.Now().Unix()`.
-- A statement that would break the unique index over pending index jobs fails as a whole.
pub mod Table
pub mod Valid
pub mod Requeue
pub mod Rows
pub mod Step
pub mod Lifecycle
pub mod Batches
pub mod Claim
pub mod Enqueue
pub mod Sweep
mod Tests
use Prim.Native.Nat.{min}
use mathlib.Core.List.{reverse}
use ragota.Base.{
  Bool, List, Option, [], all, any, false, if◌then◌else◌, leb, ltb, map, none, not, some, suc, take,
  true, ℕ, ◌&&◌, ◌++◌, ◌+◌, ◌-◌, ◌==◌, ◌||◌, ◌∷◌,
}
use ragota.Base.Text.{Str, codes, str_eq}

pub data Status : Type 0 where
  pending running done error : Status

pub data Kind : Type 0 where
  index commits : Kind

pub record Job : Type 0 where
  pub id : ℕ
  pub repo_id : Str
  pub kind : Kind
  pub force : Bool
  pub status : Status
  pub message : Str  -- the column `error`
  pub created_at : ℕ
  pub claimed_at : ℕ
  pub heartbeat_at : ℕ
  pub claimed_by : Str
  pub payload : Str

pub record Queue : Type 0 where
  pub jobs : List Job
  pub next_id : ℕ

pub data Failure : Type 0 where
  not_found unique_violation : Failure

pub data Result {ℓ} (A : Type ℓ) : Type ℓ where
  ok : A → Result A
  fail : Failure → Result A

abbrev pub is_pending : Job → Bool
is_pending j = elim j.status [ pending ↦ true | _ ↦ false ]

abbrev pub is_running : Job → Bool
is_running j = elim j.status [ running ↦ true | _ ↦ false ]

abbrev pub is_index : Job → Bool
is_index j = elim j.kind [ index ↦ true | _ ↦ false ]

-- the rows of the partial unique index, for one repository
abbrev pub is_slot : Str → Job → Bool
is_slot repo j = is_pending j && is_index j && str_eq j.repo_id repo

-- `UPDATE … SET f WHERE p`, and the rows affected
unfoldable pub update : (Job → Bool) → (Job → Job) → List Job → List Job
update p f [] = []
update p f (j ∷ js) = (if p j then f j else j) ∷ update p f js

unfoldable pub count : (Job → Bool) → List Job → ℕ
count p [] = 0
count p (j ∷ js) = let rest = count p js in if p j then suc rest else rest

-- the first row that passes: `ORDER BY id LIMIT 1`
unfoldable pub find : (Job → Bool) → List Job → Option Job
find p [] = none
find p (j ∷ js) = if p j then some j else find p js

-- whether the unique index admits the table
unfoldable pub admits : List Job → Bool
unfolding count
admits jobs = all (λ j. leb (count (is_slot j.repo_id) jobs) 1) jobs

unfoldable pub new_job : ℕ → ℕ → Str → Kind → Bool → Str → Job
new_job id now repo kind force payload = record {
  id = id;
  repo_id = repo;
  kind = kind;
  force = force;
  status = pending;
  message = [];
  created_at = now;
  claimed_at = 0;
  heartbeat_at = 0;
  claimed_by = [];
  payload = payload;
}

abbrev insert : Queue → Job → Queue
insert q j = record { jobs = q.jobs ++ j ∷ []; next_id = q.next_id + 1 }

-- `EnqueueIndexJob`: the upsert on the unique index
unfoldable pub enqueue_index : Queue → ℕ → Str → Bool → Queue × Job
unfolding update find new_job
enqueue_index q now repo force = elim (find (is_slot repo) q.jobs) [
  | some j ↦ (
    record q { jobs = update (is_slot repo) (λ i. record i { force = i.force || force }) q.jobs },
    record j { force = j.force || force; payload = [] },
  )
  | none ↦
      let j = new_job q.next_id now repo index force [] in (insert q j, record j { payload = [] })
]

-- `EnqueueCommitJob`. The row that comes back has no payload.
unfoldable pub enqueue_commit : Queue → ℕ → Str → Str → Queue × Job
unfolding new_job
enqueue_commit q now repo payload =
    let j = new_job q.next_id now repo commits false payload in
    (insert q j, record j { payload = [] })

-- `GetIndexJob`
unfoldable pub get_job : Queue → ℕ → Result Job
unfolding find
get_job q id = elim (find (λ j. j.id == id) q.jobs) [
  | some j ↦ ok (record j { payload = [] })
  | none ↦ fail not_found
]

abbrev pub default_list_limit : ℕ
default_list_limit = 50

unfoldable pub select : (Job → Bool) → List Job → List Job
select p [] = []
select p (j ∷ js) = if p j then j ∷ select p js else select p js

abbrev pub without_payload : Job → Job
without_payload j = record j { payload = [] }

-- `ListIndexJobs`: newest first. The limit is a Go int; one that is not positive is 0 here.
unfoldable pub list_jobs : Queue → Str → ℕ → List Job
unfolding select
list_jobs q repo limit =
    take (if limit == 0 then default_list_limit else limit)
      (map without_payload (reverse (select (λ j. str_eq j.repo_id repo) q.jobs)))

-- `HasPendingCommitJobBefore`
unfoldable pub has_pending_commit_before : Queue → Str → ℕ → Bool
has_pending_commit_before q repo id =
    any
      (λ j.
        str_eq j.repo_id repo && not (is_index j) && (is_pending j || is_running j) && ltb j.id id)
      q.jobs

-- `ClaimNextIndexJob`
unfoldable pub claim_next : Queue → ℕ → Str → Queue × Result Job
unfolding update find
claim_next q now worker = elim (find is_pending q.jobs) [
  | none ↦ (q, fail not_found)
  | some j ↦
      let claim = λ (i : Job). record i {
        status = running;
        claimed_by = worker;
        claimed_at = now;
        heartbeat_at = now;
      } in
      (record q { jobs = update (λ i. i.id == j.id) claim q.jobs }, ok (claim j))
]

-- `UPDATE … WHERE id = ? AND status = 'running' AND claimed_by = ?`
abbrev pub held_by : ℕ → Str → Job → Bool
held_by id worker j = (j.id == id) && is_running j && str_eq j.claimed_by worker

abbrev pub affected : ℕ → Result (Unit {0})
affected n = if n == 0 then fail not_found else ok tt

-- `HeartbeatIndexJob`
unfoldable pub heartbeat : Queue → ℕ → ℕ → Str → Queue × Result (Unit {0})
unfolding update count
heartbeat q now id worker = (
  record q { jobs = update (held_by id worker) (λ j. record j { heartbeat_at = now }) q.jobs },
  affected (count (held_by id worker) q.jobs),
)

abbrev pub outcome : Str → Status
outcome [] = done
outcome (c ∷ s) = error

-- `CompleteIndexJob`: an empty message is success
unfoldable pub complete : Queue → ℕ → Str → Str → Queue × Result (Unit {0})
unfolding update count
complete q id worker message = (
  record q {
    jobs =
        update (held_by id worker)
          (λ j. record j { status = outcome message; message = message; payload = [] }) q.jobs;
  },
  affected (count (held_by id worker) q.jobs),
)

abbrev pub back_to_pending : Job → Job
back_to_pending j = record j { status = pending; claimed_by = []; claimed_at = 0; heartbeat_at = 0 }

abbrev pub superseded : Str
superseded = codes "superseded by a pending job for the same repo"

abbrev pub has_slot : List Job → Str → Bool
has_slot jobs repo = any (is_slot repo) jobs

-- what the `WHERE` of `ReleaseIndexJob` selects
abbrev pub releases : List Job → ℕ → Str → Job → Bool
releases jobs id worker j =
    held_by id worker j && (not (is_index j) || not (has_slot jobs j.repo_id))

-- the first statement of `ReleaseIndexJob`, with the rows affected
unfoldable pub release_free : Queue → ℕ → Str → Queue × Result ℕ
unfolding update count admits
release_free q id worker =
    let jobs' = update (releases q.jobs id worker) back_to_pending q.jobs in
    if not (admits jobs')
    then (q, fail unique_violation)
    else (record q { jobs = jobs' }, ok (count (releases q.jobs id worker) q.jobs))

-- `ReleaseIndexJob`, alone: the call of `CompleteIndexJob` is the second statement
unfoldable pub release : Queue → ℕ → Str → Queue × Result (Unit {0})
unfolding release_free complete
release q id worker =
    let (freed, rows) = release_free q id worker in
    let superseding = complete freed id worker superseded in
    elim rows [ fail e ↦ (freed, fail e) | ok n ↦ if n == 0 then superseding else (freed, ok tt) ]

abbrev pub is_stale : ℕ → Job → Bool
is_stale cutoff j = is_running j && ltb j.heartbeat_at cutoff

-- `SELECT MIN(id)` over the rows that pass
unfoldable pub min_id : (Job → Bool) → List Job → Option ℕ
min_id p [] = none
min_id p (j ∷ js) =
    let rest = min_id p js in
    if p j then elim rest [ none ↦ some j.id | some m ↦ some (min j.id m) ] else rest

-- the stale index jobs of a repository
abbrev pub is_rival : ℕ → Str → Job → Bool
is_rival cutoff repo j = is_stale cutoff j && is_index j && str_eq j.repo_id repo

abbrev pub is_surplus : ℕ → List Job → Job → Bool
is_surplus cutoff jobs j =
    is_stale cutoff j
    && is_index j
    && (has_slot jobs j.repo_id || elim (min_id (is_rival cutoff j.repo_id) jobs) [
      | none ↦ false
      | some m ↦ not (j.id == m)
    ])

abbrev pub supersede : Job → Job
supersede j = record j { status = error; message = superseded }

unfoldable pub drop_surplus : ℕ → List Job → List Job
unfolding update min_id
drop_surplus cutoff jobs = update (is_surplus cutoff jobs) supersede jobs

unfoldable pub requeue_rest : ℕ → List Job → List Job
unfolding update
requeue_rest cutoff = update (is_stale cutoff) back_to_pending

-- the two statements of `RequeueStaleIndexJobs`, the second with the rows affected
unfoldable pub sweep_surplus : Queue → ℕ → Queue
unfolding drop_surplus
sweep_surplus q cutoff = record q { jobs = drop_surplus cutoff q.jobs }

unfoldable pub sweep_rest : Queue → ℕ → Queue × Result ℕ
unfolding requeue_rest admits count
sweep_rest q cutoff =
    let requeued = requeue_rest cutoff q.jobs in
    if not (admits requeued)
    then (q, fail unique_violation)
    else (record q { jobs = requeued }, ok (count (is_stale cutoff) q.jobs))

-- `RequeueStaleIndexJobs`, alone, with the number of jobs requeued. Times before 1970 do not
-- occur, so that the truncated difference selects the same rows.
unfoldable pub requeue_stale : Queue → ℕ → ℕ → Queue × Result ℕ
unfolding sweep_surplus sweep_rest
requeue_stale q now older_than =
    let cutoff = now - older_than in sweep_rest (sweep_surplus q cutoff) cutoff
