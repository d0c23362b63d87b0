-- ===== src/JobQueue/Step.antt =====
-- The queue as a state machine: one step for each statement or transaction that a store runs, in
-- any order and by any worker, as several instances share one database. `ReleaseIndexJob` and
-- `RequeueStaleIndexJobs` run two statements with no transaction around them: two steps each.

use ragota.Base.{Bool, [], arith, some, true, ℕ, ◌≡◌}
use ragota.Base.Text.{Str}
use ragota.JobQueue.{
  Job, Queue, claim_next, complete, count, enqueue_commit, enqueue_index, heartbeat, held_by, ok,
  release_free, superseded, sweep_rest, sweep_surplus,
}
use ragota.JobQueue.Requeue.{release_free-IsValid, sweep_rest-IsValid, sweep_surplus-IsValid}
use ragota.JobQueue.Rows.{row}
use ragota.JobQueue.Valid.{
  IsValid, claim_next-IsValid, complete-IsValid, enqueue_commit-IsValid, enqueue_index-IsValid,
  heartbeat-IsValid,
}

-- The second statement of a release is run by a worker whose first affected no row, in a queue
-- `past` that other statements may have changed since. A row that the worker still holds is the
-- one it held then: the worker of an instance is one goroutine (`pollIndexJobs` in
-- internal/app/jobs.go), which claims no job in the middle of a release.
pub record Interrupted (past q : Queue) (id : ℕ) (worker : Str) : Type 0 where
  pub none_freed : (release_free past id worker).1 ≡ ok 0
  pub still_held :
      (k : Job)
      → row q id ≡ some k
      → held_by id worker k ≡ true
      → (j : Job) × (row past id ≡ some j) × (held_by id worker j ≡ true) × (j.kind ≡ k.kind)

pub data Step (q : Queue) : Queue → Type 0 where
  enqueues_index : (now : ℕ) (repo : Str) (force : Bool) → Step q (enqueue_index q now repo force).0
  enqueues_commit : (now : ℕ) (repo payload : Str) → Step q (enqueue_commit q now repo payload).0
  claims : (now : ℕ) (worker : Str) → Step q (claim_next q now worker).0
  beats : (now id : ℕ) (worker : Str) → Step q (heartbeat q now id worker).0
  completes : (id : ℕ) (worker message : Str) → Step q (complete q id worker message).0
  frees : (id : ℕ) (worker : Str) → Step q (release_free q id worker).0
  supersedes :
      {past : Queue} (id : ℕ) (worker : Str)
      → Interrupted past q id worker
      → Step q (complete q id worker superseded).0
  sweeps_surplus : (cutoff : ℕ) → Step q (sweep_surplus q cutoff)
  sweeps_rest : (cutoff : ℕ) → Step q (sweep_rest q cutoff).0

pub data Reach (q : Queue) : Queue → Type 0 where
  reach_start : Reach q q
  reach_next : {r s : Queue} → Reach q r → Step r s → Reach q s

abbrev pub empty : Queue
empty = record { jobs = []; next_id = 1 }

empty-IsValid : IsValid empty
unfolding count
empty-IsValid = record { ids = omega arith; slots = λ repo. omega arith }

pub Step-IsValid : {q r : Queue} → Step q r → IsValid q → IsValid r
Step-IsValid {q} (enqueues_index now repo force) v = enqueue_index-IsValid q now repo force v
Step-IsValid {q} (enqueues_commit now repo payload) v = enqueue_commit-IsValid q now repo payload v
Step-IsValid {q} (claims now worker) v = claim_next-IsValid q now worker v
Step-IsValid {q} (beats now id worker) v = heartbeat-IsValid q now id worker v
Step-IsValid {q} (completes id worker message) v = complete-IsValid q id worker message v
Step-IsValid {q} (frees id worker) v = release_free-IsValid q id worker v
Step-IsValid {q} (supersedes id worker i) v = complete-IsValid q id worker superseded v
Step-IsValid {q} (sweeps_surplus cutoff) v = sweep_surplus-IsValid q cutoff v
Step-IsValid {q} (sweeps_rest cutoff) v = sweep_rest-IsValid q cutoff v

pub Reach-IsValid_of : {q r : Queue} → IsValid q → Reach q r → IsValid r
Reach-IsValid_of v reach_start = v
Reach-IsValid_of v (reach_next r s) = Step-IsValid s (Reach-IsValid_of v r)

-- In every queue that any steps reach from the empty one, ids ascend below the next id and a
-- repository has one pending index job at most.
pub Reach-IsValid : {q : Queue} → Reach empty q → IsValid q
Reach-IsValid = Reach-IsValid_of empty-IsValid
