-- ===== src/JobQueue/Tests.antt =====
-- Runs of the queue, and the theorems at concrete inputs.

use ragota.Base.{[], all, any, false, inl, map, not, refl, some, true, ℕ, ◌||◌, ◌∷◌, ◌≡◌, ◌≢◌}
use ragota.Base.Text.{Str, codes, str_eq}
use ragota.JobQueue.{
  Job, Queue, claim_next, commits, complete, done, enqueue_commit, enqueue_index, error, fail, find,
  has_slot, heartbeat, index, is_rival, is_stale, ok, pending, release, release_free, requeue_stale,
  running, sweep_rest, sweep_surplus, unique_violation, update,
}
use ragota.JobQueue.Batches.{BatchFate, batch_kept, terminal_frozen}
use ragota.JobQueue.Claim.{
  ByHolder, Claims, claim_next_lem, claim_of, claims_differ, complete_heartbeat_lem,
}
use ragota.JobQueue.Enqueue.{Enqueued, enqueue_index_lem}
use ragota.JobQueue.Lifecycle.{Change, Step-Change}
use ragota.JobQueue.Requeue.{requeue_stale_total}
use ragota.JobQueue.Rows.{row}
use ragota.JobQueue.Step.{
  Interrupted, Reach, Reach-IsValid, claims, empty, enqueues_commit, enqueues_index, reach_next,
  reach_start, sweeps_rest,
}
use ragota.JobQueue.Sweep.{requeue_stale_lem}
use ragota.JobQueue.Valid.{IsValid, complete-IsValid}

abbrev repo : Str
repo = codes "r1"

abbrev worker : Str
worker = codes "w"

-- an index request, a commit batch, and the claim of the first
abbrev queued : Queue
queued = (enqueue_commit (enqueue_index empty 5 repo false).0 6 repo (codes "batch")).0

abbrev busy : Queue
busy = (claim_next queued 10 worker).0

busy_path : Reach empty busy
busy_path =
    reach_next
      (reach_next (reach_next reach_start (enqueues_index 5 repo false))
        (enqueues_commit 6 repo (codes "batch")))
      (claims 10 worker)

queued-IsValid : IsValid queued
queued-IsValid = Reach-IsValid (
    reach_next (reach_next reach_start (enqueues_index 5 repo false))
      (enqueues_commit 6 repo (codes "batch")))

busy-IsValid : IsValid busy
busy-IsValid = Reach-IsValid busy_path

claim_runs : map (λ (j : Job). j.status) busy.jobs ≡ running ∷ pending ∷ []
unfolding enqueue_index enqueue_commit claim_next find update
claim_runs = refl

abbrev swept : Queue
swept = (requeue_stale busy 200 120).0

sweep_runs : map (λ (j : Job). j.status) swept.jobs ≡ pending ∷ pending ∷ []
unfolding enqueue_index enqueue_commit claim_next requeue_stale str_eq
sweep_runs = refl

-- A request that comes between the two statements of the sweep takes the slot of the stale job that
-- the first statement left running: the second fails on the unique index and requeues no job at all.
sweep_overtaken :
    (sweep_rest (enqueue_index (sweep_surplus busy 80) 200 repo false).0 80).1
    ≡ fail unique_violation
unfolding enqueue_index enqueue_commit claim_next sweep_rest sweep_surplus str_eq
sweep_overtaken = refl

-- a second index request, while the first runs, and the release of the job that runs
abbrev doubled : Queue
doubled = (enqueue_index busy 20 repo false).0

release_supersedes :
    map (λ (j : Job). j.status) (release doubled 1 worker).0.jobs ≡ error ∷ pending ∷ pending ∷ []
unfolding enqueue_index enqueue_commit claim_next release str_eq
release_supersedes = refl

-- the second statement of that release, with nothing in between
superseding : Interrupted doubled doubled 1 worker
unfolding enqueue_index enqueue_commit claim_next release_free str_eq
superseding = record { none_freed = refl; still_held = λ k at held. (k, at, held, refl) }

Reach-IsValid_example : IsValid busy
Reach-IsValid_example = Reach-IsValid busy_path

requeue_stale_total_example :
    (n : ℕ) × ((requeue_stale busy 200 120).1 ≡ ok n) × IsValid (requeue_stale busy 200 120).0
requeue_stale_total_example = requeue_stale_total busy 200 120 busy-IsValid

requeue_stale_lem_example :
    let r = (requeue_stale busy 200 120).0 in
    (all (λ j. not (is_stale 80 j)) r.jobs ≡ true)
    × ((id : Str) → has_slot r.jobs id ≡ (has_slot busy.jobs id || any (is_rival 80 id) busy.jobs))
requeue_stale_lem_example = requeue_stale_lem busy 200 120 busy-IsValid

-- the commit job of the queue
abbrev batch : Job
batch = record {
  id = 2;
  repo_id = repo;
  kind = commits;
  force = false;
  status = pending;
  message = [];
  created_at = 6;
  claimed_at = 0;
  heartbeat_at = 0;
  claimed_by = [];
  payload = codes "batch";
}

batch-queued : row queued 2 ≡ some batch
unfolding enqueue_index enqueue_commit find
batch-queued = refl

Step-Change_example :
    (k : Job) × (row busy 2 ≡ some k) × Change {q = queued} (claims 10 worker) batch k
Step-Change_example = Step-Change 2 queued-IsValid (claims 10 worker) batch-queued

abbrev claim_run : Reach queued busy
claim_run = reach_next reach_start (claims 10 worker)

batch_kept_example : (k : Job) × (row busy 2 ≡ some k) × BatchFate claim_run 2 batch k
batch_kept_example = batch_kept 2 queued-IsValid claim_run batch-queued refl (inl refl)

-- the index job, completed
abbrev finished : Queue
finished = (complete busy 1 worker []).0

finished-IsValid : IsValid finished
finished-IsValid = complete-IsValid busy 1 worker [] busy-IsValid

abbrev over : Job
over = record {
  id = 1;
  repo_id = repo;
  kind = index;
  force = false;
  status = done;
  message = [];
  created_at = 5;
  claimed_at = 10;
  heartbeat_at = 10;
  claimed_by = worker;
  payload = [];
}

over_there : row finished 1 ≡ some over
unfolding enqueue_index enqueue_commit claim_next complete str_eq
over_there = refl

terminal_frozen_example : row (sweep_rest finished 199).0 1 ≡ some over
terminal_frozen_example =
    terminal_frozen 1 finished-IsValid (reach_next reach_start (sweeps_rest 199)) over_there
      (inl refl)

claim_next_lem_example : Claims queued 10 worker (claim_next queued 10 worker)
claim_next_lem_example = claim_next_lem queued 10 worker queued-IsValid

abbrev first_claim : Job
first_claim = record over { status = running }

second_claim : Job
second_claim = claim_of 11 (codes "v") batch

claims_differ_example : first_claim.id ≢ second_claim.id
unfolding second_claim
claims_differ_example = claims_differ queued 10 11 worker (codes "v") queued-IsValid first second
  where
    first : (claim_next queued 10 worker).1 ≡ ok first_claim
    first = unfold enqueue_index enqueue_commit claim_next in refl

    second : (claim_next (claim_next queued 10 worker).0 11 (codes "v")).1 ≡ ok second_claim
    second = unfold enqueue_index enqueue_commit claim_next second_claim in refl

complete_heartbeat_lem_example :
    ByHolder busy 1 worker
      (λ j. record j { status = done; message = []; payload = [] })
      (complete busy 1 worker [])
    × ByHolder busy 1 worker (λ j. record j { heartbeat_at = 20 }) (heartbeat busy 20 1 worker)
complete_heartbeat_lem_example = complete_heartbeat_lem busy 20 1 worker [] busy-IsValid

enqueue_index_lem_example : Enqueued queued repo true (enqueue_index queued 7 repo true)
enqueue_index_lem_example = enqueue_index_lem queued 7 repo true queued-IsValid
