-- ===== src/JobQueue/Lifecycle.antt =====
-- What a step of the queue does to one job: the life cycle of a row.

use mathlib.Core.Path.{subst}
use ragota.Base.{
  ==_iff, Bool, Bool-cases, List, Option, Option-cases, [], ap, arith, if◌then◌else◌, inl, inr,
  refl, some, sym, true, ℕ, ◌++◌, ◌==◌, ◌||◌, ◌∙◌, ◌∷◌, ◌≡◌,
}
use ragota.Base.Text.{Str}
use ragota.JobQueue.{
  Job, Queue, admits, back_to_pending, claim_next, complete, count, drop_surplus, enqueue_commit,
  enqueue_index, error, find, heartbeat, held_by, index, is_pending, is_slot, is_stale, is_surplus,
  ok, outcome, pending, release_free, releases, requeue_rest, running, supersede, superseded,
  sweep_rest, sweep_surplus, update,
}
use ragota.JobQueue.Requeue.{release-slots}
use ragota.JobQueue.Rows.{
  fails_of_count, find-append, find-update, find_passes, has_id, row, row_of_find, updated,
}
use ragota.JobQueue.Step.{
  Interrupted, Step, beats, claims, completes, enqueues_commit, enqueues_index, frees, supersedes,
  sweeps_rest, sweeps_surplus,
}
use ragota.JobQueue.Valid.{IsValid, admits_of_slots}

-- The step completes the job with the message, for the worker that holds the job.
abbrev pub Completion : {q r : Queue} → Step q r → Job → Str → Type 0
Completion (completes id worker m) j message = (held_by id worker j ≡ true) × (m ≡ message)
Completion _ j message = ⊥

-- The step is part of a release or a sweep and drops the job: it is held by the worker that
-- releases it, or stale.
abbrev pub Drop : {q r : Queue} → Step q r → Job → Type 0
Drop (supersedes id worker i) j = held_by id worker j ≡ true
Drop (sweeps_surplus cutoff) j = is_stale cutoff j ≡ true
Drop _ j = ⊥

-- The step puts the job back into the queue.
abbrev pub Return : {q r : Queue} → Step q r → Job → Type 0
Return (frees id worker) j = held_by id worker j ≡ true
Return (sweeps_rest cutoff) j = is_stale cutoff j ≡ true
Return _ j = ⊥

-- what a step may make of a job
pub data Change {q r : Queue} (s : Step q r) (j : Job) : Job → Type 0 where
  unchanged : Change s j j
  forced : (force : Bool) → j.status ≡ pending → Change s j (record j { force = j.force || force })
  claimed :
      (now : ℕ) (worker : Str)
      → j.status ≡ pending
      → Change s j
          (record j { status = running; claimed_by = worker; claimed_at = now; heartbeat_at = now })
  beaten : (now : ℕ) → j.status ≡ running → Change s j (record j { heartbeat_at = now })
  completed :
      (message : Str)
      → Completion s j message
      → j.status ≡ running
      → Change s j (record j { status = outcome message; message = message; payload = [] })
  dropped :
      (payload : Str)
      → Drop s j
      → j.status ≡ running
      → j.kind ≡ index
      → Change s j (record j { status = error; message = superseded; payload = payload })
  returned : Return s j → j.status ≡ running → Change s j (back_to_pending j)

abbrev pub Follows : {q r : Queue} → Step q r → Job → Option Job → Type 0
Follows s j o = (k : Job) × (o ≡ some k) × Change s j k

-- an update whose test allows the change that its assignment makes
Follows-update :
    {q r : Queue} (s : Step q r) (p : Job → Bool) (f : Job → Job)
    → ((j : Job) → (f j).id ≡ j.id)
    → (id : ℕ) (js : List Job) {j : Job} → find (has_id id) js ≡ some j
    → (p j ≡ true → Change s j (f j))
    → Follows s j (find (has_id id) (update p f js))
Follows-update s p f same id js {j} h change =
    let e : find (has_id id) (update p f js) ≡ some (if p j then f j else j) =
      find-update p f same id js ∙ ap (updated p f) h in
    elim (Bool-cases (p j)) [
      | inl t ↦ (f j, rw t at e, change t)
      | inr t ↦ (j, rw t at e, unchanged)
    ]

none_released :
    (past : Queue) (i : ℕ) (worker : Str)
    → (release_free past i worker).1 ≡ ok 0
    → count (releases past.jobs i worker) past.jobs ≡ 0
unfolding release_free
none_released past i worker e =
    elim (Bool-cases (admits (update (releases past.jobs i worker) back_to_pending past.jobs))) [
      | inl a ↦ ground arith
      | inr a ↦ ground arith
    ]

-- a held job that the first statement of a release does not free is an index job
kind_of :
    (past : Queue) (i : ℕ) (worker : Str) (j : Job)
    → (release_free past i worker).1 ≡ ok 0
    → row past i ≡ some j
    → held_by i worker j ≡ true
    → j.kind ≡ index
kind_of past i worker j e found t =
    let passed_by =
      fails_of_count (has_id i) (releases past.jobs i worker) past.jobs
        (none_released past i worker e) found in
    ground arith

module _ (q : Queue) (v : IsValid q) (id : ℕ) (j : Job) (found : row q id ≡ some j) where
  Follows-insert :
      {r : Queue} (s : Step q r) (k : Job) → Follows s j (find (has_id id) (q.jobs ++ k ∷ []))
  Follows-insert s k = (j, find-append (has_id id) q.jobs (k ∷ []) found, unchanged)

  Follows-enqueue_index :
      (now : ℕ) (repo : Str) (force : Bool)
      → Follows {q = q}
          (enqueues_index now repo force)
          j
          (row (enqueue_index q now repo force).0 id)
  unfolding enqueue_index
  Follows-enqueue_index now repo force = elim (Option-cases (find (is_slot repo) q.jobs)) [
    | inl e ↦ rw (e, enqueue_index) (Follows-insert (enqueues_index now repo force) _)
    | inr (i, e) ↦
        rw (e, enqueue_index)
          (Follows-update {q = q} (enqueues_index now repo force) (is_slot repo)
            (λ k. record k { force = k.force || force }) (λ k. refl) id q.jobs found
            (λ t. forced force (ground arith)))
  ]

  Follows-claim_next :
      (now : ℕ) (worker : Str)
      → Follows {q = q} (claims now worker) j (row (claim_next q now worker).0 id)
  unfolding claim_next
  Follows-claim_next now worker = elim (Option-cases (find is_pending q.jobs)) [
    | inl e ↦ rw (e, claim_next) (j, found, unchanged)
    | inr (i, e) ↦
        rw (e, claim_next)
          (Follows-update {q = q} (claims now worker) (λ k. k.id == i.id)
            (λ k. record k {
              status = running;
              claimed_by = worker;
              claimed_at = now;
              heartbeat_at = now;
            })
            (λ k. refl) id q.jobs found (λ t. claimed now worker (pending_of i e t)))
  ]
    where
      pending_of :
          (i : Job) → find is_pending q.jobs ≡ some i → (j.id == i.id) ≡ true → j.status ≡ pending
      pending_of i e t =
          let at_i = row_of_find is_pending 0 q.jobs q.next_id v.ids e in
          let same_id : j.id ≡ id = (==_iff j.id id).0 (find_passes (has_id id) q.jobs found) in
          let i_id : i.id ≡ id = sym ((==_iff j.id i.id).0 t) ∙ same_id in
          let at_id : row q id ≡ some i = subst (λ x. find (has_id x) q.jobs ≡ some i) i_id at_i in
          let passes = find_passes is_pending q.jobs e in
          let same : i ≡ j = ground arith in ground arith

  Follows-heartbeat :
      (now i : ℕ) (worker : Str)
      → Follows {q = q} (beats now i worker) j (row (heartbeat q now i worker).0 id)
  unfolding heartbeat
  Follows-heartbeat now i worker =
      Follows-update {q = q} (beats now i worker) (held_by i worker)
        (λ k. record k { heartbeat_at = now }) (λ k. refl) id q.jobs found
        (λ t. beaten now (ground arith))

  Follows-complete :
      (i : ℕ) (worker message : Str)
      → Follows {q = q} (completes i worker message) j (row (complete q i worker message).0 id)
  unfolding complete
  Follows-complete i worker message =
      Follows-update {q = q} (completes i worker message) (held_by i worker)
        (λ k. record k { status = outcome message; message = message; payload = [] }) (λ k. refl) id
        q.jobs found (λ t. completed message (t, refl) (ground arith))

  Follows-release_free :
      (i : ℕ) (worker : Str)
      → Follows {q = q} (frees i worker) j (row (release_free q i worker).0 id)
  unfolding release_free
  Follows-release_free i worker =
      rw
        (
          release_free,
          admits_of_slots (update (releases q.jobs i worker) back_to_pending q.jobs)
              (release-slots q i worker v),
        )
        (Follows-update {q = q} (frees i worker) (releases q.jobs i worker) back_to_pending
          (λ k. refl) id q.jobs found (λ t. returned (ground arith) (ground arith)))

  -- a held job that a release does not free is an index job
  index_of :
      {past : Queue} (i : ℕ) (worker : Str)
      → Interrupted past q i worker
      → held_by i worker j ≡ true
      → j.kind ≡ index
  index_of {past} i worker gap t =
      let same : j.id ≡ id = (==_iff j.id id).0 (find_passes (has_id id) q.jobs found) in
      let this : j.id ≡ i = (==_iff j.id i).0 (ground arith) in
      let at : row q i ≡ some j = subst (λ x. row q x ≡ some j) (sym same ∙ this) found in
      let (k, there, held, kind) = gap.still_held j at t in
      sym kind ∙ kind_of past i worker k gap.none_freed there held

  Follows-supersede :
      {past : Queue} (i : ℕ) (worker : Str) (gap : Interrupted past q i worker)
      → Follows {q = q} (supersedes i worker gap) j (row (complete q i worker superseded).0 id)
  unfolding complete
  Follows-supersede i worker gap =
      Follows-update {q = q} (supersedes i worker gap) (held_by i worker)
        (λ k. record k { status = error; message = superseded; payload = [] }) (λ k. refl) id q.jobs
        found (λ t. dropped [] t (ground arith) (index_of i worker gap t))

  Follows-sweep_surplus :
      (cutoff : ℕ) → Follows {q = q} (sweeps_surplus cutoff) j (row (sweep_surplus q cutoff) id)
  unfolding sweep_surplus drop_surplus
  Follows-sweep_surplus cutoff =
      Follows-update {q = q} (sweeps_surplus cutoff) (is_surplus cutoff q.jobs) supersede
        (λ k. refl) id q.jobs found
        (λ t. dropped j.payload (ground arith) (ground arith) (ground arith))

  Follows-sweep_rest :
      (cutoff : ℕ) → Follows {q = q} (sweeps_rest cutoff) j (row (sweep_rest q cutoff).0 id)
  unfolding sweep_rest requeue_rest
  Follows-sweep_rest cutoff = elim (Bool-cases (admits (requeue_rest cutoff q.jobs))) [
    | inl e ↦
        rw (e, sweep_rest)
          (Follows-update {q = q} (sweeps_rest cutoff) (is_stale cutoff) back_to_pending (λ k. refl)
            id q.jobs found (λ t. returned t (ground arith)))
    | inr e ↦ rw (e, sweep_rest) (j, found, unchanged)
  ]

-- In a valid queue a step, whatever instance makes it, takes each job one step along its life
-- cycle. Only a call of `CompleteIndexJob` by the worker that holds the job completes it; a release
-- or a sweep puts a job back that its worker holds or that is stale, or drops it as superseded, and
-- it drops an index job only, as long as a worker claims no job in the middle of a release
-- (`Interrupted` in JobQueue/Step).
pub Step-Change :
    {q r : Queue} (id : ℕ) {j : Job}
    → IsValid q
    → (s : Step q r) → row q id ≡ some j
    → (k : Job) × (row r id ≡ some k) × Change s j k
Step-Change {q} id {j} v (enqueues_index now repo force) e =
    Follows-enqueue_index q v id j e now repo force
Step-Change {q} id {j} v (enqueues_commit now repo payload) e =
    unfold enqueue_commit in Follows-insert q v id j e (enqueues_commit now repo payload) _
Step-Change {q} id {j} v (claims now worker) e = Follows-claim_next q v id j e now worker
Step-Change {q} id {j} v (beats now i worker) e = Follows-heartbeat q v id j e now i worker
Step-Change {q} id {j} v (completes i worker message) e =
    Follows-complete q v id j e i worker message
Step-Change {q} id {j} v (frees i worker) e = Follows-release_free q v id j e i worker
Step-Change {q} id {j} v (supersedes i worker gap) e = Follows-supersede q v id j e i worker gap
Step-Change {q} id {j} v (sweeps_surplus cutoff) e = Follows-sweep_surplus q v id j e cutoff
Step-Change {q} id {j} v (sweeps_rest cutoff) e = Follows-sweep_rest q v id j e cutoff
