-- ===== src/JobQueue/Batches.antt =====
-- Finished jobs and commit batches of internal/store/sqlite/jobs.go over sequences of steps.

use ragota.Base.{[], ap, arith, inl, inr, refl, some, ℕ, ◌∙◌, ◌∷◌, ◌≡◌, ◌⊎◌}
use ragota.Base.Text.{Str}
use ragota.JobQueue.{Job, Queue, commits, done, error, outcome, pending, running}
use ragota.JobQueue.Lifecycle.{
  Change, Completion, Step-Change, beaten, claimed, completed, dropped, forced, returned, unchanged,
}
use ragota.JobQueue.Rows.{row}
use ragota.JobQueue.Step.{Reach, Reach-IsValid_of, Step, reach_next, reach_start}
use ragota.JobQueue.Valid.{IsValid}

abbrev pub IsTerminal : Job → Type 0
IsTerminal j = (j.status ≡ done) ⊎ (j.status ≡ error)

abbrev pub IsLive : Job → Type 0
IsLive j = (j.status ≡ pending) ⊎ (j.status ≡ running)

Change-of_IsTerminal :
    {q r : Queue} {s : Step q r} {j k : Job} → Change s j k → IsTerminal j → k ≡ j
Change-of_IsTerminal unchanged t = refl
Change-of_IsTerminal (forced force e) t = ground arith
Change-of_IsTerminal (claimed now worker e) t = ground arith
Change-of_IsTerminal (beaten now e) t = ground arith
Change-of_IsTerminal (completed message w e) t = ground arith
Change-of_IsTerminal (dropped payload w e i) t = ground arith
Change-of_IsTerminal (returned w e) t = ground arith

Step-row_of_IsTerminal :
    {q r : Queue} (id : ℕ) {j : Job}
    → IsValid q
    → Step q r
    → row q id ≡ some j
    → IsTerminal j
    → row r id ≡ some j
Step-row_of_IsTerminal id v s e t =
    let (k, e', c) = Step-Change id v s e in e' ∙ ap some (Change-of_IsTerminal c t)

-- A job that is done or has failed stays exactly as it is, whatever any instance does later.
pub terminal_frozen :
    {q r : Queue} (id : ℕ) {j : Job}
    → IsValid q
    → Reach q r
    → row q id ≡ some j
    → IsTerminal j
    → row r id ≡ some j
terminal_frozen id v reach_start e t = e
terminal_frozen id v (reach_next rs s) e t =
    Step-row_of_IsTerminal id (Reach-IsValid_of v rs) s (terminal_frozen id v rs e t) t

-- Some step of the run completed the job, with the message, for the worker that held it then.
abbrev pub Completed : {q r : Queue} → Reach q r → ℕ → Str → Type 0
Completed reach_start id message = ⊥
Completed (reach_next {r} rs s) id message =
    Completed rs id message ⊎ ((k : Job) × (row r id ≡ some k) × Completion s k message)

-- What a run has made of a commit job: it waits or runs with its batch, or the worker that held it
-- completed it, with the outcome that its message says.
pub data BatchFate {q r : Queue} (rs : Reach q r) (id : ℕ) (j : Job) : Job → Type 0 where
  kept :
      {k : Job}
      → IsLive k
      → k.kind ≡ commits
      → k.payload ≡ j.payload
      → k.repo_id ≡ j.repo_id
      → BatchFate rs id j k
  ended :
      {k : Job} (message : Str)
      → Completed rs id message
      → k.status ≡ outcome message
      → k.message ≡ message
      → k.repo_id ≡ j.repo_id
      → BatchFate rs id j k

outcome-IsTerminal : (message : Str) (j : Job) → j.status ≡ outcome message → IsTerminal j
outcome-IsTerminal [] j e = inl e
outcome-IsTerminal (c ∷ s) j e = inr e

module _ {p q r : Queue} (rs : Reach p q) (s : Step q r) (id : ℕ) {j k : Job} where
  onward_kept :
      {m : Job}
      → row q id ≡ some k
      → Change s k m
      → k.kind ≡ commits
      → k.payload ≡ j.payload
      → k.repo_id ≡ j.repo_id
      → IsLive k
      → BatchFate (reach_next rs s) id j m
  onward_kept e unchanged c p o l = kept l c p o
  onward_kept e (forced force w) c p o l = kept l c p o
  onward_kept e (claimed now worker w) c p o l = kept (inr refl) c p o
  onward_kept e (beaten now w) c p o l = kept l c p o
  onward_kept e (completed message by w) c p o l = ended message (inr (k, e, by)) refl refl o
  onward_kept e (dropped payload w x i) c p o l = cc
  onward_kept e (returned w x) c p o l = kept (inl refl) c p o

  onward_fate :
      IsValid q
      → row q id ≡ some k
      → BatchFate rs id j k
      → (m : Job) × (row r id ≡ some m) × BatchFate (reach_next rs s) id j m
  onward_fate v e (kept l c p o) =
      let (m, e', change) = Step-Change id v s e in (m, e', onward_kept e change c p o l)
  onward_fate v e (ended message by st m o) = (
    k,
    Step-row_of_IsTerminal id v s e (outcome-IsTerminal message k st),
    ended message (inl by) st m o,
  )

-- No commit batch is lost: after any steps the job of a live batch is there under its id, live with
-- the same payload and repository, or one of the steps was a completion of it, by the worker that
-- held it, with the message and the outcome that the job has. Nothing else ends it, as long as a
-- worker claims no job in the middle of a release (`Interrupted` in JobQueue/Step).
pub batch_kept :
    {q r : Queue} (id : ℕ) {j : Job}
    → IsValid q
    → (rs : Reach q r) → row q id ≡ some j
    → j.kind ≡ commits
    → IsLive j
    → (k : Job) × (row r id ≡ some k) × BatchFate rs id j k
batch_kept id {j} v reach_start e c l = (j, e, kept l c refl refl)
batch_kept id {j} v (reach_next rs s) e c l =
    let (k, e', fate) = batch_kept id v rs e c l in
    onward_fate rs s id (Reach-IsValid_of v rs) e' fate
