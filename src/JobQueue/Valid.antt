-- ===== src/JobQueue/Valid.antt =====
-- The invariant of the queue: ids ascend below the next one, and a
-- repository has one pending index job at most.

use mathlib.Core.Path.{subst}
use ragota.Base.{
  Bool, Bool-cases, List, Option, [], all, any, arith, inl, inr, leb, none, refl, some, true, ℕ,
  ◌++◌, ◌+◌, ◌∷◌, ◌≡◌, ◌≢◌, ◌≤◌,
}
use ragota.Base.Text.{Str, str_eq_iff}
use ragota.JobQueue.{
  Job, Queue, admits, claim_next, complete, count, enqueue_commit, enqueue_index, find, heartbeat,
  is_pending, is_slot, outcome, pending, update,
}
use ragota.JobQueue.Table.{
  Ascending, Ascending-append, Ascending-update, all_of, count-append, count-update-le,
  count_of_find-none, count_of_not_any,
}

pub record IsValid (q : Queue) : Type 0 where
  pub ids : Ascending 0 q.jobs q.next_id
  pub slots : (repo : Str) → count (is_slot repo) q.jobs ≤ 1

pub admits_of_slots :
    (js : List Job) → ((repo : Str) → count (is_slot repo) js ≤ 1) → admits js ≡ true
unfolding admits
admits_of_slots js h = all_of _ (λ j. ground (arith, h j.repo_id)) js

found_slot :
    (repo : Str) (js : List Job)
    → any (is_slot repo) js ≡ true
    → (bound : List Job) → all (λ j. leb (count (is_slot j.repo_id) bound) 1) js ≡ true
    → count (is_slot repo) bound ≤ 1
found_slot repo [] h bound k = cc
found_slot repo (j ∷ js) h bound k = elim (Bool-cases (is_slot repo j)) [
  | inl e ↦
      let same : j.repo_id ≡ repo = (str_eq_iff j.repo_id repo).0 (ground arith) in
      subst (λ r. count (is_slot r) bound ≤ 1) same (ground arith)
  | inr e ↦ found_slot repo js (ground arith) bound (ground arith)
]

pub slots_of_admits :
    (js : List Job) → admits js ≡ true → (repo : Str) → count (is_slot repo) js ≤ 1
unfolding admits
slots_of_admits js h repo = elim (Bool-cases (any (is_slot repo) js)) [
  | inl e ↦ found_slot repo js e js h
  | inr e ↦ omega (arith, count_of_not_any (is_slot repo) js e)
]

-- an update that keeps the ids and brings no row into a slot
pub update-IsValid :
    (q : Queue) (p : Job → Bool) (f : Job → Job)
    → ((j : Job) → (f j).id ≡ j.id)
    → ((repo : Str) (j : Job) → p j ≡ true → is_slot repo (f j) ≡ true → is_slot repo j ≡ true)
    → IsValid q
    → IsValid (record q { jobs = update p f q.jobs })
update-IsValid q p f same keep v = record {
  ids = Ascending-update p f same 0 q.jobs q.next_id v.ids;
  slots =
      λ repo. omega (arith, count-update-le (is_slot repo) p f (keep repo) q.jobs, v.slots repo);
}

insert-IsValid :
    (q : Queue) (j : Job)
    → j.id ≡ q.next_id
    → ((repo : Str) → is_slot repo j ≡ true → count (is_slot repo) q.jobs ≡ 0)
    → IsValid q
    → IsValid (record { jobs = q.jobs ++ j ∷ []; next_id = q.next_id + 1 })
insert-IsValid q j e free v = record {
  ids = Ascending-append 0 q.jobs j v.ids e;
  slots = λ repo.
      unfold count in
      ground (arith, count-append (is_slot repo) q.jobs (j ∷ []), free repo, v.slots repo);
}

pub enqueue_index-IsValid :
    (q : Queue) (now : ℕ) (repo : Str) (force : Bool)
    → IsValid q
    → IsValid (enqueue_index q now repo force).0
unfolding enqueue_index
enqueue_index-IsValid q now repo force v = by_slot (find (is_slot repo) q.jobs) refl
  where
    by_slot :
        (o : Option Job)
        → find (is_slot repo) q.jobs ≡ o
        → IsValid (enqueue_index q now repo force).0
    by_slot (some j) e = rw (e, enqueue_index) (update-IsValid q _ _ (λ i. refl) (λ r i h k. k) v)
    by_slot none e =
        rw (e, enqueue_index)
          (insert-IsValid q _ refl
            (λ r taken.
              let same = (str_eq_iff repo r).0 taken in
              subst (λ x. count (is_slot x) q.jobs ≡ 0) same
                (count_of_find-none (is_slot repo) q.jobs e))
            v)

pub enqueue_commit-IsValid :
    (q : Queue) (now : ℕ) (repo payload : Str)
    → IsValid q
    → IsValid (enqueue_commit q now repo payload).0
unfolding enqueue_commit
enqueue_commit-IsValid q now repo payload v = insert-IsValid q _ refl (λ r h. cc) v

pub claim_next-IsValid :
    (q : Queue) (now : ℕ) (worker : Str) → IsValid q → IsValid (claim_next q now worker).0
unfolding claim_next
claim_next-IsValid q now worker v = by_job (find is_pending q.jobs) refl
  where
    by_job : (o : Option Job) → find is_pending q.jobs ≡ o → IsValid (claim_next q now worker).0
    by_job (some j) e = rw (e, claim_next) (update-IsValid q _ _ (λ i. refl) (λ r i h k. cc) v)
    by_job none e = rw (e, claim_next) v

pub heartbeat-IsValid :
    (q : Queue) (now id : ℕ) (worker : Str) → IsValid q → IsValid (heartbeat q now id worker).0
unfolding heartbeat
heartbeat-IsValid q now id worker v = update-IsValid q _ _ (λ i. refl) (λ r i h k. k) v

outcome-ne-pending : (message : Str) → outcome message ≢ pending
outcome-ne-pending [] h = cc
outcome-ne-pending (c ∷ s) h = cc

pub complete-IsValid :
    (q : Queue) (id : ℕ) (worker message : Str)
    → IsValid q
    → IsValid (complete q id worker message).0
unfolding complete
complete-IsValid q id worker message v =
    update-IsValid q _ _ (λ i. refl) (λ r i h k. ground (arith, outcome-ne-pending message)) v
