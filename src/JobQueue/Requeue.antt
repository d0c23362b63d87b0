-- ===== src/JobQueue/Requeue.antt =====
-- `ReleaseIndexJob` and `RequeueStaleIndexJobs`, which put jobs back into the queue, and the unique
-- index over the pending index jobs.

-- the rows that come into the slot of a repository
use mathlib.Core.Path.{subst}
use ragota.Base.{
  Bool, Bool-cases, List, Option-cases, [], arith, if◌then◌else◌, inl, inr, not, refl, some, sym,
  true, ℕ, ◌&&◌, ◌-◌, ◌∷◌, ◌≡◌, ◌≤◌,
}
use ragota.Base.Text.{Str, str_eq, str_eq_iff}
use ragota.JobQueue.{
  Job, Queue, admits, back_to_pending, count, drop_surplus, has_slot, is_rival, is_slot, is_stale,
  is_surplus, min_id, ok, release_free, releases, requeue_rest, requeue_stale, supersede,
  sweep_rest, sweep_surplus, update,
}
use ragota.JobQueue.Table.{
  Ascending, Ascending-update, any-update, count-le_of_imp, count-update-imp, count-update-split,
  count_id, count_of_min_id-none, count_of_not_any,
}
use ragota.JobQueue.Valid.{IsValid, admits_of_slots, slots_of_admits, update-IsValid}
use ragota.Server.RateLimit.Runs.Avail.{full}

abbrev entrants : (Job → Bool) → Str → Job → Bool
entrants p repo j = p j && is_slot repo (back_to_pending j)

-- An update to pending keeps the slots if what it brings into one goes where none is, and is unique.
slots-back_to_pending :
    (js : List Job) (p : Job → Bool) (repo : Str)
    → count (is_slot repo) js ≤ 1
    → (has_slot js repo ≡ true → count (entrants p repo) js ≡ 0)
    → count (entrants p repo) js ≤ 1
    → count (is_slot repo) (update p back_to_pending js) ≤ 1
slots-back_to_pending js p repo slots free unique = elim (Bool-cases (has_slot js repo)) [
  | inl e ↦ omega (arith, count-update-split (is_slot repo) p back_to_pending js, free e)
  | inr e ↦ omega (
    arith,
    count-update-split (is_slot repo) p back_to_pending js,
    count_of_not_any (is_slot repo) js e,
  )
]

count_none : (s : Job → Bool) (js : List Job) → ((j : Job) → s j ≡ true → ⊥) → count s js ≡ 0
unfolding count
count_none s [] h = refl
count_none s (j ∷ js) h = ground (arith, h j, count_none s js h)

module _ (q : Queue) (id : ℕ) (worker : Str) where
  release-free :
      (repo : Str)
      → has_slot q.jobs repo ≡ true
      → (j : Job) → entrants (releases q.jobs id worker) repo j ≡ true
      → ⊥
  release-free repo full j e =
      let same : str_eq j.repo_id repo ≡ true = ground arith in
      let full' : has_slot q.jobs j.repo_id ≡ true =
        subst (λ r. has_slot q.jobs r ≡ true) (sym ((str_eq_iff j.repo_id repo).0 same)) full in
      ground arith

  pub release-slots :
      IsValid q
      → (repo : Str)
      → count (is_slot repo) (update (releases q.jobs id worker) back_to_pending q.jobs) ≤ 1
  release-slots v repo =
      slots-back_to_pending q.jobs (releases q.jobs id worker) repo (v.slots repo)
        (λ full.
          count_none (entrants (releases q.jobs id worker) repo) q.jobs (release-free repo full))
        (count_id (entrants (releases q.jobs id worker) repo) id (λ j e. ground arith) 0 q.jobs
          q.next_id v.ids)

  pub release_free-IsValid : IsValid q → IsValid (release_free q id worker).0
  unfolding release_free
  release_free-IsValid v =
      let admitted =
        admits_of_slots (update (releases q.jobs id worker) back_to_pending q.jobs)
          (release-slots v) in
      rw admitted (record {
        ids = Ascending-update _ _ (λ j. refl) 0 q.jobs q.next_id v.ids;
        slots = release-slots v;
      })

module _ (q : Queue) (cutoff : ℕ) (v : IsValid q) where
  -- the stale index jobs of a repository that the first statement leaves running
  survives : Str → Job → Bool
  survives repo j = is_rival cutoff repo j && not (is_surplus cutoff q.jobs j)

  survives-is_rival :
      (repo : Str) (j : Job) → survives repo j ≡ true → is_rival cutoff repo j ≡ true
  unfolding survives
  survives-is_rival repo j h = ground arith

  survives-free :
      (repo : Str) → has_slot q.jobs repo ≡ true → (j : Job) → survives repo j ≡ true → ⊥
  unfolding survives
  survives-free repo full j h =
      let same : str_eq j.repo_id repo ≡ true = ground arith in
      let full' : has_slot q.jobs j.repo_id ≡ true =
        subst (λ r. has_slot q.jobs r ≡ true) (sym ((str_eq_iff j.repo_id repo).0 same)) full in
      ground arith

  survives-min :
      (repo : Str) (m : ℕ)
      → min_id (is_rival cutoff repo) q.jobs ≡ some m
      → (j : Job) → survives repo j ≡ true
      → j.id ≡ m
  unfolding survives
  survives-min repo m e j h =
      let same : str_eq j.repo_id repo ≡ true = ground arith in
      let e' : min_id (is_rival cutoff j.repo_id) q.jobs ≡ some m =
        subst (λ r. min_id (is_rival cutoff r) q.jobs ≡ some m)
          (sym ((str_eq_iff j.repo_id repo).0 same)) e in
      ground arith

  survives_unique : (repo : Str) → count (survives repo) q.jobs ≤ 1
  survives_unique repo = elim (Option-cases (min_id (is_rival cutoff repo) q.jobs)) [
    | inl e ↦ omega (
      arith,
      count_of_min_id-none (is_rival cutoff repo) q.jobs e,
      count-le_of_imp (survives repo) (is_rival cutoff repo) (survives-is_rival repo) q.jobs,
    )
    | inr (m, e) ↦ count_id (survives repo) m (survives-min repo m e) 0 q.jobs q.next_id v.ids
  ]

  kept : List Job
  unfolding drop_surplus
  kept = drop_surplus cutoff q.jobs

  entrant-survives :
      (repo : Str) (j : Job)
      → entrants (is_stale cutoff) repo (if is_surplus cutoff q.jobs j then supersede j else j)
        ≡ true
      → survives repo j ≡ true
  unfolding survives
  entrant-survives repo j h = elim (Bool-cases (is_surplus cutoff q.jobs j)) [
    | inl e ↦ let gone : entrants (is_stale cutoff) repo (supersede j) ≡ true = rw e at h in cc
    | inr e ↦
        let stays : entrants (is_stale cutoff) repo j ≡ true = rw e at h in rw e (ground arith)
  ]

  entrants-kept :
      (repo : Str) → count (entrants (is_stale cutoff) repo) kept ≤ count (survives repo) q.jobs
  unfolding kept survives
  entrants-kept repo =
      count-update-imp (entrants (is_stale cutoff) repo) (survives repo) (is_surplus cutoff q.jobs)
        supersede (entrant-survives repo) q.jobs

  has_slot-kept : (repo : Str) → has_slot kept repo ≡ true → has_slot q.jobs repo ≡ true
  unfolding kept
  has_slot-kept repo h =
      any-update (is_slot repo) (is_surplus cutoff q.jobs) supersede (λ j p s. cc) q.jobs h

  kept-IsValid : IsValid (record q { jobs = kept })
  unfolding kept
  kept-IsValid = update-IsValid q _ _ (λ i. refl) (λ r i h k. cc) v

  requeue-slots : (repo : Str) → count (is_slot repo) (requeue_rest cutoff kept) ≤ 1
  unfolding requeue_rest
  requeue-slots repo =
      slots-back_to_pending kept (is_stale cutoff) repo (kept-IsValid.slots repo)
        (λ full. omega (
          arith,
          entrants-kept repo,
          count_none (survives repo) q.jobs (survives-free repo (has_slot-kept repo full)),
        ))
        (omega (arith, entrants-kept repo, survives_unique repo))

  pub requeued-IsValid :
      IsValid (record q { jobs = requeue_rest cutoff (drop_surplus cutoff q.jobs) })
  unfolding kept requeue_rest
  requeued-IsValid = record {
    ids = Ascending-update _ _ (λ j. refl) 0 kept q.next_id kept-IsValid.ids;
    slots = requeue-slots;
  }

pub requeued_admitted :
    (q : Queue) (cutoff : ℕ)
    → IsValid q
    → admits (requeue_rest cutoff (drop_surplus cutoff q.jobs)) ≡ true
requeued_admitted q cutoff v =
    admits_of_slots (requeue_rest cutoff (drop_surplus cutoff q.jobs))
      (requeued-IsValid q cutoff v).slots

-- The second statement of the sweep in a queue that other statements may have changed: where it
-- fails it changes nothing.
pub sweep_rest-IsValid : (q : Queue) (cutoff : ℕ) → IsValid q → IsValid (sweep_rest q cutoff).0
unfolding sweep_rest
sweep_rest-IsValid q cutoff v = elim (Bool-cases (admits (requeue_rest cutoff q.jobs))) [
  | inl e ↦
      rw (e, sweep_rest)
        (record {
          ids = requeue_rest-Ascending cutoff q v;
          slots = slots_of_admits (requeue_rest cutoff q.jobs) e;
        })
  | inr e ↦ rw (e, sweep_rest) v
]
  where
    requeue_rest-Ascending :
        (cutoff : ℕ) (q : Queue) → IsValid q → Ascending 0 (requeue_rest cutoff q.jobs) q.next_id
    requeue_rest-Ascending cutoff q v =
        unfold requeue_rest in Ascending-update _ _ (λ j. refl) 0 q.jobs q.next_id v.ids

pub sweep_surplus-IsValid : (q : Queue) (cutoff : ℕ) → IsValid q → IsValid (sweep_surplus q cutoff)
unfolding sweep_surplus drop_surplus
sweep_surplus-IsValid q cutoff v = update-IsValid q _ _ (λ i. refl) (λ r i h k. cc) v

-- Run with no other statement between its two, the requeue of stale jobs goes through: neither
-- statement breaks the unique index, and the queue stays valid.
pub requeue_stale_total :
    (q : Queue) (now older_than : ℕ)
    → IsValid q
    → (n : ℕ) × ((requeue_stale q now older_than).1 ≡ ok n)
      × IsValid (requeue_stale q now older_than).0
unfolding requeue_stale sweep_rest sweep_surplus
requeue_stale_total q now older_than v =
    let cutoff = now - older_than in
    rw (requeued_admitted q cutoff v)
      (count (is_stale cutoff) (drop_surplus cutoff q.jobs), refl, requeued-IsValid q cutoff v)
