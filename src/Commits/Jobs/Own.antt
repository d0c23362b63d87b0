-- ===== src/Commits/Jobs/Own.antt =====
-- What a client reads of the queue through internal/app/jobs.go.
use mathlib.Core.List.{reverse, reverse_aux}
use mathlib.Core.Path.{subst}
use ragota.Base.{
  All, All-imp, All-map, Bool, Bool-cases, List, Option-cases, [], arith, if◌then◌else◌, inl, inr,
  length, length-take, ltb, map, refl, suc, take, true, zero, ℕ, ◌==◌, ◌∷◌, ◌≡◌, ◌≤◌,
}
use ragota.Base.Text.{Str, str_eq}
use ragota.Commits.Batch.{Db}
use ragota.Commits.Jobs.{max_job_list_limit, repo_jobs}
use ragota.JobQueue.{Job, Queue, Result, fail, list_jobs, ok, select, without_payload}
use ragota.RepoStore.{get_repo}

-- a job of the repository, without the payload
abbrev pub IsOwn : Str → Job → Type 0
IsOwn id j = (str_eq j.repo_id id ≡ true) × (j.payload ≡ [])

select-All : (p : Job → Bool) (js : List Job) → All (λ j. p j ≡ true) (select p js)
unfolding select
select-All p [] = tt
select-All p (j ∷ js) = elim (Bool-cases (p j)) [
  | inl e ↦ rw (e, select) (e, select-All p js)
  | inr e ↦ rw (e, select) (select-All p js)
]

All-reverse_aux :
    (P : Job → Type 0) (js acc : List Job) → All P js → All P acc → All P (reverse_aux js acc)
All-reverse_aux P [] acc h k = k
All-reverse_aux P (j ∷ js) acc h k = All-reverse_aux P js (j ∷ acc) h.1 (h.0, k)

All-take : (P : Job → Type 0) (n : ℕ) (js : List Job) → All P js → All P (take n js)
All-take P zero js h = tt
All-take P (suc n) [] h = tt
All-take P (suc n) (j ∷ js) h = (h.0, All-take P n js h.1)

list_jobs-All : (q : Queue) (id : Str) (limit : ℕ) → All (IsOwn id) (list_jobs q id limit)
unfolding list_jobs
list_jobs-All q id limit =
    let mine = select (λ j. str_eq j.repo_id id) q.jobs in
    All-take (IsOwn id) _ _ (
      All-map (IsOwn id) without_payload (reverse mine) (
        All-imp (reverse mine) (λ j e. (e, refl))
          (All-reverse_aux (λ j. str_eq j.repo_id id ≡ true) mine [] (select-All _ q.jobs) tt)))

length-list_jobs :
    (q : Queue) (id : Str) (limit : ℕ) → limit ≤ 200 → length (list_jobs q id limit) ≤ 200
unfolding list_jobs
length-list_jobs q id limit h =
    let jobs = map without_payload (reverse (select (λ j. str_eq j.repo_id id) q.jobs)) in
    elim (Bool-cases (limit == 0)) [
      | inl e ↦ rw (e, list_jobs) (omega (arith, length-take 50 jobs))
      | inr e ↦ rw (e, list_jobs) (omega (arith, length-take limit jobs))
    ]

-- what a page may be
unfoldable pub OwnPage : Str → Result (List Job) → Type 0
OwnPage id (fail e) = Unit
OwnPage id (ok js) = All (IsOwn id) js × (length js ≤ 200)

repo_jobs-OwnPage : (d : Db) (id : Str) (limit : ℕ) → OwnPage id (repo_jobs d id limit)
unfolding repo_jobs OwnPage
repo_jobs-OwnPage d id limit =
    let n = if ltb max_job_list_limit limit then max_job_list_limit else limit in
    let small : n ≤ 200 = ground arith in
    elim (Option-cases (get_repo d.repos id)) [
      | inl e ↦ rw (e, repo_jobs) tt
      | inr (r, e) ↦
          rw (e, repo_jobs) (list_jobs-All d.queue id n, length-list_jobs d.queue id n small)
    ]

-- Whatever limit a client asks for, the page of jobs that it gets has at most 200 jobs, all of the
-- repository that it named, and shows no payload.
pub repo_jobs_lem :
    (d : Db) (id : Str) (limit : ℕ) (js : List Job)
    → repo_jobs d id limit ≡ ok js
    → All (IsOwn id) js × (length js ≤ 200)
unfolding OwnPage
repo_jobs_lem d id limit js h = subst (OwnPage id) h (repo_jobs-OwnPage d id limit)
