-- ===== src/JobQueue/Sweep.antt =====
-- The sweep of stale jobs: what it leaves running and what it puts back.
use Prim.Native.Nat.{min}
use mathlib.Core.Path.{subst}
use ragota.Base.{
  Bool, Bool-cases, List, Option-cases, [], all, any, arith, false, if◌then◌else◌, inl, inr, not,
  refl, some, sym, true, ℕ, ◌&&◌, ◌-◌, ◌==◌, ◌||◌, ◌∙◌, ◌∷◌, ◌≡◌,
}
use ragota.Base.Text.{Str, str_eq_iff}
use ragota.JobQueue.{
  Job, Queue, back_to_pending, drop_surplus, has_slot, is_rival, is_slot, is_stale, is_surplus,
  min_id, requeue_rest, requeue_stale, supersede, update,
}
use ragota.JobQueue.Requeue.{requeued_admitted}
use ragota.JobQueue.Table.{any_of_count, count_of_min_id-none}
use ragota.JobQueue.Valid.{IsValid}
use ragota.Server.RateLimit.Runs.Avail.{full}

bool_ext : (a b : Bool) → (a ≡ true → b ≡ true) → (b ≡ true → a ≡ true) → a ≡ b
bool_ext a b f g = ground arith

-- a row that passes `s` before an update passes `t` after it
any-update_imp :
    (s t p : Job → Bool) (f : Job → Job)
    → ((j : Job) → s j ≡ true → t (if p j then f j else j) ≡ true)
    → (js : List Job) → any s js ≡ true
    → any t (update p f js) ≡ true
unfolding update
any-update_imp s t p f imp [] h = cc
any-update_imp s t p f imp (j ∷ js) h = ground (arith, imp j, any-update_imp s t p f imp js)

-- the other way round
any_of_any-update :
    (s t p : Job → Bool) (f : Job → Job)
    → ((j : Job) → t (if p j then f j else j) ≡ true → s j ≡ true)
    → (js : List Job) → any t (update p f js) ≡ true
    → any s js ≡ true
unfolding update
any_of_any-update s t p f imp [] h = cc
any_of_any-update s t p f imp (j ∷ js) h = ground (arith, imp j, any_of_any-update s t p f imp js)

any-min_id :
    (p : Job → Bool) (js : List Job) (m : ℕ)
    → min_id p js ≡ some m
    → any (λ j. p j && (j.id == m)) js ≡ true
unfolding min_id
any-min_id p [] m h = cc
any-min_id p (j ∷ js) m h = elim (Option-cases (min_id p js)) [
  | inl e ↦ ground arith
  | inr (n, e) ↦ ground (arith, any-min_id p js n e, any-min_id p js m)
]

min_id_of_any :
    (p : Job → Bool) (js : List Job) → any p js ≡ true → (m : ℕ) × (min_id p js ≡ some m)
unfolding min_id
min_id_of_any p [] h = cc
min_id_of_any p (j ∷ js) h = elim (Option-cases (min_id p js)) [
  | inr (n, e) ↦ elim (Bool-cases (p j)) [
    | inl t ↦ (min j.id n, ground arith)
    | inr t ↦ (n, ground arith)
  ]
  | inl e ↦
      let none_there : any p js ≡ false =
        any_of_count p p js (count_of_min_id-none p js e) (λ k t. t) in
      (j.id, ground arith)
]

-- what counts for the slot after the sweep: a pending index job, or a stale one
abbrev slot_or_rival : ℕ → Str → Job → Bool
slot_or_rival cutoff repo j = is_slot repo j || is_rival cutoff repo j

module _ (cutoff : ℕ) (repo : Str) (js : List Job) where
  rival_put_back :
      has_slot js repo ≡ false
      → any (is_rival cutoff repo) js ≡ true
      → any (slot_or_rival cutoff repo) (drop_surplus cutoff js) ≡ true
  unfolding drop_surplus
  rival_put_back free rivals =
      let (m, e) = min_id_of_any (is_rival cutoff repo) js rivals in
      any-update_imp (λ j. is_rival cutoff repo j && (j.id == m)) (slot_or_rival cutoff repo)
        (is_surplus cutoff js) supersede (stays m e) js (any-min_id (is_rival cutoff repo) js m e)
    where
      stays :
          (m : ℕ)
          → min_id (is_rival cutoff repo) js ≡ some m
          → (j : Job) → (is_rival cutoff repo j && (j.id == m)) ≡ true
          → slot_or_rival cutoff repo (if is_surplus cutoff js j then supersede j else j) ≡ true
      stays m e j h =
          let same : j.repo_id ≡ repo = (str_eq_iff j.repo_id repo).0 (ground arith) in
          let e' : min_id (is_rival cutoff j.repo_id) js ≡ some m =
            subst (λ r. min_id (is_rival cutoff r) js ≡ some m) (sym same) e in
          let free' : has_slot js j.repo_id ≡ false =
            subst (λ r. has_slot js r ≡ false) (sym same) free in
          let kept : is_surplus cutoff js j ≡ false = ground arith in rw kept (ground arith)

  slot_stays :
      has_slot js repo ≡ true → any (slot_or_rival cutoff repo) (drop_surplus cutoff js) ≡ true
  unfolding drop_surplus
  slot_stays full =
      any-update_imp (is_slot repo) (slot_or_rival cutoff repo) (is_surplus cutoff js) supersede
        (λ j h. ground arith) js full

  back_in_slot :
      any (slot_or_rival cutoff repo) (drop_surplus cutoff js) ≡ true
      → has_slot (requeue_rest cutoff (drop_surplus cutoff js)) repo ≡ true
  unfolding requeue_rest
  back_in_slot =
      any-update_imp (slot_or_rival cutoff repo) (is_slot repo) (is_stale cutoff) back_to_pending
        (λ j h. ground arith) (drop_surplus cutoff js)

  from_slot :
      has_slot (requeue_rest cutoff (drop_surplus cutoff js)) repo ≡ true
      → any (slot_or_rival cutoff repo) js ≡ true
  unfolding requeue_rest drop_surplus
  from_slot h =
      any_of_any-update (slot_or_rival cutoff repo) (slot_or_rival cutoff repo)
        (is_surplus cutoff js) supersede (λ j t. ground arith) js
        (any_of_any-update (slot_or_rival cutoff repo) (is_slot repo) (is_stale cutoff)
          back_to_pending (λ j t. ground arith) (drop_surplus cutoff js) h)

any_or : (s t : Job → Bool) (js : List Job) → any (λ j. s j || t j) js ≡ (any s js || any t js)
any_or s t [] = refl
any_or s t (j ∷ js) = ground (arith, any_or s t js)

none_stale :
    (cutoff : ℕ) (js : List Job)
    → all (λ j. not (is_stale cutoff j)) (requeue_rest cutoff js) ≡ true
unfolding requeue_rest update
none_stale cutoff [] = refl
none_stale cutoff (j ∷ js) = ground (arith, none_stale cutoff js)

-- After the sweep of a valid queue, run with no other statement between its two, no running job is
-- stale, and a repository has a pending index job exactly if it had one before or had a stale one:
-- no request is lost and none is made up.
pub requeue_stale_lem :
    (q : Queue) (now older_than : ℕ)
    → IsValid q
    → let r = (requeue_stale q now older_than).0 in
      (all (λ j. not (is_stale (now - older_than) j)) r.jobs ≡ true)
      × ((repo : Str)
          → has_slot r.jobs repo
            ≡ (has_slot q.jobs repo || any (is_rival (now - older_than) repo) q.jobs))
unfolding requeue_stale
requeue_stale_lem q now older_than v =
    let cutoff = now - older_than in
    rw (requeue_stale, requeued_admitted q cutoff v)
      (
        none_stale cutoff (drop_surplus cutoff q.jobs),
        λ repo.
            bool_ext _ _
              (λ h.
                sym (any_or (is_slot repo) (is_rival cutoff repo) q.jobs)
                ∙ from_slot cutoff repo q.jobs h)
              (λ h. back_in_slot cutoff repo q.jobs (put_back cutoff repo h)),
      )
  where
    put_back :
        (cutoff : ℕ) (repo : Str)
        → (has_slot q.jobs repo || any (is_rival cutoff repo) q.jobs) ≡ true
        → any (slot_or_rival cutoff repo) (drop_surplus cutoff q.jobs) ≡ true
    put_back cutoff repo h = elim (Bool-cases (has_slot q.jobs repo)) [
      | inl full ↦ slot_stays cutoff repo q.jobs full
      | inr free ↦ rival_put_back cutoff repo q.jobs free (ground arith)
    ]
