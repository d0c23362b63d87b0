-- ===== src/JobQueue/Claim.antt =====
-- Claiming, owning and finishing a job.
use mathlib.Core.Path.{subst}
use mathlib.Core.Option
use ragota.Base.{
  Bool, Bool-cases, List, Option, Option-cases, [], all, ap, arith, false, if◌then◌else◌, inl, inr,
  leb, none, not, refl, some, suc, sym, true, ℕ, ◌&&◌, ◌==◌, ◌||◌, ◌∙◌, ◌∷◌, ◌≡◌, ◌≢◌, ◌≤◌,
}
use ragota.Base.Text.{Str}
use ragota.JobQueue.{
  Job, Queue, Result, affected, claim_next, complete, count, fail, find, heartbeat, held_by,
  is_pending, not_found, ok, outcome, pending, running, update,
}
use ragota.JobQueue.Rows.{count_at, find-update, find_passes, has_id, row, row_of_find, updated}
use ragota.JobQueue.Table.{Ascending, count_of_find-none}
use ragota.JobQueue.Valid.{IsValid, claim_next-IsValid}
use ragota.Server.RateLimit.Runs.{granted}

abbrev pub claim_of : ℕ → Str → Job → Job
claim_of now worker j = record j {
  status = running;
  claimed_by = worker;
  claimed_at = now;
  heartbeat_at = now;
}

-- What a claim answers: not found exactly when nothing is pending, and else the oldest pending job,
-- running in the name of the worker, with every other row as it was.
abbrev pub Claims : Queue → ℕ → Str → Queue × Result Job → Type 0
Claims q now worker (r, fail e) = (e ≡ not_found) × (r ≡ q) × (count is_pending q.jobs ≡ 0)
Claims q now worker (r, ok k) =
    (j : Job) × (row q k.id ≡ some j)
    × (j.status ≡ pending)
    × (k ≡ claim_of now worker j)
    × (all (λ i. not (is_pending i) || leb k.id i.id) q.jobs ≡ true)
    × ((id : ℕ) → row r id ≡ (if id == k.id then some k else row q id))

-- an update of the row with one id, seen from every id
row-update :
    (js : List Job) (f : Job → Job) (at id : ℕ)
    → ((j : Job) → (f j).id ≡ j.id)
    → find (has_id id) (update (has_id at) f js)
      ≡ (if id == at then Option.map f (find (has_id at) js) else find (has_id id) js)
unfolding find update
row-update [] f at id same = ground arith
row-update (j ∷ js) f at id same = ground (arith, same j, row-update js f at id same)

all_above :
    (m lo : ℕ) (js : List Job) (hi : ℕ)
    → m ≤ lo
    → Ascending lo js hi
    → all (λ i. not (is_pending i) || leb m i.id) js ≡ true
all_above m lo [] hi h a = refl
all_above m lo (x ∷ js) hi h a = ground (arith, all_above m (suc x.id) js hi (omega arith) a.1)

find-le-all :
    (lo : ℕ) (js : List Job) (hi : ℕ) {j : Job}
    → Ascending lo js hi
    → find is_pending js ≡ some j
    → all (λ i. not (is_pending i) || leb j.id i.id) js ≡ true
unfolding find
find-le-all lo [] hi a h = refl
find-le-all lo (x ∷ js) hi {j} a h = elim (Bool-cases (is_pending x)) [
  | inl e ↦
      let same : x ≡ j = ground arith in
      let above : all (λ i. not (is_pending i) || leb x.id i.id) (x ∷ js) ≡ true =
        all_above x.id x.id (x ∷ js) hi (omega arith) (omega arith, a.1) in
      subst (λ y. all (λ i. not (is_pending i) || leb y.id i.id) (x ∷ js) ≡ true) same above
  | inr e ↦
      let later : find is_pending js ≡ some j = ground arith in
      ground (arith, find-le-all (suc x.id) js hi a.1 later)
]

-- A claim takes the oldest pending job and touches no other, and it refuses exactly when none is
-- pending.
pub claim_next_lem :
    (q : Queue) (now : ℕ) (worker : Str) → IsValid q → Claims q now worker (claim_next q now worker)
unfolding claim_next
claim_next_lem q now worker v = elim (Option-cases (find is_pending q.jobs)) [
  | inl e ↦ rw (e, claim_next) (refl, refl, count_of_find-none is_pending q.jobs e)
  | inr (j, e) ↦
      let at_j = row_of_find is_pending 0 q.jobs q.next_id v.ids e in
      let passes = find_passes is_pending q.jobs e in
      rw (e, claim_next)
        (
          j,
          at_j,
          ground arith,
          refl,
          find-le-all 0 q.jobs q.next_id v.ids e,
          λ id.
              row-update q.jobs (claim_of now worker) j.id id (λ i. refl)
              ∙ ap (λ o. if id == j.id then Option.map (claim_of now worker) o else row q id) at_j,
        )
]

-- the same, read off a claim that was granted
claimed_from :
    (q : Queue) (now : ℕ) (worker : Str) {k : Job}
    → IsValid q
    → (claim_next q now worker).1 ≡ ok k
    → Claims q now worker ((claim_next q now worker).0, ok k)
claimed_from q now worker v granted =
    subst (λ r. Claims q now worker ((claim_next q now worker).0, r)) granted
      (claim_next_lem q now worker v)

claimed_row :
    (q : Queue) (now : ℕ) (worker : Str) (k : Job)
    → IsValid q
    → (claim_next q now worker).1 ≡ ok k
    → (row (claim_next q now worker).0 k.id ≡ some k) × (k.status ≡ running)
claimed_row q now worker k v granted =
    let (j, _, _, shape, _, rows) = claimed_from q now worker v granted in
    (rows k.id ∙ ground arith, ap (λ (i : Job). i.status) shape)

was_pending :
    (q : Queue) (now : ℕ) (worker : Str) (k : Job)
    → IsValid q
    → (claim_next q now worker).1 ≡ ok k
    → (j : Job) × (row q k.id ≡ some j) × (j.status ≡ pending)
was_pending q now worker k v granted =
    let (j, at_j, p, _, _, _) = claimed_from q now worker v granted in (j, at_j, p)

-- Two claims in a row, by whatever workers, never hand out one job twice.
pub claims_differ :
    (q : Queue) (t u : ℕ) (a b : Str) {j k : Job}
    → IsValid q
    → (claim_next q t a).1 ≡ ok j
    → (claim_next (claim_next q t a).0 u b).1 ≡ ok k
    → j.id ≢ k.id
claims_differ q t u a b {j} {k} v first second same =
    let r = (claim_next q t a).0 in
    let (at_j, runs) = claimed_row q t a j v first in
    let (i, at_i, waits) = was_pending r u b k (claim_next-IsValid q t a v) second in
    let at_k : row r k.id ≡ some j = subst (λ x. row r x ≡ some j) same at_j in
    let one : some i ≡ some j = sym at_i ∙ at_k in ground arith

-- whether a worker's statement on one job selects it
abbrev pub affects : (Job → Bool) → Queue → ℕ → Bool
affects p q id = elim (row q id) [ none ↦ false | some j ↦ p j ]

-- What a statement of a worker about its job does, and answers: it needs the job to run in the
-- worker's name, and touches no other job.
abbrev pub ByHolder : Queue → ℕ → Str → (Job → Job) → Queue × Result (Unit {0}) → Type 0
ByHolder q id worker f (r, answer) =
    (answer ≡ (if affects (held_by id worker) q id then ok tt else fail not_found))
    × ((i : ℕ)
        → row r i ≡ (
            if (i == id) && affects (held_by id worker) q id
            then Option.map f (row q i)
            else row q i))

held_count :
    (q : Queue) (id : ℕ) (worker : Str)
    → IsValid q
    → count (held_by id worker) q.jobs ≡ (if affects (held_by id worker) q id then 1 else 0)
held_count q id worker v =
    ground (arith, count_at (held_by id worker) id (λ j h. ground arith) 0 q.jobs q.next_id v.ids)

holder_update :
    (q : Queue) (id : ℕ) (worker : Str) (f : Job → Job)
    → ((j : Job) → (f j).id ≡ j.id)
    → IsValid q
    → ByHolder q id worker f (
      record q { jobs = update (held_by id worker) f q.jobs },
      affected (count (held_by id worker) q.jobs),
    )
holder_update q id worker f same v = (
  ground (arith, held_count q id worker v),
  λ i. find-update (held_by id worker) f same i q.jobs ∙ at_row i (row q i) refl,
)
  where
    at_row :
        (i : ℕ) (o : Option Job)
        → row q i ≡ o
        → updated (held_by id worker) f o
          ≡ (if (i == id) && affects (held_by id worker) q id then Option.map f o else o)
    at_row i none e = ground arith
    at_row i (some j) e = ground (arith, find_passes (has_id i) q.jobs e)

-- Only the worker that holds a running job can finish it or keep it alive: any other call is
-- refused and changes nothing. The holder's call records the outcome on that job and drops its
-- payload, or stamps its heartbeat, and leaves every other job alone.
pub complete_heartbeat_lem :
    (q : Queue) (now id : ℕ) (worker message : Str)
    → IsValid q
    → ByHolder q id worker
        (λ j. record j { status = outcome message; message = message; payload = [] })
        (complete q id worker message)
      × ByHolder q id worker (λ j. record j { heartbeat_at = now }) (heartbeat q now id worker)
unfolding complete heartbeat
complete_heartbeat_lem q now id worker message v =
    (holder_update q id worker _ (λ j. refl) v, holder_update q id worker _ (λ j. refl) v)
