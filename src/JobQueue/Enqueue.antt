-- ===== src/JobQueue/Enqueue.antt =====
-- What a request to index a repository leaves in the queue.
use mathlib.Core.Option
use ragota.Base.{
  ==_iff, Bool, Bool-cases, List, Option, Option-cases, [], any, ap, arith, false, if◌then◌else◌,
  inl, inr, none, refl, some, suc, sym, true, ℕ, ◌&&◌, ◌++◌, ◌+◌, ◌==◌, ◌||◌, ◌∙◌, ◌∷◌, ◌≡◌, ◌≤◌,
}
use ragota.Base.Text.{Str, str_eq_refl}
use ragota.JobQueue.{Job, Queue, count, enqueue_index, find, index, is_slot, new_job, update}
use ragota.JobQueue.Rows.{
  fails_of_count, find-update, find_passes, has_id, row, row_of_find, updated,
}
use ragota.JobQueue.Table.{Ascending, Ascending-le, any_of_count, count-append, count_of_find-none}
use ragota.JobQueue.Valid.{IsValid}

find_above :
    (id lo : ℕ) (js : List Job) (hi : ℕ) → hi ≤ id → Ascending lo js hi → find (has_id id) js ≡ none
unfolding find
find_above id lo [] hi h a = refl
find_above id lo (j ∷ js) hi h a = elim (Bool-cases (has_id id j)) [
  | inl e ↦
      let same : j.id ≡ id = (==_iff j.id id).0 e in
      absurd (omega (arith, Ascending-le (suc j.id) js hi a.1))
  | inr e ↦ ground (arith, find_above id (suc j.id) js hi h a.1)
]

find-append_last :
    (id : ℕ) (js : List Job) (j : Job)
    → find (has_id id) js ≡ none
    → j.id ≡ id
    → find (has_id id) (js ++ j ∷ []) ≡ some j
unfolding find
find-append_last id [] j h e = ground arith
find-append_last id (i ∷ js) j h e = ground (arith, find-append_last id js j)

any_of_find :
    (p s : Job → Bool) (js : List Job)
    → find p js ≡ none
    → ((j : Job) → s j ≡ true → p j ≡ true)
    → any s js ≡ false
unfolding find
any_of_find p s [] h imp = refl
any_of_find p s (j ∷ js) h imp = ground (arith, any_of_find p s js, imp j)

-- the force flags of the pending index jobs of a repository
abbrev pub forced_slot : Str → Job → Bool
forced_slot repo j = is_slot repo j && j.force

-- where one row at most is in the slot, the first one has the flag
forced-find :
    (repo : Str) (js : List Job) {j : Job}
    → count (is_slot repo) js ≤ 1
    → find (is_slot repo) js ≡ some j
    → any (forced_slot repo) js ≡ j.force
unfolding find count
forced-find repo [] c h = cc
forced-find repo (i ∷ js) {j} c h = elim (Bool-cases (is_slot repo i)) [
  | inl e ↦
      let rest : count (is_slot repo) js ≡ 0 = ground arith in
      let same : i ≡ j = ground arith in
      let more : any (forced_slot repo) js ≡ false =
        any_of_count (is_slot repo) (forced_slot repo) js rest (λ k t. ground arith) in
      let here_force : forced_slot repo i ≡ i.force = ground arith in
      ap (λ b. b || any (forced_slot repo) js) here_force
      ∙ ap (λ b. i.force || b) more
      ∙ ground (arith, same)
  | inr e ↦ ground (arith, forced-find repo js {j = j})
]

slot_unique :
    (p : Job → Bool) (id : ℕ) (js : List Job) (i j : Job)
    → count p js ≤ 1
    → find p js ≡ some j
    → find (has_id id) js ≡ some i
    → p i ≡ true
    → i ≡ j
unfolding find count
slot_unique p id [] i j c h k t = cc
slot_unique p id (x ∷ js) i j c h k t = elim (Bool-cases (p x)) [
  | inl e ↦ elim (Bool-cases (has_id id x)) [
    | inl first ↦ ground arith
    | inr later ↦
        let at_i : find (has_id id) js ≡ some i = ground arith in
        let gone : p i ≡ false = fails_of_count (has_id id) p js (ground arith) at_i in cc
  ]
  | inr e ↦ elim (Bool-cases (has_id id x)) [
    | inl first ↦ let same : x ≡ i = ground arith in cc (ap p same)
    | inr later ↦ slot_unique p id js i j (ground arith) (ground arith) (ground arith) t
  ]
]

-- What `EnqueueIndexJob` leaves: the repository has one pending index job, the one that is returned;
-- it is forced if this request or the one that it joins is; and no other row is touched.
abbrev pub Enqueued : Queue → Str → Bool → Queue × Job → Type 0
Enqueued q repo force (r, j) =
    (count (is_slot repo) r.jobs ≡ 1)
    × (is_slot repo j ≡ true)
    × (j.force ≡ (any (forced_slot repo) q.jobs || force))
    × (Option.map (λ (k : Job). record k { payload = [] }) (row r j.id) ≡ some j)
    × ((id : ℕ) → (if id == j.id then none else row r id) ≡ (if id == j.id then none else row q id))

count_pos : (p : Job → Bool) (js : List Job) {j : Job} → find p js ≡ some j → 1 ≤ count p js
unfolding find count
count_pos p [] h = cc
count_pos p (x ∷ js) {j} h = ground (arith, count_pos p js {j = j})

module _ (q : Queue) (repo : Str) (force : Bool) (v : IsValid q) where
  abbrev with_force : Job → Job
  with_force i = record i { force = i.force || force }

  count-with_force :
      (js : List Job)
      → count (is_slot repo) (update (is_slot repo) with_force js) ≡ count (is_slot repo) js
  unfolding count update
  count-with_force [] = refl
  count-with_force (i ∷ js) = ground (arith, count-with_force js)

  spared_row :
      (j : Job)
      → find (is_slot repo) q.jobs ≡ some j
      → (id : ℕ) (o : Option Job) → row q id ≡ o
      → (if id == j.id then none else updated (is_slot repo) with_force o)
        ≡ (if id == j.id then none else o)
  spared_row j e id none at_id = ground arith
  spared_row j e id (some i) at_id = elim (Bool-cases (is_slot repo i)) [
    | inl taken ↦
        let same : i ≡ j = slot_unique (is_slot repo) id q.jobs i j (v.slots repo) e at_id taken in
        let i_id : i.id ≡ id = (==_iff i.id id).0 (find_passes (has_id id) q.jobs at_id) in
        ground (arith, ap (λ (k : Job). k.id) same)
    | inr free ↦ rw free refl
  ]

  Enqueued-joined :
      (j : Job)
      → find (is_slot repo) q.jobs ≡ some j
      → Enqueued q repo force (
        record q { jobs = update (is_slot repo) with_force q.jobs },
        record j { force = j.force || force; payload = [] },
      )
  Enqueued-joined j e =
      let passes = find_passes (is_slot repo) q.jobs e in
      let at_j = row_of_find (is_slot repo) 0 q.jobs q.next_id v.ids e in
      let taken : updated (is_slot repo) with_force (some j) ≡ some (with_force j) =
        rw passes refl in
      let after = λ (id : ℕ). find-update (is_slot repo) with_force (λ i. refl) id q.jobs in
      (
        omega (arith, v.slots repo, count_pos (is_slot repo) q.jobs e, count-with_force q.jobs),
        passes,
        ap (λ b. b || force) (sym (forced-find repo q.jobs (v.slots repo) e)),
        ap (Option.map (λ (k : Job). record k { payload = [] }))
            (after j.id ∙ ap (updated (is_slot repo) with_force) at_j ∙ taken),
        λ id.
            ap (λ o. if id == j.id then none else o) (after id) ∙ spared_row j e id (row q id) refl,
      )

  find-append_other :
      (js : List Job) (j : Job) (id : ℕ)
      → (if id == j.id then none else find (has_id id) (js ++ j ∷ []))
        ≡ (if id == j.id then none else find (has_id id) js)
  unfolding find
  find-append_other [] j id = ground arith
  find-append_other (i ∷ js) j id = ground (arith, find-append_other js j id)

  Enqueued-new :
      (now : ℕ)
      → find (is_slot repo) q.jobs ≡ none
      → let j = new_job q.next_id now repo index force [] in
        Enqueued q repo force (record { jobs = q.jobs ++ j ∷ []; next_id = q.next_id + 1 }, j)
  unfolding new_job count
  Enqueued-new now e =
      let j = new_job q.next_id now repo index force [] in
      (
        count-append (is_slot repo) q.jobs (j ∷ [])
            ∙ ground (arith, count_of_find-none (is_slot repo) q.jobs e, str_eq_refl repo),
        str_eq_refl repo,
        ap (λ b. b || force)
            (sym (any_of_find (is_slot repo) (forced_slot repo) q.jobs e (λ i t. ground arith))),
        ap (Option.map (λ (k : Job). record k { payload = [] })) (
            find-append_last q.next_id q.jobs j
              (find_above q.next_id 0 q.jobs q.next_id (omega arith) v.ids) refl),
        λ id. find-append_other q.jobs j id,
      )

-- After `EnqueueIndexJob` the repository has one pending index job, the one that is returned; it is
-- forced if this request or the one that it joins is, and no other row is touched.
pub enqueue_index_lem :
    (q : Queue) (now : ℕ) (repo : Str) (force : Bool)
    → IsValid q
    → Enqueued q repo force (enqueue_index q now repo force)
unfolding enqueue_index
enqueue_index_lem q now repo force v = elim (Option-cases (find (is_slot repo) q.jobs)) [
  | inl e ↦ rw (e, enqueue_index) (Enqueued-new q repo force v now e)
  | inr (j, e) ↦ rw (e, enqueue_index) (Enqueued-joined q repo force v j e)
]
