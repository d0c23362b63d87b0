-- ===== src/JobQueue/Rows.antt =====
-- Rows by id, under updates and insertions.
use mathlib.Core.Path.{subst}
use ragota.Base.{
  ==_iff, Bool, Bool-cases, List, Option, [], ap, arith, false, if◌then◌else◌, inl, inr, none, refl,
  some, suc, true, ℕ, ◌++◌, ◌<◌, ◌==◌, ◌∷◌, ◌≡◌, ◌≤◌,
}
use ragota.JobQueue.{Job, Queue, count, find, update}
use ragota.JobQueue.Table.{Ascending}

abbrev pub has_id : ℕ → Job → Bool
has_id id j = j.id == id

-- the row with an id
abbrev pub row : Queue → ℕ → Option Job
row q id = find (has_id id) q.jobs

abbrev pub updated : (Job → Bool) → (Job → Job) → Option Job → Option Job
updated p f none = none
updated p f (some j) = some (if p j then f j else j)

pub find-update :
    (p : Job → Bool) (f : Job → Job)
    → ((j : Job) → (f j).id ≡ j.id)
    → (id : ℕ) (js : List Job)
    → find (has_id id) (update p f js) ≡ updated p f (find (has_id id) js)
unfolding find update
find-update p f same id [] = refl
find-update p f same id (j ∷ js) = ground (arith, same j, find-update p f same id js)

pub find-append :
    (p : Job → Bool) (js ks : List Job) {j : Job} → find p js ≡ some j → find p (js ++ ks) ≡ some j
unfolding find
find-append p [] ks h = cc
find-append p (i ∷ js) ks {j} h = ground (arith, find-append p js ks {j = j})

pub find_passes : (p : Job → Bool) (js : List Job) {j : Job} → find p js ≡ some j → p j ≡ true
unfolding find
find_passes p [] h = cc
find_passes p (i ∷ js) {j} h = ground (arith, find_passes p js {j = j})

-- a count of zero excludes every row
pub fails_of_count :
    (p s : Job → Bool) (js : List Job) {j : Job} → count s js ≡ 0 → find p js ≡ some j → s j ≡ false
unfolding find count
fails_of_count p s [] z h = cc
fails_of_count p s (i ∷ js) {j} z h = ground (arith, fails_of_count p s js {j = j})

pub update_none :
    (p : Job → Bool) (f : Job → Job) (js : List Job) → count p js ≡ 0 → update p f js ≡ js
unfolding update count
update_none p f [] h = refl
update_none p f (j ∷ js) h = ground (arith, update_none p f js)

find_below :
    (id lo : ℕ) (js : List Job) (hi : ℕ) → id < lo → Ascending lo js hi → find (has_id id) js ≡ none
unfolding find
find_below id lo [] hi h a = refl
find_below id lo (j ∷ js) hi h a = ground (arith, find_below id (suc j.id) js hi (omega arith) a.1)

-- With ascending ids, a test that implies an id passes on the row with that id only.
pub count_at :
    (p : Job → Bool) (id : ℕ)
    → ((j : Job) → p j ≡ true → j.id ≡ id)
    → (lo : ℕ) (js : List Job) (hi : ℕ) → Ascending lo js hi
    → count p js ≡ elim (find (has_id id) js) [ none ↦ 0 | some j ↦ if p j then 1 else 0 ]
unfolding find count
count_at p id only lo [] hi a = refl
count_at p id only lo (j ∷ js) hi a = elim (Bool-cases (has_id id j)) [
  | inl e ↦
      let same : j.id ≡ id = (==_iff j.id id).0 e in
      let below = find_below id (suc j.id) js hi (omega arith) a.1 in
      ground (arith, below, count_at p id only (suc j.id) js hi a.1)
  | inr e ↦ ground (arith, only j, count_at p id only (suc j.id) js hi a.1)
]

pub find-ge :
    (p : Job → Bool) (lo : ℕ) (js : List Job) (hi : ℕ) {j : Job}
    → Ascending lo js hi
    → find p js ≡ some j
    → lo ≤ j.id
unfolding find
find-ge p lo [] hi a h = cc
find-ge p lo (x ∷ js) hi {j} a h = elim (Bool-cases (p x)) [
  | inl e ↦ let same : x ≡ j = ground arith in subst (λ i. lo ≤ i.id) same a.0
  | inr e ↦
      let later : find p js ≡ some j = ground arith in
      omega (arith, find-ge p (suc x.id) js hi a.1 later)
]

-- the first row that passes has the least id of those that pass
pub find-le :
    (p : Job → Bool) (lo : ℕ) (js : List Job) (hi : ℕ) (i j : Job) (id : ℕ)
    → Ascending lo js hi
    → find p js ≡ some j
    → find (has_id id) js ≡ some i
    → p i ≡ true
    → j.id ≤ id
unfolding find
find-le p lo [] hi i j id a h k passes = cc
find-le p lo (x ∷ js) hi i j id a h k passes = elim (Bool-cases (p x)) [
  | inl e ↦
      let same : x ≡ j = ground arith in
      let found : i.id ≡ id = (==_iff i.id id).0 (find_passes (has_id id) (x ∷ js) k) in
      let bound : x.id ≤ i.id = find-ge (has_id id) x.id (x ∷ js) hi (omega arith, a.1) k in
      subst (λ y. y.id ≤ id) same (omega arith)
  | inr e ↦ elim (Bool-cases (has_id id x)) [
    | inl first ↦ let same : x ≡ i = ground arith in cc (ap p same)
    | inr later ↦ find-le p (suc x.id) js hi i j id a.1 (ground arith) (ground arith) passes
  ]
]

-- with ascending ids the row that a search finds is the row with its id
pub row_of_find :
    (p : Job → Bool) (lo : ℕ) (js : List Job) (hi : ℕ) {j : Job}
    → Ascending lo js hi
    → find p js ≡ some j
    → find (has_id j.id) js ≡ some j
unfolding find
row_of_find p lo [] hi a h = cc
row_of_find p lo (x ∷ js) hi {j} a h = elim (Bool-cases (p x)) [
  | inl e ↦ ground arith
  | inr e ↦
      let later : find p js ≡ some j = ground arith in
      let above = find-ge p (suc x.id) js hi a.1 later in
      ground (arith, above, row_of_find p (suc x.id) js hi a.1 later)
]
