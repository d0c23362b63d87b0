-- ===== src/JobQueue/Table.antt =====
-- Counting and updating rows of the table.

-- The ids ascend, from `lo` on and below `hi`.
use ragota.Base.{
  Bool, Bool-cases, List, [], all, any, arith, false, if◌then◌else◌, inl, inr, none, refl, suc,
  true, ℕ, ◌&&◌, ◌++◌, ◌+◌, ◌<◌, ◌∷◌, ◌≡◌, ◌≤◌,
}
use ragota.JobQueue.{Job, count, find, min_id, update}

abbrev pub Ascending : ℕ → List Job → ℕ → Type 0
Ascending lo [] hi = lo ≤ hi
Ascending lo (j ∷ js) hi = (lo ≤ j.id) × Ascending (suc j.id) js hi

pub Ascending-append :
    (lo : ℕ) (js : List Job) (j : Job) {hi : ℕ}
    → Ascending lo js hi
    → j.id ≡ hi
    → Ascending lo (js ++ j ∷ []) (hi + 1)
Ascending-append lo [] j a e = omega arith
Ascending-append lo (i ∷ js) j a e = (a.0, Ascending-append (suc i.id) js j a.1 e)

pub Ascending-update :
    (p : Job → Bool) (f : Job → Job)
    → ((j : Job) → (f j).id ≡ j.id)
    → (lo : ℕ) (js : List Job) (hi : ℕ) → Ascending lo js hi
    → Ascending lo (update p f js) hi
unfolding update
Ascending-update p f same lo [] hi a = a
Ascending-update p f same lo (j ∷ js) hi a = elim (Bool-cases (p j)) [
  | inl e ↦ rw (e, same j) (a.0, Ascending-update p f same (suc j.id) js hi a.1)
  | inr e ↦ rw e (a.0, Ascending-update p f same (suc j.id) js hi a.1)
]

-- an update of rows that it does not bring into `s` leaves no more of them there
pub count-update-le :
    (s p : Job → Bool) (f : Job → Job)
    → ((j : Job) → p j ≡ true → s (f j) ≡ true → s j ≡ true)
    → (js : List Job) → count s (update p f js) ≤ count s js
unfolding count update
count-update-le s p f keep [] = omega arith
count-update-le s p f keep (j ∷ js) = ground (arith, count-update-le s p f keep js, keep j)

-- an update after which `s` holds only of rows of which `t` held before
pub count-update-imp :
    (s t p : Job → Bool) (f : Job → Job)
    → ((j : Job) → s (if p j then f j else j) ≡ true → t j ≡ true)
    → (js : List Job) → count s (update p f js) ≤ count t js
unfolding count update
count-update-imp s t p f imp [] = omega arith
count-update-imp s t p f imp (j ∷ js) = ground (arith, count-update-imp s t p f imp js, imp j)

pub any-update :
    (s p : Job → Bool) (f : Job → Job)
    → ((j : Job) → p j ≡ true → s (f j) ≡ true → s j ≡ true)
    → (js : List Job) → any s (update p f js) ≡ true
    → any s js ≡ true
unfolding update
any-update s p f keep [] h = h
any-update s p f keep (j ∷ js) h = ground (arith, any-update s p f keep js, keep j)

-- every row in `s` after an update was there before or is brought there
pub count-update-split :
    (s p : Job → Bool) (f : Job → Job) (js : List Job)
    → count s (update p f js) ≤ count s js + count (λ j. p j && s (f j)) js
unfolding count update
count-update-split s p f [] = omega arith
count-update-split s p f (j ∷ js) = ground (arith, count-update-split s p f js)

pub count-le_of_imp :
    (s t : Job → Bool)
    → ((j : Job) → s j ≡ true → t j ≡ true)
    → (js : List Job) → count s js ≤ count t js
unfolding count
count-le_of_imp s t imp [] = omega arith
count-le_of_imp s t imp (j ∷ js) = ground (arith, count-le_of_imp s t imp js, imp j)

pub count_of_not_any : (s : Job → Bool) (js : List Job) → any s js ≡ false → count s js ≡ 0
unfolding count
count_of_not_any s [] h = refl
count_of_not_any s (j ∷ js) h = ground (arith, count_of_not_any s js)

pub count_of_find-none : (s : Job → Bool) (js : List Job) → find s js ≡ none → count s js ≡ 0
unfolding count find
count_of_find-none s [] h = refl
count_of_find-none s (j ∷ js) h = ground (arith, count_of_find-none s js)

pub count_of_min_id-none : (s : Job → Bool) (js : List Job) → min_id s js ≡ none → count s js ≡ 0
unfolding count min_id
count_of_min_id-none s [] h = refl
count_of_min_id-none s (j ∷ js) h = ground (arith, count_of_min_id-none s js)

pub count-append :
    (s : Job → Bool) (js ks : List Job) → count s (js ++ ks) ≡ count s js + count s ks
unfolding count
count-append s [] ks = omega arith
count-append s (j ∷ js) ks = ground (arith, count-append s js ks)

count_below :
    (s : Job → Bool) (m : ℕ)
    → ((j : Job) → s j ≡ true → j.id ≡ m)
    → (lo : ℕ) (js : List Job) (hi : ℕ) → m < lo
    → Ascending lo js hi
    → count s js ≡ 0
unfolding count
count_below s m only lo [] hi h a = refl
count_below s m only lo (j ∷ js) hi h a =
    ground (arith, only j, count_below s m only (suc j.id) js hi (omega arith) a.1)

-- ids are unique, so at most one row has a given one
pub count_id :
    (s : Job → Bool) (m : ℕ)
    → ((j : Job) → s j ≡ true → j.id ≡ m)
    → (lo : ℕ) (js : List Job) (hi : ℕ) → Ascending lo js hi
    → count s js ≤ 1
unfolding count
count_id s m only lo [] hi a = omega arith
count_id s m only lo (j ∷ js) hi a = elim (Bool-cases (s j)) [
  | inl e ↦
      let same = only j e in
      let none_after = count_below s m only (suc j.id) js hi (omega arith) a.1 in
      rw e (omega (arith, none_after))
  | inr e ↦ rw e (count_id s m only (suc j.id) js hi a.1)
]

pub all_of {ℓ} :
    {A : Type ℓ} (p : A → Bool) → ((a : A) → p a ≡ true) → (xs : List A) → all p xs ≡ true
all_of p h [] = refl
all_of p h (a ∷ xs) = ground (arith, h a, all_of p h xs)

pub Ascending-le : (lo : ℕ) (js : List Job) (hi : ℕ) → Ascending lo js hi → lo ≤ hi
Ascending-le lo [] hi a = a
Ascending-le lo (j ∷ js) hi a = omega (arith, Ascending-le (suc j.id) js hi a.1)

pub any_of_count :
    (s t : Job → Bool) (js : List Job)
    → count s js ≡ 0
    → ((j : Job) → t j ≡ true → s j ≡ true)
    → any t js ≡ false
unfolding count
any_of_count s t [] h imp = refl
any_of_count s t (j ∷ js) h imp = ground (arith, any_of_count s t js, imp j)
