-- ===== src/RepoStore/Active.antt =====
-- The active set: `SetActiveRepos` of internal/store/sqlite/repos.go and `retrievalScope` of
-- internal/app/active.go.

-- the rows with their membership written anew, by their ids
use ragota.Base.{
  Bool, Bool-cases, List, [], any, ap, arith, drop, false, if◌then◌else◌, inl, inr, length,
  length-drop, not, refl, suc, sym, take, take-append-drop, true, zero, ℕ, ◌&&◌, ◌++◌, ◌==◌, ◌||◌,
  ◌∙◌, ◌∷◌, ◌≡◌, ◌≤◌,
}
use ragota.Base.Text.{Str}
use ragota.RepoStore.{Repo, is_repo, update_repos}
use ragota.RepoStore.Register.{
  active_rows, chunks_on, each_path_chunk, has_name, ids_of, is_empty, path_chunk, raise_active,
  retrieval_scope, set_active,
}

abbrev pub with_active : (Str → Bool) → List Repo → List Repo
with_active q [] = []
with_active q (r ∷ rs) = record r { active = q r.repo } ∷ with_active q rs

abbrev in_chunks : List (List Str) → Str → Bool
in_chunks cs id = any (λ c. has_name c id) cs

with_active_ext :
    (p q : Str → Bool) (rs : List Repo)
    → ((id : Str) → p id ≡ q id)
    → with_active p rs ≡ with_active q rs
with_active_ext p q [] h = refl
with_active_ext p q (r ∷ rs) h =
    rw (h r.repo) (ap (◌∷◌ (record r { active = q r.repo })) (with_active_ext p q rs h))

clear-with_active :
    (rs : List Repo)
    → update_repos (λ r. true) (λ r. record r { active = false }) rs ≡ with_active (λ id. false) rs
unfolding update_repos
clear-with_active [] = refl
clear-with_active (r ∷ rs) = ap (◌∷◌ (record r { active = false })) (clear-with_active rs)

raise-with_active :
    (c : List Str) (q : Str → Bool) (rs : List Repo)
    → update_repos (λ r. has_name c r.repo) (λ r. record r { active = true }) (with_active q rs)
      ≡ with_active (λ id. has_name c id || q id) rs
unfolding update_repos
raise-with_active c q [] = refl
raise-with_active c q (r ∷ rs) = elim (Bool-cases (has_name c r.repo)) [
  | inl e ↦ rw e (ap (◌∷◌ (record r { active = true })) (raise-with_active c q rs))
  | inr e ↦ rw e (ap (◌∷◌ (record r { active = q r.repo })) (raise-with_active c q rs))
]

raise_active-with_active :
    (cs : List (List Str)) (q : Str → Bool) (rs : List Repo)
    → raise_active cs (with_active q rs) ≡ with_active (λ id. in_chunks cs id || q id) rs
unfolding raise_active
raise_active-with_active [] q rs = refl
raise_active-with_active (c ∷ cs) q rs =
    ap (raise_active cs) (raise-with_active c q rs)
    ∙ raise_active-with_active cs (λ id. has_name c id || q id) rs
    ∙ with_active_ext _ _ rs (λ id. ground arith)

has_name-append :
    (is js : List Str) (id : Str) → has_name (is ++ js) id ≡ (has_name is id || has_name js id)
has_name-append [] js id = refl
has_name-append (i ∷ is) js id = ground (arith, has_name-append is js id)

chunks_on-has_name :
    (fuel : ℕ) (ids : List Str) (id : Str)
    → length ids ≤ fuel
    → in_chunks (chunks_on fuel ids) id ≡ has_name ids id
unfolding chunks_on
chunks_on-has_name zero [] id h = refl
chunks_on-has_name zero (i ∷ ids) id h = ground arith
chunks_on-has_name (suc fuel) [] id h = refl
chunks_on-has_name (suc fuel) (i ∷ ids) id h =
    let rest = drop path_chunk (i ∷ ids) in
    let short : length rest ≤ fuel = omega (arith, length-drop path_chunk (i ∷ ids)) in
    ap (λ b. has_name (take path_chunk (i ∷ ids)) id || b) (chunks_on-has_name fuel rest id short)
    ∙ sym (has_name-append (take path_chunk (i ∷ ids)) rest id)
    ∙ ap (λ l. has_name l id) (take-append-drop path_chunk (i ∷ ids))

-- After `SetActiveRepos` exactly the rows that the list names are active, however long the list
-- is, and nothing else is changed.
pub set_active_lem :
    (rs : List Repo) (ids : List Str) → set_active rs ids ≡ with_active (has_name ids) rs
unfolding set_active each_path_chunk
set_active_lem rs ids =
    ap (raise_active (each_path_chunk ids)) (clear-with_active rs)
    ∙ raise_active-with_active (each_path_chunk ids) (λ id. false) rs
    ∙ with_active_ext _ _ rs
        (λ id. ground (arith, chunks_on-has_name (length ids) ids id (omega arith)))

-- how the searchers read a scope
abbrev pub in_scope : List Str × Bool → Str → Bool
in_scope (ids, nothing) id = not nothing && (is_empty ids || has_name ids id)

abbrev pub is_active : Str → List Repo → Bool
is_active id = any (λ r. is_repo id r && r.active)

active_rows-le : (rs : List Repo) → length (active_rows rs) ≤ length rs
unfolding active_rows
active_rows-le [] = omega arith
active_rows-le (r ∷ rs) = ground (arith, active_rows-le rs)

all_active :
    (rs : List Repo) (id : Str)
    → length (active_rows rs) ≡ length rs
    → is_active id rs ≡ any (is_repo id) rs
unfolding active_rows
all_active [] id h = refl
all_active (r ∷ rs) id h = ground (arith, all_active rs id, active_rows-le rs)

active_rows-has_name :
    (rs : List Repo) (id : Str) → has_name (ids_of (active_rows rs)) id ≡ is_active id rs
unfolding active_rows
active_rows-has_name [] id = refl
active_rows-has_name (r ∷ rs) id = ground (arith, active_rows-has_name rs id)

ids_of-is_empty : (rs : List Repo) → is_empty (ids_of rs) ≡ (length rs == 0)
ids_of-is_empty [] = refl
ids_of-is_empty (r ∷ rs) = ground arith

none_named : (ids : List Str) (id : Str) → is_empty ids ≡ true → has_name ids id ≡ false
none_named [] id h = refl
none_named (i ∷ ids) id h = ground arith

-- A request that names no repository reaches a registered repository exactly if it is active; a
-- request that names some reaches exactly those.
pub retrieval_scope_lem :
    (rs : List Repo) (requested : List Str) (id : Str)
    → any (is_repo id) rs ≡ true
    → in_scope (retrieval_scope rs requested) id
      ≡ (if is_empty requested then is_active id rs else has_name requested id)
unfolding retrieval_scope
retrieval_scope_lem rs (i ∷ ids) id h = refl
retrieval_scope_lem rs [] id h = elim (Bool-cases (length (active_rows rs) == length rs)) [
  | inl e ↦ ground (arith, all_active rs id)
  | inr e ↦
      let named = active_rows-has_name rs id in
      ground
        (arith, named, ids_of-is_empty (active_rows rs), none_named (ids_of (active_rows rs)) id)
]
