-- ===== src/RepoStore/Register.antt =====
-- internal/store/sqlite/repos.go: registration, listings and the active set. A row is inserted
-- with the columns of the argument and the schema's defaults; rows of one `created_at` are listed
-- in the order of insertion.

-- the columns that an upsert writes over an existing row
use ragota.Base.{
  Bool, List, [], any, drop, false, if◌then◌else◌, leb, length, suc, take, true, zero, ℕ, ◌++◌,
  ◌==◌, ◌∷◌,
}
use ragota.Base.Text.{Str, str_eq}
use ragota.RepoStore.{Repo, count_repos, is_repo, update_repos}

abbrev pub redefine : Repo → Repo → Repo
redefine new old = record old {
  repo_name = new.repo_name;
  source = new.source;
  url = new.url;
  path = new.path;
  branch = new.branch;
}

abbrev pub first_row : Repo → Repo
first_row new = record new {
  pending_commit = [];
  active = true;
  claimer = [];
  claim_expires_at = 0;
}

-- `StoreRepo`
unfoldable pub store_repo : List Repo → Repo → List Repo
unfolding update_repos count_repos
store_repo rs new =
    if count_repos (is_repo new.repo) rs == 0
    then rs ++ first_row new ∷ []
    else update_repos (is_repo new.repo) (redefine new) rs

-- `DeleteRepo`
unfoldable pub delete_repo : List Repo → Str → List Repo
delete_repo [] id = []
delete_repo (r ∷ rs) id = let rest = delete_repo rs id in if is_repo id r then rest else r ∷ rest

-- `ORDER BY created_at`
unfoldable pub insert_by_age : Repo → List Repo → List Repo
insert_by_age r [] = r ∷ []
insert_by_age r (s ∷ rs) =
    if leb r.created_at s.created_at then r ∷ s ∷ rs else s ∷ insert_by_age r rs

-- `ListRepos`
unfoldable pub list_repos : List Repo → List Repo
unfolding insert_by_age
list_repos [] = []
list_repos (r ∷ rs) = insert_by_age r (list_repos rs)

unfoldable pub active_rows : List Repo → List Repo
active_rows [] = []
active_rows (r ∷ rs) = let rest = active_rows rs in if r.active then r ∷ rest else rest

-- `ListActiveRepos`
unfoldable pub list_active_repos : List Repo → List Repo
unfolding active_rows list_repos
list_active_repos rs = list_repos (active_rows rs)

abbrev pub path_chunk : ℕ
path_chunk = 400

-- `eachPathChunk`: the chunks of a list; its length is enough fuel
unfoldable pub chunks_on : ℕ → List Str → List (List Str)
chunks_on zero ids = []
chunks_on (suc fuel) [] = []
chunks_on (suc fuel) (i ∷ ids) =
    take path_chunk (i ∷ ids) ∷ chunks_on fuel (drop path_chunk (i ∷ ids))

unfoldable pub each_path_chunk : List Str → List (List Str)
unfolding chunks_on
each_path_chunk ids = chunks_on (length ids) ids

abbrev pub has_name : List Str → Str → Bool
has_name ids id = any (λ i. str_eq i id) ids

-- `UPDATE repos SET active = 1 WHERE id IN (…)` for each chunk
unfoldable pub raise_active : List (List Str) → List Repo → List Repo
unfolding update_repos
raise_active [] rs = rs
raise_active (c ∷ cs) rs =
    raise_active cs (update_repos (λ r. has_name c r.repo) (λ r. record r { active = true }) rs)

-- `SetActiveRepos`, one transaction
unfoldable pub set_active : List Repo → List Str → List Repo
unfolding update_repos raise_active each_path_chunk
set_active rs ids =
    raise_active (each_path_chunk ids)
      (update_repos (λ r. true) (λ r. record r { active = false }) rs)

abbrev pub ids_of : List Repo → List Str
ids_of [] = []
ids_of (r ∷ rs) = r.repo ∷ ids_of rs

abbrev pub is_empty : List Str → Bool
is_empty [] = true
is_empty (i ∷ ids) = false

-- `retrievalScope` of internal/app/active.go for the rows that `ListRepos` gives: the ids, and
-- whether nothing is in scope
unfoldable pub retrieval_scope : List Repo → List Str → List Str × Bool
unfolding active_rows
retrieval_scope repos (i ∷ ids) = (i ∷ ids, false)
retrieval_scope repos [] =
    let active = active_rows repos in
    if length active == length repos then ([], false) else (ids_of active, length active == 0)
