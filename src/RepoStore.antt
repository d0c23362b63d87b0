-- ===== src/RepoStore.antt =====
-- internal/store/sqlite/repos.go: the rows of `repos` and the claim on a repository. The table is
-- the list of its rows; `now` is `time.Now().Unix()`. A repository that is read has its row.
pub mod Claims
pub mod Register
pub mod Active
mod Tests
use ragota.Base.{
  Bool, List, Option, [], false, if◌then◌else◌, leb, none, not, some, suc, true, ℕ, ◌&&◌, ◌+◌, ◌==◌,
  ◌||◌, ◌∷◌,
}
use ragota.Base.Int.{negsuc, pos, ℤ}
use ragota.Base.Text.{Str, codes, str_eq}

pub data RepoStatus : Type 0 where
  idle indexing failed : RepoStatus

-- the columns of a row
pub record Repo : Type 0 where
  pub repo : Str  -- the column `id`
  pub repo_name : Str
  pub source : Str
  pub url : Str
  pub path : Str
  pub branch : Str
  pub created_at : ℕ
  pub indexed_at : ℕ
  pub state : RepoStatus  -- the column `status`
  pub last_error : Str
  pub last_commit : Str
  pub pending_commit : Str
  pub active : Bool
  pub claimer : Str  -- the column `claimed_by`
  pub claim_expires_at : ℕ

abbrev pub is_indexing : Repo → Bool
is_indexing r = elim r.state [ indexing ↦ true | _ ↦ false ]

abbrev pub is_repo : Str → Repo → Bool
is_repo id r = str_eq r.repo id

-- `UPDATE repos SET f WHERE p`
unfoldable pub update_repos : (Repo → Bool) → (Repo → Repo) → List Repo → List Repo
update_repos p f [] = []
update_repos p f (r ∷ rs) = (if p r then f r else r) ∷ update_repos p f rs

unfoldable pub count_repos : (Repo → Bool) → List Repo → ℕ
count_repos p [] = 0
count_repos p (r ∷ rs) = let rest = count_repos p rs in if p r then suc rest else rest

-- `GetRepo`
unfoldable pub get_repo : List Repo → Str → Option Repo
get_repo [] id = none
get_repo (r ∷ rs) id = if is_repo id r then some r else get_repo rs id

abbrev pub default_claim_ttl : ℕ
default_claim_ttl = 3600

abbrev pub ttl_of : ℤ → ℕ
ttl_of (pos n) = if n == 0 then default_claim_ttl else n
ttl_of (negsuc n) = default_claim_ttl

-- the rows that `claimRepoForIndexing` selects
abbrev pub may_claim : Str → ℕ → Repo → Bool
may_claim id now r = is_repo id r && (not (is_indexing r) || leb r.claim_expires_at now)

abbrev pub take_claim : Str → ℕ → Repo → Repo
take_claim owner until r = record r {
  state = indexing;
  last_error = [];
  claimer = owner;
  claim_expires_at = until;
}

-- `ClaimRepoForIndexing`; none is `ErrNotFound`
unfoldable pub claim_repo : List Repo → ℕ → Str → Str → ℤ → List Repo × Option Bool
unfolding update_repos count_repos
claim_repo rs now id owner ttl = (
  update_repos (may_claim id now) (take_claim owner (now + ttl_of ttl)) rs,
  (if not (count_repos (may_claim id now) rs == 0)
      then some true
      else if count_repos (is_repo id) rs == 0
      then none
      else some false),
)

abbrev pub reset_message : Str
reset_message = codes "indexing interrupted; reset at startup"

abbrev pub reset_row : Repo → Repo
reset_row r = record r {
  state = idle;
  claimer = [];
  claim_expires_at = 0;
  pending_commit = [];
  last_error = reset_message;
}

abbrev pub is_stuck : Bool → ℕ → Repo → Bool
is_stuck force now r = is_indexing r && (force || leb r.claim_expires_at now)

-- `ResetStuckRepos`, with the number of rows reset
unfoldable pub reset_stuck : List Repo → ℕ → Bool → List Repo × ℕ
unfolding update_repos count_repos
reset_stuck rs now force =
    (update_repos (is_stuck force now) reset_row rs, count_repos (is_stuck force now) rs)

-- `UPDATE repos SET f WHERE id = ?`, false where no row has the id
abbrev set_row : List Repo → Str → (Repo → Repo) → List Repo × Bool
unfolding update_repos count_repos
set_row rs id f = (update_repos (is_repo id) f rs, not (count_repos (is_repo id) rs == 0))

-- `SetRepoPendingCommit`
unfoldable pub set_pending_commit : List Repo → Str → Str → List Repo × Bool
unfolding update_repos count_repos set_row
set_pending_commit rs id sha = set_row rs id (λ r. record r { pending_commit = sha })

-- `UpdateRepoLastCommit`
unfoldable pub update_last_commit : List Repo → Str → Str → List Repo × Bool
unfolding update_repos count_repos set_row
update_last_commit rs id sha = set_row rs id (λ r. record r { last_commit = sha })

-- `UpdateRepoStatus`
unfoldable pub update_status : List Repo → Str → RepoStatus → Str → ℕ → List Repo × Bool
unfolding update_repos count_repos set_row
update_status rs id state message at = set_row rs id (λ r. record r {
  state = state;
  last_error = message;
  indexed_at = at;
  claimer = [];
  claim_expires_at = 0;
  pending_commit = [];
})
