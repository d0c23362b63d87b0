-- ===== src/RepoStore/Tests.antt =====
-- The theorems on three repositories, one of them indexing.

use ragota.Base.{Bool, List, [], false, refl, some, true, ◌∷◌, ◌≡◌}
use ragota.Base.Int.{pos}
use ragota.Base.Text.{Str, codes, str_eq}
use ragota.RepoStore.{Repo, claim_repo, count_repos, idle}
use ragota.RepoStore.Active.{set_active_lem, with_active}
use ragota.RepoStore.Claims.{claim_repo_lem}
use ragota.RepoStore.Register.{has_name, set_active}

abbrev row : Str → Bool → Repo
row id active = record {
  repo = id;
  repo_name = id;
  source = codes "git";
  url = [];
  path = codes "/srv";
  branch = codes "main";
  created_at = 3;
  indexed_at = 7;
  state = idle;
  last_error = [];
  last_commit = [];
  pending_commit = [];
  active = active;
  claimer = [];
  claim_expires_at = 0;
}

abbrev three : List Repo
three = row (codes "a") true ∷ row (codes "b") false ∷ row (codes "c") true ∷ []

set_active_lem_example :
    set_active three (codes "b" ∷ []) ≡ with_active (has_name (codes "b" ∷ [])) three
set_active_lem_example = set_active_lem three (codes "b" ∷ [])

claim_repo_lem_example :
    (claim_repo
      (claim_repo three 10 (codes "a") (codes "me") (pos 60)).0
      50
      (codes "a")
      (codes "you")
      (pos 60)).1
    ≡ some false
unfolding count_repos claim_repo str_eq
claim_repo_lem_example =
    claim_repo_lem three (codes "a") (codes "me") (codes "you") 10 50 (pos 60) (pos 60) refl refl
