-- ===== src/RepoStore/Claims.antt =====
-- The claim on a repository in internal/store/sqlite/repos.go.

-- where the row of an id is, and what stands there after an update that keeps ids
use ragota.Base.{
  Bool, Bool-cases, List, [], arith, false, if◌then◌else◌, inl, inr, leb, none, refl, some, true, ℕ,
  ◌+◌, ◌==◌, ◌∷◌, ◌≡◌,
}
use ragota.Base.Int.{ℤ}
use ragota.Base.Text.{Str}
use ragota.RepoStore.{
  Repo, claim_repo, count_repos, get_repo, is_repo, may_claim, take_claim, ttl_of, update_repos,
}

pub get_repo-update :
    (p : Repo → Bool) (f : Repo → Repo) (rs : List Repo) (id : Str)
    → ((r : Repo) → (f r).repo ≡ r.repo)
    → get_repo (update_repos p f rs) id
      ≡ elim (get_repo rs id) [ none ↦ none | some r ↦ some (if p r then f r else r) ]
unfolding get_repo update_repos
get_repo-update p f [] id h = refl
get_repo-update p f (r ∷ rs) id h = elim (Bool-cases (p r)) [
  | inl e ↦ elim (Bool-cases (is_repo id r)) [
    | inl e' ↦ simp (e, h r, e') refl
    | inr e' ↦ simp (e, h r, e') (get_repo-update p f rs id h)
  ]
  | inr e ↦ elim (Bool-cases (is_repo id r)) [
    | inl e' ↦ rw (e, e') (rw e refl)
    | inr e' ↦ rw (e, e') (get_repo-update p f rs id h)
  ]
]

no_row :
    (rs : List Repo) (id owner : Str) (now now' until : ℕ)
    → count_repos (is_repo id) rs ≡ 0
    → count_repos (may_claim id now') (update_repos (may_claim id now) (take_claim owner until) rs)
      ≡ 0
unfolding count_repos update_repos
no_row [] id owner now now' until h = refl
no_row (r ∷ rs) id owner now now' until h =
    ground (arith, no_row rs id owner now now' until (ground arith))

count-claim :
    (rs : List Repo) (id owner : Str) (now until : ℕ)
    → count_repos (is_repo id) (update_repos (may_claim id now) (take_claim owner until) rs)
      ≡ count_repos (is_repo id) rs
unfolding count_repos update_repos
count-claim [] id owner now until = refl
count-claim (r ∷ rs) id owner now until = ground (arith, count-claim rs id owner now until)

no_claims :
    (rs : List Repo) (id : Str) (now : ℕ)
    → count_repos (is_repo id) rs ≡ 0
    → count_repos (may_claim id now) rs ≡ 0
unfolding count_repos
no_claims [] id now h = refl
no_claims (r ∷ rs) id now h = ground (arith, no_claims rs id now)

reclaims :
    (rs : List Repo) (id owner : Str) (now now' until : ℕ)
    → count_repos (is_repo id) rs ≡ 1
    → (count_repos (may_claim id now) rs == 0) ≡ false
    → count_repos (may_claim id now') (update_repos (may_claim id now) (take_claim owner until) rs)
      ≡ (if leb until now' then 1 else 0)
unfolding count_repos update_repos
reclaims [] id owner now now' until h k = ground arith
reclaims (r ∷ rs) id owner now now' until h k = elim (Bool-cases (is_repo id r)) [
  | inl e ↦
      let none_left : count_repos (is_repo id) rs ≡ 0 = ground arith in
      let quiet = no_claims rs id now none_left in
      ground (arith, no_row rs id owner now now' until none_left, quiet)
  | inr e ↦ ground (arith, reclaims rs id owner now now' until)
]

-- After a claim that succeeds on a registered repository, a further claim, by whatever owner,
-- succeeds exactly from the moment on when the first has run out.
pub claim_repo_lem :
    (rs : List Repo) (id owner owner' : Str) (now now' : ℕ) (ttl ttl' : ℤ)
    → count_repos (is_repo id) rs ≡ 1
    → (claim_repo rs now id owner ttl).1 ≡ some true
    → (claim_repo (claim_repo rs now id owner ttl).0 now' id owner' ttl').1
      ≡ some (leb (now + ttl_of ttl) now')
unfolding claim_repo
claim_repo_lem rs id owner owner' now now' ttl ttl' h k =
    elim (Bool-cases (count_repos (may_claim id now) rs == 0)) [
      | inl e ↦ ground arith
      | inr e ↦
          let again = reclaims rs id owner now now' (now + ttl_of ttl) h e in
          let same = count-claim rs id owner now (now + ttl_of ttl) in ground (arith, again, same)
    ]

-- the row of an id after an update of that row that keeps the id
pub get_repo-set :
    (f : Repo → Repo) (rs : List Repo) (id : Str)
    → ((r : Repo) → (f r).repo ≡ r.repo)
    → get_repo (update_repos (is_repo id) f rs) id
      ≡ elim (get_repo rs id) [ none ↦ none | some r ↦ some (f r) ]
unfolding get_repo update_repos
get_repo-set f [] id h = refl
get_repo-set f (r ∷ rs) id h = elim (Bool-cases (is_repo id r)) [
  | inl e ↦ simp (e, h r) refl
  | inr e ↦ rw e (rw e (get_repo-set f rs id h))
]
