-- ===== src/Commits/Accept.antt =====
-- Which batches `ApplyCommits` of internal/app/commits.go takes on.

use mathlib.Core.List.{Memᴰ}
use ragota.Base.{
  Bool, Bool-cases, List, Option-cases, [], all, ap, arith, false, inl, inr, none, not, refl, some,
  sym, true, ℕ, ◌&&◌, ◌+◌, ◌==◌, ◌||◌, ◌∷◌, ◌≡◌, ◌≢◌, ◌⊎◌,
}
use ragota.Base.Text.{Str, has_prefix, split, str_eq, str_eq_iff}
use ragota.Commits.Batch.{
  Answer, Db, answered, apply_commits, continues, first_parents, follows_pending, has_parent,
  queue_batch, refused, start_batch, validate_batch, validate_commit_path, validate_files,
}
use ragota.Commits.Paths.{stays, validate_commit_path_lem}
use ragota.Commits.Plan.{CommitEvent, CommitFile}
use ragota.RepoStore.{
  Repo, claim_repo, count_repos, default_claim_ttl, get_repo, is_repo, may_claim, take_claim,
  update_repos,
}

abbrev pub accepted_of : Answer → Bool
accepted_of (refused e) = false
accepted_of (answered a) = a.accepted

update-count_0 :
    (p : Repo → Bool) (f : Repo → Repo) (rs : List Repo)
    → count_repos p rs ≡ 0
    → update_repos p f rs ≡ rs
unfolding update_repos count_repos
update-count_0 p f [] h = refl
update-count_0 p f (r ∷ rs) h = elim (Bool-cases (p r)) [
  | inl e ↦ ground arith
  | inr e ↦ rw e (ap (◌∷◌ r) (update-count_0 p f rs (ground arith)))
]

start_batch-refused :
    (d : Db) (now : ℕ) (owner : Str) (r : Repo) (batch : List CommitEvent)
    → accepted_of (start_batch d now owner r batch).1 ≡ false
    → (start_batch d now owner r batch).0 ≡ d
unfolding start_batch claim_repo
start_batch-refused d now owner r batch h =
    elim (Bool-cases (count_repos (may_claim r.repo now) d.repos == 0)) [
      | inl e ↦
          let same =
            update-count_0 (may_claim r.repo now) (take_claim owner (now + default_claim_ttl))
              d.repos (ground arith) in
          elim (Bool-cases (count_repos (is_repo r.repo) d.repos == 0)) [
            | inl e' ↦ rw (e, e', start_batch) (ap (λ rs. record d { repos = rs }) same)
            | inr e' ↦ rw (e, e', start_batch) (ap (λ rs. record d { repos = rs }) same)
          ]
      | inr e ↦ ground arith
    ]

-- A batch that is not accepted, whether refused or answered with a gap, changes nothing in the
-- database: no job is queued, no claim taken, no pending commit written.
pub apply_commits-refused :
    (encode : List CommitEvent → Str) (distributed : Bool) (d : Db) (now : ℕ) (owner id : Str)
    (batch : List CommitEvent)
    → accepted_of (apply_commits encode distributed d now owner id batch).1 ≡ false
    → (apply_commits encode distributed d now owner id batch).0 ≡ d
unfolding apply_commits queue_batch
apply_commits-refused encode distributed d now owner id [] h = refl
apply_commits-refused encode distributed d now owner id (c ∷ cs) h =
    elim (Option-cases (validate_batch (c ∷ cs))) [
      | inr (e, v) ↦ rw (v, apply_commits) refl
      | inl v ↦ elim (Option-cases (get_repo d.repos id)) [
        | inl g ↦ rw (v, g, apply_commits) refl
        | inr (r, g) ↦ elim (Bool-cases (continues r (c ∷ cs))) [
          | inr k ↦ elim (Bool-cases (follows_pending r (c ∷ cs))) [
            | inl f ↦ rw (v, g, k, f, apply_commits) refl
            | inr f ↦ rw (v, g, k, f, apply_commits) refl
          ]
          | inl k ↦ elim (Bool-cases distributed) [
            | inl t ↦ ground arith
            | inr t ↦
                let still : accepted_of (start_batch d now owner r (c ∷ cs)).1 ≡ false =
                  rw (v, g, k, t, apply_commits) at h in
                rw (v, g, k, t, apply_commits) (start_batch-refused d now owner r (c ∷ cs) still)
          ]
        ]
      ]
    ]

-- what a pushed path has to be: not empty, not absolute, and a walk along its parts from the
-- repository's root never leaves the root
abbrev pub safe_path : Str → Bool
unfolding str_eq has_prefix stays split
safe_path path =
    not (str_eq path [])
    && not (has_prefix path (b'/' ∷ []))
    && not (has_prefix path (92 ∷ []))
    && stays 0 (split b'/' path)

-- the path of a file, and the path that it was moved from where there is one
abbrev pub safe_file : CommitFile → Bool
safe_file f = safe_path f.path && (str_eq f.old_path [] || safe_path f.old_path)

abbrev pub safe_commit : CommitEvent → Bool
safe_commit c = not (str_eq c.sha []) && all safe_file c.files

safe_path_of : (path : Str) → validate_commit_path path ≡ none → safe_path path ≡ true
unfolding safe_path str_eq
safe_path_of path h = (validate_commit_path_lem path).0 h

validate_files-safe : (fs : List CommitFile) → validate_files fs ≡ none → all safe_file fs ≡ true
unfolding validate_files
validate_files-safe [] h = refl
validate_files-safe (f ∷ fs) h = elim (Option-cases (validate_commit_path f.path)) [
  | inr (e, p) ↦ ground arith
  | inl p ↦
      let path_safe = safe_path_of f.path p in
      elim (Bool-cases (str_eq f.old_path [])) [
        | inl o ↦
            let passed : validate_files fs ≡ none = ground arith in
            let rest = validate_files-safe fs passed in ground arith
        | inr o ↦ elim (Option-cases (validate_commit_path f.old_path)) [
          | inr (e, p') ↦ ground arith
          | inl p' ↦
              let old_safe = safe_path_of f.old_path p' in
              let passed : validate_files fs ≡ none = ground arith in
              let rest = validate_files-safe fs passed in ground arith
        ]
      ]
]

validate_batch-safe : (cs : List CommitEvent) → validate_batch cs ≡ none → all safe_commit cs ≡ true
unfolding validate_batch
validate_batch-safe [] h = refl
validate_batch-safe (c ∷ cs) h = elim (Bool-cases (str_eq c.sha [])) [
  | inl s ↦ ground arith
  | inr s ↦ elim (Option-cases (validate_files c.files)) [
    | inr (e, f) ↦ ground arith
    | inl f ↦
        let files_safe = validate_files-safe c.files f in
        let rest = validate_batch-safe cs (rw (s, f, validate_batch) at h) in ground arith
  ]
]

Memᴰ-has_parent : (ps : List Str) (sha : Str) → has_parent ps sha ≡ true → Memᴰ sha ps
unfolding has_parent
Memᴰ-has_parent [] sha h = cc
Memᴰ-has_parent (p ∷ ps) sha h = elim (Bool-cases (str_eq p sha)) [
  | inl e ↦ Memᴰ.head (sym ((str_eq_iff p sha).0 e))
  | inr e ↦ Memᴰ.tail (Memᴰ-has_parent ps sha (ground arith))
]

-- the cursor of a repository that a batch can follow: none yet, or a parent of the first commit
abbrev pub Continued : Str → List CommitEvent → Type 0
Continued cursor batch = (cursor ≡ []) ⊎ Memᴰ cursor (first_parents batch)

continues-Continued :
    (r : Repo) (batch : List CommitEvent) → continues r batch ≡ true → Continued r.last_commit batch
unfolding continues
continues-Continued r batch h = elim (Bool-cases (str_eq r.last_commit [])) [
  | inl e ↦ inl ((str_eq_iff r.last_commit []).0 e)
  | inr e ↦ inr (Memᴰ-has_parent (first_parents batch) r.last_commit (ground arith))
]

-- A batch is accepted only if it has a commit, every commit of it has a hash, no path in it, nor a
-- path that a file was moved from, is empty, begins with a slash or a backslash, or leaves the
-- repository's root on a walk along its parts, the repository is registered, and its cursor is
-- empty or a parent of the first commit.
pub apply_commits-accepted :
    (encode : List CommitEvent → Str) (distributed : Bool) (d : Db) (now : ℕ) (owner id : Str)
    (batch : List CommitEvent)
    → accepted_of (apply_commits encode distributed d now owner id batch).1 ≡ true
    → (batch ≢ [])
      × (all safe_commit batch ≡ true)
      × (r : Repo) × (get_repo d.repos id ≡ some r)
      × Continued r.last_commit batch
unfolding apply_commits
apply_commits-accepted encode distributed d now owner id [] h = ground arith
apply_commits-accepted encode distributed d now owner id (c ∷ cs) h =
    elim (Option-cases (validate_batch (c ∷ cs))) [
      | inr (e, v) ↦ ground arith
      | inl v ↦ elim (Option-cases (get_repo d.repos id)) [
        | inl g ↦ ground arith
        | inr (r, g) ↦ elim (Bool-cases (continues r (c ∷ cs))) [
          | inr k ↦ ground arith
          | inl k ↦
              (λ x. cc, validate_batch-safe (c ∷ cs) v, r, g, continues-Continued r (c ∷ cs) k)
        ]
      ]
    ]
