-- ===== src/Gitignore/Refinement.antt =====
-- The caches of pkg/gitignore/gitignore.go against Gitignore/Spec.

use ragota.Base.{
  All, Bool, Bool-cases, List, Option-cases, [], ap, arith, false, if◌then◌else◌, inl, inr, none,
  not, refl, some, sym, true, ◌&&◌, ◌==◌, ◌||◌, ◌↔◌, ◌∙◌, ◌∷◌, ◌≡◌,
}
use ragota.Base.Text.{Str, join, str_eq_iff, trim}
use ragota.Gitignore.Check.{
  RepoPath, Rules, World, dir_excluded, ignored, ignored_at, info_exclude, is_tracked, load_tracked,
  lookup, match_from, match_in, match_rel, member, new_rules, outside, parsed, parts, path_eq,
  patterns_for, track_names, verdict,
}
use ragota.Gitignore.Spec.{excludes, in_index, is_excluded, is_ignored, is_matched, verdict_from}

pub path_eq_iff : (p q : RepoPath) → (path_eq p q ≡ true) ↔ (p ≡ q)
unfolding path_eq
path_eq_iff [] [] = ground arith
path_eq_iff [] (b ∷ q) = ground arith
path_eq_iff (a ∷ p) [] = ground arith
path_eq_iff (a ∷ p) (b ∷ q) = ground (arith, path_eq_iff p q, str_eq_iff a b)

-- every entry of an association list is the function's value
abbrev pub Agrees {ℓ} : {A : Type ℓ} → (RepoPath → A) → List (RepoPath × A) → Type ℓ
Agrees f m = All (λ e. e.1 ≡ f e.0) m

lookup-Agrees {ℓ} :
    {A : Type ℓ} (f : RepoPath → A) (m : List (RepoPath × A)) (k : RepoPath) (a : A)
    → Agrees f m
    → lookup k m ≡ some a
    → a ≡ f k
unfolding lookup
lookup-Agrees f [] k a h e = ground arith
lookup-Agrees f ((k', b) ∷ m) k a h e = elim (Bool-cases (path_eq k' k)) [
  | inl t ↦ ground (arith, (path_eq_iff k' k).0 t, h.0)
  | inr t ↦ lookup-Agrees f m k a h.1 (ground arith)
]

-- the caches agree with the file system and the index
pub record IsSound (w : World) (r : Rules) : Type 0 where
  pub dirs_agree : Agrees (λ d. parsed w (w.ignore_file d)) r.dirs
  pub verdicts_agree : Agrees (is_excluded w) r.verdicts
  pub exclude_agrees : r.exclude_loaded ≡ true → r.exclude ≡ parsed w w.exclude_file
  pub tracked_agrees :
      r.tracked_loaded ≡ true
      → (p : RepoPath) → elim r.tracked [ none ↦ false | some t ↦ member p t ] ≡ in_index w p
  pub untracked : r.tracked_loaded ≡ false → r.tracked ≡ none

-- a step that keeps the caches sound and gives this value
abbrev pub Gives {ℓ} : {A : Type ℓ} → World → Rules × A → A → Type ℓ
Gives w s a = IsSound w s.0 × (s.1 ≡ a)

patterns_for-Gives :
    (w : World) (r : Rules) (d : RepoPath)
    → IsSound w r
    → Gives w (patterns_for w r d) (parsed w (w.ignore_file d))
unfolding patterns_for
patterns_for-Gives w r d h = elim (Option-cases (lookup d r.dirs)) [
  | inl e ↦
      rw (e, patterns_for)
        (
          record {
            dirs_agree = (refl, h.dirs_agree);
            verdicts_agree = h.verdicts_agree;
            exclude_agrees = h.exclude_agrees;
            tracked_agrees = h.tracked_agrees;
            untracked = h.untracked;
          },
          refl,
        )
  | inr (ps, e) ↦
      rw (e, patterns_for)
        (h, lookup-Agrees (λ d. parsed w (w.ignore_file d)) r.dirs d ps h.dirs_agree e)
]

info_exclude-Gives :
    (w : World) (r : Rules) → IsSound w r → Gives w (info_exclude w r) (parsed w w.exclude_file)
unfolding info_exclude
info_exclude-Gives w r h =
    let e : (if r.exclude_loaded then r.exclude else parsed w w.exclude_file)
        ≡ parsed w w.exclude_file =
      elim (Bool-cases r.exclude_loaded) [
        | inl t ↦ rw t (h.exclude_agrees t)
        | inr t ↦ rw t refl
      ] in
    (
      record {
        dirs_agree = h.dirs_agree;
        verdicts_agree = h.verdicts_agree;
        exclude_agrees = λ t. e;
        tracked_agrees = h.tracked_agrees;
        untracked = h.untracked;
      },
      e,
    )

match_from-Gives :
    (w : World) (r : Rules) (dir : RepoPath) (below : List Str) (is_dir : Bool)
    → IsSound w r
    → Gives w (match_from w r dir below is_dir) (verdict_from w dir below is_dir)
unfolding match_from verdict_from
match_from-Gives w r [] below is_dir h =
    let (h1, e1) = patterns_for-Gives w r [] h in
    let (h2, e2) = info_exclude-Gives w (patterns_for w r []).0 h1 in
    rw (e1, match_from)
      (elim (Option-cases
        (match_in w.glob_match (parsed w (w.ignore_file [])) (join b'/' below) is_dir)) [
          | inl e ↦
              rw (e, verdict_from)
                (h2, ap (λ es. verdict (match_in w.glob_match es (join b'/' below) is_dir)) e2)
          | inr (v, e) ↦ rw (e, verdict_from) (h1, refl)
        ])
match_from-Gives w r (s ∷ dir) below is_dir h =
    let (h1, e1) = patterns_for-Gives w r (s ∷ dir) h in
    let rest = match_from-Gives w (patterns_for w r (s ∷ dir)).0 dir (s ∷ below) is_dir h1 in
    rw (e1, match_from)
      (elim (Option-cases
        (match_in w.glob_match (parsed w (w.ignore_file (s ∷ dir))) (join b'/' below) is_dir)) [
          | inl e ↦ rw (e, verdict_from) rest
          | inr (v, e) ↦ rw (e, verdict_from) (h1, refl)
        ])

match_rel-Gives :
    (w : World) (r : Rules) (p : RepoPath) (is_dir : Bool)
    → IsSound w r
    → Gives w (match_rel w r p is_dir) (is_matched w p is_dir)
unfolding match_rel is_matched
match_rel-Gives w r [] is_dir h = (h, refl)
match_rel-Gives w r (s ∷ dir) is_dir h = match_from-Gives w r dir (s ∷ []) is_dir h

-- a verdict that is stored where the directory is excluded
stores :
    (w : World) (r : Rules) (p : RepoPath) (v : Bool)
    → IsSound w r
    → v ≡ is_excluded w p
    → IsSound w (record r { verdicts = (p, v) ∷ r.verdicts })
stores w r p v h e = record {
  dirs_agree = h.dirs_agree;
  verdicts_agree = (e, h.verdicts_agree);
  exclude_agrees = h.exclude_agrees;
  tracked_agrees = h.tracked_agrees;
  untracked = h.untracked;
}

-- the rules' verdict below a directory whose verdict is known
match_below-Gives :
    (w : World) (r : Rules) (p : RepoPath) (is_dir above : Bool)
    → IsSound w r
    → Gives w (if above then (r, true) else match_rel w r p is_dir) (above || is_matched w p is_dir)
match_below-Gives w r p is_dir true h = (h, refl)
match_below-Gives w r p is_dir false h = match_rel-Gives w r p is_dir h

dir_excluded-Gives :
    (w : World) (r : Rules) (p : RepoPath)
    → IsSound w r
    → Gives w (dir_excluded w r p) (is_excluded w p)
unfolding dir_excluded is_excluded
dir_excluded-Gives w r [] h = (h, refl)
dir_excluded-Gives w r (s ∷ dir) h =
    let (h1, e1) = dir_excluded-Gives w r dir h in
    let (h2, e2) =
      match_below-Gives w (dir_excluded w r dir).0 (s ∷ dir) true (dir_excluded w r dir).1 h1 in
    let e3 = e2 ∙ ap (λ b. b || is_matched w (s ∷ dir) true) e1 in
    elim (Option-cases (lookup (s ∷ dir) r.verdicts)) [
      | inl e ↦ rw (e, dir_excluded) (stores w _ (s ∷ dir) _ h2 e3, e3)
      | inr (v, e) ↦
          rw (e, dir_excluded)
            (h, lookup-Agrees (is_excluded w) r.verdicts (s ∷ dir) v h.verdicts_agree e)
    ]

not_listed : (w : World) (p : RepoPath) → w.index_names ≡ none → in_index w p ≡ false
unfolding in_index
not_listed w p e = rw e refl

listed :
    (w : World) (p : RepoPath) (names : List Str)
    → w.index_names ≡ some names
    → in_index w p ≡ member p (track_names names [])
unfolding in_index
listed w p names e = rw e refl

pick {ℓ κ} :
    {A : Type ℓ} (P : A → Type κ) (b : Bool) (x y : A)
    → (b ≡ true → P x)
    → (b ≡ false → P y)
    → P (if b then x else y)
pick P true x y hx hy = hx refl
pick P false x y hx hy = hy refl

load_tracked-IsSound :
    (w : World) (r : Rules)
    → IsSound w r
    → IsSound w (load_tracked w r) × ((load_tracked w r).tracked_loaded ≡ true)
unfolding load_tracked
load_tracked-IsSound w r h =
    pick (λ r1. IsSound w r1 × (r1.tracked_loaded ≡ true)) r.tracked_loaded _ _ (λ t. (h, t))
      (λ t. elim (Option-cases w.index_names) [
        | inl e ↦ simp e (
          record {
            dirs_agree = h.dirs_agree;
            verdicts_agree = h.verdicts_agree;
            exclude_agrees = h.exclude_agrees;
            tracked_agrees = λ _ p. rw (h.untracked t) (sym (not_listed w p e));
            untracked = λ x. h.untracked t;
          },
          refl,
        )
        | inr (names, e) ↦ simp e (
          record {
            dirs_agree = h.dirs_agree;
            verdicts_agree = h.verdicts_agree;
            exclude_agrees = h.exclude_agrees;
            tracked_agrees = λ _ p. sym (listed w p names e);
            untracked = λ x. ground arith;
          },
          refl,
        )
      ])

is_tracked-Gives :
    (w : World) (r : Rules) (p : RepoPath) → IsSound w r → Gives w (is_tracked w r p) (in_index w p)
unfolding is_tracked
is_tracked-Gives w r p h = let (h1, e1) = load_tracked-IsSound w r h in (h1, h1.tracked_agrees e1 p)

rescue-Gives :
    (w : World) (s t : Rules × Bool) (hit kept_by_git : Bool)
    → Gives w s hit
    → Gives w t kept_by_git
    → Gives w (if s.1 then (t.0, not t.1) else (s.0, false)) (hit && not kept_by_git)
rescue-Gives w s t true k h h' = rw h.1 (h'.0, ap not h'.1)
rescue-Gives w s t false k h h' = rw h.1 (h.0, refl)

-- From caches that agree with the file system and the index, the steps of `Ignored` give the
-- verdict that the file system and the index determine, and leave caches that agree.
ignored_at-Gives :
    (w : World) (r : Rules) (p : RepoPath) (is_dir : Bool)
    → IsSound w r
    → Gives w (ignored_at w r p is_dir) (is_ignored w p is_dir)
unfolding ignored_at is_ignored
ignored_at-Gives w r [] is_dir h = (h, refl)
ignored_at-Gives w r (s ∷ dir) is_dir h =
    let (h1, e1) = dir_excluded-Gives w r dir h in
    let hit =
      match_below-Gives w (dir_excluded w r dir).0 (s ∷ dir) is_dir (dir_excluded w r dir).1 h1 in
    let (h3, e3) = rescue-Gives w _ _ _ _ hit (is_tracked-Gives w _ (s ∷ dir) hit.0) in
    (h3, e3 ∙ ap (λ b. (b || is_matched w (s ∷ dir) is_dir) && not (in_index w (s ∷ dir))) e1)

branch-Gives :
    (w : World) (c : Bool) (s t : Rules × Bool) (a b : Bool)
    → Gives w s a
    → Gives w t b
    → Gives w (if c then s else t) (if c then a else b)
branch-Gives w true s t a b h h' = h
branch-Gives w false s t a b h h' = h'

-- From caches that agree with the file system and the index, `Ignored` gives the verdict that
-- these determine, and leaves caches that agree.
pub ignored-Gives :
    (w : World) (r : Rules) (raw : Str) (is_dir : Bool)
    → IsSound w r
    → Gives w (ignored w r raw is_dir) (excludes w raw is_dir)
unfolding ignored excludes
ignored-Gives w r raw is_dir h =
    branch-Gives w (outside (trim (λ c. c == b'/') raw)) _ _ _ _ (h, refl)
      (ignored_at-Gives w r (parts (trim (λ c. c == b'/') raw)) is_dir h)

new_rules-IsSound : (w : World) → IsSound w new_rules
new_rules-IsSound w = record {
  dirs_agree = tt;
  verdicts_agree = tt;
  exclude_agrees = λ t. ground arith;
  tracked_agrees = λ t p. ground arith;
  untracked = λ t. refl;
}

-- the rules after a list of queries
unfoldable pub ask : World → Rules → List (Str × Bool) → Rules
ask w r [] = r
ask w r (q ∷ qs) = ask w (ignored w r q.0 q.1).0 qs

ask-IsSound :
    (w : World) (r : Rules) (qs : List (Str × Bool)) → IsSound w r → IsSound w (ask w r qs)
unfolding ask
ask-IsSound w r [] h = h
ask-IsSound w r (q ∷ qs) h =
    ask-IsSound w (ignored w r q.0 q.1).0 qs (ignored-Gives w r q.0 q.1 h).0

-- After any queries on new rules, `Ignored` gives the verdict that the file system and the index
-- determine, whatever was asked before: the caches change no verdict.
pub ignored-ask :
    (w : World) (qs : List (Str × Bool)) (raw : Str) (is_dir : Bool)
    → (ignored w (ask w new_rules qs) raw is_dir).1 ≡ excludes w raw is_dir
ignored-ask w qs raw is_dir =
    (ignored-Gives w (ask w new_rules qs) raw is_dir
      (ask-IsSound w new_rules qs (new_rules-IsSound w))).1
