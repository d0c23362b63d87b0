-- ===== src/Gitignore/Tracked.antt =====
-- The rescue of tracked paths in pkg/gitignore/gitignore.go.
use mathlib.Core.Path.{subst}
use ragota.Base.{
  Bool, Bool-cases, List, [], any, ap, arith, drop, false, inl, inr, refl, some, suc, sym, true,
  zero, ℕ, ◌==◌, ◌||◌, ◌∙◌, ◌∷◌, ◌≡◌,
}
use ragota.Base.Text.{Str, str_eq, str_eq_iff, trim}
use ragota.Gitignore.Check.{
  RepoPath, World, add_name, add_parents, ignored, member, new_rules, outside, parts, path_eq,
  track_names,
}
use ragota.Gitignore.Refinement.{ask, ignored-ask, path_eq_iff}
use ragota.Gitignore.Spec.{excludes, in_index, is_ignored}

abbrev is_root : RepoPath → Bool
is_root [] = true
is_root (s ∷ p) = false

abbrev known : List RepoPath → RepoPath → Bool
unfolding member
known t p = is_root p || member p t

-- every directory above a path of the set is in it, where one directory may be missing
abbrev ClosedBut : RepoPath → List RepoPath → Type 0
unfolding path_eq member
ClosedBut dir t =
    (s : Str) (d : RepoPath) → member (s ∷ d) t ≡ true → (known t d || path_eq d dir) ≡ true

abbrev Closed : List RepoPath → Type 0
unfolding member
Closed t = (s : Str) (d : RepoPath) → member (s ∷ d) t ≡ true → known t d ≡ true

subst_member : (t : List RepoPath) (p q : RepoPath) → path_eq p q ≡ true → member p t ≡ member q t
subst_member t p q h = ap (λ x. member x t) ((path_eq_iff p q).0 h)

add_parents-Closed :
    (dir : RepoPath) (t : List RepoPath) → ClosedBut dir t → Closed (add_parents dir t)
unfolding add_parents member path_eq
add_parents-Closed [] t h = λ s d m.
    elim d as (λ d. (known t d || path_eq d []) ≡ true → known t d ≡ true) [
      | [] ↦ λ x. refl
      | a ∷ d' ↦ λ x. ground arith
    ]
      (h s d m)
add_parents-Closed (s ∷ dir) t h = elim (Bool-cases (member (s ∷ dir) t)) [
  | inl e ↦ rw e (λ a d m. ground (arith, h a d m, subst_member t d (s ∷ dir)))
  | inr e ↦ rw e (
      add_parents-Closed dir ((s ∷ dir) ∷ t) (λ a d m. elim (Bool-cases (member (a ∷ d) t)) [
        | inl e' ↦ ground (arith, h a d e')
        | inr e' ↦ ground arith
      ]))
]

add_parents-member :
    (dir : RepoPath) (t : List RepoPath) (p : RepoPath)
    → member p t ≡ true
    → member p (add_parents dir t) ≡ true
unfolding add_parents member
add_parents-member [] t p h = h
add_parents-member (s ∷ dir) t p h = elim (Bool-cases (member (s ∷ dir) t)) [
  | inl e ↦ rw e h
  | inr e ↦ rw e (add_parents-member dir ((s ∷ dir) ∷ t) p (ground arith))
]

path_eq_refl : (p : RepoPath) → path_eq p p ≡ true
path_eq_refl p = (path_eq_iff p p).1 refl

add_name-Closed : (p : RepoPath) (t : List RepoPath) → Closed t → Closed (add_name p t)
unfolding member path_eq add_name
add_name-Closed [] t h = h
add_name-Closed (s ∷ dir) t h = add_parents-Closed dir ((s ∷ dir) ∷ t) (λ a d m.
    elim (Bool-cases (member (a ∷ d) t)) [ inl e ↦ ground (arith, h a d e) | inr e ↦ ground arith ])

add_name-known : (p : RepoPath) (t : List RepoPath) → known (add_name p t) p ≡ true
unfolding member add_name
add_name-known [] t = refl
add_name-known (s ∷ dir) t =
    add_parents-member dir ((s ∷ dir) ∷ t) (s ∷ dir) (ground (arith, path_eq_refl (s ∷ dir)))

add_name-member :
    (q : RepoPath) (t : List RepoPath) (p : RepoPath)
    → member p t ≡ true
    → member p (add_name q t) ≡ true
unfolding member add_name
add_name-member [] t p h = h
add_name-member (s ∷ dir) t p h = add_parents-member dir ((s ∷ dir) ∷ t) p (ground arith)

track_names-Closed :
    (names : List Str) (t : List RepoPath) → Closed t → Closed (track_names names t)
unfolding track_names
track_names-Closed [] t h = h
track_names-Closed ([] ∷ names) t h = track_names-Closed names t h
track_names-Closed ((c ∷ base) ∷ names) t h =
    track_names-Closed names (add_name (parts (c ∷ base)) t)
      (add_name-Closed (parts (c ∷ base)) t h)

track_names-known :
    (names : List Str) (t : List RepoPath) (p : RepoPath)
    → known t p ≡ true
    → known (track_names names t) p ≡ true
unfolding track_names
track_names-known [] t p h = h
track_names-known ([] ∷ names) t p h = track_names-known names t p h
track_names-known ((c ∷ base) ∷ names) t [] h = refl
track_names-known ((c ∷ base) ∷ names) t (s ∷ p) h =
    track_names-known names (add_name (parts (c ∷ base)) t) (s ∷ p)
      (add_name-member (parts (c ∷ base)) t (s ∷ p) h)

track_names-listed :
    (names : List Str) (t : List RepoPath) (c : ℕ) (base : Str)
    → any (str_eq (c ∷ base)) names ≡ true
    → known (track_names names t) (parts (c ∷ base)) ≡ true
unfolding track_names str_eq
track_names-listed [] t c base h = ground arith
track_names-listed ([] ∷ names) t c base h = track_names-listed names t c base h
track_names-listed ((d ∷ base') ∷ names) t c base h =
    elim (Bool-cases (str_eq (c ∷ base) (d ∷ base'))) [
      | inl e ↦
          subst (λ n. known (track_names names (add_name (parts (d ∷ base')) t)) (parts n) ≡ true)
            (sym ((str_eq_iff (c ∷ base) (d ∷ base')).0 e))
            (track_names-known names (add_name (parts (d ∷ base')) t) (parts (d ∷ base'))
              (add_name-known (parts (d ∷ base')) t))
      | inr e ↦ track_names-listed names (add_name (parts (d ∷ base')) t) c base (ground arith)
    ]

drop-known :
    (t : List RepoPath) (k : ℕ) (p : RepoPath)
    → Closed t
    → known t p ≡ true
    → known t (drop k p) ≡ true
unfolding known
drop-known t zero p h e = e
drop-known t (suc k) [] h e = refl
drop-known t (suc k) (s ∷ p) h e = drop-known t k p h (h s p e)

known-is_ignored :
    (w : World) (names : List Str) (p : RepoPath) (is_dir : Bool)
    → w.index_names ≡ some names
    → known (track_names names []) p ≡ true
    → is_ignored w p is_dir ≡ false
unfolding is_ignored in_index
known-is_ignored w names [] is_dir e h = refl
known-is_ignored w names (s ∷ p) is_dir e h = rw (e, h) (ground arith)

tracked-is_ignored :
    (w : World) (names : List Str) (c : ℕ) (base : Str) (k : ℕ) (is_dir : Bool)
    → w.index_names ≡ some names
    → any (str_eq (c ∷ base)) names ≡ true
    → is_ignored w (drop k (parts (c ∷ base))) is_dir ≡ false
unfolding Closed member
tracked-is_ignored w names c base k is_dir e h =
    known-is_ignored w names (drop k (parts (c ∷ base))) is_dir e (
      drop-known (track_names names []) k (parts (c ∷ base))
        (track_names-Closed names [] (λ s d m. ground arith))
        (track_names-listed names [] c base h))

excludes_inside :
    (w : World) (raw : Str) (is_dir : Bool)
    → is_ignored w (parts (trim (λ b. b == b'/') raw)) is_dir ≡ false
    → excludes w raw is_dir ≡ false
unfolding excludes
excludes_inside w raw is_dir h = elim (Bool-cases (outside (trim (λ b. b == b'/') raw))) [
  | inl o ↦ rw (o, excludes) refl
  | inr o ↦ rw (o, excludes) h
]

-- A path that is a name in git's index, or a directory above one, is never ignored by `Ignored`,
-- whatever the patterns and whatever was asked before.
pub tracked-ignored :
    (w : World) (qs : List (Str × Bool)) (names : List Str) (c : ℕ) (base : Str) (k : ℕ) (raw : Str)
    (is_dir : Bool)
    → w.index_names ≡ some names
    → any (str_eq (c ∷ base)) names ≡ true
    → parts (trim (λ b. b == b'/') raw) ≡ drop k (parts (c ∷ base))
    → (ignored w (ask w new_rules qs) raw is_dir).1 ≡ false
tracked-ignored w qs names c base k raw is_dir e h at =
    ignored-ask w qs raw is_dir
    ∙ excludes_inside w raw is_dir (rw at (tracked-is_ignored w names c base k is_dir e h))
