-- ===== src/Commits/Paths.antt =====
-- `validateCommitPath` of internal/app/commits.go: the paths that stay inside the repository.

use ragota.Base.{
  Bool, Bool-cases, List, [], all, arith, false, if◌then◌else◌, inl, inr, length, none, not, refl,
  suc, true, zero, ℕ, ◌&&◌, ◌||◌, ◌↔◌, ◌∷◌, ◌≡◌,
}
use ragota.Base.Text.{Str, codes, has_prefix, split, str_eq}
use ragota.Commits.Batch.{clean_part, clean_parts, escapes, last_is_up, validate_commit_path}

abbrev is_up : Str → Bool
unfolding str_eq
is_up s = str_eq s (codes "..")

abbrev is_here : Str → Bool
unfolding str_eq
is_here s = str_eq s [] || str_eq s (codes ".")

-- A walk along the parts from a directory `depth` levels below the root never leaves the root.
unfoldable pub stays : ℕ → List Str → Bool
unfolding str_eq is_up is_here
stays depth [] = true
stays depth (s ∷ ss) =
    if is_here s
    then stays depth ss
    else if not (is_up s)
    then stays (suc depth) ss
    else elim depth [ zero ↦ false | suc d ↦ stays d ss ]

abbrev no_ups : List Str → Bool
unfolding is_up str_eq
no_ups = all (λ s. not (is_up s))

clean_part-up :
    (stack : List Str) (s : Str) → last_is_up stack ≡ true → last_is_up (clean_part stack s) ≡ true
unfolding clean_part last_is_up
clean_part-up [] s h = ground arith
clean_part-up (t ∷ []) s h = ground arith
clean_part-up (t ∷ t' ∷ ts) s h = ground arith

clean_parts-up :
    (stack ss : List Str) → last_is_up stack ≡ true → last_is_up (clean_parts stack ss) ≡ true
unfolding clean_parts
clean_parts-up stack [] h = h
clean_parts-up stack (s ∷ ss) h = clean_parts-up (clean_part stack s) ss (clean_part-up stack s h)

no_ups-last : (stack : List Str) → no_ups stack ≡ true → last_is_up stack ≡ false
unfolding no_ups last_is_up is_up
no_ups-last [] h = refl
no_ups-last (s ∷ []) h = ground arith
no_ups-last (s ∷ t ∷ ss) h = no_ups-last (t ∷ ss) (ground arith)

clean_parts-stays :
    (stack ss : List Str)
    → no_ups stack ≡ true
    → last_is_up (clean_parts stack ss) ≡ not (stays (length stack) ss)
unfolding clean_parts clean_part stays no_ups is_up is_here last_is_up
clean_parts-stays stack [] h = ground (arith, no_ups-last stack h)
clean_parts-stays [] (s ∷ ss) h = elim (Bool-cases (is_here s)) [
  | inl e ↦ rw e (clean_parts-stays [] ss refl)
  | inr e ↦ elim (Bool-cases (is_up s)) [
    | inl e' ↦ rw (e, e') (clean_parts-up (s ∷ []) ss e')
    | inr e' ↦ rw (e, e') (clean_parts-stays (s ∷ []) ss (ground arith))
  ]
]
clean_parts-stays (t ∷ ts) (s ∷ ss) h = elim (Bool-cases (is_here s)) [
  | inl e ↦ rw e (clean_parts-stays (t ∷ ts) ss h)
  | inr e ↦ elim (Bool-cases (is_up s)) [
    | inl e' ↦
        let plain : is_up t ≡ false = ground arith in
        rw (e, e', plain) (clean_parts-stays ts ss (ground arith))
    | inr e' ↦ rw (e, e') (clean_parts-stays (s ∷ t ∷ ts) ss (ground arith))
  ]
]

-- A pushed path is accepted exactly if it is not empty, does not begin with a slash or a
-- backslash, and a walk along its parts from the repository's root never leaves the root.
pub validate_commit_path_lem :
    (path : Str)
    → (validate_commit_path path ≡ none) ↔ (
        (not (str_eq path [])
          && not (has_prefix path (b'/' ∷ []))
          && not (has_prefix path (92 ∷ []))
          && stays 0 (split b'/' path))
        ≡ true)
unfolding validate_commit_path escapes
validate_commit_path_lem path =
    let h = clean_parts-stays [] (split b'/' path) refl in ground (arith, h)
