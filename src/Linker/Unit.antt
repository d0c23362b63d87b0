-- ===== src/Linker/Unit.antt =====
-- internal/domain/unit.go, as far as the linker reads it, Go's order of strings, and a Go map from
-- strings to slices.
use mathlib.Core.Path.{subst}
use ragota.Base.{
  Bool, Bool-cases, List, [], arith, false, if◌then◌else◌, inl, inr, ltb, refl, sym, true, ℕ, ◌&&◌,
  ◌++◌, ◌==◌, ◌||◌, ◌∙◌, ◌∷◌, ◌≡◌,
}
use ragota.Base.Text.{Str, str_eq, str_eq_iff}

pub record AstUnit : Type 0 where
  pub unit_id : Str
  pub repo_id : Str
  pub file_path : Str
  pub unit_kind : Str
  pub unit_name : Str
  pub qualified : Str
  pub signature : Str
  pub start_line : ℕ
  pub end_line : ℕ
  pub start_byte : ℕ

-- `a < b` on strings
unfoldable pub str_ltb : Str → Str → Bool
str_ltb s [] = false
str_ltb [] (b ∷ t) = true
str_ltb (a ∷ s) (b ∷ t) = ltb a b || (a == b && str_ltb s t)

-- `m[key] = append(m[key], value)` and `m[key]`
unfoldable pub append_at {ℓ} : {A : Type ℓ} → Str → A → List (Str × List A) → List (Str × List A)
unfolding str_eq
append_at k a [] = (k, a ∷ []) ∷ []
append_at k a ((k', as') ∷ m) =
    let rest = append_at k a m in if str_eq k' k then (k', as' ++ a ∷ []) ∷ m else (k', as') ∷ rest

unfoldable pub slice_at {ℓ} : {A : Type ℓ} → Str → List (Str × List A) → List A
unfolding str_eq
slice_at k [] = []
slice_at k ((k', as') ∷ m) = let rest = slice_at k m in if str_eq k' k then as' else rest

pub slice_at-append_at {ℓ} :
    {A : Type ℓ} (j k : Str) (a : A) (m : List (Str × List A))
    → slice_at j (append_at k a m) ≡ (if str_eq k j then slice_at j m ++ a ∷ [] else slice_at j m)
unfolding slice_at append_at
slice_at-append_at j k a [] = refl
slice_at-append_at j k a ((i, bs) ∷ m) = elim (Bool-cases (str_eq i k)) [
  | inl h ↦ elim (Bool-cases (str_eq k j)) [
    | inl h' ↦ rw (h, h') (rw (subst (λ x. str_eq x j ≡ true) (sym ((str_eq_iff i k).0 h)) h') refl)
    | inr h' ↦
        rw (h, h') (rw (subst (λ x. str_eq x j ≡ false) (sym ((str_eq_iff i k).0 h)) h') refl)
  ]
  | inr h ↦ elim (Bool-cases (str_eq i j)) [
    | inl h' ↦
        let other : str_eq k j ≡ false = elim (Bool-cases (str_eq k j)) [
          | inl h2 ↦
              let same = (str_eq_iff i k).1 ((str_eq_iff i j).0 h' ∙ sym ((str_eq_iff k j).0 h2)) in
              ground (arith, same)
          | inr h2 ↦ h2
        ] in
        rw (h, h', other) refl
    | inr h' ↦ rw (h, h') (slice_at-append_at j k a m)
  ]
]
