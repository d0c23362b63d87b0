-- ===== src/Base/Text/Bytes.antt =====
-- Which bytes the string functions can let through: a byte test that fails on a text fails on
-- what is cut out of it.

use ragota.Base.{
  All, Bool, Bool-cases, List, [], any, arith, false, if◌then◌else◌, inl, inr, refl, ℕ, ◌==◌, ◌∷◌,
  ◌≡◌,
}
use ragota.Base.Text.{Str, join, onto, split, trim, trim_left, trim_right}
use ragota.Base.Text.Laws.{any-append}

module _ (q : ℕ → Bool) where
  pub any-trim_left : (p : ℕ → Bool) (s : Str) → any q s ≡ false → any q (trim_left p s) ≡ false
  unfolding trim_left
  any-trim_left p [] h = refl
  any-trim_left p (c ∷ s) h = ground (arith, any-trim_left p s)

  any-keep :
      (p : ℕ → Bool) (c : ℕ) (r : Str)
      → any q (c ∷ r) ≡ false
      → any q (elim r [ [] ↦ if p c then [] else c ∷ [] | d ∷ t ↦ c ∷ d ∷ t ]) ≡ false
  any-keep p c [] h = ground arith
  any-keep p c (d ∷ t) h = h

  pub any-trim_right : (p : ℕ → Bool) (s : Str) → any q s ≡ false → any q (trim_right p s) ≡ false
  unfolding trim_right
  any-trim_right p [] h = refl
  any-trim_right p (c ∷ s) h = any-keep p c (trim_right p s) (ground (arith, any-trim_right p s))

  pub any-trim : (p : ℕ → Bool) (s : Str) → any q s ≡ false → any q (trim p s) ≡ false
  unfolding trim
  any-trim p s h = any-trim_right p (trim_left p s) (any-trim_left p s h)

  any-onto :
      (c : ℕ) (ws : List Str)
      → q c ≡ false
      → All (λ w. any q w ≡ false) ws
      → All (λ w. any q w ≡ false) (onto c ws)
  any-onto c [] h hs = ground arith
  any-onto c (w ∷ ws) h hs = ground arith

  pub any-split : (sep : ℕ) (s : Str) → any q s ≡ false → All (λ w. any q w ≡ false) (split sep s)
  unfolding split
  any-split sep [] h = (refl, tt)
  any-split sep (c ∷ s) h = elim (Bool-cases (c == sep)) [
    | inl e ↦ rw e (refl, any-split sep s (ground arith))
    | inr e ↦ rw e (any-onto c (split sep s) (ground arith) (any-split sep s (ground arith)))
  ]

  pub any-join :
      (sep : ℕ) (ws : List Str)
      → q sep ≡ false
      → All (λ w. any q w ≡ false) ws
      → any q (join sep ws) ≡ false
  unfolding join
  any-join sep [] h hs = refl
  any-join sep (w ∷ []) h hs = hs.0
  any-join sep (w ∷ v ∷ ws) h hs =
      ground (arith, any-append q w (sep ∷ join sep (v ∷ ws)), any-join sep (v ∷ ws) h hs.1)
