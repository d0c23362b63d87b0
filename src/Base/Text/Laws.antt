-- ===== src/Base/Text/Laws.antt =====
-- Laws of the string functions: prefixes and suffixes, cutting at a byte, splitting and joining.
use ragota.Base.{
  All, Bool, List, [], any, ap, arith, false, if◌then◌else◌, length, length-append, none, refl,
  some, suc, take, true, zero, ℕ, ◌++◌, ◌-◌, ◌==◌, ◌||◌, ◌∙◌, ◌∷◌, ◌≡◌, ◌≢◌,
}
use ragota.Base.Text.{
  Str, before, cut, cut_last, cut_prefix, has_byte, has_prefix, has_suffix, join, onto, split,
  str_eq_refl, trim_prefix, trim_suffix,
}

pub any-append {ℓ} :
    {A : Type ℓ} (p : A → Bool) (s t : List A) → any p (s ++ t) ≡ (any p s || any p t)
any-append p [] t = refl
any-append p (c ∷ s) t = ground (arith, any-append p s t)

pub cut_prefix-append : (p s : Str) → cut_prefix (p ++ s) p ≡ some s
unfolding cut_prefix
cut_prefix-append [] [] = refl
cut_prefix-append [] (c ∷ s) = refl
cut_prefix-append (c ∷ p) s = ground (arith, cut_prefix-append p s)

pub cut_prefix_sound : (s p : Str) {r : Str} → cut_prefix s p ≡ some r → s ≡ p ++ r
unfolding cut_prefix
cut_prefix_sound s [] h = ground arith
cut_prefix_sound [] (c ∷ p) h = cc
cut_prefix_sound (d ∷ s) (c ∷ p) {r} h = ground (arith, cut_prefix_sound s p {r = r})

pub has_prefix-append : (p s : Str) → has_prefix (p ++ s) p ≡ true
unfolding has_prefix
has_prefix-append [] s = refl
has_prefix-append (c ∷ p) s = ground (arith, has_prefix-append p s)

pub trim_prefix-append : (p s : Str) → trim_prefix (p ++ s) p ≡ s
unfolding trim_prefix
trim_prefix-append p s = ground (arith, cut_prefix-append p s)

pub has_suffix-append : (s t : Str) → has_suffix (s ++ t) t ≡ true
unfolding has_suffix
has_suffix-append [] [] = refl
has_suffix-append [] (c ∷ t) = ground (arith, str_eq_refl (c ∷ t))
has_suffix-append (c ∷ s) t = ground (arith, has_suffix-append s t)

take-length-append {ℓ} : {A : Type ℓ} (s t : List A) (n : ℕ) → n ≡ length s → take n (s ++ t) ≡ s
take-length-append [] t zero h = refl
take-length-append [] t (suc n) h = absurd (omega arith)
take-length-append (c ∷ s) t zero h = absurd (omega arith)
take-length-append (c ∷ s) t (suc n) h = ap (◌∷◌ c) (take-length-append s t n (omega arith))

pub trim_suffix-append : (s t : Str) → trim_suffix (s ++ t) t ≡ s
unfolding trim_suffix
trim_suffix-append s t = ground (
  arith,
  has_suffix-append s t,
  take-length-append s t (length (s ++ t) - length t) (omega (arith, length-append s t)),
)

pub cut-append :
    (sep : ℕ) (a b : Str) → has_byte sep a ≡ false → cut sep (a ++ sep ∷ b) ≡ some (a, b)
unfolding cut
cut-append sep [] b h = ground arith
cut-append sep (c ∷ a) b h = ground (arith, cut-append sep a b)

pub cut_absent : (sep : ℕ) (s : Str) → has_byte sep s ≡ false → cut sep s ≡ none
unfolding cut
cut_absent sep [] h = refl
cut_absent sep (c ∷ s) h = ground (arith, cut_absent sep s)

pub cut_last_absent : (sep : ℕ) (s : Str) → has_byte sep s ≡ false → cut_last sep s ≡ none
unfolding cut_last
cut_last_absent sep [] h = refl
cut_last_absent sep (c ∷ s) h = ground (arith, cut_last_absent sep s)

pub cut_last-append :
    (sep : ℕ) (a b : Str) → has_byte sep b ≡ false → cut_last sep (a ++ sep ∷ b) ≡ some (a, b)
unfolding cut_last
cut_last-append sep [] b h = ground (arith, cut_last_absent sep b)
cut_last-append sep (c ∷ a) b h = ground (arith, cut_last-append sep a b h)

pub any-before : (p : ℕ → Bool) (s : Str) → any p (before p s) ≡ false
unfolding before
any-before p [] = refl
any-before p (c ∷ s) = ground (arith, any-before p s)

pub before_absent : (p : ℕ → Bool) (s : Str) → any p s ≡ false → before p s ≡ s
unfolding before
before_absent p [] h = refl
before_absent p (c ∷ s) h = ground (arith, before_absent p s)

pub split-ne-nil : (sep : ℕ) (s : Str) → split sep s ≢ []
unfolding split
split-ne-nil sep [] h = cc
split-ne-nil sep (c ∷ s) h =
    elim (split sep s) as (λ r. (if c == sep then [] ∷ r else onto c r) ≡ [] → ⊥) [
      | [] ↦ λ e. ground arith
      | w ∷ ws ↦ λ e. ground arith
    ]
      h

join-onto : (sep c : ℕ) (ws : List Str) → ws ≢ [] → join sep (onto c ws) ≡ c ∷ join sep ws
unfolding join
join-onto sep c [] h = absurd (h refl)
join-onto sep c (w ∷ []) h = refl
join-onto sep c (w ∷ v ∷ ws) h = refl

join-nil_cons : (sep : ℕ) (ws : List Str) → ws ≢ [] → join sep ([] ∷ ws) ≡ sep ∷ join sep ws
unfolding join
join-nil_cons sep [] h = absurd (h refl)
join-nil_cons sep (v ∷ ws) h = refl

pub join-split : (sep : ℕ) (s : Str) → join sep (split sep s) ≡ s
unfolding split
join-split sep [] = unfold join in refl
join-split sep (c ∷ s) = ground (
  arith,
  join-split sep s,
  join-onto sep c (split sep s) (split-ne-nil sep s),
  join-nil_cons sep (split sep s) (split-ne-nil sep s),
)

split_absent : (sep : ℕ) (w : Str) → has_byte sep w ≡ false → split sep w ≡ w ∷ []
unfolding split
split_absent sep [] h = refl
split_absent sep (c ∷ w) h = ground (arith, split_absent sep w)

split-append :
    (sep : ℕ) (w s : Str) → has_byte sep w ≡ false → split sep (w ++ sep ∷ s) ≡ w ∷ split sep s
unfolding split
split-append sep [] s h = ground arith
split-append sep (c ∷ w) s h = ground (arith, split-append sep w s)

pub split-join :
    (sep : ℕ) (w : Str) (ws : List Str)
    → All (λ v. has_byte sep v ≡ false) (w ∷ ws)
    → split sep (join sep (w ∷ ws)) ≡ w ∷ ws
unfolding join
split-join sep w [] h = split_absent sep w h.0
split-join sep w (v ∷ ws) h =
    split-append sep w (join sep (v ∷ ws)) h.0 ∙ ap (◌∷◌ w) (split-join sep v ws h.1)

-- no part of a split holds the separator
pub split-All : (sep : ℕ) (s : Str) → All (λ v. has_byte sep v ≡ false) (split sep s)
unfolding split
split-All sep [] = (refl, tt)
split-All sep (c ∷ s) = keep (split sep s) (split-All sep s)
  where
    keep :
        (ws : List Str)
        → All (λ v. has_byte sep v ≡ false) ws
        → All (λ v. has_byte sep v ≡ false) (if c == sep then [] ∷ ws else onto c ws)
    keep [] h = ground arith
    keep (w ∷ ws) h = ground arith

onto-append : (c : ℕ) (ws vs : List Str) → ws ≢ [] → onto c (ws ++ vs) ≡ onto c ws ++ vs
onto-append c [] vs h = absurd (h refl)
onto-append c (w ∷ ws) vs h = refl

-- a separator anywhere parts the text
pub split-sep : (sep : ℕ) (s t : Str) → split sep (s ++ sep ∷ t) ≡ split sep s ++ split sep t
unfolding split
split-sep sep [] t = ground arith
split-sep sep (c ∷ s) t =
    ground
      (arith, split-sep sep s t, onto-append c (split sep s) (split sep t) (split-ne-nil sep s))
