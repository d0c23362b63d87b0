-- ===== src/Search/Rank/Blend.antt =====
-- The floating-point laws that the rank stage of internal/search/hybrid.go relies on, and the
-- bounds of a list of scores.

-- What the rank stage relies on of floating-point numbers, infinities and NaN included: values that
-- equal themselves, which NaN does not, are ordered; a comparison with NaN is false; and a
-- difference, a product and a quotient have the sign of the exact one or are NaN.
use ragota.Base.{All, Bool, Bool-cases, List, [], false, if◌then◌else◌, inl, inr, true, ℕ, ◌∷◌, ◌≡◌}
use ragota.Search.Hit.{Hit}
use ragota.Search.Rank.{Floats, max64, max_score, min64, min_score}

pub record IsOrdered (S : Floats) : Type 0 where
  pub asym32 : (a b : S.f32) → S.gt32 a b ≡ true → S.gt32 b a ≡ false
  pub trans32 :
      (a b c : S.f32)
      → S.eq32 b b ≡ true
      → S.gt32 a b ≡ false
      → S.gt32 b c ≡ false
      → S.gt32 a c ≡ false
  pub asym64 : (a b : S.f64) → S.gt64 a b ≡ true → S.gt64 b a ≡ false
  pub trans64 :
      (a b c : S.f64)
      → S.eq64 b b ≡ true
      → S.gt64 a b ≡ false
      → S.gt64 b c ≡ false
      → S.gt64 a c ≡ false
  pub eq64_of :
      (a b : S.f64)
      → S.eq64 a a ≡ true
      → S.eq64 b b ≡ true
      → S.gt64 a b ≡ false
      → S.gt64 b a ≡ false
      → S.eq64 a b ≡ true
  pub add32_grows : (a b : S.f32) → S.gt32 S.zero32 b ≡ false → S.gt32 a (S.add32 a b) ≡ false
  pub sub32_sign : (a b : S.f32) → S.gt32 b a ≡ false → S.gt32 S.zero32 (S.sub32 a b) ≡ false
  pub mul32_sign :
      (a b : S.f32)
      → S.gt32 S.zero32 a ≡ false
      → S.gt32 S.zero32 b ≡ false
      → S.gt32 S.zero32 (S.mul32 a b) ≡ false
  pub small_sign : (S.gt32 S.zero32 S.thousandth ≡ false) × (S.gt32 S.zero32 S.millionth ≡ false)
  pub of_int_sign : (n : ℕ) → S.gt32 S.zero32 (S.of_int n) ≡ false
  pub sub64_sign :
      (a b : S.f64) → S.gt64 b a ≡ false → S.gt64 (S.to64 S.zero32) (S.sub64 a b) ≡ false
  pub sub64_positive :
      (a b : S.f64) → S.gt64 a b ≡ true → S.gt64 (S.sub64 a b) (S.to64 S.zero32) ≡ true
  pub mul64_sign :
      (a b : S.f64)
      → S.gt64 (S.to64 S.zero32) a ≡ false
      → S.gt64 (S.to64 S.zero32) b ≡ false
      → S.gt64 (S.to64 S.zero32) (S.mul64 a b) ≡ false
  pub div64_sign :
      (a b : S.f64)
      → S.gt64 (S.to64 S.zero32) a ≡ false
      → S.gt64 b (S.to64 S.zero32) ≡ true
      → S.gt64 (S.to64 S.zero32) (S.div64 a b) ≡ false
  pub to64_sign :
      (a : S.f32) → S.gt32 S.zero32 a ≡ false → S.gt64 (S.to64 S.zero32) (S.to64 a) ≡ false
  pub to32_sign :
      (a : S.f64) → S.gt64 (S.to64 S.zero32) a ≡ false → S.gt32 S.zero32 (S.to32 a) ≡ false

-- a value that is not NaN
abbrev pub IsNumber32 : (S : Floats) → S.f32 → Type 0
IsNumber32 S a = S.eq32 a a ≡ true

abbrev pub IsNumber64 : (S : Floats) → S.f64 → Type 0
IsNumber64 S a = S.eq64 a a ≡ true

module _ (S : Floats) where
  pub either-IsNumber32 :
      (c : Bool) (a b : S.f32) → IsNumber32 S a → IsNumber32 S b → IsNumber32 S (if c then b else a)
  either-IsNumber32 true a b h k = k
  either-IsNumber32 false a b h k = h

  pub max_score-IsNumber32 :
      (a : S.f32) (hs : List (Hit S.f32))
      → IsNumber32 S a
      → All (λ h. IsNumber32 S h.score) hs
      → IsNumber32 S (max_score S a hs)
  unfolding max_score
  max_score-IsNumber32 a [] n ns = n
  max_score-IsNumber32 a (h ∷ hs) n ns =
      max_score-IsNumber32 (if S.gt32 h.score a then h.score else a) hs
        (either-IsNumber32 (S.gt32 h.score a) a h.score n ns.0) ns.1

  pub min_score-IsNumber32 :
      (a : S.f32) (hs : List (Hit S.f32))
      → IsNumber32 S a
      → All (λ h. IsNumber32 S h.score) hs
      → IsNumber32 S (min_score S a hs)
  unfolding min_score
  min_score-IsNumber32 a [] n ns = n
  min_score-IsNumber32 a (h ∷ hs) n ns =
      min_score-IsNumber32 (if S.gt32 a h.score then h.score else a) hs
        (either-IsNumber32 (S.gt32 a h.score) a h.score n ns.0) ns.1

  either-IsNumber64 :
      (c : Bool) (a b : S.f64) → IsNumber64 S a → IsNumber64 S b → IsNumber64 S (if c then b else a)
  either-IsNumber64 true a b h k = k
  either-IsNumber64 false a b h k = h

  pub max64-IsNumber64 :
      (a : S.f64) (ss : List S.f64)
      → IsNumber64 S a
      → All (IsNumber64 S) ss
      → IsNumber64 S (max64 S a ss)
  unfolding max64
  max64-IsNumber64 a [] n ns = n
  max64-IsNumber64 a (s ∷ ss) n ns =
      max64-IsNumber64 (if S.gt64 s a then s else a) ss (either-IsNumber64 (S.gt64 s a) a s n ns.0)
        ns.1

  pub min64-IsNumber64 :
      (a : S.f64) (ss : List S.f64)
      → IsNumber64 S a
      → All (IsNumber64 S) ss
      → IsNumber64 S (min64 S a ss)
  unfolding min64
  min64-IsNumber64 a [] n ns = n
  min64-IsNumber64 a (s ∷ ss) n ns =
      min64-IsNumber64 (if S.gt64 a s then s else a) ss (either-IsNumber64 (S.gt64 a s) a s n ns.0)
        ns.1

module _ (S : Floats) (o : IsOrdered S) where
  pub gt32_irrefl : (a : S.f32) → S.gt32 a a ≡ false
  gt32_irrefl a = elim (Bool-cases (S.gt32 a a)) [ inl h ↦ o.asym32 a a h | inr h ↦ h ]

  pub gt64_irrefl : (a : S.f64) → S.gt64 a a ≡ false
  gt64_irrefl a = elim (Bool-cases (S.gt64 a a)) [ inl h ↦ o.asym64 a a h | inr h ↦ h ]

  -- the larger of two is no smaller than either
  pub pick_ge :
      (a b : S.f32)
      → (S.gt32 a (if S.gt32 b a then b else a) ≡ false)
        × (S.gt32 b (if S.gt32 b a then b else a) ≡ false)
  pick_ge a b = elim (Bool-cases (S.gt32 b a)) [
    | inl h ↦ rw h (o.asym32 b a h, gt32_irrefl b)
    | inr h ↦ rw h (gt32_irrefl a, h)
  ]

  max_score-ge :
      (a : S.f32) (hs : List (Hit S.f32))
      → IsNumber32 S a
      → All (λ h. IsNumber32 S h.score) hs
      → S.gt32 a (max_score S a hs) ≡ false
  unfolding max_score
  max_score-ge a [] n ns = gt32_irrefl a
  max_score-ge a (h ∷ hs) n ns =
      let m = either-IsNumber32 S (S.gt32 h.score a) a h.score n ns.0 in
      o.trans32 a _ _ m (pick_ge a h.score).0
        (max_score-ge (if S.gt32 h.score a then h.score else a) hs m ns.1)

  pub max_score-All :
      (a : S.f32) (hs : List (Hit S.f32))
      → IsNumber32 S a
      → All (λ h. IsNumber32 S h.score) hs
      → All (λ h. S.gt32 h.score (max_score S a hs) ≡ false) hs
  unfolding max_score
  max_score-All a [] n ns = tt
  max_score-All a (h ∷ hs) n ns =
      let m = either-IsNumber32 S (S.gt32 h.score a) a h.score n ns.0 in
      (
        o.trans32 h.score _ _ m (pick_ge a h.score).1
            (max_score-ge (if S.gt32 h.score a then h.score else a) hs m ns.1),
        max_score-All (if S.gt32 h.score a then h.score else a) hs m ns.1,
      )

  pub max64-ge :
      (a : S.f64) (ss : List S.f64) → All (IsNumber64 S) ss → S.gt64 a (max64 S a ss) ≡ false
  unfolding max64
  max64-ge a [] ns = gt64_irrefl a
  max64-ge a (s ∷ ss) ns = elim (Bool-cases (S.gt64 s a)) [
    | inl h ↦ rw (h, max64) (o.trans64 a s _ ns.0 (o.asym64 s a h) (max64-ge s ss ns.1))
    | inr h ↦ rw (h, max64) (max64-ge a ss ns.1)
  ]

  pub min64-le :
      (a : S.f64) (ss : List S.f64) → All (IsNumber64 S) ss → S.gt64 (min64 S a ss) a ≡ false
  unfolding min64
  min64-le a [] ns = gt64_irrefl a
  min64-le a (s ∷ ss) ns = elim (Bool-cases (S.gt64 a s)) [
    | inl h ↦ rw (h, min64) (o.trans64 _ s a ns.0 (min64-le s ss ns.1) (o.asym64 a s h))
    | inr h ↦ rw (h, min64) (min64-le a ss ns.1)
  ]

  pick_le64 : (a s : S.f64) → S.gt64 (if S.gt64 a s then s else a) s ≡ false
  pick_le64 a s = elim (Bool-cases (S.gt64 a s)) [ inl h ↦ rw h (gt64_irrefl s) | inr h ↦ rw h h ]

  pub min64-All :
      (a : S.f64) (ss : List S.f64)
      → IsNumber64 S a
      → All (IsNumber64 S) ss
      → All (λ s. S.gt64 (min64 S a ss) s ≡ false) ss
  unfolding min64
  min64-All a [] n ns = tt
  min64-All a (s ∷ ss) n ns =
      let m = either-IsNumber64 S (S.gt64 a s) a s n ns.0 in
      (
        o.trans64 _ _ s m (min64-le (if S.gt64 a s then s else a) ss ns.1) (pick_le64 a s),
        min64-All (if S.gt64 a s then s else a) ss m ns.1,
      )
