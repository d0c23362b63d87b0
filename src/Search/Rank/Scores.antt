-- ===== src/Search/Rank/Scores.antt =====
-- The scores of `blendRerankScores` in internal/search/hybrid.go.

use ragota.Base.{
  All, All-imp, All-map, Bool-cases, List, [], false, inl, inr, length, map, true, ℕ, ◌∷◌, ◌≡◌,
}
use ragota.Search.Hit.{Hit}
use ragota.Search.Rank.{
  Floats, blend_rerank_scores, blended, max64, max_score, min64, min_score, range_high, range_low,
  spread, step_for,
}
use ragota.Search.Rank.Blend.{
  IsNumber32, IsNumber64, IsOrdered, max64-IsNumber64, max64-ge, max_score-All,
  max_score-IsNumber32, min64-All, min64-IsNumber64, min64-le, min_score-IsNumber32, pick_ge,
}

module _ (S : Floats) (o : IsOrdered S) where
  step_for-sign : (hi : S.f32) → S.gt32 S.zero32 (step_for S hi) ≡ false
  step_for-sign hi = elim (Bool-cases (S.gt32 hi S.zero32)) [
    | inl h ↦ rw h (o.mul32_sign hi S.thousandth (o.asym32 hi S.zero32 h) o.small_sign.0)
    | inr h ↦ rw h o.small_sign.1
  ]

  spread-ge : (hi lo : S.f32) (n : ℕ) → S.gt32 lo hi ≡ false → S.gt32 lo (spread S hi lo n) ≡ false
  spread-ge hi lo n h = elim (Bool-cases (S.eq32 hi lo)) [
    | inl e ↦ rw e (o.add32_grows lo _ (o.mul32_sign _ _ (step_for-sign hi) (o.of_int_sign n)))
    | inr e ↦ rw e h
  ]

  -- a new score is no smaller than the lower end of the range
  blended-ge :
      (lo : S.f32) (span least most s : S.f64)
      → S.gt64 (S.to64 S.zero32) span ≡ false
      → S.gt64 least s ≡ false
      → S.gt64 most least ≡ true
      → S.gt32 lo (blended S lo span least most s) ≡ false
  blended-ge lo span least most s h k m = o.add32_grows lo _ (
      o.to32_sign _ (
        o.mul64_sign _ span
          (o.div64_sign _ _ (o.sub64_sign s least k) (o.sub64_positive most least m)) h))

  range_high-ge :
      (first lo : S.f32) (head : List (Hit S.f32)) → S.gt32 lo (range_high S first head lo) ≡ false
  range_high-ge first lo head = (pick_ge S o (max_score S first head) lo).1

  -- the best score of the tail is no larger than the scores of the head
  abbrev pub IsAbove : List (Hit S.f32) → S.f32 → Type 0
  IsAbove tail x = All (λ t. S.gt32 t.score x ≡ false) tail

  IsAbove-low :
      (first x : S.f32) (head tail : List (Hit S.f32))
      → IsNumber32 S first
      → All (λ h. IsNumber32 S h.score) head
      → All (λ h. IsNumber32 S h.score) tail
      → S.gt32 (range_low S first head tail) x ≡ false
      → IsAbove tail x
  IsAbove-low first x head tail n hn tn h =
      let least = min_score-IsNumber32 S first head n hn in
      All-imp tail
        (λ t l.
          o.trans32 t.score _ x (max_score-IsNumber32 S (min_score S first head) tail least tn) l h)
        (max_score-All S o (min_score S first head) tail least tn)

  blended-All :
      (lo : S.f32) (span least most : S.f64) (ss : List S.f64) (tail : List (Hit S.f32))
      → ((x : S.f32) → S.gt32 lo x ≡ false → IsAbove tail x)
      → S.gt64 (S.to64 S.zero32) span ≡ false
      → S.gt64 most least ≡ true
      → All (λ s. S.gt64 least s ≡ false) ss
      → All (IsAbove tail) (map (blended S lo span least most) ss)
  blended-All lo span least most [] tail up h m l = tt
  blended-All lo span least most (s ∷ ss) tail up h m l = (
    up _ (blended-ge lo span least most s h l.0 m),
    blended-All lo span least most ss tail up h m l.1,
  )

  pub blend_rerank_scores-All :
      (head tail : List (Hit S.f32)) (scores : List S.f64)
      → All (λ h. IsNumber32 S h.score) head
      → All (λ h. IsNumber32 S h.score) tail
      → All (IsNumber64 S) scores
      → All (λ h. IsAbove tail h.score) head
      → All (IsAbove tail) (blend_rerank_scores S head tail scores)
  unfolding blend_rerank_scores
  blend_rerank_scores-All [] tail scores hn tn sn a = tt
  blend_rerank_scores-All (h ∷ hs) tail [] hn tn sn a = tt
  blend_rerank_scores-All (h ∷ hs) tail (s ∷ ss) hn tn sn a =
      let lo = range_low S h.score (h ∷ hs) tail in
      let hi = range_high S h.score (h ∷ hs) lo in
      let most = max64 S s (s ∷ ss) in
      let least = min64 S s (s ∷ ss) in
      let le : S.gt64 least most ≡ false =
        o.trans64 least s most sn.0 (min64-le S o s (s ∷ ss) sn) (max64-ge S o s (s ∷ ss) sn) in
      elim (Bool-cases (S.eq64 most least)) [
        | inl e ↦ rw (e, blend_rerank_scores) (All-map (IsAbove tail) (λ x. x.score) (h ∷ hs) a)
        | inr e ↦
            let apart : S.gt64 most least ≡ true = elim (Bool-cases (S.gt64 most least)) [
              | inl g ↦ g
              | inr g ↦ cc (
                o.eq64_of most least (max64-IsNumber64 S s (s ∷ ss) sn.0 sn)
                    (min64-IsNumber64 S s (s ∷ ss) sn.0 sn) g le,
                e,
              )
            ] in
            rw (e, blend_rerank_scores)
              (blended-All lo _ least most (s ∷ ss) tail
                (λ x. IsAbove-low h.score x (h ∷ hs) tail hn.0 hn tn)
                (o.to64_sign _ (
                  o.sub32_sign _ lo
                    (spread-ge hi lo (length (h ∷ hs)) (range_high-ge h.score lo (h ∷ hs)))))
                apart (min64-All S o s (s ∷ ss) sn.0 sn))
      ]
