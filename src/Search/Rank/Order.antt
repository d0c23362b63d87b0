-- ===== src/Search/Rank/Order.antt =====
-- The order and the hits of `applyRerank` in internal/search/hybrid.go.
use mathlib.Core.Path.{subst}
use ragota.Base.{
  All, All-left, All-right, Bool-cases, List, Option, [], drop, inl, inr, leb, length, map, min,
  none, refl, some, sym, take, take-append-drop, ℕ, ◌++◌, ◌==◌, ◌∷◌, ◌≡◌,
}
use ragota.Base.Sort.{
  All-sort_by, IsStrictOn, Sorted, Sorted-append, Sorted-split, sort_by, sort_by-All,
  sort_by-Sorted_on,
}
use ragota.Base.Text.{Str}
use ragota.Search.Hit.{Hit}
use ragota.Search.Rank.{
  Floats, Reranker, apply_rerank, blend_rerank_scores, rerank_doc, rerank_head, rescored,
  scores_higher, top_n, with_scores,
}
use ragota.Search.Rank.Blend.{IsNumber32, IsNumber64, IsOrdered}
use ragota.Search.Rank.Scores.{IsAbove, blend_rerank_scores-All}

module _ (S : Floats) where
  rescored-All :
      (P : S.f32 → Type 0) (hs : List (Hit S.f32)) (ss : List S.f32)
      → All P ss
      → All (λ h. P h.score) (rescored S hs ss)
  unfolding rescored
  rescored-All P [] ss h = tt
  rescored-All P (x ∷ hs) [] h = tt
  rescored-All P (x ∷ hs) (s ∷ ss) h = (h.0, rescored-All P hs ss h.1)

  -- no hit has NaN for its score
  abbrev pub HaveNumbers : List (Hit S.f32) → Type 0
  HaveNumbers hits = All (λ h. IsNumber32 S h.score) hits

  scores_higher-IsStrictOn : IsOrdered S → IsStrictOn (λ h. IsNumber32 S h.score) (scores_higher S)
  scores_higher-IsStrictOn o = record {
    asym = λ x y. o.asym32 x.score y.score;
    not_less_trans = λ x y z n h k. o.trans32 z.score y.score x.score n k h;
  }

  with_scores-Sorted :
      (hits : List (Hit S.f32)) (n : ℕ) (answer : Option (List S.f64))
      → IsOrdered S
      → HaveNumbers hits
      → ((scores : List S.f64) → answer ≡ some scores → All (IsNumber64 S) scores)
      → Sorted (scores_higher S) hits
      → HaveNumbers (with_scores S hits n answer).0
      → Sorted (scores_higher S) (with_scores S hits n answer).0
  unfolding with_scores rerank_head
  with_scores-Sorted hits n none o hn an h out = h
  with_scores-Sorted hits n (some scores) o hn an h out =
      let less = scores_higher S in
      let head = take n hits in
      let tail = drop n hits in
      let together : head ++ tail ≡ hits = take-append-drop n hits in
      let (sorted_tail, above) =
        Sorted-split less head tail (subst (Sorted less) (sym together) h) in
      let numbers : HaveNumbers (head ++ tail) = subst HaveNumbers (sym together) hn in
      let new = rescored S head (blend_rerank_scores S head tail scores) in
      elim (Bool-cases (length scores == n)) [
        | inl e ↦
            let out' : HaveNumbers (sort_by less new ++ tail) = rw (e, with_scores) at out in
            let new_numbers =
              All-sort_by less (λ x. IsNumber32 S x.score) new
                (All-left _ (sort_by less new) tail out') in
            rw (e, with_scores)
              (Sorted-append less (sort_by less new) tail
                (sort_by-Sorted_on less (scores_higher-IsStrictOn o) new new_numbers) sorted_tail
                (sort_by-All less (λ x. IsAbove S o tail x.score) new
                  (rescored-All (IsAbove S o tail) head _ (
                    blend_rerank_scores-All S o head tail scores (All-left _ head tail numbers)
                      (All-right _ head tail numbers) (an scores refl) above))))
        | inr e ↦ rw (e, with_scores) h
      ]

  -- the reranker never answers NaN
  abbrev pub AnswersNumbers : Option (Reranker S) → Type 0
  AnswersNumbers none = Unit
  AnswersNumbers (some r) =
      (query : Str) (docs : List Str) (scores : List S.f64)
      → r.rerank query docs ≡ some scores
      → All (IsNumber64 S) scores

  -- For the floating-point numbers, with infinities and NaN: when the hits come in descending order
  -- of their scores, no score that comes in or goes out is NaN, and the reranker answers no NaN,
  -- `applyRerank` returns hits in descending order of their new scores.
  pub apply_rerank-Sorted :
      IsOrdered S
      → (r : Option (Reranker S)) (query : Str) (hits : List (Hit S.f32)) → AnswersNumbers r
      → HaveNumbers hits
      → HaveNumbers (apply_rerank S r query hits).0
      → Sorted (scores_higher S) hits
      → Sorted (scores_higher S) (apply_rerank S r query hits).0
  unfolding apply_rerank
  apply_rerank-Sorted o none query hits an hn out h = h
  apply_rerank-Sorted o (some r) query hits an hn out h = elim (Bool-cases (leb (length hits) 1)) [
    | inl e ↦ rw (e, apply_rerank) h
    | inr e ↦
        let n = min (top_n r.rerank_top_n) (length hits) in
        let docs = map (rerank_doc S) (take n hits) in
        let answer = r.rerank query docs in
        let out' : HaveNumbers (with_scores S hits n answer).0 = rw (e, apply_rerank) at out in
        rw (e, apply_rerank)
          (with_scores-Sorted hits n answer o hn (λ scores. an query docs scores) h out')
  ]
