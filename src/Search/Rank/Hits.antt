-- ===== src/Search/Rank/Hits.antt =====
-- No hit is lost in `applyRerank` of internal/search/hybrid.go.
use mathlib.Core.List.{Perm}
use mathlib.Core.List.Perm
use mathlib.Core.Path.{subst}
use ragota.Base.{
  ==_iff, Bool-cases, List, Option, [], ap, arith, drop, inl, inr, leb, length, length-map,
  length-take, map, map-append, min, none, refl, some, sym, take, take-append-drop, ℕ, ◌++◌, ◌==◌,
  ◌∙◌, ◌∷◌, ◌≡◌, ◌≤◌,
}
use ragota.Base.Sort.{sort_by, sort_by-perm}
use ragota.Base.Text.{Str}
use ragota.Search.Hit.{Hit}
use ragota.Search.Rank.{
  Floats, Reranker, apply_rerank, blend_rerank_scores, max64, min64, rerank_doc, rerank_head,
  rescored, scores_higher, top_n, with_scores,
}

module _ (S : Floats) where
  -- a hit without what the rank stage writes
  abbrev pub unranked : S.f32 → Hit S.f32 → Hit S.f32
  unranked x h = record h { score = x; reason = [] }

  rescored-unranked :
      (x : S.f32) (hs : List (Hit S.f32)) (ss : List S.f32)
      → length ss ≡ length hs
      → map (unranked x) (rescored S hs ss) ≡ map (unranked x) hs
  unfolding rescored
  rescored-unranked x [] ss e = refl
  rescored-unranked x (h ∷ hs) [] e = absurd (omega (arith, e))
  rescored-unranked x (h ∷ hs) (s ∷ ss) e =
      ap (◌∷◌ (unranked x h)) (rescored-unranked x hs ss (omega (arith, e)))

  length-blend_rerank_scores :
      (head tail : List (Hit S.f32)) (scores : List S.f64)
      → length scores ≡ length head
      → length (blend_rerank_scores S head tail scores) ≡ length head
  unfolding blend_rerank_scores
  length-blend_rerank_scores [] tail scores e = refl
  length-blend_rerank_scores (h ∷ hs) tail [] e = absurd (omega (arith, e))
  length-blend_rerank_scores (h ∷ hs) tail (s ∷ ss) e =
      elim (Bool-cases (S.eq64 (max64 S s (s ∷ ss)) (min64 S s (s ∷ ss)))) [
        | inl b ↦ rw (b, blend_rerank_scores) (length-map (λ x. x.score) (h ∷ hs))
        | inr b ↦ rw (b, blend_rerank_scores) (length-map _ (s ∷ ss) ∙ e)
      ]

  with_scores-perm :
      (x : S.f32) (hits : List (Hit S.f32)) (n : ℕ) (answer : Option (List S.f64))
      → n ≤ length hits
      → Perm (map (unranked x) (with_scores S hits n answer).0) (map (unranked x) hits)
  unfolding with_scores rerank_head
  with_scores-perm x hits n none le = Perm.rfl
  with_scores-perm x hits n (some scores) le =
      let head = take n hits in
      let tail = drop n hits in
      let blend = blend_rerank_scores S head tail scores in
      let new = rescored S head blend in
      elim (Bool-cases (length scores == n)) [
        | inl e ↦
            let len : length scores ≡ length head =
              omega (arith, (==_iff (length scores) n).0 e, length-take n hits) in
            let same : map (unranked x) (new ++ tail) ≡ map (unranked x) hits =
              map-append (unranked x) new tail
              ∙ ap (λ l. l ++ map (unranked x) tail)
                  (rescored-unranked x head blend (length-blend_rerank_scores head tail scores len))
              ∙ sym (map-append (unranked x) head tail)
              ∙ ap (map (unranked x)) (take-append-drop n hits) in
            rw (e, with_scores)
              (subst (Perm (map (unranked x) (sort_by (scores_higher S) new ++ tail))) same (
                Perm.map (unranked x)
                  (Perm.append_right tail (sort_by-perm (scores_higher S) new))))
        | inr e ↦ rw (e, with_scores) Perm.rfl
      ]

  -- The hits that `applyRerank` returns are those that it was given, but for their order, their
  -- scores and their reasons, whatever the reranker answers.
  pub apply_rerank-perm :
      (r : Option (Reranker S)) (query : Str) (hits : List (Hit S.f32)) (x : S.f32)
      → Perm (map (unranked x) (apply_rerank S r query hits).0) (map (unranked x) hits)
  unfolding apply_rerank
  apply_rerank-perm none query hits x = Perm.rfl
  apply_rerank-perm (some r) query hits x = elim (Bool-cases (leb (length hits) 1)) [
    | inl e ↦ rw (e, apply_rerank) Perm.rfl
    | inr e ↦
        let n = min (top_n r.rerank_top_n) (length hits) in
        let answer = r.rerank query (map (rerank_doc S) (take n hits)) in
        rw (e, apply_rerank) (with_scores-perm x hits n answer (omega arith))
  ]
