-- ===== src/Search/Rank.antt =====
-- The rank stage of internal/search/hybrid.go: the reranker's part, the merge of spans, the cut.
-- The floating-point types with their operations are an argument, and so is the reranker.
pub mod Blend
pub mod Scores
pub mod Order
pub mod Hits
pub mod Document
use ragota.Base.{
  Bool, List, Option, [], drop, false, get_elem?, if◌then◌else◌, leb, length, ltb, map, min, none,
  some, suc, take, zero, ℕ, ◌++◌, ◌==◌, ◌||◌, ◌∷◌,
}
use ragota.Base.Int.{negsuc, pos, ℤ}
use ragota.Base.Sort.{sort_by}
use ragota.Base.Text.{Str, codes, join, trim, trim_space}
use ragota.Search.Hit.{Hit}
use ragota.Search.Merge.{merge_spans}

-- `float32` and `float64`, as far as the rank stage uses them
pub record Floats : Type 1 where
  pub f32 : Type 0
  pub f64 : Type 0
  pub zero32 : f32
  pub gt32 : f32 → f32 → Bool
  pub eq32 : f32 → f32 → Bool
  pub add32 : f32 → f32 → f32
  pub sub32 : f32 → f32 → f32
  pub mul32 : f32 → f32 → f32
  pub thousandth : f32
  pub millionth : f32
  pub of_int : ℕ → f32
  pub gt64 : f64 → f64 → Bool
  pub eq64 : f64 → f64 → Bool
  pub sub64 : f64 → f64 → f64
  pub mul64 : f64 → f64 → f64
  pub div64 : f64 → f64 → f64
  pub to64 : f32 → f64
  pub to32 : f64 → f32

-- `utf8.RuneStart`
abbrev pub rune_start : ℕ → Bool
rune_start b = ltb b 128 || leb 192 b

abbrev pub rerank_max_doc_bytes : ℕ
rerank_max_doc_bytes = 4096

abbrev pub starts_at : Str → ℕ → Bool
starts_at doc i = elim (get_elem? doc i) [ none ↦ false | some b ↦ rune_start b ]

-- the loop that moves the cut back to the start of a rune
unfoldable pub cut_back : Str → ℕ → ℕ
cut_back doc zero = zero
cut_back doc (suc n) = let rest = cut_back doc n in if starts_at doc (suc n) then suc n else rest

-- `truncateRerankDoc`
unfoldable pub truncate_rerank_doc : Str → Str
unfolding cut_back
truncate_rerank_doc doc =
    if leb (length doc) rerank_max_doc_bytes
    then doc
    else take (cut_back doc rerank_max_doc_bytes) doc

-- `truncate`
unfoldable pub truncate {ℓ} : {A : Type ℓ} → List A → ℤ → List A
truncate hits (pos zero) = hits
truncate hits (pos (suc n)) = take (suc n) hits
truncate hits (negsuc n) = hits

-- `nonEmpty`
abbrev pub non_empty : List Str → List Str
non_empty [] = []
non_empty ([] ∷ vs) = non_empty vs
non_empty ((b ∷ v) ∷ vs) = (b ∷ v) ∷ non_empty vs

abbrev pub or_else : Str → Str → Str
or_else [] t = t
or_else (b ∷ s) t = b ∷ s

-- what the metadata say of the stage
pub data RerankNote : Type 0 where
  not_reranked rerank_failed : RerankNote
  reranked : ℕ → RerankNote

pub record Reranker (S : Floats) : Type 0 where
  pub rerank : Str → List Str → Option (List S.f64)  -- none: an error
  pub rerank_top_n : ℤ  -- as `SetReranker` got it

-- `SetReranker` and `topN` on a service with a reranker
abbrev pub top_n : ℤ → ℕ
top_n (pos zero) = 50
top_n (pos (suc n)) = suc n
top_n (negsuc n) = 50

module _ (S : Floats) where
  -- the document that stands for a hit
  unfoldable pub rerank_doc : Hit S.f32 → Str
  unfolding join trim truncate_rerank_doc
  rerank_doc h = truncate_rerank_doc (
      or_else h.snippet
        (or_else (trim_space (join 32 (non_empty (h.kind ∷ h.symbol ∷ h.path ∷ [])))) h.file_path))

  unfoldable pub max_score : S.f32 → List (Hit S.f32) → S.f32
  max_score hi [] = hi
  max_score hi (h ∷ hs) = max_score (if S.gt32 h.score hi then h.score else hi) hs

  unfoldable pub min_score : S.f32 → List (Hit S.f32) → S.f32
  min_score lo [] = lo
  min_score lo (h ∷ hs) = min_score (if S.gt32 lo h.score then h.score else lo) hs

  unfoldable pub max64 : S.f64 → List S.f64 → S.f64
  max64 hi [] = hi
  max64 hi (s ∷ ss) = max64 (if S.gt64 s hi then s else hi) ss

  unfoldable pub min64 : S.f64 → List S.f64 → S.f64
  min64 lo [] = lo
  min64 lo (s ∷ ss) = min64 (if S.gt64 lo s then s else lo) ss

  abbrev pub step_for : S.f32 → S.f32
  step_for hi = if S.gt32 hi S.zero32 then S.mul32 hi S.thousandth else S.millionth

  -- the range that the scores of the head are mapped to
  abbrev pub range_low : S.f32 → List (Hit S.f32) → List (Hit S.f32) → S.f32
  range_low first head tail = max_score (min_score first head) tail

  abbrev pub range_high : S.f32 → List (Hit S.f32) → S.f32 → S.f32
  range_high first head lo = let hi = max_score first head in if S.gt32 lo hi then lo else hi

  abbrev pub spread : S.f32 → S.f32 → ℕ → S.f32
  spread hi lo n = if S.eq32 hi lo then S.add32 lo (S.mul32 (step_for hi) (S.of_int n)) else hi

  abbrev pub blended : S.f32 → S.f64 → S.f64 → S.f64 → S.f64 → S.f32
  blended lo span least most s =
      S.add32 lo (S.to32 (S.mul64 (S.div64 (S.sub64 s least) (S.sub64 most least)) span))

  -- `blendRerankScores`, which is not called without a score
  unfoldable pub blend_rerank_scores : List (Hit S.f32) → List (Hit S.f32) → List S.f64 → List S.f32
  unfolding max64 min64
  blend_rerank_scores [] tail scores = []
  blend_rerank_scores (h ∷ hs) tail [] = []
  blend_rerank_scores (h ∷ hs) tail (s ∷ ss) =
      let lo = range_low h.score (h ∷ hs) tail in
      let hi = range_high h.score (h ∷ hs) lo in
      let span = S.to64 (S.sub32 (spread hi lo (length (h ∷ hs))) lo) in
      let most = max64 s (s ∷ ss) in
      let least = min64 s (s ∷ ss) in
      if S.eq64 most least
      then map (λ x. x.score) (h ∷ hs)
      else map (blended lo span least most) (s ∷ ss)

  abbrev pub rerank_reason : Str → Str
  rerank_reason [] = codes "rerank"
  rerank_reason (b ∷ r) = b ∷ r ++ codes "+rerank"

  -- the copies of the head with their new scores
  unfoldable pub rescored : List (Hit S.f32) → List S.f32 → List (Hit S.f32)
  rescored [] scores = []
  rescored (h ∷ hs) [] = []
  rescored (h ∷ hs) (s ∷ ss) =
      record h { score = s; reason = rerank_reason h.reason } ∷ rescored hs ss

  abbrev pub scores_higher : Hit S.f32 → Hit S.f32 → Bool
  scores_higher a b = S.gt32 a.score b.score

  unfoldable pub rerank_head : List (Hit S.f32) → List (Hit S.f32) → List S.f64 → List (Hit S.f32)
  unfolding blend_rerank_scores rescored sort_by
  rerank_head head tail scores =
      sort_by scores_higher (rescored head (blend_rerank_scores head tail scores))

  -- what follows the answer of the reranker
  unfoldable pub with_scores :
      List (Hit S.f32) → ℕ → Option (List S.f64) → List (Hit S.f32) × RerankNote
  unfolding rerank_head
  with_scores hits n none = (hits, rerank_failed)
  with_scores hits n (some scores) =
      if length scores == n
      then (rerank_head (take n hits) (drop n hits) scores ++ drop n hits, reranked n)
      else (hits, rerank_failed)

  -- `applyRerank`
  unfoldable pub apply_rerank :
      Option (Reranker S) → Str → List (Hit S.f32) → List (Hit S.f32) × RerankNote
  unfolding with_scores rerank_doc
  apply_rerank none query hits = (hits, not_reranked)
  apply_rerank (some r) query hits =
      if leb (length hits) 1
      then (hits, not_reranked)
      else (let n = min (top_n r.rerank_top_n) (length hits) in
          with_scores hits n (r.rerank query (map rerank_doc (take n hits))))

  -- `Rank`; `no_merge` is the field of the configuration
  unfoldable pub rank :
      Option (Reranker S) → Bool → Str → List (Hit S.f32) → ℤ → List (Option (Hit S.f32))
  unfolding apply_rerank merge_spans truncate
  rank r no_merge query hits limit =
      let ranked = map some (apply_rerank r query hits).0 in
      truncate (if no_merge then ranked else (merge_spans ranked).0) limit
