-- ===== src/Search/Tests.antt =====
-- Runs of internal/search/hybrid.go on hits with natural numbers as scores, and instances of the
-- theorems.
use mathlib.Core.List.{Perm, Sublist}
use mathlib.Core.Path.{subst}
use ragota.Base.{
  All, Bool, List, Option, [], any, ap, arith, false, if◌then◌else◌, length, ltb, map, none, refl,
  some, true, ℕ, ◌*◌, ◌+◌, ◌-◌, ◌/◌, ◌==◌, ◌∷◌, ◌≡◌,
}
use ragota.Base.Int.{pos}
use ragota.Base.Sort.{Sorted, insert_by, sort_by}
use ragota.Base.Text.{
  Str, codes, contains, decimal_on, has_prefix, join_with, split, str_eq, trim, trim_left,
  trim_right,
}
use ragota.Search.Fuse.{
  Scoring, add_hit, add_hits, add_parts, add_results, append_reason, fuse_by, fused_hit, hit_before,
  hit_key, join_cluster, join_first, new_cluster,
}
use ragota.Search.Hit.{Hit, range_end}
use ragota.Search.Merge.{absorb, merge_into, merge_loop, merge_spans}
use ragota.Search.Merge.Keep.{covers-merge_spans, merge_spans_lem, present}
use ragota.Search.Merge.Lines.{IsSpan, body, covers_in}
use ragota.Search.Rank.{
  Floats, Reranker, apply_rerank, blend_rerank_scores, cut_back, max64, max_score, min64, min_score,
  rerank_head, rescored, scores_higher, truncate_rerank_doc, with_scores,
}
use ragota.Search.Rank.Blend.{IsNumber64, IsOrdered}
use ragota.Search.Rank.Hits.{apply_rerank-perm, unranked}
use ragota.Search.Rank.Order.{AnswersNumbers, apply_rerank-Sorted}

abbrev hit_at : ℕ → ℕ → ℕ → Hit ℕ
hit_at first last s = record {
  repo_id = codes "shop";
  file_path = codes "a.go";
  path = codes "a.go";
  line = first;
  end_line = last;
  symbol = [];
  kind = [];
  language = [];
  score = s;
  snippet = codes "x";
  reason = codes "bm25";
}

abbrev windows : List (Option (Hit ℕ))
windows = some (hit_at 1 5 9) ∷ some (hit_at 10 15 8) ∷ none ∷ some (hit_at 4 7 7) ∷ []

abbrev ranges : List (Option (Hit ℕ)) → List (ℕ × ℕ)
ranges [] = []
ranges (none ∷ hs) = ranges hs
ranges (some h ∷ hs) = (h.line, range_end h) ∷ ranges hs

merge_spans-windows : ranges (merge_spans windows).0 ≡ (1, 7) ∷ (10, 15) ∷ []
unfolding merge_spans merge_loop merge_into absorb str_eq contains has_prefix
merge_spans-windows = refl

-- a hit that is widened over both of two others leaves them overlapping
merge_spans-chain :
    ranges (merge_spans (some (hit_at 1 5 9) ∷ some (hit_at 10 15 8) ∷ some (hit_at 4 11 7) ∷ [])).0
    ≡ (1, 11) ∷ (10, 15) ∷ []
unfolding merge_spans merge_loop merge_into absorb str_eq contains has_prefix
merge_spans-chain = refl

-- a hit without an end line, merged with one that ends at its line, no longer covers that line
merge_spans-start_only :
    ranges (merge_spans (some (hit_at 10 0 9) ∷ some (hit_at 5 10 8) ∷ [])).0 ≡ (5, 5) ∷ []
unfolding merge_spans merge_loop merge_into absorb str_eq contains has_prefix
merge_spans-start_only = refl

windows-IsSpan : All IsSpan windows
windows-IsSpan = (omega arith, (omega arith, (tt, (omega arith, tt))))

covers-merge_spans_example :
    any (covers_in (codes "shop") (codes "a.go") 6) (merge_spans windows).0
    ≡ any (covers_in (codes "shop") (codes "a.go") 6) windows
covers-merge_spans_example =
    covers-merge_spans windows (codes "shop") (codes "a.go") 6 windows-IsSpan

merge_spans_lem_example :
    Sublist (map body (present (merge_spans windows).0)) (map body (present windows))
    × (length (present (merge_spans windows).0) + (merge_spans windows).1
        ≡ length (present windows))
merge_spans_lem_example = merge_spans_lem windows windows-IsSpan

abbrev accent : Str
accent = 195 ∷ 169 ∷ []

truncate_rerank_doc-accent : truncate_rerank_doc accent ≡ accent
unfolding truncate_rerank_doc
truncate_rerank_doc-accent = refl

cut_back-accent : cut_back accent 1 ≡ 0
unfolding cut_back
cut_back-accent = refl

abbrev whole : Floats
whole = record {
  f32 = ℕ;
  f64 = ℕ;
  zero32 = 0;
  gt32 = λ a b. ltb b a;
  eq32 = λ a b. a == b;
  add32 = λ a b. a + b;
  sub32 = λ a b. a - b;
  mul32 = λ a b. a * b;
  thousandth = 1;
  millionth = 1;
  of_int = λ n. n;
  gt64 = λ a b. ltb b a;
  eq64 = λ a b. a == b;
  sub64 = λ a b. a - b;
  mul64 = λ a b. a * b;
  div64 = λ a b. a / b;
  to64 = λ a. a;
  to32 = λ a. a;
}

-- numbers with a NaN, which is none: it is below, above and equal to nothing, a quotient by zero
-- and a difference below zero are NaN, and so is what is computed from it
abbrev NatOrNan : Type 0
NatOrNan = Option ℕ

abbrev nan_op : (ℕ → ℕ → NatOrNan) → NatOrNan → NatOrNan → NatOrNan
nan_op f (some a) (some b) = f a b
nan_op f (some a) none = none
nan_op f none b = none

abbrev nan_test : (ℕ → ℕ → Bool) → NatOrNan → NatOrNan → Bool
nan_test p (some a) (some b) = p a b
nan_test p (some a) none = false
nan_test p none b = false

abbrev nan_gt : NatOrNan → NatOrNan → Bool
nan_gt = nan_test (λ a b. ltb b a)

abbrev nan_eq : NatOrNan → NatOrNan → Bool
nan_eq = nan_test (λ a b. a == b)

abbrev nan_add : NatOrNan → NatOrNan → NatOrNan
nan_add = nan_op (λ a b. some (a + b))

abbrev nan_sub : NatOrNan → NatOrNan → NatOrNan
nan_sub = nan_op (λ a b. if ltb a b then none else some (a - b))

abbrev nan_mul : NatOrNan → NatOrNan → NatOrNan
nan_mul = nan_op (λ a b. some (a * b))

abbrev nan_div : NatOrNan → NatOrNan → NatOrNan
nan_div = nan_op (λ a b. if b == 0 then none else some (a / b))

abbrev patchy : Floats
patchy = record {
  f32 = NatOrNan;
  f64 = NatOrNan;
  zero32 = some 0;
  gt32 = nan_gt;
  eq32 = nan_eq;
  add32 = nan_add;
  sub32 = nan_sub;
  mul32 = nan_mul;
  thousandth = some 1;
  millionth = some 1;
  of_int = some;
  gt64 = nan_gt;
  eq64 = nan_eq;
  sub64 = nan_sub;
  mul64 = nan_mul;
  div64 = nan_div;
  to64 = λ a. a;
  to32 = λ a. a;
}

not_below : (x : NatOrNan) → nan_gt (some 0) x ≡ false
not_below none = refl
not_below (some a) = ground arith

nan_asym : (a b : NatOrNan) → nan_gt a b ≡ true → nan_gt b a ≡ false
nan_asym none b h = cc
nan_asym (some a) none h = cc
nan_asym (some a) (some b) h = ground arith

nan_trans :
    (a b c : NatOrNan)
    → nan_eq b b ≡ true
    → nan_gt a b ≡ false
    → nan_gt b c ≡ false
    → nan_gt a c ≡ false
nan_trans a none c n h k = cc
nan_trans none (some b) c n h k = refl
nan_trans (some a) (some b) none n h k = refl
nan_trans (some a) (some b) (some c) n h k = ground arith

nan_eq_of :
    (a b : NatOrNan)
    → nan_eq a a ≡ true
    → nan_eq b b ≡ true
    → nan_gt a b ≡ false
    → nan_gt b a ≡ false
    → nan_eq a b ≡ true
nan_eq_of none b n m h k = cc
nan_eq_of (some a) none n m h k = cc
nan_eq_of (some a) (some b) n m h k = ground arith

nan_add_grows : (a b : NatOrNan) → nan_gt (some 0) b ≡ false → nan_gt a (nan_add a b) ≡ false
nan_add_grows none b h = refl
nan_add_grows (some a) none h = refl
nan_add_grows (some a) (some b) h = ground arith

nan_sub_positive : (a b : NatOrNan) → nan_gt a b ≡ true → nan_gt (nan_sub a b) (some 0) ≡ true
nan_sub_positive none b h = cc
nan_sub_positive (some a) none h = cc
nan_sub_positive (some a) (some b) h = ground arith

patchy-IsOrdered : IsOrdered patchy
patchy-IsOrdered = record {
  asym32 = nan_asym;
  trans32 = nan_trans;
  asym64 = nan_asym;
  trans64 = nan_trans;
  eq64_of = nan_eq_of;
  add32_grows = nan_add_grows;
  sub32_sign = λ a b h. not_below (nan_sub a b);
  mul32_sign = λ a b h k. not_below (nan_mul a b);
  small_sign = (refl, refl);
  of_int_sign = λ n. not_below (some n);
  sub64_sign = λ a b h. not_below (nan_sub a b);
  sub64_positive = nan_sub_positive;
  mul64_sign = λ a b h k. not_below (nan_mul a b);
  div64_sign = λ a b h k. not_below (nan_div a b);
  to64_sign = λ a h. not_below a;
  to32_sign = λ a h. not_below a;
}

-- it likes the later documents better, and scores the first two
abbrev by_place : Reranker whole
by_place = record { rerank = λ query docs. some (3 ∷ 7 ∷ []); rerank_top_n = pos 2 }

abbrev ranked_hits : List (Hit ℕ)
ranked_hits = hit_at 1 5 9 ∷ hit_at 10 15 8 ∷ hit_at 4 7 7 ∷ []

apply_rerank-by_place :
    map {B = ℕ × ℕ} (λ h. (h.line, h.score)) (apply_rerank whole (some by_place) [] ranked_hits).0
    ≡ (10, 9) ∷ (1, 8) ∷ (4, 7) ∷ []
unfolding apply_rerank with_scores rerank_head blend_rerank_scores rescored sort_by insert_by
    max_score min_score max64 min64
apply_rerank-by_place = refl

abbrev patchy_by_place : Reranker patchy
patchy_by_place = record {
  rerank = λ query docs. some (some 3 ∷ some 7 ∷ []);
  rerank_top_n = pos 2;
}

abbrev with_nan : Hit ℕ → Hit NatOrNan
with_nan h = record {
  repo_id = h.repo_id;
  file_path = h.file_path;
  path = h.path;
  line = h.line;
  end_line = h.end_line;
  symbol = h.symbol;
  kind = h.kind;
  language = h.language;
  score = some h.score;
  snippet = h.snippet;
  reason = h.reason;
}

abbrev patchy_hits : List (Hit NatOrNan)
patchy_hits = map with_nan ranked_hits

abbrev or_nothing : Option (List NatOrNan) → List NatOrNan
or_nothing none = []
or_nothing (some xs) = xs

answers_3_7 : AnswersNumbers patchy (some patchy_by_place)
answers_3_7 query docs scores e =
    subst (All (IsNumber64 patchy)) (ap or_nothing e) (refl, (refl, tt))

apply_rerank-Sorted_example :
    Sorted (scores_higher patchy) (apply_rerank patchy (some patchy_by_place) [] patchy_hits).0
unfolding Sorted apply_rerank with_scores rerank_head blend_rerank_scores rescored sort_by insert_by
    max_score min_score max64 min64
apply_rerank-Sorted_example =
    apply_rerank-Sorted patchy patchy-IsOrdered (some patchy_by_place) [] patchy_hits answers_3_7
      (refl, (refl, (refl, tt))) (refl, (refl, (refl, tt)))
      ((refl, (refl, tt)), ((refl, tt), (tt, tt)))

apply_rerank-perm_example :
    Perm
      (map (unranked whole 0) (apply_rerank whole (some by_place) [] ranked_hits).0)
      (map (unranked whole 0) ranked_hits)
apply_rerank-perm_example = apply_rerank-perm whole (some by_place) [] ranked_hits 0

abbrev by_rank : Scoring ℕ
by_rank = record {
  no_score = 0;
  add_score = λ a b. a + b;
  higher = λ a b. ltb b a;
  contribute = λ source rank h. 10 - rank;
}

-- two hits of one searcher end in one cluster: one by overlap, the other by its key
fuse_by-one_searcher :
    ranges (
      map some (
        fuse_by by_rank (
          (codes "vector", some (hit_at 1 10 9) ∷ [])
          ∷ (codes "bm25", some (hit_at 5 15 8) ∷ some (hit_at 1 10 7) ∷ [])
          ∷ [])))
    ≡ (1, 10) ∷ []
unfolding fuse_by add_results add_hits add_hit join_first join_cluster new_cluster hit_key
    append_reason add_parts fused_hit hit_before sort_by insert_by str_eq split trim trim_left
    trim_right join_with decimal_on
fuse_by-one_searcher = refl
