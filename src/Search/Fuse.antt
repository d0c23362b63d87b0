-- ===== src/Search/Fuse.antt =====
-- `fuseBy` of internal/search/hybrid.go: the clusters of hits that several searchers found. What a
-- hit is worth to its cluster and the sum of scores are an argument, as is their comparison. The
-- maps by key and by file are the list of the clusters, in the order in which they were made.
pub mod Origin
use ragota.Base.{
  Bool, List, Option, [], any, if◌then◌else◌, ltb, map, none, not, some, suc, ℕ, ◌&&◌, ◌++◌, ◌+◌,
  ◌||◌, ◌∷◌,
}
use ragota.Base.Sort.{sort_by}
use ragota.Base.Text.{Str, codes, decimal, decimal_on, join_with, split, str_eq, trim, trim_space}
use ragota.Linker.Unit.{str_ltb}
use ragota.Search.Hit.{Hit, overlaps}
use ragota.Search.Merge.{file_key}
use ragota.Search.Rank.{rank}

pub record Cluster (F : Type 0) : Type 0 where
  pub made_by : Str  -- the key under which `byKey` has it
  pub made_in : Str  -- the key under which `byFile` has it
  pub best_hit : Hit F
  pub total : F
  pub best_rank : ℕ
  pub sources : List Str
  pub reasons : List Str

pub record Scoring (F : Type 0) : Type 0 where
  pub no_score : F
  pub add_score : F → F → F
  pub higher : F → F → Bool
  pub contribute : Str → ℕ → Hit F → F

-- the parts of a reason
unfoldable pub add_parts : List Str → List Str → List Str
unfolding trim str_eq
add_parts reasons [] = reasons
add_parts reasons (p ∷ ps) =
    let part = trim_space p in
    add_parts
      (if str_eq part [] || any (str_eq part) reasons then reasons else reasons ++ part ∷ []) ps

abbrev pub reason_or : Str → Str → Str
reason_or [] source = source
reason_or (b ∷ r) source = b ∷ r

-- `appendReason`
unfoldable pub append_reason : List Str → Str → Str → List Str
unfolding add_parts split
append_reason reasons reason source = add_parts reasons (split b'+' (reason_or reason source))

module _ {F : Type 0} where
  -- `Key`
  unfoldable pub hit_key : Hit F → Str
  unfolding decimal_on
  hit_key h = h.repo_id ++ b':' ∷ h.file_path ++ b':' ∷ decimal h.line ++ b':' ∷ decimal h.end_line

  abbrev pub has_source : Str → Cluster F → Bool
  has_source source c = any (str_eq source) c.sources

  -- the cluster takes a hit in
  unfoldable pub join_cluster : Scoring F → Str → ℕ → Hit F → Cluster F → Cluster F
  unfolding append_reason str_eq
  join_cluster s source rank h c = record {
    made_by = c.made_by;
    made_in = c.made_in;
    best_hit = if ltb rank c.best_rank then h else c.best_hit;
    total = s.add_score c.total (s.contribute source rank h);
    best_rank = if ltb rank c.best_rank then rank else c.best_rank;
    sources = if has_source source c then c.sources else c.sources ++ source ∷ [];
    reasons = append_reason c.reasons h.reason source;
  }

  unfoldable pub new_cluster : Scoring F → Str → ℕ → Hit F → Cluster F
  unfolding hit_key append_reason
  new_cluster s source rank h = record {
    made_by = hit_key h;
    made_in = file_key h;
    best_hit = h;
    total = s.add_score s.no_score (s.contribute source rank h);
    best_rank = rank;
    sources = source ∷ [];
    reasons = append_reason [] h.reason source;
  }

  abbrev pub put_before : Cluster F → Option (List (Cluster F)) → Option (List (Cluster F))
  put_before c none = none
  put_before c (some cs) = some (c ∷ cs)

  -- the first cluster that a test accepts takes the hit in
  unfoldable pub join_first :
      (Cluster F → Bool) → (Cluster F → Cluster F) → List (Cluster F) → Option (List (Cluster F))
  join_first p f [] = none
  join_first p f (c ∷ cs) =
      let rest = join_first p f cs in if p c then some (f c ∷ cs) else put_before c rest

  abbrev pub same_place : Str → Hit F → Cluster F → Bool
  same_place source h c =
      str_eq c.made_in (file_key h) && not (has_source source c) && overlaps c.best_hit h

  abbrev pub or_join : Option (List (Cluster F)) → List (Cluster F) → List (Cluster F)
  or_join none cs = cs
  or_join (some cs') cs = cs'

  unfoldable pub add_hit : Scoring F → Str → ℕ → Hit F → List (Cluster F) → List (Cluster F)
  unfolding join_first join_cluster new_cluster hit_key str_eq
  add_hit s source rank h cs =
      let take_in = join_cluster s source rank h in
      or_join (join_first (λ c. str_eq c.made_by (hit_key h)) take_in cs) (
        or_join (join_first (same_place source h) take_in cs)
          (cs ++ new_cluster s source rank h ∷ []))

  -- the hits of one searcher, from a rank on
  unfoldable pub add_hits :
      Scoring F → Str → ℕ → List (Option (Hit F)) → List (Cluster F) → List (Cluster F)
  unfolding add_hit
  add_hits s source rank [] cs = cs
  add_hits s source rank (none ∷ hs) cs = add_hits s source (suc rank) hs cs
  add_hits s source rank (some h ∷ hs) cs =
      add_hits s source (suc rank) hs (add_hit s source rank h cs)

  unfoldable pub add_results :
      Scoring F → List (Str × List (Option (Hit F))) → List (Cluster F) → List (Cluster F)
  unfolding add_hits
  add_results s [] cs = cs
  add_results s ((source, hs) ∷ rs) cs = add_results s rs (add_hits s source 0 hs cs)

  -- the copy of a cluster's hit
  unfoldable pub fused_hit : Cluster F → Hit F
  unfolding join_with
  fused_hit c = record c.best_hit { score = c.total; reason = join_with (codes "+") c.reasons }

  -- the comparison of `sortHits`
  unfoldable pub hit_before : (F → F → Bool) → Hit F → Hit F → Bool
  unfolding str_eq str_ltb
  hit_before higher a b =
      if higher a.score b.score || higher b.score a.score
      then higher a.score b.score
      else if not (str_eq a.repo_id b.repo_id)
      then str_ltb a.repo_id b.repo_id
      else if not (str_eq a.file_path b.file_path)
      then str_ltb a.file_path b.file_path
      else ltb a.line b.line

  -- `fuseBy`. Hits that `sortHits` cannot separate keep their order here.
  unfoldable pub fuse_by : Scoring F → List (Str × List (Option (Hit F))) → List (Hit F)
  unfolding add_results fused_hit hit_before sort_by
  fuse_by s results = sort_by (hit_before s.higher) (map fused_hit (add_results s results []))
