-- ===== src/Search/Fuse/Origin.antt =====
-- Where the hits of `fuseBy` in internal/search/hybrid.go come from.

use ragota.Base.{
  All, All-append, All-map, Bool, Bool-cases, List, Option, [], inl, inr, ltb, none, some, suc, ℕ,
  ◌∷◌,
}
use ragota.Base.Sort.{sort_by-All}
use ragota.Base.Text.{Str}
use ragota.Search.Fuse.{
  Cluster, Scoring, add_hit, add_hits, add_results, fuse_by, fused_hit, hit_before, join_cluster,
  join_first, new_cluster, or_join, put_before,
}
use ragota.Search.Hit.{Hit}
use ragota.Search.Rank.{rank}

module _ {F : Type 0} (P : Hit F → Type 0) (x : F) where
  -- a hit without what the fusion writes
  abbrev pub unfused : Hit F → Hit F
  unfused h = record h { score = x; reason = [] }

  abbrev pub HasOrigin : Option (Hit F) → Type 0
  HasOrigin none = Unit
  HasOrigin (some h) = P (unfused h)

  abbrev pub FromHits : List (Cluster F) → Type 0
  FromHits cs = All (λ c. P (unfused c.best_hit)) cs

  Joined : Option (List (Cluster F)) → Type 0
  Joined none = Unit
  Joined (some cs) = FromHits cs

  Joined-put_before :
      (c : Cluster F) (o : Option (List (Cluster F)))
      → P (unfused c.best_hit)
      → Joined o
      → Joined (put_before c o)
  unfolding Joined
  Joined-put_before c none p h = tt
  Joined-put_before c (some cs) p h = (p, h)

  join_cluster-origin :
      (s : Scoring F) (source : Str) (rank : ℕ) (h : Hit F) (c : Cluster F)
      → P (unfused h)
      → P (unfused c.best_hit)
      → P (unfused (join_cluster s source rank h c).best_hit)
  unfolding join_cluster
  join_cluster-origin s source rank h c p k = elim (Bool-cases (ltb rank c.best_rank)) [
    | inl e ↦ rw (e, join_cluster) p
    | inr e ↦ rw (e, join_cluster) k
  ]

  join_first-Joined :
      (p : Cluster F → Bool) (s : Scoring F) (source : Str) (rank : ℕ) (h : Hit F)
      (cs : List (Cluster F))
      → P (unfused h)
      → FromHits cs
      → Joined (join_first p (join_cluster s source rank h) cs)
  unfolding join_first Joined
  join_first-Joined p s source rank h [] o k = tt
  join_first-Joined p s source rank h (c ∷ cs) o k = elim (Bool-cases (p c)) [
    | inl e ↦ rw (e, join_first) (join_cluster-origin s source rank h c o k.0, k.1)
    | inr e ↦
        rw (e, join_first)
          (Joined-put_before c _ k.0 (join_first-Joined p s source rank h cs o k.1))
  ]

  or_join-FromHits :
      (o : Option (List (Cluster F))) (cs : List (Cluster F))
      → Joined o
      → FromHits cs
      → FromHits (or_join o cs)
  unfolding Joined
  or_join-FromHits none cs h k = k
  or_join-FromHits (some cs') cs h k = h

  add_hit-FromHits :
      (s : Scoring F) (source : Str) (rank : ℕ) (h : Hit F) (cs : List (Cluster F))
      → P (unfused h)
      → FromHits cs
      → FromHits (add_hit s source rank h cs)
  unfolding add_hit new_cluster
  add_hit-FromHits s source rank h cs o k =
      or_join-FromHits _ _ (join_first-Joined _ s source rank h cs o k) (
        or_join-FromHits _ _ (join_first-Joined _ s source rank h cs o k)
          (All-append _ cs (new_cluster s source rank h ∷ []) k (o, tt)))

  add_hits-FromHits :
      (s : Scoring F) (source : Str) (rank : ℕ) (hs : List (Option (Hit F))) (cs : List (Cluster F))
      → All HasOrigin hs
      → FromHits cs
      → FromHits (add_hits s source rank hs cs)
  unfolding add_hits
  add_hits-FromHits s source rank [] cs o k = k
  add_hits-FromHits s source rank (none ∷ hs) cs o k =
      add_hits-FromHits s source (suc rank) hs cs o.1 k
  add_hits-FromHits s source rank (some h ∷ hs) cs o k =
      add_hits-FromHits s source (suc rank) hs (add_hit s source rank h cs) o.1
        (add_hit-FromHits s source rank h cs o.0 k)

  add_results-FromHits :
      (s : Scoring F) (rs : List (Str × List (Option (Hit F)))) (cs : List (Cluster F))
      → All (λ r. All HasOrigin r.1) rs
      → FromHits cs
      → FromHits (add_results s rs cs)
  unfolding add_results
  add_results-FromHits s [] cs o k = k
  add_results-FromHits s ((source, hs) ∷ rs) cs o k =
      add_results-FromHits s rs (add_hits s source 0 hs cs) o.1
        (add_hits-FromHits s source 0 hs cs o.0 k)

  -- Fusion invents no hit: what holds of every hit of every searcher, whatever their scores and
  -- reasons, holds of every hit that `fuseBy` returns.
  pub fuse_by-All :
      (s : Scoring F) (results : List (Str × List (Option (Hit F))))
      → All (λ r. All HasOrigin r.1) results
      → All (λ h. P (unfused h)) (fuse_by s results)
  unfolding fuse_by fused_hit
  fuse_by-All s results o =
      sort_by-All (hit_before s.higher) (λ h. P (unfused h)) _
        (All-map (λ h. P (unfused h)) fused_hit (add_results s results [])
          (add_results-FromHits s results [] o tt))
