-- ===== src/Linker/Route/Best.antt =====
-- The order of the candidates of an HTTP call in internal/graph/linker.go.

-- a better match, or as good a match in another repository
use ragota.Base.{
  Bool, Option, arith, false, length, ltb, none, not, some, true, ◌&&◌, ◌==◌, ◌||◌, ◌≡◌,
}
use ragota.Base.Sort.{Sorted, sort_by-Sorted_by}
use ragota.Base.Text.{Str}
use ragota.Contract.Keys.{parse_http}
use ragota.Linker.Route.{
  RouteIndex, ScoredRoute, candidates_of, route_before, route_candidates, scored, split_path,
}

unfoldable pub is_better : ScoredRoute → ScoredRoute → Bool
is_better a b =
    ltb b.match_score a.match_score
    || (a.match_score == b.match_score && not a.same_repo && b.same_repo)

is_better-not_less_trans :
    (x y z : ScoredRoute) → is_better y x ≡ false → is_better z y ≡ false → is_better z x ≡ false
unfolding is_better
is_better-not_less_trans x y z h k = ground arith

-- the comparison puts no worse route first
route_before-is_better : (x y : ScoredRoute) → route_before y x ≡ true → is_better x y ≡ false
unfolding route_before is_better
route_before-is_better x y h = ground arith

route_before-not_better : (x y : ScoredRoute) → route_before y x ≡ false → is_better y x ≡ false
unfolding route_before is_better
route_before-not_better x y h = ground arith

candidates_of-Sorted :
    (idx : RouteIndex) (key : Option (Str × Str)) (src : Str)
    → Sorted is_better (candidates_of idx key src)
unfolding candidates_of Sorted
candidates_of-Sorted idx none src = tt
candidates_of-Sorted idx (some (method, path)) src =
    sort_by-Sorted_by route_before is_better route_before-is_better route_before-not_better
      is_better-not_less_trans
      (scored method (split_path path) src (idx (length (split_path path))))

-- No candidate of an HTTP call comes before a better match, nor a candidate of the caller's own
-- repository before one of another repository that matches as well.
pub route_candidates-Sorted :
    (idx : RouteIndex) (key src : Str) → Sorted is_better (route_candidates idx key src)
unfolding route_candidates
route_candidates-Sorted idx key src = candidates_of-Sorted idx (parse_http key) src
