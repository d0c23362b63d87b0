-- ===== src/Linker/Route.antt =====
-- internal/graph/linker.go: the routes that an HTTP call may mean, and their order. The source
-- multiplies float32 factors; here a factor counts hundredths, so the scores of routes with n
-- segments are exact, in parts of 100 ^ (n + 2).
pub mod Exact
pub mod Best
mod Tests
use ragota.Base.{
  Bool, List, Option, [], false, if◌then◌else◌, length, ltb, none, not, some, true, ℕ, ◌*◌, ◌++◌,
  ◌==◌, ◌||◌, ◌∷◌,
}
use ragota.Base.Sort.{sort_by}
use ragota.Base.Text.{Str, codes, split, str_eq, to_lower, trim}
use ragota.Contract.Keys.{parse_http}
use ragota.Contract.Reduce.{is_path_param}
use ragota.Linker.Rpc.{before_in_file}
use ragota.Linker.Unit.{AstUnit, str_ltb}
use ragota.WatchBudget.Steps.{call}

pub record IndexedRoute : Type 0 where
  pub route : AstUnit
  pub http_method : Str
  pub segs : List Str

-- a Go map from numbers of segments
abbrev pub RouteIndex : Type 0
RouteIndex = ℕ → List IndexedRoute

unfoldable pub parts_of : Str → List Str
unfolding split
parts_of [] = []
parts_of (b ∷ p) = split b'/' (b ∷ p)

-- `splitPath`
unfoldable pub split_path : Str → List Str
unfolding trim parts_of
split_path p = parts_of (trim (λ b. b == b'/') p)

abbrev pub add_to_bucket : IndexedRoute → RouteIndex → RouteIndex
add_to_bucket r idx n = if n == length r.segs then idx n ++ r ∷ [] else idx n

-- the entry of a unit whose key is that of a route
unfoldable pub entries_of : AstUnit → Option (Str × Str) → List IndexedRoute
unfolding split_path
entries_of u none = []
entries_of u (some (method, path)) =
    record { route = u; http_method = method; segs = split_path path } ∷ []

abbrev pub add_entries : List IndexedRoute → RouteIndex → RouteIndex
add_entries [] idx = idx
add_entries (r ∷ rs) idx = add_entries rs (add_to_bucket r idx)

unfoldable pub index_routes : List AstUnit → RouteIndex → RouteIndex
unfolding entries_of parse_http
index_routes [] idx = idx
index_routes (u ∷ us) idx =
    index_routes us (add_entries (entries_of u (parse_http u.qualified)) idx)

-- `buildRouteIndex`
unfoldable pub build_route_index : List AstUnit → RouteIndex
unfolding index_routes
build_route_index us = index_routes us (λ n. [])

abbrev pub any_method : Str
any_method = codes "ANY"

unfoldable pub method_score : Str → Str → ℕ
unfolding str_eq
method_score call own =
    if str_eq call own
    then 100
    else (if str_eq call any_method || str_eq own any_method then 80 else 0)

-- `strings.EqualFold`
unfoldable pub equal_fold : Str → Str → Bool
unfolding str_eq to_lower
equal_fold s t = str_eq (to_lower s) (to_lower t)

-- the loop over the segments, with the check of their number
unfoldable pub segs_score : List Str → List Str → ℕ
unfolding is_path_param equal_fold
segs_score [] [] = 1
segs_score [] (r ∷ rs) = 0
segs_score (c ∷ cs) [] = 0
segs_score (c ∷ cs) (r ∷ rs) =
    let rest = segs_score cs rs in
    if equal_fold c r
    then 100 * rest
    else (if is_path_param r || is_path_param c then 95 * rest else 0)

-- `routeMatchScoreSegs`
unfoldable pub route_match_score_segs : Str → List Str → Str → List Str → ℕ
unfolding segs_score method_score
route_match_score_segs call_method call_segs route_method route_segs =
    95 * (method_score call_method route_method * segs_score call_segs route_segs)

-- `routeMatchScore`
unfoldable pub route_match_score : Str → Str → Str → Str → ℕ
unfolding route_match_score_segs split_path
route_match_score call_method call_path route_method route_path =
    route_match_score_segs call_method (split_path call_path) route_method (split_path route_path)

pub record ScoredRoute : Type 0 where
  pub candidate : AstUnit
  pub match_score : ℕ
  pub same_repo : Bool

unfoldable pub scored : Str → List Str → Str → List IndexedRoute → List ScoredRoute
unfolding route_match_score_segs str_eq
scored method segs src [] = []
scored method segs src (r ∷ rs) =
    let rest = scored method segs src rs in
    let s = route_match_score_segs method segs r.http_method r.segs in
    if ltb 0 s
    then record { candidate = r.route; match_score = s; same_repo = str_eq r.route.repo_id src }
      ∷ rest
    else rest

abbrev pub differ : Bool → Bool → Bool
differ true b = not b
differ false b = b

-- the comparison of `routeCandidates` where score and kind of repository are the same
unfoldable pub tie_before : AstUnit → AstUnit → Bool
unfolding before_in_file str_eq str_ltb
tie_before a b =
    if not (str_eq a.repo_id b.repo_id)
    then str_ltb a.repo_id b.repo_id
    else if not (str_eq a.file_path b.file_path)
    then str_ltb a.file_path b.file_path
    else before_in_file a b

-- the comparison of `routeCandidates`
unfoldable pub route_before : ScoredRoute → ScoredRoute → Bool
unfolding tie_before
route_before a b =
    if not (a.match_score == b.match_score)
    then ltb b.match_score a.match_score
    else if differ a.same_repo b.same_repo
    then not a.same_repo
    else tie_before a.candidate b.candidate

unfoldable pub candidates_of : RouteIndex → Option (Str × Str) → Str → List ScoredRoute
unfolding split_path scored sort_by route_before
candidates_of idx none src = []
candidates_of idx (some (method, path)) src =
    let segs = split_path path in sort_by route_before (scored method segs src (idx (length segs)))

-- `routeCandidates`. Routes that the comparison cannot separate keep their order here.
unfoldable pub route_candidates : RouteIndex → Str → Str → List ScoredRoute
unfolding parse_http candidates_of
route_candidates idx key src = candidates_of idx (parse_http key) src

abbrev pub best_route : List ScoredRoute → Option (AstUnit × ℕ)
best_route [] = none
best_route (c ∷ cs) = some (c.candidate, c.match_score)

-- `matchRoute`, through `matchRouteIndexed`
unfoldable pub match_route : List AstUnit → Str → Str → Option (AstUnit × ℕ)
unfolding route_candidates build_route_index
match_route us key src = best_route (route_candidates (build_route_index us) key src)
