-- ===== src/Linker/Route/Exact.antt =====
-- The candidates of an HTTP call in internal/graph/linker.go against a scan of all the routes.

-- the routes among the units
use ragota.Base.{
  Bool-cases, List, Option, [], ap, append-nil, append_assoc, arith, false, if◌then◌else◌, inl, inr,
  length, none, refl, some, sym, ℕ, ◌*◌, ◌++◌, ◌==◌, ◌∙◌, ◌∷◌, ◌≡◌,
}
use ragota.Base.Sort.{sort_by}
use ragota.Base.Text.{Str}
use ragota.Contract.Keys.{parse_http}
use ragota.Linker.Route.{
  IndexedRoute, RouteIndex, ScoredRoute, add_entries, add_to_bucket, build_route_index,
  candidates_of, entries_of, index_routes, method_score, route_before, route_candidates,
  route_match_score_segs, scored, segs_score, split_path,
}
use ragota.Linker.Unit.{AstUnit}
use ragota.WatchBudget.Steps.{call}

unfoldable pub all_routes : List AstUnit → List IndexedRoute
unfolding entries_of parse_http
all_routes [] = []
all_routes (u ∷ us) = entries_of u (parse_http u.qualified) ++ all_routes us

at_count : ℕ → List IndexedRoute → List IndexedRoute
at_count n [] = []
at_count n (r ∷ rs) = let rest = at_count n rs in if n == length r.segs then r ∷ rest else rest

at_count-append :
    (n : ℕ) (rs ts : List IndexedRoute) → at_count n (rs ++ ts) ≡ at_count n rs ++ at_count n ts
unfolding at_count
at_count-append n [] ts = refl
at_count-append n (r ∷ rs) ts = ground (arith, at_count-append n rs ts)

add_entries-at :
    (rs : List IndexedRoute) (idx : RouteIndex) (n : ℕ)
    → add_entries rs idx n ≡ idx n ++ at_count n rs
unfolding at_count
add_entries-at [] idx n = sym (append-nil (idx n))
add_entries-at (r ∷ rs) idx n =
    add_entries-at rs (add_to_bucket r idx) n ∙ (elim (Bool-cases (n == length r.segs)) [
      | inl e ↦ rw e (append_assoc (idx n) (r ∷ []) (at_count n rs))
      | inr e ↦ rw e refl
    ])

index_routes-at :
    (us : List AstUnit) (idx : RouteIndex) (n : ℕ)
    → index_routes us idx n ≡ idx n ++ at_count n (all_routes us)
unfolding index_routes all_routes at_count
index_routes-at [] idx n = sym (append-nil (idx n))
index_routes-at (u ∷ us) idx n =
    let rs = entries_of u (parse_http u.qualified) in
    index_routes-at us (add_entries rs idx) n
    ∙ ap (λ l. l ++ at_count n (all_routes us)) (add_entries-at rs idx n)
    ∙ append_assoc (idx n) (at_count n rs) (at_count n (all_routes us))
    ∙ ap (λ l. idx n ++ l) (sym (at_count-append n rs (all_routes us)))

-- another number of segments is no match
segs_score-length : (cs rs : List Str) → (length cs == length rs) ≡ false → segs_score cs rs ≡ 0
unfolding segs_score
segs_score-length [] [] h = ground arith
segs_score-length [] (r ∷ rs) h = refl
segs_score-length (c ∷ cs) [] h = refl
segs_score-length (c ∷ cs) (r ∷ rs) h = ground (arith, segs_score-length cs rs)

route_match_score_segs-length :
    (call : Str) (cs : List Str) (own : Str) (rs : List Str)
    → (length cs == length rs) ≡ false
    → route_match_score_segs call cs own rs ≡ 0
unfolding route_match_score_segs
route_match_score_segs-length call cs own rs h =
    ap (λ x. 95 * (method_score call own * x)) (segs_score-length cs rs h) ∙ omega arith

scored-at_count :
    (method : Str) (segs : List Str) (src : Str) (rs : List IndexedRoute)
    → scored method segs src (at_count (length segs) rs) ≡ scored method segs src rs
unfolding scored at_count
scored-at_count method segs src [] = refl
scored-at_count method segs src (r ∷ rs) =
    let rest = scored-at_count method segs src rs in
    elim (Bool-cases (length segs == length r.segs)) [
      | inl e ↦ rw e (rw rest refl)
      | inr e ↦ rw (e, route_match_score_segs-length method segs r.http_method r.segs e) rest
    ]

-- the candidates by a scan of all the routes
abbrev pub scan_candidates : List AstUnit → Option (Str × Str) → Str → List ScoredRoute
unfolding split_path scored sort_by route_before all_routes
scan_candidates us none src = []
scan_candidates us (some (method, path)) src =
    sort_by route_before (scored method (split_path path) src (all_routes us))

candidates_of-build_route_index :
    (us : List AstUnit) (key : Option (Str × Str)) (src : Str)
    → candidates_of (build_route_index us) key src ≡ scan_candidates us key src
unfolding candidates_of build_route_index scan_candidates
candidates_of-build_route_index us none src = refl
candidates_of-build_route_index us (some (method, path)) src =
    let segs = split_path path in
    ap (λ rs. sort_by route_before (scored method segs src rs))
      (index_routes-at us (λ n. []) (length segs))
    ∙ ap (sort_by route_before) (scored-at_count method segs src (all_routes us))

-- The index of routes by their number of segments gives the candidates that a scan of all the
-- routes gives, in the same order.
pub route_candidates_lem :
    (us : List AstUnit) (key src : Str)
    → route_candidates (build_route_index us) key src ≡ scan_candidates us (parse_http key) src
unfolding route_candidates
route_candidates_lem us key src = candidates_of-build_route_index us (parse_http key) src
