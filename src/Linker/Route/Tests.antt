-- ===== src/Linker/Route/Tests.antt =====
-- Runs of the route matching of internal/graph/linker.go, and instances of its theorems.

use ragota.Base.{Bool, List, [], false, refl, true, ℕ, ◌∷◌, ◌≡◌}
use ragota.Base.Sort.{Sorted, insert_by, sort_by}
use ragota.Base.Text.{
  Str, codes, cut, cut_prefix, split, str_eq, to_lower, trim, trim_left, trim_right,
}
use ragota.Contract.Keys.{parse_http}
use ragota.Contract.Reduce.{is_path_param, trim_query}
use ragota.Linker.Route.{
  ScoredRoute, build_route_index, candidates_of, entries_of, equal_fold, index_routes, method_score,
  parts_of, route_before, route_candidates, route_match_score_segs, scored, segs_score, split_path,
  tie_before,
}
use ragota.Linker.Route.Best.{is_better, route_candidates-Sorted}
use ragota.Linker.Route.Exact.{route_candidates_lem, scan_candidates}
use ragota.Linker.Rpc.{before_in_file}
use ragota.Linker.Unit.{AstUnit, str_ltb}

abbrev route_unit : Str → Str → AstUnit
route_unit repo key = record {
  unit_id = key;
  repo_id = repo;
  file_path = codes "api.go";
  unit_kind = codes "http_route";
  unit_name = key;
  qualified = key;
  signature = [];
  start_line = 1;
  end_line = 2;
  start_byte = 0;
}

-- the literal route of the caller's repository, and templates of others
abbrev shop_routes : List AstUnit
shop_routes =
    route_unit (codes "shop") (codes "http:GET /orders/{id}")
    ∷ route_unit (codes "orders") (codes "http:GET /orders/{id}")
    ∷ route_unit (codes "orders") (codes "http:GET /orders/{id}/items")
    ∷ route_unit (codes "shop") (codes "http:GET /orders/open")
    ∷ []

abbrev summary : List ScoredRoute → List (ℕ × Bool)
summary [] = []
summary (c ∷ cs) = (c.match_score, c.same_repo) ∷ summary cs

route_candidates-shop_routes :
    summary (
      route_candidates
        (build_route_index shop_routes)
        (codes "http:GET /orders/open")
        (codes "shop"))
    ≡ (95000000, true) ∷ (90250000, false) ∷ (90250000, true) ∷ []
unfolding route_candidates candidates_of build_route_index index_routes entries_of split_path
    parts_of parse_http cut_prefix cut trim_query trim trim_left trim_right split scored
    route_match_score_segs segs_score method_score equal_fold str_eq to_lower is_path_param sort_by
    insert_by route_before tie_before before_in_file str_ltb
route_candidates-shop_routes = refl

route_candidates_lem_example :
    route_candidates (build_route_index shop_routes) (codes "http:GET /orders/open") (codes "shop")
    ≡ scan_candidates shop_routes (parse_http (codes "http:GET /orders/open")) (codes "shop")
route_candidates_lem_example =
    route_candidates_lem shop_routes (codes "http:GET /orders/open") (codes "shop")

route_candidates-Sorted_example : Sorted is_better (
    route_candidates (build_route_index shop_routes) (codes "http:GET /orders/open") (codes "shop"))
route_candidates-Sorted_example =
    route_candidates-Sorted (build_route_index shop_routes) (codes "http:GET /orders/open")
      (codes "shop")
