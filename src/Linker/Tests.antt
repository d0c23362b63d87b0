-- ===== src/Linker/Tests.antt =====
-- The theorems of the linker on two config keys.

use ragota.Base.{List, [], refl, true, ◌++◌, ◌∷◌, ◌≡◌}
use ragota.Base.Text.{Str, codes, cut_prefix, fields_from, fields_func, str_eq, to_lower}
use ragota.Contract.Ident.{
  components_from, concat, ident_tokens, is_word_byte, keep_nonempty, split_components,
  token_components, word_components,
}
use ragota.Contract.Keys.{name, trim_kind}
use ragota.Linker.Config.{
  add_key, best_key, build_config_index, config_match_tier, has_component_suffix, index_keys,
  indexed, last_part, list_eq, match_config_key, match_config_key_indexed, match_parts_in,
}
use ragota.Linker.Config.Exact.{match_config_key_lem, scan_keys}
use ragota.Linker.Rpc.{build_rpc_index, rpc_candidates}
use ragota.Linker.Rpc.Unique.{one_if_sure, rpc_candidates_lem, scan_rpcs}
use ragota.Linker.Unit.{AstUnit, append_at, slice_at, str_ltb}

abbrev key_unit : Str → Str → Str → AstUnit
key_unit repo name value = record {
  unit_id = codes "u";
  repo_id = repo;
  file_path = codes "app.yml";
  unit_kind = codes "config_key";
  unit_name = name;
  qualified = codes "config:kafka." ++ name;
  signature = value;
  start_line = 1;
  end_line = 2;
  start_byte = 0;
}

abbrev two_keys : List AstUnit
two_keys =
    key_unit (codes "a") (codes "orders-topic") (codes "orders.v1")
    ∷ key_unit (codes "b") (codes "topic") (codes "other")
    ∷ []

match_config_key_lem_example :
    match_config_key two_keys (codes "ORDERS_TOPIC") (codes "b")
    ≡ scan_keys two_keys (codes "ORDERS_TOPIC") (codes "b") (word_components (codes "ORDERS_TOPIC"))
match_config_key_lem_example = match_config_key_lem two_keys (codes "ORDERS_TOPIC") (codes "b")

finds_orders : match_config_key two_keys (codes "ORDERS_TOPIC") (codes "b") ≡ codes "orders.v1"
unfolding match_config_key match_config_key_indexed match_parts_in build_config_index index_keys
    add_key indexed append_at slice_at last_part best_key config_match_tier has_component_suffix
    list_eq str_eq str_ltb word_components token_components keep_nonempty concat split_components
    components_from ident_tokens fields_func fields_from is_word_byte to_lower trim_kind cut_prefix
finds_orders = refl

abbrev rpc_unit : Str → AstUnit
rpc_unit key = record {
  unit_id = codes "u";
  repo_id = codes "a";
  file_path = codes "o.proto";
  unit_kind = codes "rpc_method";
  unit_name = codes "Get";
  qualified = key;
  signature = [];
  start_line = 1;
  end_line = 2;
  start_byte = 0;
}

abbrev two_rpcs : List AstUnit
two_rpcs = rpc_unit (codes "grpc:o.v1.Orders/Get") ∷ rpc_unit (codes "grpc:o.v2.Orders/Get") ∷ []

rpc_candidates_lem_example :
    (rpc_candidates (build_rpc_index two_rpcs) (codes "grpc:Orders/Get")
      ≡ scan_rpcs two_rpcs (codes "grpc:Orders/Get"))
    × (one_if_sure (rpc_candidates (build_rpc_index two_rpcs) (codes "grpc:Orders/Get")) ≡ true)
rpc_candidates_lem_example = rpc_candidates_lem two_rpcs (codes "grpc:Orders/Get")

abbrev method_unit : Str → AstUnit
method_unit key = record {
  unit_id = codes "u";
  repo_id = codes "a";
  file_path = codes "repo.go";
  unit_kind = codes "method";
  unit_name = codes "Save";
  qualified = key;
  signature = [];
  start_line = 1;
  end_line = 2;
  start_byte = 0;
}

abbrev two_saves : List AstUnit
two_saves = method_unit (codes "UserRepo.Save") ∷ method_unit (codes "OrderRepo.Save") ∷ []
