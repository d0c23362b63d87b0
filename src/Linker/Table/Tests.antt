-- ===== src/Linker/Table/Tests.antt =====
-- Runs of the table matching of internal/graph/linker.go, and an instance of its theorem.

use ragota.Base.{List, [], map, refl, true, ◌∷◌, ◌≡◌}
use ragota.Base.Text.{
  Str, codes, cut_last, cut_prefix, fields_from, fields_func, has_prefix, join, str_eq, to_lower,
  trim, trim_left, trim_prefix, trim_right,
}
use ragota.Contract.Ident.{
  components_from, concat, ident_tokens, is_word_byte, keep_nonempty, split_components,
  token_components, word_components,
}
use ragota.Contract.Keys.{db_key, is_kind, parse_db}
use ragota.Contract.Table.{bare_name, plural, table_name}
use ragota.Linker.Rpc.{Confidence, conf_cross_file, conf_exact, sort_units}
use ragota.Linker.Table.{
  add_table, append_opt, bare_key, build_table_index, entity_key, group_answer, index_tables,
  keep_where, name_key, name_key_of, repo_tier, signature_entity, table_candidates, table_tiers,
  unless_same,
}
use ragota.Linker.Table.Sure.{scan_tables, sure_table, table_candidates_lem}
use ragota.Linker.Unit.{AstUnit, append_at, slice_at}

abbrev table_unit : Str → Str → Str → AstUnit
table_unit repo key sig = record {
  unit_id = key;
  repo_id = repo;
  file_path = codes "schema.sql";
  unit_kind = codes "db_table";
  unit_name = key;
  qualified = key;
  signature = sig;
  start_line = 1;
  end_line = 2;
  start_byte = 0;
}

abbrev shop_tables : List AstUnit
shop_tables =
    table_unit (codes "shop") (codes "db:users") []
    ∷ table_unit (codes "crm") (codes "db:analytics.orders") []
    ∷ table_unit (codes "shop") (codes "db:catalog") (codes "entity: Item")
    ∷ []

abbrev found : List AstUnit × Confidence → List Str × Confidence
found (us, conf) = (map (λ u. u.qualified) us, conf)

-- by its key, by its bare name in another repository, and by its entity
table_candidates-shop_tables :
    (found (table_candidates (build_table_index shop_tables) (codes "db:users") (codes "shop"))
      ≡ (codes "db:users" ∷ [], conf_exact))
    × (found (table_candidates (build_table_index shop_tables) (codes "db:orders") (codes "shop"))
        ≡ (codes "db:analytics.orders" ∷ [], conf_cross_file))
    × (found (table_candidates (build_table_index shop_tables) (codes "db:items") (codes "shop"))
        ≡ (codes "db:catalog" ∷ [], conf_cross_file))
unfolding table_candidates build_table_index index_tables add_table append_at append_opt name_key
    name_key_of bare_key cut_last parse_db cut_prefix db_key entity_key signature_entity unless_same
    table_name bare_name plural word_components token_components keep_nonempty concat
    split_components components_from ident_tokens fields_func fields_from is_word_byte to_lower
    has_prefix trim_prefix trim trim_left trim_right join is_kind table_tiers repo_tier keep_where
    group_answer sort_units slice_at str_eq
table_candidates-shop_tables = (refl, refl, refl)

table_candidates_lem_example :
    (table_candidates (build_table_index shop_tables) (codes "db:users") (codes "shop")
      ≡ scan_tables shop_tables (codes "db:users") (codes "shop"))
    × (sure_table
          (codes "db:users")
          (codes "shop")
          (table_candidates (build_table_index shop_tables) (codes "db:users") (codes "shop"))
        ≡ true)
table_candidates_lem_example = table_candidates_lem shop_tables (codes "db:users") (codes "shop")
