-- ===== src/Linker/Table.antt =====
-- internal/graph/linker.go: the tables that a database key may mean, by tiers.
pub mod Sure
mod Tests
use ragota.Base.{Bool, List, Option, [], if◌then◌else◌, none, not, some, true, ◌∷◌}
use ragota.Base.Text.{
  Str, codes, cut_last, has_byte, has_prefix, str_eq, trim, trim_prefix, trim_space,
}
use ragota.Contract.Keys.{db, db_key, is_kind, parse_db}
use ragota.Contract.Table.{table_name}
use ragota.Linker.Rpc.{
  Confidence, conf_cross_file, conf_exact, conf_heuristic, conf_high, conf_none, conf_weak,
  first_with, sort_units,
}
use ragota.Linker.Unit.{AstUnit, append_at, slice_at}

pub record TableIndex : Type 0 where
  pub by_key : List (Str × List AstUnit)
  pub by_name : List (Str × List AstUnit)
  pub by_entity : List (Str × List AstUnit)

abbrev pub entity_sig_prefix : Str
entity_sig_prefix = codes "entity:"

-- `signatureEntity`
unfoldable pub signature_entity : Str → Str
unfolding has_prefix trim trim_prefix
signature_entity sig =
    if has_prefix sig entity_sig_prefix then trim_space (trim_prefix sig entity_sig_prefix) else []

unfoldable pub unless_same : Str → Str → Option Str
unfolding str_eq
unless_same key own = if str_eq key own then none else some key

-- the key of an entity that is not the key of its table
unfoldable pub entity_key : Str → Str → Option Str
unfolding table_name db_key unless_same
entity_key [] own = none
entity_key (b ∷ entity) own = unless_same (db_key (table_name (b ∷ entity))) own

unfoldable pub bare_key : Option (Str × Str) → Option Str
unfolding db_key
bare_key none = none
bare_key (some (schema, table)) = some (db_key table)

unfoldable pub name_key_of : Option Str → Option Str
unfolding cut_last bare_key
name_key_of none = none
name_key_of (some table) = bare_key (cut_last b'.' table)

-- the key of the bare name of a table with a schema
unfoldable pub name_key : Str → Option Str
unfolding parse_db name_key_of
name_key own = name_key_of (parse_db own)

unfoldable pub append_opt :
    Option Str → AstUnit → List (Str × List AstUnit) → List (Str × List AstUnit)
unfolding append_at
append_opt none u m = m
append_opt (some k) u m = append_at k u m

unfoldable pub add_table : AstUnit → TableIndex → TableIndex
unfolding append_at append_opt entity_key signature_entity name_key
add_table u idx = record {
  by_key = append_at u.qualified u idx.by_key;
  by_name = append_opt (name_key u.qualified) u idx.by_name;
  by_entity = append_opt (entity_key (signature_entity u.signature) u.qualified) u idx.by_entity;
}

unfoldable pub index_tables : List AstUnit → TableIndex → TableIndex
unfolding add_table
index_tables [] idx = idx
index_tables (u ∷ us) idx = index_tables us (add_table u idx)

-- `buildTableIndex`
unfoldable pub build_table_index : List AstUnit → TableIndex
unfolding index_tables
build_table_index us = index_tables us record { by_key = []; by_name = []; by_entity = [] }

-- `weakerTier`
abbrev pub weaker_tier : Confidence → Confidence
weaker_tier conf_exact = conf_high
weaker_tier conf_high = conf_cross_file
weaker_tier conf_cross_file = conf_heuristic
weaker_tier _ = conf_weak

unfoldable pub keep_where : (AstUnit → Bool) → List AstUnit → List AstUnit
keep_where p [] = []
keep_where p (u ∷ us) = let rest = keep_where p us in if p u then u ∷ rest else rest

-- a group of a tier, or what follows it
unfoldable pub group_answer :
    List AstUnit → Confidence → List AstUnit × Confidence → List AstUnit × Confidence
unfolding sort_units
group_answer [] conf later = later
group_answer (u ∷ []) conf later = (u ∷ [], conf)
group_answer (u ∷ v ∷ us) conf later = (sort_units (u ∷ v ∷ us), weaker_tier conf)

-- the units of the caller's repository go before the others
unfoldable pub repo_tier :
    Str
    → List AstUnit
    → Confidence
    → Confidence
    → List AstUnit × Confidence
    → List AstUnit × Confidence
unfolding keep_where group_answer str_eq
repo_tier src units own cross later =
    group_answer (keep_where (λ u. str_eq u.repo_id src) units) own
      (group_answer (keep_where (λ u. not (str_eq u.repo_id src)) units) cross later)

-- whether a key names a schema
abbrev pub has_schema : Option Str → Bool
has_schema none = true
has_schema (some table) = has_byte b'.' table

-- the tiers of `tableCandidates`
unfoldable pub table_tiers :
    Str → Bool → List AstUnit → List AstUnit → List AstUnit → List AstUnit × Confidence
unfolding repo_tier
table_tiers src schema exact named entity =
    let weaker =
      repo_tier src named conf_high conf_cross_file
        (repo_tier src entity conf_cross_file conf_heuristic ([], conf_none)) in
    repo_tier src exact conf_exact conf_high (if schema then ([], conf_none) else weaker)

-- `tableCandidates`
unfoldable pub table_candidates : TableIndex → Str → Str → List AstUnit × Confidence
unfolding is_kind parse_db table_tiers slice_at
table_candidates idx key src =
    if is_kind key db
    then table_tiers src (has_schema (parse_db key)) (slice_at key idx.by_key)
        (slice_at key idx.by_name) (slice_at key idx.by_entity)
    else ([], conf_none)

-- `matchTable`, through `matchTableIndexed`
unfoldable pub match_table : List AstUnit → Str → Str → Option (AstUnit × Confidence)
unfolding table_candidates build_table_index
match_table us key src = first_with (table_candidates (build_table_index us) key src)
