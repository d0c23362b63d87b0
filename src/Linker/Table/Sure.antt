-- ===== src/Linker/Table/Sure.antt =====
-- The candidates of a database key in internal/graph/linker.go against a scan of the tables.

use ragota.Base.{
  Bool, Bool-cases, List, Option, [], all, ap, append-nil, append_assoc, arith, false,
  if◌then◌else◌, inl, inr, length, none, not, refl, some, sym, true, ◌&&◌, ◌++◌, ◌==◌, ◌||◌, ◌∙◌,
  ◌∷◌, ◌≡◌,
}
use ragota.Base.Text.{Str, str_eq}
use ragota.Contract.Keys.{db, is_kind, parse_db}
use ragota.Linker.Rpc.{
  Confidence, conf_cross_file, conf_exact, conf_heuristic, conf_high, conf_none, conf_weak,
}
use ragota.Linker.Rpc.Unique.{is_sure}
use ragota.Linker.Table.{
  TableIndex, add_table, append_opt, build_table_index, entity_key, group_answer, has_schema,
  index_tables, keep_where, name_key, repo_tier, signature_entity, table_candidates, table_tiers,
  weaker_tier,
}
use ragota.Linker.Unit.{AstUnit, slice_at, slice_at-append_at}

unfoldable pub has_key : Str → Option Str → Bool
unfolding str_eq
has_key k none = false
has_key k (some j) = str_eq j k

slice_at-append_opt :
    (k : Str) (o : Option Str) (u : AstUnit) (m : List (Str × List AstUnit))
    → slice_at k (append_opt o u m) ≡ (if has_key k o then slice_at k m ++ u ∷ [] else slice_at k m)
unfolding append_opt has_key
slice_at-append_opt k none u m = refl
slice_at-append_opt k (some j) u m = slice_at-append_at k j u m

-- a slice that grows by the units that a test accepts is a scan
grown :
    (p : AstUnit → Bool) (u : AstUnit) (us old bigger : List AstUnit)
    → bigger ≡ (if p u then old ++ u ∷ [] else old)
    → bigger ++ keep_where p us ≡ old ++ keep_where p (u ∷ us)
unfolding keep_where
grown p u us old bigger e = elim (Bool-cases (p u)) [
  | inl h ↦ rw e (rw h (append_assoc old (u ∷ []) (keep_where p us)))
  | inr h ↦ rw e (rw h refl)
]

abbrev pub keyed : Str → AstUnit → Bool
keyed key u = str_eq u.qualified key

abbrev pub named : Str → AstUnit → Bool
named key u = has_key key (name_key u.qualified)

abbrev pub entitled : Str → AstUnit → Bool
entitled key u = has_key key (entity_key (signature_entity u.signature) u.qualified)

index_tables-slices :
    (us : List AstUnit) (idx : TableIndex) (key : Str)
    → (slice_at key (index_tables us idx).by_key
        ≡ slice_at key idx.by_key ++ keep_where (keyed key) us)
      × (slice_at key (index_tables us idx).by_name
          ≡ slice_at key idx.by_name ++ keep_where (named key) us)
      × (slice_at key (index_tables us idx).by_entity
          ≡ slice_at key idx.by_entity ++ keep_where (entitled key) us)
unfolding index_tables keep_where add_table
index_tables-slices [] idx key = (
  sym (append-nil (slice_at key idx.by_key)),
  sym (append-nil (slice_at key idx.by_name)),
  sym (append-nil (slice_at key idx.by_entity)),
)
index_tables-slices (u ∷ us) idx key =
    let (a, b, c) = index_tables-slices us (add_table u idx) key in
    (
      a ∙ grown (keyed key) u us _ _ (slice_at-append_at key u.qualified u idx.by_key),
      b ∙ grown (named key) u us _ _ (slice_at-append_opt key (name_key u.qualified) u idx.by_name),
      c
          ∙ grown (entitled key) u us _ _ (
              slice_at-append_opt key (entity_key (signature_entity u.signature) u.qualified) u
                idx.by_entity),
    )

-- the candidates by a scan of the tables
unfoldable pub scan_tables : List AstUnit → Str → Str → List AstUnit × Confidence
unfolding is_kind parse_db table_tiers keep_where
scan_tables us key src =
    if is_kind key db
    then table_tiers src (has_schema (parse_db key)) (keep_where (keyed key) us)
        (keep_where (named key) us) (keep_where (entitled key) us)
    else ([], conf_none)

-- the table of this key in this repository
abbrev pub is_the_table : Str → Str → AstUnit → Bool
is_the_table key src u = str_eq u.qualified key && str_eq u.repo_id src

-- an exact answer is one table, of the key and of the repository
abbrev pub sure_table : Str → Str → List AstUnit × Confidence → Bool
sure_table key src (us, conf) =
    not (is_sure conf) || (length us == 1 && all (is_the_table key src) us)

weaker_tier-is_sure : (c : Confidence) → is_sure (weaker_tier c) ≡ false
weaker_tier-is_sure conf_none = refl
weaker_tier-is_sure conf_weak = refl
weaker_tier-is_sure conf_heuristic = refl
weaker_tier-is_sure conf_cross_file = refl
weaker_tier-is_sure conf_high = refl
weaker_tier-is_sure conf_exact = refl

module _ (key src : Str) where
  sure-weak_group :
      (us : List AstUnit) (conf : Confidence) (later : List AstUnit × Confidence)
      → is_sure conf ≡ false
      → sure_table key src later ≡ true
      → sure_table key src (group_answer us conf later) ≡ true
  unfolding group_answer
  sure-weak_group [] conf later c h = h
  sure-weak_group (u ∷ []) conf later c h = ground (arith, c)
  sure-weak_group (u ∷ v ∷ us) conf later c h = rw (weaker_tier-is_sure conf) refl

  sure-exact_group :
      (us : List AstUnit) (later : List AstUnit × Confidence)
      → all (is_the_table key src) us ≡ true
      → sure_table key src later ≡ true
      → sure_table key src (group_answer us conf_exact later) ≡ true
  unfolding group_answer
  sure-exact_group [] later a h = h
  sure-exact_group (u ∷ []) later a h = rw a refl
  sure-exact_group (u ∷ v ∷ us) later a h = refl

  all-own :
      (us : List AstUnit)
      → all
          (is_the_table key src)
          (keep_where (λ u. str_eq u.repo_id src) (keep_where (keyed key) us))
        ≡ true
  unfolding keep_where
  all-own [] = refl
  all-own (u ∷ us) = ground (arith, all-own us)

  sure-weak_tier :
      (units : List AstUnit) (own cross : Confidence) (later : List AstUnit × Confidence)
      → is_sure own ≡ false
      → is_sure cross ≡ false
      → sure_table key src later ≡ true
      → sure_table key src (repo_tier src units own cross later) ≡ true
  unfolding repo_tier
  sure-weak_tier units own cross later o c h =
      let others = keep_where (λ u. not (str_eq u.repo_id src)) units in
      sure-weak_group (keep_where (λ u. str_eq u.repo_id src) units) own
        (group_answer others cross later) o (sure-weak_group others cross later c h)

  sure-exact_tier :
      (units : List AstUnit) (later : List AstUnit × Confidence)
      → all (is_the_table key src) (keep_where (λ u. str_eq u.repo_id src) units) ≡ true
      → sure_table key src later ≡ true
      → sure_table key src (repo_tier src units conf_exact conf_high later) ≡ true
  unfolding repo_tier
  sure-exact_tier units later a h =
      let others = keep_where (λ u. not (str_eq u.repo_id src)) units in
      sure-exact_group (keep_where (λ u. str_eq u.repo_id src) units)
        (group_answer others conf_high later) a (sure-weak_group others conf_high later refl h)

  sure-table_tiers :
      (schema : Bool) (exact by_name by_entity : List AstUnit)
      → all (is_the_table key src) (keep_where (λ u. str_eq u.repo_id src) exact) ≡ true
      → sure_table key src (table_tiers src schema exact by_name by_entity) ≡ true
  unfolding table_tiers
  sure-table_tiers true exact by_name by_entity a = sure-exact_tier exact ([], conf_none) a refl
  sure-table_tiers false exact by_name by_entity a =
      let last = repo_tier src by_entity conf_cross_file conf_heuristic ([], conf_none) in
      sure-exact_tier exact (repo_tier src by_name conf_high conf_cross_file last) a (
        sure-weak_tier by_name conf_high conf_cross_file last refl refl
          (sure-weak_tier by_entity conf_cross_file conf_heuristic ([], conf_none) refl refl refl))

  sure-scan : (us : List AstUnit) → sure_table key src (scan_tables us key src) ≡ true
  unfolding scan_tables
  sure-scan us = elim (Bool-cases (is_kind key db)) [
    | inl e ↦
        rw (e, scan_tables)
          (sure-table_tiers (has_schema (parse_db key)) (keep_where (keyed key) us)
            (keep_where (named key) us) (keep_where (entitled key) us) (all-own us))
    | inr e ↦ rw (e, scan_tables) refl
  ]

-- The index of tables gives the candidates that a scan of all the tables gives, and a match is
-- exact only if it is one table, which has the key itself and stands in the caller's repository.
pub table_candidates_lem :
    (us : List AstUnit) (key src : Str)
    → (table_candidates (build_table_index us) key src ≡ scan_tables us key src)
      × (sure_table key src (table_candidates (build_table_index us) key src) ≡ true)
unfolding table_candidates build_table_index scan_tables
table_candidates_lem us key src =
    let (a, b, c) =
      index_tables-slices us record { by_key = []; by_name = []; by_entity = [] } key in
    let same : table_candidates (build_table_index us) key src ≡ scan_tables us key src =
      rw (a, b, c) refl in
    (same, ap (sure_table key src) same ∙ sure-scan key src us)
