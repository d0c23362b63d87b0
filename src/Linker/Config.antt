-- ===== src/Linker/Config.antt =====
-- internal/graph/linker.go and ident.go: the config keys that a reference may mean.
pub mod Exact
use ragota.Base.{
  Bool, List, Option, [], drop, false, if◌then◌else◌, leb, length, ltb, map, none, not, some, true,
  ℕ, ◌&&◌, ◌*◌, ◌+◌, ◌-◌, ◌==◌, ◌||◌, ◌∷◌,
}
use ragota.Base.Text.{Str, str_eq}
use ragota.Contract.Ident.{word_components}
use ragota.Contract.Keys.{config, trim_kind}
use ragota.Linker.Unit.{AstUnit, append_at, slice_at, str_ltb}

pub record IndexedConfigKey : Type 0 where
  pub unit : AstUnit
  pub key_path : List Str
  pub leaf : List Str

abbrev pub config_no_match : ℕ
config_no_match = 0

abbrev pub config_leaf_match : ℕ
config_leaf_match = 1

abbrev pub config_path_match : ℕ
config_path_match = 2

abbrev pub min_leaf_components : ℕ
min_leaf_components = 2

unfoldable pub list_eq : List Str → List Str → Bool
unfolding str_eq
list_eq [] [] = true
list_eq (a ∷ s) (b ∷ t) = str_eq a b && list_eq s t
list_eq _ _ = false

-- `hasComponentSuffix`
unfoldable pub has_component_suffix : List Str → List Str → Bool
unfolding list_eq
has_component_suffix seq suffix =
    not (length suffix == 0)
    && leb (length suffix) (length seq)
    && list_eq (drop (length seq - length suffix) seq) suffix

-- the last component, or the empty string
unfoldable pub last_part : List Str → Str
last_part [] = []
last_part (s ∷ []) = s
last_part (s ∷ t ∷ ss) = last_part (t ∷ ss)

unfoldable pub indexed : AstUnit → IndexedConfigKey
unfolding word_components trim_kind
indexed u = record {
  unit = u;
  key_path = word_components (trim_kind u.qualified config);
  leaf = word_components u.unit_name;
}

abbrev pub ConfigIndex : Type 0
ConfigIndex = List (Str × List IndexedConfigKey)

-- the two tests of the loop body of `buildConfigIndex`
abbrev pub by_path : IndexedConfigKey → Bool
by_path k = not (length k.key_path == 0)

abbrev pub by_leaf : IndexedConfigKey → Bool
by_leaf k =
    leb min_leaf_components (length k.leaf)
    && not (str_eq (last_part k.leaf) (last_part k.key_path))

unfoldable pub add_key : IndexedConfigKey → ConfigIndex → ConfigIndex
unfolding append_at last_part str_eq
add_key k m =
    let m1 = if by_path k then append_at (last_part k.key_path) k m else m in
    if by_leaf k then append_at (last_part k.leaf) k m1 else m1

unfoldable pub index_keys : List IndexedConfigKey → ConfigIndex → ConfigIndex
unfolding add_key
index_keys [] m = m
index_keys (k ∷ ks) m = index_keys ks (add_key k m)

-- `buildConfigIndex`
unfoldable pub build_config_index : List AstUnit → ConfigIndex
unfolding index_keys indexed
build_config_index us = index_keys (map indexed us) []

-- `configMatchTier`
unfoldable pub config_match_tier : IndexedConfigKey → List Str → ℕ
unfolding has_component_suffix
config_match_tier k ref =
    if has_component_suffix k.key_path ref
    then config_path_match
    else if leb min_leaf_components (length k.leaf) && has_component_suffix ref k.leaf
    then config_leaf_match
    else config_no_match

abbrev pub key_score : IndexedConfigKey → List Str → Str → ℕ
unfolding config_match_tier str_eq
key_score k ref repo = config_match_tier k ref * 2 + (if str_eq k.unit.repo_id repo then 1 else 0)

-- whether a key with this score replaces the best unit so far
abbrev pub replaces : AstUnit → ℕ → Option AstUnit → ℕ → Bool
unfolding str_ltb
replaces u score none best_score = ltb best_score score
replaces u score (some b) best_score =
    ltb best_score score || (score == best_score && str_ltb u.qualified b.qualified)

-- the loop of `matchConfigKeyIndexed`
unfoldable pub best_key :
    List Str → Str → List IndexedConfigKey → Option AstUnit → ℕ → Option AstUnit
unfolding config_match_tier str_eq str_ltb replaces key_score
best_key ref repo [] best score = best
best_key ref repo (k ∷ ks) best score =
    let wins =
      not (config_match_tier k ref == config_no_match)
      && replaces k.unit (key_score k ref repo) best score in
    best_key ref repo ks (if wins then some k.unit else best)
      (if wins then key_score k ref repo else score)

abbrev pub value_of : Option AstUnit → Str
value_of none = []
value_of (some u) = u.signature

-- `matchConfigKeyIndexed`, for the components of the reference
unfoldable pub match_parts_in : ConfigIndex → Str → List Str → Str
unfolding best_key slice_at last_part
match_parts_in idx repo [] = []
match_parts_in idx repo (c ∷ cs) =
    value_of (best_key (c ∷ cs) repo (slice_at (last_part (c ∷ cs)) idx) none 0)

-- `matchConfigKeyIndexed`
unfoldable pub match_config_key_indexed : ConfigIndex → Str → Str → Str
unfolding match_parts_in word_components
match_config_key_indexed idx ref repo = match_parts_in idx repo (word_components ref)

-- `matchConfigKey`
unfoldable pub match_config_key : List AstUnit → Str → Str → Str
unfolding match_config_key_indexed build_config_index
match_config_key keys ref repo = match_config_key_indexed (build_config_index keys) ref repo
