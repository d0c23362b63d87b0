-- ===== src/Linker/Config/Exact.antt =====
-- The buckets of the config index of internal/graph/linker.go against all the keys.

use ragota.Base.{
  Bool, Bool-cases, List, Option, [], all, ap, append-nil, append_assoc, arith, drop, false,
  if◌then◌else◌, inl, inr, length, map, none, not, refl, some, suc, sym, true, zero, ℕ, ◌&&◌, ◌++◌,
  ◌-◌, ◌<◌, ◌==◌, ◌||◌, ◌↔◌, ◌∙◌, ◌∷◌, ◌≡◌,
}
use ragota.Base.Text.{Str, str_eq, str_eq_iff, to_lower}
use ragota.Contract.Ident.{
  components_from, concat, flush, ident_tokens, keep_nonempty, opens_component, split_components,
  token_components, word_components,
}
use ragota.Linker.Config.{
  ConfigIndex, IndexedConfigKey, add_key, best_key, build_config_index, by_leaf, by_path,
  config_match_tier, has_component_suffix, index_keys, indexed, last_part, list_eq,
  match_config_key, match_config_key_indexed, match_parts_in, value_of,
}
use ragota.Linker.Unit.{AstUnit, append_at, slice_at, slice_at-append_at}

list_eq_iff : (s t : List Str) → (list_eq s t ≡ true) ↔ (s ≡ t)
unfolding list_eq
list_eq_iff [] [] = ground arith
list_eq_iff [] (b ∷ t) = ground arith
list_eq_iff (a ∷ s) [] = ground arith
list_eq_iff (a ∷ s) (b ∷ t) = ground (arith, list_eq_iff s t, str_eq_iff a b)

last_part-drop : (n : ℕ) (s : List Str) → n < length s → last_part (drop n s) ≡ last_part s
unfolding last_part
last_part-drop zero s h = refl
last_part-drop (suc n) [] h = ground arith
last_part-drop (suc n) (a ∷ []) h = ground arith
last_part-drop (suc n) (a ∷ b ∷ s) h = last_part-drop n (b ∷ s) (omega arith)

pub has_component_suffix-last_part :
    (seq suffix : List Str)
    → has_component_suffix seq suffix ≡ true
    → last_part seq ≡ last_part suffix
unfolding has_component_suffix
has_component_suffix-last_part seq suffix h =
    let same = (list_eq_iff (drop (length seq - length suffix) seq) suffix).0 (ground arith) in
    sym (last_part-drop (length seq - length suffix) seq (ground arith)) ∙ ap last_part same

pub has_component_suffix-length :
    (seq suffix : List Str) → has_component_suffix seq suffix ≡ true → (length seq == 0) ≡ false
unfolding has_component_suffix
has_component_suffix-length seq suffix h = ground arith

-- the bucket of a component has the keys with this component last
abbrev belongs : Str → IndexedConfigKey → Bool
unfolding last_part str_eq
belongs j k =
    (by_path k && str_eq (last_part k.key_path) j) || (by_leaf k && str_eq (last_part k.leaf) j)

abbrev select_keys : (IndexedConfigKey → Bool) → List IndexedConfigKey → List IndexedConfigKey
select_keys p [] = []
select_keys p (k ∷ ks) = let rest = select_keys p ks in if p k then k ∷ rest else rest

not_both : (a b j : Str) → str_eq a b ≡ false → (str_eq b j && str_eq a j) ≡ false
not_both a b j h = elim (Bool-cases (str_eq a j)) [
  | inl e ↦ elim (Bool-cases (str_eq b j)) [
    | inl e' ↦
        let same = (str_eq_iff a b).1 ((str_eq_iff a j).0 e ∙ sym ((str_eq_iff b j).0 e')) in
        ground (arith, same)
    | inr e' ↦ ground arith
  ]
  | inr e ↦ ground arith
]

slice_at-add_key :
    (j : Str) (k : IndexedConfigKey) (m : ConfigIndex)
    → slice_at j (add_key k m) ≡ (if belongs j k then slice_at j m ++ k ∷ [] else slice_at j m)
unfolding add_key belongs
slice_at-add_key j k m =
    let m1 = append_at (last_part k.key_path) k m in
    let law = slice_at-append_at j (last_part k.key_path) k m in
    let law1 = slice_at-append_at j (last_part k.leaf) k m1 in
    let law2 = slice_at-append_at j (last_part k.leaf) k m in
    let apart = not_both (last_part k.leaf) (last_part k.key_path) j in
    ground (arith, law, law1, law2, apart)

slice_at-index_keys :
    (j : Str) (ks : List IndexedConfigKey) (m : ConfigIndex)
    → slice_at j (index_keys ks m) ≡ slice_at j m ++ select_keys (belongs j) ks
unfolding index_keys
slice_at-index_keys j [] m = sym (append-nil (slice_at j m))
slice_at-index_keys j (k ∷ ks) m = elim (Bool-cases (belongs j k)) [
  | inl e ↦
      slice_at-index_keys j ks (add_key k m)
      ∙ ap (λ l. l ++ select_keys (belongs j) ks) (slice_at-add_key j k m)
      ∙ rw e (append_assoc (slice_at j m) (k ∷ []) (select_keys (belongs j) ks))
  | inr e ↦
      slice_at-index_keys j ks (add_key k m)
      ∙ ap (λ l. l ++ select_keys (belongs j) ks) (slice_at-add_key j k m)
      ∙ rw e refl
]

best_key-select_keys :
    (j : Str) (ref : List Str) (repo : Str) (ks : List IndexedConfigKey) (best : Option AstUnit)
    (score : ℕ)
    → ((k : IndexedConfigKey) → belongs j k ≡ false → config_match_tier k ref ≡ 0)
    → best_key ref repo (select_keys (belongs j) ks) best score ≡ best_key ref repo ks best score
unfolding best_key
best_key-select_keys j ref repo [] best score h = refl
best_key-select_keys j ref repo (k ∷ ks) best score h = elim (Bool-cases (belongs j k)) [
  | inl e ↦ rw e (best_key-select_keys j ref repo ks _ _ h)
  | inr e ↦ rw e (rw (h k e) (best_key-select_keys j ref repo ks best score h))
]

nonempty_path :
    (path ref : List Str)
    → str_eq (last_part ref) [] ≡ false
    → last_part path ≡ last_part ref
    → (length path == 0) ≡ false
unfolding last_part
nonempty_path [] ref s h =
    let empty_last = (str_eq_iff (last_part ref) []).1 (sym h) in ground (arith, empty_last)
nonempty_path (p ∷ ps) ref s h = ground arith

tier-belongs :
    (ref : List Str) (k : IndexedConfigKey)
    → str_eq (last_part ref) [] ≡ false
    → belongs (last_part ref) k ≡ false
    → config_match_tier k ref ≡ 0
unfolding config_match_tier belongs
tier-belongs ref k s h = elim (Bool-cases (has_component_suffix k.key_path ref)) [
  | inl e ↦
      let same = (str_eq_iff _ _).1 (has_component_suffix-last_part k.key_path ref e) in
      ground (arith, same, has_component_suffix-length k.key_path ref e)
  | inr e ↦ elim (Bool-cases (has_component_suffix ref k.leaf)) [
    | inl e' ↦
        let same = has_component_suffix-last_part ref k.leaf e' in
        let same' = (str_eq_iff (last_part k.leaf) (last_part ref)).1 (sym same) in
        elim (Bool-cases (str_eq (last_part k.leaf) (last_part k.key_path))) [
          | inr apart ↦ ground arith
          | inl joined ↦
              let path_last =
                sym ((str_eq_iff (last_part k.leaf) (last_part k.key_path)).0 joined) ∙ sym same in
              let same2 = (str_eq_iff (last_part k.key_path) (last_part ref)).1 path_last in
              ground (arith, same2, nonempty_path k.key_path ref s path_last)
        ]
    | inr e' ↦ ground arith
  ]
]

-- no component of an identifier is empty
abbrev solid : List Str → Bool
unfolding str_eq
solid = all (λ w. not (str_eq w []))

solid-append : (us vs : List Str) → solid us ≡ true → solid vs ≡ true → solid (us ++ vs) ≡ true
unfolding solid
solid-append [] vs h h' = h'
solid-append (u ∷ us) vs h h' = ground (arith, solid-append us vs)

solid-flush : (s : Str) → solid (flush s) ≡ true
unfolding solid to_lower str_eq
solid-flush [] = refl
solid-flush (c ∷ s) = refl

when_solid : (b : Bool) (s : Str) → solid (if b then flush s else []) ≡ true
unfolding solid
when_solid true s = solid-flush s
when_solid false s = refl

components_from-solid : (prev : Option ℕ) (cur s : Str) → solid (components_from prev cur s) ≡ true
unfolding components_from
components_from-solid prev cur [] = solid-flush cur
components_from-solid prev cur (r ∷ rs) =
    solid-append _ _ (when_solid (r == b'_' || opens_component prev r rs) cur) (
      components_from-solid (some r)
        (if r == b'_'
          then if r == b'_' || opens_component prev r rs then [] else cur
          else (if r == b'_' || opens_component prev r rs then [] else cur) ++ r ∷ [])
        rs)

split_components-solid : (t : Str) → solid (split_components t) ≡ true
unfolding split_components
split_components-solid t = components_from-solid none [] t

keep-solid :
    (ws : List Str) (rest : List (List Str))
    → solid ws ≡ true
    → solid (concat (keep_nonempty rest)) ≡ true
    → solid (concat (keep_nonempty (ws ∷ rest))) ≡ true
unfolding concat keep_nonempty
keep-solid [] rest h h' = h'
keep-solid (w ∷ ws) rest h h' = solid-append (w ∷ ws) (concat (keep_nonempty rest)) h h'

keep_nonempty-solid :
    (ts : List Str) → solid (concat (keep_nonempty (map split_components ts))) ≡ true
unfolding concat keep_nonempty solid
keep_nonempty-solid [] = refl
keep_nonempty-solid (t ∷ ts) =
    keep-solid (split_components t) _ (split_components-solid t) (keep_nonempty-solid ts)

word_components-solid : (s : Str) → solid (word_components s) ≡ true
unfolding word_components token_components
word_components-solid s = keep_nonempty-solid (ident_tokens s)

solid-last_part :
    (w : Str) (ws : List Str) → solid (w ∷ ws) ≡ true → str_eq (last_part (w ∷ ws)) [] ≡ false
unfolding solid last_part
solid-last_part w [] h = ground arith
solid-last_part w (v ∷ ws) h = solid-last_part v ws (ground arith)

-- the match over all keys, without the index
abbrev pub scan_keys : List AstUnit → Str → Str → List Str → Str
unfolding best_key indexed
scan_keys us ref repo [] = []
scan_keys us ref repo (c ∷ cs) = value_of (best_key (c ∷ cs) repo (map indexed us) none 0)

match_parts :
    (us : List AstUnit) (ref repo : Str) (parts : List Str)
    → solid parts ≡ true
    → match_parts_in (build_config_index us) repo parts ≡ scan_keys us ref repo parts
unfolding build_config_index scan_keys match_parts_in
match_parts us ref repo [] h = refl
match_parts us ref repo (c ∷ cs) h =
    let last_known = solid-last_part c cs h in
    ap value_of (
      ap (λ ks. best_key (c ∷ cs) repo ks none 0)
        (slice_at-index_keys (last_part (c ∷ cs)) (map indexed us) [])
      ∙ best_key-select_keys (last_part (c ∷ cs)) (c ∷ cs) repo (map indexed us) none 0
          (λ k. tier-belongs (c ∷ cs) k last_known))

-- A reference resolved through the index of config keys gives what a scan of all the keys gives:
-- the index is exact.
pub match_config_key_lem :
    (us : List AstUnit) (ref repo : Str)
    → match_config_key us ref repo ≡ scan_keys us ref repo (word_components ref)
unfolding match_config_key match_config_key_indexed
match_config_key_lem us ref repo =
    match_parts us ref repo (word_components ref) (word_components-solid ref)
