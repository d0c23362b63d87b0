-- ===== src/Search/Merge.antt =====
-- `mergeSpans` of internal/search/hybrid.go. The hits that are kept are updated in their list; a
-- bucket of `byFile` is the part of that list with the key of the file, in the same order.
pub mod Lines
pub mod Keep
use ragota.Base.{
  List, Option, [], if◌then◌else◌, length, ltb, map, none, some, suc, ℕ, ◌&&◌, ◌++◌, ◌+◌, ◌∷◌,
}
use ragota.Base.Text.{Str, codes, contains, str_eq}
use ragota.Search.Hit.{Hit, overlaps, range_end}

abbrev pub merge_reason : Str
merge_reason = codes "merged"

-- `appendMergeReason`
abbrev pub append_merge_reason : Str → Str
append_merge_reason [] = merge_reason
append_merge_reason (b ∷ r) = b ∷ r ++ codes "+" ++ merge_reason

module _ {F : Type 0} where
  -- the key of `byFile`
  abbrev pub file_key : Hit F → Str
  file_key h = h.repo_id ++ 0 ∷ h.file_path

  -- the range of a hit that is kept, widened over another
  unfoldable pub absorb : Hit F → Hit F → Hit F
  unfolding contains
  absorb into hit = record into {
    line = if ltb hit.line into.line then hit.line else into.line;
    end_line = if ltb (range_end into) (range_end hit) then range_end hit else into.end_line;
    reason =
        if contains into.reason merge_reason then into.reason else append_merge_reason into.reason;
  }

  abbrev pub onto_some : Hit F → Option (List (Hit F)) → Option (List (Hit F))
  onto_some c none = none
  onto_some c (some cs) = some (c ∷ cs)

  -- the search for the hit to merge into
  unfoldable pub merge_into : Hit F → List (Hit F) → Option (List (Hit F))
  unfolding absorb str_eq
  merge_into hit [] = none
  merge_into hit (c ∷ cs) =
      let rest = merge_into hit cs in
      if str_eq (file_key c) (file_key hit) && overlaps c hit
      then some (absorb c hit ∷ cs)
      else onto_some c rest

  unfoldable pub merge_loop : List (Option (Hit F)) → List (Hit F) → ℕ → List (Hit F) × ℕ
  unfolding merge_into
  merge_loop [] kept n = (kept, n)
  merge_loop (none ∷ hits) kept n = merge_loop hits kept n
  merge_loop (some h ∷ hits) kept n = elim (merge_into h kept) [
    | none ↦ merge_loop hits (kept ++ h ∷ []) n
    | some wider ↦ merge_loop hits wider (suc n)
  ]

  abbrev pub all_some : List (Hit F) × ℕ → List (Option (Hit F)) × ℕ
  all_some (kept, n) = (map some kept, n)

  -- `mergeSpans`, with the number of hits merged, which the metadata get if it is positive
  unfoldable pub merge_spans : List (Option (Hit F)) → List (Option (Hit F)) × ℕ
  unfolding merge_loop
  merge_spans hits = if ltb (length hits) 2 then (hits, 0) else all_some (merge_loop hits [] 0)
