-- ===== src/Linker/Local/Owned.antt =====
-- The index of owners in internal/graph/linker.go against a scan of the candidates.

use ragota.Base.{
  Bool, Bool-cases, List, [], ap, append-nil, append_assoc, arith, false, if◌then◌else◌, inl, inr,
  length, not, refl, sym, true, ◌&&◌, ◌++◌, ◌==◌, ◌∙◌, ◌∷◌, ◌≡◌,
}
use ragota.Base.Text.{Str, str_eq, str_eq_iff}
use ragota.Contract.Ident.{word_components}
use ragota.Linker.Config.{has_component_suffix, last_part}
use ragota.Linker.Config.Exact.{has_component_suffix-last_part, has_component_suffix-length}
use ragota.Linker.Local.{
  OwnerIndex, add_owned, index_owned, owned_by, owned_by_parts, owner_parts, receiver_matches,
  units_owned,
}
use ragota.Linker.Unit.{AstUnit, slice_at, slice_at-append_at}

abbrev pub units_matched : Str → List AstUnit → List AstUnit
unfolding receiver_matches
units_matched recv [] = []
units_matched recv (u ∷ us) =
    let rest = units_matched recv us in if receiver_matches u recv then u ∷ rest else rest

abbrev in_bucket : Str → AstUnit → Bool
unfolding owner_parts last_part str_eq
in_bucket j u = not (length (owner_parts u) == 0) && str_eq (last_part (owner_parts u)) j

abbrev bucket_of : Str → List AstUnit → List AstUnit
unfolding in_bucket
bucket_of j [] = []
bucket_of j (u ∷ us) = let rest = bucket_of j us in if in_bucket j u then u ∷ rest else rest

slice_at-add_owned :
    (j : Str) (u : AstUnit) (m : OwnerIndex)
    → slice_at j (add_owned u m) ≡ (if in_bucket j u then slice_at j m ++ u ∷ [] else slice_at j m)
unfolding add_owned in_bucket
slice_at-add_owned j u m =
    let law = slice_at-append_at j (last_part (owner_parts u)) u m in ground (arith, law)

slice_at-index_owned :
    (j : Str) (us : List AstUnit) (m : OwnerIndex)
    → slice_at j (index_owned us m) ≡ slice_at j m ++ bucket_of j us
unfolding index_owned bucket_of
slice_at-index_owned j [] m = sym (append-nil (slice_at j m))
slice_at-index_owned j (u ∷ us) m =
    let later =
      slice_at-index_owned j us (add_owned u m)
      ∙ ap (λ l. l ++ bucket_of j us) (slice_at-add_owned j u m) in
    elim (Bool-cases (in_bucket j u)) [
      | inl e ↦ later ∙ rw e (append_assoc (slice_at j m) (u ∷ []) (bucket_of j us))
      | inr e ↦ later ∙ rw e refl
    ]

-- a unit with the receiver's components is in the bucket of the last of them
has_suffix-in_bucket :
    (u : AstUnit) (rc : List Str)
    → has_component_suffix (owner_parts u) rc ≡ true
    → in_bucket (last_part rc) u ≡ true
unfolding in_bucket
has_suffix-in_bucket u rc h =
    let same = (str_eq_iff _ _).1 (has_component_suffix-last_part (owner_parts u) rc h) in
    ground (arith, same, has_component_suffix-length (owner_parts u) rc h)

units_owned-bucket_of :
    (rc : List Str) (us : List AstUnit)
    → units_owned rc (bucket_of (last_part rc) us) ≡ units_owned rc us
unfolding units_owned bucket_of
units_owned-bucket_of rc [] = refl
units_owned-bucket_of rc (u ∷ us) =
    let rest = units_owned-bucket_of rc us in ground (arith, rest, has_suffix-in_bucket u rc)

has_suffix-of_nil : (rc : List Str) → has_component_suffix [] rc ≡ false
unfolding has_component_suffix
has_suffix-of_nil rc = ground arith

units_owned-matched :
    (recv : Str) (us : List AstUnit)
    → (length (word_components recv) == 0) ≡ false
    → units_owned (word_components recv) us ≡ units_matched recv us
unfolding units_owned units_matched receiver_matches owner_parts
units_owned-matched recv [] h = refl
units_owned-matched recv (u ∷ us) h =
    ground (arith, units_owned-matched recv us h, has_suffix-of_nil (word_components recv))

none_matched :
    (recv : Str) (us : List AstUnit)
    → (length (word_components recv) == 0) ≡ true
    → units_matched recv us ≡ []
unfolding units_matched receiver_matches
none_matched recv [] h = refl
none_matched recv (u ∷ us) h = ground (arith, none_matched recv us h)

owned_parts :
    (us : List AstUnit) (rc : List Str)
    → owned_by_parts us rc ≡ (if length rc == 0 then [] else units_owned rc us)
unfolding owned_by_parts
owned_parts us [] = refl
owned_parts us (c ∷ cs) =
    let some_parts : (length (c ∷ cs) == 0) ≡ false = ground arith in
    rw some_parts (
      ap (units_owned (c ∷ cs)) (slice_at-index_owned (last_part (c ∷ cs)) us [])
      ∙ units_owned-bucket_of (c ∷ cs) us)

-- The candidates that the index gives for a receiver are those that the test of one unit against
-- the receiver accepts, in their order.
pub owned_by_lem : (us : List AstUnit) (recv : Str) → owned_by us recv ≡ units_matched recv us
unfolding owned_by
owned_by_lem us recv = elim (Bool-cases (length (word_components recv) == 0)) [
  | inl e ↦ owned_parts us (word_components recv) ∙ rw e (sym (none_matched recv us e))
  | inr e ↦ owned_parts us (word_components recv) ∙ rw e (units_owned-matched recv us e)
]
