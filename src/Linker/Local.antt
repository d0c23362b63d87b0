-- ===== src/Linker/Local.antt =====
-- internal/graph/linker.go: the definition that a call within one repository means. The receiver
-- of the edge (`edgeReceiver`, which reads JSON) is an argument. The memo of `unitComponents` is
-- left out: in one run the candidates of a name are one list.
pub mod Owned
use ragota.Base.{
  Bool, List, Option, [], if◌then◌else◌, length, ltb, none, not, some, take, ◌&&◌, ◌-◌, ◌==◌, ◌∷◌,
}
use ragota.Base.Text.{Str, str_eq}
use ragota.Contract.Ident.{word_components}
use ragota.Linker.Config.{has_component_suffix, last_part}
use ragota.Linker.Unit.{AstUnit, append_at, slice_at}

-- internal/contract/confidence.go: what a local match is worth
pub data Grade : Type 0 where
  grade_exact grade_cross_file grade_heuristic : Grade

-- `owner`
unfoldable pub owner_parts : AstUnit → List Str
unfolding word_components
owner_parts u =
    let qual = word_components u.qualified in
    let own = length (word_components u.unit_name) in
    if ltb own (length qual) then take (length qual - own) qual else []

abbrev pub OwnerIndex : Type 0
OwnerIndex = List (Str × List AstUnit)

unfoldable pub add_owned : AstUnit → OwnerIndex → OwnerIndex
unfolding owner_parts append_at last_part
add_owned u m = if length (owner_parts u) == 0 then m else append_at (last_part (owner_parts u)) u m

unfoldable pub index_owned : List AstUnit → OwnerIndex → OwnerIndex
unfolding add_owned
index_owned [] m = m
index_owned (u ∷ us) m = index_owned us (add_owned u m)

unfoldable pub units_owned : List Str → List AstUnit → List AstUnit
unfolding has_component_suffix owner_parts
units_owned rc [] = []
units_owned rc (u ∷ us) =
    let rest = units_owned rc us in
    if has_component_suffix (owner_parts u) rc then u ∷ rest else rest

-- `ownedBy`, for the components of the receiver
unfoldable pub owned_by_parts : List AstUnit → List Str → List AstUnit
unfolding units_owned slice_at index_owned last_part
owned_by_parts cands [] = []
owned_by_parts cands (c ∷ cs) =
    units_owned (c ∷ cs) (slice_at (last_part (c ∷ cs)) (index_owned cands []))

unfoldable pub owned_by : List AstUnit → Str → List AstUnit
unfolding owned_by_parts word_components
owned_by cands recv = owned_by_parts cands (word_components recv)

-- `receiverMatches`
unfoldable pub receiver_matches : AstUnit → Str → Bool
unfolding word_components has_component_suffix
receiver_matches u recv =
    let rc = word_components recv in
    let qual = word_components u.qualified in
    let own = length (word_components u.unit_name) in
    not (length rc == 0)
    && ltb own (length qual)
    && has_component_suffix (take (length qual - own) qual) rc

-- `firstInFile`
unfoldable pub first_in : Str → List AstUnit → Option AstUnit
unfolding str_eq
first_in file [] = none
first_in file (u ∷ us) =
    let rest = first_in file us in if str_eq u.file_path file then some u else rest

unfoldable pub first_in_file : List AstUnit → Str → Option AstUnit
unfolding first_in str_eq
first_in_file cands file = if str_eq file [] then none else first_in file cands

-- the choice among candidates, the first of them where nothing tells them apart
unfoldable pub choose_local : AstUnit → List AstUnit → Str → AstUnit × Grade
unfolding first_in_file
choose_local u us file = elim (first_in_file (u ∷ us) file) [
  | some v ↦ (v, grade_exact)
  | none ↦ elim us [ [] ↦ (u, grade_cross_file) | v ∷ vs ↦ (u, grade_heuristic) ]
]

-- `resolveLocalTarget`, for candidates u ∷ us: the callers have one at least
unfoldable pub resolve_local_target : Str → Str → AstUnit → List AstUnit → AstUnit × Grade
unfolding owned_by choose_local
resolve_local_target recv file u us =
    elim (if length recv == 0 then [] else owned_by (u ∷ us) recv) [
      | v ∷ vs ↦ choose_local v vs file
      | [] ↦ choose_local u us file
    ]
