-- ===== src/Linker/Rpc.antt =====
-- internal/graph/linker.go: the units that a gRPC key may mean, and the order of candidates.

-- internal/contract/confidence.go: the named tiers of a match, and no match
pub mod Unique
use ragota.Base.{Bool, List, Option, [], if◌then◌else◌, ltb, none, not, some, true, ◌&&◌, ◌==◌, ◌∷◌}
use ragota.Base.Text.{Str, has_suffix, str_eq}
use ragota.Contract.Keys.{parse_grpc}
use ragota.Linker.Unit.{AstUnit, append_at, slice_at, str_ltb}

pub data Confidence : Type 0 where
  conf_none conf_weak conf_heuristic conf_cross_file conf_high conf_exact : Confidence

-- `beforeInFile`
unfoldable pub before_in_file : AstUnit → AstUnit → Bool
unfolding str_eq str_ltb
before_in_file a b =
    if not (a.start_line == b.start_line)
    then ltb a.start_line b.start_line
    else if not (a.start_byte == b.start_byte)
    then ltb a.start_byte b.start_byte
    else if not (str_eq a.unit_kind b.unit_kind)
    then str_ltb a.unit_kind b.unit_kind
    else str_ltb a.unit_name b.unit_name

-- the comparison of `sortUnits`
unfoldable pub unit_before : AstUnit → AstUnit → Bool
unfolding before_in_file str_eq str_ltb
unit_before a b =
    if not (str_eq a.repo_id b.repo_id)
    then str_ltb a.repo_id b.repo_id
    else if not (str_eq a.qualified b.qualified)
    then str_ltb a.qualified b.qualified
    else if not (str_eq a.file_path b.file_path)
    then str_ltb a.file_path b.file_path
    else before_in_file a b

unfoldable pub insert_unit : AstUnit → List AstUnit → List AstUnit
unfolding unit_before
insert_unit u [] = u ∷ []
insert_unit u (v ∷ vs) =
    let rest = insert_unit u vs in if unit_before v u then v ∷ rest else u ∷ v ∷ vs

-- `sortUnits`. Units that the comparison cannot separate keep their order here.
unfoldable pub sort_units : List AstUnit → List AstUnit
unfolding insert_unit
sort_units [] = []
sort_units (u ∷ us) = insert_unit u (sort_units us)

pub record IndexedRpc : Type 0 where
  pub rpc : AstUnit
  pub svc : Str

abbrev pub RpcIndex : Type 0
RpcIndex = List (Str × List IndexedRpc)

unfoldable pub add_rpc : AstUnit → RpcIndex → RpcIndex
unfolding parse_grpc append_at
add_rpc u m =
    let (svc, method, valid) = parse_grpc u.qualified in
    if valid then append_at method (record { rpc = u; svc = svc }) m else m

unfoldable pub index_rpcs : List AstUnit → RpcIndex → RpcIndex
unfolding add_rpc
index_rpcs [] m = m
index_rpcs (u ∷ us) m = index_rpcs us (add_rpc u m)

-- `buildRPCIndex`
unfoldable pub build_rpc_index : List AstUnit → RpcIndex
unfolding index_rpcs
build_rpc_index us = index_rpcs us []

-- the tests of the switch of `rpcCandidates`
abbrev pub is_exact : Str → IndexedRpc → Bool
is_exact svc c = not (str_eq svc []) && str_eq c.svc svc

abbrev pub is_suffix : Str → IndexedRpc → Bool
is_suffix svc c = not (str_eq svc []) && not (str_eq c.svc svc) && has_suffix c.svc (b'.' ∷ svc)

unfoldable pub units_where : (IndexedRpc → Bool) → List IndexedRpc → List AstUnit
units_where p [] = []
units_where p (c ∷ cs) = let rest = units_where p cs in if p c then c.rpc ∷ rest else rest

-- the first of the two tiers that has a unit
abbrev pub tier_answer : List AstUnit → List AstUnit × Confidence → List AstUnit × Confidence
unfolding sort_units
tier_answer [] next = next
tier_answer (u ∷ []) next = (u ∷ [], conf_exact)
tier_answer (u ∷ v ∷ us) next = (sort_units (u ∷ v ∷ us), conf_heuristic)

abbrev pub by_method : List AstUnit → List AstUnit × Confidence
unfolding sort_units
by_method [] = ([], conf_none)
by_method (u ∷ us) = (sort_units (u ∷ us), conf_heuristic)

-- the answer from the bucket of the method
unfoldable pub rpc_tiers : Str → List IndexedRpc → List AstUnit × Confidence
unfolding units_where tier_answer by_method str_eq has_suffix
rpc_tiers svc bucket =
    tier_answer (units_where (is_exact svc) bucket) (
      tier_answer (units_where (is_suffix svc) bucket) (by_method (units_where (λ c. true) bucket)))

-- `rpcCandidates`
unfoldable pub rpc_candidates : RpcIndex → Str → List AstUnit × Confidence
unfolding parse_grpc rpc_tiers slice_at
rpc_candidates idx key =
    let (svc, method, valid) = parse_grpc key in
    if valid then rpc_tiers svc (slice_at method idx) else ([], conf_none)

abbrev pub first_with : List AstUnit × Confidence → Option (AstUnit × Confidence)
first_with ([], conf) = none
first_with (u ∷ us, conf) = some (u, conf)

-- `matchRPC`, through `matchRPCIndexed`
unfoldable pub match_rpc : List AstUnit → Str → Option (AstUnit × Confidence)
unfolding rpc_candidates build_rpc_index
match_rpc us key = first_with (rpc_candidates (build_rpc_index us) key)
