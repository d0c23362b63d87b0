-- ===== src/Linker/Rpc/Unique.antt =====
-- The candidates of a gRPC key in internal/graph/linker.go against a scan of the units.

-- the registered methods of this name, by a scan of all the units
use ragota.Base.{
  Bool, Bool-cases, List, [], ap, append-nil, append_assoc, arith, false, if◌then◌else◌, inl, inr,
  length, not, refl, sym, true, ◌&&◌, ◌++◌, ◌==◌, ◌||◌, ◌∙◌, ◌∷◌, ◌≡◌,
}
use ragota.Base.Text.{Str, str_eq}
use ragota.Contract.Keys.{parse_grpc}
use ragota.Linker.Rpc.{
  Confidence, IndexedRpc, RpcIndex, add_rpc, build_rpc_index, by_method, conf_exact, conf_none,
  index_rpcs, is_exact, is_suffix, rpc_candidates, rpc_tiers, tier_answer, units_where,
}
use ragota.Linker.Unit.{AstUnit, slice_at, slice_at-append_at}

abbrev pub rpcs_named : Str → List AstUnit → List IndexedRpc
unfolding parse_grpc str_eq
rpcs_named method [] = []
rpcs_named method (u ∷ us) =
    let (svc, m, valid) = parse_grpc u.qualified in
    let rest = rpcs_named method us in
    if valid && str_eq m method then record { rpc = u; svc = svc } ∷ rest else rest

-- whether a unit is a method of this name
abbrev has_method : Str → AstUnit → Bool
unfolding parse_grpc str_eq
has_method method u = let (svc, own, valid) = parse_grpc u.qualified in valid && str_eq own method

abbrev entry_of : AstUnit → IndexedRpc
unfolding parse_grpc
entry_of u = record { rpc = u; svc = (parse_grpc u.qualified).0 }

slice_at-add_rpc :
    (method : Str) (u : AstUnit) (m : RpcIndex)
    → slice_at method (add_rpc u m)
      ≡ (if has_method method u then slice_at method m ++ entry_of u ∷ [] else slice_at method m)
unfolding add_rpc has_method entry_of
slice_at-add_rpc method u m =
    let law = slice_at-append_at method (parse_grpc u.qualified).1 (entry_of u) m in
    ground (arith, law)

slice_at-index_rpcs :
    (method : Str) (us : List AstUnit) (m : RpcIndex)
    → slice_at method (index_rpcs us m) ≡ slice_at method m ++ rpcs_named method us
unfolding index_rpcs rpcs_named has_method entry_of
slice_at-index_rpcs method [] m = sym (append-nil (slice_at method m))
slice_at-index_rpcs method (u ∷ us) m =
    let later =
      slice_at-index_rpcs method us (add_rpc u m)
      ∙ ap (λ l. l ++ rpcs_named method us) (slice_at-add_rpc method u m) in
    elim (Bool-cases (has_method method u)) [
      | inl e ↦
          later ∙ rw e (append_assoc (slice_at method m) (entry_of u ∷ []) (rpcs_named method us))
      | inr e ↦ later ∙ rw e refl
    ]

abbrev pub is_sure : Confidence → Bool
is_sure conf_exact = true
is_sure _ = false

-- an exact answer has one candidate
abbrev pub one_if_sure : List AstUnit × Confidence → Bool
one_if_sure (us, conf) = not (is_sure conf) || length us == 1

one_of_tier :
    (us : List AstUnit) (next : List AstUnit × Confidence)
    → one_if_sure next ≡ true
    → one_if_sure (tier_answer us next) ≡ true
unfolding tier_answer
one_of_tier [] next h = h
one_of_tier (u ∷ []) next h = ground arith
one_of_tier (u ∷ v ∷ us) next h = refl

one_of_method : (us : List AstUnit) → one_if_sure (by_method us) ≡ true
unfolding by_method
one_of_method [] = refl
one_of_method (u ∷ us) = refl

one_of_tiers : (svc : Str) (bucket : List IndexedRpc) → one_if_sure (rpc_tiers svc bucket) ≡ true
unfolding rpc_tiers
one_of_tiers svc bucket = one_of_tier (units_where (is_exact svc) bucket) _ (
    one_of_tier (units_where (is_suffix svc) bucket) _
      (one_of_method (units_where (λ c. true) bucket)))

abbrev pub scan_rpcs : List AstUnit → Str → List AstUnit × Confidence
unfolding parse_grpc rpc_tiers rpcs_named
scan_rpcs us key =
    let (svc, method, valid) = parse_grpc key in
    if valid then rpc_tiers svc (rpcs_named method us) else ([], conf_none)

one_of_scan : (us : List AstUnit) (key : Str) → one_if_sure (scan_rpcs us key) ≡ true
unfolding scan_rpcs
one_of_scan us key = elim (Bool-cases (parse_grpc key).2) [
  | inl e ↦ rw (e, scan_rpcs) (one_of_tiers (parse_grpc key).0 (rpcs_named (parse_grpc key).1 us))
  | inr e ↦ rw (e, scan_rpcs) refl
]

-- The index of gRPC methods gives the candidates that a scan of all the units gives, and a match
-- is exact only if it has one candidate.
pub rpc_candidates_lem :
    (us : List AstUnit) (key : Str)
    → (rpc_candidates (build_rpc_index us) key ≡ scan_rpcs us key)
      × (one_if_sure (rpc_candidates (build_rpc_index us) key) ≡ true)
unfolding rpc_candidates build_rpc_index scan_rpcs
rpc_candidates_lem us key =
    let same : rpc_candidates (build_rpc_index us) key ≡ scan_rpcs us key =
      ap
        (λ bucket.
          if (parse_grpc key).2 then rpc_tiers (parse_grpc key).0 bucket else ([], conf_none))
        (slice_at-index_rpcs (parse_grpc key).1 us []) in
    (same, ap one_if_sure same ∙ one_of_scan us key)
