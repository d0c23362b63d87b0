-- ===== src/Graph/Path/Known.antt =====
-- The successors of a unit in internal/graph/graph.go are units of the store.

-- a fact of the unit that a look-up finds
use ragota.Base.{
  All, All-append, Bool-cases, List, Option, [], arith, inl, inr, none, refl, some, true, ◌∷◌, ◌≡◌,
}
use ragota.Base.Text.{Str, str_eq, str_eq_refl}
use ragota.Graph.Edges.{
  CodeGraph, Edge, EdgeWithUnit, expand, implementations, implements, is_followed, is_rpc_method,
  successors, unit_of, with_unit,
}
use ragota.Graph.Path.Search.{is_known}
use ragota.Linker.Unit.{AstUnit}

abbrev pub AllIn : (AstUnit → Type 0) → Option AstUnit → Type 0
AllIn P none = Unit
AllIn P (some u) = P u

abbrev pub Known : List AstUnit → AstUnit → Type 0
unfolding str_eq
Known us u = is_known us u.unit_id ≡ true

AllIn-imp :
    (P Q : AstUnit → Type 0) (o : Option AstUnit)
    → ((u : AstUnit) → P u → Q u)
    → AllIn P o
    → AllIn Q o
AllIn-imp P Q none f h = tt
AllIn-imp P Q (some u) f h = f u h

unit_of-Known : (us : List AstUnit) (id : Str) → AllIn (Known us) (unit_of us id)
unfolding unit_of
unit_of-Known [] id = tt
unit_of-Known (u ∷ us) id = elim (Bool-cases (str_eq u.unit_id id)) [
  | inl e ↦ rw (e) (rw (str_eq_refl u.unit_id) refl)
  | inr e ↦ rw (e) (
      AllIn-imp (Known us) (Known (u ∷ us)) (unit_of us id) (λ v h. ground arith)
        (unit_of-Known us id))
]

with_unit-Known :
    (us : List AstUnit) (e : Edge) (o : Option AstUnit) (ns : List EdgeWithUnit)
    → AllIn (Known us) o
    → All (λ n. Known us n.far) ns
    → All (λ n. Known us n.far) (with_unit e o ns)
with_unit-Known us e none ns h hs = hs
with_unit-Known us e (some u) ns h hs = (h, hs)

successors-Known :
    (us : List AstUnit) (id : Str) (es : List Edge)
    → All (λ n. Known us n.far) (successors us id es)
unfolding successors
successors-Known us id [] = tt
successors-Known us id (e ∷ es) = elim (Bool-cases (is_followed id e)) [
  | inl h ↦ rw (h) (
      with_unit-Known us e (unit_of us e.dst_id) _ (unit_of-Known us e.dst_id)
        (successors-Known us id es))
  | inr h ↦ rw (h) (successors-Known us id es)
]

implementations-Known :
    (us : List AstUnit) (id : Str) (es : List Edge)
    → All (λ n. Known us n.far) (implementations us id es)
unfolding implementations
implementations-Known us id [] = tt
implementations-Known us id (e ∷ es) = elim (Bool-cases (implements id e)) [
  | inl h ↦ rw (h) (
      with_unit-Known us e (unit_of us e.src_id) _ (unit_of-Known us e.src_id)
        (implementations-Known us id es))
  | inr h ↦ rw (h) (implementations-Known us id es)
]

pub expand-Known : (g : CodeGraph) (id : Str) → All (λ n. Known g.units n.far) (expand g id)
unfolding expand
expand-Known g id =
    All-append _ (successors g.units id g.edges) _ (successors-Known g.units id g.edges)
      (elim (Bool-cases (is_rpc_method (unit_of g.units id))) [
        | inl h ↦ rw h (implementations-Known g.units id g.edges)
        | inr h ↦ rw h tt
      ])
