-- ===== src/Graph/Edges.antt =====
-- internal/graph/graph.go: the edges of a unit, with the contract indirections. The store is the
-- list of its edges in the order in which it lists them, and of its units; a failure of the store
-- itself is left out. A loader's cache holds what the store answers, and is left
-- out. The id of a unit is not empty: the store takes an empty id in a query for no condition.

use ragota.Base.{Bool, List, Option, [], false, if◌then◌else◌, none, not, some, ◌&&◌, ◌++◌, ◌∷◌}
use ragota.Base.Text.{Str, codes, str_eq}
use ragota.Linker.Unit.{AstUnit}

pub record Edge : Type 0 where
  pub src_id : Str
  pub dst_id : Str  -- empty if unresolved
  pub edge_kind : Str
  pub dst_name : Str

pub record CodeGraph : Type 0 where
  pub edges : List Edge
  pub units : List AstUnit

pub record EdgeWithUnit : Type 0 where
  pub edge : Edge
  pub far : AstUnit

abbrev pub implements_rpc : Str
implements_rpc = codes "implements_rpc"

abbrev pub rpc_method : Str
rpc_method = codes "rpc_method"

-- `unit` and `cached` of the loader
unfoldable pub unit_of : List AstUnit → Str → Option AstUnit
unfolding str_eq
unit_of [] id = none
unit_of (u ∷ us) id = let rest = unit_of us id in if str_eq u.unit_id id then some u else rest

-- whether `expand` follows an out-edge
abbrev pub is_followed : Str → Edge → Bool
is_followed id e =
    str_eq e.src_id id && not (str_eq e.dst_id []) && not (str_eq e.edge_kind implements_rpc)

abbrev pub implements : Str → Edge → Bool
implements id e = str_eq e.dst_id id && str_eq e.edge_kind implements_rpc

abbrev pub with_unit : Edge → Option AstUnit → List EdgeWithUnit → List EdgeWithUnit
with_unit e none rest = rest
with_unit e (some u) rest = record { edge = e; far = u } ∷ rest

unfoldable pub successors : List AstUnit → Str → List Edge → List EdgeWithUnit
unfolding unit_of str_eq
successors us id [] = []
successors us id (e ∷ es) =
    let rest = successors us id es in
    if is_followed id e then with_unit e (unit_of us e.dst_id) rest else rest

unfoldable pub implementations : List AstUnit → Str → List Edge → List EdgeWithUnit
unfolding unit_of str_eq
implementations us id [] = []
implementations us id (e ∷ es) =
    let rest = implementations us id es in
    if implements id e then with_unit e (unit_of us e.src_id) rest else rest

abbrev pub is_rpc_method : Option AstUnit → Bool
is_rpc_method none = false
is_rpc_method (some u) = str_eq u.unit_kind rpc_method

-- `expand`
unfoldable pub expand : CodeGraph → Str → List EdgeWithUnit
unfolding successors implementations unit_of str_eq
expand g id =
    successors g.units id g.edges
    ++ (if is_rpc_method (unit_of g.units id) then implementations g.units id g.edges else [])
