-- ===== src/Graph/Path.antt =====
-- internal/graph/graph.go: `Path`, a breadth-first search with a bound on the depth.
pub mod Walks
pub mod Search
pub mod Round
pub mod Invariant
pub mod Advance
pub mod Known
pub mod Correct
pub mod Shortest
use ragota.Base.{
  Bool, List, Option, [], any, false, length, ltb, none, some, suc, true, zero, ℕ, ◌++◌, ◌∷◌,
}
use ragota.Base.Int.{negsuc, pos, ℤ}
use ragota.Base.Text.{Str, str_eq}
use ragota.Graph.Edges.{CodeGraph, Edge, EdgeWithUnit, expand, unit_of}
use ragota.Linker.Unit.{AstUnit}

pub record PathStep : Type 0 where
  pub step_edge : Option Edge  -- none for the first unit
  pub step_unit : AstUnit
  pub via : Str

pub record QueueItem : Type 0 where
  pub item_id : Str
  pub path : List PathStep

pub data Answer : Type 0 where
  path_found : List PathStep → Answer
  no_path out_of_fuel : Answer

-- what the loop over the successors leaves: an answer, or the marks and the queue
pub data Scan : Type 0 where
  arrived : List PathStep → Scan
  scanned : List Str → List QueueItem → Scan

abbrev pub seen : Str → List Str → Bool
seen id visited = any (str_eq id) visited

abbrev pub step_of : EdgeWithUnit → PathStep
step_of n = record { step_edge = some n.edge; step_unit = n.far; via = n.edge.edge_kind }

-- the loop over the successors of an item
unfoldable pub scan_next : Str → QueueItem → List EdgeWithUnit → List Str → List QueueItem → Scan
unfolding str_eq
scan_next to item [] visited queue = scanned visited queue
scan_next to item (n ∷ ns) visited queue =
    let id = n.far.unit_id in
    let path = item.path ++ step_of n ∷ [] in
    elim (seen id visited) [
      | true ↦ scan_next to item ns visited queue
      | false ↦ elim (str_eq id to) [
        | true ↦ arrived path
        | false ↦
            scan_next to item ns (id ∷ visited) (queue ++ record { item_id = id; path = path } ∷ [])
      ]
    ]

-- what follows the loop over the successors
abbrev pub after_scan : (List Str → List QueueItem → Answer) → Scan → Answer
after_scan later (arrived p) = path_found p
after_scan later (scanned visited queue) = later visited queue

-- The loop over the queue. A unit is queued once, so a round for each unit, and one for the first,
-- is enough fuel.
unfoldable pub path_loop : CodeGraph → Str → ℕ → ℕ → List Str → List QueueItem → Answer
unfolding expand scan_next str_eq
path_loop g to max_depth zero visited queue = out_of_fuel
path_loop g to max_depth (suc fuel) visited [] = no_path
path_loop g to max_depth (suc fuel) visited (item ∷ queue) =
    let skipped = path_loop g to max_depth fuel visited queue in
    elim (ltb max_depth (length item.path)) [
      | true ↦ skipped
      | false ↦ elim (str_eq item.item_id to) [
        | true ↦ path_found item.path
        | false ↦
            after_scan (λ v q. path_loop g to max_depth fuel v q)
              (scan_next to item (expand g item.item_id) visited queue)
      ]
    ]

abbrev pub depth_or_10 : ℤ → ℕ
depth_or_10 (pos zero) = 10
depth_or_10 (pos (suc n)) = suc n
depth_or_10 (negsuc n) = 10

abbrev pub first_step : AstUnit → PathStep
first_step u = record { step_edge = none; step_unit = u; via = [] }

abbrev pub first_item : AstUnit → Str → QueueItem
first_item u id = record { item_id = id; path = first_step u ∷ [] }

-- `Path`; an unknown first unit is `ErrNotFound` too
unfoldable pub path_between : CodeGraph → Str → Str → ℤ → Answer
unfolding path_loop unit_of
path_between g from to max_depth = elim (unit_of g.units from) [
  | none ↦ no_path
  | some u ↦
      path_loop g to (depth_or_10 max_depth) (suc (suc (length g.units))) (from ∷ [])
        (first_item u from ∷ [])
]
