-- ===== src/Graph/Tests.antt =====
-- Runs of `Path` in internal/graph/graph.go, and instances of its theorems.
use ragota.Base.{List, [], arith, length, map, refl, ◌∷◌, ◌≡◌, ◌≤◌}
use ragota.Base.Int.{pos}
use ragota.Base.Text.{Str, codes, str_eq}
use ragota.Graph.Edges.{CodeGraph, Edge, expand, implementations, successors, unit_of}
use ragota.Graph.Path.{
  Answer, PathStep, first_step, no_path, out_of_fuel, path_between, path_found, path_loop,
  scan_next, step_of,
}
use ragota.Graph.Path.Shortest.{path_finds_shortest, path_follows_edges}
use ragota.Graph.Path.Walks.{Chain, Walk, end_at, hop, leads, stay}
use ragota.Linker.Unit.{AstUnit}

abbrev unit_named : Str → Str → AstUnit
unit_named id kind = record {
  unit_id = id;
  repo_id = [];
  file_path = [];
  unit_kind = kind;
  unit_name = id;
  qualified = id;
  signature = [];
  start_line = 1;
  end_line = 2;
  start_byte = 0;
}

abbrev edge_of : Str → Str → Str → Edge
edge_of kind src dst = record { src_id = src; dst_id = dst; edge_kind = kind; dst_name = [] }

-- a client calls a contract method, a server implements it and calls a helper
abbrev rpc_graph : CodeGraph
rpc_graph = record {
  edges =
      edge_of (codes "call") (codes "client") (codes "contract")
      ∷ edge_of (codes "implements_rpc") (codes "server") (codes "contract")
      ∷ edge_of (codes "call") (codes "server") (codes "helper")
      ∷ [];
  units =
      unit_named (codes "client") (codes "function")
      ∷ unit_named (codes "contract") (codes "rpc_method")
      ∷ unit_named (codes "server") (codes "method")
      ∷ unit_named (codes "helper") (codes "function")
      ∷ [];
}

abbrev path_ids : Answer → List Str
path_ids (path_found p) = map (λ s. s.step_unit.unit_id) p
path_ids no_path = []
path_ids out_of_fuel = codes "out of fuel" ∷ []

path_between-rpc :
    path_ids (path_between rpc_graph (codes "client") (codes "helper") (pos 0))
    ≡ codes "client" ∷ codes "contract" ∷ codes "server" ∷ codes "helper" ∷ []
unfolding path_between path_loop scan_next expand successors implementations unit_of str_eq
path_between-rpc = refl

path_between-shallow : path_between rpc_graph (codes "client") (codes "helper") (pos 2) ≡ no_path
unfolding path_between path_loop scan_next expand successors implementations unit_of str_eq
path_between-shallow = refl

to_server : Walk rpc_graph (codes "client") 2 (codes "server")
unfolding leads expand successors implementations unit_of str_eq
to_server = hop {v = codes "server"} (hop {v = codes "contract"} stay refl) refl

path_finds_shortest_example :
    (p : List PathStep) × (path_between rpc_graph (codes "client") (codes "server") (pos 2)
      ≡ path_found p)
    × (length p ≤ 3)
unfolding unit_of str_eq
path_finds_shortest_example =
    path_finds_shortest rpc_graph (codes "client") (codes "server") (pos 2)
      (unit_named (codes "client") (codes "function")) 2 refl (omega arith) to_server

abbrev client : AstUnit
client = unit_named (codes "client") (codes "function")

abbrev contract : AstUnit
contract = unit_named (codes "contract") (codes "rpc_method")

abbrev client_path : List PathStep
client_path =
    first_step client
    ∷ step_of
        record { edge = edge_of (codes "call") client.unit_id contract.unit_id; far = contract }
    ∷ []

path_follows_edges_example :
    (ss : List PathStep) × (client_path ≡ first_step client ∷ ss)
    × Chain rpc_graph (codes "client") ss
    × (end_at (codes "client") ss ≡ codes "contract")
    × (length ss ≤ 10)
unfolding path_between path_loop scan_next expand successors implementations unit_of str_eq
path_follows_edges_example =
    path_follows_edges rpc_graph (codes "client") (codes "contract") (pos 0) client client_path refl
      refl
