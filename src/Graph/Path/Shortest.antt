-- ===== src/Graph/Path/Shortest.antt =====
-- The answers of `Path` in internal/graph/graph.go.
use mathlib.Core.Path.{subst}
use ragota.Base.{List, arith, inl, inr, length, refl, some, suc, ℕ, ◌∷◌, ◌≡◌, ◌≤◌, ◌⊎◌}
use ragota.Base.Int.{ℤ}
use ragota.Base.Text.{Str}
use ragota.Graph.Edges.{CodeGraph, unit_of}
use ragota.Graph.Path.{
  Answer, PathStep, depth_or_10, first_step, no_path, out_of_fuel, path_between, path_found,
}
use ragota.Graph.Path.Correct.{IsAnswer, path_between-IsAnswer}
use ragota.Graph.Path.Walks.{Chain, Walk, end_at}
use ragota.Linker.Unit.{AstUnit}

Answer-cases :
    (a : Answer) → ((p : List PathStep) × (a ≡ path_found p)) ⊎ ((a ≡ no_path) ⊎ (a ≡ out_of_fuel))
Answer-cases (path_found p) = inl (p, refl)
Answer-cases no_path = inr (inl refl)
Answer-cases out_of_fuel = inr (inr refl)

-- When the first unit is in the store and some walk of at most the bound on the depth leads to the
-- second unit, then `Path` returns a path, and no walk to that unit has fewer hops than the path.
pub path_finds_shortest :
    (g : CodeGraph) (from to : Str) (max_depth : ℤ) (u : AstUnit) (n : ℕ)
    → unit_of g.units from ≡ some u
    → n ≤ depth_or_10 max_depth
    → Walk g from n to
    → (p : List PathStep) × (path_between g from to max_depth ≡ path_found p) × (length p ≤ suc n)
unfolding IsAnswer
path_finds_shortest g from to max_depth u n known le w =
    let a = path_between-IsAnswer g from to max_depth u known in
    let first = first_step u in
    let good = λ (r : Answer). IsAnswer g from to first (depth_or_10 max_depth) r in
    elim (Answer-cases (path_between g from to max_depth)) [
      | inl (p, e) ↦
          let (ss, e', c, ends, short, best) = subst good e a in
          (p, e, rw e' (omega (arith, best n w)))
      | inr r ↦ elim r [ inl e ↦ absurd (subst good e a n le w) | inr e ↦ absurd (subst good e a) ]
    ]

-- A path that `Path` returns for a first unit of the store begins with that unit and no edge; each
-- later step is a successor that `expand` gives for the unit of the step before; the last unit is
-- the second unit; and there are no more hops than the bound on the depth.
pub path_follows_edges :
    (g : CodeGraph) (from to : Str) (max_depth : ℤ) (u : AstUnit) (p : List PathStep)
    → unit_of g.units from ≡ some u
    → path_between g from to max_depth ≡ path_found p
    → (ss : List PathStep) × (p ≡ first_step u ∷ ss)
      × Chain g from ss
      × (end_at from ss ≡ to)
      × (length ss ≤ depth_or_10 max_depth)
unfolding IsAnswer
path_follows_edges g from to max_depth u p known e =
    let (ss, e', c, ends, short, best) =
      subst (λ r. IsAnswer g from to (first_step u) (depth_or_10 max_depth) r) e
        (path_between-IsAnswer g from to max_depth u known) in
    (ss, e', c, ends, short)
