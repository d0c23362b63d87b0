-- ===== src/Graph/Path/Walks.antt =====
-- What `Path` of internal/graph/graph.go searches: the walks of the graph, hop by hop.
use mathlib.Core.List.{Memᴰ}
use mathlib.Core.List.Memᴰ
use ragota.Base.{Bool, List, [], any, arith, inl, inr, refl, suc, true, ℕ, ◌++◌, ◌∷◌, ◌≡◌}
use ragota.Base.Text.{Str, str_eq, str_eq_refl}
use ragota.Graph.Edges.{CodeGraph, EdgeWithUnit, expand}
use ragota.Graph.Path.{PathStep, step_of}

-- whether a unit with this id is among the far ends
abbrev pub leads_in : List EdgeWithUnit → Str → Bool
leads_in ns v = any (λ n. str_eq v n.far.unit_id) ns

-- whether `expand` leads from one unit to another
unfoldable pub leads : CodeGraph → Str → Str → Bool
unfolding expand str_eq
leads g u v = leads_in (expand g u) v

-- the walks from a unit, by their number of hops
pub data Walk (g : CodeGraph) (from : Str) : ℕ → Str → Type 0 where
  stay : Walk g from 0 from
  hop : {n : ℕ} {u v : Str} → Walk g from n u → leads g u v ≡ true → Walk g from (suc n) v

-- steps that follow edges of the graph, one after the other
unfoldable pub Chain : CodeGraph → Str → List PathStep → Type 0
Chain g u [] = Unit
Chain g u (s ∷ ss) =
    ((n : EdgeWithUnit) × Memᴰ n (expand g u) × (s ≡ step_of n)) × Chain g s.step_unit.unit_id ss

-- where the steps end
abbrev pub end_at : Str → List PathStep → Str
end_at u [] = u
end_at u (s ∷ ss) = end_at s.step_unit.unit_id ss

pub end_at-snoc :
    (u : Str) (ss : List PathStep) (s : PathStep) → end_at u (ss ++ s ∷ []) ≡ s.step_unit.unit_id
end_at-snoc u [] s = refl
end_at-snoc u (t ∷ ss) s = end_at-snoc t.step_unit.unit_id ss s

pub Chain-snoc :
    (g : CodeGraph) (u : Str) (ss : List PathStep) (n : EdgeWithUnit)
    → Chain g u ss
    → Memᴰ n (expand g (end_at u ss))
    → Chain g u (ss ++ step_of n ∷ [])
unfolding Chain
Chain-snoc g u [] n h m = ((n, m, refl), tt)
Chain-snoc g u (s ∷ ss) n h m = (h.0, Chain-snoc g s.step_unit.unit_id ss n h.1 m)

pub leads_in-mem :
    (ns : List EdgeWithUnit) (n : EdgeWithUnit) → Memᴰ n ns → leads_in ns n.far.unit_id ≡ true
leads_in-mem [] n m = absurd (Memᴰ.not-nil m)
leads_in-mem (x ∷ ns) n m = elim (Memᴰ.cases_cons m) [
  | inl e ↦ rw e (rw (str_eq_refl x.far.unit_id) refl)
  | inr r ↦ ground (arith, leads_in-mem ns n r)
]
