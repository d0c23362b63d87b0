-- ===== src/Graph/Path/Correct.antt =====
-- The rounds of `Path` in internal/graph/graph.go, up to an answer.
use mathlib.Core.List.{Memᴰ}
use mathlib.Core.Path.{subst}
use ragota.Base.{
  All, All-append, All-imp, Bool-cases, List, [], ap, append-nil, append_assoc, arith, inl, inr,
  leb, leb→le, length, length-append, ltb, ltb→lt, lt→ltb, refl, some, suc, sym, true, zero, ℕ,
  ◌++◌, ◌+◌, ◌<◌, ◌∙◌, ◌∷◌, ◌≡◌, ◌≤◌,
}
use ragota.Base.Int.{negsuc, pos, ℤ}
use ragota.Base.Text.{Str, str_eq, str_eq_iff}
use ragota.Graph.Edges.{CodeGraph, EdgeWithUnit, expand, unit_of}
use ragota.Graph.Path.{
  Answer, PathStep, QueueItem, Scan, after_scan, arrived, depth_or_10, first_item, first_step,
  no_path, out_of_fuel, path_between, path_found, path_loop, scanned, step_of,
}
use ragota.Graph.Path.Advance.{Inv-Scanned, Inv-first, unvisited-length}
use ragota.Graph.Path.Invariant.{Inv, Inv-deeper, Walk-marked, length-Trail}
use ragota.Graph.Path.Known.{expand-Known}
use ragota.Graph.Path.Round.{scan_next-ScanResult}
use ragota.Graph.Path.Search.{ScanResult, unvisited}
use ragota.Graph.Path.Walks.{Chain, Chain-snoc, Walk, end_at, end_at-snoc}
use ragota.Linker.Unit.{AstUnit}

-- what the search promises of its answer
unfoldable pub IsAnswer : CodeGraph → Str → Str → PathStep → ℕ → Answer → Type 0
IsAnswer g from to first max_depth (path_found p) =
    (ss : List PathStep) × (p ≡ first ∷ ss)
    × Chain g from ss
    × (end_at from ss ≡ to)
    × (length ss ≤ max_depth)
    × ((n : ℕ) → Walk g from n to → length ss ≤ n)
IsAnswer g from to first max_depth no_path = (n : ℕ) → n ≤ max_depth → ¬ (Walk g from n to)
IsAnswer g from to first max_depth out_of_fuel = ⊥

-- the items that are too long are taken from the queue, and no more
path_loop-cut :
    (g : CodeGraph) (to : Str) (max_depth fuel : ℕ) (visited : List Str) (queue : List QueueItem)
    → All (λ i. max_depth < length i.path) queue
    → length queue < fuel
    → path_loop g to max_depth fuel visited queue ≡ no_path
unfolding path_loop
path_loop-cut g to max_depth zero visited queue long enough = ground arith
path_loop-cut g to max_depth (suc fuel) visited [] long enough = refl
path_loop-cut g to max_depth (suc fuel) visited (i ∷ queue) long enough =
    rw (lt→ltb max_depth (length i.path) long.0, path_loop)
      (path_loop-cut g to max_depth fuel visited queue long.1 (omega arith))

module _ (g : CodeGraph) (from to : Str) (first : PathStep) (max_depth : ℕ) where
  arrived-IsAnswer :
      (k : ℕ) (i : QueueItem) (near far : List QueueItem) (visited : List Str) (p : List PathStep)
      → Inv g from to first k (i ∷ near) far visited
      → length i.path ≤ max_depth
      → (n : EdgeWithUnit) × Memᴰ n (expand g i.item_id)
        × (p ≡ i.path ++ step_of n ∷ [])
        × (n.far.unit_id ≡ to)
      → IsAnswer g from to first max_depth (path_found p)
  unfolding IsAnswer
  arrived-IsAnswer k i near far visited p h short (n, mem, e, far_id) =
      let (ss, e', l, c, ends, other) = h.trails.0 in
      let len : length (ss ++ step_of n ∷ []) ≡ suc k =
        omega (arith, length-append ss (step_of n ∷ [])) in
      (
        ss ++ step_of n ∷ [],
        e ∙ ap (λ x. x ++ step_of n ∷ []) e',
        Chain-snoc g from ss n c (subst (λ x. Memᴰ n (expand g x)) (sym ends) mem),
        end_at-snoc from ss (step_of n) ∙ far_id,
        omega (arith, length-Trail g from to first k i h.trails.0),
        λ m w. elim (Bool-cases (leb m k)) [
          | inl le ↦ cc (h.reached m to (leb→le m k le) w, h.target_left)
          | inr gt ↦ ground (arith, len)
        ],
      )

  cut-IsAnswer :
      (fuel k : ℕ) (i : QueueItem) (near far : List QueueItem) (visited : List Str)
      → Inv g from to first k (i ∷ near) far visited
      → max_depth < length i.path
      → length (i ∷ near ++ far) < fuel
      → IsAnswer g from to first max_depth (path_loop g to max_depth fuel visited (i ∷ near ++ far))
  unfolding IsAnswer
  cut-IsAnswer fuel k i near far visited h long enough =
      let len = length-Trail g from to first k i h.trails.0 in
      let rest =
        All-append (λ j. max_depth < length j.path) (i ∷ near) far
          (All-imp (i ∷ near) (λ j t. omega (arith, length-Trail g from to first k j t)) h.trails)
          (All-imp far (λ j t. omega (arith, length-Trail g from to first (suc k) j t))
            h.far_trails) in
      rw (path_loop-cut g to max_depth fuel visited (i ∷ near ++ far) rest enough)
        (λ n le w. cc (h.reached n to (omega (arith, len)) w, h.target_left))

  scan-IsAnswer :
      (fuel k : ℕ) (i : QueueItem) (near far : List QueueItem) (visited : List Str) (r : Scan)
      → ((k' : ℕ) (near' far' : List QueueItem) (visited' : List Str)
          → Inv g from to first k' near' far' visited'
          → unvisited g.units visited' + length (near' ++ far') < fuel
          → IsAnswer g from to first max_depth
              (path_loop g to max_depth fuel visited' (near' ++ far')))
      → Inv g from to first k (i ∷ near) far visited
      → length i.path ≤ max_depth
      → unvisited g.units visited + length (near ++ far) < fuel
      → ScanResult g.units to i (expand g i.item_id) visited (near ++ far) r
      → IsAnswer g from to first max_depth (after_scan (λ v q. path_loop g to max_depth fuel v q) r)
  unfolding ScanResult
  scan-IsAnswer fuel k i near far visited (arrived p) ih h short enough s =
      arrived-IsAnswer k i near far visited p h short s
  scan-IsAnswer fuel k i near far visited (scanned v q) ih h short enough (added, e, s) =
      rw (e, append_assoc near far added)
        (ih k near (far ++ added) v (Inv-Scanned g from to first k i near far added visited v h s) (
          omega (
            arith,
            s.work,
            length-append near far,
            length-append near (far ++ added),
            length-append far added,
          )))

  -- the search answers from an item of this depth
  round-IsAnswer :
      (fuel k : ℕ) (i : QueueItem) (near far : List QueueItem) (visited : List Str)
      → ((k' : ℕ) (near' far' : List QueueItem) (visited' : List Str)
          → Inv g from to first k' near' far' visited'
          → unvisited g.units visited' + length (near' ++ far') < fuel
          → IsAnswer g from to first max_depth
              (path_loop g to max_depth fuel visited' (near' ++ far')))
      → Inv g from to first k (i ∷ near) far visited
      → unvisited g.units visited + length (i ∷ near ++ far) < suc fuel
      → IsAnswer g from to first max_depth
          (path_loop g to max_depth (suc fuel) visited (i ∷ near ++ far))
  unfolding path_loop IsAnswer
  round-IsAnswer fuel k i near far visited ih h enough =
      elim (Bool-cases (ltb max_depth (length i.path))) [
        | inl long ↦ cut-IsAnswer (suc fuel) k i near far visited h (ltb→lt _ _ long) (omega arith)
        | inr short ↦
            let (ss, e, l, c, ends, other) = h.trails.0 in
            rw (short, other, path_loop)
              (scan-IsAnswer fuel k i near far visited _ ih h (ground arith) (omega arith) (
                scan_next-ScanResult g.units to i (expand g i.item_id) visited (near ++ far)
                  (expand-Known g i.item_id)))
      ]

  loop-IsAnswer :
      (fuel k : ℕ) (near far : List QueueItem) (visited : List Str)
      → Inv g from to first k near far visited
      → unvisited g.units visited + length (near ++ far) < fuel
      → IsAnswer g from to first max_depth (path_loop g to max_depth fuel visited (near ++ far))
  unfolding path_loop IsAnswer
  loop-IsAnswer zero k near far visited h enough = ground arith
  loop-IsAnswer (suc fuel) k (i ∷ near) far visited h enough =
      round-IsAnswer fuel k i near far visited (loop-IsAnswer fuel) h enough
  loop-IsAnswer (suc fuel) k [] (i ∷ far) visited h enough =
      subst
        (λ q. IsAnswer g from to first max_depth (path_loop g to max_depth (suc fuel) visited q))
        (append-nil (i ∷ far))
        (round-IsAnswer fuel (suc k) i far [] visited (loop-IsAnswer fuel)
          (Inv-deeper g from to first k (i ∷ far) visited h) (rw (append-nil far) enough))
  loop-IsAnswer (suc fuel) k [] [] visited h enough =
      λ n le w. cc (Walk-marked g from to first k visited h w, h.target_left)

path_between-known :
    (g : CodeGraph) (from to : Str) (max_depth : ℤ) (u : AstUnit)
    → unit_of g.units from ≡ some u
    → path_between g from to max_depth
      ≡ path_loop g to
          (depth_or_10 max_depth)
          (suc (suc (length g.units)))
          (from ∷ [])
          (first_item u from ∷ [])
unfolding path_between
path_between-known g from to max_depth u e = rw (e, path_between) refl

depth-positive : (max_depth : ℤ) → 1 ≤ depth_or_10 max_depth
depth-positive (pos zero) = omega arith
depth-positive (pos (suc n)) = omega arith
depth-positive (negsuc n) = omega arith

path_loop-same :
    (g : CodeGraph) (from to : Str) (u : AstUnit) (max_depth fuel : ℕ)
    → str_eq from to ≡ true
    → 1 ≤ max_depth
    → path_loop g to max_depth (suc fuel) (from ∷ []) (first_item u from ∷ [])
      ≡ path_found (first_step u ∷ [])
unfolding path_loop
path_loop-same g from to u max_depth fuel e long = ground arith

-- the search from a unit of the store
pub path_between-IsAnswer :
    (g : CodeGraph) (from to : Str) (max_depth : ℤ) (u : AstUnit)
    → unit_of g.units from ≡ some u
    → IsAnswer g from to (first_step u) (depth_or_10 max_depth) (path_between g from to max_depth)
unfolding IsAnswer Chain
path_between-IsAnswer g from to max_depth u e =
    simp (path_between-known g from to max_depth u e) (elim (Bool-cases (str_eq from to)) [
      | inl same ↦
          simp
            (path_loop-same g from to u (depth_or_10 max_depth) (suc (length g.units)) same
              (depth-positive max_depth))
            ([], refl, tt, (str_eq_iff from to).0 same, omega arith, λ n w. omega arith)
      | inr other ↦
          loop-IsAnswer g from to (first_step u) (depth_or_10 max_depth)
            (suc (suc (length g.units))) 0 (first_item u from ∷ []) [] (from ∷ [])
            (Inv-first g from to u other) (omega (arith, unvisited-length g.units (from ∷ [])))
    ])
