-- ===== src/Graph/Path/Invariant.antt =====
-- What holds between the rounds of `Path` in internal/graph/graph.go. The queue is in two parts:
-- the items of this depth and those of the next.
use ragota.Base.{
  All, List, [], arith, false, inl, inr, length, refl, suc, true, ℕ, ◌∷◌, ◌≡◌, ◌≤◌, ◌⊎◌,
}
use ragota.Base.Text.{Str, str_eq}
use ragota.Graph.Edges.{CodeGraph}
use ragota.Graph.Path.{PathStep, QueueItem, seen}
use ragota.Graph.Path.Search.{queued}
use ragota.Graph.Path.Walks.{Chain, Walk, end_at, hop, leads, stay}

-- an item whose steps follow edges from the first unit
abbrev pub Trail : CodeGraph → Str → Str → PathStep → ℕ → QueueItem → Type 0
Trail g from to first n i =
    (ss : List PathStep) × (i.path ≡ first ∷ ss)
    × (length ss ≡ n)
    × Chain g from ss
    × (end_at from ss ≡ i.item_id)
    × (str_eq i.item_id to ≡ false)

pub length-Trail :
    (g : CodeGraph) (from to : Str) (first : PathStep) (n : ℕ) (i : QueueItem)
    → Trail g from to first n i
    → length i.path ≡ suc n
length-Trail g from to first n i (ss, e, l, c, ends, other) = rw e (omega arith)

-- a unit whose successors are all marked
unfoldable pub Expanded : CodeGraph → List Str → Str → Type 0
Expanded g visited v = (w : Str) → leads g v w ≡ true → seen w visited ≡ true

pub record Inv (g : CodeGraph) (from to : Str) (first : PathStep) (k : ℕ)
    (near far : List QueueItem) (visited : List Str) : Type 0 where
  pub trails : All (Trail g from to first k) near
  pub far_trails : All (Trail g from to first (suc k)) far
  pub reached : (n : ℕ) (v : Str) → n ≤ k → Walk g from n v → seen v visited ≡ true
  pub near_open :
      (n : ℕ) (v : Str) → n ≤ k → Walk g from n v → (queued v near ≡ true) ⊎ Expanded g visited v
  pub marked :
      (v : Str)
      → seen v visited ≡ true
      → (queued v near ≡ true) ⊎ ((queued v far ≡ true) ⊎ Expanded g visited v)
  pub target_left : seen to visited ≡ false

pub Expanded-later :
    (g : CodeGraph) (v1 v2 : List Str) (v : Str)
    → ((w : Str) → seen w v1 ≡ true → seen w v2 ≡ true)
    → Expanded g v1 v
    → Expanded g v2 v
unfolding Expanded
Expanded-later g v1 v2 v grow e w l = grow w (e w l)

-- the last hop of a walk
pub Walk-cases :
    (g : CodeGraph) (from : Str) {n : ℕ} {v : Str}
    → Walk g from n v
    → ((n ≡ 0) × (v ≡ from))
      ⊎ ((m : ℕ) × (u : Str) × (n ≡ suc m) × Walk g from m u × (leads g u v ≡ true))
Walk-cases g from stay = inl (refl, refl)
Walk-cases g from (hop {n} {u} w l) = inr (n, u, refl, w, l)

-- with no item of this depth left the search goes on to the next depth
pub Inv-deeper :
    (g : CodeGraph) (from to : Str) (first : PathStep) (k : ℕ) (far : List QueueItem)
    (visited : List Str)
    → Inv g from to first k [] far visited
    → Inv g from to first (suc k) far [] visited
unfolding Expanded
Inv-deeper g from to first k far visited h =
    let deep : (n : ℕ) (v : Str) → n ≤ suc k → Walk g from n v → seen v visited ≡ true = λ n v le w.
      elim (Walk-cases g from w) [
        | inl (e, same) ↦ h.reached n v (omega arith) w
        | inr (m, u, e, w', l) ↦ elim (h.near_open m u (omega arith) w') [
          | inl q ↦ cc q
          | inr x ↦ x v l
        ]
      ] in
    record {
      trails = h.far_trails;
      far_trails = tt;
      reached = deep;
      near_open = λ n v le w. elim (h.marked v (deep n v le w)) [ inl q ↦ cc q | inr r ↦ r ];
      marked = λ v s. elim (h.marked v s) [
        | inl q ↦ cc q
        | inr r ↦ elim r [ inl q ↦ inl q | inr x ↦ inr (inr x) ]
      ];
      target_left = h.target_left;
    }

-- with nothing queued every walk stays among the marked units
pub Walk-marked :
    (g : CodeGraph) (from to : Str) (first : PathStep) (k : ℕ) (visited : List Str)
    → Inv g from to first k [] [] visited
    → {n : ℕ} {v : Str} → Walk g from n v
    → seen v visited ≡ true
unfolding Expanded
Walk-marked g from to first k visited h stay = h.reached 0 from (omega arith) stay
Walk-marked g from to first k visited h (hop {n} {u} {v} w l) =
    elim (h.marked u (Walk-marked g from to first k visited h w)) [
      | inl q ↦ cc q
      | inr r ↦ elim r [ inl q ↦ cc q | inr x ↦ x v l ]
    ]
