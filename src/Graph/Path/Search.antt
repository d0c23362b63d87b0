-- ===== src/Graph/Path/Search.antt =====
-- One round of `Path` of internal/graph/graph.go: the loop over the successors of an item.
use mathlib.Core.List.{Memᴰ}
use mathlib.Core.Path.{subst}
use ragota.Base.{
  All, Bool, Bool-cases, List, [], any, arith, false, if◌then◌else◌, inl, inr, length, suc, sym,
  true, ℕ, ◌++◌, ◌+◌, ◌<◌, ◌∷◌, ◌≡◌, ◌≤◌, ◌⊎◌,
}
use ragota.Base.Text.{Str, str_eq, str_eq_iff}
use ragota.Graph.Edges.{EdgeWithUnit}
use ragota.Graph.Path.{QueueItem, Scan, arrived, scanned, seen, step_of}
use ragota.Graph.Path.Walks.{leads_in}
use ragota.Linker.Unit.{AstUnit}

-- the units that are not marked yet
unfoldable pub unvisited : List AstUnit → List Str → ℕ
unfolding str_eq
unvisited [] visited = 0
unvisited (u ∷ us) visited =
    let rest = unvisited us visited in if seen u.unit_id visited then rest else suc rest

abbrev pub is_known : List AstUnit → Str → Bool
is_known us id = any (λ u. str_eq u.unit_id id) us

unvisited-le :
    (us : List AstUnit) (id : Str) (visited : List Str)
    → unvisited us (id ∷ visited) ≤ unvisited us visited
unfolding unvisited
unvisited-le [] id visited = omega arith
unvisited-le (u ∷ us) id visited = ground (arith, unvisited-le us id visited)

pub unvisited-lt :
    (us : List AstUnit) (id : Str) (visited : List Str)
    → is_known us id ≡ true
    → seen id visited ≡ false
    → unvisited us (id ∷ visited) < unvisited us visited
unfolding unvisited
unvisited-lt [] id visited h s = ground arith
unvisited-lt (u ∷ us) id visited h s = elim (Bool-cases (str_eq u.unit_id id)) [
  | inl e ↦
      let unmarked : seen u.unit_id visited ≡ false =
        subst (λ x. seen x visited ≡ false) (sym ((str_eq_iff u.unit_id id).0 e)) s in
      ground (arith, unvisited-le us id visited)
  | inr e ↦ ground (arith, unvisited-lt us id visited, unvisited-le us id visited)
]

abbrev pub queued : Str → List QueueItem → Bool
queued v q = any (λ i. str_eq v i.item_id) q

-- an item that the scan of these successors of an item adds
abbrev pub IsNew : QueueItem → List EdgeWithUnit → List Str → QueueItem → Type 0
IsNew item ns visited i =
    ((n : EdgeWithUnit) × Memᴰ n ns
      × (i.path ≡ item.path ++ step_of n ∷ [])
      × (i.item_id ≡ n.far.unit_id))
    × (seen i.item_id visited ≡ true)

-- what a scan leaves
pub record Scanned (us : List AstUnit) (to : Str) (item : QueueItem) (ns : List EdgeWithUnit)
    (before after : List Str) (added : List QueueItem) : Type 0 where
  pub items_new : All (IsNew item ns after) added
  pub marks_kept : (w : Str) → seen w before ≡ true → seen w after ≡ true
  pub all_marked : (w : Str) → leads_in ns w ≡ true → seen w after ≡ true
  pub marks_new : (w : Str) → seen w after ≡ true → (seen w before ≡ true) ⊎ (queued w added ≡ true)
  pub target_left : seen to before ≡ false → seen to after ≡ false
  pub work : unvisited us after + length added ≤ unvisited us before

unfoldable pub ScanResult :
    List AstUnit → Str → QueueItem → List EdgeWithUnit → List Str → List QueueItem → Scan → Type 0
ScanResult us to item ns visited queue (arrived p) =
    (n : EdgeWithUnit) × Memᴰ n ns × (p ≡ item.path ++ step_of n ∷ []) × (n.far.unit_id ≡ to)
ScanResult us to item ns visited queue (scanned visited' queue') =
    (added : List QueueItem) × (queue' ≡ queue ++ added)
    × Scanned us to item ns visited visited' added
