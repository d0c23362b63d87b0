-- ===== src/Graph/Path/Advance.antt =====
-- A round of `Path` in internal/graph/graph.go keeps the invariant of the search.
use mathlib.Core.List.{Memᴰ}
use mathlib.Core.Path.{subst}
use ragota.Base.{
  All-append, All-imp, Bool-cases, List, [], ap, arith, false, inl, inr, length, length-append,
  refl, suc, sym, true, ℕ, ◌++◌, ◌∙◌, ◌∷◌, ◌≡◌, ◌≤◌, ◌⊎◌,
}
use ragota.Base.Text.{Str, str_eq, str_eq_iff, str_eq_refl}
use ragota.Base.Text.Laws.{any-append}
use ragota.Graph.Edges.{CodeGraph, expand}
use ragota.Graph.Path.{PathStep, QueueItem, first_item, first_step, seen, step_of}
use ragota.Graph.Path.Invariant.{Expanded, Expanded-later, Inv, Trail, Walk-cases}
use ragota.Graph.Path.Round.{str_eq_comm}
use ragota.Graph.Path.Search.{IsNew, Scanned, queued, unvisited}
use ragota.Graph.Path.Walks.{Chain, Chain-snoc, Walk, end_at-snoc, leads, leads_in}
use ragota.Linker.Unit.{AstUnit}

module _ (g : CodeGraph) (from to : Str) (first : PathStep) (k : ℕ) where
  -- an item that the scan adds continues the trail of the item that is scanned
  pub Trail-new :
      (i j : QueueItem) (visited : List Str)
      → seen to visited ≡ false
      → Trail g from to first k i
      → IsNew i (expand g i.item_id) visited j
      → Trail g from to first (suc k) j
  Trail-new i j visited fresh (ss, e, l, c, ends, other) ((n, mem, p, id), s) = (
    ss ++ step_of n ∷ [],
    p ∙ ap (λ x. x ++ step_of n ∷ []) e,
    omega (arith, length-append ss (step_of n ∷ [])),
    Chain-snoc g from ss n c (subst (λ x. Memᴰ n (expand g x)) (sym ends) mem),
    end_at-snoc from ss (step_of n) ∙ sym id,
    elim (Bool-cases (str_eq j.item_id to)) [
      | inl same ↦
          let marked : seen to visited ≡ true =
            subst (λ x. seen x visited ≡ true) ((str_eq_iff j.item_id to).0 same) s in
          cc (marked, fresh)
      | inr e ↦ e
    ],
  )

  Expanded-Scanned :
      (i : QueueItem) (added : List QueueItem) (v1 v2 : List Str) (v : Str)
      → Scanned g.units to i (expand g i.item_id) v1 v2 added
      → str_eq v i.item_id ≡ true
      → Expanded g v2 v
  unfolding Expanded leads
  Expanded-Scanned i added v1 v2 v s e w l =
      s.all_marked w (subst (λ x. leads_in (expand g x) w ≡ true) ((str_eq_iff v i.item_id).0 e) l)

  -- what waits after a scan
  open_after :
      (i : QueueItem) (near added : List QueueItem) (v1 v2 : List Str) (v : Str)
      → Scanned g.units to i (expand g i.item_id) v1 v2 added
      → queued v (i ∷ near) ≡ true
      → (queued v near ≡ true) ⊎ Expanded g v2 v
  open_after i near added v1 v2 v s q = elim (Bool-cases (str_eq v i.item_id)) [
    | inl e ↦ inr (Expanded-Scanned i added v1 v2 v s e)
    | inr e ↦ inl (ground arith)
  ]

  pub Inv-Scanned :
      (i : QueueItem) (near far added : List QueueItem) (v1 v2 : List Str)
      → Inv g from to first k (i ∷ near) far v1
      → Scanned g.units to i (expand g i.item_id) v1 v2 added
      → Inv g from to first k near (far ++ added) v2
  Inv-Scanned i near far added v1 v2 h s =
      let fresh = s.target_left h.target_left in
      record {
        trails = h.trails.1;
        far_trails =
            All-append _ far added h.far_trails
              (All-imp added (λ j n. Trail-new i j v2 fresh h.trails.0 n) s.items_new);
        reached = λ n v le w. s.marks_kept v (h.reached n v le w);
        near_open = λ n v le w. elim (h.near_open n v le w) [
          | inl q ↦ open_after i near added v1 v2 v s q
          | inr x ↦ inr (Expanded-later g v1 v2 v s.marks_kept x)
        ];
        marked = λ v m. elim (s.marks_new v m) [
          | inl old ↦ elim (h.marked v old) [
            | inl q ↦ elim (open_after i near added v1 v2 v s q) [
              | inl q' ↦ inl q'
              | inr x ↦ inr (inr x)
            ]
            | inr r ↦ elim r [
              | inl q ↦ inr (inl (ground (arith, any-append (λ i. str_eq v i.item_id) far added)))
              | inr x ↦ inr (inr (Expanded-later g v1 v2 v s.marks_kept x))
            ]
          ]
          | inr new ↦ inr (inl (ground (arith, any-append (λ i. str_eq v i.item_id) far added)))
        ];
        target_left = fresh;
      }

pub Inv-first :
    (g : CodeGraph) (from to : Str) (u : AstUnit)
    → str_eq from to ≡ false
    → Inv g from to (first_step u) 0 (first_item u from ∷ []) [] (from ∷ [])
unfolding Chain
Inv-first g from to u other =
    let only : (n : ℕ) (v : Str) → n ≤ 0 → Walk g from n v → v ≡ from = λ n v le w.
      elim (Walk-cases g from w) [
        | inl (e, same) ↦ same
        | inr (m, x, e, w', l) ↦ absurd (omega (arith, e))
      ] in
    record {
      trails = (([], refl, refl, tt, refl, other), tt);
      far_trails = tt;
      reached = λ n v le w. rw (only n v le w) (rw (str_eq_refl from) refl);
      near_open = λ n v le w. inl (rw (only n v le w) (rw (str_eq_refl from) refl));
      marked = λ v s. inl s;
      target_left = ground (arith, str_eq_comm from to other);
    }

pub unvisited-length : (us : List AstUnit) (visited : List Str) → unvisited us visited ≤ length us
unfolding unvisited
unvisited-length [] visited = omega arith
unvisited-length (u ∷ us) visited = ground (arith, unvisited-length us visited)
