-- ===== src/Graph/Path/Round.antt =====
-- The loop over the successors of an item in `Path` of internal/graph/graph.go.
use mathlib.Core.List.{Memᴰ}
use mathlib.Core.Path.{subst}
use ragota.Base.{
  All, All-imp, Bool-cases, List, [], append-nil, append_assoc, arith, false, inl, inr, refl, sym,
  true, ◌++◌, ◌∙◌, ◌∷◌, ◌≡◌,
}
use ragota.Base.Text.{Str, str_eq, str_eq_iff, str_eq_refl}
use ragota.Graph.Edges.{EdgeWithUnit}
use ragota.Graph.Path.{QueueItem, Scan, arrived, scan_next, scanned, seen, step_of}
use ragota.Graph.Path.Search.{IsNew, ScanResult, is_known, unvisited-lt}
use ragota.Linker.Unit.{AstUnit}

pub str_eq_comm : (s t : Str) → str_eq s t ≡ false → str_eq t s ≡ false
str_eq_comm s t h = elim (Bool-cases (str_eq t s)) [
  | inl e ↦ let same = (str_eq_iff s t).1 (sym ((str_eq_iff t s).0 e)) in ground (arith, same)
  | inr e ↦ e
]

seen-eq : (w id : Str) (v : List Str) → str_eq w id ≡ true → seen id v ≡ true → seen w v ≡ true
seen-eq w id v e h = subst (λ x. seen x v ≡ true) (sym ((str_eq_iff w id).0 e)) h

IsNew-later :
    (item : QueueItem) (n : EdgeWithUnit) (ns : List EdgeWithUnit) (v : List Str) (i : QueueItem)
    → IsNew item ns v i
    → IsNew item (n ∷ ns) v i
IsNew-later item n ns v i ((m, mem, p, e), s) = ((m, Memᴰ.tail mem, p, e), s)

-- a successor that is marked already
ScanResult-skip :
    (us : List AstUnit) (to : Str) (item : QueueItem) (n : EdgeWithUnit) (ns : List EdgeWithUnit)
    (visited : List Str) (queue : List QueueItem) (r : Scan)
    → seen n.far.unit_id visited ≡ true
    → ScanResult us to item ns visited queue r
    → ScanResult us to item (n ∷ ns) visited queue r
unfolding ScanResult
ScanResult-skip us to item n ns visited queue (arrived p) s (m, mem, e1, e2) =
    (m, Memᴰ.tail mem, e1, e2)
ScanResult-skip us to item n ns visited queue (scanned v q) s (added, e, h) = (
  added,
  e,
  record {
    items_new = All-imp added (IsNew-later item n ns v) h.items_new;
    marks_kept = h.marks_kept;
    all_marked = λ w l. elim (Bool-cases (str_eq w n.far.unit_id)) [
      | inl same ↦ seen-eq w n.far.unit_id v same (h.marks_kept n.far.unit_id s)
      | inr other ↦ h.all_marked w (ground arith)
    ];
    marks_new = h.marks_new;
    target_left = h.target_left;
    work = h.work;
  },
)

abbrev pub item_for : QueueItem → EdgeWithUnit → QueueItem
item_for item n = record { item_id = n.far.unit_id; path = item.path ++ step_of n ∷ [] }

-- a successor that is marked and queued
ScanResult-queue :
    (us : List AstUnit) (to : Str) (item : QueueItem) (n : EdgeWithUnit) (ns : List EdgeWithUnit)
    (visited : List Str) (queue : List QueueItem) (r : Scan)
    → is_known us n.far.unit_id ≡ true
    → seen n.far.unit_id visited ≡ false
    → str_eq n.far.unit_id to ≡ false
    → ScanResult us to item ns (n.far.unit_id ∷ visited) (queue ++ item_for item n ∷ []) r
    → ScanResult us to item (n ∷ ns) visited queue r
unfolding ScanResult
ScanResult-queue us to item n ns visited queue (arrived p) known s t (m, mem, e1, e2) =
    (m, Memᴰ.tail mem, e1, e2)
ScanResult-queue us to item n ns visited queue (scanned v q) known s t (added, e, h) =
    let id = n.far.unit_id in
    let self : seen id (id ∷ visited) ≡ true = rw (str_eq_refl id) refl in
    (
      item_for item n ∷ added,
      e ∙ append_assoc queue (item_for item n ∷ []) added,
      record {
        items_new = (
          ((n, Memᴰ.head refl, refl, refl), h.marks_kept id self),
          All-imp added (IsNew-later item n ns v) h.items_new,
        );
        marks_kept = λ w k. h.marks_kept w (ground arith);
        all_marked = λ w l. elim (Bool-cases (str_eq w id)) [
          | inl same ↦ seen-eq w id v same (h.marks_kept id self)
          | inr other ↦ h.all_marked w (ground arith)
        ];
        marks_new = λ w k. elim (h.marks_new w k) [
          | inl old ↦ elim (Bool-cases (str_eq w id)) [
            | inl same ↦ inr (rw same refl)
            | inr other ↦ inl (ground arith)
          ]
          | inr new ↦ inr (ground arith)
        ];
        target_left = λ k. h.target_left (ground (arith, str_eq_comm id to t));
        work = omega (arith, h.work, unvisited-lt us id visited known s);
      },
    )

pub scan_next-ScanResult :
    (us : List AstUnit) (to : Str) (item : QueueItem) (ns : List EdgeWithUnit) (visited : List Str)
    (queue : List QueueItem)
    → All (λ n. is_known us n.far.unit_id ≡ true) ns
    → ScanResult us to item ns visited queue (scan_next to item ns visited queue)
unfolding scan_next ScanResult
scan_next-ScanResult us to item [] visited queue k = (
  [],
  sym (append-nil queue),
  record {
    items_new = tt;
    marks_kept = λ w h. h;
    all_marked = λ w h. ground arith;
    marks_new = λ w h. inl h;
    target_left = λ h. h;
    work = omega arith;
  },
)
scan_next-ScanResult us to item (n ∷ ns) visited queue k =
    elim (Bool-cases (seen n.far.unit_id visited)) [
      | inl s ↦
          rw (s, scan_next)
            (ScanResult-skip us to item n ns visited queue _ s
              (scan_next-ScanResult us to item ns visited queue k.1))
      | inr s ↦ elim (Bool-cases (str_eq n.far.unit_id to)) [
        | inl t ↦ rw (s, t, scan_next) (n, Memᴰ.head refl, refl, (str_eq_iff n.far.unit_id to).0 t)
        | inr t ↦
            rw (s, t, scan_next)
              (ScanResult-queue us to item n ns visited queue _ k.0 s t (
                scan_next-ScanResult us to item ns (n.far.unit_id ∷ visited)
                  (queue ++ item_for item n ∷ []) k.1))
      ]
    ]
