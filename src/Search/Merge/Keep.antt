-- ===== src/Search/Merge/Keep.antt =====
-- What `mergeSpans` of internal/search/hybrid.go returns.
use mathlib.Core.List.{Sublist}
use mathlib.Core.Path.{subst}
use mathlib.Core.List.Sublist
use ragota.Base.{
  All, All-append, Bool-cases, List, Option, Option-cases, [], any, ap, append-nil, append_assoc,
  arith, inl, inr, length, length-append, length-map, ltb, map, map-append, none, refl, some, suc,
  sym, ℕ, ◌++◌, ◌+◌, ◌||◌, ◌∙◌, ◌∷◌, ◌≡◌, ◌≤◌,
}
use ragota.Base.Text.{Str}
use ragota.Base.Text.Laws.{any-append}
use ragota.Search.Hit.{Hit}
use ragota.Search.Merge.{merge_into, merge_loop, merge_spans}
use ragota.Search.Merge.Lines.{IsSpan, MergeInto, body, covers, covers_in, merge_into-MergeInto}

module _ {F : Type 0} where
  abbrev pub present : List (Option (Hit F)) → List (Hit F)
  present [] = []
  present (none ∷ hs) = present hs
  present (some h ∷ hs) = h ∷ present hs

  pub record Kept (hits : List (Option (Hit F))) (kept : List (Hit F)) (n : ℕ)
      (after : List (Hit F) × ℕ) : Type 0 where
    pub lines :
        (r f : Str) (l : ℕ)
        → any (covers r f l) after.0 ≡ (any (covers r f l) kept || any (covers_in r f l) hits)
    pub ranked :
        (later : List (Hit F)) × (map body after.0 ≡ map body kept ++ later)
        × Sublist later (map body (present hits))
    pub counted : length after.0 + after.1 ≡ length kept + n + length (present hits)

  Kept-new :
      (h : Hit F) (hits : List (Option (Hit F))) (kept : List (Hit F)) (n : ℕ)
      (r : List (Hit F) × ℕ)
      → Kept hits (kept ++ h ∷ []) n r
      → Kept (some h ∷ hits) kept n r
  Kept-new h hits kept n r k =
      let (later, e, s) = k.ranked in
      record {
        lines = λ q f l. ground (arith, k.lines q f l, any-append (covers q f l) kept (h ∷ []));
        ranked = (
          body h ∷ later,
          e
              ∙ ap (λ x. x ++ later) (map-append body kept (h ∷ []))
              ∙ append_assoc (map body kept) (body h ∷ []) later,
          Sublist.cons-cons (body h) s,
        );
        counted = omega (arith, k.counted, length-append kept (h ∷ []));
      }

  Kept-merged :
      (h : Hit F) (hits : List (Option (Hit F))) (kept wider : List (Hit F)) (n : ℕ)
      (r : List (Hit F) × ℕ)
      → map body wider ≡ map body kept
      → ((q f : Str) (l : ℕ)
          → any (covers q f l) wider ≡ (any (covers q f l) kept || covers q f l h))
      → Kept hits wider (suc n) r
      → Kept (some h ∷ hits) kept n r
  Kept-merged h hits kept wider n r bodies widened k =
      let (later, e, s) = k.ranked in
      record {
        lines = λ q f l. ground (arith, k.lines q f l, widened q f l);
        ranked = (later, e ∙ ap (λ x. x ++ later) bodies, Sublist.cons (body h) s);
        counted =
            omega (arith, k.counted, length-map body wider, length-map body kept, ap length bodies);
      }

  merge_loop-Kept :
      (hits : List (Option (Hit F))) (kept : List (Hit F)) (n : ℕ)
      → All IsSpan hits
      → All (λ k. k.line ≤ k.end_line) kept
      → Kept hits kept n (merge_loop hits kept n)
  unfolding merge_loop MergeInto
  merge_loop-Kept [] kept n s t = record {
    lines = λ q f l. ground arith;
    ranked = ([], sym (append-nil (map body kept)), Sublist.refl []);
    counted = omega arith;
  }
  merge_loop-Kept (none ∷ hits) kept n s t =
      let k = merge_loop-Kept hits kept n s.1 t in
      record { lines = k.lines; ranked = k.ranked; counted = k.counted }
  merge_loop-Kept (some h ∷ hits) kept n s t = elim (Option-cases (merge_into h kept)) [
    | inl e ↦
        simp (e, merge_loop)
          (Kept-new h hits kept n _
            (merge_loop-Kept hits (kept ++ h ∷ []) n s.1 (All-append _ kept (h ∷ []) t (s.0, tt))))
    | inr (wider, e) ↦
        let (spans, bodies, lines) = subst (MergeInto h kept) e (merge_into-MergeInto h kept t) in
        simp (e, merge_loop)
          (Kept-merged h hits kept wider n _ bodies lines
            (merge_loop-Kept hits wider (suc n) s.1 spans))
  ]

module _ {F : Type 0} where
  any-some :
      (r f : Str) (l : ℕ) (hs : List (Hit F))
      → any (covers_in r f l) (map some hs) ≡ any (covers r f l) hs
  any-some r f l [] = refl
  any-some r f l (h ∷ hs) = ap (λ b. covers r f l h || b) (any-some r f l hs)

  present-some : (hs : List (Hit F)) → present (map some hs) ≡ hs
  present-some [] = refl
  present-some (h ∷ hs) = ap (◌∷◌ h) (present-some hs)

  -- Of hits whose end line is not before their first line, `mergeSpans` keeps exactly the lines: a
  -- line of a file is covered by the hits that it returns if and only if the hits that it was given
  -- cover it.
  pub covers-merge_spans :
      (hits : List (Option (Hit F))) (r f : Str) (l : ℕ)
      → All IsSpan hits
      → any (covers_in r f l) (merge_spans hits).0 ≡ any (covers_in r f l) hits
  unfolding merge_spans
  covers-merge_spans hits r f l s = elim (Bool-cases (ltb (length hits) 2)) [
    | inl e ↦ rw (e, merge_spans) refl
    | inr e ↦ rw (e, merge_spans) (any-some r f l _ ∙ (merge_loop-Kept hits [] 0 s tt).lines r f l)
  ]

  -- Of hits whose end line is not before their first line, `mergeSpans` returns some, in their
  -- order and changed in nothing but the range and the reason; the number that it reports as merged
  -- makes up for those that are missing.
  pub merge_spans_lem :
      (hits : List (Option (Hit F)))
      → All IsSpan hits
      → Sublist (map body (present (merge_spans hits).0)) (map body (present hits))
        × (length (present (merge_spans hits).0) + (merge_spans hits).1 ≡ length (present hits))
  unfolding merge_spans
  merge_spans_lem hits s =
      let k = merge_loop-Kept hits [] 0 s tt in
      let (later, e, sub) = k.ranked in
      elim (Bool-cases (ltb (length hits) 2)) [
        | inl few ↦ rw (few, merge_spans) (Sublist.refl _, omega arith)
        | inr many ↦
            rw (many, merge_spans)
              (rw (present-some (merge_loop hits [] 0).0) (
                subst (λ x. Sublist x (map body (present hits))) (sym e) sub,
                omega (arith, k.counted),
              ))
      ]
