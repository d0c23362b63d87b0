-- ===== src/Search/Merge/Lines.antt =====
-- The lines that `mergeSpans` of internal/search/hybrid.go keeps, and which hits stand for them.

use ragota.Base.{
  All, Bool, Bool-cases, List, Option, [], any, ap, arith, false, if◌then◌else◌, inl, inr, leb, ltb,
  map, none, refl, some, sym, true, ℕ, ◌&&◌, ◌||◌, ◌∷◌, ◌≡◌, ◌≤◌,
}
use ragota.Base.Text.{Str, str_eq, str_eq_iff}
use ragota.Search.Hit.{Hit, overlaps, range_end}
use ragota.Search.Merge.{absorb, file_key, merge_into, onto_some}

module _ {F : Type 0} where
  -- whether a hit covers a line of a file
  unfoldable pub covers : Str → Str → ℕ → Hit F → Bool
  unfolding str_eq
  covers r f l h = str_eq h.repo_id r && str_eq h.file_path f && leb h.line l && leb l (range_end h)

  -- what `covers` says of a hit that may be nil
  abbrev pub covers_in : Str → Str → ℕ → Option (Hit F) → Bool
  covers_in r f l none = false
  covers_in r f l (some h) = covers r f l h

  -- an end line that is given, and not before the first line
  abbrev pub IsSpan : Option (Hit F) → Type 0
  IsSpan none = Unit
  IsSpan (some h) = h.line ≤ h.end_line

  -- what a hit is, but for its range and the reason
  abbrev pub body : Hit F → Hit F
  body h = record h { line = 0; end_line = 0; reason = [] }

  span-covers :
      (into hit : Hit F) (l : ℕ)
      → into.line ≤ into.end_line
      → leb into.line (range_end hit) ≡ true
      → leb hit.line (range_end into) ≡ true
      → (leb (if ltb hit.line into.line then hit.line else into.line) l
          && leb l (if ltb (range_end into) (range_end hit) then range_end hit else into.end_line))
        ≡ ((leb into.line l && leb l (range_end into)) || (leb hit.line l && leb l (range_end hit)))
  span-covers into hit l s a b = ground arith

  absorb-IsSpan :
      (into hit : Hit F)
      → into.line ≤ into.end_line
      → (absorb into hit).line ≤ (absorb into hit).end_line
  unfolding absorb
  absorb-IsSpan into hit s = ground arith

  body-absorb : (into hit : Hit F) → body (absorb into hit) ≡ body into
  unfolding absorb
  body-absorb into hit = refl

  absorb-covers :
      (r f : Str) (l : ℕ) (into hit : Hit F)
      → into.line ≤ into.end_line
      → overlaps into hit ≡ true
      → covers r f l (absorb into hit) ≡ (covers r f l into || covers r f l hit)
  unfolding covers absorb
  absorb-covers r f l into hit s o =
      let repo : str_eq into.repo_id hit.repo_id ≡ true = ground (arith, o) in
      let file : str_eq into.file_path hit.file_path ≡ true = ground (arith, o) in
      let repo_is : str_eq hit.repo_id r ≡ str_eq into.repo_id r =
        ap (λ x. str_eq x r) (sym ((str_eq_iff into.repo_id hit.repo_id).0 repo)) in
      let file_is : str_eq hit.file_path f ≡ str_eq into.file_path f =
        ap (λ x. str_eq x f) (sym ((str_eq_iff into.file_path hit.file_path).0 file)) in
      simp (repo_is, file_is) (ground (arith, span-covers into hit l s))

  -- what the search for a hit to merge into leaves
  unfoldable pub MergeInto : Hit F → List (Hit F) → Option (List (Hit F)) → Type 0
  MergeInto hit kept none = Unit
  MergeInto hit kept (some wider) =
      All (λ k. k.line ≤ k.end_line) wider
      × (map body wider ≡ map body kept)
      × ((r f : Str) (l : ℕ)
          → any (covers r f l) wider ≡ (any (covers r f l) kept || covers r f l hit))

  MergeInto-onto_some :
      (hit c : Hit F) (cs : List (Hit F)) (o : Option (List (Hit F)))
      → c.line ≤ c.end_line
      → MergeInto hit cs o
      → MergeInto hit (c ∷ cs) (onto_some c o)
  unfolding MergeInto
  MergeInto-onto_some hit c cs none s h = tt
  MergeInto-onto_some hit c cs (some wider) s (spans, bodies, lines) =
      ((s, spans), ap (◌∷◌ (body c)) bodies, λ r f l. ground (arith, lines r f l))

  pub merge_into-MergeInto :
      (hit : Hit F) (kept : List (Hit F))
      → All (λ k. k.line ≤ k.end_line) kept
      → MergeInto hit kept (merge_into hit kept)
  unfolding MergeInto merge_into
  merge_into-MergeInto hit [] s = tt
  merge_into-MergeInto hit (c ∷ cs) s =
      elim (Bool-cases (str_eq (file_key c) (file_key hit) && overlaps c hit)) [
        | inl h ↦
            rw (h, merge_into)
              (
                (absorb-IsSpan c hit s.0, s.1),
                ap (λ b. b ∷ map body cs) (body-absorb c hit),
                λ r f l. ground (arith, absorb-covers r f l c hit s.0 (ground (arith, h))),
              )
        | inr h ↦
            rw (h, merge_into)
              (MergeInto-onto_some hit c cs _ s.0 (merge_into-MergeInto hit cs s.1))
      ]
