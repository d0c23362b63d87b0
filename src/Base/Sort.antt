-- ===== src/Base/Sort.antt =====
-- A stable sort by a test that says which of two goes first, and its laws.
use mathlib.Core.Path.{◌≡◌}
use mathlib.Core.Logic.{inl, inr}
use mathlib.Core.Bool.{Bool, true, false}
use mathlib.Core.List.{List, [], ◌∷◌, ◌++◌, Perm}
use mathlib.Core.List.Perm
use ragota.Base.{All, All-append, All-imp, All-right, Bool-cases, if◌then◌else◌}

module _ {ℓ} {A : Type ℓ} where
  unfoldable pub insert_by : (A → A → Bool) → A → List A → List A
  insert_by less x [] = x ∷ []
  insert_by less x (y ∷ ys) =
      let rest = insert_by less x ys in if less y x then y ∷ rest else x ∷ y ∷ ys

  unfoldable pub sort_by : (A → A → Bool) → List A → List A
  unfolding insert_by
  sort_by less [] = []
  sort_by less (x ∷ xs) = insert_by less x (sort_by less xs)

  -- no element goes before one that stands to its left
  unfoldable pub Sorted : (A → A → Bool) → List A → Type ℓ
  Sorted less [] = Unit
  Sorted less (x ∷ xs) = All (λ y. less y x ≡ false) xs × Sorted less xs

  -- a strict order of which ties are transitive
  pub record IsStrict (less : A → A → Bool) : Type ℓ where
    pub asym : (x y : A) → less x y ≡ true → less y x ≡ false
    pub not_less_trans : (x y z : A) → less y x ≡ false → less z y ≡ false → less z x ≡ false

-- the same, with ties that are transitive over an element of which `P` holds
pub record IsStrictOn {ℓ κ} {A : Type ℓ} (P : A → Type κ) (less : A → A → Bool) : Type (ℓ ⊔ κ) where
  pub asym : (x y : A) → less x y ≡ true → less y x ≡ false
  pub not_less_trans : (x y z : A) → P y → less y x ≡ false → less z y ≡ false → less z x ≡ false

module _ {ℓ} {A : Type ℓ} (less : A → A → Bool) where
  insert_by-perm : (x : A) (ys : List A) → Perm (insert_by less x ys) (x ∷ ys)
  unfolding insert_by
  insert_by-perm x [] = Perm.rfl
  insert_by-perm x (y ∷ ys) = elim (Bool-cases (less y x)) [
    | inl h ↦ rw (h, insert_by) (Perm.trans (Perm.cons y (insert_by-perm x ys)) (Perm.swap x y ys))
    | inr h ↦ rw (h, insert_by) Perm.rfl
  ]

  pub sort_by-perm : (xs : List A) → Perm (sort_by less xs) xs
  unfolding sort_by
  sort_by-perm [] = Perm.rfl
  sort_by-perm (x ∷ xs) =
      Perm.trans (insert_by-perm x (sort_by less xs)) (Perm.cons x (sort_by-perm xs))

  insert_by-All {κ} :
      (P : A → Type κ) (x : A) (ys : List A) → P x → All P ys → All P (insert_by less x ys)
  unfolding insert_by
  insert_by-All P x [] p h = (p, tt)
  insert_by-All P x (y ∷ ys) p h = elim (Bool-cases (less y x)) [
    | inl e ↦ rw (e, insert_by) (h.0, insert_by-All P x ys p h.1)
    | inr e ↦ rw (e, insert_by) (p, h)
  ]

  pub sort_by-All {κ} : (P : A → Type κ) (xs : List A) → All P xs → All P (sort_by less xs)
  unfolding sort_by
  sort_by-All P [] h = tt
  sort_by-All P (x ∷ xs) h = insert_by-All P x (sort_by less xs) h.0 (sort_by-All P xs h.1)

  insert_by-Sorted :
      IsStrict less → (x : A) (ys : List A) → Sorted less ys → Sorted less (insert_by less x ys)
  unfolding insert_by Sorted
  insert_by-Sorted o x [] h = (tt, tt)
  insert_by-Sorted o x (y ∷ ys) h = elim (Bool-cases (less y x)) [
    | inl e ↦
        rw (e, insert_by)
          (
            insert_by-All (λ z. less z y ≡ false) x ys (o.asym y x e) h.0,
            insert_by-Sorted o x ys h.1,
          )
    | inr e ↦ rw (e, insert_by) ((e, All-imp ys (λ z l. o.not_less_trans x y z e l) h.0), h)
  ]

  pub sort_by-Sorted : IsStrict less → (xs : List A) → Sorted less (sort_by less xs)
  unfolding sort_by Sorted
  sort_by-Sorted o [] = tt
  sort_by-Sorted o (x ∷ xs) = insert_by-Sorted o x (sort_by less xs) (sort_by-Sorted o xs)

  insert_by-Sorted_on {κ} :
      {P : A → Type κ}
      → IsStrictOn P less
      → (x : A) (ys : List A) → All P ys
      → Sorted less ys
      → Sorted less (insert_by less x ys)
  unfolding insert_by Sorted
  insert_by-Sorted_on o x [] a h = (tt, tt)
  insert_by-Sorted_on o x (y ∷ ys) a h = elim (Bool-cases (less y x)) [
    | inl e ↦
        rw (e, insert_by)
          (
            insert_by-All (λ z. less z y ≡ false) x ys (o.asym y x e) h.0,
            insert_by-Sorted_on o x ys a.1 h.1,
          )
    | inr e ↦ rw (e, insert_by) ((e, All-imp ys (λ z l. o.not_less_trans x y z a.0 e l) h.0), h)
  ]

  pub sort_by-Sorted_on {κ} :
      {P : A → Type κ}
      → IsStrictOn P less
      → (xs : List A) → All P xs
      → Sorted less (sort_by less xs)
  unfolding sort_by Sorted
  sort_by-Sorted_on o [] a = tt
  sort_by-Sorted_on {P = P} o (x ∷ xs) a =
      insert_by-Sorted_on o x (sort_by less xs) (sort_by-All P xs a.1) (sort_by-Sorted_on o xs a.1)

  All-insert_by {κ} :
      (P : A → Type κ) (x : A) (ys : List A) → All P (insert_by less x ys) → P x × All P ys
  unfolding insert_by
  All-insert_by P x [] h = h
  All-insert_by P x (y ∷ ys) h = elim (Bool-cases (less y x)) [
    | inl e ↦
        let both : P y × All P (insert_by less x ys) = rw (e, insert_by) at h in
        let (px, rest) = All-insert_by P x ys both.1 in (px, (both.0, rest))
    | inr e ↦ rw (e, insert_by) at h
  ]

  -- what holds of every element after the sort held before it
  pub All-sort_by {κ} : (P : A → Type κ) (xs : List A) → All P (sort_by less xs) → All P xs
  unfolding sort_by
  All-sort_by P [] h = tt
  All-sort_by P (x ∷ xs) h =
      let (px, rest) = All-insert_by P x (sort_by less xs) h in (px, All-sort_by P xs rest)

  pub Sorted-append :
      (xs ys : List A)
      → Sorted less xs
      → Sorted less ys
      → All (λ x. All (λ y. less y x ≡ false) ys) xs
      → Sorted less (xs ++ ys)
  unfolding Sorted
  Sorted-append [] ys h k b = k
  Sorted-append (x ∷ xs) ys h k b = (All-append _ xs ys h.0 b.0, Sorted-append xs ys h.1 k b.1)

  pub Sorted-split :
      (xs ys : List A)
      → Sorted less (xs ++ ys)
      → Sorted less ys × All (λ x. All (λ y. less y x ≡ false) ys) xs
  unfolding Sorted
  Sorted-split [] ys h = (h, tt)
  Sorted-split (x ∷ xs) ys h =
      let (s, b) = Sorted-split xs ys h.1 in (s, (All-right _ xs ys h.0, b))

-- a coarser order that the sort keeps to
module _ {ℓ} {A : Type ℓ} (less coarse : A → A → Bool)
    (fits : (x y : A) → less y x ≡ true → coarse x y ≡ false)
    (keeps : (x y : A) → less y x ≡ false → coarse y x ≡ false)
    (trans : (x y z : A) → coarse y x ≡ false → coarse z y ≡ false → coarse z x ≡ false) where
  insert_by-Sorted_by :
      (x : A) (ys : List A) → Sorted coarse ys → Sorted coarse (insert_by less x ys)
  unfolding insert_by Sorted
  insert_by-Sorted_by x [] h = (tt, tt)
  insert_by-Sorted_by x (y ∷ ys) h = elim (Bool-cases (less y x)) [
    | inl e ↦
        rw (e, insert_by)
          (
            insert_by-All less (λ z. coarse z y ≡ false) x ys (fits x y e) h.0,
            insert_by-Sorted_by x ys h.1,
          )
    | inr e ↦
        rw (e, insert_by) ((keeps x y e, All-imp ys (λ z l. trans x y z (keeps x y e) l) h.0), h)
  ]

  pub sort_by-Sorted_by : (xs : List A) → Sorted coarse (sort_by less xs)
  unfolding sort_by Sorted
  sort_by-Sorted_by [] = tt
  sort_by-Sorted_by (x ∷ xs) = insert_by-Sorted_by x (sort_by less xs) (sort_by-Sorted_by xs)
