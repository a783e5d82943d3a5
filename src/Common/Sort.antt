-- ===== src/Common/Sort.antt =====
-- Go's slices.SortStableFunc (and SortFunc, where no two entries compare equal): the stable sort
-- by a comparison, of which only the test `less` is used.
use mathlib.Core.List.{Perm}
use mathlib.Core.List.Perm
use new_trs.Common.{
  ◌≡◌, Bool, true, false, List, [], ◌∷◌, inl, inr, if◌then◌else◌, Bool-cases, All, All-imp, length,
  arith,
}

module _ {ℓ} {A : Type ℓ} (less : A → A → Bool) where
  -- Into a sorted list, before the entries that are equal to it.
  unfoldable pub insert : A → List A → List A
  insert x [] = x ∷ []
  insert x (y ∷ ys) = if less y x then y ∷ insert x ys else x ∷ y ∷ ys

  unfoldable pub sort : List A → List A
  unfolding insert
  sort [] = []
  sort (x ∷ xs) = insert x (sort xs)

  -- No entry is less than one before it.
  abbrev pub IsSorted : List A → Type 0
  IsSorted [] = Unit
  IsSorted (x ∷ xs) = All (λ y. less y x ≡ false) xs × IsSorted xs

  insert-perm : (x : A) (ys : List A) → Perm (insert x ys) (x ∷ ys)
  unfolding insert
  insert-perm x [] = Perm.refl (x ∷ [])
  insert-perm x (y ∷ ys) = elim (Bool-cases (less y x)) [
    | inl e ↦ rw e (Perm.trans (Perm.cons y (insert-perm x ys)) (Perm.swap x y ys))
    | inr e ↦ rw e (Perm.refl (x ∷ y ∷ ys))
  ]

  -- Sorting loses no entry and makes none up.
  pub sort-perm : (xs : List A) → Perm (sort xs) xs
  unfolding sort
  sort-perm [] = Perm.refl []
  sort-perm (x ∷ xs) = Perm.trans (insert-perm x (sort xs)) (Perm.cons x (sort-perm xs))

  pub All-insert {κ} : (P : A → Type κ) (x : A) (ys : List A) → P x → All P ys → All P (insert x ys)
  unfolding insert
  All-insert P x [] hx hy = (hx, tt)
  All-insert P x (y ∷ ys) hx hy = elim (Bool-cases (less y x)) [
    | inl e ↦ rw e (hy.0, All-insert P x ys hx hy.1)
    | inr e ↦ rw e (hx, hy)
  ]

  pub All-sort {κ} : (P : A → Type κ) (xs : List A) → All P xs → All P (sort xs)
  unfolding sort
  All-sort P [] h = tt
  All-sort P (x ∷ xs) h = All-insert P x (sort xs) h.0 (All-sort P xs h.1)

  length-insert : (x : A) (ys : List A) → length (insert x ys) ≡ length (x ∷ ys)
  unfolding insert
  length-insert x [] = omega arith
  length-insert x (y ∷ ys) = ground (arith, length-insert x ys)

  pub length-sort : (xs : List A) → length (sort xs) ≡ length xs
  unfolding sort
  length-sort [] = omega arith
  length-sort (x ∷ xs) = omega (arith, length-insert x (sort xs), length-sort xs)

  module _ (asym : (x y : A) → less x y ≡ true → less y x ≡ false)
      (trans : (x y z : A) → less y x ≡ false → less z y ≡ false → less z x ≡ false) where
    insert-IsSorted : (x : A) (ys : List A) → IsSorted ys → IsSorted (insert x ys)
    unfolding insert
    insert-IsSorted x [] h = (tt, tt)
    insert-IsSorted x (y ∷ ys) h = elim (Bool-cases (less y x)) [
      | inl e ↦
          rw e (All-insert (λ z. less z y ≡ false) x ys (asym y x e) h.0, insert-IsSorted x ys h.1)
      | inr e ↦ rw e (
        (e, All-imp (λ z. less z y ≡ false) (λ z. less z x ≡ false) (λ z. trans x y z e) ys h.0),
        h,
      )
    ]

    pub sort-IsSorted : (xs : List A) → IsSorted (sort xs)
    unfolding sort
    sort-IsSorted [] = tt
    sort-IsSorted (x ∷ xs) = insert-IsSorted x (sort xs) (sort-IsSorted xs)
