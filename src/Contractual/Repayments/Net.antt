-- ===== src/Contractual/Repayments/Net.antt =====
-- internal/contractual/calculator.go: dropping reversed and empty rows keeps the sum of the payments.
use native.Mathlib.Nat.{eq_of_mul-eq-mul_right}
use new_trs.Common.{
  ℕ, ◌<◌, ◌≡◌, true, inl, inr, List, [], ◌∷◌, ok, All, map, ok-injective, ap, keep, arith, subst,
  sym, ◌∙◌, Bool-cases,
}
use new_trs.Common.Int.{ℤ, pos, pos_part, neg_part, ◌+ℤ◌, eq_ℤ, eq_of_parts, int_laws}
use new_trs.Common.Sort.{sort, insert, All-sort}
use new_trs.Loan.Money.{Money, den, zero_money, add, equal, is_zero}
use new_trs.Loan.Money.Units.{At, Units, common, add-At, zero-At, is_zero-At, equal-At}
use new_trs.Loan.Date.{Date}
use new_trs.Loan.Model.{Repayment}
use new_trs.Contractual.Repayments.{
  effective, effective_repayments, in_window, earlier, exact_repayment_inverse,
}
use new_trs.Contractual.Repayments.Kept.{
  Round, skipped, cancelled, applied, effective-Round, effective-last, judge-skip, judge-skip_pair,
}

-- The sum of the totals.
pub total : List Repayment → Money
total [] = zero_money
total (p ∷ ps) = add p.total_payment (total ps)

At-unique : (d : ℕ) (x : Money) (a b : ℤ) → At d x a → At d x b → a ≡ b
At-unique d x a b h k =
    eq_of_parts a b (eq_of_mul-eq-mul_right (den x) (omega arith) _ _ (omega arith))

inverse-total :
    (p n : Repayment)
    → exact_repayment_inverse p n ≡ true
    → is_zero (add p.total_payment n.total_payment) ≡ true
unfolding exact_repayment_inverse
inverse-total p n h = ground arith

module _ (d : ℕ) (hd : 0 < d) where
  abbrev Measured : List Repayment → Type 0
  Measured = All (λ p. (z : ℤ) × At d p.total_payment z)

  -- The two lists have the same sum.
  abbrev SameTotal : List Repayment → List Repayment → Type 0
  SameTotal xs ys = (z : ℤ) × At d (total xs) z × At d (total ys) z

  total-At : (xs : List Repayment) → Measured xs → (z : ℤ) × At d (total xs) z
  unfolding total
  total-At [] m = (pos 0, zero-At d)
  total-At (p ∷ xs) m =
      let (z, a) = total-At xs m.1 in (_, add-At d p.total_payment (total xs) _ z (m.0).1 a)

  same_refl : (xs : List Repayment) → Measured xs → SameTotal xs xs
  same_refl xs m = let (z, a) = total-At xs m in (z, a, a)

  same_trans : (xs ys zs : List Repayment) → SameTotal xs ys → SameTotal ys zs → SameTotal xs zs
  same_trans xs ys zs (a, ax, ay) (b, by, bz) =
      (a, ax, subst (At d (total zs)) (At-unique d (total ys) b a by ay) bz)

  same-cons :
      (p : Repayment) (xs ys : List Repayment)
      → (z : ℤ) × At d p.total_payment z
      → SameTotal xs ys
      → SameTotal (p ∷ xs) (p ∷ ys)
  unfolding total
  same-cons p xs ys (z, a) (w, ax, ay) =
      (z +ℤ w, add-At d p.total_payment _ z w a ax, add-At d p.total_payment _ z w a ay)

  -- Reordering two rows.
  same-swap :
      (p q : Repayment) (xs : List Repayment)
      → Measured (p ∷ q ∷ xs)
      → SameTotal (p ∷ q ∷ xs) (q ∷ p ∷ xs)
  unfolding total
  same-swap p q xs ((a, ha), ((b, bq), m)) =
      let (z, az) = total-At xs m in
      let other = add-At d q.total_payment _ b _ bq (add-At d p.total_payment _ a z ha az) in
      let commuted : b +ℤ (a +ℤ z) ≡ a +ℤ (b +ℤ z) = omega int_laws in
      (
        a +ℤ (b +ℤ z),
        add-At d p.total_payment _ a _ ha (add-At d q.total_payment _ b z bq az),
        subst (At d (total (q ∷ p ∷ xs))) commuted other,
      )

  -- A row of no total.
  same-drop :
      (p : Repayment) (xs : List Repayment)
      → Measured (p ∷ xs)
      → is_zero p.total_payment ≡ true
      → SameTotal xs (p ∷ xs)
  unfolding total
  same-drop p xs ((a, ha), m) h =
      let (z, az) = total-At xs m in
      let nothing : eq_ℤ a (pos 0) ≡ true = sym (is_zero-At d hd p.total_payment a ha) ∙ h in
      let same : a +ℤ z ≡ z = without a z nothing in
      (z, az, subst (At d (total (p ∷ xs))) same (add-At d p.total_payment _ a z ha az))
    where
      without : (a z : ℤ) → eq_ℤ a (pos 0) ≡ true → a +ℤ z ≡ z
      without a z e = let f : a ≡ pos 0 = ground arith in rw f (omega int_laws)

  -- Two rows whose totals cancel.
  same-drop_pair :
      (p q : Repayment) (xs : List Repayment)
      → Measured (p ∷ q ∷ xs)
      → is_zero (add p.total_payment q.total_payment) ≡ true
      → SameTotal xs (p ∷ q ∷ xs)
  unfolding total
  same-drop_pair p q xs ((a, ha), ((b, bq), m)) h =
      let (z, az) = total-At xs m in
      let sum = add-At d p.total_payment q.total_payment a b ha bq in
      let nothing : eq_ℤ (a +ℤ b) (pos 0) ≡ true = sym (is_zero-At d hd _ _ sum) ∙ h in
      let both = add-At d p.total_payment _ a _ ha (add-At d q.total_payment _ b z bq az) in
      (z, az, subst (At d (total (p ∷ q ∷ xs))) (without a b z nothing) both)
    where
      without : (a b z : ℤ) → eq_ℤ (a +ℤ b) (pos 0) ≡ true → a +ℤ (b +ℤ z) ≡ z
      without a b z e =
          let f : a +ℤ b ≡ pos 0 = ground arith in omega (int_laws, ap pos_part f, ap neg_part f)

  same-insert :
      (p : Repayment) (xs : List Repayment)
      → Measured (p ∷ xs)
      → SameTotal (insert earlier p xs) (p ∷ xs)
  unfolding insert
  same-insert p [] m = same_refl (p ∷ []) m
  same-insert p (q ∷ xs) m =
      let deeper = same-insert p xs (m.0, m.1.1) in
      elim (Bool-cases (earlier q p)) [
        | inl e ↦ rw e (
            same_trans _ (q ∷ p ∷ xs) _ (same-cons q _ _ m.1.0 deeper)
              (same-swap q p xs (m.1.0, (m.0, m.1.1))))
        | inr e ↦ rw e (same_refl (p ∷ q ∷ xs) m)
      ]

  same-sort : (xs : List Repayment) → Measured xs → SameTotal (sort earlier xs) xs
  unfolding sort
  same-sort [] m = same_refl [] tt
  same-sort (p ∷ xs) m =
      same_trans _ (p ∷ sort earlier xs) _
        (same-insert p _ (m.0, All-sort earlier (λ q. (z : ℤ) × At d q.total_payment z) xs m.1))
        (same-cons p _ _ m.0 (same-sort xs m.1))

  same-Round :
      (p n : Repayment) (rest ys : List Repayment)
      → Measured (p ∷ n ∷ rest)
      → Round p n rest ys
      → ((zs : List Repayment) → effective (n ∷ rest) ≡ ok zs → SameTotal zs (n ∷ rest))
      → (effective rest ≡ ok ys → SameTotal ys rest)
      → SameTotal ys (p ∷ n ∷ rest)
  same-Round p n rest ys m (skipped q e) more past =
      same_trans ys (n ∷ rest) _ (more ys e) (same-drop p (n ∷ rest) m (judge-skip p _ q).0)
  same-Round p n rest ys m (cancelled q e) more past =
      same_trans ys rest _ (past e)
        (same-drop_pair p n rest m (inverse-total p n (judge-skip_pair p n q).1))
  same-Round p n rest ys m (applied zs q e f) more past =
      rw f (same-cons p zs (n ∷ rest) m.0 (more zs e))

  effective-SameTotal :
      (xs ys : List Repayment) → Measured xs → effective xs ≡ ok ys → SameTotal ys xs
  effective-SameTotal [] ys m e =
      let none_kept : ok [] ≡ ok ys = unfold effective in e in
      subst (λ zs. SameTotal zs []) (ok-injective [] ys none_kept) (same_refl [] tt)
  effective-SameTotal (p ∷ []) ys m e = elim (effective-last p ys e) [
    | inl (q, f) ↦ rw f (same_refl (p ∷ []) m)
    | inr (q, f) ↦ rw f (same-drop p [] m q)
  ]
  effective-SameTotal (p ∷ n ∷ rest) ys m e =
      same-Round p n rest ys m (effective-Round p n rest ys e)
        (λ zs. effective-SameTotal (n ∷ rest) zs m.1) (effective-SameTotal rest ys m.1.1)

measure : (xs : List Repayment) → (d : ℕ) × (0 < d) × All (λ p. (z : ℤ) × At d p.total_payment z) xs
measure xs = let (d, hd, us) = common (map (λ p. p.total_payment) xs) in (d, hd, unmap d xs us)
  where
    unmap :
        (d : ℕ) (xs : List Repayment)
        → Units d (map (λ p. p.total_payment) xs)
        → All (λ p. (z : ℤ) × At d p.total_payment z) xs
    unmap d [] us = tt
    unmap d (p ∷ xs) us = (us.0, unmap d xs us.1)

-- When effectiveRepayments accepts its rows, the rows it keeps add up to exactly the total
-- of all rows of the window, so dropped reversals and empty rows cost nothing.
pub effective_repayments-total :
    (source : List Repayment) (cutoff as_of : Date) (ys : List Repayment)
    → effective_repayments source cutoff as_of ≡ ok ys
    → equal (total ys) (total (keep (in_window cutoff as_of) source)) ≡ true
unfolding effective_repayments
effective_repayments-total source cutoff as_of ys e =
    let window = keep (in_window cutoff as_of) source in
    let (d, hd, m) = measure window in
    let sorted = All-sort earlier (λ q. (z : ℤ) × At d q.total_payment z) window m in
    let (z, a, b) =
      same_trans d hd ys (sort earlier window) window
        (effective-SameTotal d hd (sort earlier window) ys sorted e) (same-sort d hd window m) in
    equal-At d hd (total ys) z a (total window) z b ∙ reflexive z
  where
    reflexive : (z : ℤ) → eq_ℤ z z ≡ true
    reflexive z = ground arith
