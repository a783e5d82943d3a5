-- ===== src/Contractual/Repayments/Kept.antt =====
-- internal/contractual/calculator.go: what effectiveRepayments lets through.
use new_trs.Common.{
  ◌≡◌, true, false, inl, inr, List, [], ◌∷◌, Option, none, some, ok, err, All, keep-All, keep,
  >>=-eq-ok, Result-cases, arith, ◌⊎◌, subst, sym, ok-injective,
}
use new_trs.Common.Sort.{All-sort}
use new_trs.Loan.Money.{is_negative, is_zero}
use new_trs.Loan.Date.{Date}
use new_trs.Loan.Date
use new_trs.Loan.Model.{Repayment}
use new_trs.Contractual.Repayments.{
  Verdict, skip, skip_pair, apply, judge, effective, effective_repayments, in_window, earlier,
  repayment_components_equal_total, allocable, zero_repayment_components, exact_repayment_inverse,
  reversal_candidate, bad_reversal,
}

-- A row that is allocated: it has a positive total, which is the sum of its components, and principal
-- and interest together are not negative.
pub record IsEffective (p : Repayment) : Type 0 where
  pub total_nonneg : is_negative p.total_payment ≡ false
  pub total_nonzero : is_zero p.total_payment ≡ false
  pub components : repayment_components_equal_total p ≡ true
  pub allocable_nonneg : is_negative (allocable p) ≡ false

judge-IsEffective :
    (p : Repayment) (next : Option Repayment) → judge p next ≡ ok apply → IsEffective p
unfolding judge
judge-IsEffective p next h = ground arith

-- How a round ends, for the rows kept in the end.
pub data Round (p n : Repayment) (rest ys : List Repayment) : Type 0 where
  skipped : judge p (some n) ≡ ok skip → effective (n ∷ rest) ≡ ok ys → Round p n rest ys
  cancelled : judge p (some n) ≡ ok skip_pair → effective rest ≡ ok ys → Round p n rest ys
  applied :
      (more : List Repayment)
      → judge p (some n) ≡ ok apply
      → effective (n ∷ rest) ≡ ok more
      → ys ≡ p ∷ more
      → Round p n rest ys

module _ (p n : Repayment) (rest ys : List Repayment) where
  verdict-Round :
      (v : Verdict) → judge p (some n) ≡ ok v → effective (p ∷ n ∷ rest) ≡ ok ys → Round p n rest ys
  unfolding effective
  verdict-Round skip q h = skipped q (rw (q, effective) at h)
  verdict-Round skip_pair q h = cancelled q (rw (q, effective) at h)
  verdict-Round apply q h =
      let (more, e, f) =
        >>=-eq-ok (effective (n ∷ rest)) (λ more. ok (p ∷ more)) (rw (q, effective) at h) in
      applied more q e (ground arith)

  pub effective-Round : effective (p ∷ n ∷ rest) ≡ ok ys → Round p n rest ys
  unfolding effective
  effective-Round h = elim (Result-cases (judge p (some n))) [
    | inl (v, q) ↦ verdict-Round v q h
    | inr (e, q) ↦ let bad : err e ≡ ok ys = rw (q, effective) at h in cc
  ]

-- A row that is skipped alone has no total and no components.
pub judge-skip :
    (p : Repayment) (next : Option Repayment)
    → judge p next ≡ ok skip
    → (is_zero p.total_payment ≡ true) × (zero_repayment_components p ≡ true)
unfolding judge
judge-skip p next h = ground arith

-- A row that is dropped with the next is undone by it, on the same date and in every component.
pub judge-skip_pair :
    (p n : Repayment)
    → judge p (some n) ≡ ok skip_pair
    → (Date.equal p.date n.date ≡ true) × (exact_repayment_inverse p n ≡ true)
unfolding judge reversal_candidate bad_reversal
judge-skip_pair p n h = ground arith

not-judge-skip_pair : (p : Repayment) → ¬ (judge p none ≡ ok skip_pair)
unfolding judge reversal_candidate bad_reversal
not-judge-skip_pair p h = ground arith

module _ (p : Repayment) (ys : List Repayment) where
  -- The last row is kept, or it counts for nothing.
  abbrev pub Last : Type 0
  Last =
      ((judge p none ≡ ok apply) × (ys ≡ p ∷ [])) ⊎ ((is_zero p.total_payment ≡ true) × (ys ≡ []))

  last_of_verdict : (v : Verdict) → judge p none ≡ ok v → effective (p ∷ []) ≡ ok ys → Last
  last_of_verdict skip q h =
      let e : ok [] ≡ ok ys = unfold effective in rw (q, effective) at h in
      inr ((judge-skip p none q).0, sym (ok-injective _ _ e))
  last_of_verdict skip_pair q h = absurd (not-judge-skip_pair p q)
  last_of_verdict apply q h =
      let e : ok (p ∷ []) ≡ ok ys = unfold effective in rw (q, effective) at h in
      inl (q, sym (ok-injective _ _ e))

  pub effective-last : effective (p ∷ []) ≡ ok ys → Last
  unfolding effective
  effective-last h = elim (Result-cases (judge p none)) [
    | inl (v, q) ↦ last_of_verdict v q h
    | inr (e, q) ↦ let bad : err e ≡ ok ys = rw (q, effective) at h in cc
  ]

module _ (P : Repayment → Type 0) where
  abbrev Kept : List Repayment → Type 0
  Kept = All (λ p. P p × IsEffective p)

  effective-Kept : (xs ys : List Repayment) → All P xs → effective xs ≡ ok ys → Kept ys
  effective-Kept [] ys h e = unfold effective in subst Kept (ok-injective _ _ e) tt
  effective-Kept (p ∷ []) ys h e = elim (effective-last p ys e) [
    | inl (q, f) ↦ rw f ((h.0, judge-IsEffective p none q), tt)
    | inr (q, f) ↦ rw f tt
  ]
  effective-Kept (p ∷ n ∷ rest) ys h e =
      kept_of_round (effective-Round p n rest ys e) (λ zs. effective-Kept (n ∷ rest) zs h.1)
        (effective-Kept rest ys h.1.1)
    where
      kept_of_round :
          Round p n rest ys
          → ((zs : List Repayment) → effective (n ∷ rest) ≡ ok zs → Kept zs)
          → (effective rest ≡ ok ys → Kept ys)
          → Kept ys
      kept_of_round (skipped q f) more past = more ys f
      kept_of_round (cancelled q f) more past = past f
      kept_of_round (applied zs q f g) more past =
          rw g ((h.0, judge-IsEffective p (some n) q), more zs f)

-- Every row that effectiveRepayments keeps is after the cutoff and not after the as-of date,
-- has a positive total equal to the sum of its components, and principal and interest that
-- are together not negative.
pub effective_repayments-Kept :
    (source : List Repayment) (cutoff as_of : Date) (ys : List Repayment)
    → effective_repayments source cutoff as_of ≡ ok ys
    → All (λ p. (in_window cutoff as_of p ≡ true) × IsEffective p) ys
unfolding effective_repayments
effective_repayments-Kept source cutoff as_of ys e =
    effective-Kept (λ p. in_window cutoff as_of p ≡ true) _ ys
      (All-sort earlier _ (keep (in_window cutoff as_of) source)
        (keep-All (in_window cutoff as_of) source))
      e
