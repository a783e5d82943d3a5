-- ===== src/Contractual/State/Priority.antt =====
-- internal/contractual/calculator.go: the order in which allocate serves the balances.
use new_trs.Common.{ℕ, ◌<◌, ◌≡◌, true, false, arith, inl, inr, ◌∙◌, sym, Bool-cases}
use new_trs.Common.Int.{ℤ, pos, ◌≤ℤ◌, ltb_ℤ, eq_ℤ}
use new_trs.Loan.Money.{Money, is_negative, is_positive, is_zero, exceeds, equal}
use new_trs.Loan.Money.Units.{is_negative-At, is_positive-At, is_zero-At, exceeds-At, equal-At}
use new_trs.Contractual.State.{CalculationState, allocate}
use new_trs.Contractual.State.Units.{
  UnitState, Tracks, due_first, interest_first, keep_rest, allocate-Tracks,
}
use new_trs.Contractual.State.Invariant.{IsSound, UnitSound, payment_laws, tracked, to_units}

-- Served first, served last, and what is set aside, in units.
abbrev Same : ℤ → ℤ → Type 0
Same a b = (a ≤ℤ b) × (b ≤ℤ a)

module _ (z : ℤ) (t : UnitState) (hz : pos 0 ≤ℤ z) (h : UnitSound t) where
  due_first-order :
      let t' = keep_rest (due_first z t) in
      (¬ (t'.principal ≤ℤ pos 0) → Same t'.interest_due t.interest_due)
      × (¬ (t'.unapplied ≤ℤ t.unapplied) → Same t'.principal (pos 0) × Same t'.interest_due (pos 0))
  due_first-order = omega payment_laws

  interest_first-order :
      let t' = keep_rest (interest_first z t) in
      (¬ (t'.interest_due ≤ℤ pos 0) → Same t'.principal t.principal)
      × (¬ (t'.unapplied ≤ℤ t.unapplied) → Same t'.principal (pos 0) × Same t'.interest_due (pos 0))
  interest_first-order = omega payment_laws

-- How a payment went, from the state `s` to the state `s'`.
pub record FollowsOrder (c : ℤ) (s s' : CalculationState) : Type 0 where
  -- Up to collectability 2 principal is touched only when no interest is left.
  interest_then_principal :
      ltb_ℤ (pos 2) c ≡ false
      → is_positive s'.interest_due ≡ true
      → equal s'.principal s.principal ≡ true
  -- Above it interest is touched only when no principal is left.
  principal_then_interest :
      ltb_ℤ (pos 2) c ≡ true
      → is_positive s'.principal ≡ true
      → equal s'.interest_due s.interest_due ≡ true
  -- Money is set aside only when nothing is left to pay.
  rest_last :
      exceeds s'.unapplied s.unapplied ≡ true
      → (is_zero s'.principal ≡ true) × (is_zero s'.interest_due ≡ true)

module _ (d : ℕ) (hd : 0 < d) (c : ℤ) (s s' : CalculationState) (t t' : UnitState)
    (h : Tracks d s t) (h' : Tracks d s' t') where
  order_from_units :
      (ltb_ℤ (pos 2) c ≡ false → ¬ (t'.interest_due ≤ℤ pos 0) → Same t'.principal t.principal)
      → (ltb_ℤ (pos 2) c ≡ true → ¬ (t'.principal ≤ℤ pos 0) → Same t'.interest_due t.interest_due)
      → (¬ (t'.unapplied ≤ℤ t.unapplied) → Same t'.principal (pos 0) × Same t'.interest_due (pos 0))
      → FollowsOrder c s s'
  order_from_units f g k = record {
    interest_then_principal = λ e p.
        equal-At d hd _ _ h'.principal_at _ _ h.principal_at
        ∙ test_eq t'.principal t.principal
            (f e (test_pos t'.interest_due (sym (is_positive-At d hd _ _ h'.interest_due_at) ∙ p)));
    principal_then_interest = λ e p.
        equal-At d hd _ _ h'.interest_due_at _ _ h.interest_due_at
        ∙ test_eq t'.interest_due t.interest_due
            (g e (test_pos t'.principal (sym (is_positive-At d hd _ _ h'.principal_at) ∙ p)));
    rest_last = λ p.
        let (a, b) = k (
          test_lt t'.unapplied t.unapplied
            (sym (exceeds-At d hd _ _ h'.unapplied_at _ _ h.unapplied_at) ∙ p)) in
        (
          is_zero-At d hd _ _ h'.principal_at ∙ test_eq t'.principal (pos 0) a,
          is_zero-At d hd _ _ h'.interest_due_at ∙ test_eq t'.interest_due (pos 0) b,
        );
  }
    where
      test_eq : (a b : ℤ) → Same a b → eq_ℤ a b ≡ true
      test_eq a b q = ground arith

      test_lt : (a b : ℤ) → ltb_ℤ b a ≡ true → ¬ (a ≤ℤ b)
      test_lt a b q = ground arith

      test_pos : (a : ℤ) → ltb_ℤ (pos 0) a ≡ true → ¬ (a ≤ℤ pos 0)
      test_pos a q = ground arith

-- A payment that is not negative, into balances that are in order, is allocated in order: up to
-- collectability 2 the principal is untouched while interest is due, above it the interest due is untouched
-- while principal is left, and money is set aside only where neither is left.
pub allocate-FollowsOrder :
    (x : Money) (c : ℤ) (s : CalculationState)
    → is_negative x ≡ false
    → IsSound s
    → FollowsOrder c s (allocate x c s)
allocate-FollowsOrder x c s hx v =
    let (d, hd, z, t, a, h) = tracked x s in
    let hz : pos 0 ≤ℤ z = ground (arith, is_negative-At d hd x z a) in
    let u = to_units d hd s t h v in
    let tracks = allocate-Tracks d hd x c s z t a h in
    elim (Bool-cases (ltb_ℤ (pos 2) c)) [
      | inl e ↦
          let (f, g) = due_first-order z t hz u in
          order_from_units d hd c s _ t (keep_rest (due_first z t)) h (rw e at tracks) (λ e'. cc)
            (λ e'. f) g
      | inr e ↦
          let (f, g) = interest_first-order z t hz u in
          order_from_units d hd c s _ t (keep_rest (interest_first z t)) h (rw e at tracks)
            (λ e'. f) (λ e'. cc) g
    ]

module _ (x : Money) (c : ℤ) (s : CalculationState) (hx : is_negative x ≡ false)
    (v : IsSound s) where
  -- Up to collectability 2, a payment that leaves interest due has not touched the principal,
  -- if the balances were in order.
  pub allocate_interest_first :
      ltb_ℤ (pos 2) c ≡ false
      → is_positive (allocate x c s).interest_due ≡ true
      → equal (allocate x c s).principal s.principal ≡ true
  allocate_interest_first = (allocate-FollowsOrder x c s hx v).interest_then_principal

  -- Above collectability 2, a payment that leaves principal has not touched the interest due,
  -- if the balances were in order.
  pub allocate_principal_first :
      ltb_ℤ (pos 2) c ≡ true
      → is_positive (allocate x c s).principal ≡ true
      → equal (allocate x c s).interest_due s.interest_due ≡ true
  allocate_principal_first = (allocate-FollowsOrder x c s hx v).principal_then_interest

  -- A payment sets money aside only when neither principal nor interest due is left, if the
  -- balances were in order.
  pub allocate_rest_last :
      exceeds (allocate x c s).unapplied s.unapplied ≡ true
      → (is_zero (allocate x c s).principal ≡ true) × (is_zero (allocate x c s).interest_due ≡ true)
  allocate_rest_last = (allocate-FollowsOrder x c s hx v).rest_last
