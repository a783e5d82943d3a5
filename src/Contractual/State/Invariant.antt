-- ===== src/Contractual/State/Invariant.antt =====
-- internal/contractual/calculator.go: the balances stay in order, and no money is lost or made up.
use new_trs.Common.{ℕ, ◌<◌, ◌≡◌, Bool, true, false, arith, if◌then◌else◌, [], ◌∷◌, ◌∙◌}
use new_trs.Common.Int.{
  ℤ, pos, pos_part, neg_part, ◌+ℤ◌, ◌-ℤ◌, ◌≤ℤ◌, min_ℤ, ltb_ℤ, min_ℤ_bounds, int_laws,
}
use new_trs.Loan.Money.{Money, add, sub, is_negative, exceeds, equal}
use new_trs.Loan.Money.Units.{At, common, add-At, sub-At, is_negative-At, exceeds-At, equal-At}
use new_trs.Contractual.State.{CalculationState, allocate}
use new_trs.Contractual.State.Units.{
  UnitState, Tracks, due_first, interest_first, keep_rest, allocate-Tracks,
}

pub record UnitSound (t : UnitState) : Type 0 where
  pub principal_due_nonneg : pos 0 ≤ℤ t.principal_due
  pub interest_due_nonneg : pos 0 ≤ℤ t.interest_due
  pub unapplied_nonneg : pos 0 ≤ℤ t.unapplied
  pub due_within : t.principal_due ≤ℤ t.principal

pub ruleset payment_laws = (int_laws, min_ℤ_bounds)

due_first-UnitSound :
    (z : ℤ) (t : UnitState) → pos 0 ≤ℤ z → UnitSound t → UnitSound (keep_rest (due_first z t))
due_first-UnitSound z t hz h = omega payment_laws

interest_first-UnitSound :
    (z : ℤ) (t : UnitState) → pos 0 ≤ℤ z → UnitSound t → UnitSound (keep_rest (interest_first z t))
interest_first-UnitSound z t hz h = omega payment_laws

-- What a payment leaves of the debt, less what could not be applied.
net_debt_units : UnitState → ℤ
net_debt_units t = t.principal +ℤ t.interest_due -ℤ t.unapplied

due_first-net_debt :
    (z : ℤ) (t : UnitState) → net_debt_units (keep_rest (due_first z t)) ≡ net_debt_units t -ℤ z
unfolding net_debt_units
due_first-net_debt z t = omega payment_laws

interest_first-net_debt :
    (z : ℤ) (t : UnitState)
    → net_debt_units (keep_rest (interest_first z t)) ≡ net_debt_units t -ℤ z
unfolding net_debt_units
interest_first-net_debt z t = omega payment_laws

-- The balances of a loan are in order: none is negative, and what is due of the principal is part of
-- the principal.
pub record IsSound (s : CalculationState) : Type 0 where
  pub principal_due_nonneg : is_negative s.principal_due ≡ false
  pub interest_due_nonneg : is_negative s.interest_due ≡ false
  pub unapplied_nonneg : is_negative s.unapplied ≡ false
  pub due_within : exceeds s.principal_due s.principal ≡ false

module _ (d : ℕ) (hd : 0 < d) (s : CalculationState) (t : UnitState) (h : Tracks d s t) where
  pub to_units : IsSound s → UnitSound t
  to_units v = record {
    principal_due_nonneg = ground (arith, is_negative-At d hd s.principal_due _ h.principal_due_at);
    interest_due_nonneg = ground (arith, is_negative-At d hd s.interest_due _ h.interest_due_at);
    unapplied_nonneg = ground (arith, is_negative-At d hd s.unapplied _ h.unapplied_at);
    due_within =
        ground (
          arith,
          exceeds-At d hd s.principal_due _ h.principal_due_at s.principal _ h.principal_at,
        );
  }

  from_units : UnitSound t → IsSound s
  from_units v = record {
    principal_due_nonneg = ground (arith, is_negative-At d hd s.principal_due _ h.principal_due_at);
    interest_due_nonneg = ground (arith, is_negative-At d hd s.interest_due _ h.interest_due_at);
    unapplied_nonneg = ground (arith, is_negative-At d hd s.unapplied _ h.unapplied_at);
    due_within =
        ground (
          arith,
          exceeds-At d hd s.principal_due _ h.principal_due_at s.principal _ h.principal_at,
        );
  }

-- A common unit for an amount and a state.
pub tracked :
    (x : Money) (s : CalculationState)
    → (d : ℕ) × (0 < d) × (z : ℤ) × (t : UnitState) × At d x z × Tracks d s t
tracked x s =
    let (d, hd, us) =
      common (x ∷ s.principal ∷ s.principal_due ∷ s.interest_due ∷ s.unapplied ∷ []) in
    (
      d,
      hd,
      us.0.0,
      record {
        principal = us.1.0.0;
        principal_due = us.1.1.0.0;
        interest_due = us.1.1.1.0.0;
        unapplied = us.1.1.1.1.0.0;
      },
      us.0.1,
      record {
        principal_at = us.1.0.1;
        principal_due_at = us.1.1.0.1;
        interest_due_at = us.1.1.1.0.1;
        unapplied_at = us.1.1.1.1.0.1;
      },
    )

-- Allocating an amount that is not negative keeps the balances in order, at every
-- collectability.
pub allocate-IsSound :
    (x : Money) (c : ℤ) (s : CalculationState)
    → is_negative x ≡ false
    → IsSound s
    → IsSound (allocate x c s)
allocate-IsSound x c s hx v =
    let (d, hd, z, t, a, h) = tracked x s in
    from_units d hd _ _ (allocate-Tracks d hd x c s z t a h) (
      both z t (ltb_ℤ (pos 2) c) (ground (arith, is_negative-At d hd x z a))
        (to_units d hd s t h v))
  where
    both :
        (z : ℤ) (t : UnitState) (b : Bool)
        → pos 0 ≤ℤ z
        → UnitSound t
        → UnitSound (keep_rest (if b then due_first z t else interest_first z t))
    both z t true hz u = due_first-UnitSound z t hz u
    both z t false hz u = interest_first-UnitSound z t hz u

-- Principal and interest due, less the money that is set aside.
unfoldable pub net_debt : CalculationState → Money
net_debt s = sub (add s.principal s.interest_due) s.unapplied

net_debt-At :
    (d : ℕ) (s : CalculationState) (t : UnitState)
    → Tracks d s t
    → At d (net_debt s) (net_debt_units t)
unfolding net_debt net_debt_units
net_debt-At d s t h =
    sub-At d _ _ _ _ (add-At d _ _ _ _ h.principal_at h.interest_due_at) h.unapplied_at

-- A payment lowers principal plus interest due, less money set aside, by exactly its amount,
-- whatever the collectability.
pub allocate-net_debt :
    (x : Money) (c : ℤ) (s : CalculationState)
    → equal (net_debt (allocate x c s)) (sub (net_debt s) x) ≡ true
allocate-net_debt x c s =
    let (d, hd, z, t, a, h) = tracked x s in
    let after = net_debt-At d _ _ (allocate-Tracks d hd x c s z t a h) in
    let before = sub-At d _ x _ z (net_debt-At d s t h) a in
    equal-At d hd _ _ after _ _ before ∙ rw (both z t (ltb_ℤ (pos 2) c)) (ground arith)
  where
    both :
        (z : ℤ) (t : UnitState) (b : Bool)
        → net_debt_units (keep_rest (if b then due_first z t else interest_first z t))
          ≡ net_debt_units t -ℤ z
    both z t true = due_first-net_debt z t
    both z t false = interest_first-net_debt z t
