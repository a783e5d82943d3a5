-- ===== src/Contractual/State/Units.antt =====
-- internal/contractual/calculator.go: the running balances in units of 1/D. Each operation on exact
-- amounts is the same operation on integers, when all amounts are whole numbers of units.
use new_trs.Common.{ℕ, ◌<◌, if◌then◌else◌, Bool-cases, inl, inr}
use new_trs.Common.Int.{ℤ, pos, ◌+ℤ◌, ◌-ℤ◌, min_ℤ, ltb_ℤ}
use new_trs.Loan.Money.{Money, add}
use new_trs.Loan.Money.Units.{At, add-At, sub-At, min-At}
use new_trs.Contractual.State.{
  CalculationState, pay_principal_due, pay_principal_advance, pay_interest, allocate,
}

pub record UnitState : Type 0 where
  pub principal : ℤ
  pub principal_due : ℤ
  pub interest_due : ℤ
  pub unapplied : ℤ

pub record Tracks (d : ℕ) (s : CalculationState) (t : UnitState) : Type 0 where
  pub principal_at : At d s.principal t.principal
  pub principal_due_at : At d s.principal_due t.principal_due
  pub interest_due_at : At d s.interest_due t.interest_due
  pub unapplied_at : At d s.unapplied t.unapplied

abbrev pub pay_principal_due_units : ℤ → UnitState → ℤ × UnitState
pay_principal_due_units z t =
    let paid = min_ℤ z t.principal_due in
    (
      z -ℤ paid,
      record t { principal_due = t.principal_due -ℤ paid; principal = t.principal -ℤ paid },
    )

abbrev pub pay_principal_advance_units : ℤ → UnitState → ℤ × UnitState
pay_principal_advance_units z t =
    let paid = min_ℤ z t.principal in (z -ℤ paid, record t { principal = t.principal -ℤ paid })

abbrev pub pay_interest_units : ℤ → UnitState → ℤ × UnitState
pay_interest_units z t =
    let paid = min_ℤ z t.interest_due in
    (z -ℤ paid, record t { interest_due = t.interest_due -ℤ paid })

abbrev pub due_first : ℤ → UnitState → ℤ × UnitState
due_first z t =
    let (p, a) = pay_principal_due_units z t in
    let (q, b) = pay_principal_advance_units p a in pay_interest_units q b

abbrev pub interest_first : ℤ → UnitState → ℤ × UnitState
interest_first z t =
    let (p, a) = pay_interest_units z t in
    let (q, b) = pay_principal_due_units p a in pay_principal_advance_units q b

abbrev pub keep_rest : ℤ × UnitState → UnitState
keep_rest (rest, t) = record t { unapplied = t.unapplied +ℤ rest }

-- A payment's rest and the state, in units.
abbrev pub PaidTracks : ℕ → Money × CalculationState → ℤ × UnitState → Type 0
PaidTracks d (p, s) (z, t) = At d p z × Tracks d s t

module _ (d : ℕ) (hd : 0 < d) where
  pay_principal_due-Tracks :
      (x : Money) (s : CalculationState) (z : ℤ) (t : UnitState)
      → At d x z
      → Tracks d s t
      → PaidTracks d (pay_principal_due x s) (pay_principal_due_units z t)
  unfolding pay_principal_due
  pay_principal_due-Tracks x s z t a h =
      let paid = min-At d x s.principal_due z t.principal_due hd a h.principal_due_at in
      (
        sub-At d x _ z _ a paid,
        record {
          principal_at = sub-At d s.principal _ t.principal _ h.principal_at paid;
          principal_due_at = sub-At d s.principal_due _ t.principal_due _ h.principal_due_at paid;
          interest_due_at = h.interest_due_at;
          unapplied_at = h.unapplied_at;
        },
      )

  pay_principal_advance-Tracks :
      (x : Money) (s : CalculationState) (z : ℤ) (t : UnitState)
      → At d x z
      → Tracks d s t
      → PaidTracks d (pay_principal_advance x s) (pay_principal_advance_units z t)
  unfolding pay_principal_advance
  pay_principal_advance-Tracks x s z t a h =
      let paid = min-At d x s.principal z t.principal hd a h.principal_at in
      (
        sub-At d x _ z _ a paid,
        record {
          principal_at = sub-At d s.principal _ t.principal _ h.principal_at paid;
          principal_due_at = h.principal_due_at;
          interest_due_at = h.interest_due_at;
          unapplied_at = h.unapplied_at;
        },
      )

  pay_interest-Tracks :
      (x : Money) (s : CalculationState) (z : ℤ) (t : UnitState)
      → At d x z
      → Tracks d s t
      → PaidTracks d (pay_interest x s) (pay_interest_units z t)
  unfolding pay_interest
  pay_interest-Tracks x s z t a h =
      let paid = min-At d x s.interest_due z t.interest_due hd a h.interest_due_at in
      (
        sub-At d x _ z _ a paid,
        record {
          principal_at = h.principal_at;
          principal_due_at = h.principal_due_at;
          interest_due_at = sub-At d s.interest_due _ t.interest_due _ h.interest_due_at paid;
          unapplied_at = h.unapplied_at;
        },
      )

  rest_to_unapplied :
      (r : Money × CalculationState) (u : ℤ × UnitState)
      → PaidTracks d r u
      → Tracks d (record (r.1) { unapplied = add (r.1).unapplied r.0 }) (keep_rest u)
  rest_to_unapplied (x, s) (z, t) (a, h) = record {
    principal_at = h.principal_at;
    principal_due_at = h.principal_due_at;
    interest_due_at = h.interest_due_at;
    unapplied_at = add-At d s.unapplied x t.unapplied z h.unapplied_at a;
  }

  pub allocate-Tracks :
      (x : Money) (c : ℤ) (s : CalculationState) (z : ℤ) (t : UnitState)
      → At d x z
      → Tracks d s t
      → Tracks d
          (allocate x c s)
          (keep_rest (if ltb_ℤ (pos 2) c then due_first z t else interest_first z t))
  unfolding allocate
  allocate-Tracks x c s z t a h = elim (Bool-cases (ltb_ℤ (pos 2) c)) [
    | inl e ↦
        let due = pay_principal_due-Tracks x s z t a h in
        let advance = pay_principal_advance-Tracks _ _ _ _ due.0 due.1 in
        rw e (rest_to_unapplied _ _ (pay_interest-Tracks _ _ _ _ advance.0 advance.1))
    | inr e ↦
        let interest = pay_interest-Tracks x s z t a h in
        let due = pay_principal_due-Tracks _ _ _ _ interest.0 interest.1 in
        rw e (rest_to_unapplied _ _ (pay_principal_advance-Tracks _ _ _ _ due.0 due.1))
  ]
