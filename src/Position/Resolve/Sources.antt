-- ===== src/Position/Resolve/Sources.antt =====
-- internal/position/service.go: which sources an answer can depend on. A dependence that the code must
-- not have is stated by exchanging the source for any other.
use new_trs.Common.{◌≡◌, refl, true, false, List, Result, Bool-cases, inl, inr, arith}
use new_trs.Common.Text.{Text, trim_space}
use new_trs.Loan.Date.{Date}
use new_trs.Loan.Date
use new_trs.Loan.Model.{
  LoanPosition, CollectabilityPoint, ContractData, CalculationInput, CalculationResult,
}
use new_trs.Position.Service.{Service, exact_position}
use new_trs.Position.Resolve.{
  timeline_for, calculation_input, reconstruct, from_opening, legacy, after_cutoff,
  resolve_contract, resolve_position,
}

module _ (s : Service) (other : Text → Date → Result LoanPosition) (today : Date) where
  -- The same service over another snapshot.
  abbrev pub other_snapshot : Service
  other_snapshot = record s { snapshot_exact_position = other }

  legacy-snapshot :
      (contract : ContractData) (primary : Text) (as_of : Date) (exact : LoanPosition)
      → legacy other_snapshot today contract primary as_of exact
        ≡ legacy s today contract primary as_of exact
  unfolding legacy from_opening reconstruct timeline_for calculation_input
  legacy-snapshot contract primary as_of exact = refl

  exact_position-snapshot :
      (account : Text) (as_of : Date)
      → Date.equal as_of today ≡ false
      → exact_position other_snapshot today account as_of ≡ exact_position s today account as_of
  unfolding exact_position
  exact_position-snapshot account as_of h = rw h

  resolve_contract-snapshot :
      (contract : ContractData) (as_of : Date)
      → Date.equal as_of today ≡ false
      → resolve_contract other_snapshot today contract as_of
        ≡ resolve_contract s today contract as_of
  unfolding resolve_contract after_cutoff
  resolve_contract-snapshot contract as_of h =
      let legacy_same =
        λ (primary : Text) (exact : LoanPosition). legacy-snapshot contract primary as_of exact in
      simp (exact_position-snapshot (trim_space contract.primary_account) as_of h, legacy-snapshot)

  -- For every date but today, resolvePosition gives the same result whatever the snapshot
  -- holds.
  pub resolve_position-snapshot :
      (account : Text) (as_of : Date)
      → Date.equal as_of today ≡ false
      → resolve_position other_snapshot today account as_of ≡ resolve_position s today account as_of
  unfolding resolve_position
  resolve_position-snapshot account as_of h =
      simp (λ (c : ContractData). resolve_contract-snapshot c as_of h)

-- What is only used after the cutoff.
pub record LateSources : Type 0 where
  pub dwh : Text → Date → Result LoanPosition
  pub snapshot : Text → Date → Result LoanPosition
  pub timeline : Text → Date → Date → Result (List CollectabilityPoint)
  pub calculation : CalculationInput → Result CalculationResult

module _ (s : Service) (late : LateSources) (today : Date) where
  -- The same service over other warehouse, snapshot and calculator.
  abbrev pub other_late_sources : Service
  other_late_sources = record s {
    dwh_exact_position = late.dwh;
    snapshot_exact_position = late.snapshot;
    collectability_timeline = late.timeline;
    calculate = late.calculation;
  }

  -- Before the cutoff, or on it.
  not_after_cases :
      (as_of cutoff : Date)
      → Date.after as_of cutoff ≡ false
      → Date.before as_of cutoff ≡ false
      → Date.equal as_of cutoff ≡ true
  not_after_cases as_of cutoff a b = unfold Date.after Date.before Date.equal in ground arith

  legacy-late :
      (contract : ContractData) (primary : Text) (as_of : Date) (exact : LoanPosition)
      → Date.after as_of s.cutoff ≡ false
      → legacy other_late_sources today contract primary as_of exact
        ≡ legacy s today contract primary as_of exact
  unfolding legacy from_opening
  legacy-late contract primary as_of exact h = elim (Bool-cases (Date.before as_of s.cutoff)) [
    | inl e ↦ simp e
    | inr e ↦ let same = not_after_cases as_of s.cutoff h e in simp (e, same)
  ]

  resolve_contract-late :
      (contract : ContractData) (as_of : Date)
      → Date.after as_of s.cutoff ≡ false
      → resolve_contract other_late_sources today contract as_of
        ≡ resolve_contract s today contract as_of
  unfolding resolve_contract
  resolve_contract-late contract as_of h =
      simp
        (h, λ (primary : Text) (exact : LoanPosition). legacy-late contract primary as_of exact h)

  -- Up to the cutoff, resolvePosition gives the same result whatever the warehouse, the
  -- snapshot, the timeline and the calculator say.
  pub resolve_position-late :
      (account : Text) (as_of : Date)
      → Date.after as_of s.cutoff ≡ false
      → resolve_position other_late_sources today account as_of
        ≡ resolve_position s today account as_of
  unfolding resolve_position
  resolve_position-late account as_of h =
      simp (λ (c : ContractData). resolve_contract-late c as_of h)
