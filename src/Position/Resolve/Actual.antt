-- ===== src/Position/Resolve/Actual.antt =====
-- internal/position/service.go: the exact position behind an answer after the cutoff.
use new_trs.Common.{
  ◌≡◌, Bool, true, false, not, ◌||◌, Result, ok, err, ◌>>=◌, Bool-cases, inl, inr, arith,
  refuse-eq-ok, >>=-eq-ok, ok-injective, historical_evidence, unsupported_calculation, sym, ap,
}
use new_trs.Common.Text.{Text, trim_space, is_empty, eq_text}
use new_trs.Loan.Date.{Date}
use new_trs.Loan.Date
use new_trs.Loan.Model.{LoanPosition, OpeningLoanState, ContractData, ResolvedPosition}
use new_trs.Position.Schedule.{valid_schedule}
use new_trs.Position.Service.{
  Service, answer, exact_position, explain, flat_interest_type, format_fincloud_alt_no_to_mso,
  with_schedule,
}
use new_trs.Position.Resolve.{
  reconstruct, from_opening, legacy, after_cutoff, timeline_for, calculation_input,
}

explain-eq-ok :
    (b : Bool) (r : Result LoanPosition) (p : LoanPosition) → explain b r ≡ ok p → r ≡ ok p
unfolding explain
explain-eq-ok b (ok q) p h = h
explain-eq-ok b (err e) p h = cc

module _ (s : Service) (today : Date) (contract : ContractData) (primary : Text) (as_of : Date)
    (exact : LoanPosition) (r : ResolvedPosition) (late : Date.after as_of s.cutoff ≡ true) where
  reconstruct-actual :
      (c : ContractData) (o : OpeningLoanState)
      → reconstruct s today c o primary as_of exact ≡ ok r
      → r.actual_position ≡ exact
  unfolding reconstruct
  reconstruct-actual c o h =
      let (c', _, h₁) = >>=-eq-ok (with_schedule c) _ h in
      let (_, h₂) =
        refuse-eq-ok (not (valid_schedule c'.tenor_months c'.contract_schedule))
          unsupported_calculation _ h₁ in
      let (points, _, h₃) = >>=-eq-ok (timeline_for s today primary as_of exact) _ h₂ in
      let (result, _, h₄) = >>=-eq-ok (s.calculate (calculation_input s c' o as_of points)) _ h₃ in
      sym (ap (λ (q : ResolvedPosition). q.actual_position) (ok-injective _ r h₄))

  from_opening-actual :
      (o : OpeningLoanState)
      → from_opening s today contract o primary as_of exact ≡ ok r
      → r.actual_position ≡ exact
  unfolding from_opening
  from_opening-actual o h =
      let apart : Date.equal as_of s.cutoff ≡ false =
        unfold Date.after Date.equal in ground (arith, late) in
      elim (Bool-cases (eq_text o.interest_type flat_interest_type)) [
        | inl flat ↦
            let k : reconstruct s today contract o primary as_of exact ≡ ok r =
              rw (apart, flat) at h in
            reconstruct-actual contract o k
        | inr other ↦
            let k : ok (answer contract exact) ≡ ok r = rw (apart, other) at h in
            sym (ap (λ (q : ResolvedPosition). q.actual_position) (ok-injective _ r k))
      ]

  legacy-actual : legacy s today contract primary as_of exact ≡ ok r → r.actual_position ≡ exact
  unfolding legacy
  legacy-actual h =
      let (_, h₁) =
        refuse-eq-ok (is_empty (trim_space contract.alternate_account)) historical_evidence _ h in
      let past : Date.before as_of s.cutoff ≡ false =
        unfold Date.after Date.before in ground (arith, late) in
      let account = format_fincloud_alt_no_to_mso (trim_space contract.alternate_account) in
      let k : (s.opening_state account s.cutoff >>= λ o.
      from_opening s today contract (record o { account_number = primary }) primary as_of exact)
          ≡ ok r =
        rw past at h₁ in
      let (o, _, h₂) = >>=-eq-ok (s.opening_state account s.cutoff) _ k in
      from_opening-actual (record o { account_number = primary }) h₂

-- The exact position behind an answer after the cutoff.
pub record HasExact (s : Service) (today : Date) (primary : Text) (as_of : Date)
    (r : ResolvedPosition) : Type 0 where
  pub found : exact_position s today primary as_of ≡ ok r.actual_position
  pub started : Date.is_zero r.actual_position.loan_start_date ≡ false
  pub not_future : Date.after r.actual_position.loan_start_date as_of ≡ false

pub after_cutoff-HasExact :
    (s : Service) (today : Date) (contract : ContractData) (primary : Text) (as_of : Date)
    (r : ResolvedPosition)
    → Date.after as_of s.cutoff ≡ true
    → after_cutoff s today contract primary as_of ≡ ok r
    → HasExact s today primary as_of r
unfolding after_cutoff
after_cutoff-HasExact s today contract primary as_of r late h =
    let is_today = Date.equal as_of today in
    let (exact, e, h₁) = >>=-eq-ok (explain is_today (exact_position s today primary as_of)) _ h in
    let (dates, h₂) =
      refuse-eq-ok (Date.is_zero exact.loan_start_date || Date.after exact.loan_start_date as_of)
        historical_evidence _ h₁ in
    let same : r.actual_position ≡ exact =
      elim (Bool-cases (Date.after exact.loan_start_date s.cutoff)) [
        | inl native ↦
            let k : ok (answer contract exact) ≡ ok r = rw native at h₂ in
            sym (ap (λ (q : ResolvedPosition). q.actual_position) (ok-injective _ r k))
        | inr older ↦
            let k : legacy s today contract primary as_of exact ≡ ok r = rw older at h₂ in
            legacy-actual s today contract primary as_of exact r late k
      ] in
    record {
      found = rw same (explain-eq-ok is_today _ exact e);
      started = rw same (ground arith);
      not_future = rw same (ground arith);
    }
