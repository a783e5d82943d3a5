-- ===== src/Position/Resolve/Answers.antt =====
-- internal/position/service.go: what every answer of resolvePosition has behind it.
use new_trs.Common.{
  ◌≡◌, refl, subst, true, false, ◌||◌, ok, Bool-cases, inl, inr, arith, refuse-eq-ok, ◌>>=◌,
  >>=-eq-ok, ok-injective, invalid_input, invariant, historical_evidence, sym, ap,
}
use new_trs.Common.Text.{Text, trim_space, is_empty}
use new_trs.Loan.Date.{Date}
use new_trs.Loan.Date
use new_trs.Loan.Model.{LoanPosition, OpeningLoanState, ContractData, ResolvedPosition, mso, closed}
use new_trs.Loan.Money.{zero_money}
use new_trs.Position.Service.{
  Service, answer, no_position, format_fincloud_alt_no_to_mso, opening_position,
}
use new_trs.Position.Resolve.{
  from_opening, legacy, after_cutoff, resolve_contract, resolve_position, is_closed,
  closed_position,
}
use new_trs.Position.Resolve.Actual.{HasExact, after_cutoff-HasExact}

-- Nothing is owed, and nothing is set aside.
pub record IsEmpty (p : LoanPosition) : Type 0 where
  pub principal_outstanding : p.principal_outstanding ≡ zero_money
  pub principal_due : p.principal_due ≡ zero_money
  pub interest_due : p.interest_due ≡ zero_money
  pub penalty_due : p.penalty_due ≡ zero_money
  pub unapplied_amount : p.unapplied_amount ≡ zero_money

-- The position has the balances and the collectability of the opening state.
pub record IsOpening (o : OpeningLoanState) (day : Date) (p : LoanPosition) : Type 0 where
  pub as_of : p.as_of ≡ day
  pub source : p.source ≡ mso
  pub principal_outstanding : p.principal_outstanding ≡ o.principal_outstanding
  pub principal_due : p.principal_due ≡ o.principal_due
  pub interest_due : p.interest_due ≡ o.interest_due
  pub penalty_due : p.penalty_due ≡ o.penalty_due
  pub collectability_bi : p.collectability_bi ≡ o.collectability_bi

-- The number by which the old system knows the loan.
abbrev pub old_account : ContractData → Text
old_account contract = format_fincloud_alt_no_to_mso (trim_space contract.alternate_account)

-- What an answer rests on. A closed loan owes nothing; before the cutoff the position is the one that
-- the old system has for that date, under the new number; on the cutoff the balances are those of the
-- old system's opening state; after it there is an exact position.
pub data Basis (s : Service) (today : Date) (contract : ContractData) (as_of : Date)
    (r : ResolvedPosition) : Type 0 where
  closed_loan :
      Date.is_zero contract.close_date ≡ false
      → Date.after contract.close_date as_of ≡ false
      → r.position.source ≡ closed
      → r.position.account_number ≡ trim_space contract.primary_account
      → r.position.as_of ≡ as_of
      → IsEmpty r.position
      → Basis s today contract as_of r
  before_cutoff :
      (p : LoanPosition)
      → is_closed contract as_of ≡ false
      → Date.before as_of s.cutoff ≡ true
      → s.historical_position (old_account contract) as_of ≡ ok p
      → r.position ≡ record p { account_number = trim_space contract.primary_account }
      → Basis s today contract as_of r
  on_cutoff :
      (o : OpeningLoanState)
      → is_closed contract as_of ≡ false
      → Date.equal as_of s.cutoff ≡ true
      → s.opening_state (old_account contract) s.cutoff ≡ ok o
      → r.position.account_number ≡ trim_space contract.primary_account
      → IsOpening o as_of r.position
      → Basis s today contract as_of r
  past_cutoff :
      is_closed contract as_of ≡ false
      → Date.after as_of s.cutoff ≡ true
      → HasExact s today (trim_space contract.primary_account) as_of r
      → Basis s today contract as_of r

is_closed-dates :
    (contract : ContractData) (as_of : Date)
    → is_closed contract as_of ≡ true
    → (Date.is_zero contract.close_date ≡ false) × (Date.after contract.close_date as_of ≡ false)
unfolding is_closed
is_closed-dates contract as_of h = (ground arith, ground arith)

closed-Basis :
    (s : Service) (today : Date) (contract : ContractData) (as_of : Date) (r : ResolvedPosition)
    → is_closed contract as_of ≡ true
    → answer contract (closed_position contract (trim_space contract.primary_account) as_of) ≡ r
    → Basis s today contract as_of r
unfolding closed_position
closed-Basis s today contract as_of r c h =
    let (ended, past) = is_closed-dates contract as_of c in
    subst (Basis s today contract as_of) h (
      closed_loan ended past refl refl refl (record {
        principal_outstanding = refl;
        principal_due = refl;
        interest_due = refl;
        penalty_due = refl;
        unapplied_amount = refl;
      }))

not_before-equal :
    (a b : Date) → Date.after a b ≡ false → Date.before a b ≡ false → Date.equal a b ≡ true
unfolding Date.after Date.before Date.equal
not_before-equal a b h k = ground arith

opening-answer :
    (s : Service) (today : Date) (contract : ContractData) (as_of : Date) (r : ResolvedPosition)
    (o : OpeningLoanState)
    → Date.equal as_of s.cutoff ≡ true
    → from_opening s today contract o (trim_space contract.primary_account) as_of no_position ≡ ok r
    → answer contract (opening_position o as_of) ≡ r
unfolding from_opening
opening-answer s today contract as_of r o same h =
    let k : ok (answer contract (opening_position o as_of)) ≡ ok r = rw same at h in
    ok-injective _ r k

legacy-Basis :
    (s : Service) (today : Date) (contract : ContractData) (as_of : Date) (r : ResolvedPosition)
    → is_closed contract as_of ≡ false
    → Date.after as_of s.cutoff ≡ false
    → legacy s today contract (trim_space contract.primary_account) as_of no_position ≡ ok r
    → Basis s today contract as_of r
unfolding legacy opening_position
legacy-Basis s today contract as_of r o early h =
    let (named, h₁) =
      refuse-eq-ok (is_empty (trim_space contract.alternate_account)) historical_evidence _ h in
    let primary = trim_space contract.primary_account in
    elim (Bool-cases (Date.before as_of s.cutoff)) [
      | inl past ↦
          let k : (s.historical_position (old_account contract) as_of >>= λ p.
          ok (answer contract (record p { account_number = primary })))
              ≡ ok r =
            rw past at h₁ in
          let (p, found, h₂) = >>=-eq-ok (s.historical_position (old_account contract) as_of) _ k in
          before_cutoff p o past found
            (sym (ap (λ (q : ResolvedPosition). q.position) (ok-injective _ r h₂)))
      | inr not_past ↦
          let k : (s.opening_state (old_account contract) s.cutoff >>= λ p.
          from_opening s today contract (record p { account_number = primary }) primary as_of
            no_position)
              ≡ ok r =
            rw not_past at h₁ in
          let (opening, found, h₂) =
            >>=-eq-ok (s.opening_state (old_account contract) s.cutoff) _ k in
          let same = not_before-equal as_of s.cutoff early not_past in
          subst (Basis s today contract as_of)
            (opening-answer s today contract as_of r (record opening { account_number = primary })
              same h₂)
            (on_cutoff opening o same found refl (record {
              as_of = refl;
              source = refl;
              principal_outstanding = refl;
              principal_due = refl;
              interest_due = refl;
              penalty_due = refl;
              collectability_bi = refl;
            }))
    ]

-- An answer of the service: the checks it has passed, and what it rests on.
pub record Answered (s : Service) (today : Date) (account : Text) (as_of : Date)
    (r : ResolvedPosition) : Type 0 where
  pub wanted : is_empty (trim_space account) ≡ false
  pub not_future : Date.after as_of today ≡ false
  pub contract : ContractData
  pub resolved : s.resolve_loan (trim_space account) ≡ ok contract
  pub basis : Basis s today contract as_of r

resolve_contract-Basis :
    (s : Service) (today : Date) (contract : ContractData) (as_of : Date) (r : ResolvedPosition)
    → resolve_contract s today contract as_of ≡ ok r
    → Basis s today contract as_of r
unfolding resolve_contract
resolve_contract-Basis s today contract as_of r h =
    let primary = trim_space contract.primary_account in
    let (named, h₁) = refuse-eq-ok (is_empty primary) invariant _ h in
    elim (Bool-cases (is_closed contract as_of)) [
      | inl c ↦
          let k : ok (answer contract (closed_position contract primary as_of)) ≡ ok r =
            rw c at h₁ in
          closed-Basis s today contract as_of r c (ok-injective _ r k)
      | inr o ↦ elim (Bool-cases (Date.after as_of s.cutoff)) [
        | inl late ↦
            let k : after_cutoff s today contract primary as_of ≡ ok r = rw (o, late) at h₁ in
            past_cutoff o late (after_cutoff-HasExact s today contract primary as_of r late k)
        | inr early ↦
            let k : legacy s today contract primary as_of no_position ≡ ok r =
              rw (o, early) at h₁ in
            legacy-Basis s today contract as_of r o early k
      ]
    ]

-- Every answer of resolvePosition is for a given account and a date not in the future. For a loan that
-- was closed by the date it owes nothing. Otherwise, before the cutoff it is the position that the old
-- system has for that date; on the cutoff it has the balances of the old system's opening state; and
-- after the cutoff it carries the exact position of that date, of a loan that had begun.
pub resolve_position-Answered :
    (s : Service) (today : Date) (account : Text) (as_of : Date) (r : ResolvedPosition)
    → resolve_position s today account as_of ≡ ok r
    → Answered s today account as_of r
unfolding resolve_position
resolve_position-Answered s today account as_of r h =
    let (blank, h₁) =
      refuse-eq-ok (is_empty (trim_space account) || Date.is_zero as_of) invalid_input _ h in
    let (future, h₂) = refuse-eq-ok (Date.after as_of today) invalid_input _ h₁ in
    let (contract, e, h₃) = >>=-eq-ok (s.resolve_loan (trim_space account)) _ h₂ in
    record {
      wanted = ground arith;
      not_future = future;
      contract = contract;
      resolved = e;
      basis = resolve_contract-Basis s today contract as_of r h₃;
    }
