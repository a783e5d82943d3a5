-- ===== src/Contractual/Timeline.antt =====
-- internal/contractual/calculator.go: the collectability of a loan over time (validateTimeline,
-- collectabilityAt).
pub mod Lookup
use new_trs.Common.{
  ◌≡◌, Bool, true, false, not, ◌&&◌, ◌||◌, if◌then◌else◌, List, [], ◌∷◌, Option, none, some, Result,
  ok, err, refuse, ◌>>◌, ◌>>=◌, historical_evidence, joined, foreign,
}
use new_trs.Common.Int.{ℤ, pos, ltb_ℤ, eq_ℤ}
use new_trs.Common.Sort.{sort}
use new_trs.Loan.Date.{Date}
use new_trs.Loan.Date
use new_trs.Loan.Model.{CollectabilityPoint}

-- A collectability is one of 1 to 5.
abbrev pub in_range : ℤ → Bool
in_range v = not (ltb_ℤ v (pos 1)) && not (ltb_ℤ (pos 5) v)

unfoldable pub conflicts : Option CollectabilityPoint → CollectabilityPoint → Bool
conflicts none p = false
conflicts (some before) p = Date.equal p.date before.date && not (eq_ℤ p.value before.value)

unfoldable pub validate_timeline :
    Option CollectabilityPoint → List CollectabilityPoint → Result (Unit {0})
validate_timeline before [] = ok tt
validate_timeline before (p ∷ rest) =
    let later = validate_timeline (some p) rest in
    (do
      refuse (Date.is_zero p.date || not (in_range p.value)) historical_evidence
      refuse (conflicts before p) historical_evidence
      later)

-- The comparison of the sort, compareDate.
abbrev pub date_before : CollectabilityPoint → CollectabilityPoint → Bool
date_before l r = Date.before l.date r.date

-- The loop of collectabilityAt, which stops at the first point after the date.
unfoldable pub last_value : ℤ → List CollectabilityPoint → Date → ℤ
last_value value [] date = value
last_value value (p ∷ rest) date =
    if Date.after p.date date then value else last_value p.value rest date

unfoldable pub collectability_at : ℤ → List CollectabilityPoint → Date → Result ℤ
collectability_at opening timeline date = do
  refuse (not (in_range opening)) historical_evidence
  let value = last_value opening timeline date
  refuse (not (in_range value)) (joined historical_evidence foreign)
  ok value
