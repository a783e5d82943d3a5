-- ===== src/Contractual/Timeline/Lookup.antt =====
-- internal/contractual/calculator.go: which point of the timeline decides, and that a checked timeline
-- always gives a collectability.
use new_trs.Common.{
  ◌≡◌, Bool, true, false, not, ◌||◌, List, [], ◌∷◌, Option, none, some, ok, is_ok, All, keep, arith,
  refl, Bool-cases, inl, inr, refuse-eq-ok, historical_evidence,
}
use new_trs.Common.Int.{ℤ}
use new_trs.Common.Sort.{IsSorted}
use new_trs.Loan.Date.{Date, before, after}
use new_trs.Loan.Date
use new_trs.Loan.Model.{CollectabilityPoint}
use new_trs.Contractual.Timeline.{
  in_range, conflicts, validate_timeline, date_before, last_value, collectability_at,
}

-- The points that count on a date, and the value of the last of them.
abbrev pub not_later : Date → CollectabilityPoint → Bool
not_later date p = not (Date.after p.date date)

abbrev pub value_of_last : ℤ → List CollectabilityPoint → ℤ
value_of_last value [] = value
value_of_last value (p ∷ rest) = value_of_last p.value rest

-- After one point that is too late, all are.
all_late :
    (date : Date) (p : CollectabilityPoint) (rest : List CollectabilityPoint)
    → Date.after p.date date ≡ true
    → All (λ q. date_before q p ≡ false) rest
    → keep (not_later date) rest ≡ []
all_late date p [] h s = refl
all_late date p (q ∷ rest) h s =
    let late : Date.after q.date date ≡ true = unfold after before in ground arith in
    rw late (all_late date p rest h s.1)

-- In a timeline sorted by date the early exit of collectabilityAt finds the last of all
-- points that are not after the date, or the opening value if there is none.
pub last_value-value_of_last :
    (value : ℤ) (timeline : List CollectabilityPoint) (date : Date)
    → IsSorted date_before timeline
    → last_value value timeline date ≡ value_of_last value (keep (not_later date) timeline)
unfolding last_value
last_value-value_of_last value [] date s = refl
last_value-value_of_last value (p ∷ rest) date s = elim (Bool-cases (Date.after p.date date)) [
  | inl e ↦ rw e (rw (all_late date p rest e s.0))
  | inr e ↦ rw e (last_value-value_of_last p.value rest date s.1)
]

last_value-in_range :
    (value : ℤ) (timeline : List CollectabilityPoint) (before : Option CollectabilityPoint)
    (date : Date)
    → in_range value ≡ true
    → validate_timeline before timeline ≡ ok tt
    → in_range (last_value value timeline date) ≡ true
unfolding last_value validate_timeline
last_value-in_range value [] before date r h = r
last_value-in_range value (p ∷ rest) before date r h =
    let (a, k) =
      refuse-eq-ok (Date.is_zero p.date || not (in_range p.value)) historical_evidence _ h in
    let (_, l) = refuse-eq-ok (conflicts before p) historical_evidence _ k in
    elim (Bool-cases (Date.after p.date date)) [
      | inl e ↦ rw e r
      | inr e ↦ rw e (last_value-in_range p.value rest (some p) date (ground arith) l)
    ]

-- From an opening value of 1 to 5 and a timeline that validateTimeline accepts,
-- collectabilityAt never fails.
pub collectability_at-is_ok :
    (opening : ℤ) (timeline : List CollectabilityPoint) (date : Date)
    → in_range opening ≡ true
    → validate_timeline none timeline ≡ ok tt
    → is_ok (collectability_at opening timeline date) ≡ true
unfolding collectability_at
collectability_at-is_ok opening timeline date r h =
    rw (r, last_value-in_range opening timeline none date r h, collectability_at)
