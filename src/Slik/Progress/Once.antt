-- ===== src/Slik/Progress/Once.antt =====
-- An account of a job is counted once.
use new_trs.Common.{
  ◌≡◌, refl, ap, sym, ◌∙◌, Bool, true, false, not, ◌&&◌, ◌==◌, ==_iff, Bool-cases, List, [], ◌∷◌,
  length, keep, inl, inr, ok, err, foreign, refuse-eq-ok, ok-injective, arith,
}
use new_trs.Common.Text.{Text, eq_text}
use new_trs.Slik.Store.{
  Values, JobAccount, Entry, Store, is_processing, is_waiting, update_job, affected, has_status,
}
use new_trs.Slik.Progress.{complete, progressed, is_open, has_one_open, save}

-- No account is open under the key that was completed.
open-complete :
    (account primary : Text) (values : Values) (accounts : List JobAccount)
    → length (keep (is_open account) (complete account primary values accounts)) ≡ 0
unfolding complete
open-complete account primary values [] = refl
open-complete account primary values (a ∷ rest) =
    let later = open-complete account primary values rest in
    elim (Bool-cases (is_waiting a.status)) [
      | inl w ↦ elim (Bool-cases (eq_text a.requested_account account)) [
        | inl e ↦ ground (arith, later)
        | inr e ↦ ground (arith, later)
      ]
      | inr w ↦ elim (Bool-cases (eq_text a.requested_account account)) [
        | inl e ↦ ground (arith, later)
        | inr e ↦ ground (arith, later)
      ]
    ]

has_one_open-progressed :
    (account primary : Text) (values : Values) (e : Entry)
    → has_one_open account (progressed account primary values e) ≡ false
unfolding has_one_open
has_one_open-progressed account primary values e =
    let closed = open-complete account primary values e.accounts in rw closed refl

can_save : Text → Entry → Bool
can_save account e = is_processing e.job.status && has_one_open account e

affected-save :
    (id account primary : Text) (values : Values) (s : Store)
    → affected id (has_status is_processing) s ≡ 1
    → affected id (has_one_open account) s ≡ 1
    → affected id (has_one_open account) (
        update_job id
          (λ e. is_processing e.job.status && has_one_open account e)
          (progressed account primary values)
          s)
      ≡ 0
unfolding affected update_job
affected-save id account primary values [] run one = refl
affected-save id account primary values (e ∷ rest) run one =
    elim (Bool-cases (eq_text e.job.id id)) [
      | inl m ↦
          let run₁ : is_processing e.job.status ≡ true = ground arith in
          let one₁ : has_one_open account e ≡ true = ground arith in
          rw (m, run₁, one₁, m, has_one_open-progressed account primary values e) refl
      | inr m ↦
          rw (m, m)
            (affected-save id account primary values rest (rw (m, affected) at run)
              (rw (m, affected) at one))
    ]

-- After a Save of an account that succeeds, a Save of the same account of the same job fails.
save-save :
    (id account primary other_primary : Text) (values other_values : Values) (s t : Store)
    → save id account primary values s ≡ ok t
    → save id account other_primary other_values t ≡ err foreign
unfolding save
save-save id account primary other_primary values other_values s t e =
    let (run, e₁) = refuse-eq-ok _ foreign _ e in
    let (one, e₂) = refuse-eq-ok _ foreign _ e₁ in
    let none_open =
      affected-save id account primary values s ((==_iff _ 1).0 (not-injective _ run))
        ((==_iff _ 1).0 (not-injective _ one)) in
    let closed = ap (affected id (has_one_open account)) (sym (ok-injective _ t e₂)) ∙ none_open in
    elim (Bool-cases (affected id (has_status is_processing) t == 1)) [
      | inl p ↦ rw (p, closed) refl
      | inr p ↦ rw p refl
    ]
  where
    not-injective : (a : Bool) → not a ≡ false → a ≡ true
    not-injective true h = refl
    not-injective false h = cc
