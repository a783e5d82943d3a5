-- ===== src/Slik/Manager/Ends.antt =====
-- How a run ends: an output file stays only for a completed job, or where its removal failed.
use new_trs.Common.{
  ℕ, ◌≡◌, refl, sym, subst, Bool, true, false, ◌==◌, Bool-cases, [], ◌∷◌, some, ◌⊎◌, inl, inr, ok,
  err, Error, foreign, refuse-eq-ok, ok-injective, Result-cases,
}
use new_trs.Common.Text.{Text, eq_text, is_empty}
use new_trs.Slik.Store.{
  JobStatus, completed, Store, is_processing, update_job, affected, has_status,
}
use new_trs.Slik.Progress.{terminal, ended}
use new_trs.Slik.Progress.Final.{status_of}
use new_trs.Slik.Manager.{
  Answers, unfinished, RunEnd, left, logged, ended_with, stays, output_of, attempt, valid_job_id,
  finish_with, finish_run, run_end,
}
use new_trs.Slik.Manager.Leftovers.{IsLeftover, Explained, attempt-Explained, both, stays-removes}

true-false : true ≡ false → ⊥
true-false h = cc

-- A job that runs takes the status that ends it.
status_of-ended :
    (now : ℕ) (id account reason output : Text) (status : JobStatus) (s : Store)
    → (affected id (has_status is_processing) s == 0) ≡ false
    → status_of id
        (update_job id (has_status is_processing) (ended now status account reason output) s)
      ≡ some status
unfolding status_of affected update_job ended
status_of-ended now id account reason output status [] h = cc
status_of-ended now id account reason output status (e ∷ rest) h =
    elim (Bool-cases (eq_text e.job.id id)) [
      | inl m ↦ elim (Bool-cases (is_processing e.job.status)) [
        | inl p ↦ rw (m, p, m) refl
        | inr p ↦ absurd (true-false (rw (m, p, affected) at h))
      ]
      | inr m ↦
          rw (m, m)
            (status_of-ended now id account reason output status rest (rw (m, affected) at h))
    ]

terminal-status_of :
    (now : ℕ) (id account reason output : Text) (status : JobStatus) (s t : Store)
    → terminal now id status account reason output s ≡ ok t
    → status_of id t ≡ some status
unfolding terminal
terminal-status_of now id account reason output status s t h =
    let (last, h₁) = refuse-eq-ok _ foreign _ h in
    let (runs, h₂) = refuse-eq-ok (affected id (has_status is_processing) s == 0) foreign _ h₁ in
    subst (λ u. status_of id u ≡ some status) (ok-injective _ t h₂)
      (status_of-ended now id account reason output status s runs)

output-is_empty : (id : Text) → is_empty (output_of id) ≡ false
unfolding is_empty
output-is_empty [] = refl
output-is_empty (c ∷ id) = refl

-- Ending a job never brings a file.
finish_run-present :
    (now : ℕ) (id : Text) (a : Answers) (r : RunEnd × Bool) (s : Store)
    → (finish_run now id a r s).1 ≡ true
    → r.1 ≡ true
unfolding finish_run finish_with
finish_run-present now id a (left, present) s h = h
finish_run-present now id a (logged, present) s h = h
finish_run-present now id a (ended_with status account reason output, present) s h =
    elim (Result-cases (terminal now id status account reason output s)) [
      | inl (t, e) ↦ rw e at h
      | inr (f, e) ↦ (both present _ (rw e at h)).0
    ]

-- The job could not be ended, and the file that it names could not be removed.
pub record IsUnfinished (now : ℕ) (id : Text) (a : Answers) (s : Store) : Type 0 where
  pub error : Error
  pub refused : terminal now id completed [] [] (output_of id) s ≡ err error
  pub kept : a.removes unfinished ≡ false

completed-present :
    (now : ℕ) (id : Text) (a : Answers) (s : Store)
    → (finish_run now id a (ended_with completed [] [] (output_of id), true) s).1 ≡ true
    → (status_of id (finish_run now id a (ended_with completed [] [] (output_of id), true) s).0
        ≡ some completed)
      ⊎ IsUnfinished now id a s
unfolding finish_run finish_with
completed-present now id a s h =
    let output = output_of id in
    elim (Result-cases (terminal now id completed [] [] output s)) [
      | inl (t, e) ↦ inl (rw e (terminal-status_of now id [] [] output completed s t e))
      | inr (f, e) ↦
          let k : stays a unfinished ≡ true = rw (e, output-is_empty id) at h in
          inr (record { error = f; refused = e; kept = stays-removes a unfinished k })
    ]

-- The job is completed, and CheckComplete, the writing of the workbook and the last check for a
-- cancellation went well.
pub record IsCompleted (id : Text) (a : Answers) (t : Store) : Type 0 where
  pub status : status_of id t ≡ some completed
  pub complete : a.complete ≡ ok tt
  pub patched : a.patched ≡ ok tt
  pub not_canceled : a.canceled_last ≡ ok false

-- If the output file of a run with a valid job id is there after the run, either the job is
-- completed, and CheckComplete, the writing of the workbook and the last check for a cancellation
-- went well; or the run tried to remove the file and could not: before it started, after the workbook
-- could not be written, where the lock was lost or the last check did not say that the job was not
-- canceled, or where the store refused to complete the job.
pub run_end-present :
    (now : ℕ) (id : Text) (a : Answers) (s : Store)
    → valid_job_id id ≡ true
    → (run_end now id a s).1 ≡ true
    → IsCompleted id a (run_end now id a s).0 ⊎ (IsLeftover a ⊎ IsUnfinished now id a s)
unfolding run_end Explained
run_end-present now id a s valid h =
    elim (attempt-Explained id a valid (finish_run-present now id a (attempt id a) s h)) [
      | inr leftover ↦ inr (inl leftover)
      | inl p ↦
          elim (completed-present now id a s
            (subst (λ r. (finish_run now id a r s).1 ≡ true) p.ending h)) [
              | inl c ↦ inl (record {
                status =
                    subst (λ r. status_of id (finish_run now id a r s).0 ≡ some completed)
                      (sym p.ending) c;
                complete = p.complete;
                patched = p.patched;
                not_canceled = p.not_canceled;
              })
              | inr u ↦ inr (inr u)
            ]
    ]
