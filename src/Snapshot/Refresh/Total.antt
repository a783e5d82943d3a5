-- ===== src/Snapshot/Refresh/Total.antt =====
-- A refresh whose systems answer succeeds: the fuel of the chunks is enough.
use new_trs.Common.{
  ℕ, zero, suc, ◌≤◌, ◌≡◌, refl, true, false, ◌||◌, List, [], ◌∷◌, ◌++◌, map, length, All, Result,
  ok, err, is_ok, arith,
}
use new_trs.Loan.Money.{is_negative}
use new_trs.Loan.Date.{Date}
use new_trs.Loan.Date
use new_trs.Loan.Model.{LoanPosition}
use new_trs.Snapshot.Refresh.{
  stored, Environment, Tables, bad_row, validate_rows, check_chunk, chunk_size, front, back,
  insert_chunks, replace_all, replacement, mark_attempt, succeeded_status, concluded, with_lock,
  locked, refresh,
}
use new_trs.Snapshot.Columns.{StoredRow}
use new_trs.Snapshot.Refresh.Rows.{validate_rows-eq-ok}

length-back : (n : ℕ) (rows : List LoanPosition) → length (back n rows) ≤ length rows
unfolding back
length-back zero rows = omega arith
length-back (suc n) [] = omega arith
length-back (suc n) (row ∷ rest) = omega (arith, length-back n rest)

length-back-cons :
    (n : ℕ) (row : LoanPosition) (rest : List LoanPosition)
    → length (back (suc n) (row ∷ rest)) ≤ length rest
unfolding back
length-back-cons n row rest = length-back n rest

All-front {κ} :
    (P : LoanPosition → Type κ) (n : ℕ) (rows : List LoanPosition)
    → All P rows
    → All P (front n rows)
unfolding front
All-front P zero rows h = tt
All-front P (suc n) [] h = tt
All-front P (suc n) (row ∷ rest) h = (h.0, All-front P n rest h.1)

All-back {κ} :
    (P : LoanPosition → Type κ) (n : ℕ) (rows : List LoanPosition)
    → All P rows
    → All P (back n rows)
unfolding back
All-back P zero rows h = h
All-back P (suc n) [] h = tt
All-back P (suc n) (row ∷ rest) h = All-back P n rest h.1

-- What validateRows checks is more than what insertRows checks.
bad_row-start :
    (row : LoanPosition) (date : Date)
    → bad_row row date ≡ false
    → (Date.is_zero row.loan_start_date || Date.after row.loan_start_date row.as_of) ≡ false
unfolding bad_row Date.after Date.before Date.equal
bad_row-start row date h = ground arith

bad_row-penalty :
    (row : LoanPosition) (date : Date)
    → bad_row row date ≡ false
    → is_negative row.penalty_due ≡ false
unfolding bad_row
bad_row-penalty row date h = ground arith

check_chunk-good :
    (date : Date) (rows : List LoanPosition)
    → All (λ r. bad_row r date ≡ false) rows
    → check_chunk rows ≡ ok tt
unfolding check_chunk
check_chunk-good date [] h = refl
check_chunk-good date (row ∷ rest) h =
    let later = check_chunk-good date rest h.1 in
    rw (bad_row-start row date h.0, bad_row-penalty row date h.0, later) refl

insert_chunks-is_ok :
    (fuel : ℕ) (env : Environment) (rows : List LoanPosition) (table : List StoredRow)
    → length rows ≤ fuel
    → All (λ r. bad_row r env.business_date ≡ false) rows
    → ((chunk : List LoanPosition) → env.insert_answer chunk ≡ ok tt)
    → is_ok (insert_chunks fuel env rows table) ≡ true
unfolding insert_chunks
insert_chunks-is_ok fuel env [] table f h a = refl
insert_chunks-is_ok zero env (row ∷ rest) table f h a = absurd (omega arith)
insert_chunks-is_ok (suc fuel) env (row ∷ rest) table f h a =
    let shorter : length (back chunk_size (row ∷ rest)) ≤ length rest =
      length-back-cons 199 row rest in
    let later =
      insert_chunks-is_ok fuel env (back chunk_size (row ∷ rest))
        (table ++ map (stored env) (front chunk_size (row ∷ rest))) (omega arith)
        (All-back _ chunk_size (row ∷ rest) h) a in
    rw
      (
        check_chunk-good env.business_date (front chunk_size (row ∷ rest))
            (All-front _ chunk_size (row ∷ rest) h),
        a (front chunk_size (row ∷ rest)),
      )
      later

-- The database of the environment takes every statement of a replacement.
pub record IsHealthy (env : Environment) : Type 0 where
  pub lock : env.lock ≡ ok true
  pub attempt : env.mark_attempt_answer ≡ ok tt
  pub begin : env.begin_answer ≡ ok tt
  pub clear : env.clear_answer ≡ ok tt
  pub insert : (chunk : List LoanPosition) → env.insert_answer chunk ≡ ok tt
  pub recording : env.record_answer ≡ ok tt
  pub commit : env.commit_answer ≡ ok tt

value {ℓ} : {A : Type ℓ} (r : Result A) → is_ok r ≡ true → (a : A) × (r ≡ ok a)
value (ok a) h = (a, refl)
value (err e) h = absurd (ground arith)

replacement-count :
    (env : Environment) (tables : Tables) (rows : List LoanPosition)
    → IsHealthy env
    → env.fetch env.business_date ≡ ok rows
    → validate_rows rows env.business_date ≡ ok tt
    → (t : Tables) × (replacement env tables ≡ ok (t, length rows))
unfolding replacement replace_all
replacement-count env tables rows healthy fetched valid =
    let good = (validate_rows-eq-ok rows env.business_date valid).0 in
    let (table, inserted) =
      value _ (insert_chunks-is_ok (length rows) env rows [] (omega arith) good healthy.insert) in
    let replaced : Tables = record {
      rows = table;
      status = succeeded_status env.now (length rows) tables.status;
    } in
    (
      replaced,
      simp (
        fetched, valid, healthy.begin, healthy.clear, inserted, healthy.recording, healthy.commit,
      ),
    )

-- A refresh that gets the lock, whose source gives rows that validateRows accepts and whose database
-- takes every statement returns the number of those rows.
pub refresh-count :
    (env : Environment) (before : Tables) (rows : List LoanPosition)
    → IsHealthy env
    → env.fetch env.business_date ≡ ok rows
    → validate_rows rows env.business_date ≡ ok tt
    → (refresh env before).1 ≡ ok (length rows)
unfolding refresh locked with_lock concluded
refresh-count env before rows healthy fetched valid =
    let (t, done) =
      replacement-count env (mark_attempt env.now before) rows healthy fetched valid in
    simp (healthy.lock, healthy.attempt, done)
