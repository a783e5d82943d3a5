-- ===== src/Snapshot/Refresh.antt =====
-- internal/snapshot/service.go and repository.go: the refresh of the stored positions. The lock, the
-- source and the answers of the database are the fields of a record. A transaction that fails leaves
-- the tables as they were. Times are counts of some unit. The audit trail and the log are left out,
-- and so is the stored column `refreshed_at`; Columns.antt models the others.
pub mod Atomic
pub mod Rows
pub mod Total
use new_trs.Common.{
  ℕ, zero, suc, Bool, true, false, not, ◌&&◌, ◌||◌, if◌then◌else◌, List, [], ◌∷◌, ◌++◌, map, Option,
  none, some, length, Result, ok, err, Error, refuse, ◌>>◌, ◌>>=◌, foreign, historical_evidence,
  current_snapshot, not_found, joined, refresh_in_progress,
}
use new_trs.Common.Int.{ℤ, pos, ltb_ℤ}
use new_trs.Common.Text.{Text, codes, trim_space, is_empty, eq_text}
use new_trs.Loan.Money.{Money, zero_money, is_negative, exceeds}
use new_trs.Loan.Date.{Date}
use new_trs.Loan.Date
use new_trs.Loan.Model.{LoanPosition}
use new_trs.Snapshot.Columns.{StoredRow, stored_row}

pub record Status : Type 0 where
  pub last_attempted_at : Option ℕ
  pub last_successful_at : Option ℕ
  pub last_status : Text
  pub last_row_count : ℕ
  pub last_error_summary : Option Text

-- The tables current_loan_position_snapshot and snapshot_refresh_state.
pub record Tables : Type 0 where
  pub rows : List StoredRow
  pub status : Status

-- The answers of the systems below in one refresh.
pub record Environment : Type 0 where
  pub lock : Result Bool
  pub now : ℕ
  pub business_date : Date
  pub mark_attempt_answer : Result (Unit {0})
  pub fetch : Date → Result (List LoanPosition)
  pub begin_answer : Result (Unit {0})
  pub clear_answer : Result (Unit {0})
  pub insert_answer : List LoanPosition → Result (Unit {0})
  pub record_answer : Result (Unit {0})
  pub commit_answer : Result (Unit {0})
  pub mark_failure_answer : Result (Unit {0})
  pub summary : Error → Text
  -- The database finds the text equal to the empty one, and what a column keeps of an instant.
  pub is_like_empty : Text → Bool
  pub keeps : ℕ → ℕ

abbrev pub stored : Environment → LoanPosition → StoredRow
stored env row = stored_row env.is_like_empty env.keeps row

-- One condition of validateRows.
unfoldable pub bad_row : LoanPosition → Date → Bool
bad_row row date =
    is_empty (trim_space row.account_number)
    || not (Date.equal row.as_of date)
    || Date.is_zero row.loan_start_date
    || Date.after row.loan_start_date date
    || is_negative row.principal_outstanding
    || is_negative row.principal_due
    || is_negative row.interest_due
    || is_negative row.penalty_due
    || exceeds row.principal_due row.principal_outstanding
    || ltb_ℤ row.collectability_bi (pos 1)
    || ltb_ℤ (pos 5) row.collectability_bi

unfoldable pub is_seen : Text → List Text → Bool
is_seen account [] = false
is_seen account (a ∷ rest) = eq_text a account || is_seen account rest

unfoldable pub check_rows : List Text → List LoanPosition → Date → Result (Unit {0})
check_rows seen [] date = ok tt
check_rows seen (row ∷ rest) date =
    let account = trim_space row.account_number in
    let later = check_rows (account ∷ seen) rest date in
    (do refuse (bad_row row date) foreign; refuse (is_seen account seen) foreign; later)

unfoldable pub validate_rows : List LoanPosition → Date → Result (Unit {0})
validate_rows [] date = err foreign
validate_rows (row ∷ rest) date = check_rows [] (row ∷ rest) date

-- The checks of insertRows on the rows of a chunk.
unfoldable pub check_chunk : List LoanPosition → Result (Unit {0})
check_chunk [] = ok tt
check_chunk (row ∷ rest) = do
  refuse (Date.is_zero row.loan_start_date || Date.after row.loan_start_date row.as_of)
      historical_evidence
  refuse (is_negative row.penalty_due) current_snapshot
  check_chunk rest

abbrev pub chunk_size : ℕ
chunk_size = 200

unfoldable pub front : ℕ → List LoanPosition → List LoanPosition
front zero rows = []
front (suc n) [] = []
front (suc n) (row ∷ rest) = row ∷ front n rest

unfoldable pub back : ℕ → List LoanPosition → List LoanPosition
back zero rows = rows
back (suc n) [] = []
back (suc n) (row ∷ rest) = back n rest

-- The loop over the chunks, on fuel: what the table holds after it.
unfoldable pub insert_chunks :
    ℕ → Environment → List LoanPosition → List StoredRow → Result (List StoredRow)
insert_chunks fuel env [] table = ok table
insert_chunks zero env (row ∷ rest) table = err foreign
insert_chunks (suc fuel) env (row ∷ rest) table =
    let chunk = front chunk_size (row ∷ rest) in
    let later =
      insert_chunks fuel env (back chunk_size (row ∷ rest)) (table ++ map (stored env) chunk) in
    (check_chunk chunk >> (env.insert_answer chunk >> later))

abbrev pub succeeded_status : ℕ → ℕ → Status → Status
succeeded_status now count s = record s {
  last_successful_at = some now;
  last_status = codes "succeeded";
  last_row_count = count;
  last_error_summary = none;
}

unfoldable pub replace_all : Environment → List LoanPosition → Tables → Result Tables
replace_all env rows tables = do
  env.begin_answer
  env.clear_answer
  inserted ← insert_chunks (length rows) env rows []
  env.record_answer
  env.commit_answer
  ok (record { rows = inserted; status = succeeded_status env.now (length rows) tables.status })

unfoldable pub mark_attempt : ℕ → Tables → Tables
mark_attempt now tables = record tables {
  status = record (tables.status) {
    last_attempted_at = some now;
    last_status = codes "running";
    last_error_summary = none;
  };
}

unfoldable pub mark_failure : Environment → Error → Tables → Tables
mark_failure env e tables = elim env.mark_failure_answer [
  | err f ↦ tables
  | ok u ↦ record tables {
    status = record (tables.status) {
      last_status = codes "failed";
      last_error_summary = some (env.summary e);
    };
  }
]

-- Fetching, checking and replacing, each only after the one before succeeded.
unfoldable pub replacement : Environment → Tables → Result (Tables × ℕ)
replacement env tables = do
  rows ← env.fetch env.business_date
  validate_rows rows env.business_date
  replaced ← replace_all env rows tables
  ok (replaced, length rows)

unfoldable pub concluded : Environment → Tables → Result (Tables × ℕ) → Tables × Result ℕ
concluded env tables (err e) = (mark_failure env e tables, err e)
concluded env tables (ok (replaced, count)) = (replaced, ok count)

unfoldable pub with_lock : Environment → Tables → Result (Unit {0}) → Tables × Result ℕ
with_lock env tables (err e) = (tables, err e)
with_lock env tables (ok u) =
    let marked = mark_attempt env.now tables in concluded env marked (replacement env marked)

unfoldable pub locked : Environment → Tables → Result Bool → Tables × Result ℕ
locked env tables (err e) = (tables, err e)
locked env tables (ok false) = (tables, err refresh_in_progress)
locked env tables (ok true) = with_lock env tables env.mark_attempt_answer

-- The tables after a refresh, and what it returns.
unfoldable pub refresh : Environment → Tables → Tables × Result ℕ
refresh env tables = locked env tables env.lock
