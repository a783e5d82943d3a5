-- ===== src/Examples/Snapshots.antt =====
-- A refresh with one row, and the theorems on refreshes applied to it.
use new_trs.Common.{◌≡◌, refl, true, [], ◌∷◌, none, ok}
use new_trs.Common.Int.{pos}
use new_trs.Common.Text.{codes, trim_space, is_empty}
use new_trs.Loan.Model.{LoanPosition}
use new_trs.Position.Service.{no_position}
use new_trs.Snapshot.Refresh.{
  Tables, Environment, bad_row, is_seen, check_rows, validate_rows, refresh,
}
use new_trs.Snapshot.Refresh.Atomic.{Outcome, refresh-Outcome}
use new_trs.Snapshot.Refresh.Total.{IsHealthy, refresh-count}
use new_trs.Examples.Data.{calculator_runs, day, units}

abbrev fetched_row : LoanPosition
fetched_row = record no_position {
  as_of = day 2025 11 30;
  loan_start_date = day 2024 1 15;
  account_number = codes "1001";
  principal_outstanding = units 217;
  collectability_bi = pos 1;
}

abbrev before_refresh : Tables
before_refresh = record {
  rows = [];
  status = record {
    last_attempted_at = none;
    last_successful_at = none;
    last_status = [];
    last_row_count = 0;
    last_error_summary = none;
  };
}

abbrev working : Environment
working = record {
  lock = ok true;
  now = 5;
  business_date = day 2025 11 30;
  mark_attempt_answer = ok tt;
  fetch = λ date. ok (fetched_row ∷ []);
  begin_answer = ok tt;
  clear_answer = ok tt;
  insert_answer = λ chunk. ok tt;
  record_answer = ok tt;
  commit_answer = ok tt;
  mark_failure_answer = ok tt;
  summary = λ e. [];
  is_like_empty = is_empty;
  keeps = λ t. t;
}

working-IsHealthy : IsHealthy working
working-IsHealthy = record {
  lock = refl;
  attempt = refl;
  begin = refl;
  clear = refl;
  insert = λ chunk. refl;
  recording = refl;
  commit = refl;
}

refresh-Outcome_example : Outcome working before_refresh (refresh working before_refresh)
refresh-Outcome_example = refresh-Outcome working before_refresh

refresh-count_example : (refresh working before_refresh).1 ≡ ok 1
unfolding validate_rows check_rows bad_row is_seen calculator_runs trim_space is_empty
refresh-count_example =
    refresh-count working before_refresh (fetched_row ∷ []) working-IsHealthy refl refl
