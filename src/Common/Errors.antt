-- ===== src/Common/Errors.antt =====
-- errors.Is for the variables of the packages.
use new_trs.Common.{
  ℕ, Bool, ◌||◌, ◌==◌, Error, joined, not_found, ambiguous_account_resolution, invalid_input,
  unsupported_calculation, unsupported_repayment_reversal, unsupported_repayment_adjustment,
  historical_evidence, current_snapshot, fincloud_credentials, fincloud_session,
  fincloud_unavailable, dwh_unavailable, mso_unavailable, invariant, deadline_exceeded, foreign,
  slik_not_found, slik_not_ready, slik_expired, refresh_in_progress, user_not_found, username_taken,
  session_not_found, invalid_credentials, inactive_user, unauthenticated, login_throttled,
  fincloud_invalid_credentials, unknown_permission, baseline_permission, last_access_manager,
}

-- Each variable has a number.
unfoldable pub error_code : Error → ℕ
error_code not_found = 0
error_code ambiguous_account_resolution = 1
error_code invalid_input = 2
error_code unsupported_calculation = 3
error_code unsupported_repayment_reversal = 4
error_code unsupported_repayment_adjustment = 5
error_code historical_evidence = 6
error_code current_snapshot = 7
error_code fincloud_credentials = 8
error_code fincloud_session = 9
error_code fincloud_unavailable = 10
error_code dwh_unavailable = 11
error_code mso_unavailable = 12
error_code invariant = 13
error_code deadline_exceeded = 14
error_code foreign = 15
error_code slik_not_found = 16
error_code slik_not_ready = 17
error_code slik_expired = 18
error_code refresh_in_progress = 19
error_code user_not_found = 20
error_code username_taken = 21
error_code session_not_found = 22
error_code invalid_credentials = 23
error_code inactive_user = 24
error_code unauthenticated = 25
error_code login_throttled = 26
error_code fincloud_invalid_credentials = 27
error_code unknown_permission = 28
error_code baseline_permission = 29
error_code last_access_manager = 30
error_code (joined a b) = 31

unfoldable pub is_error : Error → ℕ → Bool
is_error (joined a b) target = is_error a target || is_error b target
is_error e target = error_code e == target
