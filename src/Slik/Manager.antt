-- ===== src/Slik/Manager.antt =====
-- internal/slik/manager.go: names of stored files, texts of failures, and how a run ends. The files
-- are the list of the names in the storage directory. What a run asks of its context, its lock, the
-- store and the workbook functions is a record of answers; workers are not modelled. The log and the
-- audit trail are left out.
pub mod Names
pub mod Leftovers
pub mod Ends
use new_trs.Common.{
  ℕ, ◌+◌, Bool, true, false, not, ◌&&◌, ◌||◌, leb, ltb, ◌==◌, if◌then◌else◌, List, [], ◌∷◌, ◌++◌,
  map, keep, Option, none, some, length, Result, ok, err, Error, refuse, ◌>>◌, ◌>>=◌, foreign,
  slik_not_ready, slik_expired, joined, ambiguous_account_resolution, fincloud_unavailable,
  fincloud_session, fincloud_credentials, mso_unavailable, dwh_unavailable, current_snapshot,
  historical_evidence, not_found, deadline_exceeded, unsupported_repayment_reversal,
  unsupported_repayment_adjustment, unsupported_calculation, invalid_input, invariant,
  slik_not_found, refresh_in_progress, user_not_found, username_taken, session_not_found,
  invalid_credentials, inactive_user, unauthenticated, login_throttled,
  fincloud_invalid_credentials, unknown_permission, baseline_permission, last_access_manager,
}
use new_trs.Common.Text.{Text, codes, eq_text, to_lower, is_empty, is_digit}
use new_trs.Common.Errors.{error_code, is_error}
use new_trs.Slik.Store.{JobStatus, queued, processing, completed, failed, canceled, Job, Store, get}
use new_trs.Slik.Progress.{terminal}

-- encoding/hex.
unfoldable pub is_hex : ℕ → Bool
is_hex c = (leb 48 c && leb c 57) || (leb 97 c && leb c 102) || (leb 65 c && leb c 70)

unfoldable pub all_hex : Text → Bool
all_hex [] = true
all_hex (c ∷ rest) = is_hex c && all_hex rest

unfoldable pub valid_job_id : Text → Bool
valid_job_id id = (length id == 32) && eq_text (map to_lower id) id && all_hex id

-- filepath.Base is an argument.
unfoldable pub safe_path : (Text → Text) → Text → Text → Text → Result Text
safe_path base name id suffix = do
  refuse
      (not (valid_job_id id) || not (eq_text name (id ++ suffix)) || not (eq_text (base name) name))
      foreign
  ok name

abbrev pub is_completed : JobStatus → Bool
is_completed queued = false
is_completed processing = false
is_completed completed = true
is_completed failed = false
is_completed canceled = false

abbrev pub is_later : ℕ → Option ℕ → Bool
is_later now none = false
is_later now (some t) = ltb now t

unfoldable pub available : ℕ → Job → Bool
available now j = is_completed j.status && not (is_empty j.output_file) && is_later now j.expires_at

abbrev pub output_suffix : Text
output_suffix = codes ".output.xlsx"

unfoldable pub has_file : Text → List Text → Bool
has_file name [] = false
has_file name (f ∷ rest) = eq_text f name || has_file name rest

-- The name of the file that OpenOutput opens, for a directory whose files can be opened.
unfoldable pub open_output : (Text → Text) → ℕ → List Text → Text → ℕ → Bool → Store → Result Text
open_output base now files id owner view_all store = do
  j ← get id owner view_all store
  refuse (not (is_completed j.status)) slik_not_ready
  refuse (not (available now j)) slik_expired
  elim (safe_path base j.output_file j.id output_suffix) [
    | err e ↦ err slik_expired
    | ok name ↦ if has_file name files then ok name else err slik_expired
  ]

unfoldable pub safe_failure : Error → Text
safe_failure e =
    if is_error e (error_code ambiguous_account_resolution)
    then codes "ambiguous account"
    else if is_error e (error_code fincloud_unavailable)
        || is_error e (error_code fincloud_session)
        || is_error e (error_code fincloud_credentials)
    then codes "Fincloud unavailable"
    else if is_error e (error_code mso_unavailable)
    then codes "MSO evidence unavailable"
    else if is_error e (error_code dwh_unavailable)
    then codes "DWH evidence unavailable"
    else if is_error e (error_code current_snapshot)
    then codes "current snapshot unavailable"
    else if is_error e (error_code historical_evidence)
    then codes "historical evidence unavailable"
    else if is_error e (error_code not_found)
    then codes "account not found"
    else if is_error e (error_code deadline_exceeded)
    then codes "upstream timeout"
    else if is_error e (error_code unsupported_repayment_reversal)
    then codes "unsupported repayment reversal"
    else if is_error e (error_code unsupported_repayment_adjustment)
    then codes "unsupported zero-net repayment adjustment"
    else if is_error e (error_code unsupported_calculation)
    then codes "unsupported calculation"
    else if is_error e (error_code invalid_input)
    then codes "invalid account or reporting date"
    else codes "SLIK processing unavailable"

-- The places where a run removes the output file: before it starts, after the workbook could not be
-- written, where the lock is lost after that, where the job was canceled meanwhile, where the lock is
-- lost at last, and where the job could not be ended.
pub data Removal : Type 0 where
  at_start unpatched lock_lost_then canceled_then lock_lost_at_last unfinished : Removal

-- What a run sees before its workers start and after they have stopped, in the order in which it asks.
pub record Answers : Type 0 where
  -- Whether the output file is there before the run, and after the writing of it failed.
  pub there_before : Bool
  pub there_unpatched : Bool
  -- Whether the removal at a place succeeds; a file that is not there counts as removed.
  pub removes : Removal → Bool
  pub canceled_before : Result Bool
  pub lock_lost_before : Bool
  pub lock_lost_first : Bool
  pub shutdown : Bool
  pub canceled_first : Result Bool
  pub failure : Option (Text × Text)
  pub interrupted : Bool
  pub lock_lost_interrupted : Bool
  pub complete : Result (Unit {0})
  pub workbook : Result (Unit {0})
  pub results : Result (Unit {0})
  pub patched : Result (Unit {0})
  pub lock_lost_patched : Bool
  pub canceled_last : Result Bool
  pub lock_lost_last : Bool

-- The job is left for recovery, was canceled meanwhile, or is ended by `finish_run`.
pub data RunEnd : Type 0 where
  left logged : RunEnd
  ended_with : JobStatus → Text → Text → Text → RunEnd

-- The Boolean is whether the output file is in the storage directory.
abbrev pub failed_with : Text → Bool → RunEnd × Bool
failed_with reason present = (ended_with failed [] reason [], present)

-- The Boolean of the arguments is whether the file is there after the error.
unfoldable pub stop_on_error : Result (Unit {0}) → Text → Bool → RunEnd × Bool → RunEnd × Bool
stop_on_error (err e) reason present next = failed_with reason present
stop_on_error (ok u) reason present next = next

-- Whether the file stays where a removal is tried and its failure is ignored.
unfoldable pub stays : Answers → Removal → Bool
stays a place = not (a.removes place)

unfoldable pub publish_checked : Text → Answers → Bool → RunEnd × Bool
publish_checked output a true = (left, stays a lock_lost_at_last)
publish_checked output a false = (ended_with completed [] [] output, true)

unfoldable pub publish_unless : Text → Answers → Result Bool → RunEnd × Bool
publish_unless output a (err e) = (logged, stays a canceled_then)
publish_unless output a (ok true) = (logged, stays a canceled_then)
publish_unless output a (ok false) = publish_checked output a a.lock_lost_last

unfoldable pub publish : Text → Answers → RunEnd × Bool
publish output a =
    if a.lock_lost_patched
    then (left, stays a lock_lost_then)
    else publish_unless output a a.canceled_last

unfoldable pub generate : Text → Answers → RunEnd × Bool
generate output a = stop_on_error a.complete (codes "SLIK checkpoints incomplete") false (
    stop_on_error a.workbook (codes "stored workbook unavailable") false (
      stop_on_error a.results (codes "SLIK checkpoints unavailable") false (
        stop_on_error a.patched (codes "XLSX generation failed")
          (a.there_unpatched && stays a unpatched) (publish output a))))

unfoldable pub after_work : Text → Answers → Option (Text × Text) → RunEnd × Bool
after_work output a (some (account, reason)) = (ended_with failed account reason [], false)
after_work output a none =
    if a.interrupted
    then (if a.lock_lost_interrupted
        then (left, false)
        else failed_with (codes "SLIK processing interrupted") false)
    else generate output a

unfoldable pub unless_canceled : Text → Answers → Result Bool → RunEnd × Bool
unless_canceled output a (err e) = (left, false)
unless_canceled output a (ok true) = (logged, false)
unless_canceled output a (ok false) = after_work output a a.failure

-- After the workers have stopped.
unfoldable pub conclude : Text → Answers → RunEnd × Bool
conclude output a =
    if a.lock_lost_first || a.shutdown
    then (left, false)
    else unless_canceled output a a.canceled_first

unfoldable pub unless_canceled_before : Text → Answers → Result Bool → RunEnd × Bool
unless_canceled_before output a (err e) = (left, false)
unless_canceled_before output a (ok true) = (logged, false)
unless_canceled_before output a (ok false) =
    if a.lock_lost_before then (left, false) else conclude output a

abbrev pub output_of : Text → Text
output_of id = id ++ output_suffix

-- From the start: the name of the job is checked, and an output file of an earlier run removed.
unfoldable pub attempt : Text → Answers → RunEnd × Bool
attempt id a =
    if not (valid_job_id id)
    then failed_with (codes "invalid SLIK job identifier") a.there_before
    else if not (a.removes at_start)
    then failed_with (codes "SLIK output storage unavailable") a.there_before
    else unless_canceled_before (output_of id) a a.canceled_before

-- Where a job could not be ended, the output file that it names is removed.
unfoldable pub finish_with : Text → Answers → Bool → Store → Result Store → Store × Bool
finish_with output a present store (err e) =
    (store, present && (is_empty output || stays a unfinished))
finish_with output a present store (ok t) = (t, present)

unfoldable pub finish_run : ℕ → Text → Answers → RunEnd × Bool → Store → Store × Bool
finish_run now id a (left, present) store = (store, present)
finish_run now id a (logged, present) store = (store, present)
finish_run now id a (ended_with status account reason output, present) store =
    finish_with output a present store (terminal now id status account reason output store)

-- The store after a run, and whether the output file is there.
unfoldable pub run_end : ℕ → Text → Answers → Store → Store × Bool
run_end now id a store = finish_run now id a (attempt id a) store
