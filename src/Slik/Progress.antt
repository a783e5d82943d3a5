-- ===== src/Slik/Progress.antt =====
-- internal/slik/repository.go: the statements on a job that runs or has ended, and all statements as
-- the steps of the store.
pub mod Consistent
pub mod Final
pub mod Once
use new_trs.Common.{
  ℕ, zero, suc, ◌+◌, ◌*◌, ◌≡◌, Bool, true, false, not, ◌&&◌, ◌||◌, leb, ltb, ◌==◌, if◌then◌else◌,
  List, [], ◌∷◌, map, Option, none, some, length, keep, Result, ok, err, refuse, ◌>>◌, ◌>>=◌,
  foreign,
}
use new_trs.Common.Sort.{sort}
use new_trs.Common.Text.{Text, eq_text, is_empty, text_before}
use new_trs.Slik.Store.{
  JobStatus, completed, canceled, done, Values, Job, JobAccount, Entry, Store, is_queued,
  is_processing, is_canceled_status, is_terminal, is_waiting, find, update_job, affected,
  has_status, set_status, create, get, recover, claim_next,
}

unfoldable pub first_of : ℕ → List Text → List Text
first_of zero accounts = []
first_of (suc limit) [] = []
first_of (suc limit) (a ∷ rest) = a ∷ first_of limit rest

-- The waiting accounts after a key.
unfoldable pub is_pending : Text → JobAccount → Bool
is_pending after a = is_waiting a.status && text_before after a.requested_account

-- No accounts for an unknown id.
unfoldable pub pending : Text → Text → ℕ → Store → List Text
pending id after limit store = elim (find id store) [
  | none ↦ []
  | some e ↦
      first_of limit
        (sort text_before (map (λ a. a.requested_account) (keep (is_pending after) e.accounts)))
]

abbrev pub is_open : Text → JobAccount → Bool
is_open account a = eq_text a.requested_account account && is_waiting a.status

abbrev pub checkpointed : Text → Values → JobAccount → JobAccount
checkpointed primary values a = record a {
  status = done;
  resolved_primary_account = primary;
  values = values;
}

unfoldable pub complete : Text → Text → Values → List JobAccount → List JobAccount
complete account primary values [] = []
complete account primary values (a ∷ rest) =
    (if is_open account a then checkpointed primary values a else a)
    ∷ complete account primary values rest

-- The second statement of `save` changes exactly one account of the entry.
unfoldable pub has_one_open : Text → Entry → Bool
has_one_open account e = length (keep (is_open account) e.accounts) == 1

abbrev pub progressed : Text → Text → Values → Entry → Entry
progressed account primary values e = record {
  job = record (e.job) { processed = suc e.job.processed };
  accounts = complete account primary values e.accounts;
}

unfoldable pub save : Text → Text → Text → Values → Store → Result Store
save id account primary values store = do
  refuse (not (affected id (has_status is_processing) store == 1)) foreign
  refuse (not (affected id (has_one_open account) store == 1)) foreign
  ok (
      update_job id (λ e. is_processing e.job.status && has_one_open account e)
        (progressed account primary values) store)

-- DATE_ADD(UTC_TIMESTAMP(6), INTERVAL 7 DAY).
abbrev pub week_after : ℕ → ℕ
week_after now = now + 604800000000

unfoldable pub ended : ℕ → JobStatus → Text → Text → Text → Entry → Entry
ended now status account reason output e = record e {
  job = record (e.job) {
    status = status;
    failed_account = account;
    failure_reason = reason;
    output_file = output;
    finished_at = some now;
    expires_at = some (week_after now);
  };
}

unfoldable pub terminal : ℕ → Text → JobStatus → Text → Text → Text → Store → Result Store
terminal now id status account reason output store = do
  refuse (not (is_terminal status)) foreign
  refuse (affected id (has_status is_processing) store == 0) foreign
  ok (update_job id (has_status is_processing) (ended now status account reason output) store)

unfoldable pub can_cancel : ℕ → Bool → Entry → Bool
can_cancel owner view_all e =
    (is_queued e.job.status || is_processing e.job.status)
    && (view_all || (e.job.owner_id == owner))

unfoldable pub stopped : ℕ → Entry → Entry
stopped now e = record e {
  job = record (e.job) {
    status = canceled;
    finished_at = some now;
    expires_at = some (week_after now);
  };
}

unfoldable pub cancel : ℕ → Text → ℕ → Bool → Store → Store
cancel now id owner view_all store = update_job id (can_cancel owner view_all) (stopped now) store

-- What Cancel returns: the error of reading the job again.
unfoldable pub cancel_result : ℕ → Text → ℕ → Bool → Store → Result (Unit {0})
cancel_result now id owner view_all store =
    get id owner view_all (cancel now id owner view_all store) >>= λ j. ok tt

-- An unknown id is the error of a row that is not there.
unfoldable pub is_canceled : Text → Store → Result Bool
is_canceled id store = elim (find id store) [
  | none ↦ err foreign
  | some e ↦ ok (is_canceled_status e.job.status)
]

unfoldable pub is_past : ℕ → Option ℕ → Bool
is_past now none = false
is_past now (some t) = leb t now

unfoldable pub can_clear : ℕ → Entry → Bool
can_clear now e = is_past now e.job.expires_at && is_terminal e.job.status

-- One of the rows that Expired chooses from; it takes a hundred of them at most.
unfoldable pub is_expired : ℕ → Entry → Bool
is_expired now e =
    can_clear now e && (not (is_empty e.job.input_file) || not (is_empty e.job.output_file))

abbrev pub cleared : Entry → Entry
cleared e = record e { job = record (e.job) { input_file = []; output_file = [] } }

unfoldable pub clear_files : ℕ → Text → Store → Store
clear_files now id store = update_job id (can_clear now) cleared store

-- The accounts that are not completed.
unfoldable pub remaining : List JobAccount → ℕ
remaining accounts = length (keep (λ a. is_waiting a.status) accounts)

unfoldable pub check_complete : Text → Store → Result (Unit {0})
check_complete id store = elim (find id store) [
  | none ↦ ok tt
  | some e ↦ refuse (not (remaining e.accounts == 0)) foreign >> ok tt
]

-- A statement that changes the store.
pub data Step : Store → Store → Type 0 where
  created : (j : Job) (accounts : List Text) (s t : Store) → create j accounts s ≡ ok t → Step s t
  recovered : (s : Store) → Step s (recover s)
  claimed : (now : ℕ) (s : Store) → Step s ((claim_next now s).1)
  saved :
      (id account primary : Text) (values : Values) (s t : Store)
      → save id account primary values s ≡ ok t
      → Step s t
  terminated :
      (now : ℕ) (id account reason output : Text) (status : JobStatus) (s t : Store)
      → terminal now id status account reason output s ≡ ok t
      → Step s t
  canceled_by :
      (now : ℕ) (id : Text) (owner : ℕ) (view_all : Bool) (s : Store)
      → Step s (cancel now id owner view_all s)
  files_cleared : (now : ℕ) (id : Text) (s : Store) → Step s (clear_files now id s)

-- The stores that statements lead to, from the empty tables.
pub data IsReachable : Store → Type 0 where
  no_jobs : IsReachable []
  after_step : (s t : Store) → IsReachable s → Step s t → IsReachable t
