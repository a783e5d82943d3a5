-- ===== src/Slik/Store.antt =====
-- internal/slik/repository.go: the stored jobs and their accounts, with the tables of
-- migrations/202609170001_create_slik_jobs.sql. A statement runs alone; its clock is an argument, in
-- microseconds. A failed transaction leaves the store as it was, so that it only gives an error.
-- `id` is a primary key: a statement on an id meets one job at most, the first of the list. The
-- column `processed_at`, which nothing reads, and foreign keys are left out.
use new_trs.Common.{
  ℕ, ◌≡◌, refl, Bool, true, false, not, ◌&&◌, ◌||◌, ltb, ◌==◌, if◌then◌else◌, List, [], ◌∷◌, map,
  Option, none, some, length, keep, Result, ok, err, refuse, ◌>>◌, foreign, slik_not_found,
}
use new_trs.Common.Sort.{sort}
use new_trs.Common.Text.{Text, eq_text, contains, text_before}

pub data JobStatus : Type 0 where
  queued processing completed failed canceled : JobStatus

pub data AccountStatus : Type 0 where
  waiting done : AccountStatus

pub record Values : Type 0 where
  pub balance : Text
  pub rate : Text

pub record Job : Type 0 where
  pub id : Text
  pub owner_id : ℕ
  pub owner_username : Text
  pub actor_id : ℕ
  pub actor_username : Text
  pub original_filename : Text
  pub as_of : Text
  pub status : JobStatus
  pub total_rows : ℕ
  pub total_accounts : ℕ
  pub processed : ℕ
  pub created_at : ℕ
  pub started_at : Option ℕ
  pub finished_at : Option ℕ
  pub failed_account : Text
  pub failure_reason : Text
  pub input_file : Text
  pub output_file : Text
  pub expires_at : Option ℕ

pub record JobAccount : Type 0 where
  pub requested_account : Text
  pub status : AccountStatus
  pub resolved_primary_account : Text
  pub values : Values

pub record Entry : Type 0 where
  pub job : Job
  pub accounts : List JobAccount

abbrev pub Store : Type 0
Store = List Entry

-- The tests of a status in the statements.
abbrev pub is_queued : JobStatus → Bool
is_queued queued = true
is_queued processing = false
is_queued completed = false
is_queued failed = false
is_queued canceled = false

abbrev pub is_processing : JobStatus → Bool
is_processing queued = false
is_processing processing = true
is_processing completed = false
is_processing failed = false
is_processing canceled = false

abbrev pub is_canceled_status : JobStatus → Bool
is_canceled_status queued = false
is_canceled_status processing = false
is_canceled_status completed = false
is_canceled_status failed = false
is_canceled_status canceled = true

abbrev pub is_terminal : JobStatus → Bool
is_terminal queued = false
is_terminal processing = false
is_terminal completed = true
is_terminal failed = true
is_terminal canceled = true

abbrev pub is_waiting : AccountStatus → Bool
is_waiting waiting = true
is_waiting done = false

-- SELECT ... WHERE id = ?.
unfoldable pub find : Text → Store → Option Entry
find id [] = none
find id (e ∷ rest) = if eq_text e.job.id id then some e else find id rest

-- UPDATE ... WHERE id = ? AND test.
unfoldable pub update_job : Text → (Entry → Bool) → (Entry → Entry) → Store → Store
update_job id test change [] = []
update_job id test change (e ∷ rest) =
    if eq_text e.job.id id
    then (if test e then change e else e) ∷ rest
    else e ∷ update_job id test change rest

-- RowsAffected of such a statement, which is 0 or 1.
unfoldable pub affected : Text → (Entry → Bool) → Store → ℕ
affected id test [] = 0
affected id test (e ∷ rest) =
    if eq_text e.job.id id then (if test e then 1 else 0) else affected id test rest

-- UPDATE ... WHERE test.
unfoldable pub update_all : (Entry → Bool) → (Entry → Entry) → Store → Store
update_all test change [] = []
update_all test change (e ∷ rest) = (if test e then change e else e) ∷ update_all test change rest

abbrev pub has_status : (JobStatus → Bool) → Entry → Bool
has_status test e = test e.job.status

abbrev pub set_status : JobStatus → Entry → Entry
set_status status e = record e { job = record (e.job) { status = status } }

-- The primary key of the accounts refuses an account that is there twice.
unfoldable pub has_duplicate : List Text → Bool
unfolding contains
has_duplicate [] = false
has_duplicate (a ∷ rest) = contains a rest || has_duplicate rest

abbrev pub new_account : Text → JobAccount
new_account account = record {
  requested_account = account;
  status = waiting;
  resolved_primary_account = [];
  values = record { balance = []; rate = [] };
}

abbrev pub new_entry : Job → List Text → Entry
new_entry j accounts = record {
  job = record j {
    status = queued;
    total_accounts = length accounts;
    processed = 0;
    started_at = none;
    finished_at = none;
    failed_account = [];
    failure_reason = [];
    output_file = [];
    expires_at = none;
  };
  accounts = map new_account accounts;
}

unfoldable pub create : Job → List Text → Store → Result Store
create j accounts store = do
  refuse (not (affected j.id (λ e. true) store == 0) || has_duplicate accounts) foreign
  ok (new_entry j accounts ∷ store)

unfoldable pub get : Text → ℕ → Bool → Store → Result Job
get id owner view_all store = elim (find id store) [
  | none ↦ err slik_not_found
  | some e ↦ if view_all || (e.job.owner_id == owner) then ok e.job else err slik_not_found
]

unfoldable pub recover : Store → Store
recover store = update_all (has_status is_processing) (set_status queued) store

-- ORDER BY created_at, id.
unfoldable pub claimed_first : Entry → Entry → Bool
claimed_first e f =
    ltb e.job.created_at f.job.created_at
    || ((e.job.created_at == f.job.created_at) && text_before e.job.id f.job.id)

abbrev pub or_now : ℕ → Option ℕ → Option ℕ
or_now now none = some now
or_now now (some t) = some t

abbrev pub claim : ℕ → Entry → Entry
claim now e = record e {
  job = record (e.job) { status = processing; started_at = or_now now e.job.started_at };
}

-- The job with the id is still queued, since no statement comes between: the loop ends at once.
unfoldable pub claim_next : ℕ → Store → Option Text × Store
claim_next now store = elim (sort claimed_first (keep (has_status is_queued) store)) [
  | [] ↦ (none, store)
  | e ∷ rest ↦ (some e.job.id, update_job e.job.id (has_status is_queued) (claim now) store)
]

pub queued-is_terminal : (status : JobStatus) → is_queued status ≡ true → is_terminal status ≡ false
queued-is_terminal queued h = refl
queued-is_terminal processing h = cc
queued-is_terminal completed h = cc
queued-is_terminal failed h = cc
queued-is_terminal canceled h = cc

pub processing-is_terminal :
    (status : JobStatus) → is_processing status ≡ true → is_terminal status ≡ false
processing-is_terminal queued h = cc
processing-is_terminal processing h = refl
processing-is_terminal completed h = cc
processing-is_terminal failed h = cc
processing-is_terminal canceled h = cc
