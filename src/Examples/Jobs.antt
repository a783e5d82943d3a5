-- ===== src/Examples/Jobs.antt =====
-- A job with two accounts, and the theorems on the store of jobs applied to it.
use new_trs.Common.{◌≡◌, refl, [], ◌∷◌, none, some, All, ok}
use new_trs.Common.Text.{contains, Text, codes, eq_text}
use new_trs.Common.Sort.{sort, insert}
use new_trs.Slik.Store.{
  queued, processing, canceled, Values, Job, Entry, Store, create, claim_next, new_entry, affected,
  update_job, recover, has_duplicate,
}
use new_trs.Slik.Progress.{
  save, progressed, has_one_open, created, claimed, saved, IsReachable, recovered, no_jobs,
  after_step,
}
use new_trs.Slik.Progress.Consistent.{IsConsistent, reachable-IsConsistent}
use new_trs.Slik.Progress.Final.{status_of, status_of-Step}

abbrev first_job : Job
first_job = record {
  id = codes "aa";
  owner_id = 7;
  owner_username = codes "owner";
  actor_id = 7;
  actor_username = codes "owner";
  original_filename = codes "input.xlsx";
  as_of = codes "2025-11-30";
  status = queued;
  total_rows = 1;
  total_accounts = 1;
  processed = 0;
  created_at = 10;
  started_at = none;
  finished_at = none;
  failed_account = [];
  failure_reason = [];
  input_file = codes "aa.input.xlsx";
  output_file = [];
  expires_at = none;
}

abbrev amounts : Values
amounts = record { balance = codes "10.00"; rate = codes "12" }

abbrev account : Text
account = codes "1001"

abbrev queued_store : Store
queued_store = new_entry first_job (account ∷ []) ∷ []

abbrev pub running_entry : Entry
running_entry = record (new_entry first_job (account ∷ [])) {
  job = record first_job { status = processing; started_at = some 20 };
}

abbrev pub running_store : Store
running_store = running_entry ∷ []

abbrev saved_entry : Entry
saved_entry = progressed account account amounts running_entry

abbrev saved_store : Store
saved_store = saved_entry ∷ []

abbrev canceled_store : Store
canceled_store =
    record running_entry {
      job = record (running_entry.job) {
        status = canceled;
        finished_at = some 30;
        expires_at = some 604800000030;
      };
    }
    ∷ []

queued_IsReachable : IsReachable queued_store
unfolding create affected has_duplicate contains
queued_IsReachable =
    after_step [] queued_store no_jobs (created first_job (account ∷ []) [] queued_store refl)

running_IsReachable : IsReachable running_store
unfolding claim_next sort insert update_job eq_text
running_IsReachable =
    after_step queued_store running_store queued_IsReachable (claimed 20 queued_store)

save-account : save (codes "aa") account account amounts running_store ≡ ok saved_store
unfolding save affected update_job eq_text has_one_open
save-account = refl

saved_IsReachable : IsReachable saved_store
saved_IsReachable =
    after_step running_store saved_store running_IsReachable
      (saved (codes "aa") account account amounts running_store saved_store save-account)

reachable-IsConsistent_example : All IsConsistent saved_store
reachable-IsConsistent_example = reachable-IsConsistent saved_store saved_IsReachable

status_of-Step_example : status_of (codes "aa") (recover canceled_store) ≡ some canceled
unfolding status_of eq_text
status_of-Step_example =
    status_of-Step canceled_store (recover canceled_store) (codes "aa") canceled
      (recovered canceled_store) refl refl
