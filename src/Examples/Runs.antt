-- ===== src/Examples/Runs.antt =====
-- The end of a run of a job, safe names and failures, at concrete inputs.
use new_trs.Common.{◌≡◌, refl, true, false, [], ◌∷◌, ◌++◌, none, length, All, ◌⊎◌, ok}
use new_trs.Common.Text.{to_lower, Text, codes, eq_text, is_empty}
use new_trs.Slik.Store.{Store, affected}
use new_trs.Slik.Progress.{terminal}
use new_trs.Slik.Manager.{
  Answers, is_hex, all_hex, valid_job_id, safe_path, output_suffix, stop_on_error, publish_checked,
  publish_unless, publish, generate, after_work, unless_canceled, conclude, finish_with, finish_run,
  stays, attempt, unless_canceled_before, run_end,
}
use new_trs.Slik.Manager.Names.{IsLowerHex, safe_path-eq-ok}
use new_trs.Slik.Manager.Leftovers.{IsLeftover}
use new_trs.Slik.Manager.Ends.{IsCompleted, IsUnfinished, run_end-present}
use new_trs.Examples.Jobs.{running_entry}

abbrev good_answers : Answers
good_answers = record {
  there_before = true;
  there_unpatched = false;
  removes = λ place. true;
  canceled_before = ok false;
  lock_lost_before = false;
  lock_lost_first = false;
  shutdown = false;
  canceled_first = ok false;
  failure = none;
  interrupted = false;
  lock_lost_interrupted = false;
  complete = ok tt;
  workbook = ok tt;
  results = ok tt;
  patched = ok tt;
  lock_lost_patched = false;
  canceled_last = ok false;
  lock_lost_last = false;
}

abbrev long_id : Text
long_id = codes "0123456789abcdef0123456789abcdef"

abbrev long_store : Store
long_store = record running_entry { job = record (running_entry.job) { id = long_id } } ∷ []

run_end-present_example :
    IsCompleted long_id good_answers (run_end 40 long_id good_answers long_store).0
    ⊎ (IsLeftover good_answers ⊎ IsUnfinished 40 long_id good_answers long_store)
unfolding run_end finish_run finish_with attempt unless_canceled_before conclude unless_canceled
    after_work generate stop_on_error publish publish_unless publish_checked stays terminal affected
    eq_text is_empty valid_job_id to_lower is_hex all_hex
run_end-present_example = run_end-present 40 long_id good_answers long_store refl refl

safe_path-eq-ok_example :
    ((long_id ++ output_suffix) ≡ (long_id ++ output_suffix))
    × (length long_id ≡ 32)
    × All IsLowerHex long_id
unfolding safe_path valid_job_id eq_text to_lower is_hex all_hex
safe_path-eq-ok_example =
    safe_path-eq-ok (λ name. name) (long_id ++ output_suffix) long_id output_suffix
      (long_id ++ output_suffix) refl
