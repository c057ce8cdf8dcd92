-- ===== src/Tests/Transactions.antt =====
-- Transactions that run, fail, wait and are cancelled.
use google_modules_lwis.Prelude.{
  ℕ, ◌+◌, ◌≤◌, ◌≡◌, refl, ◌⊎◌, ◌↔◌, arith, true, false, some, [], ◌∷◌, ◌++◌, map, length, All,
}
use google_modules_lwis.Errno.{enoent}
use google_modules_lwis.Commands.{Response}
use google_modules_lwis.Device.{Transaction}
use google_modules_lwis.Transaction.Process.{Work, process_queue, run_entries, finished_response}
use google_modules_lwis.Transaction.Process.Buffer.{
  Fits, allocated, results_size, index_after, reached_by, run_entries-Fits,
  finished_response-Reached,
}
use google_modules_lwis.Transaction.Process.Answers.{answered_id, process_queue-answers}
use google_modules_lwis.Transaction.Submit.{read_entries, read_buf_size, resp_size}
use google_modules_lwis.Transaction.Cancel.{lwis_transaction_cancel}
use google_modules_lwis.Transaction.Cancel.Marks.{
  Marked, all_waiting, IsOther, lwis_transaction_cancel-cases,
}
use google_modules_lwis.Transaction.Trigger.{trigger_loop}
use google_modules_lwis.Transaction.Trigger.Kept.{staying, trigger_loop-keeps}
use google_modules_lwis.Tests.{vops, device, reader, failing, cancelled_one, client}

abbrev work : Work ℕ
work = record { dev = device; client = client 3 (reader ∷ []); pending = [] }

run_entries-Fits_example :
    All
      (Fits (allocated device failing).results_size_bytes)
      (run_entries vops device failing false true).results
    × (32 + (allocated device failing).results_size_bytes ≤ resp_size 4 (failing.info).io_entries)
unfolding results_size read_entries read_buf_size
run_entries-Fits_example = run_entries-Fits vops device failing false true (omega arith)

abbrev answer : Transaction → Response
answer t = finished_response vops t (run_entries vops device t false false)

finished_response-Reached_example :
    ((answer failing).completion_index ≡ index_after (reached_by vops device failing false).0)
    × ((answer failing).error_code ≡ (reached_by vops device failing false).1)
    × (((reached_by vops device failing false).1 ≡ 0)
        ↔ ((reached_by vops device failing false).0 ≡ length (failing.info).io_entries))
finished_response-Reached_example = finished_response-Reached vops device failing false refl

process_queue-answers_example :
    map answered_id (process_queue vops work (reader ∷ failing ∷ cancelled_one ∷ []) false).pending
    ≡ [] ++ map (λ t. some (t.info).id) (reader ∷ failing ∷ cancelled_one ∷ [])
process_queue-answers_example =
    process_queue-answers vops false work (reader ∷ failing ∷ cancelled_one ∷ []) refl
      (refl, (refl, (refl, tt)))

lwis_transaction_cancel-cases_example :
    ((lwis_transaction_cancel (client 3 (reader ∷ failing ∷ [])) 1).0 ≡ 0)
      × Marked 1 (reader ∷ failing ∷ []) (
          all_waiting
            (lwis_transaction_cancel (client 3 (reader ∷ failing ∷ [])) 1).1.transaction_list)
    ⊎ (lwis_transaction_cancel (client 3 (reader ∷ failing ∷ [])) 1
        ≡ (enoent, client 3 (reader ∷ failing ∷ [])))
      × All (IsOther 1) (reader ∷ failing ∷ [])
unfolding all_waiting
lwis_transaction_cancel-cases_example =
    lwis_transaction_cancel-cases (client 3 (reader ∷ failing ∷ [])) 1

trigger_loop-keeps_example :
    (trigger_loop vops work (reader ∷ failing ∷ cancelled_one ∷ []) 7 true).1
    ≡ staying 7 (reader ∷ failing ∷ cancelled_one ∷ [])
trigger_loop-keeps_example =
    trigger_loop-keeps vops 7 true work (reader ∷ failing ∷ cancelled_one ∷ []) refl
