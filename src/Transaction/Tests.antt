-- ===== src/Transaction/Tests.antt =====
-- Small runs of the tracker, batches and retries, and each theorem at one.
use phala_cloud.Common.{
  ℕ, zero, suc, Text, lit, Bool, true, false, length, ◌==◌, Option, none, some, List, [], ◌∷◌, ◌++◌,
  ◌≡◌, refl, arith, decimal,
}
use phala_cloud.Network.{Receipt, resolved, receipt_timeout}
use phala_cloud.Transaction.{
  Callback, on_confirmed, success, failed, overdue, TransactionError, Ended, returned, thrown,
  interrupted, settled, Tracker, new_tracker, reset, abort, fail, fail_with, execute, started, sent,
  Event, execute_called, operation_ends, wait_ends, timer_fires, resumes, abort_called,
  reset_called, submitted, operated, received, succeed, revert, raced, timed_out, overdue_now,
  step_at, run,
}
use phala_cloud.Transaction.Sound.{IsSound, run-IsSound}
use phala_cloud.Transaction.Settles.{IsWaiting, ended_by, run-ends}
use phala_cloud.Transaction.Batch.{
  Slot, finished, cancelled, broken, Progress, BatchResult, in_sequence, in_parallel, sequential,
  parallel, count_results, summed, summed_if, execute_batch_transactions, IsBatch,
  execute_batch_transactions-IsBatch, execute_batch_transactions-parallel,
}
use phala_cloud.Transaction.Retry.{
  RetryOptions, tried, attempts, execute_transaction_with_retry, IsRetryOf,
  execute_transaction_with_retry-IsRetryOf,
}

runs : Unit {0}
unfolding reset abort fail fail_with execute started submitted operated received succeed revert
    raced timed_out overdue_now step_at decimal sequential parallel count_results summed summed_if
    execute_batch_transactions tried attempts execute_transaction_with_retry
runs = tt

abbrev mined : Receipt
mined = record { success = true; block_number = 5 }

abbrev ran : List Event → Tracker
ran es = run (λ c. none) 60000 (lit "no signal") es new_tracker

abbrev sent_seven : List Event
sent_seven = execute_called none ∷ operation_ends (sent 7) ∷ []

confirmed_run :
    (ran (sent_seven ++ (wait_ends (resolved mined) ∷ resumes ∷ []))).phase
    ≡ settled (returned 7 mined)
unfolding runs
confirmed_run = refl

-- The timeout of the tracker is over while the wait goes on, and is replaced at its end.
overdue_then_confirmed :
    ((ran (sent_seven ++ (timer_fires ∷ []))).status.state ≡ overdue)
    × ((ran (sent_seven ++ (timer_fires ∷ wait_ends (resolved mined) ∷ resumes ∷ []))).status.state
        ≡ success)
    × ((ran (
          sent_seven
          ++ (timer_fires ∷ wait_ends (receipt_timeout none) ∷ resumes ∷ []))).status.state
        ≡ failed)
unfolding runs
overdue_then_confirmed = (refl, refl, refl)

-- An onConfirmed that throws turns a confirmed transaction into an error.
abbrev breaks_confirmed : Callback → Option Text
breaks_confirmed (on_confirmed r) = some (lit "oops")
breaks_confirmed _ = none

confirmed_then_thrown :
    (run breaks_confirmed 60000
      (lit "no signal")
      (sent_seven ++ (wait_ends (resolved mined) ∷ resumes ∷ []))
      new_tracker).phase
    ≡ settled
        (thrown (record { message = lit "Transaction execution failed: oops"; hash = some 7 }))
unfolding runs
confirmed_then_thrown = refl

-- The signal of the caller still acts on a transaction that has succeeded.
aborted_late :
    (ran (sent_seven ++ (wait_ends (resolved mined) ∷ resumes ∷ abort_called ∷ []))).status.state
    ≡ failed
unfolding runs
aborted_late = refl

-- A reset while the operation runs: the hash of the transaction sent is lost.
reset_early :
    (ran (execute_called none ∷ reset_called ∷ operation_ends (sent 7) ∷ [])).phase
    ≡ settled
        (thrown (record { message = lit "Transaction execution failed: no signal"; hash = none }))
unfolding runs
reset_early = refl

abbrev busy_run : List Event
busy_run =
    execute_called (some false)
    ∷ timer_fires
    ∷ operation_ends (sent 7)
    ∷ abort_called
    ∷ wait_ends (resolved mined)
    ∷ resumes
    ∷ []

sent_seven-IsWaiting : IsWaiting 7 (ran sent_seven)
unfolding runs
sent_seven-IsWaiting = record { at = refl; listening = refl }

run-IsSound_example : IsSound (ran busy_run)
run-IsSound_example = run-IsSound (λ c. none) 60000 (lit "no signal") busy_run (λ c. refl)

-- An abort ends a call whose wait has no end yet.
run-ends_example :
    (run
      (λ c. none)
      60000
      (lit "no signal")
      ((timer_fires ∷ [])
        ++ (abort_called ∷ ((wait_ends (resolved mined) ∷ []) ++ (resumes ∷ (reset_called ∷ [])))))
      (ran sent_seven)).phase
    ≡ settled (ended_by 60000 7 interrupted)
run-ends_example =
    run-ends (λ c. none) 60000 (lit "no signal") 7 (ran sent_seven) (timer_fires ∷ []) abort_called
      interrupted (wait_ends (resolved mined) ∷ []) (reset_called ∷ []) (λ c. refl)
      sent_seven-IsWaiting (refl, tt) refl (refl, tt) (refl, tt)

abbrev lost : TransactionError
lost = record { message = lit "lost"; hash = none }

abbrev three : List Ended
three = returned 1 mined ∷ thrown lost ∷ returned 2 mined ∷ []

abbrev results_of : Option BatchResult → List Slot
results_of none = []
results_of (some b) = b.results

abbrev silent : Progress → Bool
silent p = false

stopped_batch :
    results_of (execute_batch_transactions silent (in_sequence true) three).0
    ≡ finished (returned 1 mined) ∷ finished (thrown lost) ∷ cancelled ∷ []
unfolding runs
stopped_batch = refl

-- The calls with one result, and no other, throw.
abbrev breaks_first : Progress → Bool
breaks_first p = length p.results == 1

-- A call of onProgress that throws behind a result makes a place too many.
broken_batch :
    results_of (execute_batch_transactions breaks_first (in_sequence false) three).0
    ≡ finished (returned 1 mined)
      ∷ broken
      ∷ finished (thrown lost)
      ∷ finished (returned 2 mined)
      ∷ []
unfolding runs
broken_batch = refl

execute_batch_transactions-IsBatch_example :
    (b : BatchResult) × ((execute_batch_transactions silent (in_sequence true) three).0 ≡ some b)
    × IsBatch three b
execute_batch_transactions-IsBatch_example =
    execute_batch_transactions-IsBatch silent (in_sequence true) three (λ p. refl)

execute_batch_transactions-parallel_example :
    (execute_batch_transactions silent (in_sequence false) three).0
    ≡ (execute_batch_transactions silent in_parallel three).0
execute_batch_transactions-parallel_example =
    execute_batch_transactions-parallel silent three (λ p. refl)

abbrev options : RetryOptions
options = record {
  max_retries = 3;
  initial_delay = 1000;
  max_delay = 3000;
  backoff_factor = 2;
  retry_condition = λ e. true;
}

abbrev third : ℕ → Ended
third zero = thrown lost
third (suc zero) = thrown lost
third (suc (suc zero)) = thrown lost
third (suc (suc (suc n))) = returned n mined

retried :
    execute_transaction_with_retry options third
    ≡ record { calls = 4; waits = 1000 ∷ 2000 ∷ 3000 ∷ []; end = returned 0 mined }
unfolding runs
retried = refl

execute_transaction_with_retry-IsRetryOf_example :
    IsRetryOf options third 0 3 (execute_transaction_with_retry options third)
execute_transaction_with_retry-IsRetryOf_example =
    execute_transaction_with_retry-IsRetryOf options third (omega arith)
