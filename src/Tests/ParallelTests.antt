-- ===== src/Tests/ParallelTests.antt =====
-- Schedules of the parallel executor at concrete inputs.
use sentra_lab.Base.{false, ℕ, ◌*◌, String, ◌≡◌, ◌≤◌, ◌<◌, ◌⊎◌, refl, true, some, arith, get_elem?}
use sentra_lab.Parallel.{
  ParallelExecutor, TaskResult, Execution, Step, Reach, start, later, skip, acquire, execute,
  report, close, store, release, new_execution, acquire_slot, conclude, report_error, close_stop,
  store_result, release_slot, failure_of, skip_task, execute_result,
}
use sentra_lab.Parallel.Channels.{total, holds, Reach-closes_once}
use sentra_lab.Parallel.Failures.{execute_result-failed}
use sentra_lab.Parallel.Completion.{Reach-terminates, Reach-completes}

-- One worker, and the first failure stops the rest.
abbrev one_worker : ParallelExecutor
one_worker = record { max_workers = 1; fail_fast = true }

-- The first of two tasks fails, and the second is skipped.
abbrev stopped_execution : Execution String
stopped_execution = skip_task 1 (
    release_slot 0 (
      store_result 0 (failure_of 0 "boom") (
        close_stop 0 "boom" (
          report_error 0 "boom"
            (conclude one_worker 0 (some "boom") (acquire_slot 0 (new_execution 2)))))))

stopped_execution-Reach : Reach one_worker 2 7 stopped_execution
unfolding new_execution acquire_slot conclude report_error close_stop store_result release_slot
    skip_task
stopped_execution-Reach =
    later
      (later
        (later
          (later
            (later
              (later (later start (acquire 0 refl (omega arith))) (execute 0 (some "boom") refl))
              (report 0 "boom" refl))
            (close 0 "boom" refl))
          (store 0 (failure_of 0 "boom") refl))
        (release 0 refl))
      (skip 1 refl (omega arith))

returns_error : (execute_result stopped_execution).1 ≡ some "boom"
unfolding execute_result new_execution acquire_slot conclude report_error close_stop store_result
    release_slot skip_task
returns_error = refl

Reach-closes_once_example :
    (stopped_execution.stop_closes ≤ 1) × (total holds stopped_execution.phases ≤ 1)
Reach-closes_once_example = Reach-closes_once one_worker stopped_execution-Reach

Reach-terminates_example : 7 ≤ 6 * 2
Reach-terminates_example = Reach-terminates one_worker stopped_execution-Reach

Reach-completes_example :
    ((t : Execution String) × Step one_worker stopped_execution t)
    ⊎ ((i : ℕ)
        → i < 2
        → (r : TaskResult String) × (get_elem? stopped_execution.results i ≡ some (some r))
          × (r.index ≡ i))
Reach-completes_example = Reach-completes one_worker (omega arith) stopped_execution-Reach

execute_result-failed_example : (e : String) × ((execute_result stopped_execution).1 ≡ some e)
unfolding new_execution acquire_slot conclude report_error close_stop store_result release_slot
    skip_task execute_result
execute_result-failed_example =
    execute_result-failed one_worker refl stopped_execution-Reach 0 (failure_of 0 "boom") refl refl

-- Two workers, and failures stop nothing.
abbrev two_workers : ParallelExecutor
two_workers = record { max_workers = 2; fail_fast = false }

abbrev failed_execution : Execution String
failed_execution =
    store_result 0 (failure_of 0 "boom")
      (conclude two_workers 0 (some "boom") (acquire_slot 0 (new_execution 2)))

failed_execution-Reach : Reach two_workers 2 3 failed_execution
unfolding new_execution acquire_slot conclude
failed_execution-Reach =
    later (later (later start (acquire 0 refl (omega arith))) (execute 0 (some "boom") refl))
      (store 0 (failure_of 0 "boom") refl)
