-- ===== src/Parallel.antt =====
-- packages/cli/cmd/test/parallel.go: ParallelExecutor.Execute, with one goroutine for each task. A
-- step is what one goroutine does between two operations on what they share: the semaphore, the
-- stop channel, the channel of the first error, and the results. What a task's Execute returns is
-- open; that it returns is assumed. A task is known by its index, and the measured durations are
-- left out. `E` is the type of errors.
pub mod Channels
pub mod Results
pub mod Failures
pub mod Exhaustive
pub mod Completion
use sentra_lab.Base.{
  ℕ, zero, suc, ◌+◌, ◌-◌, ◌<◌, ◌≡◌, Bool, true, false, Option, none, some, List, length, get_elem?,
  set, replicate,
}

pub record ParallelExecutor : Type 0 where
  pub max_workers : ℕ
  pub fail_fast : Bool

pub data TaskStatus : Type 0 where
  skipped failed success : TaskStatus

pub record TaskResult (E : Type 0) : Type 0 where
  pub index : ℕ
  pub status : TaskStatus
  pub error : Option E

-- Where a goroutine stands: at the first select, in Execute of its task, at the send of its error,
-- at the close of the stop channel, at the write of its result, at the release of its slot, or past
-- wg.Done.
pub data Phase (E : Type 0) : Type 0 where
  waiting executing : Phase E
  reporting closing : E → Phase E
  storing : TaskResult E → Phase E
  releasing finished : Phase E

pub record Execution (E : Type 0) : Type 0 where
  -- the slots taken
  pub semaphore : ℕ
  -- how often the stop channel was closed; Go panics at a second time
  pub stop_closes : ℕ
  -- the buffer, of one error
  pub first_error : Option E
  pub phases : List (Phase E)
  -- one entry for each task; none is the zero TaskResult that make leaves there
  pub results : List (Option (TaskResult E))

module _ {E : Type 0} where
  abbrev pub success_of : ℕ → TaskResult E
  success_of i = record { index = i; status = success; error = none }

  abbrev pub failure_of : ℕ → E → TaskResult E
  failure_of i e = record { index = i; status = failed; error = some e }

  abbrev pub skip_of : ℕ → TaskResult E
  skip_of i = record { index = i; status = skipped; error = none }

  unfoldable pub new_execution : ℕ → Execution E
  new_execution n = record {
    semaphore = 0;
    stop_closes = 0;
    first_error = none;
    phases = replicate n waiting;
    results = replicate n none;
  }

  -- case <-stopChan
  unfoldable pub skip_task : ℕ → Execution E → Execution E
  skip_task i s = record s {
    results = set s.results i (some (skip_of i));
    phases = set s.phases i finished;
  }

  -- case semaphore <- struct{}{}
  unfoldable pub acquire_slot : ℕ → Execution E → Execution E
  acquire_slot i s = record s { semaphore = s.semaphore + 1; phases = set s.phases i executing }

  -- With fail-fast the error is reported first.
  abbrev pub failure_phase : Bool → ℕ → E → Phase E
  failure_phase true i e = reporting e
  failure_phase false i e = storing (failure_of i e)

  -- The task returned no error, or this one.
  unfoldable pub conclude : ParallelExecutor → ℕ → Option E → Execution E → Execution E
  conclude pe i none s = record s { phases = set s.phases i (storing (success_of i)) }
  conclude pe i (some e) s = record s { phases = set s.phases i (failure_phase pe.fail_fast i e) }

  unfoldable pub report_to : Option E → ℕ → E → Execution E → Execution E
  report_to none i e s = record s { first_error = some e; phases = set s.phases i (closing e) }
  report_to (some e') i e s = record s { phases = set s.phases i (storing (failure_of i e)) }

  -- The select on firstError: the send if the buffer is empty, and the default otherwise.
  unfoldable pub report_error : ℕ → E → Execution E → Execution E
  unfolding report_to
  report_error i e s = report_to s.first_error i e s

  unfoldable pub close_stop : ℕ → E → Execution E → Execution E
  close_stop i e s = record s {
    stop_closes = s.stop_closes + 1;
    phases = set s.phases i (storing (failure_of i e));
  }

  unfoldable pub store_result : ℕ → TaskResult E → Execution E → Execution E
  store_result i r s = record s {
    results = set s.results i (some r);
    phases = set s.phases i releasing;
  }

  -- The deferred <-semaphore and wg.Done.
  unfoldable pub release_slot : ℕ → Execution E → Execution E
  release_slot i s = record s { semaphore = s.semaphore - 1; phases = set s.phases i finished }

  -- The results, and the error that Execute returns once every goroutine is done.
  unfoldable pub execute_result : Execution E → List (Option (TaskResult E)) × Option E
  execute_result s = (s.results, s.first_error)

  pub data Step (pe : ParallelExecutor) (s : Execution E) : Execution E → Type 0 where
    skip :
        (i : ℕ)
        → get_elem? s.phases i ≡ some waiting
        → 0 < s.stop_closes
        → Step pe s (skip_task i s)
    acquire :
        (i : ℕ)
        → get_elem? s.phases i ≡ some waiting
        → s.semaphore < pe.max_workers
        → Step pe s (acquire_slot i s)
    execute :
        (i : ℕ) (o : Option E)
        → get_elem? s.phases i ≡ some executing
        → Step pe s (conclude pe i o s)
    report :
        (i : ℕ) (e : E) → get_elem? s.phases i ≡ some (reporting e) → Step pe s (report_error i e s)
    close : (i : ℕ) (e : E) → get_elem? s.phases i ≡ some (closing e) → Step pe s (close_stop i e s)
    store :
        (i : ℕ) (r : TaskResult E)
        → get_elem? s.phases i ≡ some (storing r)
        → Step pe s (store_result i r s)
    release : (i : ℕ) → get_elem? s.phases i ≡ some releasing → Step pe s (release_slot i s)

  -- What k steps lead to, from n tasks.
  pub data Reach (pe : ParallelExecutor) (n : ℕ) : ℕ → Execution E → Type 0 where
    start : Reach pe n 0 (new_execution n)
    later : {k : ℕ} {s t : Execution E} → Reach pe n k s → Step pe s t → Reach pe n (suc k) t
