-- ===== src/Parallel/Failures.antt =====
-- What an execution returns when tasks fail.
use mathlib.Core.Path.{subst}
use sentra_lab.Base.{
  ℕ, zero, suc, ◌+◌, ◌≤◌, ◌<◌, ◌≡◌, refl, true, Option, none, some, List, [], ◌∷◌, get_elem?, set,
  replicate, arith, ap,
}
use sentra_lab.Parallel.{
  ParallelExecutor, TaskStatus, skipped, failed, success, TaskResult, Phase, waiting, executing,
  reporting, closing, storing, releasing, finished, Execution, Step, Reach, skip, acquire, execute,
  report, close, store, release, start, later, success_of, failure_of, skip_of, failure_phase,
  report_to, execute_result, new_execution, skip_task, acquire_slot, conclude, report_error,
  close_stop, store_result, release_slot,
}
use sentra_lab.Parallel.Channels.{total, total-set, total-replicate}

abbrev pub failed_status : TaskStatus → ℕ
failed_status skipped = 0
failed_status failed = 1
failed_status success = 0

module _ {E : Type 0} where
  abbrev pub failed_entry : Option (TaskResult E) → ℕ
  failed_entry none = 0
  failed_entry (some r) = failed_status r.status

  abbrev pub failures : List (Option (TaskResult E)) → ℕ
  failures [] = 0
  failures (o ∷ os) = failed_entry o + failures os

  -- A failure on its way to the results, past the send of its error.
  abbrev pub fails : Phase E → ℕ
  fails waiting = 0
  fails executing = 0
  fails (reporting e) = 0
  fails (closing e) = 1
  fails (storing r) = failed_status r.status
  fails releasing = 0
  fails finished = 0

failures-replicate :
    (E : Type 0) (n : ℕ) → failures (replicate {A = Option (TaskResult E)} n none) ≡ 0
failures-replicate E zero = refl
failures-replicate E (suc n) = omega (arith, failures-replicate E n)

module _ {E : Type 0} where
  failures-set :
      (os : List (Option (TaskResult E))) (i : ℕ) (o : Option (TaskResult E))
      → failures (set os i o) ≤ failures os + failed_entry o
  failures-set [] i o = omega arith
  failures-set (x ∷ os) zero o = omega arith
  failures-set (x ∷ os) (suc i) o = omega (arith, failures-set os i o)

  failures-at :
      (os : List (Option (TaskResult E))) (i : ℕ) (r : TaskResult E)
      → get_elem? os i ≡ some (some r)
      → failed_status r.status ≤ failures os
  failures-at [] i r h = cc
  failures-at (x ∷ os) zero r h = let same : x ≡ some r = cc in omega (arith, ap failed_entry same)
  failures-at (x ∷ os) (suc i) r h = omega (arith, failures-at os i r h)

  -- Without a first error nothing has failed.
  abbrev Quiet : Option E → List (Phase E) → List (Option (TaskResult E)) → Type 0
  Quiet none ps os = total fails ps + failures os ≡ 0
  Quiet (some e) ps os = Unit

  abbrev IsQuiet : Execution E → Type 0
  IsQuiet s = Quiet s.first_error s.phases s.results

  -- A goroutine goes from p to q, and the results change where at all.
  Quiet-move :
      (first : Option E) (ps : List (Phase E)) (os os' : List (Option (TaskResult E))) (i : ℕ)
      (p q : Phase E)
      → get_elem? ps i ≡ some p
      → fails q + failures os' ≤ fails p + failures os
      → Quiet first ps os
      → Quiet first (set ps i q) os'
  Quiet-move none ps os os' i p q at le h = omega (arith, total-set fails ps i p q at)
  Quiet-move (some e) ps os os' i p q at le h = tt

  module _ (pe : ParallelExecutor) where
    enter-IsQuiet :
        (i : ℕ) (p q : Phase E) (s : Execution E)
        → get_elem? s.phases i ≡ some p
        → fails q ≤ fails p
        → IsQuiet s
        → IsQuiet (record s { phases = set s.phases i q })
    enter-IsQuiet i p q s at le h =
        Quiet-move s.first_error s.phases s.results s.results i p q at (omega arith) h

    conclude-IsQuiet :
        (i : ℕ) (o : Option E) (s : Execution E)
        → pe.fail_fast ≡ true
        → get_elem? s.phases i ≡ some executing
        → IsQuiet s
        → IsQuiet (conclude pe i o s)
    unfolding conclude
    conclude-IsQuiet i none s fast at h =
        enter-IsQuiet i executing (storing (success_of i)) s at (omega arith) h
    conclude-IsQuiet i (some e) s fast at h =
        enter-IsQuiet i executing (failure_phase pe.fail_fast i e) s at
          (omega (arith, ap (λ b. fails (failure_phase b i e)) fast)) h

    report_to-IsQuiet :
        (i : ℕ) (e : E) (s : Execution E) (first : Option E)
        → first ≡ s.first_error
        → IsQuiet (report_to first i e s)
    unfolding report_to
    report_to-IsQuiet i e s none same = tt
    report_to-IsQuiet i e s (some e') same =
        subst (λ f. Quiet f (set s.phases i (storing (failure_of i e))) s.results) same tt

    Step-IsQuiet : {s t : Execution E} → pe.fail_fast ≡ true → Step pe s t → IsQuiet s → IsQuiet t
    unfolding skip_task acquire_slot report_error close_stop store_result release_slot
    Step-IsQuiet {s} fast (skip i at stopped) h =
        Quiet-move s.first_error s.phases s.results (set s.results i (some (skip_of i))) i waiting
          finished at (omega (arith, failures-set s.results i (some (skip_of i)))) h
    Step-IsQuiet {s} fast (acquire i at free) h =
        enter-IsQuiet i waiting executing s at (omega arith) h
    Step-IsQuiet {s} fast (execute i o at) h = conclude-IsQuiet i o s fast at h
    Step-IsQuiet {s} fast (report i e at) h = report_to-IsQuiet i e s s.first_error refl
    Step-IsQuiet {s} fast (close i e at) h =
        enter-IsQuiet i (closing e) (storing (failure_of i e)) s at (omega arith) h
    Step-IsQuiet {s} fast (store i r at) h =
        Quiet-move s.first_error s.phases s.results (set s.results i (some r)) i (storing r)
          releasing at (omega (arith, failures-set s.results i (some r))) h
    Step-IsQuiet {s} fast (release i at) h = enter-IsQuiet i releasing finished s at (omega arith) h

    Reach-IsQuiet : {n k : ℕ} {s : Execution E} → pe.fail_fast ≡ true → Reach pe n k s → IsQuiet s
    unfolding new_execution
    Reach-IsQuiet {n} fast start =
        omega (arith, total-replicate fails n refl, failures-replicate E n)
    Reach-IsQuiet fast (later r step) = Step-IsQuiet fast step (Reach-IsQuiet fast r)

    Quiet-fails :
        (first : Option E) (ps : List (Phase E)) (os : List (Option (TaskResult E)))
        → Quiet first ps os
        → 0 < failures os
        → (e : E) × (first ≡ some e)
    Quiet-fails none ps os h some_failed = absurd (omega arith)
    Quiet-fails (some e) ps os h some_failed = (e, refl)

    -- With fail-fast, once a result says that its task failed, Execute returns an error.
    pub execute_result-failed :
        {n k : ℕ} {s : Execution E}
        → pe.fail_fast ≡ true
        → Reach pe n k s
        → (i : ℕ) (r : TaskResult E) → get_elem? (execute_result s).0 i ≡ some (some r)
        → r.status ≡ failed
        → (e : E) × ((execute_result s).1 ≡ some e)
    unfolding execute_result
    execute_result-failed {s = s} fast reached i r at bad =
        Quiet-fails s.first_error s.phases s.results (Reach-IsQuiet fast reached)
          (omega (arith, failures-at s.results i r at, ap failed_status bad))
