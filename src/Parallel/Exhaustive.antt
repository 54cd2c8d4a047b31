-- ===== src/Parallel/Exhaustive.antt =====
-- An execution without fail-fast runs every task.
use sentra_lab.Base.{
  ℕ, zero, suc, ◌+◌, ◌≤◌, ◌≡◌, ◌≢◌, refl, false, Option, none, some, List, [], ◌∷◌, get_elem?, set,
  replicate, arith, ap,
}
use sentra_lab.Parallel.{
  ParallelExecutor, TaskStatus, skipped, failed, success, TaskResult, Phase, waiting, executing,
  reporting, closing, storing, releasing, finished, Execution, Step, Reach, skip, acquire, execute,
  report, close, store, release, start, later, success_of, failure_phase, execute_result,
  new_execution, skip_task, acquire_slot, conclude, report_error, close_stop, store_result,
  release_slot,
}
use sentra_lab.Parallel.Channels.{total, total-set, total-replicate}

abbrev skipped_status : TaskStatus → ℕ
skipped_status skipped = 1
skipped_status failed = 0
skipped_status success = 0

module _ {E : Type 0} where
  abbrev skipped_entry : Option (TaskResult E) → ℕ
  skipped_entry none = 0
  skipped_entry (some r) = skipped_status r.status

  abbrev skips : List (Option (TaskResult E)) → ℕ
  skips [] = 0
  skips (o ∷ os) = skipped_entry o + skips os

skips-replicate : (E : Type 0) (n : ℕ) → skips (replicate {A = Option (TaskResult E)} n none) ≡ 0
skips-replicate E zero = refl
skips-replicate E (suc n) = omega (arith, skips-replicate E n)

module _ {E : Type 0} where
  -- What only fail-fast leads to.
  abbrev hurries : Phase E → ℕ
  hurries waiting = 0
  hurries executing = 0
  hurries (reporting e) = 1
  hurries (closing e) = 1
  hurries (storing r) = skipped_status r.status
  hurries releasing = 0
  hurries finished = 0

  skips-set :
      (os : List (Option (TaskResult E))) (i : ℕ) (o : Option (TaskResult E))
      → skips (set os i o) ≤ skips os + skipped_entry o
  skips-set [] i o = omega arith
  skips-set (x ∷ os) zero o = omega arith
  skips-set (x ∷ os) (suc i) o = omega (arith, skips-set os i o)

  skips-at :
      (os : List (Option (TaskResult E))) (i : ℕ) (r : TaskResult E)
      → get_elem? os i ≡ some (some r)
      → skipped_status r.status ≤ skips os
  skips-at [] i r h = cc
  skips-at (x ∷ os) zero r h = let same : x ≡ some r = cc in omega (arith, ap skipped_entry same)
  skips-at (x ∷ os) (suc i) r h = omega (arith, skips-at os i r h)

  -- A goroutine at a phase is one of those that the total counts.
  total-at :
      (f : Phase E → ℕ) (ps : List (Phase E)) (i : ℕ) (p : Phase E)
      → get_elem? ps i ≡ some p
      → f p ≤ total f ps
  total-at f [] i p h = cc
  total-at f (x ∷ ps) zero p h = let same : x ≡ p = cc in omega (arith, ap f same)
  total-at f (x ∷ ps) (suc i) p h = omega (arith, total-at f ps i p h)

  abbrev IsCalm : Execution E → Type 0
  IsCalm s = (s.first_error ≡ none) × (total hurries s.phases + s.stop_closes + skips s.results ≡ 0)

  module _ (pe : ParallelExecutor) where
    enter-IsCalm :
        (i : ℕ) (p q : Phase E) (s : Execution E)
        → get_elem? s.phases i ≡ some p
        → hurries q ≡ 0
        → IsCalm s
        → IsCalm (record s { phases = set s.phases i q })
    enter-IsCalm i p q s at calm (quiet, h) =
        (quiet, omega (arith, total-set hurries s.phases i p q at))

    conclude-IsCalm :
        (i : ℕ) (o : Option E) (s : Execution E)
        → pe.fail_fast ≡ false
        → get_elem? s.phases i ≡ some executing
        → IsCalm s
        → IsCalm (conclude pe i o s)
    unfolding conclude
    conclude-IsCalm i none s slow at h =
        enter-IsCalm i executing (storing (success_of i)) s at refl h
    conclude-IsCalm i (some e) s slow at h =
        enter-IsCalm i executing (failure_phase pe.fail_fast i e) s at
          (ap (λ b. hurries (failure_phase b i e)) slow) h

    Step-IsCalm : {s t : Execution E} → pe.fail_fast ≡ false → Step pe s t → IsCalm s → IsCalm t
    unfolding skip_task acquire_slot report_error close_stop store_result release_slot
    Step-IsCalm {s} slow (skip i at stopped) (quiet, h) = absurd (omega arith)
    Step-IsCalm {s} slow (acquire i at free) h = enter-IsCalm i waiting executing s at refl h
    Step-IsCalm {s} slow (execute i o at) h = conclude-IsCalm i o s slow at h
    Step-IsCalm {s} slow (report i e at) (quiet, h) =
        absurd (omega (arith, total-at hurries s.phases i (reporting e) at))
    Step-IsCalm {s} slow (close i e at) (quiet, h) =
        absurd (omega (arith, total-at hurries s.phases i (closing e) at))
    Step-IsCalm {s} slow (store i r at) (quiet, h) = (
      quiet,
      omega (
        arith,
        total-set hurries s.phases i (storing r) releasing at,
        total-at hurries s.phases i (storing r) at,
        skips-set s.results i (some r),
      ),
    )
    Step-IsCalm {s} slow (release i at) h = enter-IsCalm i releasing finished s at refl h

    Reach-IsCalm : {n k : ℕ} {s : Execution E} → pe.fail_fast ≡ false → Reach pe n k s → IsCalm s
    unfolding new_execution
    Reach-IsCalm {n} slow start =
        (refl, omega (arith, total-replicate hurries n refl, skips-replicate E n))
    Reach-IsCalm slow (later r step) = Step-IsCalm slow step (Reach-IsCalm slow r)

    -- Without fail-fast Execute returns no error, and no result says that its task was skipped.
    pub execute_result-all :
        {n k : ℕ} {s : Execution E}
        → pe.fail_fast ≡ false
        → Reach pe n k s
        → ((execute_result s).1 ≡ none)
          × ((i : ℕ) (r : TaskResult E)
              → get_elem? (execute_result s).0 i ≡ some (some r)
              → r.status ≢ skipped)
    unfolding execute_result
    execute_result-all {s = s} slow reached =
        let (quiet, h) = Reach-IsCalm slow reached in
        (
          quiet,
          λ i r at bad. absurd (omega (arith, skips-at s.results i r at, ap skipped_status bad)),
        )
