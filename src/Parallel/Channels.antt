-- ===== src/Parallel/Channels.antt =====
-- The semaphore and the channels of an execution.
use sentra_lab.Base.{
  true, false, ℕ, zero, suc, ◌+◌, ◌≤◌, ◌≡◌, refl, Bool, Option, none, some, List, [], ◌∷◌,
  get_elem?, set, replicate, arith,
}
use sentra_lab.Parallel.{
  ParallelExecutor, Phase, waiting, executing, reporting, closing, storing, releasing, finished,
  Execution, Step, Reach, skip, acquire, execute, report, close, store, release, start, later,
  success_of, failure_of, failure_phase, new_execution, skip_task, acquire_slot, conclude,
  report_error, close_stop, store_result, release_slot,
}

module _ {E : Type 0} where
  -- The weights of all phases together.
  abbrev pub total : (Phase E → ℕ) → List (Phase E) → ℕ
  total f [] = 0
  total f (p ∷ ps) = f p + total f ps

  pub total-set :
      (f : Phase E → ℕ) (ps : List (Phase E)) (i : ℕ) (p q : Phase E)
      → get_elem? ps i ≡ some p
      → total f (set ps i q) + f p ≡ total f ps + f q
  total-set f [] i p q h = cc
  total-set f (x ∷ ps) zero p q h = ground arith
  total-set f (x ∷ ps) (suc i) p q h = omega (arith, total-set f ps i p q h)

  pub total-replicate :
      (f : Phase E → ℕ) (n : ℕ) → f waiting ≡ 0 → total f (replicate n waiting) ≡ 0
  total-replicate f zero h = refl
  total-replicate f (suc n) h = omega (arith, total-replicate f n h)

  -- A goroutine holds a slot from the semaphore to its release.
  abbrev pub holds : Phase E → ℕ
  holds waiting = 0
  holds executing = 1
  holds (reporting e) = 1
  holds (closing e) = 1
  holds (storing r) = 1
  holds releasing = 1
  holds finished = 0

  abbrev pub closes : Phase E → ℕ
  closes waiting = 0
  closes executing = 0
  closes (reporting e) = 0
  closes (closing e) = 1
  closes (storing r) = 0
  closes releasing = 0
  closes finished = 0

  abbrev pub is_sent : Option E → ℕ
  is_sent none = 0
  is_sent (some e) = 1

  -- A slot is taken for each goroutine that holds one, and the stop channel has been closed, or is
  -- about to be, exactly if the first error was sent.
  abbrev pub IsSound : ParallelExecutor → Execution E → Type 0
  IsSound pe s =
      (s.semaphore ≡ total holds s.phases)
      × (s.semaphore ≤ pe.max_workers)
      × (s.stop_closes + total closes s.phases ≡ is_sent s.first_error)

  -- How the weights change when a goroutine goes from p to q.
  moved :
      (ps : List (Phase E)) (i : ℕ) (p q : Phase E)
      → get_elem? ps i ≡ some p
      → (total holds (set ps i q) + holds p ≡ total holds ps + holds q)
        × (total closes (set ps i q) + closes p ≡ total closes ps + closes q)
  moved ps i p q at = (total-set holds ps i p q at, total-set closes ps i p q at)

  module _ (pe : ParallelExecutor) where
    enter-IsSound :
        (i : ℕ) (p q : Phase E) (s : Execution E)
        → get_elem? s.phases i ≡ some p
        → holds p ≡ holds q
        → closes p ≡ closes q
        → IsSound pe s
        → IsSound pe (record s { phases = set s.phases i q })
    enter-IsSound i p q s at same same' h = grind (arith, moved s.phases i p q at)

    conclude-IsSound-error :
        (b : Bool) (i : ℕ) (e : E) (s : Execution E)
        → get_elem? s.phases i ≡ some executing
        → IsSound pe s
        → IsSound pe (record s { phases = set s.phases i (failure_phase b i e) })
    conclude-IsSound-error true i e s at h =
        enter-IsSound i executing (reporting e) s at refl refl h
    conclude-IsSound-error false i e s at h =
        enter-IsSound i executing (storing (failure_of i e)) s at refl refl h

    conclude-IsSound :
        (i : ℕ) (o : Option E) (s : Execution E)
        → get_elem? s.phases i ≡ some executing
        → IsSound pe s
        → IsSound pe (conclude pe i o s)
    unfolding conclude
    conclude-IsSound i none s at h =
        enter-IsSound i executing (storing (success_of i)) s at refl refl h
    conclude-IsSound i (some e) s at h = conclude-IsSound-error pe.fail_fast i e s at h

    report_error-IsSound :
        (i : ℕ) (e : E) (s : Execution E)
        → get_elem? s.phases i ≡ some (reporting e)
        → IsSound pe s
        → IsSound pe (report_error i e s)
    unfolding report_error
    report_error-IsSound i e s at h = grind (
      arith,
      moved s.phases i (reporting e) (closing e) at,
      moved s.phases i (reporting e) (storing (failure_of i e)) at,
    )

    pub Step-IsSound : {s t : Execution E} → Step pe s t → IsSound pe s → IsSound pe t
    unfolding skip_task acquire_slot close_stop store_result release_slot
    Step-IsSound {s} (skip i at stopped) h = grind (arith, moved s.phases i waiting finished at)
    Step-IsSound {s} (acquire i at free) h = grind (arith, moved s.phases i waiting executing at)
    Step-IsSound {s} (execute i o at) h = conclude-IsSound i o s at h
    Step-IsSound {s} (report i e at) h = report_error-IsSound i e s at h
    Step-IsSound {s} (close i e at) h =
        grind (arith, moved s.phases i (closing e) (storing (failure_of i e)) at)
    Step-IsSound {s} (store i r at) h = grind (arith, moved s.phases i (storing r) releasing at)
    Step-IsSound {s} (release i at) h = grind (arith, moved s.phases i releasing finished at)

    pub Reach-IsSound : {n k : ℕ} {s : Execution E} → Reach pe n k s → IsSound pe s
    unfolding new_execution
    Reach-IsSound {n} start =
        omega (arith, total-replicate holds n refl, total-replicate closes n refl)
    Reach-IsSound (later r step) = Step-IsSound step (Reach-IsSound r)

    is_sent-le : (o : Option E) → is_sent o ≤ 1
    is_sent-le none = omega arith
    is_sent-le (some e) = omega arith

    -- In every schedule the stop channel is closed at most once, and no more goroutines are between
    -- the semaphore and its release than there are workers.
    pub Reach-closes_once :
        {n k : ℕ} {s : Execution E}
        → Reach pe n k s
        → (s.stop_closes ≤ 1) × (total holds s.phases ≤ pe.max_workers)
    Reach-closes_once {s = s} r =
        let sound = Reach-IsSound r in
        (omega (arith, sound, is_sent-le s.first_error), omega (arith, sound))
