-- ===== src/Parallel/Results.antt =====
-- The results of an execution, in the order of its tasks.
use sentra_lab.Base.{
  ℕ, zero, suc, ◌+◌, ◌≡◌, refl, Bool, true, false, Option, none, some, List, [], ◌∷◌, get_elem?,
  set, replicate, arith, sym,
}
use mathlib.Core.Path.{subst}
use sentra_lab.Parallel.{
  ParallelExecutor, TaskResult, Phase, waiting, executing, reporting, closing, storing, releasing,
  finished, Execution, Step, Reach, skip, acquire, execute, report, close, store, release, start,
  later, success_of, failure_of, skip_of, failure_phase, report_to, new_execution, skip_task,
  acquire_slot, conclude, report_error, close_stop, store_result, release_slot,
}

module _ {E : Type 0} where
  -- The entry that belongs to a phase of task k: the result that is stored once the goroutine has.
  abbrev pub Fits : ℕ → Phase E → Option (TaskResult E) → Type 0
  Fits k waiting o = Unit
  Fits k executing o = Unit
  Fits k (reporting e) o = Unit
  Fits k (closing e) o = Unit
  Fits k (storing r) o = r.index ≡ k
  Fits k releasing o = (r : TaskResult E) × (o ≡ some r) × (r.index ≡ k)
  Fits k finished o = (r : TaskResult E) × (o ≡ some r) × (r.index ≡ k)

  -- The tasks from number k on, with one entry for each.
  abbrev pub FitAll : ℕ → List (Phase E) → List (Option (TaskResult E)) → Type 0
  FitAll k [] [] = Unit
  FitAll k [] (o ∷ os) = ⊥
  FitAll k (p ∷ ps) [] = ⊥
  FitAll k (p ∷ ps) (o ∷ os) = Fits k p o × FitAll (k + 1) ps os

  -- Task j, at place i from k on, goes from p to q.
  FitAll-move :
      (k i j : ℕ) (p q : Phase E) (ps : List (Phase E)) (os : List (Option (TaskResult E)))
      → j ≡ k + i
      → get_elem? ps i ≡ some p
      → ((o : Option (TaskResult E)) → Fits j p o → Fits j q o)
      → FitAll k ps os
      → FitAll k (set ps i q) os
  FitAll-move k i j p q [] [] same at f h = h
  FitAll-move k i j p q [] (o ∷ os) same at f h = h
  FitAll-move k i j p q (x ∷ ps) [] same at f h = elim h [ ]
  FitAll-move k zero j p q (x ∷ ps) (o ∷ os) same at f (fit, h) =
      let here : j ≡ k = omega arith in
      let now : x ≡ p = cc in
      (
        subst (λ n. Fits n q o) here
            (f o (subst (λ n. Fits n p o) (sym here) (subst (λ y. Fits k y o) now fit))),
        h,
      )
  FitAll-move k (suc i) j p q (x ∷ ps) (o ∷ os) same at f (fit, h) =
      (fit, FitAll-move (k + 1) i j p q ps os (omega arith) at f h)

  FitAll-store :
      (k i j : ℕ) (q : Phase E) (v : Option (TaskResult E)) (ps : List (Phase E))
      (os : List (Option (TaskResult E)))
      → j ≡ k + i
      → Fits j q v
      → FitAll k ps os
      → FitAll k (set ps i q) (set os i v)
  FitAll-store k i j q v [] [] same f h = h
  FitAll-store k i j q v [] (o ∷ os) same f h = elim h [ ]
  FitAll-store k i j q v (x ∷ ps) [] same f h = elim h [ ]
  FitAll-store k zero j q v (x ∷ ps) (o ∷ os) same f (fit, h) =
      let here : j ≡ k = omega arith in (subst (λ n. Fits n q v) here f, h)
  FitAll-store k (suc i) j q v (x ∷ ps) (o ∷ os) same f (fit, h) =
      (fit, FitAll-store (k + 1) i j q v ps os (omega arith) f h)

  pub FitAll-at :
      (k i j : ℕ) (p : Phase E) (ps : List (Phase E)) (os : List (Option (TaskResult E)))
      → j ≡ k + i
      → get_elem? ps i ≡ some p
      → FitAll k ps os
      → (o : Option (TaskResult E)) × (get_elem? os i ≡ some o) × Fits j p o
  FitAll-at k i j p [] os same at h = absurd (cc)
  FitAll-at k i j p (x ∷ ps) [] same at h = elim h [ ]
  FitAll-at k zero j p (x ∷ ps) (o ∷ os) same at (fit, h) =
      let here : k ≡ j = omega arith in
      let now : x ≡ p = cc in
      (o, refl, subst (λ n. Fits n p o) here (subst (λ y. Fits k y o) now fit))
  FitAll-at k (suc i) j p (x ∷ ps) (o ∷ os) same at (fit, h) =
      FitAll-at (k + 1) i j p ps os (omega arith) at h

  -- Each task stands at a phase that fits its entry among the results.
  abbrev pub IsRecorded : Execution E → Type 0
  IsRecorded s = FitAll 0 s.phases s.results

FitAll-replicate :
    (E : Type 0) (k n : ℕ) → FitAll {E = E} k (replicate n waiting) (replicate n none)
FitAll-replicate E k zero = tt
FitAll-replicate E k (suc n) = (tt, FitAll-replicate E (k + 1) n)

module _ {E : Type 0} where
  module _ (pe : ParallelExecutor) where
    enter-IsRecorded :
        (i : ℕ) (p q : Phase E) (s : Execution E)
        → get_elem? s.phases i ≡ some p
        → ((o : Option (TaskResult E)) → Fits i p o → Fits i q o)
        → IsRecorded s
        → IsRecorded (record s { phases = set s.phases i q })
    enter-IsRecorded i p q s at f h = FitAll-move 0 i i p q s.phases s.results (omega arith) at f h

    failure-Fits :
        (b : Bool) (i : ℕ) (e : E) (o : Option (TaskResult E)) → Fits i (failure_phase b i e) o
    failure-Fits true i e o = tt
    failure-Fits false i e o = refl

    conclude-IsRecorded :
        (i : ℕ) (o : Option E) (s : Execution E)
        → get_elem? s.phases i ≡ some executing
        → IsRecorded s
        → IsRecorded (conclude pe i o s)
    unfolding conclude
    conclude-IsRecorded i none s at h =
        enter-IsRecorded i executing (storing (success_of i)) s at (λ o fit. refl) h
    conclude-IsRecorded i (some e) s at h =
        enter-IsRecorded i executing (failure_phase pe.fail_fast i e) s at
          (λ o fit. failure-Fits pe.fail_fast i e o) h

    report_to-IsRecorded :
        (first : Option E) (i : ℕ) (e : E) (s : Execution E)
        → get_elem? s.phases i ≡ some (reporting e)
        → IsRecorded s
        → IsRecorded (report_to first i e s)
    unfolding report_to
    report_to-IsRecorded none i e s at h =
        enter-IsRecorded i (reporting e) (closing e) s at (λ o fit. tt) h
    report_to-IsRecorded (some e') i e s at h =
        enter-IsRecorded i (reporting e) (storing (failure_of i e)) s at (λ o fit. refl) h

    pub Step-IsRecorded : {s t : Execution E} → Step pe s t → IsRecorded s → IsRecorded t
    unfolding skip_task acquire_slot report_error close_stop store_result release_slot
    Step-IsRecorded {s} (skip i at stopped) h =
        FitAll-store 0 i i finished (some (skip_of i)) s.phases s.results (omega arith)
          (skip_of i, refl, refl) h
    Step-IsRecorded {s} (acquire i at free) h =
        enter-IsRecorded i waiting executing s at (λ o fit. tt) h
    Step-IsRecorded {s} (execute i o at) h = conclude-IsRecorded i o s at h
    Step-IsRecorded {s} (report i e at) h = report_to-IsRecorded s.first_error i e s at h
    Step-IsRecorded {s} (close i e at) h =
        enter-IsRecorded i (closing e) (storing (failure_of i e)) s at (λ o fit. refl) h
    Step-IsRecorded {s} (store i r at) h =
        let (o, there, fit) = FitAll-at 0 i i (storing r) s.phases s.results (omega arith) at h in
        FitAll-store 0 i i releasing (some r) s.phases s.results (omega arith) (r, refl, fit) h
    Step-IsRecorded {s} (release i at) h =
        enter-IsRecorded i releasing finished s at (λ o fit. fit) h

    pub Reach-IsRecorded : {n k : ℕ} {s : Execution E} → Reach pe n k s → IsRecorded s
    unfolding new_execution
    Reach-IsRecorded {n} start = FitAll-replicate E 0 n
    Reach-IsRecorded (later r step) = Step-IsRecorded step (Reach-IsRecorded r)
