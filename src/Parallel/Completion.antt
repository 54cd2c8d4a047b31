-- ===== src/Parallel/Completion.antt =====
-- How an execution ends: no schedule runs forever or gets stuck, and every task has its result.
use sentra_lab.Base.{
  ℕ, zero, suc, ◌+◌, ◌*◌, ◌<◌, ◌≤◌, ◌≡◌, refl, Bool, true, false, Option, none, some, List, [], ◌∷◌,
  length, get_elem?, set, replicate, arith, ap, ◌∙◌, ◌⊎◌, inl, inr, length-set, length-replicate,
  get_elem?-total, ltb, Bool-cases,
}
use sentra_lab.Parallel.{
  ParallelExecutor, TaskResult, Phase, waiting, executing, reporting, closing, storing, releasing,
  finished, Execution, Step, Reach, skip, acquire, execute, report, close, store, release, start,
  later, success_of, failure_of, failure_phase, report_to, new_execution, skip_task, acquire_slot,
  conclude, report_error, close_stop, store_result, release_slot,
}
use sentra_lab.Parallel.Channels.{total, total-set, holds, Reach-IsSound}
use sentra_lab.Parallel.Results.{Fits, FitAll-at, Reach-IsRecorded}

module _ {E : Type 0} where
  -- The steps that a goroutine can still take.
  abbrev pub rank : Phase E → ℕ
  rank waiting = 6
  rank executing = 5
  rank (reporting e) = 4
  rank (closing e) = 3
  rank (storing r) = 2
  rank releasing = 1
  rank finished = 0

total-rank-replicate : (E : Type 0) (n : ℕ) → total {E = E} rank (replicate n waiting) ≡ 6 * n
total-rank-replicate E zero = omega arith
total-rank-replicate E (suc n) = omega (arith, total-rank-replicate E n)

module _ {E : Type 0} where
  abbrev Lower : Execution E → Execution E → Type 0
  Lower s t = (total rank t.phases + 1 ≤ total rank s.phases) × (length t.phases ≡ length s.phases)

  module _ (pe : ParallelExecutor) where
    lower :
        (i : ℕ) (p q : Phase E) (s : Execution E)
        → get_elem? s.phases i ≡ some p
        → rank q < rank p
        → Lower s (record s { phases = set s.phases i q })
    lower i p q s at lt = (omega (arith, total-set rank s.phases i p q at), length-set s.phases i q)

    failure-rank : (b : Bool) (i : ℕ) (e : E) → rank (failure_phase b i e) < 5
    failure-rank true i e = omega arith
    failure-rank false i e = omega arith

    conclude-Lower :
        (i : ℕ) (o : Option E) (s : Execution E)
        → get_elem? s.phases i ≡ some executing
        → Lower s (conclude pe i o s)
    unfolding conclude
    conclude-Lower i none s at = lower i executing (storing (success_of i)) s at (omega arith)
    conclude-Lower i (some e) s at =
        lower i executing (failure_phase pe.fail_fast i e) s at (failure-rank pe.fail_fast i e)

    report_to-Lower :
        (first : Option E) (i : ℕ) (e : E) (s : Execution E)
        → get_elem? s.phases i ≡ some (reporting e)
        → Lower s (report_to first i e s)
    unfolding report_to
    report_to-Lower none i e s at = lower i (reporting e) (closing e) s at (omega arith)
    report_to-Lower (some e') i e s at =
        lower i (reporting e) (storing (failure_of i e)) s at (omega arith)

    Step-Lower : {s t : Execution E} → Step pe s t → Lower s t
    unfolding skip_task acquire_slot report_error close_stop store_result release_slot
    Step-Lower {s} (skip i at stopped) = lower i waiting finished s at (omega arith)
    Step-Lower {s} (acquire i at free) = lower i waiting executing s at (omega arith)
    Step-Lower {s} (execute i o at) = conclude-Lower i o s at
    Step-Lower {s} (report i e at) = report_to-Lower s.first_error i e s at
    Step-Lower {s} (close i e at) =
        lower i (closing e) (storing (failure_of i e)) s at (omega arith)
    Step-Lower {s} (store i r at) = lower i (storing r) releasing s at (omega arith)
    Step-Lower {s} (release i at) = lower i releasing finished s at (omega arith)

    Reach-ranks :
        {n k : ℕ} {s : Execution E}
        → Reach pe n k s
        → (k + total rank s.phases ≤ 6 * n) × (length s.phases ≡ n)
    unfolding new_execution
    Reach-ranks {n} start = (omega (arith, total-rank-replicate E n), length-replicate n waiting)
    Reach-ranks (later r step) =
        let (ranks, size) = Reach-ranks r in
        let (less, same) = Step-Lower step in (omega arith, same ∙ size)

    -- A schedule of n tasks has at most 6 * n steps, whatever the tasks return.
    pub Reach-terminates : {n k : ℕ} {s : Execution E} → Reach pe n k s → k ≤ 6 * n
    Reach-terminates r = omega (arith, Reach-ranks r)

    -- A goroutine past the semaphore has a next step.
    holder_steps :
        (i : ℕ) (p : Phase E) (s : Execution E)
        → get_elem? s.phases i ≡ some p
        → 0 < holds p
        → (t : Execution E) × Step pe s t
    holder_steps i waiting s at h = absurd (omega arith)
    holder_steps i executing s at h = (_, execute i none at)
    holder_steps i (reporting e) s at h = (_, report i e at)
    holder_steps i (closing e) s at h = (_, close i e at)
    holder_steps i (storing r) s at h = (_, store i r at)
    holder_steps i releasing s at h = (_, release i at)
    holder_steps i finished s at h = absurd (omega arith)

  find_holder :
      (ps : List (Phase E))
      → 0 < total holds ps
      → (i : ℕ) × (p : Phase E) × (get_elem? ps i ≡ some p) × (0 < holds p)
  find_holder [] h = absurd (omega arith)
  find_holder (p ∷ ps) h = elim (Bool-cases (ltb 0 (holds p))) [
    | inl held ↦ (0, p, refl, ground arith)
    | inr free ↦ let (i, q, at, held) = find_holder ps (ground arith) in (suc i, q, at, held)
  ]

  find_unfinished :
      (ps : List (Phase E))
      → ((i : ℕ) × (p : Phase E) × (get_elem? ps i ≡ some p) × (0 < rank p)) ⊎ (total rank ps ≡ 0)
  find_unfinished [] = inr refl
  find_unfinished (p ∷ ps) = elim (Bool-cases (ltb 0 (rank p))) [
    | inl live ↦ inl (0, p, refl, ground arith)
    | inr over ↦ elim (find_unfinished ps) [
      | inl (i, q, at, live) ↦ inl (suc i, q, at, live)
      | inr rest ↦ inr (ground arith)
    ]
  ]

  all_finished :
      (ps : List (Phase E)) (i : ℕ) (p : Phase E)
      → total rank ps ≡ 0
      → get_elem? ps i ≡ some p
      → rank p ≡ 0
  all_finished [] i p h at = cc
  all_finished (x ∷ ps) zero p h at = let same : x ≡ p = cc in omega (arith, ap rank same)
  all_finished (x ∷ ps) (suc i) p h at = all_finished ps i p (omega arith) at

  finished-Fits :
      (i : ℕ) (p : Phase E) (o : Option (TaskResult E))
      → rank p ≡ 0
      → Fits i p o
      → (r : TaskResult E) × (o ≡ some r) × (r.index ≡ i)
  finished-Fits i waiting o h fit = absurd (omega arith)
  finished-Fits i executing o h fit = absurd (omega arith)
  finished-Fits i (reporting e) o h fit = absurd (omega arith)
  finished-Fits i (closing e) o h fit = absurd (omega arith)
  finished-Fits i (storing r) o h fit = absurd (omega arith)
  finished-Fits i releasing o h fit = absurd (omega arith)
  finished-Fits i finished o h fit = fit

  unfinished-cases : (p : Phase E) → 0 < rank p → (p ≡ waiting) ⊎ (0 < holds p)
  unfinished-cases waiting h = inl refl
  unfinished-cases executing h = inr (omega arith)
  unfinished-cases (reporting e) h = inr (omega arith)
  unfinished-cases (closing e) h = inr (omega arith)
  unfinished-cases (storing r) h = inr (omega arith)
  unfinished-cases releasing h = inr (omega arith)
  unfinished-cases finished h = absurd (omega arith)

  module _ (pe : ParallelExecutor) where
    -- Where slots are left a waiting goroutine takes one, and where none is left some goroutine holds
    -- one.
    waiting_steps :
        {n k : ℕ} {s : Execution E}
        → 0 < pe.max_workers
        → Reach pe n k s
        → (i : ℕ) → get_elem? s.phases i ≡ some waiting
        → (t : Execution E) × Step pe s t
    waiting_steps {s = s} some_workers r i at = elim (Bool-cases (ltb s.semaphore pe.max_workers)) [
      | inl free ↦ (_, acquire i at (ground arith))
      | inr full ↦
          let (held, bound, sent) = Reach-IsSound pe r in
          let (j, q, there, holder) = find_holder s.phases (ground arith) in
          holder_steps pe j q s there holder
    ]

    -- With at least one worker no schedule gets stuck: either some goroutine has a next step, or every
    -- task has its result, in the place of its index.
    pub Reach-completes :
        {n k : ℕ} {s : Execution E}
        → 0 < pe.max_workers
        → Reach pe n k s
        → ((t : Execution E) × Step pe s t)
          ⊎ ((i : ℕ)
              → i < n
              → (r : TaskResult E) × (get_elem? s.results i ≡ some (some r)) × (r.index ≡ i))
    Reach-completes {s = s} some_workers r = elim (find_unfinished s.phases) [
      | inl (i, p, at, live) ↦ elim (unfinished-cases p live) [
        | inl idle ↦ inl (waiting_steps some_workers r i (at ∙ ap some idle))
        | inr held ↦ inl (holder_steps pe i p s at held)
      ]
      | inr over ↦ inr (λ i lt.
          let (p, at) = get_elem?-total s.phases i (omega (arith, Reach-ranks pe r)) in
          let (o, there, fit) =
            FitAll-at 0 i i p s.phases s.results (omega arith) at (Reach-IsRecorded pe r) in
          let (x, stored, own) = finished-Fits i p o (all_finished s.phases i p over at) fit in
          (x, there ∙ ap some stored, own))
    ]
