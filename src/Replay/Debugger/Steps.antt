-- ===== src/Replay/Debugger/Steps.antt =====
-- The steps of the debugger one by one: what each leaves alone, and how Next and Previous undo one
-- another.
use sentra_lab.Base.{
  ◌||◌, ◌==◌, ℕ, zero, suc, ◌+◌, ◌-◌, ◌≤◌, ◌<◌, ◌≡◌, ◌≢◌, refl, ap, ◌∙◌, Bool, true, false, Option,
  none, some, List, [], ◌∷◌, arith, if◌then◌else◌, ltb, ℤ, pos, negsuc, ◌≤ℤ◌, ◌+ℤ◌, ◌-ℤ◌, ok, err,
  length, get_elem?, get_elem?-total, Option-cases, inl, inr, ◌⊎◌,
}
use sentra_lab.Store.{Time}
use sentra_lab.Replay.Debugger.Search.{
  FirstFrom, LastFrom, get_elem?-lt, length-le, search_from-FirstFrom, search_from-LastFrom,
}
use sentra_lab.Replay.Debugger.{
  Debugger, Event, DebugError, next, previous, jump_to, get_current_event, search_from, first_at,
  search, arrive, out_of_range,
}

module _ {X : Type 0} where
  abbrev pub IsBelow : ℕ → Option (ℕ × Event X) → Type 0
  IsBelow n none = Unit
  IsBelow n (some (j, e)) = j < n

  IsBelow-if :
      (b : Bool) (n i : ℕ) (e : Event X) (rest : Option (ℕ × Event X))
      → i < n
      → IsBelow n rest
      → IsBelow n (if b then some (i, e) else rest)
  IsBelow-if true n i e rest lt below = lt
  IsBelow-if false n i e rest lt below = below

  pub first_at-IsBelow :
      (t : Time) (es : List (Event X)) (i n : ℕ) → i + length es ≤ n → IsBelow n (first_at t es i)
  unfolding first_at
  first_at-IsBelow t [] i n h = tt
  first_at-IsBelow t (e ∷ es) i n h =
      IsBelow-if (ltb t e.timestamp || e.timestamp == t) n i e (first_at t es (i + 1)) (omega arith)
        (first_at-IsBelow t es (i + 1) n (omega arith))

  FirstFrom-IsBelow :
      (p : Event X → Bool) (es : List (Event X)) (i : ℤ) (r : Option (ℕ × Event X))
      → FirstFrom p es i r
      → IsBelow (length es) r
  FirstFrom-IsBelow p es i none h = tt
  FirstFrom-IsBelow p es (pos i) (some (j, e)) (le, there, hit, rest) = get_elem?-lt es j e there
  FirstFrom-IsBelow p es (negsuc n) (some (j, e)) h = cc

  LastFrom-IsBelow :
      (p : Event X → Bool) (es : List (Event X)) (i : ℤ) (r : Option (ℕ × Event X))
      → LastFrom p es i r
      → IsBelow (length es) r
  LastFrom-IsBelow p es i none h = tt
  LastFrom-IsBelow p es (pos i) (some (j, e)) (le, there, hit, rest) = get_elem?-lt es j e there
  LastFrom-IsBelow p es (negsuc n) (some (j, e)) h = cc

add_sub : (i : ℕ) → suc i - 1 ≡ i
add_sub i = omega arith

add-one : (i : ℕ) → i + 1 ≡ suc i
add-one i = omega arith

-- An index that is not negative.
nonneg : (c : ℤ) → pos 0 ≤ℤ c → (i : ℕ) × (c ≡ pos i)
nonneg (pos i) h = (i, refl)
nonneg (negsuc n) h = absurd (omega arith)

module _ {X F : Type 0} where
  -- The same events, and the index within them or just past their end.
  abbrev pub Stays : Debugger X F → Debugger X F → Type 0
  Stays d d' =
      (d'.events ≡ d.events)
      × (pos 0 ≤ℤ d'.current_index)
      × (d'.current_index ≤ℤ pos (length d.events))

  abbrev pub IsWithin : Debugger X F → Type 0
  IsWithin d = (pos 0 ≤ℤ d.current_index) × (d.current_index ≤ℤ pos (length d.events))

  next_after : Debugger X F → ℕ → Debugger X F
  next_after d i = record d {
    current_index = pos (i + 1);
    paused = if d.breakpoints (pos (i + 1)) then true else d.paused;
  }

  -- Next at an index of the recording, and at its end.
  next-inside :
      (d : Debugger X F) (i : ℕ) (e : Event X)
      → d.current_index ≡ pos i
      → get_elem? d.events i ≡ some e
      → next d ≡ (ok e, next_after d i)
  unfolding next next_after ◌+ℤ◌
  next-inside d i e at there = ground (arith, get_elem?-lt d.events i e there)

  next-outside :
      (d : Debugger X F) (i : ℕ)
      → d.current_index ≡ pos i
      → get_elem? d.events i ≡ none
      → next d ≡ (err DebugError.end_of_recording, d)
  unfolding next
  next-outside d i at out = ground (arith, length-le d.events i out)

  previous-inside :
      (d : Debugger X F) (i : ℕ) (e : Event X)
      → d.current_index ≡ pos (suc i)
      → get_elem? d.events i ≡ some e
      → previous d ≡ (ok e, record d { current_index = pos i })
  unfolding previous ◌-ℤ◌
  previous-inside d i e at there = ground arith

  previous-start :
      (d : Debugger X F)
      → d.current_index ≡ pos 0
      → previous d ≡ (err DebugError.start_of_recording, d)
  unfolding previous
  previous-start d at = ground arith

  -- What the steps leave alone, and that they read the recording only within its bounds.
  pub next-Stays : (d : Debugger X F) → IsWithin d → Stays d (next d).1
  next-Stays d (low, high) =
      let (i, at) = nonneg d.current_index low in
      elim (Option-cases (get_elem? d.events i)) [
        | inl out ↦ rw (next-outside d i at out) (refl, low, high)
        | inr (e, there) ↦ rw (next-inside d i e at there) (
            unfold next_after in
            (refl, omega arith, omega (arith, get_elem?-lt d.events i e there)))
      ]

  pub next-bounded : (d : Debugger X F) (k : ℤ) → IsWithin d → (next d).0 ≢ err (out_of_range k)
  next-bounded d k (low, high) h =
      let (i, at) = nonneg d.current_index low in
      elim (Option-cases (get_elem? d.events i)) [
        | inl out ↦ cc (next-outside d i at out)
        | inr (e, there) ↦ cc (next-inside d i e at there)
      ]

  previous-at :
      (d : Debugger X F) (i : ℕ)
      → d.current_index ≡ pos i
      → i ≤ length d.events
      → (previous d ≡ (err DebugError.start_of_recording, d))
        ⊎ ((j : ℕ) × (e : Event X) × (j < length d.events)
            × (get_elem? d.events j ≡ some e)
            × (previous d ≡ (ok e, record d { current_index = pos j })))
  previous-at d zero at le = inl (previous-start d at)
  previous-at d (suc j) at le =
      let (e, there) = get_elem?-total d.events j le in
      inr (j, e, le, there, previous-inside d j e at there)

  previous-within :
      (d : Debugger X F)
      → IsWithin d
      → (previous d ≡ (err DebugError.start_of_recording, d))
        ⊎ ((j : ℕ) × (e : Event X) × (j < length d.events)
            × (get_elem? d.events j ≡ some e)
            × (previous d ≡ (ok e, record d { current_index = pos j })))
  previous-within d (low, high) =
      let (i, at) = nonneg d.current_index low in previous-at d i at (omega (arith, rw at at high))

  pub previous-Stays : (d : Debugger X F) → IsWithin d → Stays d (previous d).1
  previous-Stays d h = elim (previous-within d h) [
    | inl start ↦ rw start (refl, h.0, h.1)
    | inr (j, e, lt, there, step) ↦ rw step (refl, omega arith, omega arith)
  ]

  pub previous-bounded :
      (d : Debugger X F) (k : ℤ) → IsWithin d → (previous d).0 ≢ err (out_of_range k)
  previous-bounded d k h panic = elim (previous-within d h) [
    | inl start ↦ cc
    | inr (j, e, lt, there, step) ↦ cc
  ]

  pub arrive-Stays :
      (fail : DebugError) (r : Option (ℕ × Event X)) (d : Debugger X F)
      → IsBelow (length d.events) r
      → IsWithin d
      → Stays d (arrive fail r d).1
  unfolding arrive
  arrive-Stays fail none d below h = (refl, h.0, h.1)
  arrive-Stays fail (some (j, e)) d below h = (refl, omega arith, omega arith)

  pub search-IsBelow :
      (p : Event X → Bool) (forward : Bool) (d : Debugger X F)
      → IsBelow (length d.events) (search p forward d)
  unfolding search
  search-IsBelow p true d =
      FirstFrom-IsBelow p d.events d.current_index (search_from p true d.events d.current_index)
        (search_from-FirstFrom p d.events d.current_index)
  search-IsBelow p false d =
      LastFrom-IsBelow p d.events d.current_index (search_from p false d.events d.current_index)
        (search_from-LastFrom p d.events d.current_index)

  pub jump_to-Stays : (i : ℤ) (d : Debugger X F) → IsWithin d → Stays d (jump_to i d).1
  unfolding jump_to
  jump_to-Stays (negsuc i) d h = (refl, h.0, h.1)
  jump_to-Stays (pos i) d h = elim (Option-cases (get_elem? d.events i)) [
    | inl out ↦ rw (out, jump_to) (refl, h.0, h.1)
    | inr (e, at) ↦
        rw (at, jump_to) (refl, omega arith, omega (arith, get_elem?-lt d.events i e at))
  ]

  -- After a Next that returns an event, Previous returns that event and restores the index.
  pub previous-next :
      (d : Debugger X F) (e : Event X)
      → IsWithin d
      → (next d).0 ≡ ok e
      → ((previous (next d).1).0 ≡ ok e) × ((previous (next d).1).1.current_index ≡ d.current_index)
  unfolding next_after
  previous-next d e (low, high) h =
      let (i, at) = nonneg d.current_index low in
      elim (Option-cases (get_elem? d.events i)) [
        | inl out ↦ cc (next-outside d i at out)
        | inr (x, there) ↦
            let step = next-inside d i x at there in
            let back = previous-inside (next_after d i) i x (ap pos (omega arith)) there in (cc, cc)
      ]

  -- After a Previous that returns an event, Next returns that event and restores the index.
  pub next-previous :
      (d : Debugger X F) (e : Event X)
      → IsWithin d
      → (previous d).0 ≡ ok e
      → (next (previous d).1).0 ≡ ok e
  next-previous d e h back = elim (previous-within d h) [
    | inl start ↦ cc
    | inr (j, x, lt, there, step) ↦
        let again = next-inside (record d { current_index = pos j }) j x refl there in cc
  ]

  pub current_at :
      (d : Debugger X F) (i : ℕ)
      → d.current_index ≡ pos i
      → i ≤ length d.events
      → get_current_event d ≡ (if i == 0 then none else get_elem? d.events (i - 1))
  unfolding get_current_event ◌-ℤ◌
  current_at d zero at h = ground arith
  current_at d (suc i) at h = ground (arith, ap (get_elem? d.events) (add_sub i))

  -- The event that Next returned is the current one afterwards.
  pub next-get_current_event :
      (d : Debugger X F) (e : Event X)
      → IsWithin d
      → (next d).0 ≡ ok e
      → get_current_event (next d).1 ≡ some e
  unfolding next_after
  next-get_current_event d e (low, high) h =
      let (i, at) = nonneg d.current_index low in
      elim (Option-cases (get_elem? d.events i)) [
        | inl out ↦ cc (next-outside d i at out)
        | inr (x, there) ↦
            let step = next-inside d i x at there in
            let now =
              current_at (next_after d i) (i + 1) refl
                (omega (arith, get_elem?-lt d.events i x there)) in
            let same : x ≡ e = cc in
            rw step (now ∙ ground (arith, ap (get_elem? d.events) (add_sub i), add-one i))
      ]
