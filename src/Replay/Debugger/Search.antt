-- ===== src/Replay/Debugger/Search.antt =====
-- The searches of the debugger: by type, by service, and by time.
use mathlib.Core.Path.{subst}
use sentra_lab.Base.{
  ℕ, zero, suc, ◌+◌, ◌-◌, ◌≤◌, ◌<◌, String, ◌≡◌, refl, sym, Bool, true, false, Option, none, some,
  List, [], ◌∷◌, arith, length, get_elem?, Option-cases, Bool-cases, inl, inr, str_eq, ◌==◌, ◌⊎◌, ℤ,
  pos, negsuc,
}
use sentra_lab.Replay.Debugger.{
  Debugger, Event, scan_up, scan_down, search_from, search, arrive, find_event_by_type,
  kind_not_found,
}

module _ {X : Type 0} where
  pub get_elem?-lt :
      (es : List (Event X)) (i : ℕ) (e : Event X) → get_elem? es i ≡ some e → i < length es
  get_elem?-lt [] i e h = cc
  get_elem?-lt (x ∷ es) zero e h = omega arith
  get_elem?-lt (x ∷ es) (suc i) e h = omega (arith, get_elem?-lt es i e h)

  -- No event from index i up to, and without, index j passes.
  abbrev pub NoneIn : (Event X → Bool) → List (Event X) → ℕ → ℕ → Type 0
  NoneIn p es i j = (k : ℕ) (e : Event X) → i ≤ k → k < j → get_elem? es k ≡ some e → p e ≡ false

  -- The result of a search upwards from i: the first event that passes, or none where none does.
  abbrev pub IsFirst : (Event X → Bool) → List (Event X) → ℕ → Option (ℕ × Event X) → Type 0
  IsFirst p es i none = NoneIn p es i (length es)
  IsFirst p es i (some (j, e)) =
      (i ≤ j) × (get_elem? es j ≡ some e) × (p e ≡ true) × NoneIn p es i j

  -- The result of a search downwards from i.
  abbrev pub IsLast : (Event X → Bool) → List (Event X) → ℕ → Option (ℕ × Event X) → Type 0
  IsLast p es i none = (length es ≤ i) ⊎ NoneIn p es 0 (suc i)
  IsLast p es i (some (j, e)) =
      (j ≤ i) × (get_elem? es j ≡ some e) × (p e ≡ true) × NoneIn p es (suc j) (suc i)

  NoneIn-step :
      (p : Event X → Bool) (es : List (Event X)) (i j : ℕ) (x : Event X)
      → get_elem? es i ≡ some x
      → p x ≡ false
      → NoneIn p es (i + 1) j
      → NoneIn p es i j
  NoneIn-step p es i j x at miss h k e lo hi there = elim (Bool-cases (k == i)) [
    | inl here ↦ ground arith
    | inr later ↦ h k e (ground arith) hi there
  ]

  IsFirst-step :
      (p : Event X → Bool) (es : List (Event X)) (i : ℕ) (x : Event X) (r : Option (ℕ × Event X))
      → get_elem? es i ≡ some x
      → p x ≡ false
      → IsFirst p es (i + 1) r
      → IsFirst p es i r
  IsFirst-step p es i x none at miss h = NoneIn-step p es i (length es) x at miss h
  IsFirst-step p es i x (some (j, e)) at miss (le, there, hit, h) =
      (omega arith, there, hit, NoneIn-step p es i j x at miss h)

  module _ (p : Event X → Bool) (es : List (Event X)) where
    scan_up-out : (n i : ℕ) → get_elem? es i ≡ none → scan_up p es (suc n) i ≡ none
    unfolding scan_up
    scan_up-out n i out = ground arith

    pub scan_up-hit :
        (n i : ℕ) (x : Event X)
        → get_elem? es i ≡ some x
        → p x ≡ true
        → scan_up p es (suc n) i ≡ some (i, x)
    unfolding scan_up
    scan_up-hit n i x at hit = ground arith

    scan_up-miss :
        (n i : ℕ) (x : Event X)
        → get_elem? es i ≡ some x
        → p x ≡ false
        → scan_up p es (suc n) i ≡ scan_up p es n (i + 1)
    unfolding scan_up
    scan_up-miss n i x at miss = ground arith

  pub length-le : (es : List (Event X)) (i : ℕ) → get_elem? es i ≡ none → length es ≤ i
  length-le [] i out = omega arith
  length-le (x ∷ es) zero out = cc
  length-le (x ∷ es) (suc i) out = omega (arith, length-le es i out)

  pub scan_up-IsFirst :
      (p : Event X → Bool) (es : List (Event X)) (n i : ℕ)
      → length es ≤ i + n
      → IsFirst p es i (scan_up p es n i)
  scan_up-IsFirst p es zero i h = unfold scan_up in λ k e lo hi there. absurd (omega arith)
  scan_up-IsFirst p es (suc n) i h = elim (Option-cases (get_elem? es i)) [
    | inl out ↦
        subst (IsFirst p es i) (sym (scan_up-out p es n i out))
          (λ k e lo hi there. absurd (omega (arith, length-le es i out)))
    | inr (x, at) ↦ elim (Bool-cases (p x)) [
      | inl hit ↦
          subst (IsFirst p es i) (sym (scan_up-hit p es n i x at hit))
            (omega arith, at, hit, λ k e lo hi there. absurd (omega arith))
      | inr miss ↦ subst (IsFirst p es i) (sym (scan_up-miss p es n i x at miss)) (
          IsFirst-step p es i x (scan_up p es n (i + 1)) at miss
            (scan_up-IsFirst p es n (i + 1) (omega arith)))
    ]
  ]

  -- A forward search from an index that may be negative, where nothing is found.
  abbrev pub FirstFrom : (Event X → Bool) → List (Event X) → ℤ → Option (ℕ × Event X) → Type 0
  FirstFrom p es (pos i) r = IsFirst p es i r
  FirstFrom p es (negsuc n) r = r ≡ none

  -- A backward search likewise.
  abbrev pub LastFrom : (Event X → Bool) → List (Event X) → ℤ → Option (ℕ × Event X) → Type 0
  LastFrom p es (pos i) r = IsLast p es i r
  LastFrom p es (negsuc n) r = r ≡ none

  -- A search upwards within the length of the recording finds the first event from the index on that
  -- passes, and it fails only if none does.
  pub search_from-FirstFrom :
      (p : Event X → Bool) (es : List (Event X)) (i : ℤ)
      → FirstFrom p es i (search_from p true es i)
  unfolding search_from
  search_from-FirstFrom p es (pos i) = scan_up-IsFirst p es (length es - i) i (omega arith)
  search_from-FirstFrom p es (negsuc n) = refl

  NoneIn-extend :
      (p : Event X → Bool) (es : List (Event X)) (i j : ℕ) (x : Event X)
      → get_elem? es j ≡ some x
      → p x ≡ false
      → NoneIn p es i j
      → NoneIn p es i (suc j)
  NoneIn-extend p es i j x at miss h k e lo hi there = elim (Bool-cases (k == j)) [
    | inl here ↦ ground arith
    | inr before ↦ h k e lo (ground arith) there
  ]

  module _ (p : Event X → Bool) (es : List (Event X)) where
    IsLast-step :
        (i : ℕ) (x : Event X) (r : Option (ℕ × Event X))
        → get_elem? es (suc i) ≡ some x
        → p x ≡ false
        → IsLast p es i r
        → IsLast p es (suc i) r
    IsLast-step i x none at miss (inl short) = absurd (omega (arith, get_elem?-lt es (suc i) x at))
    IsLast-step i x none at miss (inr h) = inr (NoneIn-extend p es 0 (suc i) x at miss h)
    IsLast-step i x (some (j, e)) at miss (le, there, hit, h) =
        (omega arith, there, hit, NoneIn-extend p es (suc j) (suc i) x at miss h)

    pub scan_down-out : (i : ℕ) → get_elem? es i ≡ none → scan_down p es i ≡ none
    unfolding scan_down
    scan_down-out zero out = ground arith
    scan_down-out (suc i) out = ground arith

    scan_down-hit :
        (i : ℕ) (x : Event X)
        → get_elem? es i ≡ some x
        → p x ≡ true
        → scan_down p es i ≡ some (i, x)
    unfolding scan_down
    scan_down-hit zero x at hit = ground arith
    scan_down-hit (suc i) x at hit = ground arith

    scan_down-start :
        (x : Event X) → get_elem? es 0 ≡ some x → p x ≡ false → scan_down p es 0 ≡ none
    unfolding scan_down
    scan_down-start x at miss = ground arith

    scan_down-miss :
        (i : ℕ) (x : Event X)
        → get_elem? es (suc i) ≡ some x
        → p x ≡ false
        → scan_down p es (suc i) ≡ scan_down p es i
    unfolding scan_down
    scan_down-miss i x at miss = ground arith

    IsLast-out : (i : ℕ) → get_elem? es i ≡ none → IsLast p es i (scan_down p es i)
    IsLast-out i out = subst (IsLast p es i) (sym (scan_down-out i out)) (inl (length-le es i out))

    IsLast-hit :
        (i : ℕ) (x : Event X)
        → get_elem? es i ≡ some x
        → p x ≡ true
        → IsLast p es i (scan_down p es i)
    IsLast-hit i x at hit =
        subst (IsLast p es i) (sym (scan_down-hit i x at hit))
          (omega arith, at, hit, λ k e lo hi there. absurd (omega arith))

    pub scan_down-IsLast : (i : ℕ) → IsLast p es i (scan_down p es i)
    scan_down-IsLast zero = elim (Option-cases (get_elem? es 0)) [
      | inl out ↦ IsLast-out 0 out
      | inr (x, at) ↦ elim (Bool-cases (p x)) [
        | inl hit ↦ IsLast-hit 0 x at hit
        | inr miss ↦
            subst (IsLast p es 0) (sym (scan_down-start x at miss))
              (inr (NoneIn-extend p es 0 0 x at miss (λ k e lo hi there. absurd (omega arith))))
      ]
    ]
    scan_down-IsLast (suc i) =
        let below = scan_down-IsLast i in
        elim (Option-cases (get_elem? es (suc i))) [
          | inl out ↦ IsLast-out (suc i) out
          | inr (x, at) ↦ elim (Bool-cases (p x)) [
            | inl hit ↦ IsLast-hit (suc i) x at hit
            | inr miss ↦
                subst (IsLast p es (suc i)) (sym (scan_down-miss i x at miss))
                  (IsLast-step i x (scan_down p es i) at miss below)
          ]
        ]

  pub search_from-LastFrom :
      (p : Event X → Bool) (es : List (Event X)) (i : ℤ)
      → LastFrom p es i (search_from p false es i)
  unfolding search_from
  search_from-LastFrom p es (pos i) = scan_down-IsLast p es i
  search_from-LastFrom p es (negsuc n) = refl

  -- The searches for a type, in both directions. Forward it finds the first event of the type from
  -- the current index on, the one at the index included, and fails only if there is none or the
  -- index is negative. Backward it finds the last one down from the current index, and fails only if
  -- there is none or the index is at the end of the recording, past it or negative.
  pub find_event_by_type-finds :
      {F : Type 0} (kind : String) (d : Debugger X F)
      → let passes = λ (e : Event X). str_eq e.kind kind in
        ((r : Option (ℕ × Event X)) × FirstFrom passes d.events d.current_index r
          × (find_event_by_type kind true d ≡ arrive (kind_not_found kind) r d))
        × ((r : Option (ℕ × Event X)) × LastFrom passes d.events d.current_index r
            × (find_event_by_type kind false d ≡ arrive (kind_not_found kind) r d))
  unfolding find_event_by_type search
  find_event_by_type-finds kind d =
      let passes = λ (e : Event X). str_eq e.kind kind in
      (
        (
          search_from passes true d.events d.current_index,
          search_from-FirstFrom passes d.events d.current_index,
          refl,
        ),
        (
          search_from passes false d.events d.current_index,
          search_from-LastFrom passes d.events d.current_index,
          refl,
        ),
      )
