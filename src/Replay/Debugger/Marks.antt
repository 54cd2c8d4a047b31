-- ===== src/Replay/Debugger/Marks.antt =====
-- The breakpoints and the timeline of the debugger.
use sentra_lab.Base.{
  ℕ, zero, suc, ◌+◌, ◌-◌, ◌<◌, ◌≡◌, refl, ap, ◌∙◌, Bool, true, false, not, some, List, [], ◌∷◌,
  arith, if◌then◌else◌, ℤ, ◌-ℤ◌, pos, negsuc, eqb_ℤ, length, get_elem?, Bool-cases, inl, inr,
}
use sentra_lab.Replay.Debugger.{
  Debugger, Event, TimelineEntry, toggle_breakpoint, mark, get_timeline, timeline_from,
  get_current_event,
}

eqb_ℤ-≡ : (i j : ℤ) → eqb_ℤ i j ≡ true → i ≡ j
eqb_ℤ-≡ (pos i) (pos j) h = ap pos (ground arith)
eqb_ℤ-≡ (pos i) (negsuc j) h = absurd (ground arith)
eqb_ℤ-≡ (negsuc i) (pos j) h = absurd (ground arith)
eqb_ℤ-≡ (negsuc i) (negsuc j) h = ap negsuc (ground arith)

eqb_ℤ-refl : (i : ℤ) → eqb_ℤ i i ≡ true
eqb_ℤ-refl (pos i) = ground arith
eqb_ℤ-refl (negsuc i) = ground arith

-- Which indices are marked after a toggle.
toggled :
    (b : Bool) (m : ℤ → Bool) (i j : ℤ)
    → (if b then mark i false m else mark i true m) j ≡ (if eqb_ℤ i j then not b else m j)
unfolding mark
toggled true m i j = refl
toggled false m i j = refl

add-zero_left : (i : ℕ) → 0 + i ≡ i
add-zero_left i = omega arith

add_sub : (i : ℕ) → i + 1 - 1 ≡ i
add_sub i = omega arith

before : (c : ℤ) (i : ℕ) → eqb_ℤ (pos i) (c -ℤ pos 1) ≡ true → c ≡ pos (i + 1)
unfolding ◌-ℤ◌
before (pos n) i h = ap pos (ground arith)
before (negsuc n) i h = absurd (ground arith)

module _ {X F : Type 0} where
  toggle_breakpoint-marks :
      (i j : ℤ) (d : Debugger X F)
      → (toggle_breakpoint i d).breakpoints j
        ≡ (if eqb_ℤ i j then not (d.breakpoints i) else d.breakpoints j)
  unfolding toggle_breakpoint
  toggle_breakpoint-marks i j d = toggled (d.breakpoints i) d.breakpoints i j

  -- Toggling a breakpoint twice restores every mark.
  pub toggle_breakpoint-twice :
      (i j : ℤ) (d : Debugger X F)
      → (toggle_breakpoint i (toggle_breakpoint i d)).breakpoints j ≡ d.breakpoints j
  toggle_breakpoint-twice i j d = elim (Bool-cases (eqb_ℤ i j)) [
    | inl same ↦ ground (
      arith,
      toggle_breakpoint-marks i j (toggle_breakpoint i d),
      toggle_breakpoint-marks i i d,
      eqb_ℤ-refl i,
      ap d.breakpoints (eqb_ℤ-≡ i j same),
    )
    | inr other ↦
        ground (
          arith,
          toggle_breakpoint-marks i j (toggle_breakpoint i d),
          toggle_breakpoint-marks i j d,
        )
  ]

  timeline_from-at :
      (k i : ℕ) (es : List (Event X)) (d : Debugger X F) (t : TimelineEntry)
      → get_elem? (timeline_from k es d) i ≡ some t
      → (t.index ≡ k + i)
        × (t.current ≡ eqb_ℤ (pos (k + i)) (d.current_index -ℤ pos 1))
        × (i < length es)
  unfolding timeline_from
  timeline_from-at k i [] d t h = cc
  timeline_from-at k zero (e ∷ es) d t h = (ground arith, ground arith, omega arith)
  timeline_from-at k (suc i) (e ∷ es) d t h =
      let (at, current, lt) = timeline_from-at (k + 1) i es d t h in
      (
        omega arith,
        current ∙ ap (λ n. eqb_ℤ (pos n) (d.current_index -ℤ pos 1)) (omega arith),
        omega arith,
      )

  -- The entry of the timeline that is shown as current is the one of GetCurrentEvent.
  pub get_timeline-current :
      (d : Debugger X F) (i : ℕ) (t : TimelineEntry)
      → get_elem? (get_timeline d) i ≡ some t
      → t.current ≡ true
      → (t.index ≡ i) × (get_current_event d ≡ get_elem? d.events i)
  unfolding get_timeline get_current_event ◌-ℤ◌
  get_timeline-current d i t h now =
      let (at, current, lt) = timeline_from-at 0 i d.events d t h in
      let here : d.current_index ≡ pos (i + 1) =
        before d.current_index i (ground (arith, add-zero_left i)) in
      (omega arith, ground (arith, ap (get_elem? d.events) (add_sub i)))
