-- ===== src/Replay/Debugger/Moves.antt =====
-- The moves of the debugger: its bounds through any calls, and what JumpTo leaves.
use sentra_lab.Base.{
  ◌==◌, ℕ, ◌-◌, String, ◌≡◌, ◌≢◌, refl, ap, sym, ◌∙◌, Bool, none, some, List, [], ◌∷◌, arith,
  if◌then◌else◌, ℤ, pos, ◌≤ℤ◌, ok, err, length, get_elem?, str_eq,
}
use sentra_lab.Base.Float64.{Float64}
use sentra_lab.Store.{Time}
use sentra_lab.Replay.Debugger.Search.{get_elem?-lt}
use mathlib.Core.Path.{subst}
use sentra_lab.Replay.Debugger.{
  Debugger, Event, new_debugger, next, previous, jump_to, jump_to_timestamp, find_event_by_type,
  find_event_by_service, toggle_breakpoint, set_breakpoint, clear_breakpoint, clear_all_breakpoints,
  play, pause, toggle_pause, set_speed, get_current_event, first_at, search, timestamp_not_found,
  kind_not_found, service_not_found, out_of_range,
}
use sentra_lab.Replay.Debugger.Steps.{
  IsWithin, Stays, first_at-IsBelow, next-Stays, next-bounded, previous-Stays, previous-bounded,
  arrive-Stays, search-IsBelow, jump_to-Stays, current_at,
}

-- The methods that change a debugger.
pub data Command (F : Type 0) : Type 0 where
  next_command previous_command play_command pause_command toggle_pause_command : Command F
  jump_command toggle_command set_command clear_command : ℤ → Command F
  clear_all_command : Command F
  time_command : Time → Command F
  type_command service_command : String → Bool → Command F
  speed_command : F → Command F

module _ {X F : Type 0} ⦃fl : Float64 F⦄ where
  unfoldable pub obey : Command F → Debugger X F → Debugger X F
  obey Command.next_command d = (next d).1
  obey Command.previous_command d = (previous d).1
  obey Command.play_command d = play d
  obey Command.pause_command d = pause d
  obey Command.toggle_pause_command d = toggle_pause d
  obey (Command.jump_command i) d = (jump_to i d).1
  obey (Command.toggle_command i) d = toggle_breakpoint i d
  obey (Command.set_command i) d = set_breakpoint i d
  obey (Command.clear_command i) d = clear_breakpoint i d
  obey Command.clear_all_command d = clear_all_breakpoints d
  obey (Command.time_command t) d = (jump_to_timestamp t d).1
  obey (Command.type_command k f) d = (find_event_by_type k f d).1
  obey (Command.service_command k f) d = (find_event_by_service k f d).1
  obey (Command.speed_command s) d = set_speed s d

  unfoldable pub obey_all : List (Command F) → Debugger X F → Debugger X F
  obey_all [] d = d
  obey_all (c ∷ cs) d = obey_all cs (obey c d)

  obey-Stays : (c : Command F) (d : Debugger X F) → IsWithin d → Stays d (obey c d)
  unfolding obey play pause toggle_pause toggle_breakpoint set_breakpoint clear_breakpoint
      clear_all_breakpoints jump_to_timestamp find_event_by_type find_event_by_service set_speed
  obey-Stays Command.next_command d h = next-Stays d h
  obey-Stays Command.previous_command d h = previous-Stays d h
  obey-Stays Command.play_command d h = (refl, h.0, h.1)
  obey-Stays Command.pause_command d h = (refl, h.0, h.1)
  obey-Stays Command.toggle_pause_command d h = (refl, h.0, h.1)
  obey-Stays (Command.jump_command i) d h = jump_to-Stays i d h
  obey-Stays (Command.toggle_command i) d h = (refl, h.0, h.1)
  obey-Stays (Command.set_command i) d h = (refl, h.0, h.1)
  obey-Stays (Command.clear_command i) d h = (refl, h.0, h.1)
  obey-Stays Command.clear_all_command d h = (refl, h.0, h.1)
  obey-Stays (Command.time_command t) d h =
      arrive-Stays (timestamp_not_found t) (first_at t d.events 0) d
        (first_at-IsBelow t d.events 0 (length d.events) (omega arith)) h
  obey-Stays (Command.type_command k f) d h =
      let p = λ (e : Event X). str_eq e.kind k in
      arrive-Stays (kind_not_found k) (search p f d) d (search-IsBelow p f d) h
  obey-Stays (Command.service_command k f) d h =
      let p = λ (e : Event X). str_eq e.service k in
      arrive-Stays (service_not_found k) (search p f d) d (search-IsBelow p f d) h
  obey-Stays (Command.speed_command s) d h = (refl, h.0, h.1)

  Stays-trans : (d d' d'' : Debugger X F) → Stays d d' → Stays d' d'' → Stays d d''
  Stays-trans d d' d'' (same, bottom, top) (same', low, high') =
      (same' ∙ same, low, subst (λ es. d''.current_index ≤ℤ pos (length es)) same high')

  obey_all-Stays : (cs : List (Command F)) (d : Debugger X F) → IsWithin d → Stays d (obey_all cs d)
  unfolding obey_all
  obey_all-Stays [] d h = (refl, h.0, h.1)
  obey_all-Stays (c ∷ cs) d h =
      let (same, low, high) = obey-Stays c d h in
      Stays-trans d (obey c d) (obey_all cs (obey c d)) (same, low, high)
        (obey_all-Stays cs (obey c d)
          (low, subst (λ es. (obey c d).current_index ≤ℤ pos (length es)) (sym same) high))

  -- From a new debugger, whatever methods are called and in whatever order, the recording stays the
  -- one given, the index is not negative and at most the number of events, and neither Next nor
  -- Previous then indexes the recording out of range.
  pub obey_all_bounds :
      (es : List (Event X)) (speed : F) (cs : List (Command F)) (k : ℤ)
      → let d = obey_all cs (new_debugger es speed) in
        (d.events ≡ es)
        × (pos 0 ≤ℤ d.current_index)
        × (d.current_index ≤ℤ pos (length es))
        × ((next d).0 ≢ err (out_of_range k))
        × ((previous d).0 ≢ err (out_of_range k))
  unfolding new_debugger
  obey_all_bounds es speed cs k =
      let d = obey_all cs (new_debugger es speed) in
      let (same, low, high) =
        obey_all-Stays cs (new_debugger es speed) (omega arith, omega arith) in
      let within : IsWithin d =
        (low, subst (λ l. d.current_index ≤ℤ pos (length l)) (sym same) high) in
      (same, low, high, next-bounded d k within, previous-bounded d k within)

module _ {X F : Type 0} where
  -- JumpTo an index of the recording returns the event there, but the current event afterwards is
  -- the one before it, and none at index 0.
  pub jump_to-get_current_event :
      (d : Debugger X F) (i : ℕ) (e : Event X)
      → get_elem? d.events i ≡ some e
      → ((jump_to (pos i) d).0 ≡ ok e)
        × (get_current_event (jump_to (pos i) d).1
            ≡ (if i == 0 then none else get_elem? d.events (i - 1)))
  unfolding jump_to
  jump_to-get_current_event d i e at =
      let there = record d { current_index = pos i } in
      let step : jump_to (pos i) d ≡ (ok e, there) = ground arith in
      (
        ap (λ r. r.0) step,
        ap (λ r. get_current_event r.1) step
            ∙ current_at there i refl (omega (arith, get_elem?-lt d.events i e at)),
      )
