-- ===== src/Tests/ReplayTests.antt =====
-- The debugger of recordings at concrete inputs.
use sentra_lab.Base.{
  ℕ, String, ◌≡◌, refl, true, false, Option, none, some, List, [], ◌∷◌, pos, ok, err, str_eq, ℤ,
  ◌≤ℤ◌, ◌≢◌,
}
use sentra_lab.Base.Float64.{whole_float64}
use sentra_lab.Replay.Debugger.{
  Debugger, Event, TimelineEntry, kind_not_found, new_debugger, jump_to, arrive, find_event_by_type,
  get_current_event, scan_up, scan_down, next, previous, out_of_range,
}
use sentra_lab.Replay.Debugger.Moves.{Command, obey_all, obey_all_bounds, jump_to-get_current_event}
use sentra_lab.Replay.Debugger.Search.{FirstFrom, LastFrom, find_event_by_type-finds}

abbrev event_of : String → ℕ → String → Event ℕ
event_of id t k = record {
  id = id;
  timestamp = t;
  kind = k;
  service = "openai";
  summary = k;
  request = some t;
  response = none;
  snapshot = none;
}

abbrev three_events : List (Event ℕ)
three_events = event_of "a" 10 "call" ∷ event_of "b" 20 "error" ∷ event_of "c" 30 "call" ∷ []

abbrev debugger_at : ℤ → Debugger ℕ ℕ
debugger_at i = record {
  events = three_events;
  current_index = i;
  breakpoints = λ j. false;
  paused = true;
  speed = 1;
}

finds_second_call :
    (find_event_by_type "call" true (debugger_at (pos 1))).0 ≡ ok (event_of "c" 30 "call")
unfolding find_event_by_type scan_up
finds_second_call = refl

finds_back :
    (find_event_by_type "error" false (debugger_at (pos 2))).0 ≡ ok (event_of "b" 20 "error")
unfolding find_event_by_type scan_down
finds_back = refl

abbrev some_commands : List (Command ℕ)
some_commands =
    Command.next_command
    ∷ Command.time_command 25
    ∷ Command.previous_command
    ∷ Command.speed_command 3
    ∷ []

obey_all_bounds_example :
    let d = obey_all some_commands (new_debugger three_events 1) in
    (d.events ≡ three_events)
    × (pos 0 ≤ℤ d.current_index)
    × (d.current_index ≤ℤ pos 3)
    × ((next d).0 ≢ err (out_of_range (pos 3)))
    × ((previous d).0 ≢ err (out_of_range (pos 3)))
obey_all_bounds_example = obey_all_bounds three_events 1 some_commands (pos 3)

jump_to-get_current_event_example :
    ((jump_to (pos 2) (debugger_at (pos 0))).0 ≡ ok (event_of "c" 30 "call"))
    × (get_current_event (jump_to (pos 2) (debugger_at (pos 0))).1 ≡ some (event_of "b" 20 "error"))
jump_to-get_current_event_example =
    jump_to-get_current_event (debugger_at (pos 0)) 2 (event_of "c" 30 "call") refl

find_event_by_type-finds_example :
    let passes = λ (e : Event ℕ). str_eq e.kind "call" in
    let d = debugger_at (pos 1) in
    ((r : Option (ℕ × Event ℕ)) × FirstFrom passes d.events d.current_index r
      × (find_event_by_type "call" true d ≡ arrive (kind_not_found "call") r d))
    × ((r : Option (ℕ × Event ℕ)) × LastFrom passes d.events d.current_index r
        × (find_event_by_type "call" false d ≡ arrive (kind_not_found "call") r d))
find_event_by_type-finds_example = find_event_by_type-finds "call" (debugger_at (pos 1))

abbrev second_entry : TimelineEntry
second_entry = record {
  index = 1;
  timestamp = 20;
  kind = "error";
  service = "openai";
  summary = "error";
  current = true;
  breakpoint = false;
}
