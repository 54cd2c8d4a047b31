-- ===== src/Replay/Debugger.antt =====
-- packages/cli/cmd/replay/debugger.go: the debugger over a recording. An `int`, the current index
-- included, is an integer of ℤ; where an index out of range makes Go panic, the result is the error
-- `out_of_range`.
-- `X` stands for the contents of type `interface{}`. Of an event the fields that the debugger never
-- reads (duration, tokens, cost, error) are left out.
pub mod Marks
pub mod Moves
pub mod Repeats
pub mod Search
pub mod Steps
use sentra_lab.Base.{
  ℕ, zero, suc, ◌+◌, ◌-◌, String, Bool, true, false, not, ◌||◌, Option, none, some, List, [], ◌∷◌,
  if◌then◌else◌, str_eq, ltb, ◌==◌, ℤ, pos, negsuc, eqb_ℤ, leb_ℤ, ltb_ℤ, ◌+ℤ◌, ◌-ℤ◌, Dict, Result,
  ok, err, length, get_elem?,
}
use sentra_lab.Base.Float64.{Float64}
use sentra_lab.Store.{Time}

pub record StateSnapshot (X : Type 0) : Type 0 where
  pub timestamp : Time
  pub values : Dict X

pub record Event (X : Type 0) : Type 0 where
  pub id : String
  pub timestamp : Time
  pub kind : String
  pub service : String
  pub summary : String
  pub request : Option X
  pub response : Option X
  pub snapshot : Option (StateSnapshot X)

pub record Debugger (X F : Type 0) : Type 0 where
  pub events : List (Event X)
  pub current_index : ℤ
  -- the map from indices to true
  pub breakpoints : ℤ → Bool
  pub paused : Bool
  pub speed : F

pub record TimelineEntry : Type 0 where
  pub index : ℕ
  pub timestamp : Time
  pub kind : String
  pub service : String
  pub summary : String
  pub current : Bool
  pub breakpoint : Bool

pub data DebugError : Type 0 where
  end_of_recording start_of_recording : DebugError
  invalid_index : ℤ → DebugError
  timestamp_not_found : Time → DebugError
  kind_not_found service_not_found : String → DebugError
  -- Go's panic
  out_of_range : ℤ → DebugError

-- m[i] = v, and with v = false also delete(m, i)
unfoldable pub mark : ℤ → Bool → (ℤ → Bool) → ℤ → Bool
mark i v m j = if eqb_ℤ i j then v else m j

module _ {X : Type 0} where
  -- recording.Events[i], or none where Go panics
  abbrev pub event_at : List (Event X) → ℤ → Option (Event X)
  event_at es (pos i) = get_elem? es i
  event_at es (negsuc n) = none

  -- The first event from index i on that passes, within n steps.
  unfoldable pub scan_up : (Event X → Bool) → List (Event X) → ℕ → ℕ → Option (ℕ × Event X)
  scan_up p es zero i = none
  scan_up p es (suc n) i =
      let rest = scan_up p es n (i + 1) in
      elim (get_elem? es i) [ none ↦ none | some e ↦ if p e then some (i, e) else rest ]

  -- The last event up to index i that passes; the loop starts only inside the recording.
  unfoldable pub scan_down : (Event X → Bool) → List (Event X) → ℕ → Option (ℕ × Event X)
  scan_down p es zero = elim (get_elem? es 0) [
    | none ↦ none
    | some e ↦ if p e then some (0, e) else none
  ]
  scan_down p es (suc i) =
      let rest = scan_down p es i in
      elim (get_elem? es (suc i)) [ none ↦ none | some e ↦ if p e then some (suc i, e) else rest ]

  -- The first event of the list at the time or later, and its index from i on.
  unfoldable pub first_at : Time → List (Event X) → ℕ → Option (ℕ × Event X)
  first_at t [] i = none
  first_at t (e ∷ es) i =
      let rest = first_at t es (i + 1) in
      if ltb t e.timestamp || e.timestamp == t then some (i, e) else rest

  -- The loop of FindEventByType and of FindEventByService, from an index on.
  unfoldable pub search_from : (Event X → Bool) → Bool → List (Event X) → ℤ → Option (ℕ × Event X)
  search_from p true es (pos i) = scan_up p es (length es - i) i
  search_from p false es (pos i) = scan_down p es i
  search_from p true es (negsuc n) = none
  search_from p false es (negsuc n) = none

module _ {X F : Type 0} where
  unfoldable pub new_debugger : List (Event X) → F → Debugger X F
  new_debugger es speed = record {
    events = es;
    current_index = pos 0;
    breakpoints = λ i. false;
    paused = true;
    speed = speed;
  }

  unfoldable pub advanced :
      Option (Event X) → Debugger X F → Result DebugError (Event X) × Debugger X F
  advanced none d = (err (out_of_range d.current_index), d)
  advanced (some e) d =
      let i = d.current_index +ℤ pos 1 in
      (ok e, record d { current_index = i; paused = if d.breakpoints i then true else d.paused })

  unfoldable pub next : Debugger X F → Result DebugError (Event X) × Debugger X F
  unfolding advanced
  next d =
      if leb_ℤ (pos (length d.events)) d.current_index
      then (err end_of_recording, d)
      else advanced (event_at d.events d.current_index) d

  -- The event at the index that Previous has moved to.
  unfoldable pub stepped_back :
      Option (Event X) → Debugger X F → Result DebugError (Event X) × Debugger X F
  stepped_back none d = (err (out_of_range d.current_index), d)
  stepped_back (some e) d = (ok e, d)

  unfoldable pub previous : Debugger X F → Result DebugError (Event X) × Debugger X F
  unfolding stepped_back
  previous d =
      let i = d.current_index -ℤ pos 1 in
      if leb_ℤ d.current_index (pos 0)
      then (err start_of_recording, d)
      else stepped_back (event_at d.events i) (record d { current_index = i })

  unfoldable pub arrive :
      DebugError → Option (ℕ × Event X) → Debugger X F → Result DebugError (Event X) × Debugger X F
  arrive fail none d = (err fail, d)
  arrive fail (some (i, e)) d = (ok e, record d { current_index = pos i })

  unfoldable pub jump_to : ℤ → Debugger X F → Result DebugError (Event X) × Debugger X F
  jump_to (negsuc n) d = (err (invalid_index (negsuc n)), d)
  jump_to (pos i) d = elim (get_elem? d.events i) [
    | none ↦ (err (invalid_index (pos i)), d)
    | some e ↦ (ok e, record d { current_index = pos i })
  ]

  unfoldable pub jump_to_timestamp :
      Time → Debugger X F → Result DebugError (Event X) × Debugger X F
  unfolding arrive
  jump_to_timestamp t d = arrive (timestamp_not_found t) (first_at t d.events 0) d

  unfoldable pub search : (Event X → Bool) → Bool → Debugger X F → Option (ℕ × Event X)
  unfolding search_from
  search p forward d = search_from p forward d.events d.current_index

  unfoldable pub find_event_by_type :
      String → Bool → Debugger X F → Result DebugError (Event X) × Debugger X F
  unfolding arrive search
  find_event_by_type k forward d =
      arrive (kind_not_found k) (search (λ e. str_eq e.kind k) forward d) d

  unfoldable pub find_event_by_service :
      String → Bool → Debugger X F → Result DebugError (Event X) × Debugger X F
  unfolding arrive search
  find_event_by_service k forward d =
      arrive (service_not_found k) (search (λ e. str_eq e.service k) forward d) d

  unfoldable pub toggle_breakpoint : ℤ → Debugger X F → Debugger X F
  unfolding mark
  toggle_breakpoint i d = record d {
    breakpoints = if d.breakpoints i then mark i false d.breakpoints else mark i true d.breakpoints;
  }

  unfoldable pub set_breakpoint : ℤ → Debugger X F → Debugger X F
  unfolding mark
  set_breakpoint i d = record d { breakpoints = mark i true d.breakpoints }

  unfoldable pub clear_breakpoint : ℤ → Debugger X F → Debugger X F
  unfolding mark
  clear_breakpoint i d = record d { breakpoints = mark i false d.breakpoints }

  unfoldable pub clear_all_breakpoints : Debugger X F → Debugger X F
  clear_all_breakpoints d = record d { breakpoints = λ i. false }

  unfoldable pub play : Debugger X F → Debugger X F
  play d = record d { paused = false }

  unfoldable pub pause : Debugger X F → Debugger X F
  pause d = record d { paused = true }

  unfoldable pub toggle_pause : Debugger X F → Debugger X F
  toggle_pause d = record d { paused = not d.paused }

  unfoldable pub is_paused : Debugger X F → Bool
  is_paused d = d.paused

  unfoldable pub get_speed : Debugger X F → F
  get_speed d = d.speed

  unfoldable pub get_current_event : Debugger X F → Option (Event X)
  get_current_event d =
      if leb_ℤ d.current_index (pos 0) || ltb_ℤ (pos (length d.events)) d.current_index
      then none
      else event_at d.events (d.current_index -ℤ pos 1)

  unfoldable pub get_current_state : Debugger X F → Option (StateSnapshot X)
  get_current_state d = elim (get_current_event d) [ none ↦ none | some e ↦ e.snapshot ]

  unfoldable pub timeline_from : ℕ → List (Event X) → Debugger X F → List TimelineEntry
  timeline_from i [] d = []
  timeline_from i (e ∷ es) d =
      record {
        index = i;
        timestamp = e.timestamp;
        kind = e.kind;
        service = e.service;
        summary = e.summary;
        current = eqb_ℤ (pos i) (d.current_index -ℤ pos 1);
        breakpoint = d.breakpoints (pos i);
      }
      ∷ timeline_from (i + 1) es d

  unfoldable pub get_timeline : Debugger X F → List TimelineEntry
  unfolding timeline_from
  get_timeline d = timeline_from 0 d.events d

module _ {F : Type 0} ⦃fl : Float64 F⦄ where
  -- 0.1 and 10.0
  unfoldable pub slowest : F
  slowest = fl.div (fl.of_int (pos 1)) (fl.of_int (pos 10))

  unfoldable pub clamp_speed : F → F
  unfolding slowest
  clamp_speed s =
      let raised = if fl.lt s slowest then slowest else s in
      if fl.lt (fl.of_int (pos 10)) raised then fl.of_int (pos 10) else raised

module _ {X F : Type 0} ⦃fl : Float64 F⦄ where
  unfoldable pub set_speed : F → Debugger X F → Debugger X F
  set_speed s d = record d { speed = clamp_speed s }

  unfoldable pub get_progress : Debugger X F → F
  get_progress d =
      if length d.events == 0
      then fl.of_int (pos 0)
      else fl.div (fl.of_int d.current_index) (fl.of_int (pos (length d.events)))
