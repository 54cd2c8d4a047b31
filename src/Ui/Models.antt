-- ===== src/Ui/Models.antt =====
-- packages/cli/internal/ui: the models of progress.go and spinner.go, and SpinnerModel of table.go. A
-- model gets a message and gives a command, as bubbletea asks; times are an argument.
use sentra_lab.Base.{
  ℕ, ◌+◌, ◌-◌, ◌%◌, String, ◌<>◌, Bool, true, false, not, ◌||◌, Option, none, some, List, [], ◌∷◌,
  length, get_elem?, if◌then◌else◌, str_eq,
}
use sentra_lab.Ui.{Styles}

-- tea.Msg and tea.Cmd, as the models use them.
pub data Message : Type 0 where
  resized : ℕ → ℕ → Message
  key : String → Message
  tick : Message

pub data Command : Type 0 where
  no_command quit next_tick : Command

pub record SpinnerModel : Type 0 where
  pub frames : List String
  pub frame : ℕ
  pub message : String
  pub done : Bool

unfoldable pub new_spinner : String → SpinnerModel
new_spinner message = record {
  frames = "⠋" ∷ "⠙" ∷ "⠹" ∷ "⠸" ∷ "⠼" ∷ "⠴" ∷ "⠦" ∷ "⠧" ∷ "⠇" ∷ "⠏" ∷ [];
  frame = 0;
  message = message;
  done = false;
}

unfoldable pub spin : SpinnerModel → SpinnerModel
spin s = record s { frame = (s.frame + 1) % length s.frames }

unfoldable pub set_done : SpinnerModel → SpinnerModel
set_done s = record s { done = true }

-- An index out of range, where Go panics, is none.
unfoldable pub render_spinner : Styles → SpinnerModel → Option String
render_spinner styles s =
    if s.done
    then some (styles.success ("✓ " <> s.message))
    else elim (get_elem? s.frames s.frame) [
      | none ↦ none
      | some frame ↦ some (styles.info frame <> " " <> s.message)
    ]

pub record ReplayModel (F : Type 0) : Type 0 where
  pub current_idx : ℕ
  pub paused : Bool
  pub speed : F
  pub step_mode : Bool
  pub breakpoint : String
  pub width : ℕ
  pub height : ℕ

pub record ComparisonModel : Type 0 where
  pub width : ℕ
  pub height : ℕ

abbrev pub is_quit : String → Bool
is_quit k = str_eq k "q" || str_eq k "ctrl+c"

module _ {F : Type 0} where
  unfoldable pub new_replay_model : F → Bool → String → ReplayModel F
  new_replay_model speed step_mode breakpoint = record {
    current_idx = 0;
    paused = step_mode;
    speed = speed;
    step_mode = step_mode;
    breakpoint = breakpoint;
    width = 0;
    height = 0;
  }

  -- An index of 0 stays where it is, as the subtraction of ℕ does.
  unfoldable pub press : String → ReplayModel F → ReplayModel F
  press k m =
      if str_eq k " "
      then record m { paused = not m.paused }
      else if str_eq k "left"
      then record m { current_idx = m.current_idx - 1 }
      else if str_eq k "right"
      then record m { current_idx = m.current_idx + 1 }
      else m

  unfoldable pub update_replay : Message → ReplayModel F → ReplayModel F × Command
  unfolding press
  update_replay (resized w h) m = (record m { width = w; height = h }, no_command)
  update_replay (key k) m = if is_quit k then (m, quit) else (press k m, no_command)
  update_replay tick m =
      (if m.paused then m else record m { current_idx = m.current_idx + 1 }, next_tick)

unfoldable pub update_comparison : Message → ComparisonModel → ComparisonModel × Command
update_comparison (resized w h) m = (record m { width = w; height = h }, no_command)
update_comparison (key k) m = (m, if is_quit k then quit else no_command)
update_comparison tick m = (m, no_command)

pub record ScenarioProgress (F : Type 0) : Type 0 where
  pub name : String
  pub status : String
  pub progress : F
  pub duration : ℕ
  pub cost : F

pub record TestProgressModel (F : Type 0) : Type 0 where
  pub scenarios : List (ScenarioProgress F)
  pub parallel : ℕ
  pub width : ℕ
  pub height : ℕ
  pub start_time : ℕ

-- What View counts.
pub record Counts : Type 0 where
  pub completed : ℕ
  pub running : ℕ
  pub failed : ℕ

unfoldable pub count_one : String → Counts → Counts
count_one status c =
    if str_eq status "running"
    then record c { running = c.running + 1 }
    else if str_eq status "passed"
    then record c { completed = c.completed + 1 }
    else if str_eq status "failed"
    then record c { completed = c.completed + 1; failed = c.failed + 1 }
    else c

module _ {F : Type 0} where
  unfoldable pub update_test : Message → TestProgressModel F → TestProgressModel F × Command
  update_test (resized w h) m = (record m { width = w; height = h }, no_command)
  update_test (key k) m = (m, if is_quit k then quit else no_command)
  update_test tick m = (m, next_tick)

  unfoldable pub pending : F → List String → List (ScenarioProgress F)
  pending zero_f [] = []
  pending zero_f (s ∷ ss) =
      record { name = s; status = "pending"; progress = zero_f; duration = 0; cost = zero_f }
      ∷ pending zero_f ss

  unfoldable pub new_test_progress_model : F → ℕ → List String → ℕ → TestProgressModel F
  unfolding pending
  new_test_progress_model zero_f now scenarios parallel = record {
    scenarios = pending zero_f scenarios;
    parallel = parallel;
    width = 0;
    height = 0;
    start_time = now;
  }

  -- The first scenario of the name is changed.
  unfoldable pub set_progress :
      ℕ → String → String → F → List (ScenarioProgress F) → List (ScenarioProgress F)
  set_progress elapsed scenario status progress [] = []
  set_progress elapsed scenario status progress (s ∷ ss) =
      let later = set_progress elapsed scenario status progress ss in
      if str_eq s.name scenario
      then record s {
        status = status;
        progress = progress;
        duration = if str_eq status "passed" || str_eq status "failed" then elapsed else s.duration;
      }
        ∷ ss
      else s ∷ later

  unfoldable pub update_progress :
      ℕ → String → String → F → TestProgressModel F → TestProgressModel F
  unfolding set_progress
  update_progress now scenario status progress m = record m {
    scenarios = set_progress (now - m.start_time) scenario status progress m.scenarios;
  }

  unfoldable pub count_scenarios : List (ScenarioProgress F) → Counts → Counts
  unfolding count_one
  count_scenarios [] c = c
  count_scenarios (s ∷ ss) c = count_scenarios ss (count_one s.status c)

  unfoldable pub view_counts : TestProgressModel F → Counts
  unfolding count_scenarios
  view_counts m = count_scenarios m.scenarios (record { completed = 0; running = 0; failed = 0 })
