-- ===== src/Ui/Spinning.antt =====
-- packages/cli/internal/ui: spinners, counters and the index of the replay model.
use sentra_lab.Base.{
  ℕ, zero, suc, ◌+◌, ◌≤◌, ◌<◌, String, ◌<>◌, ◌≡◌, refl, ◌∙◌, some, List, [], ◌∷◌, length,
  get_elem?-total, arith, Bool-cases, inl, inr,
}
use sentra_lab.Ui.{Styles}
use sentra_lab.Ui.Models.{
  SpinnerModel, new_spinner, spin, render_spinner, ReplayModel, key, update_replay, press,
  ScenarioProgress, TestProgressModel, Counts, count_one, count_scenarios, view_counts,
}

abbrev pub spin_times : ℕ → SpinnerModel → SpinnerModel
spin_times zero s = s
spin_times (suc n) s = spin_times n (spin s)

spin_times-bounds :
    (n : ℕ) (s : SpinnerModel)
    → length s.frames ≡ 10
    → s.frame < 10
    → (length (spin_times n s).frames ≡ 10) × ((spin_times n s).frame < 10)
unfolding spin
spin_times-bounds zero s ten within = (ten, within)
spin_times-bounds (suc n) s ten within = spin_times-bounds n (spin s) ten (rw ten (omega arith))

-- However often a spinner ticks, its frame is one of its frames: Render does not panic.
pub spin_times-render :
    (styles : Styles) (message : String) (n : ℕ)
    → (t : String) × (render_spinner styles (spin_times n (new_spinner message)) ≡ some t)
unfolding render_spinner new_spinner
spin_times-render styles message n =
    let s = spin_times n (new_spinner message) in
    let (ten, within) = spin_times-bounds n (new_spinner message) refl (omega arith) in
    let (frame, found) = get_elem?-total s.frames s.frame (omega (arith, ten, within)) in
    elim (Bool-cases s.done) [
      | inl done ↦ (styles.success ("✓ " <> s.message), rw (done, render_spinner) refl)
      | inr going ↦ (styles.info frame <> " " <> s.message, rw (going, found, render_spinner) refl)
    ]

count_one-bounds :
    (status : String) (c : Counts) (n : ℕ)
    → c.failed ≤ c.completed
    → c.completed + c.running ≤ n
    → ((count_one status c).failed ≤ (count_one status c).completed)
      × ((count_one status c).completed + (count_one status c).running ≤ n + 1)
unfolding count_one
count_one-bounds status c n few most = ground arith

module _ {F : Type 0} where
  count_scenarios-bounds :
      (ss : List (ScenarioProgress F)) (c : Counts) (n : ℕ)
      → c.failed ≤ c.completed
      → c.completed + c.running ≤ n
      → ((count_scenarios ss c).failed ≤ (count_scenarios ss c).completed)
        × ((count_scenarios ss c).completed + (count_scenarios ss c).running ≤ n + length ss)
  unfolding count_scenarios
  count_scenarios-bounds [] c n few most = (few, omega (arith, most))
  count_scenarios-bounds (s ∷ ss) c n few most =
      let (few', most') = count_one-bounds s.status c n few most in
      let (fewer, mostly) = count_scenarios-bounds ss (count_one s.status c) (n + 1) few' most' in
      (fewer, omega (arith, mostly))

  -- Of the counts that View shows, the failed scenarios are among the completed ones, and those that
  -- are completed or running are at most as many as there are.
  pub view_counts-bounds :
      (m : TestProgressModel F)
      → ((view_counts m).failed ≤ (view_counts m).completed)
        × ((view_counts m).completed + (view_counts m).running ≤ length m.scenarios)
  unfolding view_counts
  view_counts-bounds m =
      let (few, most) =
        count_scenarios-bounds m.scenarios (record { completed = 0; running = 0; failed = 0 }) 0
          (omega arith) (omega arith) in
      (few, omega (arith, most))

  abbrev pub rights : ℕ → ReplayModel F → ReplayModel F
  rights zero m = m
  rights (suc n) m = rights n (update_replay (key "right") m).0

  -- The key for the next event moves the index by one each time, past the end of any recording.
  pub rights-current_idx :
      (n : ℕ) (m : ReplayModel F) → (rights n m).current_idx ≡ m.current_idx + n
  unfolding update_replay press
  rights-current_idx zero m = omega arith
  rights-current_idx (suc n) m =
      rights-current_idx n (update_replay (key "right") m).0 ∙ omega arith
