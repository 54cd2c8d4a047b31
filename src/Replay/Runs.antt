-- ===== src/Replay/Runs.antt =====
-- packages/cli/cmd/replay/replay.go: which run the replay command takes and what it does with it. What
-- the engine lists and records is a parameter; times are numbers of nanoseconds.
use sentra_lab.Base.{
  ℕ, zero, suc, ℤ, pos, negsuc, ◌/◌, ltb, String, ◌<>◌, Bool, List, [], ◌∷◌, if◌then◌else◌, str_eq,
  Result, ok, err,
}

pub record ReplayCommand : Type 0 where
  pub list : Bool
  pub compare : String
  pub export : String

pub record RunSummary : Type 0 where
  pub id : String
  pub scenario : String
  pub status : String
  pub completed_at : ℕ

-- The error of the engine, and that no run failed.
pub data RunError (E : Type 0) : Type 0 where
  engine_error : E → RunError E
  no_failed_runs : RunError E

-- What RunE goes on to do.
pub data Action : Type 0 where
  list_runs : Action
  export_run : String → String → Action
  compare_runs : String → String → Action
  replay_interactive : String → Action

module _ {E : Type 0} where
  unfoldable pub first_failed : List RunSummary → Result (RunError E) String
  first_failed [] = err no_failed_runs
  first_failed (run ∷ runs) =
      let rest = first_failed runs in if str_eq run.status "failed" then ok run.id else rest

  -- Of the last 50 runs, or the error that listing them gave.
  unfoldable pub get_last_failed_run : Result E (List RunSummary) → Result (RunError E) String
  unfolding first_failed
  get_last_failed_run (err e) = err (engine_error e)
  get_last_failed_run (ok runs) = first_failed runs

  unfoldable pub choose_run : List String → Result E (List RunSummary) → Result (RunError E) String
  unfolding get_last_failed_run
  choose_run [] runs = get_last_failed_run runs
  choose_run (run_id ∷ args) runs = ok run_id

unfoldable pub act_on : ReplayCommand → String → Action
act_on rc run_id =
    if str_eq rc.export ""
    then (if str_eq rc.compare ""
        then replay_interactive run_id
        else compare_runs run_id rc.compare)
    else export_run run_id rc.export

unfoldable pub run_e :
    {E : Type 0}
    → ReplayCommand
    → List String
    → Result E (List RunSummary)
    → Result (RunError E) Action
unfolding choose_run act_on
run_e rc args runs =
    if rc.list
    then ok list_runs
    else elim (choose_run args runs) [ err e ↦ err e | ok run_id ↦ ok (act_on rc run_id) ]

-- -n
abbrev pub negated : ℕ → ℤ
negated zero = pos 0
negated (suc n) = negsuc n

-- Of the nanoseconds since a time, which is in the future where they are negative; `number` is %d.
unfoldable pub format_time_ago : (ℤ → String) → ℤ → String
format_time_ago number (negsuc n) = number (negated (suc n / 1000000000)) <> " seconds ago"
format_time_ago number (pos d) =
    let seconds = d / 1000000000 in
    if ltb seconds 60
    then number (pos seconds) <> " seconds ago"
    else if ltb seconds 3600
    then number (pos (seconds / 60)) <> " minutes ago"
    else if ltb seconds 86400
    then number (pos (seconds / 3600)) <> " hours ago"
    else number (pos (seconds / 86400)) <> " days ago"
