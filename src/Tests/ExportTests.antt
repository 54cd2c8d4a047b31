-- ===== src/Tests/ExportTests.antt =====
-- Exports and the choice of a run at concrete inputs.
use sentra_lab.Base.{ℕ, String, ◌≡◌, ◌≢◌, refl, false, some, List, [], ◌∷◌, pos}
use sentra_lab.Replay.Recordings.{Recording, Formats}
use sentra_lab.Replay.Export.{new_exporter, export, unsupported_format}
use sentra_lab.Replay.Runs.{RunSummary, get_last_failed_run, format_time_ago}
use sentra_lab.Replay.Exported.{IsLastFailed, get_last_failed_run-IsLastFailed, export-new_exporter}
use sentra_lab.Tests.Files.{disk}

abbrev summary_of : String → String → RunSummary
summary_of id status = record { id = id; scenario = "s"; status = status; completed_at = 0 }

abbrev three_runs : List RunSummary
three_runs = summary_of "a" "passed" ∷ summary_of "b" "failed" ∷ summary_of "c" "failed" ∷ []

get_last_failed_run-IsLastFailed_example : IsLastFailed three_runs "b"
unfolding get_last_failed_run
get_last_failed_run-IsLastFailed_example =
    get_last_failed_run-IsLastFailed {E = ℕ} three_runs "b" refl

abbrev plain_formats : Formats ℕ
plain_formats = record {
  clock = λ t. "";
  iso = λ t. "";
  date_time = λ t. "";
  duration = λ d. "";
  number = λ n. "";
  cost = λ x. "";
  is_positive = λ x. false;
}

abbrev empty_recording : Recording ℕ
empty_recording = record {
  scenario = "s";
  started_at = 0;
  duration = 0;
  status = "passed";
  events = [];
}

export-new_exporter_example :
    (export plain_formats disk
      (λ r. some "{}")
      (λ v. some "{}")
      (new_exporter (λ path. ".txt") "r.txt")
      empty_recording
      []).0
    ≢ some (unsupported_format "txt")
export-new_exporter_example =
    export-new_exporter plain_formats disk (λ r. some "{}") (λ v. some "{}") (λ path. ".txt")
      "r.txt" "txt" empty_recording []

two_hours_ago : format_time_ago (λ n. "2") (pos 7200000000000) ≡ "2 hours ago"
unfolding format_time_ago
two_hours_ago = refl
