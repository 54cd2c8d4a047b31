-- ===== src/Replay/Recordings.antt =====
-- packages/cli/cmd/replay: recordings, as the exporter reads them. How times, durations and numbers are
-- printed are parameters; the error of an event is its text.
use sentra_lab.Base.{ℕ, String, Bool, Option, List, Value}

-- Of Event, what the exporter reads.
pub record RecordedEvent (F : Type 0) : Type 0 where
  pub timestamp : ℕ
  pub kind : String
  pub service : String
  pub summary : String
  pub request : Value F
  pub response : Value F
  pub duration : ℕ
  pub tokens_used : ℕ
  pub cost_usd : F
  pub error : Option String

pub record Recording (F : Type 0) : Type 0 where
  pub scenario : String
  pub started_at : ℕ
  pub duration : ℕ
  pub status : String
  pub events : List (RecordedEvent F)

-- time.Format in its three layouts, a duration as %s, %d, and $%.4f with its test for a cost above 0.
pub record Formats (F : Type 0) : Type 0 where
  pub clock : ℕ → String
  pub iso : ℕ → String
  pub date_time : ℕ → String
  pub duration : ℕ → String
  pub number : ℕ → String
  pub cost : F → String
  pub is_positive : F → Bool
