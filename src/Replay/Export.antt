-- ===== src/Replay/Export.antt =====
-- packages/cli/cmd/replay/exporter.go: the exporter, and the list that it writes as markdown. JSON is a
-- parameter.
use sentra_lab.Base.{
  ℕ, ◌+◌, ltb, String, ◌<>◌, Option, none, some, List, [], ◌∷◌, length, if◌then◌else◌, str_eq,
  Value,
}
use sentra_lab.Base.Files.{FileSystem}
use sentra_lab.Replay.Recordings.{RecordedEvent, Recording, Formats}
use sentra_lab.Replay.Page.{generate_html}
use sentra_lab.Replay.Har.{convert_to_har}

pub record Exporter : Type 0 where
  pub output_path : String
  pub format : String

pub data ExportError : Type 0 where
  unsupported_format : String → ExportError
  failed_to_marshal failed_to_write : ExportError

-- `ext` is the extension of a path, in lower case.
unfoldable pub new_exporter : (String → String) → String → Exporter
new_exporter ext output_path =
    let e = ext output_path in
    record {
      output_path = output_path;
      format =
          if str_eq e ".json"
          then "json"
          else if str_eq e ".html"
          then "html"
          else if str_eq e ".har"
          then "har"
          else if str_eq e ".md"
          then "markdown"
          else "json";
    }

module _ {F : Type 0} (fmt : Formats F) where
  abbrev pub error_line : Option String → String
  error_line none = ""
  error_line (some e) = "   - Error: " <> e <> "\n"

  abbrev pub icon_of : Option String → String
  icon_of none = "•"
  icon_of (some e) = "❌"

  unfoldable pub event_markdown : ℕ → RecordedEvent F → String
  event_markdown i e =
      fmt.number (i + 1)
      <> ". "
      <> icon_of e.error
      <> " **["
      <> fmt.clock e.timestamp
      <> "]** "
      <> e.summary
      <> "\n   - Service: "
      <> e.service
      <> "\n   - Type: "
      <> e.kind
      <> "\n   - Duration: "
      <> fmt.duration e.duration
      <> "\n"
      <> (if ltb 0 e.tokens_used then "   - Tokens: " <> fmt.number e.tokens_used <> "\n" else "")
      <> (if fmt.is_positive e.cost_usd then "   - Cost: $" <> fmt.cost e.cost_usd <> "\n" else "")
      <> error_line e.error
      <> "\n"

  unfoldable pub events_markdown : ℕ → List (RecordedEvent F) → String
  unfolding event_markdown
  events_markdown i [] = ""
  events_markdown i (e ∷ es) = event_markdown i e <> events_markdown (i + 1) es

  unfoldable pub generate_markdown : Recording F → String
  unfolding events_markdown
  generate_markdown r =
      "# Test Run: "
      <> r.scenario
      <> "\n\n**Status:** "
      <> r.status
      <> "\n**Started:** "
      <> fmt.date_time r.started_at
      <> "\n**Duration:** "
      <> fmt.duration r.duration
      <> "\n**Events:** "
      <> fmt.number (length r.events)
      <> "\n\n## Event Timeline\n\n"
      <> events_markdown 0 r.events

  -- The text of a format: none is an unsupported one, and the inner none a failure of JSON.
  unfoldable pub render_as :
      (Recording F → Option String)
      → (Value F → Option String)
      → String
      → Recording F
      → Option (Option String)
  unfolding generate_markdown
  render_as marshal_recording marshal_har format r =
      if str_eq format "json"
      then some (marshal_recording r)
      else if str_eq format "html"
      then some (some (generate_html fmt r))
      else if str_eq format "har"
      then some (marshal_har (convert_to_har fmt r))
      else if str_eq format "markdown"
      then some (some (generate_markdown r))
      else none

  unfoldable pub export :
      {W : Type 0}
      → FileSystem W
      → (Recording F → Option String)
      → (Value F → Option String)
      → Exporter
      → Recording F
      → W
      → Option ExportError × W
  unfolding render_as
  export fs marshal_recording marshal_har e r w =
      elim (render_as marshal_recording marshal_har e.format r) [
        | none ↦ (some (unsupported_format e.format), w)
        | some none ↦ (some failed_to_marshal, w)
        | some (some text) ↦
            let (done, w') = fs.write e.output_path text w in
            ((if done then none else some failed_to_write), w')
      ]
