-- ===== src/Replay/Page.antt =====
-- packages/cli/cmd/replay/exporter.go: the page of a recording, line by line.
use sentra_lab.Base.{String, ◌<>◌, Option, none, some, List, [], ◌∷◌, length, lines}
use sentra_lab.Replay.Recordings.{RecordedEvent, Recording, Formats}

module _ {F : Type 0} (fmt : Formats F) where
  abbrev pub error_class : Option String → String
  error_class none = ""
  error_class (some e) = " error"

  unfoldable pub event_html : RecordedEvent F → String
  event_html e =
      "\n        <div class=\"event"
      <> error_class e.error
      <> "\">\n"
      <> "            <div class=\"event-header\">\n"
      <> "                <span>"
      <> e.summary
      <> "</span>\n"
      <> "                <span class=\"timestamp\">"
      <> fmt.clock e.timestamp
      <> "</span>\n"
      <> "            </div>\n"
      <> "            <div class=\"event-details\">\n"
      <> "                Service: "
      <> e.service
      <> " | Type: "
      <> e.kind
      <> " | Duration: "
      <> fmt.duration e.duration
      <> "\n"
      <> "            </div>\n"
      <> "        </div>"

  unfoldable pub generate_event_timeline : List (RecordedEvent F) → String
  unfolding event_html
  generate_event_timeline [] = ""
  generate_event_timeline (e ∷ es) = event_html e <> generate_event_timeline es

  -- The page up to its body.
  unfoldable pub html_head : Recording F → String
  unfolding lines
  html_head r = lines (
      "<!DOCTYPE html>"
      ∷ "<html>"
      ∷ "<head>"
      ∷ "    <meta charset=\"UTF-8\">"
      ∷ ("    <title>Replay: " <> r.scenario <> "</title>")
      ∷ "    <style>"
      ∷ "        body {"
      ∷ "            font-family: system-ui, -apple-system, sans-serif;"
      ∷ "            max-width: 1200px;"
      ∷ "            margin: 0 auto;"
      ∷ "            padding: 20px;"
      ∷ "            background: #f5f5f5;"
      ∷ "        }"
      ∷ "        .header {"
      ∷ "            background: white;"
      ∷ "            padding: 20px;"
      ∷ "            border-radius: 8px;"
      ∷ "            margin-bottom: 20px;"
      ∷ "            box-shadow: 0 1px 3px rgba(0,0,0,0.1);"
      ∷ "        }"
      ∷ "        .header h1 {"
      ∷ "            margin: 0 0 10px 0;"
      ∷ "            color: #333;"
      ∷ "        }"
      ∷ "        .metadata {"
      ∷ "            display: grid;"
      ∷ "            grid-template-columns: repeat(auto-fit, minmax(200px, 1fr));"
      ∷ "            gap: 10px;"
      ∷ "            color: #666;"
      ∷ "            font-size: 14px;"
      ∷ "        }"
      ∷ "        .timeline {"
      ∷ "            background: white;"
      ∷ "            padding: 20px;"
      ∷ "            border-radius: 8px;"
      ∷ "            box-shadow: 0 1px 3px rgba(0,0,0,0.1);"
      ∷ "        }"
      ∷ "        .event {"
      ∷ "            padding: 15px;"
      ∷ "            border-left: 3px solid #3b82f6;"
      ∷ "            margin-bottom: 10px;"
      ∷ "            background: #f9fafb;"
      ∷ "            border-radius: 4px;"
      ∷ "        }"
      ∷ "        .event.error {"
      ∷ "            border-left-color: #ef4444;"
      ∷ "        }"
      ∷ "        .event-header {"
      ∷ "            display: flex;"
      ∷ "            justify-content: space-between;"
      ∷ "            font-weight: 500;"
      ∷ "            margin-bottom: 5px;"
      ∷ "        }"
      ∷ "        .event-details {"
      ∷ "            font-size: 14px;"
      ∷ "            color: #666;"
      ∷ "        }"
      ∷ "        .timestamp {"
      ∷ "            color: #9ca3af;"
      ∷ "            font-family: monospace;"
      ∷ "        }"
      ∷ "    </style>"
      ∷ [])

  unfoldable pub generate_html : Recording F → String
  unfolding lines html_head generate_event_timeline
  generate_html r =
      html_head r
      <> lines (
          "</head>"
          ∷ "<body>"
          ∷ "    <div class=\"header\">"
          ∷ "        <h1>Test Run Replay</h1>"
          ∷ "        <div class=\"metadata\">"
          ∷ ("            <div><strong>Scenario:</strong> " <> r.scenario <> "</div>")
          ∷ ("            <div><strong>Status:</strong> " <> r.status <> "</div>")
          ∷ ("            <div><strong>Duration:</strong> " <> fmt.duration r.duration <> "</div>")
          ∷ ("            <div><strong>Events:</strong> "
              <> fmt.number (length r.events)
              <> "</div>")
          ∷ "        </div>"
          ∷ "    </div>"
          ∷ "    <div class=\"timeline\">"
          ∷ "        <h2>Event Timeline</h2>"
          ∷ ("        " <> generate_event_timeline r.events)
          ∷ "    </div>"
          ∷ "</body>"
          ∷ [])
      <> "</html>"
