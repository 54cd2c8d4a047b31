-- ===== src/Replay/Har.antt =====
-- packages/cli/cmd/replay/exporter.go: the HTTP archive of a recording.
use sentra_lab.Base.{
  ℕ, ◌/◌, ◌<>◌, Bool, ◌||◌, List, [], ◌∷◌, if◌then◌else◌, str_eq, pos, Value, Items, last, item,
  Table, empty, entry, str, int, items, table,
}
use sentra_lab.Replay.Recordings.{RecordedEvent, Recording, Formats}

module _ {F : Type 0} (fmt : Formats F) where
  -- Milliseconds of a number of nanoseconds.
  abbrev pub milliseconds : ℕ → Value F
  milliseconds d = int (pos (d / 1000000))

  unfoldable pub har_request : RecordedEvent F → Table F
  har_request e = entry "method" (str "POST") (
      entry "url" (str ("http://localhost/" <> e.service)) (
        entry "httpVersion" (str "HTTP/1.1") (
          entry "headers" (items last)
            (entry "queryString" (items last) (entry "postData" e.request empty)))))

  unfoldable pub har_response : RecordedEvent F → Table F
  har_response e = entry "status" (int (pos 200)) (
      entry "statusText" (str "OK") (
        entry "httpVersion" (str "HTTP/1.1")
          (entry "headers" (items last) (entry "content" e.response empty))))

  unfoldable pub har_entry : RecordedEvent F → Value F
  unfolding har_request har_response
  har_entry e = table (
      entry "startedDateTime" (str (fmt.iso e.timestamp)) (
        entry "time" (milliseconds e.duration) (
          entry "request" (table (har_request e)) (
            entry "response" (table (har_response e)) (
              entry "cache" (table empty) (
                entry "timings"
                  (table
                    (entry "wait" (int (pos 0)) (entry "receive" (milliseconds e.duration) empty)))
                  empty))))))

  abbrev pub is_http : RecordedEvent F → Bool
  is_http e = str_eq e.kind "http_request" || str_eq e.kind "http_response"

  unfoldable pub har_entries : List (RecordedEvent F) → Items F
  unfolding har_entry
  har_entries [] = last
  har_entries (e ∷ es) =
      let rest = har_entries es in if is_http e then item (har_entry e) rest else rest

  unfoldable pub convert_to_har : Recording F → Value F
  unfolding har_entries
  convert_to_har r = table (
      entry "log"
        (table (
          entry "version" (str "1.2") (
            entry "creator"
              (table (entry "name" (str "Sentra Lab") (entry "version" (str "1.0.0") empty)))
              (entry "entries" (items (har_entries r.events)) empty))))
        empty)
