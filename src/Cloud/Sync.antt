-- ===== src/Cloud/Sync.antt =====
-- packages/cli/cmd/cloud/sync.go: SyncClient. A warning in the log is left out.
use sentra_lab.Base.{
  ℕ, ◌+◌, ◌==◌, String, ◌<>◌, Bool, Option, none, some, List, [], ◌∷◌, if◌then◌else◌, contains,
  Result, ok, err,
}
use sentra_lab.Base.Files.{FileSystem}
use sentra_lab.Cloud.{
  CloudError, CloudRun, Http, Json, failed_to_read_metadata, failed_to_read_recording,
  failed_to_marshal, bad_request, request_failed, failed_to_decode, upload_failed, download_failed,
  list_failed, failed_to_create_directory, failed_to_write_metadata, failed_to_write_recording,
  failed_to_get_local_runs, failed_to_list_cloud_runs,
}

pub record SyncClient : Type 0 where
  pub token : String
  pub base_url : String

unfoldable pub new_sync_client : String → SyncClient
new_sync_client token = record { token = token; base_url = "https://api.sentra.dev/v1" }

pub record SyncStats : Type 0 where
  pub uploaded : ℕ
  pub downloaded : ℕ
  pub conflicts : ℕ

-- The names of the directories.
unfoldable pub directories : List (String × Bool) → List String
directories [] = []
directories ((name, is_dir) ∷ entries) =
    let rest = directories entries in if is_dir then name ∷ rest else rest

unfoldable pub ids : List CloudRun → List String
ids [] = []
ids (run ∷ runs) = run.id ∷ ids runs

module _ {W Request : Type 0} (fs : FileSystem W) (http : Http W Request) (json : Json)
    (join : String → String → String) where
  abbrev pub recording_path : String → String
  recording_path run_id = join (join ".sentra-lab" "recordings") run_id

  abbrev pub metadata_file : String → String
  metadata_file run_id = join (recording_path run_id) "metadata.json"

  abbrev pub recording_file : String → String
  recording_file run_id = join (recording_path run_id) "recording.zstd"

  -- An answer of a status other than the one that is wanted is an error with its body.
  unfoldable pub expect :
      ℕ → (String → ℕ → CloudError) → Option (ℕ × String) × W → Result CloudError String × W
  expect wanted failed (none, w) = (err request_failed, w)
  expect wanted failed (some (status, body), w) =
      if status == wanted then (ok body, w) else (err (failed body status), w)

  -- Both files of a run, as the payload.
  unfoldable pub read_payload : String → W → Result CloudError String
  read_payload run_id w = elim (fs.read (metadata_file run_id) w) [
    | none ↦ err failed_to_read_metadata
    | some metadata ↦ elim (fs.read (recording_file run_id) w) [
      | none ↦ err failed_to_read_recording
      | some recording ↦ elim (json.marshal_run run_id metadata recording) [
        | none ↦ err failed_to_marshal
        | some payload ↦ ok payload
      ]
    ]
  ]

  unfoldable pub posted : Result CloudError String × W → Option CloudError × W
  posted (ok body, w) = (none, w)
  posted (err e, w) = (some e, w)

  unfoldable pub push_run : SyncClient → String → W → Option CloudError × W
  unfolding read_payload expect posted
  push_run sc run_id w = elim (read_payload run_id w) [
    | err e ↦ (some e, w)
    | ok payload ↦ elim (http.new_request "POST" (sc.base_url <> "/runs") payload) [
      | none ↦ (some bad_request, w)
      | some req ↦
          let req' =
            http.set_header "Content-Type" "application/json"
              (http.set_header "Authorization" ("Bearer " <> sc.token) req) in
          posted (expect 201 upload_failed (http.send req' w))
    ]
  ]

  -- The answer to a GET of a path.
  unfoldable pub fetch :
      SyncClient → String → (String → ℕ → CloudError) → W → Result CloudError String × W
  unfolding expect
  fetch sc path failed w = elim (http.new_request "GET" (sc.base_url <> path) "") [
    | none ↦ (err bad_request, w)
    | some req ↦
        expect 200 failed
          (http.send (http.set_header "Authorization" ("Bearer " <> sc.token) req) w)
  ]

  unfoldable pub store_run : String → String → String → W → Option CloudError × W
  store_run run_id metadata recording w =
      let (made, w1) = fs.make_all (recording_path run_id) w in
      let (written, w2) = fs.write (metadata_file run_id) metadata w1 in
      let (recorded, w3) = fs.write (recording_file run_id) recording w2 in
      if made
      then (if written
          then (if recorded then (none, w3) else (some failed_to_write_recording, w3))
          else (some failed_to_write_metadata, w2))
      else (some failed_to_create_directory, w1)

  unfoldable pub store_body : String → Result CloudError String × W → Option CloudError × W
  unfolding store_run
  store_body run_id (err e, w) = (some e, w)
  store_body run_id (ok body, w) = elim (json.decode_run body) [
    | none ↦ (some failed_to_decode, w)
    | some (metadata, recording) ↦ store_run run_id metadata recording w
  ]

  unfoldable pub pull_run : SyncClient → String → W → Option CloudError × W
  unfolding fetch store_body
  pull_run sc run_id w = store_body run_id (fetch sc ("/runs/" <> run_id) download_failed w)

  unfoldable pub decoded_runs : Result CloudError String × W → Result CloudError (List CloudRun) × W
  decoded_runs (err e, w) = (err e, w)
  decoded_runs (ok body, w) = elim (json.decode_runs body) [
    | none ↦ (err failed_to_decode, w)
    | some runs ↦ (ok runs, w)
  ]

  -- `limit` is the number as %d prints it.
  unfoldable pub list_team_runs : SyncClient → String → W → Result CloudError (List CloudRun) × W
  unfolding fetch decoded_runs
  list_team_runs sc limit w = decoded_runs (fetch sc ("/runs?limit=" <> limit) list_failed w)

  unfoldable pub get_local_runs : W → Option (List String)
  unfolding directories
  get_local_runs w =
      if fs.is_missing ".sentra-lab/recordings" w
      then some []
      else elim (fs.read_dir ".sentra-lab/recordings" w) [
        | none ↦ none
        | some entries ↦ some (directories entries)
      ]

-- Moves the runs that are not at the other side, and counts those that succeed.
unfoldable pub transfer :
    {W : Type 0} → (String → W → Option CloudError × W) → List String → List String → ℕ → W → ℕ × W
transfer move there [] n w = (n, w)
transfer move there (run_id ∷ runs) n w =
    let (failed, w') = move run_id w in
    let skipped = transfer move there runs n w in
    let moved = transfer move there runs (n + 1) w' in
    let lost = transfer move there runs n w' in
    if contains there run_id then skipped else elim failed [ none ↦ moved | some e ↦ lost ]

module _ {W Request : Type 0} (fs : FileSystem W) (http : Http W Request) (json : Json)
    (join : String → String → String) where
  unfoldable pub exchange :
      SyncClient
      → List String
      → Result CloudError (List CloudRun) × W
      → Result CloudError SyncStats × W
  unfolding transfer ids push_run pull_run
  exchange sc local (err e, w) = (err (failed_to_list_cloud_runs e), w)
  exchange sc local (ok runs, w) =
      let (uploaded, w1) = transfer (push_run fs http json join sc) (ids runs) local 0 w in
      let (downloaded, w2) = transfer (pull_run fs http json join sc) local (ids runs) 0 w1 in
      (ok (record { uploaded = uploaded; downloaded = downloaded; conflicts = 0 }), w2)

  unfoldable pub sync : SyncClient → W → Result CloudError SyncStats × W
  unfolding get_local_runs list_team_runs exchange
  sync sc w = elim (get_local_runs fs http json join w) [
    | none ↦ (err failed_to_get_local_runs, w)
    | some local ↦ exchange sc local (list_team_runs fs http json join sc "100" w)
  ]
