-- ===== src/Tests/CloudTests.antt =====
-- Uploads and synchronisations at concrete inputs.
use sentra_lab.Base.{
  ℕ, ◌+◌, ◌≤◌, String, ◌≡◌, refl, true, false, Option, none, some, [], ◌∷◌, leb, if◌then◌else◌,
  Dict,
}
use sentra_lab.Cloud.{CloudError, CloudRun, Http, Json, Context, bad_request}
use sentra_lab.Cloud.Sync.{SyncClient, SyncStats}
use sentra_lab.Cloud.Upload.{new_upload_manager, upload_run}
use sentra_lab.Cloud.Retries.{counted, counting, upload_run_bounds, upload_run-ok}
use sentra_lab.Cloud.Credentials.{
  User, save_credentials, load_token, load_user, recent, after_prefix,
}
use sentra_lab.Cloud.Stored.{load_user-save_credentials}
use sentra_lab.Tests.Files.{disk, disk-IsFileSystem, slash}

abbrev patient : Context ℕ
patient = record { is_done = λ w. false; wait = λ delay w. (false, w) }

-- The third push succeeds; the world counts them.
abbrev third_push : String → ℕ → Option CloudError × ℕ
third_push run_id w = (if leb 2 w then none else some bad_request, w + 1)

upload_run_bounds_example :
    (upload_run
      (counting patient third_push)
      (counted patient third_push)
      new_upload_manager
      "r"
      (0, 0)).1.0
    ≤ 3
unfolding new_upload_manager
upload_run_bounds_example = upload_run_bounds patient third_push new_upload_manager "r" 0 0

third_try : (upload_run patient third_push new_upload_manager "r" 0) ≡ (none, 3)
unfolding upload_run new_upload_manager
third_try = refl

third_try_pushed :
    (before : ℕ) × ((third_push "r" before).0 ≡ none)
    × ((upload_run patient third_push new_upload_manager "r" 0).1 ≡ (third_push "r" before).1)
unfolding upload_run new_upload_manager
third_try_pushed = upload_run-ok patient third_push new_upload_manager "r" 0 refl

-- A server that answers every request, with one run.
abbrev server : Http (Dict String) String
server = record {
  new_request = λ method url body. some url;
  set_header = λ key value req. req;
  send = λ req w. (some (200, req), w);
}

abbrev one_run : CloudRun
one_run = record { id = "r1"; scenario = "s"; status = "passed" }

abbrev plain_json : Json
plain_json = record {
  marshal_run = λ run_id metadata recording. some metadata;
  decode_run = λ body. some ("meta", "rec");
  decode_runs = λ body. some (one_run ∷ []);
}

abbrev client : SyncClient
client = record { token = "t"; base_url = "https://api.sentra.dev/v1" }

abbrev one_down : SyncStats
one_down = record { uploaded = 0; downloaded = 1; conflicts = 0 }

abbrev ada : User
ada = record { email = "ada@example.org"; team = "a=b"; plan = "" }

load_user-save_credentials_example :
    (load_token disk slash "/root" (save_credentials disk slash "/root" "t" ada []).1 ≡ "t")
    × (load_user disk slash "/root" (save_credentials disk slash "/root" "t" ada []).1 ≡ some ada)
unfolding save_credentials
load_user-save_credentials_example =
    load_user-save_credentials disk slash "/root" disk-IsFileSystem "t" ada [] refl
      (refl, refl, refl) refl

recent_runs : recent (("run-1", true) ∷ ("run-2", false) ∷ ("x", true) ∷ []) ≡ ("run-1" ∷ [])
unfolding recent after_prefix
recent_runs = refl
