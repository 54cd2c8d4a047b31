-- ===== src/Cloud/Upload.antt =====
-- packages/cli/cmd/cloud/push.go: UploadManager, over the PushRun of its client.
use sentra_lab.Base.{
  ℕ, zero, suc, ◌+◌, ◌==◌, String, Bool, true, false, Option, none, some, List, [], ◌∷◌,
  if◌then◌else◌, Dict, insert, length,
}
use sentra_lab.Base.Files.{FileSystem}
use sentra_lab.Cloud.{
  CloudError, Context, cancelled, upload_failed_after, upload_never_tried, run_not_found,
  metadata_not_found, recording_not_found, recording_empty,
}

pub record UploadManager : Type 0 where
  pub max_retries : ℕ
  pub retry_delay : ℕ

unfoldable pub new_upload_manager : UploadManager
new_upload_manager = record { max_retries = 3; retry_delay = 2000000000 }

pub record UploadResult : Type 0 where
  pub total : ℕ
  pub successful : ℕ
  pub failed : ℕ
  pub errors : Dict CloudError

unfoldable pub is_retryable : CloudError → Bool
is_retryable e = true

-- The error that is returned after the last attempt; with no attempt it wraps the nil error.
unfoldable pub give_up : UploadManager → Option CloudError → CloudError
give_up um none = upload_never_tried um.max_retries
give_up um (some e) = upload_failed_after um.max_retries e

unfoldable pub count_upload : String → Option CloudError → UploadResult → UploadResult
count_upload run_id none r = record r { successful = r.successful + 1 }
count_upload run_id (some e) r = record r {
  failed = r.failed + 1;
  errors = insert run_id e r.errors;
}

module _ {W : Type 0} (ctx : Context W) (push_run : String → W → Option CloudError × W) where
  -- The delay before every attempt but the first: whether the context was done before it.
  unfoldable pub pause : UploadManager → ℕ → W → Bool × W
  pause um zero w = (false, w)
  pause um (suc attempt) w = ctx.wait um.retry_delay w

  -- The loop, with the attempts that are left, the number of this attempt, and the last error.
  unfoldable pub attempts :
      UploadManager → String → ℕ → ℕ → Option CloudError → W → Option CloudError × W
  unfolding pause is_retryable give_up
  attempts um run_id zero attempt last_err w = (some (give_up um last_err), w)
  attempts um run_id (suc left) attempt last_err w =
      let (done, w1) = pause um attempt w in
      let (failed, w2) = push_run run_id w1 in
      let again = λ (e : CloudError). attempts um run_id left (attempt + 1) (some e) w2 in
      if done then (some cancelled, w1) else elim failed [
        | none ↦ (none, w2)
        | some e ↦ if is_retryable e then again e else (some e, w2)
      ]

  unfoldable pub upload_run : UploadManager → String → W → Option CloudError × W
  unfolding attempts
  upload_run um run_id w = attempts um run_id um.max_retries 0 none w

  unfoldable pub upload_all :
      UploadManager → List String → UploadResult → W → (UploadResult × Option CloudError) × W
  unfolding upload_run count_upload
  upload_all um [] r w = ((r, none), w)
  upload_all um (run_id ∷ run_ids) r w =
      let (failed, w') = upload_run um run_id w in
      let rest = upload_all um run_ids (count_upload run_id failed r) w' in
      if ctx.is_done w then ((r, some cancelled), w) else rest

  unfoldable pub upload_batch :
      UploadManager → List String → W → (UploadResult × Option CloudError) × W
  unfolding upload_all
  upload_batch um run_ids w =
      upload_all um run_ids
        (record { total = length run_ids; successful = 0; failed = 0; errors = [] }) w

-- The paths are joined as in PushRun; os.Stat is asked twice of the recording.
unfoldable pub validate_run :
    {W : Type 0}
    → FileSystem W
    → (String → String → String)
    → CloudError
    → String
    → W
    → Option CloudError
validate_run fs join stat_failed run_id w =
    let recording_path = join (join ".sentra-lab" "recordings") run_id in
    let recording_file = join recording_path "recording.zstd" in
    if fs.is_missing recording_path w
    then some (run_not_found run_id)
    else if fs.is_missing (join recording_path "metadata.json") w
    then some (metadata_not_found run_id)
    else if fs.is_missing recording_file w
    then some (recording_not_found run_id)
    else elim (fs.size recording_file w) [
      | none ↦ some stat_failed
      | some size ↦ if size == 0 then some (recording_empty run_id) else none
    ]
