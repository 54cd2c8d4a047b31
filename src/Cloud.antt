-- ===== src/Cloud.antt =====
-- packages/cli/cmd/cloud: the runs of a project and their copies in the cloud. `W` is the state of
-- the world: the files, the network and the context, which tells whether it is cancelled. A body and
-- the content of a file are texts.
pub mod Sync
pub mod Upload
pub mod Retries
pub mod Batches
pub mod Transfers
pub mod Credentials
pub mod Stored
use sentra_lab.Base.{ℕ, String, Bool, Option, List, Result}

pub data CloudError : Type 0 where
  failed_to_read_metadata failed_to_read_recording failed_to_marshal : CloudError
  bad_request request_failed failed_to_decode : CloudError
  upload_failed download_failed list_failed : String → ℕ → CloudError
  failed_to_create_directory failed_to_write_metadata failed_to_write_recording : CloudError
  failed_to_get_local_runs : CloudError
  failed_to_list_cloud_runs : CloudError → CloudError
  cancelled : CloudError
  upload_failed_after : ℕ → CloudError → CloudError
  upload_never_tried : ℕ → CloudError
  run_not_found metadata_not_found recording_not_found recording_empty : String → CloudError

-- Of CloudRun, what Sync reads.
pub record CloudRun : Type 0 where
  pub id : String
  pub scenario : String
  pub status : String

-- Go's net/http: a request is made, gets its headers, and is sent; an answer is its status and body.
pub record Http (W Request : Type 0) : Type 0 where
  pub new_request : String → String → String → Option Request
  pub set_header : String → String → Request → Request
  pub send : Request → W → Option (ℕ × String) × W

-- encoding/json: the payload of a run from its id, metadata and recording; of a payload its metadata
-- and recording; the runs of a list.
pub record Json : Type 0 where
  pub marshal_run : String → String → String → Option String
  pub decode_run : String → Option (String × String)
  pub decode_runs : String → Option (List CloudRun)

-- The context: whether it is done, and whether it is so before a delay has passed.
pub record Context (W : Type 0) : Type 0 where
  pub is_done : W → Bool
  pub wait : ℕ → W → Bool × W
