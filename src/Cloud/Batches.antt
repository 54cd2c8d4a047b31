-- ===== src/Cloud/Batches.antt =====
-- packages/cli/cmd/cloud/push.go: the counts of UploadBatch.
use sentra_lab.Base.{ℕ, ◌+◌, ◌≤◌, String, ◌≡◌, Option, some, length, ◌⊎◌}
use sentra_lab.Cloud.{CloudError, Context, cancelled}
use sentra_lab.Cloud.Upload.{UploadResult}

module _ {W : Type 0} (ctx : Context W) (push_run : String → W → Option CloudError × W) where
  -- What a batch has counted, from the counts that it began with.
  abbrev pub IsCounted : ℕ → ℕ → UploadResult → Option CloudError → Type 0
  IsCounted base runs r e =
      (r.successful + r.failed ≤ base + runs)
      × ((e ≡ some cancelled) ⊎ (r.successful + r.failed ≡ base + runs))
      × (length r.errors ≤ r.failed)
