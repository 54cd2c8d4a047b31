-- ===== src/Cloud/Transfers.antt =====
-- packages/cli/cmd/cloud/sync.go: what a Sync moves, and what PullRun leaves for PushRun.
use sentra_lab.Base.{ℕ, suc, ◌≤◌, String, ◌≡◌, List, [], ◌∷◌, contains, if◌then◌else◌}
use sentra_lab.Base.Files.{FileSystem}
use sentra_lab.Cloud.{Http, Json}
use sentra_lab.Cloud.Sync.{SyncStats}

-- How many of the runs are not there.
abbrev pub count_missing : List String → List String → ℕ
count_missing there [] = 0
count_missing there (run_id ∷ runs) =
    if contains there run_id then count_missing there runs else suc (count_missing there runs)

module _ {W Request : Type 0} (fs : FileSystem W) (http : Http W Request) (json : Json)
    (join : String → String → String) where
  -- The counts of a Sync, from the runs on either side.
  abbrev pub IsExchange : List String → List String → SyncStats → Type 0
  IsExchange local cloud stats =
      (stats.uploaded ≤ count_missing cloud local)
      × (stats.downloaded ≤ count_missing local cloud)
      × (stats.conflicts ≡ 0)
