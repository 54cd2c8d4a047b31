-- ===== src/Replay.antt =====
-- packages/cli/cmd/replay: stepping through a recorded run, and exporting one.
pub mod Debugger
pub mod Recordings
pub mod Page
pub mod Har
pub mod Export
pub mod Runs
pub mod Exported
