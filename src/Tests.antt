-- ===== src/Tests.antt =====
-- The theorems at concrete inputs, and runs of the models on them.
pub mod DockerTests
pub mod StoreTests
pub mod RatelimitTests
pub mod ReplayTests
pub mod ParallelTests
pub mod LimiterTests
pub mod Files
pub mod ConfigTests
pub mod InitTests
pub mod CloudTests
pub mod StartTests
pub mod UiTests
pub mod ExportTests
