-- ===== src/Lib.antt =====
-- The command line tool (its configuration, the scaffolding of projects, its services and their health,
-- uploads, tables and models of the terminal, the replay debugger and the parallel test executor), and the mock OpenAI server's storage and
-- rate limiting. Paths are from the repository's root.
--
-- Parts and how they interact.
--   A request to the mock server is checked by the limiter (packages/mocks/openai/internal/ratelimit):
--   the limiter finds the API key's limiter, that finds the model's pair of token buckets under the
--   key's tier, and the pair charges one request and the tokens. The tiers come from a registry.
--   The store (packages/mocks/openai/internal/store) keeps values with an expiry for the other parts;
--   a goroutine sweeps it on a ticker. The debugger (packages/cli/cmd/replay) steps through the events
--   of a recording. The parallel executor (packages/cli/cmd/test) runs tasks on a bounded number of
--   goroutines.
--
--   A project is scaffolded by the init command (packages/cli/cmd/init), which writes the configuration
--   that packages/cli/internal/config loads, checks and saves, and that the config command
--   (packages/cli/cmd/config) shows, sets, validates and migrates. The start command
--   (packages/cli/cmd/start) makes services of its mocks and waits until they are healthy. The cloud
--   commands (packages/cli/cmd/cloud) move recorded runs between the project and a server.
--
-- Base: numbers, lists, maps, integers, results and float64.
--   Base/Maps: a Go map is an association list in which a key stands once; what ranges over a map
--   takes its order. Base/Int: int64 counters are numbers below 2 ^ 64 read in two's complement, with
--   their wrap-around written out; other integers of the source are ℤ. Base/Float64: float64 is an
--   abstract type with Go's operations and conversions, and the facts of IEEE arithmetic that the
--   code relies on are the record IsFloat64, with whole numbers as an instance.
--
-- Store: packages/mocks/openai/internal/store, interface.go and memory.go.
--   Store.antt has item and MemoryStore; Store/Errors the StorageError and its tests; Store/Memory the
--   operations on one key and cleanupExpired; Store/Multi those on several keys, Keys and GetStats;
--   Store/Tokens the token counters and refill times. Store/Machine makes one call type of them, and
--   a history of calls is run in order, since each holds the lock. Each operation is a function of
--   the current time and the store to a result and the next store. The dynamic types of stored values
--   are the constructors of Value. filepath.Match is a parameter of Keys.
--
-- Ratelimit: packages/mocks/openai/internal/ratelimit.
--   Ratelimit/Bucket: TokenBucket of token_bucket.go; Ratelimit/Dual: DualTokenBucket of the same
--   file. Ratelimit/Tier and Ratelimit/Tier/Defaults: tier.go. Ratelimit/Limiter: limiter.go, with
--   one function per method, for calls one after another; the pools of limiters are maps from keys, and
--   from models, to buckets, which no two keys share. Ratelimit/Limiter/Overlap has the counters where
--   checks overlap: CheckStep has a constructor for each operation of Limiter.Allow on them, with the
--   buckets open.
--
--   Base/Values: an interface{} is a value of one of the types that YAML gives. Base/Texts: package
--   strings. Base/Files: the file system is a record of operations on the state of the world, and
--   IsFileSystem what is relied on of it; Tests/Files is one that has it.
--
-- Config: packages/cli/internal/config and packages/cli/cmd/config.
--   Config.antt is parser.go and Config/Loader is loader.go, with YAML as a pair of parameters;
--   Config/Validator is cmd/config/validator.go, Config/Migrator migrator.go, and Config/Commands the
--   bodies of the five commands of config.go, with the Validator and Migrator of internal/config/schema.go
--   that they call. Set and Get go down the parts of a key, so that they end with its last part.
--
-- Init: packages/cli/cmd/init.
--   Init.antt is init.go and Init/Scaffolder scaffolding.go. The texts of templates.go and of the
--   fixtures stand line by line in Init/Configuration, Init/Scenarios, Init/Agents, Init/Node and
--   Init/OpenaiFixtures, Init/StripeFixtures, Init/LedgerFixtures. The files of a template are a map,
--   and the order in which a range meets them is a parameter.
--
-- Cloud: packages/cli/cmd/cloud: push.go (Cloud/Upload), sync.go (Cloud/Sync) and the credentials file
--   of cloud.go (Cloud/Credentials).
--   HTTP, JSON and the context are records of parameters in Cloud.antt. The loop over the attempts takes
--   the number of attempts that are left, max_retries at first, which are all the turns it can make.
--
-- Start: packages/cli/cmd/start/docker_manager.go and health_checker.go.
--   Start/Services makes the services, Start/Health has the checks, whose loop takes the number of
--   attempts that are left, and Start/Monitor CheckAllServices and the monitor. Checks that run at once
--   are taken in the order in which they end.
--
-- Docker: packages/cli/internal/docker, client.go (Docker.antt) and compose.go (Docker/Compose).
--   Docker's API is a record of parameters on the state of the world. Services that start or stop at
--   once are taken one after the other.
--
-- Ui: packages/cli/internal/ui.
--   Ui.antt and Ui/Tables are tui.go and table.go, Ui/Models the models of progress.go and spinner.go.
--   The styles are a parameter; the length of a text is its bytes in UTF-8, and its width a parameter.
--
-- Replay: packages/cli/cmd/replay.
--   Replay/Debugger has the debugger and its methods, with the index an integer that may be negative
--   and Go's panic on an index out of range as an error; Replay/Debugger/Moves has one command type of
--   them.
--   Replay/Recordings, Replay/Page, Replay/Har and Replay/Export are exporter.go, with JSON and the
--   printing of times and numbers as parameters, and Replay/Runs is the choice of a run in replay.go.
--
-- Parallel: ParallelExecutor.Execute of packages/cli/cmd/test/parallel.go.
--   A state is the channels, the results and the phase of each task's goroutine; the relation Step has
--   a constructor for each operation of a goroutine on what it shares with the others, and Reach is
--   what any schedule leads to, with the number of its steps. The tasks themselves are open: a step
--   out of a task takes whatever it returned, and it is assumed that each task returns.
--
-- Functions carry the Go names in snake case; a method that two types share has the second type's
-- name in front (dual_allow for DualTokenBucket.Allow). The clock is an argument wherever the source
-- reads it. Every loop is structural recursion on a list or on a number of steps; the forward search
-- of the debugger takes the number of events from the current index to the end, which are all the
-- turns that its loop can make.
--
-- Not modelled: redis.go and the clients of other servers and libraries (gRPC, Prometheus, and
-- of Docker all but the services), since their behaviour is not in the repository; headers.go
-- and the text form of statistics; metrics, which no result depends on; the parts of the mock
-- server that the store and the limiter do not use (tokenizer, pricing, latency, fixtures,
-- behavior, models); of the test command the runner, the worker pool and the reporters; of the
-- command line tool the declarations of commands and flags, the log, the bodies of the cloud,
-- start and replay commands, of the user interface what cuts bytes or divides floats, and
-- parseValue of the config command, which reads numbers with Sscanf and whose result is an
-- argument of the set command; and generateReadme and generateNodeAgent of templates.go, whose
-- raw strings end too early, so that they are parameters. In the store, calls that overlap are
-- taken in some order, as its lock enforces. In the limiter they are not: Allow holds no lock
-- across its steps, and what overlapping calls do to the buckets of one key is not modelled.
pub mod Base
pub mod Cloud
pub mod Config
pub mod Docker
pub mod Init
pub mod Parallel
pub mod Ratelimit
pub mod Replay
pub mod Start
pub mod Store
pub mod Tests
pub mod Ui
