-- ===== src/Config.antt =====
-- packages/cli/internal/config/parser.go: the configuration of a project. `Settings` has the fields
-- that YAML reads and writes; `raw` is the unexported field, which it does neither read nor write, and
-- `none` is the nil map. An `int` is an integer of ℤ. The texts of the errors are constructors.
pub mod Paths
pub mod Defaults
pub mod Loader
pub mod Validator
pub mod Clean
pub mod Accepted
pub mod Migrator
pub mod Migrated
pub mod Commands
pub mod Effects
use sentra_lab.Base.{
  ℕ, String, Bool, true, false, ◌||◌, Option, none, some, List, [], ◌∷◌, if◌then◌else◌, str_eq, ℤ,
  pos, eqb_ℤ, Dict, Result, ok, err, Value, Table, empty, table, str, look, put, split, contains,
}

pub record AgentConfig : Type 0 where
  pub runtime : String
  pub entry_point : String
  pub timeout : String

pub record MockConfig (F : Type 0) : Type 0 where
  pub enabled : Bool
  pub port : ℤ
  pub latency_ms : ℤ
  pub rate_limit : ℤ
  pub error_rate : F

pub record SimulationConfig : Type 0 where
  pub record_full_trace : Bool
  pub enable_cost_tracking : Bool
  pub max_concurrent_scenarios : ℤ

pub record StorageConfig : Type 0 where
  pub recordings_dir : String
  pub database : String

pub record Settings (F : Type 0) : Type 0 where
  pub name : String
  pub version : String
  pub agent : AgentConfig
  pub mocks : Dict (MockConfig F)
  pub simulation : SimulationConfig
  pub storage : StorageConfig

pub record Config (F : Type 0) : Type 0 where
  pub settings : Settings F
  pub raw : Option (Table F)

pub data ConfigError : Type 0 where
  name_required version_required runtime_required entry_point_required : ConfigError
  invalid_runtime key_not_found invalid_path cannot_set : String → ConfigError

abbrev pub valid_runtimes : List String
valid_runtimes = "python" ∷ "nodejs" ∷ "go" ∷ []

-- A default for an empty text, and for a zero.
abbrev pub text_or : String → String → String
text_or d s = if str_eq s "" then d else s

abbrev pub int_or : ℤ → ℤ → ℤ
int_or d n = if eqb_ℤ n (pos 0) then d else n

-- The map behind a configuration; reading the nil map finds nothing.
abbrev pub table_of : {F : Type 0} → Option (Table F) → Table F
table_of none = empty
table_of (some t) = t

abbrev pub default_port : String → ℤ
default_port name =
    if str_eq name "openai"
    then pos 8080
    else if str_eq name "stripe"
    then pos 8081
    else if str_eq name "coreledger"
    then pos 8082
    else pos 8000

module _ {F : Type 0} where
  -- The first error that is found, if any.
  unfoldable pub validate : Config F → Option ConfigError
  unfolding contains
  validate c =
      let agent = c.settings.agent in
      if str_eq c.settings.name ""
      then some name_required
      else if str_eq c.settings.version ""
      then some version_required
      else if str_eq agent.runtime ""
      then some runtime_required
      else if contains valid_runtimes agent.runtime
      then (if str_eq agent.entry_point "" then some entry_point_required else none)
      else some (invalid_runtime agent.runtime)

  unfoldable pub default_ports : Dict (MockConfig F) → Dict (MockConfig F)
  default_ports [] = []
  default_ports ((name, mock) ∷ mocks) =
      (name, record mock { port = int_or (default_port name) mock.port }) ∷ default_ports mocks

  unfoldable pub apply_defaults : Config F → Config F
  unfolding default_ports
  apply_defaults c =
      let s = c.settings in
      record c {
        settings = record s {
          agent = record s.agent { timeout = text_or "30s" s.agent.timeout };
          simulation = record s.simulation {
            max_concurrent_scenarios = int_or (pos 10) s.simulation.max_concurrent_scenarios;
          };
          storage = record {
            recordings_dir = text_or ".sentra-lab/recordings" s.storage.recordings_dir;
            database = text_or ".sentra-lab/sentra.db" s.storage.database;
          };
          mocks = default_ports s.mocks;
        };
      }

  -- From a value down the parts of a key.
  unfoldable pub get_at : String → List String → Value F → Result ConfigError (Value F)
  get_at key [] v = ok v
  get_at key (p ∷ ps) (table t) = elim (look p t) [
    | none ↦ err (key_not_found key)
    | some v ↦ get_at key ps v
  ]
  get_at key (p ∷ ps) v = err (invalid_path key)

  unfoldable pub get : String → Config F → Result ConfigError (Value F)
  unfolding get_at
  get key c = get_at key (split b'.' key) (table (table_of c.raw))

  -- The map under a part, made where it is missing; none where another value stands there.
  unfoldable pub child : Option (Value F) → Option (Table F)
  child none = some empty
  child (some (table t)) = some t
  child (some v) = none

  -- A path has a part at least. Where a map was made on the way there is nothing below it that the
  -- rest of the path could fail at, so a failure leaves the maps as they were.
  unfoldable pub set_at : Value F → String → List String → Table F → Option (Table F)
  unfolding child
  set_at v p [] t = some (put p v t)
  set_at v p (q ∷ ps) t = elim (child (look p t)) [
    | none ↦ none
    | some u ↦ elim (set_at v q ps u) [ none ↦ none | some u' ↦ some (put p (table u') t) ]
  ]

  abbrev pub set_parts : Value F → List String → Table F → Option (Table F)
  set_parts v [] t = some t
  set_parts v (p ∷ ps) t = set_at v p ps t

  unfoldable pub set : String → Value F → Config F → Result ConfigError (Unit {0}) × Config F
  unfolding set_at
  set key v c =
      let t = table_of c.raw in
      elim (set_parts v (split b'.' key) t) [
        | none ↦ (err (cannot_set key), record c { raw = some t })
        | some t' ↦ (ok tt, record c { raw = some t' })
      ]

  -- `time.ParseDuration` is a parameter, which gives a number of nanoseconds.
  unfoldable pub get_agent_timeout : (String → Option ℤ) → Config F → ℤ
  get_agent_timeout parse_duration c = elim (parse_duration c.settings.agent.timeout) [
    | none ↦ pos 30000000000
    | some d ↦ d
  ]

unfoldable pub get_engine_address : String
get_engine_address = "localhost:50051"
