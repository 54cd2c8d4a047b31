-- ===== src/Tests/ConfigTests.antt =====
-- The configuration at concrete inputs; float64 stands for whole numbers.
use sentra_lab.Base.{
  ℕ, String, ◌≡◌, ◌≢◌, refl, true, none, some, [], ◌∷◌, Dict, lookup, split, pos, ◌≤ℤ◌, ok, Table,
  empty, entry, str, int, bool, table, look, put, contains,
}
use sentra_lab.Base.Float64.{whole_float64}
use sentra_lab.Config
use sentra_lab.Config.{Config, Settings, get, get_at, set, set_at, apply_defaults}
use sentra_lab.Config.Paths.{get-set, get-set-apart}
use sentra_lab.Config.Loader.{Yaml, load, plain, load-valid}
use sentra_lab.Config.Validator.{
  new_validator, check_port, add_error, verdict, validate, validate_name, validate_version,
  validate_agent, validate_mocks, validate_simulation, validate_storage,
}
use sentra_lab.Config.Accepted.{validate-bounds, validate-strict}
use sentra_lab.Config.Migrator.{get_current_version, migrate}
use sentra_lab.Config.Migrated.{migrate-reaches, migrate-keeps}
use sentra_lab.Config.Commands.{Format, get_command, set_command, migrate_command}
use sentra_lab.Config.Effects.{get_command-ok, set_command-same, migrate_command-keeps}
use sentra_lab.Tests.Files.{disk, disk-IsFileSystem}

abbrev demo_settings : Settings ℕ
demo_settings = record {
  name = "demo";
  version = "1.0";
  agent = record { runtime = "go"; entry_point = "agent.go"; timeout = "" };
  mocks =
      (
        "openai",
        record {
          enabled = true;
          port = pos 0;
          latency_ms = pos 0;
          rate_limit = pos 0;
          error_rate = 0;
        },
      )
      ∷ [];
  simulation = record {
    record_full_trace = true;
    enable_cost_tracking = true;
    max_concurrent_scenarios = pos 0;
  };
  storage = record { recordings_dir = ""; database = "" };
}

abbrev demo_config : Config ℕ
demo_config = plain demo_settings

abbrev demo_yaml : Yaml ℕ
demo_yaml = record { unmarshal = λ text. some demo_settings; marshal = λ s. some "saved" }

abbrev demo_disk : Dict String
demo_disk = ("lab.yaml", "name: demo") ∷ []

get-set_example : get "agent.timeout" (set "agent.timeout" (str "5m") demo_config).1 ≡ ok (str "5m")
unfolding set set_at split look put
get-set_example = get-set "agent.timeout" (str "5m") demo_config refl

get-set-apart_example :
    get "agent.runtime" (set "agent.timeout" (str "5m") demo_config).1
    ≡ get "agent.runtime" demo_config
unfolding split
get-set-apart_example = get-set-apart "agent.timeout" "agent.runtime" (str "5m") demo_config refl

load-valid_example :
    (Config.validate (apply_defaults demo_config) ≡ none)
    × (apply_defaults (apply_defaults demo_config) ≡ apply_defaults demo_config)
unfolding load lookup Config.validate
load-valid_example =
    load-valid disk demo_yaml "lab.yaml" demo_disk (apply_defaults demo_config) refl

abbrev openai_mock : Table ℕ
openai_mock = entry "enabled" (bool true) (entry "port" (int (pos 8080)) empty)

abbrev go_agent : Table ℕ
go_agent = entry "runtime" (str "go") (entry "entry_point" (str "agent.go") empty)

abbrev demo_mocks : Table ℕ
demo_mocks = entry "openai" (table openai_mock) empty

abbrev demo_table : Table ℕ
demo_table = entry "name" (str "demo") (
    entry "version" (str "1.0")
      (entry "agent" (table go_agent) (entry "mocks" (table demo_mocks) empty)))

validate-bounds_example : (pos 1024 ≤ℤ pos 8080) × (pos 8080 ≤ℤ pos 65535)
unfolding validate look validate_name validate_version validate_agent validate_mocks
    validate_simulation validate_storage contains verdict
validate-bounds_example =
    validate-bounds (λ n. "") (λ x. "") demo_table demo_mocks openai_mock "openai" (pos 8080) refl
      refl refl refl refl

validate-strict_example : Config.validate demo_config ≡ none
unfolding validate look validate_name validate_version validate_agent validate_mocks
    validate_simulation validate_storage contains verdict
validate-strict_example =
    validate-strict (λ n. "") (λ x. "") demo_table go_agent demo_settings refl refl refl refl refl
      refl

rejects_low_port :
    (check_port {F = ℕ} (λ n. "80") (λ x. "") "stripe" (some (pos 80)) new_validator).errors
    ≡ record {
      field = "mocks.stripe.port";
      message = "invalid port: 80";
      hint = "Use port between 1024 and 65535";
    }
      ∷ []
unfolding check_port add_error
rejects_low_port = refl

migrate-reaches_example :
    (t' : Table ℕ) × (migrate (table demo_table) ≡ (ok true, table t'))
    × (get_current_version t' ≡ "1.1")
unfolding get_current_version look
migrate-reaches_example = migrate-reaches demo_table refl

migrate_keeps_name :
    (t' : Table ℕ) × ((migrate (table demo_table)).1 ≡ table t')
    × (look "name" t' ≡ look "name" demo_table)
migrate_keeps_name = migrate-keeps "name" demo_table refl

abbrev demo_format : Format ℕ
demo_format = record { show_int = λ n. "0"; show_float = λ x. "0"; show_table = λ t. "" }

get_command-ok_example :
    get_command disk demo_yaml demo_format "lab.yaml" "name" demo_disk ≢ ok "demo"
get_command-ok_example =
    get_command-ok disk demo_yaml demo_format "lab.yaml" "name" demo_disk "demo"

set_command-same_example :
    (set_command disk demo_yaml "lab.yaml" "name" (str "a") demo_disk).1
    ≡ (set_command disk demo_yaml "lab.yaml" "version" (str "b") demo_disk).1
unfolding set_command lookup Config.validate set set_at split put look
set_command-same_example =
    set_command-same disk demo_yaml "lab.yaml" "name" "version" (str "a") (str "b") demo_disk refl
      refl

migrate_command-keeps_example :
    lookup "lab.yaml" (migrate_command disk demo_yaml "lab.yaml" demo_disk).1
    ≡ lookup "lab.yaml" demo_disk
migrate_command-keeps_example =
    migrate_command-keeps disk demo_yaml disk-IsFileSystem "lab.yaml" "lab.yaml" demo_disk refl
