-- ===== src/Config/Validator.antt =====
-- packages/cli/cmd/config/validator.go: the checks of a configuration as YAML gives it. A validator
-- is passed on from check to check, and keeps its errors. A range over a map takes the map's order.
use sentra_lab.Base.{
  String, ◌<>◌, Bool, true, ◌||◌, Option, none, some, List, [], ◌∷◌, ◌++◌, if◌then◌else◌, str_eq, ℤ,
  pos, ltb_ℤ, Value, Table, empty, entry, table, look, as_text, as_int, as_float, as_bool, as_table,
  has_suffix, contains,
}
use sentra_lab.Base.Float64.{Float64, nought}
use sentra_lab.Config.{valid_runtimes}

pub record ValidationError : Type 0 where
  pub field : String
  pub message : String
  pub hint : String

pub record Validator : Type 0 where
  pub errors : List ValidationError

abbrev pub new_validator : Validator
new_validator = record { errors = [] }

-- ValidationError.Error
unfoldable pub error_text : ValidationError → String
error_text e =
    let msg = "  • " <> e.field <> ": " <> e.message in
    if str_eq e.hint "" then msg else msg <> "\n    💡 " <> e.hint

unfoldable pub add_error : String → String → String → Validator → Validator
add_error field message hint v = record {
  errors = v.errors ++ (record { field = field; message = message; hint = hint } ∷ []);
}

error_lines : List ValidationError → String
unfolding error_text
error_lines [] = ""
error_lines (e ∷ es) = error_text e <> "\n" <> error_lines es

unfoldable pub format_errors : Validator → String
unfolding error_lines
format_errors v =
    "❌ Configuration validation failed:\n\n"
    <> error_lines v.errors
    <> "\n📖 See: https://docs.sentra.dev/configuration\n"

unfoldable pub is_valid_duration : String → Bool
unfolding has_suffix
is_valid_duration duration =
    has_suffix "s" duration
    || has_suffix "m" duration
    || has_suffix "h" duration
    || has_suffix "ms" duration
    || has_suffix "us" duration
    || has_suffix "ns" duration

-- !ok || s == "" of a text that is asked for
abbrev pub is_blank : Option String → Bool
is_blank none = true
is_blank (some s) = str_eq s ""

unfoldable pub check_runtime : Option String → Validator → Validator
check_runtime none v = add_error "agent.runtime" "is required" "Specify: python, nodejs, or go" v
check_runtime (some runtime) v =
    if str_eq runtime ""
    then add_error "agent.runtime" "is required" "Specify: python, nodejs, or go" v
    else if contains valid_runtimes runtime
    then v
    else add_error "agent.runtime" ("invalid value: " <> runtime)
        "Must be one of: python, nodejs, go" v

unfoldable pub check_timeout : Option String → Validator → Validator
check_timeout none v = v
check_timeout (some timeout) v =
    if is_valid_duration timeout
    then v
    else add_error "agent.timeout" ("invalid duration: " <> timeout) "Use format: 30s, 5m, 1h" v

-- A text that may be missing, but not empty.
unfoldable pub check_path : String → String → Option String → Validator → Validator
check_path field hint none v = v
check_path field hint (some s) v =
    if str_eq s "" then add_error field "cannot be empty" hint v else v

unfoldable pub check_scenarios : Option ℤ → Validator → Validator
check_scenarios none v = v
check_scenarios (some n) v =
    let v1 =
      if ltb_ℤ n (pos 1)
      then add_error "simulation.max_concurrent_scenarios" "must be at least 1" "Use value >= 1" v
      else v in
    if ltb_ℤ (pos 100) n
    then add_error "simulation.max_concurrent_scenarios" "too high (max 100)"
        "Reduce to avoid resource exhaustion" v1
    else v1

unfoldable pub verdict : Validator → List ValidationError → Option String
verdict v [] = none
verdict v (e ∷ es) = some (format_errors v)

module _ {F : Type 0} where
  unfoldable pub validate_name : Table F → Validator → Validator
  validate_name config v =
      if is_blank (as_text (look "name" config))
      then add_error "name" "is required" "Add a project name: name: my-agent" v
      else v

  unfoldable pub validate_version : Table F → Validator → Validator
  validate_version config v =
      if is_blank (as_text (look "version" config))
      then add_error "version" "is required" "Add version: version: \"1.0\"" v
      else v

  unfoldable pub check_agent : Option (Table F) → Validator → Validator
  unfolding check_runtime check_timeout
  check_agent none v = add_error "agent" "section is required" "Add agent configuration" v
  check_agent (some agent) v =
      let v1 = check_runtime (as_text (look "runtime" agent)) v in
      let v2 =
        if is_blank (as_text (look "entry_point" agent))
        then add_error "agent.entry_point" "is required"
            "Specify the main file: agent.py, agent.ts, agent.go" v1
        else v1 in
      check_timeout (as_text (look "timeout" agent)) v2

  unfoldable pub validate_agent : Table F → Validator → Validator
  unfolding check_agent
  validate_agent config v = check_agent (as_table (look "agent" config)) v

  unfoldable pub check_simulation : Option (Table F) → Validator → Validator
  unfolding check_scenarios
  check_simulation none v = v
  check_simulation (some simulation) v =
      check_scenarios (as_int (look "max_concurrent_scenarios" simulation)) v

  unfoldable pub validate_simulation : Table F → Validator → Validator
  unfolding check_simulation
  validate_simulation config v = check_simulation (as_table (look "simulation" config)) v

  unfoldable pub check_storage : Option (Table F) → Validator → Validator
  unfolding check_path
  check_storage none v = v
  check_storage (some storage) v =
      check_path "storage.database" "Specify database file path" (as_text (look "database" storage))
        (check_path "storage.recordings_dir" "Specify directory path"
          (as_text (look "recordings_dir" storage)) v)

  unfoldable pub validate_storage : Table F → Validator → Validator
  unfolding check_storage
  validate_storage config v = check_storage (as_table (look "storage" config)) v

-- `format_int` is %d and `format_float` is %f.
module _ {F : Type 0} ⦃fl : Float64 F⦄ (format_int : ℤ → String) (format_float : F → String) where
  unfoldable pub check_port : String → Option ℤ → Validator → Validator
  check_port name none v = v
  check_port name (some port) v =
      if ltb_ℤ port (pos 1024) || ltb_ℤ (pos 65535) port
      then add_error ("mocks." <> name <> ".port") ("invalid port: " <> format_int port)
          "Use port between 1024 and 65535" v
      else v

  unfoldable pub check_nonneg : String → String → Option ℤ → Validator → Validator
  check_nonneg field hint none v = v
  check_nonneg field hint (some n) v =
      if ltb_ℤ n (pos 0) then add_error field "cannot be negative" hint v else v

  unfoldable pub check_error_rate : String → Option F → Validator → Validator
  check_error_rate name none v = v
  check_error_rate name (some rate) v =
      if fl.lt rate nought || fl.lt (fl.of_int (pos 1)) rate
      then add_error ("mocks." <> name <> ".error_rate") ("invalid value: " <> format_float rate)
          "Use value between 0.0 and 1.0" v
      else v

  unfoldable pub check_enabled : String → Table F → Validator → Validator
  unfolding check_port check_nonneg check_error_rate
  check_enabled name mock v = check_error_rate name (as_float (look "error_rate" mock)) (
      check_nonneg ("mocks." <> name <> ".rate_limit") "Use positive value or 0 for unlimited"
        (as_int (look "rate_limit" mock))
        (check_nonneg ("mocks." <> name <> ".latency_ms") "Use positive value or 0"
          (as_int (look "latency_ms" mock)) (check_port name (as_int (look "port" mock)) v)))

  unfoldable pub check_if_enabled : Option Bool → String → Table F → Validator → Validator
  check_if_enabled (some true) name mock v = check_enabled name mock v
  check_if_enabled _ name mock v = v

  unfoldable pub check_mock : String → Value F → Validator → Validator
  unfolding check_enabled check_if_enabled
  check_mock name (table mock) v = check_if_enabled (as_bool (look "enabled" mock)) name mock v
  check_mock name other v = v

  unfoldable pub check_mocks : Table F → Validator → Validator
  unfolding check_mock
  check_mocks empty v = v
  check_mocks (entry name mock mocks) v = check_mocks mocks (check_mock name mock v)

  unfoldable pub check_all_mocks : Option (Table F) → Validator → Validator
  check_all_mocks none v = v
  check_all_mocks (some mocks) v = check_mocks mocks v

  unfoldable pub validate_mocks : Table F → Validator → Validator
  unfolding check_mocks check_all_mocks
  validate_mocks config v = check_all_mocks (as_table (look "mocks" config)) v

  unfoldable pub validate : Value F → Validator → Option String × Validator
  unfolding validate_name validate_version validate_agent validate_mocks validate_simulation
      validate_storage
  validate (table config) v =
      let v' = validate_storage config (
        validate_simulation config (
          validate_mocks config
            (validate_agent config (validate_version config (validate_name config v))))) in
      (verdict v' v'.errors, v')
  validate cfg v = (some "invalid config format", v)
