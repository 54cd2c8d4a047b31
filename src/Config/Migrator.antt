-- ===== src/Config/Migrator.antt =====
-- packages/cli/cmd/config/migrator.go: the migrations between versions of a configuration. A map that
-- a migration changes in place is put back where it stood; a tree of YAML shares no map.
use sentra_lab.Base.{
  String, Bool, true, false, Option, none, some, List, [], ◌∷◌, if◌then◌else◌, str_eq, pos, Value,
  Table, empty, entry, str, int, float, bool, table, look, put, as_text, as_table, Result, ok, err,
}
use sentra_lab.Base.Float64.{Float64}

pub record Migration (F : Type 0) : Type 0 where
  pub from_version : String
  pub to_version : String
  pub description : String
  pub migrate_data : Table F → Table F

-- A version that is missing, or no text, counts as the oldest.
unfoldable pub version_of : Option String → String
version_of none = "0.9"
version_of (some version) = version

module _ {F : Type 0} where
  -- if _, ok := data[key]; !ok { data[key] = v }
  unfoldable pub put_missing : String → Value F → Table F → Table F
  put_missing key v config = elim (look key config) [ none ↦ put key v config | some w ↦ config ]

  unfoldable pub get_current_version : Table F → String
  unfolding version_of
  get_current_version config = version_of (as_text (look "version" config))

  abbrev pub default_storage : Value F
  default_storage = table (
      entry "recordings_dir" (str ".sentra-lab/recordings")
        (entry "database" (str ".sentra-lab/sentra.db") empty))

  unfoldable pub put_agent : Option (Table F) → Table F → Table F
  unfolding put_missing
  put_agent none config = config
  put_agent (some agent) config =
      put "agent" (table (put_missing "timeout" (str "30s") agent)) config

  -- It never returns an error.
  unfoldable pub migrate_v10_to_v11 : Table F → Table F
  unfolding put_missing put_agent
  migrate_v10_to_v11 config =
      let config' = put_missing "storage" default_storage config in
      put_agent (as_table (look "agent" config')) config'

module _ {F : Type 0} ⦃fl : Float64 F⦄ where
  abbrev pub default_simulation : Value F
  default_simulation = table (
      entry "record_full_trace" (bool true) (
        entry "enable_cost_tracking" (bool true)
          (entry "max_concurrent_scenarios" (int (pos 10)) empty)))

  unfoldable pub migrate_mock : String → Table F → Table F
  migrate_mock name mock =
      let mock' = put_missing "enabled" (bool true) mock in
      if str_eq name "openai"
      then put_missing "error_rate" (float (fl.div (fl.of_int (pos 1)) (fl.of_int (pos 100)))) (
          put_missing "rate_limit" (int (pos 3500))
            (put_missing "latency_ms" (int (pos 1000)) mock'))
      else mock'

  unfoldable pub migrate_mocks : Table F → Table F
  unfolding migrate_mock
  migrate_mocks empty = empty
  migrate_mocks (entry name (table mock) mocks) =
      entry name (table (migrate_mock name mock)) (migrate_mocks mocks)
  migrate_mocks (entry name v mocks) = entry name v (migrate_mocks mocks)

  unfoldable pub put_mocks : Option (Table F) → Table F → Table F
  unfolding migrate_mocks
  put_mocks none config = config
  put_mocks (some mocks) config = put "mocks" (table (migrate_mocks mocks)) config

  -- It never returns an error.
  unfoldable pub migrate_v09_to_v10 : Table F → Table F
  unfolding put_missing put_mocks
  migrate_v09_to_v10 config =
      let config' = put_missing "simulation" default_simulation config in
      put_mocks (as_table (look "mocks" config')) config'

  abbrev pub migrations : List (Migration F)
  migrations =
      record {
        from_version = "0.9";
        to_version = "1.0";
        description = "Add simulation settings and update mock structure";
        migrate_data = migrate_v09_to_v10;
      }
      ∷ record {
        from_version = "1.0";
        to_version = "1.1";
        description = "Add storage configuration";
        migrate_data = migrate_v10_to_v11;
      }
      ∷ []

  -- The loop: whether a migration was applied, the current version, and the data.
  unfoldable pub apply_migrations : List (Migration F) → Bool → String → Table F → Bool × Table F
  apply_migrations [] migrated current config = (migrated, config)
  apply_migrations (m ∷ ms) migrated current config =
      let applied =
        apply_migrations ms true m.to_version
          (put "version" (str m.to_version) (m.migrate_data config)) in
      let skipped = apply_migrations ms migrated current config in
      if str_eq current m.from_version then applied else skipped

  unfoldable pub migrate : Value F → Result String Bool × Value F
  unfolding apply_migrations
  migrate (table config) =
      let current = get_current_version config in
      let (migrated, config') = apply_migrations migrations false current config in
      if str_eq current "1.1" then (ok false, table config) else (ok migrated, table config')
  migrate cfg = (err "invalid config format", cfg)
