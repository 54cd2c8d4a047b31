-- ===== src/Config/Commands.antt =====
-- packages/cli/cmd/config/config.go: the config command. What a command prints is its result; the
-- lines of the log that say only that it succeeded are left out. `home` is os.UserHomeDir.
use sentra_lab.Base.{
  ℕ, zero, suc, ◌+◌, String, ◌<>◌, Bool, true, false, none, some, List, [], ◌∷◌, ◌++◌,
  if◌then◌else◌, ℤ, Value, Items, last, item, Table, empty, entry, str, int, float, bool, items,
  table, nil, Result, ok, err,
}
use sentra_lab.Base.Files.{FileSystem}
use sentra_lab.Config.{Config, ConfigError, get, set, validate, table_of}
use sentra_lab.Config.Loader.{LoadError, Yaml, new_loader, load, save}

pub data CommandError : Type 0 where
  failed_to_load failed_to_parse failed_to_save : LoadError → CommandError
  key_missing : String → CommandError
  failed_to_set validation_failed : ConfigError → CommandError
  load_validation_failed : LoadError → CommandError
  failed_to_backup : CommandError

abbrev pub get_config_path : Bool → String → String
get_config_path global home = if global then home <> "/.sentra-lab/config.yaml" else "lab.yaml"

unfoldable pub indent_text : ℕ → String
indent_text zero = ""
indent_text (suc n) = "  " <> indent_text n

-- internal/config/schema.go: the Migrator of the library, which has no migrations.
unfoldable pub library_migrate : {F : Type 0} → Config F → Bool
library_migrate c = false

-- %v of an int and of a float64, and yaml.Marshal of a map.
pub record Format (F : Type 0) : Type 0 where
  pub show_int : ℤ → String
  pub show_float : F → String
  pub show_table : Table F → String

module _ {F : Type 0} (format : Format F) where
  unfoldable mutual
    pub format_value : Value F → String
    format_value (str s) = s
    format_value (int n) = format.show_int n
    format_value (float x) = format.show_float x
    format_value (bool b) = if b then "true" else "false"
    format_value (items vs) = "[" <> format_items vs <> "]"
    format_value (table t) = format.show_table t
    format_value nil = "<nil>"

    -- The items, joined by a comma.
    pub format_items : Items F → String
    format_items last = ""
    format_items (item v last) = format_value v
    format_items (item v (item w vs)) = format_value v <> ", " <> format_items (item w vs)

  unfoldable mutual
    -- The lines that are logged.
    pub print_config_tree : Table F → ℕ → List String
    print_config_tree empty indent = []
    print_config_tree (entry key v t) indent =
        print_entry key v indent ++ print_config_tree t indent

    pub print_entry : String → Value F → ℕ → List String
    print_entry key (table t) indent =
        (indent_text indent <> key <> ":") ∷ print_config_tree t (indent + 1)
    print_entry key v indent = (indent_text indent <> key <> ": " <> format_value v) ∷ []

module _ {W F : Type 0} (fs : FileSystem W) (yaml : Yaml F) where
  -- NewLoader and Load, with which every command begins.
  unfoldable pub loaded : (LoadError → CommandError) → String → W → Result CommandError (Config F)
  unfolding new_loader load
  loaded failed path w = elim (new_loader fs yaml path w) [
    | err e ↦ err (failed_to_load e)
    | ok p ↦ elim (load fs yaml p w) [ err e ↦ err (failed e) | ok c ↦ ok c ]
  ]

  unfoldable pub get_command : Format F → String → String → W → Result CommandError String
  unfolding loaded get format_value
  get_command format path key w = elim (loaded failed_to_parse path w) [
    | err e ↦ err e
    | ok c ↦ elim (get key c) [ err e ↦ err (key_missing key) | ok v ↦ ok (format_value format v) ]
  ]

  -- Set and Save. The value is what parseValue makes of the argument.
  unfoldable pub saved : Result LoadError (Unit {0}) × W → Result CommandError (Unit {0}) × W
  saved (ok done, w) = (ok done, w)
  saved (err e, w) = (err (failed_to_save e), w)

  unfoldable pub save_set :
      String → Result ConfigError (Unit {0}) × Config F → W → Result CommandError (Unit {0}) × W
  unfolding saved save
  save_set path (ok done, c) w = saved (save fs yaml path c w)
  save_set path (err e, c) w = (err (failed_to_set e), w)

  unfoldable pub set_loaded :
      String
      → String
      → Value F
      → Result CommandError (Config F)
      → W
      → Result CommandError (Unit {0}) × W
  unfolding save_set set
  set_loaded path key v (err e) w = (err e, w)
  set_loaded path key v (ok c) w = save_set path (set key v c) w

  unfoldable pub set_command : String → String → Value F → W → Result CommandError (Unit {0}) × W
  unfolding set_loaded loaded
  set_command path key v w = set_loaded path key v (loaded failed_to_parse path w) w

  -- The lines after the one that names the file.
  unfoldable pub list_command : Format F → String → W → Result CommandError (List String)
  unfolding loaded print_config_tree
  list_command format path w = elim (loaded failed_to_parse path w) [
    | err e ↦ err e
    | ok c ↦ ok (print_config_tree format (table_of c.raw) 0)
  ]

  -- internal/config/schema.go: the Validator of the library calls Validate.
  unfoldable pub validated : Config F → Result CommandError (Unit {0})
  unfolding validate
  validated c = elim (validate c) [ none ↦ ok tt | some e ↦ err (validation_failed e) ]

  unfoldable pub validate_command : String → W → Result CommandError (Unit {0})
  unfolding loaded validated
  validate_command path w = elim (loaded load_validation_failed path w) [
    | err e ↦ err e
    | ok c ↦ validated c
  ]

  unfoldable pub copy_file : String → String → W → Bool × W
  copy_file src dst w = elim (fs.read src w) [ none ↦ (false, w) | some text ↦ fs.write dst text w ]

  -- The result is whether a migration was made.
  unfoldable pub migrate_loaded :
      String → Result CommandError (Config F) → W → Result CommandError Bool × W
  unfolding copy_file library_migrate saved save
  migrate_loaded path (err e) w = (err e, w)
  migrate_loaded path (ok c) w =
      let (copied, w1) = copy_file path (path <> ".backup") w in
      let (written, w2) = saved (save fs yaml path c w1) in
      if copied
      then (if library_migrate c
          then (elim written [ ok done ↦ ok true | err e ↦ err e ], w2)
          else (ok false, (fs.remove (path <> ".backup") w1).1))
      else (err failed_to_backup, w1)

  unfoldable pub migrate_command : String → W → Result CommandError Bool × W
  unfolding migrate_loaded loaded
  migrate_command path w = migrate_loaded path (loaded failed_to_parse path w) w
