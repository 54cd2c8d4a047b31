-- ===== src/Config/Effects.antt =====
-- packages/cli/cmd/config/config.go: what the commands do to the configuration, and what they do not.
use sentra_lab.Base.{
  String, ◌<>◌, ◌≡◌, ◌≢◌, refl, sym, ap, ◌∙◌, true, false, List, [], arith, str_eq, Value, Result,
  ok, err, Option-cases, Bool-cases, inl, inr, ◌⊎◌,
}
use sentra_lab.Base.Files.{FileSystem, IsFileSystem}
use sentra_lab.Config.{Config, ConfigError, set, table_of}
use sentra_lab.Config.Loader.{
  LoadError, Yaml, new_loader, load, save, get-load, load-valid, save-set, load-raw,
}
use sentra_lab.Config.Commands.{
  CommandError, Format, failed_to_parse, load_validation_failed, loaded, get_command, set_loaded,
  save_set, saved, set_command, print_config_tree, list_command, validated, validate_command,
  copy_file, migrate_loaded, migrate_command, library_migrate,
}

module _ {W F : Type 0} (fs : FileSystem W) (yaml : Yaml F) where
  loaded-load :
      (failed : LoadError → CommandError) (path : String) (w : W) (c : Config F)
      → loaded fs yaml failed path w ≡ ok c
      → load fs yaml path w ≡ ok c
  unfolding loaded new_loader
  loaded-load failed path w c h = elim (Bool-cases (fs.is_missing path w)) [
    | inl missing ↦ absurd (ground arith)
    | inr there ↦ ground arith
  ]

  Result-cases :
      (r : Result CommandError (Config F))
      → ((e : CommandError) × (r ≡ err e)) ⊎ ((c : Config F) × (r ≡ ok c))
  Result-cases (err e) = inl (e, refl)
  Result-cases (ok c) = inr (c, refl)

  -- `config get` never prints a value, whatever the file holds and whatever the key.
  pub get_command-ok :
      (format : Format F) (path key : String) (w : W) (s : String)
      → get_command fs yaml format path key w ≢ ok s
  unfolding get_command
  get_command-ok format path key w s h =
      elim (Result-cases (loaded fs yaml failed_to_parse path w)) [
        | inl (e, failed) ↦ ground arith
        | inr (c, read) ↦
            ground
              (arith, get-load fs yaml path key w c (loaded-load failed_to_parse path w c read))
      ]

  -- `config list` prints no key of a configuration, whatever the file holds.
  pub list_command-ok :
      (format : Format F) (path : String) (w : W) (lines : List String)
      → list_command fs yaml format path w ≡ ok lines
      → lines ≡ []
  unfolding list_command print_config_tree
  list_command-ok format path w lines h =
      elim (Result-cases (loaded fs yaml failed_to_parse path w)) [
        | inl (e, failed) ↦ absurd (ground arith)
        | inr (c, read) ↦
            let none_read = load-raw fs yaml path w c (loaded-load failed_to_parse path w c read) in
            let printed : print_config_tree format (table_of c.raw) 0 ≡ lines = ground arith in
            sym printed ∙ ap (λ o. print_config_tree format (table_of o) 0) none_read
      ]

  -- `config validate` accepts a file just where a Load does: its own validation adds nothing.
  pub validate_command-load :
      (path : String) (w : W)
      → validate_command fs yaml path w
        ≡ (elim (loaded fs yaml load_validation_failed path w) [ err e ↦ err e | ok c ↦ ok tt ])
  unfolding validate_command validated
  validate_command-load path w =
      elim (Result-cases (loaded fs yaml load_validation_failed path w)) [
        | inl (e, failed) ↦ ground arith
        | inr (c, read) ↦
            let (valid, complete) =
              load-valid fs yaml path w c (loaded-load load_validation_failed path w c read) in
            ground arith
      ]

  saved-world : (r : Result LoadError (Unit {0}) × W) → (saved fs yaml r).1 ≡ r.1
  unfolding saved
  saved-world (ok done, w) = refl
  saved-world (err e, w) = refl

  save_set-world :
      (path : String) (r : Result ConfigError (Unit {0}) × Config F) (w : W)
      → (save_set fs yaml path r w).0 ≡ ok tt
      → (save_set fs yaml path r w).1 ≡ (save fs yaml path r.1 w).1
  unfolding save_set saved
  save_set-world path (err e, c) w h = absurd (cc)
  save_set-world path (ok done, c) w h = saved-world (save fs yaml path c w)

  set_loaded-world :
      (path key : String) (v : Value F) (c : Config F) (w : W) (r : Result CommandError (Config F))
      → r ≡ ok c
      → (set_loaded fs yaml path key v r w).0 ≡ ok tt
      → (set_loaded fs yaml path key v r w).1 ≡ (save fs yaml path c w).1
  unfolding set_loaded
  set_loaded-world path key v c w (err e) read h = absurd (cc)
  set_loaded-world path key v c w (ok c') read h =
      let one : c' ≡ c = cc in
      save_set-world path (set key v c') w h
      ∙ ap (λ r. r.1) (save-set fs yaml path key v c' w)
      ∙ ap (λ c. (save fs yaml path c w).1) one

  -- Two runs of `config set` on one file that both succeed leave the same files, whatever keys and
  -- values they set.
  pub set_command-same :
      (path key key' : String) (v v' : Value F) (w : W)
      → (set_command fs yaml path key v w).0 ≡ ok tt
      → (set_command fs yaml path key' v' w).0 ≡ ok tt
      → (set_command fs yaml path key v w).1 ≡ (set_command fs yaml path key' v' w).1
  unfolding set_command set_loaded save_set
  set_command-same path key key' v v' w h h' =
      elim (Result-cases (loaded fs yaml failed_to_parse path w)) [
        | inl (e, failed) ↦ absurd (ground arith)
        | inr (c, read) ↦
            set_loaded-world path key v c w _ read h
            ∙ sym (set_loaded-world path key' v' c w _ read h')
      ]

  copy_file-keeps :
      IsFileSystem fs
      → (src dst other : String) (w : W) → str_eq dst other ≡ false
      → fs.read other (copy_file fs yaml src dst w).1 ≡ fs.read other w
  unfolding copy_file
  copy_file-keeps good src dst other w away = elim (Option-cases (fs.read src w)) [
    | inl missing ↦ ground arith
    | inr (text, found) ↦ ground (arith, good.read-write_apart dst other text w away)
  ]

  migrate_loaded-keeps :
      IsFileSystem fs
      → (path other : String) (r : Result CommandError (Config F)) (w : W)
      → str_eq (path <> ".backup") other ≡ false
      → fs.read other (migrate_loaded fs yaml path r w).1 ≡ fs.read other w
  unfolding migrate_loaded library_migrate
  migrate_loaded-keeps good path other (err e) w away = refl
  migrate_loaded-keeps good path other (ok c) w away =
      let backup = path <> ".backup" in
      let r = copy_file fs yaml path backup w in
      let kept = copy_file-keeps good path backup other w away in
      elim (Bool-cases r.0) [
        | inl copied ↦ rw copied (good.read-remove_apart backup other r.1 away ∙ kept)
        | inr failed ↦ rw failed kept
      ]

  migrate_loaded-never :
      (path : String) (r : Result CommandError (Config F)) (w : W)
      → (migrate_loaded fs yaml path r w).0 ≢ ok true
  unfolding migrate_loaded library_migrate
  migrate_loaded-never path (err e) w h = cc
  migrate_loaded-never path (ok c) w h = ground arith

  -- `config migrate` never reports a migration, whatever version the file has.
  pub migrate_command-never : (path : String) (w : W) → (migrate_command fs yaml path w).0 ≢ ok true
  unfolding migrate_command
  migrate_command-never path w h = migrate_loaded-never path _ w h

  -- `config migrate` leaves every file but the backup as it was, errors included. (The file system
  -- touches no other path than that which is written or removed.)
  pub migrate_command-keeps :
      IsFileSystem fs
      → (path other : String) (w : W) → str_eq (path <> ".backup") other ≡ false
      → fs.read other (migrate_command fs yaml path w).1 ≡ fs.read other w
  unfolding migrate_command
  migrate_command-keeps good path other w away = migrate_loaded-keeps good path other _ w away
