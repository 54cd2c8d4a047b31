-- ===== src/Config/Loader.antt =====
-- packages/cli/internal/config/loader.go. The YAML library is a pair of parameters, over the fields
-- that it reads and writes.
use sentra_lab.Base.{
  sym, String, ◌≡◌, ap, ◌∙◌, Option, none, some, if◌then◌else◌, arith, Result, ok, err, Value,
  Option-cases, inl, inr,
}
use sentra_lab.Base.Files.{FileSystem}
use sentra_lab.Config.Defaults.{
  validate-apply_defaults, apply_defaults_idem, raw-apply_defaults, get-empty,
}
use sentra_lab.Config.{
  set, Config, Settings, ConfigError, key_not_found, validate, apply_defaults, get,
}

pub data LoadError : Type 0 where
  file_not_found : String → LoadError
  failed_to_read failed_to_parse failed_to_marshal failed_to_write : LoadError
  invalid_config : ConfigError → LoadError

pub record Yaml (F : Type 0) : Type 0 where
  pub unmarshal : String → Option (Settings F)
  pub marshal : Settings F → Option String

-- What YAML makes of a file: the unexported field stays nil.
abbrev pub plain : {F : Type 0} → Settings F → Config F
plain s = record { settings = s; raw = none }

module _ {W F : Type 0} (fs : FileSystem W) (yaml : Yaml F) where
  -- A loader is its path.
  unfoldable pub new_loader : String → W → Result LoadError String
  new_loader path w = if fs.is_missing path w then err (file_not_found path) else ok path

  checked : Config F → Option ConfigError → Result LoadError (Config F)
  checked c none = ok (apply_defaults c)
  checked c (some e) = err (invalid_config e)

  parsed : Option (Settings F) → Result LoadError (Config F)
  unfolding checked
  parsed none = err failed_to_parse
  parsed (some s) = checked (plain s) (validate (plain s))

  unfoldable pub load : String → W → Result LoadError (Config F)
  unfolding parsed
  load path w = elim (fs.read path w) [
    | none ↦ err failed_to_read
    | some text ↦ parsed (yaml.unmarshal text)
  ]

  unfoldable pub save : String → Config F → W → Result LoadError (Unit {0}) × W
  save path c w = elim (yaml.marshal c.settings) [
    | none ↦ (err failed_to_marshal, w)
    | some text ↦
        let (done, w') = fs.write path text w in (if done then ok tt else err failed_to_write, w')
  ]

  parsed-ok :
      (o : Option (Settings F)) (c : Config F)
      → parsed o ≡ ok c
      → (s : Settings F) × (validate (plain s) ≡ none) × (c ≡ apply_defaults (plain s))
  unfolding parsed checked
  parsed-ok none c h = cc
  parsed-ok (some s) c h = elim (Option-cases (validate (plain s))) [
    | inl valid ↦ (s, valid, ground arith)
    | inr (e, bad) ↦ absurd (ground arith)
  ]

  load-ok :
      (path : String) (w : W) (c : Config F)
      → load path w ≡ ok c
      → (s : Settings F) × (validate (plain s) ≡ none) × (c ≡ apply_defaults (plain s))
  unfolding load
  load-ok path w c h = elim (Option-cases (fs.read path w)) [
    | inl unread ↦ absurd (ground arith)
    | inr (text, found) ↦ parsed-ok (yaml.unmarshal text) c (ground arith)
  ]

  -- What a Load returns is valid and has its defaults: Validate accepts it, and ApplyDefaults changes
  -- nothing of it.
  pub load-valid :
      (path : String) (w : W) (c : Config F)
      → load path w ≡ ok c
      → (validate c ≡ none) × (apply_defaults c ≡ c)
  load-valid path w c h =
      let (s, valid, eq) = load-ok path w c h in
      (
        ap validate eq ∙ validate-apply_defaults (plain s) ∙ valid,
        ap apply_defaults eq ∙ apply_defaults_idem (plain s) ∙ sym eq,
      )

  -- What a Load returns has the nil map.
  pub load-raw : (path : String) (w : W) (c : Config F) → load path w ≡ ok c → c.raw ≡ none
  load-raw path w c h =
      let (s, valid, eq) = load-ok path w c h in ap (λ c. c.raw) eq ∙ raw-apply_defaults (plain s)

  -- Of a configuration that was loaded from a file Get finds no key, whatever the file holds: nothing
  -- fills the map that Get reads.
  pub get-load :
      (path key : String) (w : W) (c : Config F)
      → load path w ≡ ok c
      → get key c ≡ err (key_not_found key)
  get-load path key w c h =
      let (s, valid, eq) = load-ok path w c h in
      ap (get key) eq ∙ get-empty key (apply_defaults (plain s)) (raw-apply_defaults (plain s))

  -- A change that is only made by Set is lost in a Save: the file gets the text that it would have
  -- got without it.
  pub save-set :
      (path key : String) (v : Value F) (c : Config F) (w : W)
      → save path (set key v c).1 w ≡ save path c w
  unfolding save set
  save-set path key v c w = ground arith
