-- ===== src/Config/Accepted.antt =====
-- packages/cli/cmd/config/validator.go: what is known of a configuration that the validator accepts.
use mathlib.Core.Path.{subst}
use sentra_lab.Config
use sentra_lab.Base.{
  String, ◌≡◌, refl, sym, ap, ◌∙◌, Bool, true, false, ◌||◌, Option, none, some, List, [], ◌∷◌,
  arith, str_eq, ℤ, pos, ltb_ℤ, ◌≤ℤ◌, Value, Table, empty, entry, table, str, int, float, bool,
  items, nil, look, as_text, as_int, as_float, as_bool, as_table, contains, Bool-cases, inl, inr,
}
use sentra_lab.Base.Float64.{Float64, nought}
use sentra_lab.Config.{Settings, ConfigError, valid_runtimes}
use sentra_lab.Config.Loader.{plain}
use sentra_lab.Config.Validator.{
  Validator, ValidationError, check_if_enabled, check_all_mocks, verdict, new_validator, is_blank,
  validate_name, validate_version, validate_agent, validate_simulation, validate_storage,
  check_port, check_nonneg, check_error_rate, check_enabled, check_mock, check_mocks,
  validate_mocks, validate,
}
use sentra_lab.Config.Clean.{
  some_inj, IsClean, guard-IsClean, IsAgent, check_agent-IsClean, check_simulation-IsClean,
  check_storage-IsClean,
}

module _ {F : Type 0} ⦃fl : Float64 F⦄ (format_int : ℤ → String) (format_float : F → String) where
  check_port-IsClean :
      (name : String) (o : Option ℤ) (v : Validator)
      → IsClean (check_port format_int format_float name o v)
      → IsClean v × ((p : ℤ) → o ≡ some p → (pos 1024 ≤ℤ p) × (p ≤ℤ pos 65535))
  unfolding check_port
  check_port-IsClean name none v h = (h, λ p e. cc)
  check_port-IsClean name (some port) v h =
      let (clean, within) =
        guard-IsClean (ltb_ℤ port (pos 1024) || ltb_ℤ (pos 65535) port) _ _ _ v v h in
      (clean, λ p e. let one : port ≡ p = cc in rw (sym one) (ground arith))

  check_nonneg-IsClean :
      (field hint : String) (o : Option ℤ) (v : Validator)
      → IsClean (check_nonneg format_int format_float field hint o v)
      → IsClean v
  unfolding check_nonneg
  check_nonneg-IsClean field hint none v h = h
  check_nonneg-IsClean field hint (some n) v h =
      (guard-IsClean (ltb_ℤ n (pos 0)) field _ hint v v h).0

  check_error_rate-IsClean :
      (name : String) (o : Option F) (v : Validator)
      → IsClean (check_error_rate format_int format_float name o v)
      → IsClean v
  unfolding check_error_rate
  check_error_rate-IsClean name none v h = h
  check_error_rate-IsClean name (some rate) v h =
      (guard-IsClean (fl.lt rate nought || fl.lt (fl.of_int (pos 1)) rate) _ _ _ v v h).0

  -- An enabled mock's port is within the user ports, where it has one.
  abbrev pub IsMock : Table F → Type 0
  IsMock mock = (p : ℤ) → as_int (look "port" mock) ≡ some p → (pos 1024 ≤ℤ p) × (p ≤ℤ pos 65535)

  check_enabled-IsClean :
      (name : String) (mock : Table F) (v : Validator)
      → IsClean (check_enabled format_int format_float name mock v)
      → IsClean v × IsMock mock
  unfolding check_enabled
  check_enabled-IsClean name mock v h =
      let h1 = check_error_rate-IsClean name (as_float (look "error_rate" mock)) _ h in
      let h2 = check_nonneg-IsClean _ _ (as_int (look "rate_limit" mock)) _ h1 in
      let h3 = check_nonneg-IsClean _ _ (as_int (look "latency_ms" mock)) _ h2 in
      check_port-IsClean name (as_int (look "port" mock)) v h3

  check_if_enabled-IsClean :
      (o : Option Bool) (name : String) (mock : Table F) (v : Validator)
      → IsClean (check_if_enabled format_int format_float o name mock v)
      → IsClean v × (o ≡ some true → IsMock mock)
  unfolding check_if_enabled
  check_if_enabled-IsClean (some true) name mock v h =
      let (clean, fine) = check_enabled-IsClean name mock v h in (clean, λ e. fine)
  check_if_enabled-IsClean (some false) name mock v h = (h, λ e. absurd (cc))
  check_if_enabled-IsClean none name mock v h = (h, λ e. absurd (cc))

  check_mock-IsClean :
      (name : String) (mock : Value F) (v : Validator)
      → IsClean (check_mock format_int format_float name mock v)
      → IsClean v
        × ((m : Table F) → mock ≡ table m → as_bool (look "enabled" m) ≡ some true → IsMock m)
  unfolding check_mock
  check_mock-IsClean name (table mock) v h =
      let (clean, fine) = check_if_enabled-IsClean (as_bool (look "enabled" mock)) name mock v h in
      (
        clean,
        λ m same on.
            let one : mock ≡ m = cc in
            subst IsMock one (fine (ap (λ t. as_bool (look "enabled" t)) one ∙ on)),
      )
  check_mock-IsClean name (str s) v h = (h, λ m same on. absurd (cc))
  check_mock-IsClean name (int s) v h = (h, λ m same on. absurd (cc))
  check_mock-IsClean name (float s) v h = (h, λ m same on. absurd (cc))
  check_mock-IsClean name (bool s) v h = (h, λ m same on. absurd (cc))
  check_mock-IsClean name (items s) v h = (h, λ m same on. absurd (cc))
  check_mock-IsClean name nil v h = (h, λ m same on. absurd (cc))

  check_mocks-IsClean :
      (mocks : Table F) (v : Validator)
      → IsClean (check_mocks format_int format_float mocks v)
      → IsClean v
        × ((name : String) (m : Table F)
            → look name mocks ≡ some (table m)
            → as_bool (look "enabled" m) ≡ some true
            → IsMock m)
  unfolding check_mocks look
  check_mocks-IsClean empty v h = (h, λ name m found on. absurd (cc))
  check_mocks-IsClean (entry k mock mocks) v h =
      let (h1, later) = check_mocks-IsClean mocks (check_mock format_int format_float k mock v) h in
      let (clean, here) = check_mock-IsClean k mock v h1 in
      (
        clean,
        λ name m found on. elim (Bool-cases (str_eq k name)) [
          | inl same ↦ here m (ground arith) on
          | inr other ↦ later name m (ground arith) on
        ],
      )

  check_all_mocks-IsClean :
      (o : Option (Table F)) (v : Validator)
      → IsClean (check_all_mocks format_int format_float o v)
      → IsClean v
        × ((mocks : Table F) (name : String) (m : Table F)
            → o ≡ some mocks
            → look name mocks ≡ some (table m)
            → as_bool (look "enabled" m) ≡ some true
            → IsMock m)
  unfolding check_all_mocks
  check_all_mocks-IsClean none v h = (h, λ mocks name m e found on. absurd (cc))
  check_all_mocks-IsClean (some t) v h =
      let (clean, fine) = check_mocks-IsClean t v h in
      (
        clean,
        λ mocks name m e found on.
            let one : t ≡ mocks = cc in fine name m (ap (look name) one ∙ found) on,
      )

  verdict-none : (v : Validator) (es : List ValidationError) → verdict v es ≡ none → es ≡ []
  unfolding verdict
  verdict-none v [] h = refl
  verdict-none v (e ∷ es) h = absurd (cc)

  -- All that the checks of an accepted configuration say of it.
  validate-IsClean :
      (config : Table F)
      → (validate format_int format_float (table config) new_validator).0 ≡ none
      → (is_blank (as_text (look "name" config)) ≡ false)
        × (is_blank (as_text (look "version" config)) ≡ false)
        × ((agent : Table F) × (as_table (look "agent" config) ≡ some agent) × IsAgent agent)
        × ((mocks : Table F) (name : String) (m : Table F)
            → as_table (look "mocks" config) ≡ some mocks
            → look name mocks ≡ some (table m)
            → as_bool (look "enabled" m) ≡ some true
            → IsMock m)
  unfolding validate validate_name validate_version validate_agent validate_mocks
      validate_simulation validate_storage
  validate-IsClean config h =
      let h1 = verdict-none _ _ h in
      let h2 = check_storage-IsClean (as_table (look "storage" config)) _ h1 in
      let h3 = check_simulation-IsClean (as_table (look "simulation" config)) _ h2 in
      let (h4, mocks) = check_all_mocks-IsClean (as_table (look "mocks" config)) _ h3 in
      let (h5, agent, found, fine) = check_agent-IsClean (as_table (look "agent" config)) _ h4 in
      let (h6, version) = guard-IsClean (is_blank (as_text (look "version" config))) _ _ _ _ _ h5 in
      let (clean, name) = guard-IsClean (is_blank (as_text (look "name" config))) _ _ _ _ _ h6 in
      (name, version, (agent, found, fine), mocks)

  -- In a configuration that the validator accepts, every mock that is enabled and has a whole number
  -- as its port has it between 1024 and 65535.
  pub validate-bounds :
      (config mocks mock : Table F) (name : String) (port : ℤ)
      → (validate format_int format_float (table config) new_validator).0 ≡ none
      → as_table (look "mocks" config) ≡ some mocks
      → look name mocks ≡ some (table mock)
      → as_bool (look "enabled" mock) ≡ some true
      → as_int (look "port" mock) ≡ some port
      → (pos 1024 ≤ℤ port) × (port ≤ℤ pos 65535)
  validate-bounds config mocks mock name port h all found on bound =
      (validate-IsClean config h).3 mocks name mock all found on port bound

  -- What the validator of the command accepts is accepted by the Validate of the library, of any
  -- settings that hold the texts that the configuration has for their name, version, runtime and
  -- entry point.
  pub validate-strict :
      (config agent : Table F) (s : Settings F)
      → (validate format_int format_float (table config) new_validator).0 ≡ none
      → as_table (look "agent" config) ≡ some agent
      → as_text (look "name" config) ≡ some s.name
      → as_text (look "version" config) ≡ some s.version
      → as_text (look "runtime" agent) ≡ some s.agent.runtime
      → as_text (look "entry_point" agent) ≡ some s.agent.entry_point
      → Config.validate (plain s) ≡ none
  unfolding Config.validate
  validate-strict config agent s h found name version runtime entry_point =
      let (named, versioned, (a, found', (r, run, given, valid, entered)), mocks) =
        validate-IsClean config h in
      let one : a ≡ agent = cc in
      let run' : r ≡ s.agent.runtime =
        some_inj (sym run ∙ ap (λ t. as_text (look "runtime" t)) one ∙ runtime) in
      let has_name : str_eq s.name "" ≡ false = ap is_blank (sym name) ∙ named in
      let has_version : str_eq s.version "" ≡ false = ap is_blank (sym version) ∙ versioned in
      let has_runtime : str_eq s.agent.runtime "" ≡ false =
        ap (λ t. str_eq t "") (sym run') ∙ given in
      let is_runtime : contains valid_runtimes s.agent.runtime ≡ true =
        ap (contains valid_runtimes) (sym run') ∙ valid in
      let has_entry : str_eq s.agent.entry_point "" ≡ false =
        ap is_blank (sym entry_point)
        ∙ ap (λ t. is_blank (as_text (look "entry_point" t))) (sym one)
        ∙ entered in
      rw (has_name, has_version, has_runtime, is_runtime, has_entry) refl
