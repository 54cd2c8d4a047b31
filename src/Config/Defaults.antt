-- ===== src/Config/Defaults.antt =====
-- packages/cli/internal/config/parser.go: what the defaults leave for Validate and for Get.
use sentra_lab.Base.{
  String, ◌≡◌, refl, ap, ◌∙◌, false, none, List, [], ◌∷◌, arith, str_eq, ℤ, pos, eqb_ℤ, Dict, err,
  split, empty, table, look, Bool-cases, inl, inr, ◌≢◌,
}
use sentra_lab.Config.{
  Config, MockConfig, key_not_found, validate, apply_defaults, default_ports, default_port, get,
  get_at, table_of, text_or, int_or,
}
use sentra_lab.Config.Paths.{split-≢}

text_or_idem : (d s : String) → str_eq d "" ≡ false → text_or d (text_or d s) ≡ text_or d s
text_or_idem d s given = ground arith

int_or_idem : (d : ℤ) (n : ℤ) → eqb_ℤ d (pos 0) ≡ false → int_or d (int_or d n) ≡ int_or d n
int_or_idem d n given = elim (Bool-cases (eqb_ℤ n (pos 0))) [
  | inl zero_port ↦ ground arith
  | inr set_port ↦ ground arith
]

default_port-≢ : (name : String) → eqb_ℤ (default_port name) (pos 0) ≡ false
default_port-≢ name = ground arith

module _ {F : Type 0} where
  default_ports_idem :
      (mocks : Dict (MockConfig F)) → default_ports (default_ports mocks) ≡ default_ports mocks
  unfolding default_ports
  default_ports_idem [] = refl
  default_ports_idem ((name, mock) ∷ mocks) =
      ap (λ n. (name, record mock { port = n }) ∷ default_ports (default_ports mocks))
        (int_or_idem (default_port name) mock.port (default_port-≢ name))
      ∙ ap (λ ms. (name, record mock { port = int_or (default_port name) mock.port }) ∷ ms)
          (default_ports_idem mocks)

  -- The configuration with its five defaulted fields replaced.
  abbrev filled : Config F → String → ℤ → String → String → Dict (MockConfig F) → Config F
  filled c timeout scenarios recordings database mocks =
      let s = c.settings in
      record c {
        settings = record s {
          agent = record s.agent { timeout = timeout };
          simulation = record s.simulation { max_concurrent_scenarios = scenarios };
          storage = record { recordings_dir = recordings; database = database };
          mocks = mocks;
        };
      }

  -- Filling in the defaults twice is filling them in once.
  pub apply_defaults_idem : (c : Config F) → apply_defaults (apply_defaults c) ≡ apply_defaults c
  unfolding apply_defaults
  apply_defaults_idem c =
      let s = c.settings in
      let t = text_or "30s" s.agent.timeout in
      let n = int_or (pos 10) s.simulation.max_concurrent_scenarios in
      let r = text_or ".sentra-lab/recordings" s.storage.recordings_dir in
      let d = text_or ".sentra-lab/sentra.db" s.storage.database in
      let ms = default_ports s.mocks in
      ap
        (λ t'.
          filled c t' (int_or (pos 10) n) (text_or ".sentra-lab/recordings" r)
            (text_or ".sentra-lab/sentra.db" d) (default_ports ms))
        (text_or_idem "30s" s.agent.timeout refl)
      ∙ ap
          (λ n'.
            filled c t n' (text_or ".sentra-lab/recordings" r) (text_or ".sentra-lab/sentra.db" d)
              (default_ports ms))
          (int_or_idem (pos 10) s.simulation.max_concurrent_scenarios refl)
      ∙ ap (λ r'. filled c t n r' (text_or ".sentra-lab/sentra.db" d) (default_ports ms))
          (text_or_idem ".sentra-lab/recordings" s.storage.recordings_dir refl)
      ∙ ap (λ d'. filled c t n r d' (default_ports ms))
          (text_or_idem ".sentra-lab/sentra.db" s.storage.database refl)
      ∙ ap (λ ms'. filled c t n r d ms') (default_ports_idem s.mocks)

  pub validate-apply_defaults : (c : Config F) → validate (apply_defaults c) ≡ validate c
  unfolding validate apply_defaults
  validate-apply_defaults c = refl

  pub raw-apply_defaults : (c : Config F) → (apply_defaults c).raw ≡ c.raw
  unfolding apply_defaults
  raw-apply_defaults c = refl

  get_at-empty :
      (key : String) (ps : List String)
      → ps ≢ []
      → get_at {F = F} key ps (table empty) ≡ err (key_not_found key)
  unfolding get_at look
  get_at-empty key [] some_part = absurd (some_part refl)
  get_at-empty key (p ∷ ps) some_part = refl

  pub get-empty : (key : String) (c : Config F) → c.raw ≡ none → get key c ≡ err (key_not_found key)
  unfolding get
  get-empty key c h =
      ap (λ o. get_at key (split b'.' key) (table (table_of o))) h
      ∙ get_at-empty key (split b'.' key) (split-≢ b'.' key)
