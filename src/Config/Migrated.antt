-- ===== src/Config/Migrated.antt =====
-- packages/cli/cmd/config/migrator.go: what a migration leaves.
use sentra_lab.Base.{
  String, ◌≡◌, refl, sym, ap, ◌∙◌, Bool, true, false, not, ◌||◌, Option, none, some, arith,
  if◌then◌else◌, str_eq, eq_iff, Value, Table, table, str, look, put, look-put, as_text, ok,
  Bool-cases, inl, inr,
}
use sentra_lab.Base.Float64.{Float64}
use sentra_lab.Config.Migrator.{
  put_missing, put_agent, put_mocks, version_of, get_current_version, migrate_v09_to_v10,
  migrate_v10_to_v11, default_simulation, default_storage, migrate,
}

module _ {F : Type 0} where
  look-put_missing :
      (at key : String) (v : Value F) (t : Table F)
      → str_eq at key ≡ false
      → look key (put_missing at v t) ≡ look key t
  unfolding put_missing
  look-put_missing at key v t apart = ground (arith, look-put at key v t)

  look-put_apart :
      (at key : String) (v : Value F) (t : Table F)
      → str_eq at key ≡ false
      → look key (put at v t) ≡ look key t
  look-put_apart at key v t apart = ground (arith, look-put at key v t)

  look-put_agent :
      (key : String) (o : Option (Table F)) (t : Table F)
      → str_eq "agent" key ≡ false
      → look key (put_agent o t) ≡ look key t
  unfolding put_agent
  look-put_agent key none t away = refl
  look-put_agent key (some agent) t away = look-put_apart "agent" key _ t away

  look-migrate_v10_to_v11 :
      (key : String) (t : Table F)
      → str_eq "storage" key ≡ false
      → str_eq "agent" key ≡ false
      → look key (migrate_v10_to_v11 t) ≡ look key t
  unfolding migrate_v10_to_v11
  look-migrate_v10_to_v11 key t away away' =
      look-put_agent key _ _ away' ∙ look-put_missing "storage" key default_storage t away

  current_version-put :
      (version : String) (t : Table F)
      → get_current_version (put "version" (str version) t) ≡ version
  unfolding get_current_version version_of
  current_version-put version t =
      ap (λ o. version_of (as_text o)) (look-put "version" "version" (str version) t)

abbrev pub is_known : String → Bool
is_known version = str_eq version "0.9" || str_eq version "1.0" || str_eq version "1.1"

module _ {F : Type 0} ⦃fl : Float64 F⦄ where
  look-put_mocks :
      (key : String) (o : Option (Table F)) (t : Table F)
      → str_eq "mocks" key ≡ false
      → look key (put_mocks o t) ≡ look key t
  unfolding put_mocks
  look-put_mocks key none t away = refl
  look-put_mocks key (some mocks) t away = look-put_apart "mocks" key _ t away

  look-migrate_v09_to_v10 :
      (key : String) (t : Table F)
      → str_eq "simulation" key ≡ false
      → str_eq "mocks" key ≡ false
      → look key (migrate_v09_to_v10 t) ≡ look key t
  unfolding migrate_v09_to_v10
  look-migrate_v09_to_v10 key t away away' =
      look-put_mocks key _ _ away' ∙ look-put_missing "simulation" key default_simulation t away

  -- One migration and its version.
  abbrev pub to_v10 : Table F → Table F
  to_v10 t = put "version" (str "1.0") (migrate_v09_to_v10 t)

  abbrev pub to_v11 : Table F → Table F
  to_v11 t = put "version" (str "1.1") (migrate_v10_to_v11 t)

  -- What Migrate does of each version.
  migrate-table :
      (t : Table F)
      → migrate (table t) ≡ (
          if str_eq (get_current_version t) "1.1"
          then (ok false, table t)
          else if str_eq (get_current_version t) "0.9"
          then (ok true, table (to_v11 (to_v10 t)))
          else if str_eq (get_current_version t) "1.0"
          then (ok true, table (to_v11 t))
          else (ok false, table t))
  unfolding migrate
  migrate-table t = ground arith

  -- From a version that a migration starts from, a missing one included, or from the target itself,
  -- Migrate leads to version 1.1, and it reports a migration just where the version was another.
  pub migrate-reaches :
      (t : Table F)
      → is_known (get_current_version t) ≡ true
      → (t' : Table F) × (migrate (table t)
          ≡ (ok (not (str_eq (get_current_version t) "1.1")), table t'))
        × (get_current_version t' ≡ "1.1")
  migrate-reaches t known =
      let v = get_current_version t in
      elim (Bool-cases (str_eq v "1.1")) [
        | inl newest ↦ (t, migrate-table t ∙ rw newest refl, (eq_iff v "1.1").0 newest)
        | inr older ↦ elim (Bool-cases (str_eq v "0.9")) [
          | inl oldest ↦ (
            to_v11 (to_v10 t),
            migrate-table t ∙ rw (older, oldest) refl,
            current_version-put "1.1" (migrate_v10_to_v11 (to_v10 t)),
          )
          | inr newer ↦ elim (Bool-cases (str_eq v "1.0")) [
            | inl middle ↦ (
              to_v11 t,
              migrate-table t ∙ rw (older, newer, middle) refl,
              current_version-put "1.1" (migrate_v10_to_v11 t),
            )
            | inr unknown ↦ absurd (ground arith)
          ]
        ]
      ]

  -- Of any other version Migrate changes nothing, and reports that nothing was to be done.
  pub migrate-unknown :
      (t : Table F)
      → is_known (get_current_version t) ≡ false
      → migrate (table t) ≡ (ok false, table t)
  migrate-unknown t unknown =
      let v = get_current_version t in
      let not_newest : str_eq v "1.1" ≡ false = ground arith in
      let not_oldest : str_eq v "0.9" ≡ false = ground arith in
      let not_middle : str_eq v "1.0" ≡ false = ground arith in
      migrate-table t ∙ rw (not_newest, not_oldest, not_middle) refl

  settled : (t : Table F) → get_current_version t ≡ "1.1" → migrate (table t) ≡ (ok false, table t)
  settled t newest = migrate-table t ∙ rw newest refl

  -- A second Migrate changes nothing of any configuration, and reports so.
  pub migrate_idem :
      (t : Table F) → migrate (migrate (table t)).1 ≡ (ok false, (migrate (table t)).1)
  migrate_idem t = elim (Bool-cases (is_known (get_current_version t))) [
    | inl known ↦
        let (t', eq, newest) = migrate-reaches t known in
        ap (λ r. migrate r.1) eq ∙ settled t' newest ∙ sym (ap (λ r. (ok false, r.1)) eq)
    | inr unknown ↦
        ap (λ r. migrate r.1) (migrate-unknown t unknown)
        ∙ migrate-unknown t unknown
        ∙ sym (ap (λ r. (ok false, r.1)) (migrate-unknown t unknown))
  ]

  -- Migrate keeps what stands under every other key than the five that it may write.
  pub migrate-keeps :
      (key : String) (t : Table F)
      → str_eq "version" key
          || str_eq "simulation" key
          || str_eq "mocks" key
          || str_eq "storage" key
          || str_eq "agent" key
        ≡ false
      → (t' : Table F) × ((migrate (table t)).1 ≡ table t') × (look key t' ≡ look key t)
  migrate-keeps key t other =
      let v = get_current_version t in
      let away : (u : Table F) → look key (to_v11 u) ≡ look key u = λ u.
        look-put_apart "version" key _ (migrate_v10_to_v11 u) (ground arith)
        ∙ look-migrate_v10_to_v11 key u (ground arith) (ground arith) in
      let away' : look key (to_v10 t) ≡ look key t =
        look-put_apart "version" key _ (migrate_v09_to_v10 t) (ground arith)
        ∙ look-migrate_v09_to_v10 key t (ground arith) (ground arith) in
      elim (Bool-cases (str_eq v "1.1")) [
        | inl newest ↦ (t, ap (λ r. r.1) (migrate-table t) ∙ rw newest refl, refl)
        | inr older ↦ elim (Bool-cases (str_eq v "0.9")) [
          | inl oldest ↦ (
            to_v11 (to_v10 t),
            ap (λ r. r.1) (migrate-table t) ∙ rw (older, oldest) refl,
            away (to_v10 t) ∙ away',
          )
          | inr newer ↦ elim (Bool-cases (str_eq v "1.0")) [
            | inl middle ↦
                (to_v11 t, ap (λ r. r.1) (migrate-table t) ∙ rw (older, newer, middle) refl, away t)
            | inr unknown ↦
                (t, ap (λ r. r.1) (migrate-table t) ∙ rw (older, newer, unknown) refl, refl)
          ]
        ]
      ]
