-- ===== src/Config/Clean.antt =====
-- packages/cli/cmd/config/validator.go: a check adds errors and takes none away, so that where none is
-- left each check found none.
use sentra_lab.Base.{
  String, ◌≡◌, ◌≢◌, refl, sym, Bool, true, false, Option, none, some, List, [], ◌∷◌, ◌++◌, arith,
  if◌then◌else◌, str_eq, ℤ, pos, ltb_ℤ, ◌≤ℤ◌, Table, look, as_text, as_int, contains,
}
use sentra_lab.Config.{valid_runtimes}
use sentra_lab.Config.Validator.{
  Validator, ValidationError, is_valid_duration, check_agent, check_scenarios, check_simulation,
  check_storage, add_error, is_blank, check_runtime, check_timeout, check_path,
}

pub some_inj : {x y : String} → some x ≡ some y → x ≡ y
some_inj h = cc

abbrev pub IsClean : Validator → Type 0
IsClean v = v.errors ≡ []

pub append-≢ : (es : List ValidationError) (e : ValidationError) → es ++ (e ∷ []) ≢ []
append-≢ [] e h = cc
append-≢ (x ∷ es) e h = cc

pub add_error-≢ :
    (field message hint : String) (v : Validator) → (add_error field message hint v).errors ≢ []
unfolding add_error
add_error-≢ field message hint v h =
    append-≢ v.errors (record { field = field; message = message; hint = hint }) h

-- A check that adds an error, or goes on with the next.
pub guard-IsClean :
    (bad : Bool) (field message hint : String) (v w : Validator)
    → IsClean (if bad then add_error field message hint v else w)
    → IsClean w × (bad ≡ false)
guard-IsClean true field message hint v w h = absurd (add_error-≢ field message hint v h)
guard-IsClean false field message hint v w h = (h, refl)

pub pass-IsClean :
    (good : Bool) (field message hint : String) (v w : Validator)
    → IsClean (if good then w else add_error field message hint v)
    → IsClean w × (good ≡ true)
pass-IsClean true field message hint v w h = (h, refl)
pass-IsClean false field message hint v w h = absurd (add_error-≢ field message hint v h)

pub check_timeout-IsClean :
    (o : Option String) (v : Validator) → IsClean (check_timeout o v) → IsClean v
unfolding check_timeout
check_timeout-IsClean none v h = h
check_timeout-IsClean (some s) v h =
    (pass-IsClean (is_valid_duration s) "agent.timeout" _ "Use format: 30s, 5m, 1h" v v h).0

pub check_path-IsClean :
    (field hint : String) (o : Option String) (v : Validator)
    → IsClean (check_path field hint o v)
    → IsClean v
unfolding check_path
check_path-IsClean field hint none v h = h
check_path-IsClean field hint (some s) v h =
    (guard-IsClean (str_eq s "") field "cannot be empty" hint v v h).0

pub check_runtime-IsClean :
    (o : Option String) (v : Validator)
    → IsClean (check_runtime o v)
    → IsClean v
      × (r : String) × (o ≡ some r)
      × (str_eq r "" ≡ false)
      × (contains valid_runtimes r ≡ true)
unfolding check_runtime
check_runtime-IsClean none v h =
    absurd (add_error-≢ "agent.runtime" "is required" "Specify: python, nodejs, or go" v h)
check_runtime-IsClean (some r) v h =
    let (h', given) = guard-IsClean (str_eq r "") "agent.runtime" "is required" _ v _ h in
    let (clean, valid) = pass-IsClean (contains valid_runtimes r) "agent.runtime" _ _ v v h' in
    (clean, r, refl, given, valid)

pub check_scenarios-IsClean :
    (o : Option ℤ) (v : Validator)
    → IsClean (check_scenarios o v)
    → IsClean v × ((n : ℤ) → o ≡ some n → (pos 1 ≤ℤ n) × (n ≤ℤ pos 100))
unfolding check_scenarios
check_scenarios-IsClean none v h = (h, λ n e. cc)
check_scenarios-IsClean (some n) v h =
    let (h1, low) = guard-IsClean (ltb_ℤ (pos 100) n) _ _ _ _ _ h in
    let (clean, high) = guard-IsClean (ltb_ℤ n (pos 1)) _ _ _ v v h1 in
    (clean, λ m e. let one : n ≡ m = cc in rw (sym one) (ground arith))

module _ {F : Type 0} where
  -- An agent's section that is accepted.
  abbrev pub IsAgent : Table F → Type 0
  IsAgent agent =
      (r : String) × (as_text (look "runtime" agent) ≡ some r)
      × (str_eq r "" ≡ false)
      × (contains valid_runtimes r ≡ true)
      × (is_blank (as_text (look "entry_point" agent)) ≡ false)

  pub check_agent-IsClean :
      (o : Option (Table F)) (v : Validator)
      → IsClean (check_agent o v)
      → IsClean v × (agent : Table F) × (o ≡ some agent) × IsAgent agent
  unfolding check_agent
  check_agent-IsClean none v h =
      absurd (add_error-≢ "agent" "section is required" "Add agent configuration" v h)
  check_agent-IsClean (some agent) v h =
      let h1 = check_timeout-IsClean (as_text (look "timeout" agent)) _ h in
      let (h2, entered) =
        guard-IsClean (is_blank (as_text (look "entry_point" agent))) "agent.entry_point" _ _ _ _
          h1 in
      let (clean, r, run, given, valid) =
        check_runtime-IsClean (as_text (look "runtime" agent)) v h2 in
      (clean, agent, refl, (r, run, given, valid, entered))

  pub check_simulation-IsClean :
      (o : Option (Table F)) (v : Validator) → IsClean (check_simulation o v) → IsClean v
  unfolding check_simulation
  check_simulation-IsClean none v h = h
  check_simulation-IsClean (some simulation) v h =
      (check_scenarios-IsClean (as_int (look "max_concurrent_scenarios" simulation)) v h).0

  pub check_storage-IsClean :
      (o : Option (Table F)) (v : Validator) → IsClean (check_storage o v) → IsClean v
  unfolding check_storage
  check_storage-IsClean none v h = h
  check_storage-IsClean (some storage) v h =
      let recordings = as_text (look "recordings_dir" storage) in
      check_path-IsClean "storage.recordings_dir" "Specify directory path" recordings v
        (check_path-IsClean "storage.database" _ (as_text (look "database" storage)) _ h)
