-- ===== src/Cloud/Credentials.antt =====
-- packages/cli/cmd/cloud/cloud.go: the file of the credentials. `home` is os.UserHomeDir.
use Prim.Native.Char.{Char, code}
use sentra_lab.Base.{
  ℕ, ◌==◌, String, ◌<>◌, Bool, true, false, Option, none, some, List, [], ◌∷◌, if◌then◌else◌,
  str_eq, lines, split,
}
use sentra_lab.Base.Files.{FileSystem}

pub record User : Type 0 where
  pub email : String
  pub team : String
  pub plan : String

abbrev pub no_user : User
no_user = record { email = ""; team = ""; plan = "" }

-- What follows a prefix: strings.HasPrefix and strings.TrimPrefix.
unfoldable pub after_prefix : String → String → Option String
after_prefix String.[] s = some s
after_prefix (String.◌∷◌ c p) String.[] = none
after_prefix (String.◌∷◌ c p) (String.◌∷◌ d s) =
    let rest = after_prefix p s in if code c == code d then rest else none

abbrev pub onto_key : Char → Option (String × String) → Option (String × String)
onto_key c none = none
onto_key c (some (k, v)) = some (String.◌∷◌ c k, v)

-- strings.SplitN(line, sep, 2), where it has two parts.
unfoldable pub cut_at : ℕ → String → Option (String × String)
cut_at sep String.[] = none
cut_at sep (String.◌∷◌ c s) =
    let rest = cut_at sep s in if code c == sep then some (String.[], s) else onto_key c rest

abbrev pub field : String → String → String
field key value = key <> "=" <> value

unfoldable pub credentials_text : String → User → String
credentials_text token user = lines (
    field "token" token
    ∷ field "email" user.email
    ∷ field "team" user.team
    ∷ field "plan" user.plan
    ∷ [])

unfoldable pub find_token : List String → String
find_token [] = ""
find_token (line ∷ rest) = elim (after_prefix "token=" line) [ none ↦ find_token rest | some t ↦ t ]

abbrev pub read_field : Option (String × String) → User → User
read_field none user = user
read_field (some (key, value)) user =
    if str_eq key "email"
    then record user { email = value }
    else if str_eq key "team"
    then record user { team = value }
    else if str_eq key "plan"
    then record user { plan = value }
    else user

unfoldable pub read_fields : List String → User → User
read_fields [] user = user
read_fields (line ∷ rest) user = read_fields rest (read_field (cut_at b'=' line) user)

-- The directories whose names have the prefix of a run.
unfoldable pub recent : List (String × Bool) → List String
recent [] = []
recent ((name, is_dir) ∷ rest) =
    let others = recent rest in
    elim (after_prefix "run-" name) [
      | none ↦ others
      | some id ↦ if is_dir then name ∷ others else others
    ]

module _ {W : Type 0} (fs : FileSystem W) (join : String → String → String) (home : String) where
  abbrev pub get_credentials_path : String
  get_credentials_path = join (join home ".sentra-lab") "credentials"

  unfoldable pub is_authenticated : W → Bool
  is_authenticated w = elim (fs.size get_credentials_path w) [ none ↦ false | some n ↦ true ]

  -- Whether the file was written.
  unfoldable pub save_credentials : String → User → W → Bool × W
  unfolding credentials_text
  save_credentials token user w =
      let (made, w') = fs.make_all (join home ".sentra-lab") w in
      let written = fs.write get_credentials_path (credentials_text token user) w' in
      if made then written else (false, w')

  unfoldable pub load_token : W → String
  unfolding find_token
  load_token w = elim (fs.read get_credentials_path w) [
    | none ↦ ""
    | some text ↦ find_token (split b'\n' text)
  ]

  unfoldable pub load_user : W → Option User
  unfolding read_fields
  load_user w = elim (fs.read get_credentials_path w) [
    | none ↦ none
    | some text ↦ some (read_fields (split b'\n' text) no_user)
  ]

  unfoldable pub get_recent_run_ids : W → Option (List String)
  get_recent_run_ids w = elim (fs.read_dir ".sentra-lab/recordings" w) [
    | none ↦ none
    | some entries ↦ some (recent entries)
  ]
