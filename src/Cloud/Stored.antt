-- ===== src/Cloud/Stored.antt =====
-- packages/cli/cmd/cloud/cloud.go: credentials are read back as they were saved.
use Prim.Native.Char.{code}
use text.Mathlib.TextLemmas.{nil-append, cons-append, append_assoc}
use sentra_lab.Base.{
  ℕ, ◌==◌, ◌&&◌, not, ==_iff, String, ◌<>◌, ◌≡◌, refl, sym, ap, ◌∙◌, Bool, true, false, some, List,
  [], ◌∷◌, arith, lines, split, onto_first, Bool-cases, inl, inr,
}
use sentra_lab.Base.Files.{FileSystem, IsFileSystem}
use sentra_lab.Cloud.Credentials.{
  User, no_user, after_prefix, onto_key, cut_at, field, credentials_text, find_token, read_field,
  read_fields, get_credentials_path, save_credentials, load_token, load_user,
}

-- No character has the code.
abbrev pub lacks : ℕ → String → Bool
lacks n String.[] = true
lacks n (String.◌∷◌ c s) = not (code c == n) && lacks n s

lacks-append :
    (n : ℕ) (s t : String) → lacks n s ≡ true → lacks n t ≡ true → lacks n (s <> t) ≡ true
lacks-append n String.[] t h k = ap (lacks n) (nil-append t) ∙ k
lacks-append n (String.◌∷◌ c s) t h k =
    ap (lacks n) (cons-append c s t) ∙ ground (arith, lacks-append n s t, h, k)

split-line :
    (s rest : String)
    → lacks b'\n' s ≡ true
    → split b'\n' (s <> "\n" <> rest) ≡ s ∷ split b'\n' rest
unfolding split
split-line String.[] rest h =
    ap (split b'\n') (nil-append ("\n" <> rest) ∙ cons-append _ String.[] rest)
    ∙ ap (λ t. "" ∷ split b'\n' t) (nil-append rest)
split-line (String.◌∷◌ c s) rest h =
    let away : (code c == b'\n') ≡ false = ground arith in
    ap (split b'\n') (cons-append c s ("\n" <> rest))
    ∙ rw away (ap (onto_first c) (split-line s rest (ground arith)))

after_prefix-append : (p s : String) → after_prefix p (p <> s) ≡ some s
unfolding after_prefix
after_prefix-append String.[] s = ap some (nil-append s)
after_prefix-append (String.◌∷◌ c p) s =
    ap (after_prefix (String.◌∷◌ c p)) (cons-append c p s)
    ∙ ground (arith, ==_iff (code c) (code c), after_prefix-append p s)

cut_at-append : (k v : String) → lacks b'=' k ≡ true → cut_at b'=' (field k v) ≡ some (k, v)
unfolding cut_at
cut_at-append String.[] v h =
    ap (cut_at b'=') (nil-append ("=" <> v))
    ∙ ap (cut_at b'=') (cons-append _ String.[] v)
    ∙ ap (λ t. some ("", t)) (nil-append v)
cut_at-append (String.◌∷◌ c k) v h =
    let away : (code c == b'=') ≡ false = ground arith in
    ap (cut_at b'=') (cons-append c k ("=" <> v))
    ∙ rw away (ap (onto_key c) (cut_at-append k v (ground arith)))

lacks-field :
    (key value : String)
    → lacks b'\n' key ≡ true
    → lacks b'\n' value ≡ true
    → lacks b'\n' (field key value) ≡ true
lacks-field key value h k =
    lacks-append b'\n' key ("=" <> value) h (lacks-append b'\n' "=" value refl k)

-- The texts of a user stand on one line each.
abbrev pub IsOneLine : User → Type 0
IsOneLine user =
    (lacks b'\n' user.email ≡ true)
    × (lacks b'\n' user.team ≡ true)
    × (lacks b'\n' user.plan ≡ true)

split-credentials_text :
    (token : String) (user : User)
    → lacks b'\n' token ≡ true
    → IsOneLine user
    → split b'\n' (credentials_text token user)
      ≡ field "token" token
        ∷ field "email" user.email
        ∷ field "team" user.team
        ∷ field "plan" user.plan
        ∷ ""
        ∷ []
unfolding credentials_text lines split
split-credentials_text token user h (e, t, p) =
    split-line (field "token" token) _ (lacks-field "token" token refl h)
    ∙ ap (λ ls. field "token" token ∷ ls)
        (split-line (field "email" user.email) _ (lacks-field "email" user.email refl e)
          ∙ ap (λ ls. field "email" user.email ∷ ls)
              (split-line (field "team" user.team) _ (lacks-field "team" user.team refl t)
                ∙ ap (λ ls. field "team" user.team ∷ ls)
                    (split-line (field "plan" user.plan) "" (lacks-field "plan" user.plan refl p))))

find_token-field :
    (token : String) (rest : List String) → find_token (field "token" token ∷ rest) ≡ token
unfolding find_token
find_token-field token rest =
    let found : after_prefix "token=" (field "token" token) ≡ some token =
      ap (after_prefix "token=") (sym (append_assoc "token" "=" token))
      ∙ after_prefix-append "token=" token in
    rw (found, find_token) refl

read_fields-field :
    (key value : String) (rest : List String) (user : User)
    → lacks b'=' key ≡ true
    → read_fields (field key value ∷ rest) user
      ≡ read_fields rest (read_field (some (key, value)) user)
unfolding read_fields
read_fields-field key value rest user h =
    ap (λ o. read_fields rest (read_field o user)) (cut_at-append key value h)

read_fields-all :
    (token : String) (user : User)
    → read_fields
        (field "token" token
          ∷ field "email" user.email
          ∷ field "team" user.team
          ∷ field "plan" user.plan
          ∷ ""
          ∷ [])
        no_user
      ≡ user
unfolding read_fields cut_at
read_fields-all token user =
    let plan : List String = field "plan" user.plan ∷ "" ∷ [] in
    let team : List String = field "team" user.team ∷ plan in
    let with_email : User = record no_user { email = user.email } in
    let with_team : User = record with_email { team = user.team } in
    read_fields-field "token" token (field "email" user.email ∷ team) no_user refl
    ∙ read_fields-field "email" user.email team no_user refl
    ∙ read_fields-field "team" user.team plan with_email refl
    ∙ read_fields-field "plan" user.plan ("" ∷ []) with_team refl

module _ {W : Type 0} (fs : FileSystem W) (join : String → String → String) (home : String) where
  -- Credentials that were saved without an error are read back, the token and the user, where none of
  -- their texts has a line feed. (The file system reads back what was written.)
  pub load_user-save_credentials :
      IsFileSystem fs
      → (token : String) (user : User) (w : W) → lacks b'\n' token ≡ true
      → IsOneLine user
      → (save_credentials fs join home token user w).0 ≡ true
      → (load_token fs join home (save_credentials fs join home token user w).1 ≡ token)
        × (load_user fs join home (save_credentials fs join home token user w).1 ≡ some user)
  unfolding save_credentials load_token load_user
  load_user-save_credentials good token user w h one done =
      let path = get_credentials_path fs join home in
      let made = fs.make_all (join home ".sentra-lab") w in
      let text = credentials_text token user in
      let split' = split-credentials_text token user h one in
      elim (Bool-cases made.0) [
        | inr unmade ↦ absurd (ground arith)
        | inl is_made ↦
            let back : fs.read path (fs.write path text made.1).1 ≡ some text =
              good.read-write path text made.1 (ground arith) in
            (
              rw (is_made, load_token, back)
                  (ap find_token split'
                    ∙ find_token-field token (
                        field "email" user.email
                        ∷ field "team" user.team
                        ∷ field "plan" user.plan
                        ∷ ""
                        ∷ [])),
              rw (is_made, load_user, back)
                  (ap (λ ls. some (read_fields ls no_user)) split'
                    ∙ ap some (read_fields-all token user)),
            )
      ]
