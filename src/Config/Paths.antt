-- ===== src/Config/Paths.antt =====
-- packages/cli/internal/config/parser.go: what Set leaves for Get, along the parts of their keys.
use Prim.Native.Char.{Char, code}
use sentra_lab.Base.{
  ℕ, String, ◌≡◌, refl, sym, ap, ◌∙◌, Bool, true, false, Option, none, some, List, [], ◌∷◌, arith,
  if◌then◌else◌, str_eq, str_eq_refl, eq_iff, Option-cases, Bool-cases, ◌≢◌, inl, inr, ◌⊎◌, Result,
  ok, err, Value, Table, empty, table, look, put, look-put, split, onto_first, ◌==◌,
}
use sentra_lab.Config.{
  Config, ConfigError, cannot_set, key_not_found, get, get_at, set, set_at, set_parts, child,
  table_of,
}

-- The two paths differ at a part that both have: neither leads through the end of the other.
abbrev pub apart : List String → List String → Bool
apart [] qs = false
apart (p ∷ ps) [] = false
apart (p ∷ ps) (q ∷ qs) = if str_eq p q then apart ps qs else true

onto_first-≢ : (c : Char) (ps : List String) → onto_first c ps ≢ []
onto_first-≢ c [] h = cc
onto_first-≢ c (p ∷ ps) h = cc

pub split-≢ : (sep : ℕ) (s : String) → split sep s ≢ []
unfolding split
split-≢ sep String.[] h = cc
split-≢ sep (String.◌∷◌ c s) h = elim (Bool-cases (code c == sep)) [
  | inl here ↦ absurd (ground arith)
  | inr later ↦ absurd (onto_first-≢ c (split sep s) (ground arith))
]

module _ {F : Type 0} where
  -- One part of a path that is read.
  below : String → List String → Option (Value F) → Result ConfigError (Value F)
  below key ps none = err (key_not_found key)
  below key ps (some v) = get_at key ps v

  get_at-table :
      (key p : String) (ps : List String) (t : Table F)
      → get_at key (p ∷ ps) (table t) ≡ below key ps (look p t)
  unfolding get_at below
  get_at-table key p ps t = ground arith

  get_at-put :
      (key p q : String) (ps : List String) (v : Value F) (t : Table F)
      → get_at key (q ∷ ps) (table (put p v t))
        ≡ (if str_eq p q then get_at key ps v else get_at key (q ∷ ps) (table t))
  unfolding below
  get_at-put key p q ps v t =
      ground (arith, get_at-table key q ps (put p v t), get_at-table key q ps t, look-put p q v t)

  -- How a step down is made and the rest is written.
  set_at-cases :
      (v : Value F) (p q : String) (ps : List String) (t t' : Table F)
      → set_at v p (q ∷ ps) t ≡ some t'
      → (u : Table F) × (u' : Table F) × (child (look p t) ≡ some u)
        × (set_at v q ps u ≡ some u')
        × (t' ≡ put p (table u') t)
  unfolding set_at
  set_at-cases v p q ps t t' h = elim (Option-cases (child (look p t))) [
    | inl blocked ↦ absurd (ground arith)
    | inr (u, down) ↦ elim (Option-cases (set_at v q ps u)) [
      | inl failed ↦ absurd (ground arith)
      | inr (u', done) ↦ (u, u', down, done, ground arith)
    ]
  ]

  get_at-set_at :
      (key p : String) (ps : List String) (v : Value F) (t t' : Table F)
      → set_at v p ps t ≡ some t'
      → get_at key (p ∷ ps) (table t') ≡ ok v
  unfolding set_at get_at
  get_at-set_at key p [] v t t' h =
      let here : put p v t ≡ t' = cc in
      ap (λ u. get_at key (p ∷ []) (table u)) (sym here)
      ∙ get_at-put key p p [] v t
      ∙ rw (str_eq_refl p) refl
  get_at-set_at key p (q ∷ ps) v t t' h =
      let (u, u', down, done, eq) = set_at-cases v p q ps t t' h in
      ap (λ u. get_at key (p ∷ q ∷ ps) (table u)) eq
      ∙ get_at-put key p p (q ∷ ps) (table u') t
      ∙ rw (str_eq_refl p) (get_at-set_at key q ps v u u' done)

  below-child :
      (key q : String) (qs : List String) (o : Option (Value F)) (u : Table F)
      → child o ≡ some u
      → below key (q ∷ qs) o ≡ get_at key (q ∷ qs) (table u)
  unfolding child below get_at look
  below-child key q qs none u h =
      let made : empty ≡ u = cc in ap (λ w. get_at key (q ∷ qs) (table w)) made
  below-child key q qs (some (table t)) u h =
      let same : t ≡ u = cc in ap (λ w. get_at key (q ∷ qs) (table w)) same
  below-child key q qs (some v) u h = cc

  -- Below a part that is missing there is nothing, and below one that is there its map.
  get_at-child :
      (key p q : String) (qs : List String) (t u : Table F)
      → child (look p t) ≡ some u
      → get_at key (p ∷ q ∷ qs) (table t) ≡ get_at key (q ∷ qs) (table u)
  get_at-child key p q qs t u h =
      get_at-table key p (q ∷ qs) t ∙ below-child key q qs (look p t) u h

  set_at-puts :
      (v : Value F) (p : String) (ps : List String) (t t' : Table F)
      → set_at v p ps t ≡ some t'
      → (w : Value F) × (t' ≡ put p w t)
  unfolding set_at
  set_at-puts v p [] t t' h = (v, cc)
  set_at-puts v p (q ∷ ps) t t' h =
      let (u, u', down, done, eq) = set_at-cases v p q ps t t' h in (table u', eq)

  get_at-put_apart :
      (key p q : String) (qs : List String) (w : Value F) (t t' : Table F)
      → str_eq p q ≡ false
      → t' ≡ put p w t
      → get_at key (q ∷ qs) (table t') ≡ get_at key (q ∷ qs) (table t)
  get_at-put_apart key p q qs w t t' other eq =
      ap (λ u. get_at key (q ∷ qs) (table u)) eq ∙ get_at-put key p q qs w t ∙ rw other refl

  get_at-set_at-apart :
      (key p q : String) (ps qs : List String) (v : Value F) (t t' : Table F)
      → apart (p ∷ ps) (q ∷ qs) ≡ true
      → set_at v p ps t ≡ some t'
      → get_at key (q ∷ qs) (table t') ≡ get_at key (q ∷ qs) (table t)
  get_at-set_at-apart key p q [] qs v t t' away h = elim (Bool-cases (str_eq p q)) [
    | inl same ↦ absurd (ground arith)
    | inr other ↦
        let (w, eq) = set_at-puts v p [] t t' h in get_at-put_apart key p q qs w t t' other eq
  ]
  get_at-set_at-apart key p q (p' ∷ ps) [] v t t' away h = elim (Bool-cases (str_eq p q)) [
    | inl same ↦ absurd (ground arith)
    | inr other ↦
        let (w, eq) = set_at-puts v p (p' ∷ ps) t t' h in
        get_at-put_apart key p q [] w t t' other eq
  ]
  get_at-set_at-apart key p q (p' ∷ ps) (q' ∷ qs) v t t' away h =
      let deeper = get_at-set_at-apart key p' q' ps qs v in
      elim (Bool-cases (str_eq p q)) [
        | inl same ↦
            let (u, u', down, done, eq) = set_at-cases v p p' ps t t' h in
            let further = deeper u u' (ground arith) done in
            let one : p ≡ q = ground (arith, eq_iff p q) in
            ap (λ w. get_at key (q ∷ q' ∷ qs) (table w)) eq
            ∙ get_at-put key p q (q' ∷ qs) (table u') t
            ∙ rw same (further ∙ sym (get_at-child key p q' qs t u down))
            ∙ ap (λ k. get_at key (k ∷ q' ∷ qs) (table t)) one
        | inr other ↦
            let (w, eq) = set_at-puts v p (p' ∷ ps) t t' h in
            get_at-put_apart key p q (q' ∷ qs) w t t' other eq
      ]

  onto_path :
      (key : String) (v : Value F) (ps qs : List String) (t t' : Table F)
      → apart ps qs ≡ true
      → set_parts v ps t ≡ some t'
      → get_at key qs (table t') ≡ get_at key qs (table t)
  onto_path key v [] qs t t' away h = cc
  onto_path key v (p ∷ ps) [] t t' away h = cc
  onto_path key v (p ∷ ps) (q ∷ qs) t t' away h = get_at-set_at-apart key p q ps qs v t t' away h

  end_of_path :
      (key : String) (v : Value F) (ps : List String) (t t' : Table F)
      → set_parts v ps t ≡ some t'
      → ps ≢ []
      → get_at key ps (table t') ≡ ok v
  end_of_path key v [] t t' h some_part = absurd (some_part refl)
  end_of_path key v (p ∷ ps) t t' h some_part = get_at-set_at key p ps v t t' h

  set-cases :
      (key : String) (v : Value F) (c : Config F)
      → ((t' : Table F) × (set_parts v (split b'.' key) (table_of c.raw) ≡ some t')
          × (set key v c ≡ (ok tt, record c { raw = some t' })))
        ⊎ (set key v c ≡ (err (cannot_set key), record c { raw = some (table_of c.raw) }))
  unfolding set
  set-cases key v c = elim (Option-cases (set_parts v (split b'.' key) (table_of c.raw))) [
    | inl failed ↦ inr (ground arith)
    | inr (t', done) ↦ inl (t', done, ground arith)
  ]

  -- A Set that returns no error is read back by Get.
  pub get-set :
      (key : String) (v : Value F) (c : Config F)
      → (set key v c).0 ≡ ok tt
      → get key (set key v c).1 ≡ ok v
  unfolding get
  get-set key v c h = elim (set-cases key v c) [
    | inl (t', done, eq) ↦
        ap (λ r. get key r.1) eq
        ∙ end_of_path key v (split b'.' key) (table_of c.raw) t' done (split-≢ b'.' key)
    | inr failed ↦ cc
  ]

  -- Whether a Set succeeds or fails, Get returns what it returned before for every key whose path
  -- parts from that of the Set.
  pub get-set-apart :
      (key other : String) (v : Value F) (c : Config F)
      → apart (split b'.' key) (split b'.' other) ≡ true
      → get other (set key v c).1 ≡ get other c
  unfolding get
  get-set-apart key other v c away = elim (set-cases key v c) [
    | inl (t', done, eq) ↦
        ap (λ r. get other r.1) eq
        ∙ onto_path other v (split b'.' key) (split b'.' other) (table_of c.raw) t' away done
    | inr failed ↦ ap (λ r. get other r.1) failed
  ]
