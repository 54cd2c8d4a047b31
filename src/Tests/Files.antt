-- ===== src/Tests/Files.antt =====
-- A file system that is a map from paths to texts, for the tests.
use text.Mathlib.TextLemmas.{append_cancel_left}
use sentra_lab.Base.{
  String, ◌<>◌, ◌≡◌, refl, ◌∙◌, Bool, true, false, Option, none, some, arith, str_eq, str_eq_refl,
  eq_iff, Dict, lookup, insert, erase, lookup-insert, lookup-erase, Bool-cases, inl, inr,
}
use sentra_lab.Base.Files.{FileSystem, IsFileSystem}

abbrev pub missing : Option String → Bool
missing none = true
missing (some text) = false

abbrev pub disk : FileSystem (Dict String)
disk = record {
  is_missing = λ path w. missing (lookup path w);
  size = λ path w. elim (lookup path w) [ none ↦ none | some text ↦ some 1 ];
  read = lookup;
  write = λ path text w. (true, insert path text w);
  remove = λ path w. (true, erase path w);
  make_all = λ path w. (true, w);
  read_dir = λ path w. none;
}

pub disk-IsFileSystem : IsFileSystem disk
disk-IsFileSystem = record {
  read-write = λ path content w h. lookup-insert path path content w ∙ rw (str_eq_refl path) refl;
  read-write_apart = λ path other content w away. lookup-insert path other content w ∙ rw away refl;
  read-remove_apart = λ path other w away. lookup-erase path other w ∙ rw away refl;
}

abbrev pub slash : String → String → String
slash a b = a <> "/" <> b

pub slash-apart :
    (dir a b : String) → str_eq a b ≡ false → str_eq (slash dir a) (slash dir b) ≡ false
slash-apart dir a b other = elim (Bool-cases (str_eq (slash dir a) (slash dir b))) [
  | inr apart ↦ apart
  | inl same ↦
      let one : slash dir a ≡ slash dir b = (eq_iff (slash dir a) (slash dir b)).0 same in
      let short = append_cancel_left "/" a b (append_cancel_left dir ("/" <> a) ("/" <> b) one) in
      absurd (ground (arith, eq_iff a b, short))
]
