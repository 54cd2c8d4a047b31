-- ===== src/Init/Files.antt =====
-- packages/cli/cmd/init: what a run over the files of a map leaves on disk.
use sentra_lab.Base.{
  String, ◌≡◌, refl, sym, ap, ◌∙◌, false, none, some, [], ◌∷◌, arith, str_eq, str_eq_refl, eq_iff,
  Dict, lookup, IsMap, Bool-cases, inl, inr,
}
use sentra_lab.Base.Files.{FileSystem, IsFileSystem}
use sentra_lab.Init.{InitError, write_files}

-- No other name of the map is joined to the path of this one.
abbrev pub IsApart : (String → String → String) → String → String → Dict String → Type 0
IsApart join dir name files =
    (a content : String)
    → lookup a files ≡ some content
    → str_eq a name ≡ false
    → str_eq (join dir a) (join dir name) ≡ false

module _ {W : Type 0} (fs : FileSystem W) (join : String → String → String)
    (failed : String → InitError) (dir : String) where
  tail-IsApart :
      (name f text : String) (files : Dict String)
      → lookup f files ≡ none
      → IsApart join dir name ((f, text) ∷ files)
      → IsApart join dir name files
  unfolding lookup
  tail-IsApart name f text files fresh apart a content found other =
      apart a content (ground (arith, eq_iff f a)) other

  write_files-absent :
      IsFileSystem fs
      → (files : Dict String) (w : W) (name : String) → IsMap files
      → IsApart join dir name files
      → lookup name files ≡ none
      → (write_files fs join failed dir files w).0 ≡ none
      → fs.read (join dir name) (write_files fs join failed dir files w).1
        ≡ fs.read (join dir name) w
  unfolding write_files lookup
  write_files-absent good [] w name each apart gone done = refl
  write_files-absent good ((f, text) ∷ files) w name (fresh, each) apart gone done =
      let r = fs.write (join dir f) text w in
      elim (Bool-cases (str_eq f name)) [
        | inl same ↦ absurd (ground arith)
        | inr other ↦ elim (Bool-cases r.0) [
          | inl written ↦
              let rest =
                write_files-absent good files r.1 name each
                  (tail-IsApart name f text files fresh apart) (ground arith) (ground arith) in
              let away = apart f text (rw (str_eq_refl f) refl) other in
              rw written (rest ∙ good.read-write_apart (join dir f) (join dir name) text w away)
          | inr lost ↦ absurd (ground arith)
        ]
      ]

  pub write_files-read :
      IsFileSystem fs
      → (files : Dict String) (w : W) (name content : String) → IsMap files
      → IsApart join dir name files
      → lookup name files ≡ some content
      → (write_files fs join failed dir files w).0 ≡ none
      → fs.read (join dir name) (write_files fs join failed dir files w).1 ≡ some content
  unfolding write_files lookup
  write_files-read good [] w name content each apart found done = cc
  write_files-read good ((f, text) ∷ files) w name content (fresh, each) apart found done =
      let r = fs.write (join dir f) text w in
      let further = tail-IsApart name f text files fresh apart in
      elim (Bool-cases r.0) [
        | inr lost ↦ absurd (ground arith)
        | inl written ↦ elim (Bool-cases (str_eq f name)) [
          | inr other ↦ rw written (
              write_files-read good files r.1 name content each further (ground arith)
                (ground arith))
          | inl same ↦
              let one : f ≡ name = ground (arith, eq_iff f name) in
              let here : fs.read (join dir f) r.1 ≡ some content =
                good.read-write (join dir f) text w written ∙ ground arith in
              let rest = write_files-absent good files r.1 name each further (cc) (ground arith) in
              rw written (rest ∙ ap (λ n. fs.read (join dir n) r.1) (sym one) ∙ here)
        ]
      ]
