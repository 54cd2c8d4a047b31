-- ===== src/Init/Project.antt =====
-- packages/cli/cmd/init: the files that a new project has, and what a run of the command leaves.
use sentra_lab.Base.{
  if_elim, lines, String, ◌<>◌, ◌++◌, ◌≡◌, refl, sym, ◌∙◌, true, false, ◌||◌, none, some, List, [],
  ◌∷◌, All, arith, if◌then◌else◌, str_eq, eq_iff, Dict, lookup, insert, IsMap, Option-cases,
  Bool-cases, inl, inr,
}
use sentra_lab.Base.Files.{FileSystem, IsFileSystem}
use sentra_lab.Init.{
  InitCommand, Unread, failed_file, failed_fixture, project_files, project_dirs, make_dirs,
  scaffold_project, run_e, generate_lab_yaml, generate_python_agent,
}
use sentra_lab.Init.Scaffolder.{Scaffolder, fixtures, create_fixtures}
use sentra_lab.Init.Files.{IsApart, write_files-read}

-- What is relied on of a range over a map: it meets each entry, and each once.
pub record IsRange (order : Dict String → Dict String) : Type 0 where
  pub once : (m : Dict String) → IsMap m → IsMap (order m)
  pub each : (key : String) (m : Dict String) → lookup key (order m) ≡ lookup key m

project_files-IsMap :
    (texts : Unread) (template name : String) → IsMap (project_files texts template name)
unfolding project_files lookup insert
project_files-IsMap texts template name =
    if_elim IsMap (str_eq template "python") _ _
      (refl, (refl, (refl, (refl, (refl, (refl, (refl, (refl, tt))))))))
      (if_elim IsMap (str_eq template "nodejs") _ _
        (refl, (refl, (refl, (refl, (refl, (refl, (refl, (refl, (refl, tt)))))))))
        (if_elim IsMap (str_eq template "go") _ _
          (refl, (refl, (refl, (refl, (refl, (refl, (refl, (refl, tt))))))))
          (if_elim IsMap (str_eq template "fullstack") _ _
            (refl, (refl, (refl, (refl, (refl, (refl, (refl, (refl, (refl, tt)))))))))
            (refl, (refl, (refl, (refl, (refl, tt))))))))

fixtures-IsMap : (s : Scaffolder) → IsMap (fixtures s)
unfolding fixtures lookup insert
fixtures-IsMap s =
    if_elim IsMap (str_eq s.template "fullstack") _ _ (refl, (refl, (refl, (refl, (refl, tt)))))
      (refl, (refl, (refl, (refl, tt))))

range-IsApart :
    (join : String → String → String) (order : Dict String → Dict String)
    → IsRange order
    → (dir name : String) (files : Dict String) → IsApart join dir name files
    → IsApart join dir name (order files)
range-IsApart join order range dir name files apart a content found other =
    apart a content (sym (range.each a files) ∙ found) other

module _ {W : Type 0} (fs : FileSystem W) (join : String → String → String)
    (order : Dict String → Dict String) where
  -- A scaffold that returns no error leaves every file of the template on disk, with the template's
  -- text, in whatever order the files were written. (The file system reads back what was written, a
  -- range meets each entry once, and no two names of the project are joined to one path.)
  pub scaffold_project-read :
      IsFileSystem fs
      → IsRange order
      → (texts : Unread) (ic : InitCommand) (dir name : String) (w : W) (filename content : String)
      → IsApart join dir filename (project_files texts ic.template name)
      → lookup filename (project_files texts ic.template name) ≡ some content
      → (scaffold_project fs join order texts ic dir name w).0 ≡ none
      → fs.read (join dir filename) (scaffold_project fs join order texts ic dir name w).1
        ≡ some content
  unfolding scaffold_project
  scaffold_project-read good range texts ic dir name w filename content apart found done =
      let files = project_files texts ic.template name in
      let r = make_dirs fs join dir project_dirs w in
      let written =
        write_files-read fs join failed_file dir good (order files) r.1 filename content
          (range.once files (project_files-IsMap texts ic.template name))
          (range-IsApart join order range dir filename files apart)
          (range.each filename files ∙ found) in
      elim (Option-cases r.0) [
        | inl made ↦ rw (made, scaffold_project) (written (ground arith))
        | inr (e, failed) ↦ absurd (ground arith)
      ]

  -- After CreateFixtures without an error every fixture of the template is in the directory fixtures,
  -- with its text, in whatever order they were written. (The file system and the range are as above,
  -- and no two fixtures are joined to one path.)
  pub create_fixtures-read :
      IsFileSystem fs
      → IsRange order
      → (s : Scaffolder) (w : W) (filename content : String)
      → IsApart join (join s.project_dir "fixtures") filename (fixtures s)
      → lookup filename (fixtures s) ≡ some content
      → (create_fixtures fs join order s w).0 ≡ none
      → fs.read
          (join (join s.project_dir "fixtures") filename)
          (create_fixtures fs join order s w).1
        ≡ some content
  unfolding create_fixtures
  create_fixtures-read good range s w filename content apart found done =
      write_files-read fs join failed_fixture (join s.project_dir "fixtures") good
        (order (fixtures s)) w filename content (range.once (fixtures s) (fixtures-IsMap s))
        (range-IsApart join order range (join s.project_dir "fixtures") filename (fixtures s) apart)
        (range.each filename (fixtures s) ∙ found) done

  -- Without --force a run that returns no error began where the project's directory was missing.
  pub run_e-fresh :
      (texts : Unread) (ic : InitCommand) (name : String) (w : W)
      → ic.force ≡ false
      → (run_e fs join order texts ic name w).0 ≡ none
      → fs.size (join "." name) w ≡ none
  unfolding run_e
  run_e-fresh texts ic name w careful done = elim (Option-cases (fs.size (join "." name) w)) [
    | inl fresh ↦ fresh
    | inr (n, found) ↦ absurd (ground arith)
  ]

named : (s k : String) → str_eq s k ≡ true → s ≡ k
named s k h = (eq_iff s k).0 h

-- The lines of lab.yaml around the settings of the agent.
abbrev lines_before : String → List String
lines_before name =
    "# Sentra Lab Configuration"
    ∷ ("name: " <> name)
    ∷ "version: \"1.0\""
    ∷ ""
    ∷ "# Agent configuration"
    ∷ []

abbrev pub HasAgent : String → String → String → Type 0
HasAgent runtime entry_point text =
    (before : List String) × (after : List String) × (text
      ≡ lines (
          before
          ++ ("agent:" ∷ ("  runtime: " <> runtime) ∷ ("  entry_point: " <> entry_point) ∷ after)))

agent_of_lab_yaml :
    (name : String) → HasAgent "python  # python, nodejs, go" "agent.py" (generate_lab_yaml name)
unfolding generate_lab_yaml
agent_of_lab_yaml name = (lines_before name, _, refl)

-- Every template's lab.yaml is the same; one of its lines is the key agent, the next one sets the
-- runtime python, and the next one sets the entry point agent.py, a file that just the templates
-- python and fullstack have.
pub project_files-entry_point :
    (texts : Unread) (template name : String)
    → (lookup "lab.yaml" (project_files texts template name) ≡ some (generate_lab_yaml name))
      × HasAgent "python  # python, nodejs, go" "agent.py" (generate_lab_yaml name)
      × (lookup "agent.py" (project_files texts template name) ≡ (
          if str_eq template "python" || str_eq template "fullstack"
          then some generate_python_agent
          else none))
unfolding project_files lookup insert
project_files-entry_point texts template name =
    let agent = agent_of_lab_yaml name in
    elim (Bool-cases (str_eq template "python")) [
      | inl python ↦ rw (named template "python" python) (refl, agent, refl)
      | inr p ↦ elim (Bool-cases (str_eq template "nodejs")) [
        | inl nodejs ↦ rw (named template "nodejs" nodejs) (refl, agent, refl)
        | inr n ↦ elim (Bool-cases (str_eq template "go")) [
          | inl go ↦ rw (named template "go" go) (refl, agent, refl)
          | inr g ↦ (ground arith, agent, ground arith)
        ]
      ]
    ]

-- The fixture files that mocks.yaml refers to.
abbrev pub mock_fixtures : List String
mock_fixtures =
    "fixtures/openai-responses.yaml" ∷ "fixtures/openai-patterns.yaml"
    ∷ "fixtures/stripe-cards.yaml" ∷ "fixtures/stripe-errors.yaml"
    ∷ "fixtures/coreledger-agents.yaml" ∷ []

-- No template has a fixture file that mocks.yaml refers to.
pub project_files-fixtures :
    (texts : Unread) (template name : String)
    → All (λ file. lookup file (project_files texts template name) ≡ none) mock_fixtures
unfolding project_files lookup insert
project_files-fixtures texts template name = ground arith
