-- ===== src/Init.antt =====
-- packages/cli/cmd/init/init.go: the scaffolding of a new project. `generateReadme` and
-- `generateNodeAgent` of templates.go are parameters, since a backquote inside their raw strings ends
-- these too early, and what stands there is not Go. Log lines are left out.
mod Configuration
mod Scenarios
mod Agents
mod Node
pub mod OpenaiFixtures
pub mod StripeFixtures
pub mod LedgerFixtures
pub mod Files
pub mod Scaffolder
pub mod Project
unfoldable pub use Configuration.*
pub use Scenarios.*
pub use Agents.*
pub use Node.*
use sentra_lab.Base.{
  ℕ, String, Bool, true, false, ◌&&◌, not, Option, none, some, List, [], ◌∷◌, if◌then◌else◌, str_eq,
  Dict, insert,
}
use sentra_lab.Base.Files.{FileSystem}

pub record InitCommand : Type 0 where
  pub template : String
  pub force : Bool

-- The two texts that are parameters.
pub record Unread : Type 0 where
  pub generate_readme : String → String
  pub generate_node_agent : String

pub data InitError : Type 0 where
  already_exists failed_directory failed_file failed_fixture : String → InitError
  failed_project_directory git_init_failed git_add_failed git_commit_failed : InitError

abbrev pub base_files : Unread → String → Dict String
base_files texts name =
    ("lab.yaml", generate_lab_yaml name)
    ∷ ("mocks.yaml", generate_mocks_yaml)
    ∷ ("scenarios/basic-test.yaml", generate_basic_scenario name)
    ∷ (".gitignore", generate_gitignore)
    ∷ ("README.md", texts.generate_readme name)
    ∷ []

abbrev pub openai_test : Dict String → Dict String
openai_test files = insert "scenarios/openai-test.yaml" generate_openai_scenario files

abbrev pub python_files : Dict String → Dict String
python_files files =
    insert "requirements.txt" generate_python_requirements
      (insert "agent.py" generate_python_agent files)

-- The files of a template, `files` after the switch.
unfoldable pub project_files : Unread → String → String → Dict String
unfolding insert
project_files texts template name =
    let files = base_files texts name in
    if str_eq template "python"
    then openai_test (python_files files)
    else if str_eq template "nodejs"
    then openai_test (
        insert "tsconfig.json" generate_ts_config (
          insert "package.json" (generate_package_json name)
            (insert "agent.ts" texts.generate_node_agent files)))
    else if str_eq template "go"
    then openai_test
        (insert "go.mod" (generate_go_mod name) (insert "agent.go" generate_go_agent files))
    else if str_eq template "fullstack"
    then openai_test
        (insert "scenarios/payment-flow.yaml" generate_payment_scenario (python_files files))
    else files

abbrev pub project_dirs : List String
project_dirs = "scenarios" ∷ "fixtures" ∷ "tests" ∷ ".sentra-lab" ∷ []

-- `join` is filepath.Join of two paths.
module _ {W : Type 0} (fs : FileSystem W) (join : String → String → String) where
  -- os.MkdirAll of each directory, until one fails.
  unfoldable pub make_dirs : String → List String → W → Option InitError × W
  make_dirs project_dir [] w = (none, w)
  make_dirs project_dir (dir ∷ dirs) w =
      let (done, w') = fs.make_all (join project_dir dir) w in
      let rest = make_dirs project_dir dirs w' in
      if done then rest else (some (failed_directory dir), w')

  -- os.WriteFile of each file, until one fails.
  unfoldable pub write_files :
      (String → InitError) → String → Dict String → W → Option InitError × W
  write_files failed project_dir [] w = (none, w)
  write_files failed project_dir ((filename, content) ∷ files) w =
      let (done, w') = fs.write (join project_dir filename) content w in
      let rest = write_files failed project_dir files w' in
      if done then rest else (some (failed filename), w')

module _ {W : Type 0} (fs : FileSystem W) (join : String → String → String)
    -- what a range makes of a map
    (order : Dict String → Dict String) (texts : Unread) where
  unfoldable pub scaffold_project : InitCommand → String → String → W → Option InitError × W
  unfolding make_dirs write_files
  scaffold_project ic project_dir name w =
      let (failed, w') = make_dirs fs join project_dir project_dirs w in
      elim failed [
        | some e ↦ (some e, w')
        | none ↦
            write_files fs join failed_file project_dir
              (order (project_files texts ic.template name)) w'
      ]

  unfoldable pub run_e : InitCommand → String → W → Option InitError × W
  unfolding scaffold_project
  run_e ic name w =
      let project_dir = join "." name in
      let found : Bool = elim (fs.size project_dir w) [ none ↦ false | some n ↦ true ] in
      let (made, w') = fs.make_all project_dir w in
      if found && not ic.force
      then (some (already_exists name), w)
      else if made
      then scaffold_project ic project_dir name w'
      else (some failed_project_directory, w')
