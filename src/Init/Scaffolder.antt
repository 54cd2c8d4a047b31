-- ===== src/Init/Scaffolder.antt =====
-- packages/cli/cmd/init/scaffolding.go: the fixtures of a project, and its git repository. Running a
-- command in a directory is a parameter, which tells whether the command succeeded.
use sentra_lab.Base.{
  String, Bool, Option, none, some, List, [], ◌∷◌, if◌then◌else◌, str_eq, Dict, insert,
}
use sentra_lab.Base.Files.{FileSystem}
use sentra_lab.Init.{
  InitError, git_init_failed, git_add_failed, git_commit_failed, failed_fixture, write_files,
}
use sentra_lab.Init.OpenaiFixtures.{generate_openai_fixtures, generate_openai_patterns}
use sentra_lab.Init.StripeFixtures.{generate_stripe_cards, generate_stripe_errors}
use sentra_lab.Init.LedgerFixtures.{generate_coreledger_agents}

pub record Scaffolder : Type 0 where
  pub project_dir : String
  pub template : String

unfoldable pub new_scaffolder : String → String → Scaffolder
new_scaffolder project_dir template = record { project_dir = project_dir; template = template }

unfoldable pub fixtures : Scaffolder → Dict String
unfolding insert
fixtures s =
    let base =
      ("openai-responses.yaml", generate_openai_fixtures)
      ∷ ("openai-patterns.yaml", generate_openai_patterns)
      ∷ ("stripe-cards.yaml", generate_stripe_cards)
      ∷ ("stripe-errors.yaml", generate_stripe_errors)
      ∷ [] in
    if str_eq s.template "fullstack"
    then insert "coreledger-agents.yaml" generate_coreledger_agents base
    else base

module _ {W : Type 0} where
  unfoldable pub create_fixtures :
      FileSystem W
      → (String → String → String)
      → (Dict String → Dict String)
      → Scaffolder
      → W
      → Option InitError × W
  unfolding write_files
  create_fixtures fs join order s w =
      write_files fs join failed_fixture (join s.project_dir "fixtures") (order (fixtures s)) w

  unfoldable pub init_git :
      (String → List String → W → Bool × W) → Scaffolder → W → Option InitError × W
  init_git exec s w =
      let (made, w1) = exec s.project_dir ("git" ∷ "init" ∷ []) w in
      let (added, w2) = exec s.project_dir ("git" ∷ "add" ∷ "." ∷ []) w1 in
      let (committed, w3) =
        exec s.project_dir ("git" ∷ "commit" ∷ "-m" ∷ "Initial commit from Sentra Lab" ∷ []) w2 in
      if made
      then (if added
          then (if committed then (none, w3) else (some git_commit_failed, w3))
          else (some git_add_failed, w2))
      else (some git_init_failed, w1)
