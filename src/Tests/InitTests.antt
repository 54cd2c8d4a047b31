-- ===== src/Tests/InitTests.antt =====
-- The scaffolding of a project at concrete inputs.
use sentra_lab.Base.{String, ◌≡◌, refl, false, none, some, [], All, Dict, lookup, insert}
use sentra_lab.Init.{
  InitCommand, Unread, make_dirs, write_files, project_files, scaffold_project, generate_go_mod,
  generate_lab_yaml,
}
use sentra_lab.Init.Scaffolder.{Scaffolder}
use sentra_lab.Init.Project.{
  IsRange, scaffold_project-read, project_files-entry_point, project_files-fixtures, mock_fixtures,
  HasAgent,
}
use sentra_lab.Tests.Files.{disk, disk-IsFileSystem, slash, slash-apart}

abbrev texts : Unread
texts = record { generate_readme = λ name. name; generate_node_agent = "agent" }

abbrev same : Dict String → Dict String
same m = m

same-IsRange : IsRange same
same-IsRange = record { once = λ m h. h; each = λ key m. refl }

abbrev go_init : InitCommand
go_init = record { template = "go"; force = false }

abbrev stripe_scaffolder : Scaffolder
stripe_scaffolder = record { project_dir = "demo"; template = "default" }

scaffold_project-read_example :
    lookup "demo/go.mod" (scaffold_project disk slash same texts go_init "demo" "demo" []).1
    ≡ some (generate_go_mod "demo")
unfolding scaffold_project make_dirs write_files project_files insert lookup
scaffold_project-read_example =
    scaffold_project-read disk slash same disk-IsFileSystem same-IsRange texts go_init "demo" "demo"
      [] "go.mod" (generate_go_mod "demo")
      (λ a content found other. slash-apart "demo" a "go.mod" other) refl refl

project_files-entry_point_example :
    (lookup "lab.yaml" (project_files texts "nodejs" "demo") ≡ some (generate_lab_yaml "demo"))
    × HasAgent "python  # python, nodejs, go" "agent.py" (generate_lab_yaml "demo")
    × (lookup "agent.py" (project_files texts "nodejs" "demo") ≡ none)
project_files-entry_point_example = project_files-entry_point texts "nodejs" "demo"

fullstack_fixtures :
    All (λ file. lookup file (project_files texts "fullstack" "demo") ≡ none) mock_fixtures
fullstack_fixtures = project_files-fixtures texts "fullstack" "demo"
