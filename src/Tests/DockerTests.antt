-- ===== src/Tests/DockerTests.antt =====
-- Services that are started at concrete inputs.
use sentra_lab.Base.{ℕ, String, ◌<>◌, ◌≡◌, refl, ap, true, none, some, List, [], ◌∷◌, ok, pos}
use sentra_lab.Docker.{
  Daemon, Numbers, ContainerStatus, list_containers, pull_image, create_container, start_container,
  port_bindings, env_vars, statuses_of, remove_container,
}
use sentra_lab.Docker.Compose.{
  ServiceDefinition, ComposeManager, new_compose_manager, start_service, clear_old,
  get_container_name, config_of,
}
use sentra_lab.Docker.Running.{IsUp, start_service-IsUp}

-- One container was there and has stopped; the state is the log of the calls.
abbrev log_daemon : Daemon (List String)
log_daemon = record {
  image_pull = λ image w. (true, ("pull " <> image) ∷ w);
  container_create = λ c w. (some "new", ("create " <> c.name) ∷ w);
  container_start = λ id w. (true, ("start " <> id) ∷ w);
  container_stop = λ id seconds w. (true, ("stop " <> id) ∷ w);
  container_remove = λ id w. (true, ("remove " <> id) ∷ w);
  container_list =
      λ w. (some (record { id = "old"; name = "/sentra-lab-p-db"; state = "exited" } ∷ []), w);
}

abbrev tcp : Numbers ℕ
tcp = record { new_port = λ p. some (p <> "/tcp"); show = λ n. "80"; nano = λ n. n }

abbrev db : ServiceDefinition ℕ
db = record {
  name = "db";
  image = "postgres";
  ports = ("80", pos 80) ∷ [];
  environment = [];
  volumes = [];
  memory = pos 0;
  cpus = 0;
}

abbrev project : ComposeManager ℕ
project = new_compose_manager "p"

restarted :
    start_service log_daemon tcp project db []
    ≡ (none, "start new" ∷ "create sentra-lab-p-db" ∷ "remove old" ∷ "pull postgres" ∷ [])
unfolding start_service pull_image list_containers statuses_of clear_old remove_container
    create_container port_bindings env_vars start_container
restarted = refl

start_service-IsUp_example :
    (cs : List ContainerStatus) × ((list_containers log_daemon
        (pull_image log_daemon "postgres" []).1).0
      ≡ ok cs)
    × IsUp log_daemon tcp
        (config_of (get_container_name project "db") db)
        cs
        (start_service log_daemon tcp project db []).1
start_service-IsUp_example =
    start_service-IsUp log_daemon tcp project db [] (ap (λ r. r.0) restarted)
