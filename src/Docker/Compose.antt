-- ===== src/Docker/Compose.antt =====
-- packages/cli/internal/docker/compose.go. Services that start or stop at once are taken one after
-- the other.
use sentra_lab.Base.{
  String, ◌<>◌, ◌||◌, Bool, true, false, Option, none, some, List, [], ◌∷◌, ◌++◌, Dict, insert, ℤ,
  str_eq, if◌then◌else◌, Result, ok, err, ◌>>=◌,
}
use sentra_lab.Docker.{
  Daemon, Numbers, DockerError, ContainerConfig, ContainerStatus, failed_to_pull_image,
  failed_to_remove_existing, failed_to_create_container, failed_to_start_container,
  failed_to_stop_service, failed_to_remove_service, service_failed, pull_image, create_container,
  start_container, stop_container, remove_container, list_containers,
}

-- Of a ServiceDefinition, what the manager reads.
pub record ServiceDefinition (Cpus : Type 0) : Type 0 where
  pub name : String
  pub image : String
  pub ports : Dict ℤ
  pub environment : Dict String
  pub volumes : List String
  pub memory : ℤ
  pub cpus : Cpus

pub record ComposeManager (Cpus : Type 0) : Type 0 where
  pub services : List (ServiceDefinition Cpus)
  pub network : String
  pub project_id : String

abbrev pub new_compose_manager : {Cpus : Type 0} → String → ComposeManager Cpus
new_compose_manager project_id = record {
  services = [];
  network = "sentra-lab-" <> project_id;
  project_id = project_id;
}

unfoldable pub add_service :
    {Cpus : Type 0} → ServiceDefinition Cpus → ComposeManager Cpus → ComposeManager Cpus
add_service service cm = record cm { services = cm.services ++ (service ∷ []) }

abbrev pub get_container_name : {Cpus : Type 0} → ComposeManager Cpus → String → String
get_container_name cm service_name = "sentra-lab-" <> cm.project_id <> "-" <> service_name

abbrev pub is_named : String → ContainerStatus → Bool
is_named name c = str_eq c.name name || str_eq c.name ("/" <> name)

abbrev pub config_of : {Cpus : Type 0} → String → ServiceDefinition Cpus → ContainerConfig Cpus
config_of name service = record {
  name = name;
  image = service.image;
  ports = service.ports;
  environment = service.environment;
  volumes = service.volumes;
  memory = service.memory;
  cpus = service.cpus;
}

module _ {W : Type 0} (daemon : Daemon W) where
  -- Whether a container of that name runs; one that does not is removed.
  unfoldable pub clear_old : String → List ContainerStatus → W → Result DockerError Bool × W
  clear_old name [] w = (ok false, w)
  clear_old name (c ∷ cs) w =
      let (failed, w') = remove_container daemon c.id w in
      let next = clear_old name cs w' in
      let rest = clear_old name cs w in
      if is_named name c
      then if c.running
        then (ok true, w)
        else elim failed [ none ↦ next | some e ↦ (err (failed_to_remove_existing e), w') ]
      else rest

  abbrev pub start_created : Result DockerError String × W → Option DockerError × W
  start_created (err e, w) = (some (failed_to_create_container e), w)
  start_created (ok id, w) =
      let (failed, w') = start_container daemon id w in
      (elim failed [ none ↦ none | some e ↦ some (failed_to_start_container e) ], w')

  -- Stops and removes each container of that name.
  unfoldable pub stop_each : String → String → List ContainerStatus → W → Option DockerError × W
  stop_each service name [] w = (none, w)
  stop_each service name (c ∷ cs) w =
      let (not_stopped, w') = stop_container daemon c.id 10 w in
      let (not_removed, w'') = remove_container daemon c.id w' in
      let next = stop_each service name cs w'' in
      let rest = stop_each service name cs w in
      if is_named name c
      then elim not_stopped [
        | some e ↦ (some (failed_to_stop_service service e), w')
        | none ↦ elim not_removed [
          | some e ↦ (some (failed_to_remove_service service e), w'')
          | none ↦ next
        ]
      ]
      else rest

  abbrev pub stop_listed :
      String → String → Result DockerError (List ContainerStatus) × W → Option DockerError × W
  stop_listed service name (err e, w) = (some e, w)
  stop_listed service name (ok cs, w) = stop_each service name cs w

  unfoldable pub stop_services :
      {Cpus : Type 0}
      → ComposeManager Cpus
      → List (ServiceDefinition Cpus)
      → W
      → List DockerError × W
  stop_services cm [] w = ([], w)
  stop_services cm (service ∷ rest) w =
      let name = get_container_name cm service.name in
      let (failed, w') = stop_listed service.name name (list_containers daemon w) in
      let (errors, final) = stop_services cm rest w' in
      (elim failed [ none ↦ errors | some e ↦ e ∷ errors ], final)

  unfoldable pub stop_all : {Cpus : Type 0} → ComposeManager Cpus → W → List DockerError × W
  stop_all cm w = stop_services cm cm.services w

module _ {W Cpus : Type 0} (daemon : Daemon W) (numbers : Numbers Cpus) where
  abbrev pub start_cleared :
      ContainerConfig Cpus → Result DockerError Bool × W → Option DockerError × W
  start_cleared config (err e, w) = (some e, w)
  start_cleared config (ok true, w) = (none, w)
  start_cleared config (ok false, w) =
      start_created daemon (create_container daemon numbers config w)

  abbrev pub start_listed :
      ContainerConfig Cpus → Result DockerError (List ContainerStatus) × W → Option DockerError × W
  start_listed config (err e, w) = (some e, w)
  start_listed config (ok cs, w) = start_cleared config (clear_old daemon config.name cs w)

  abbrev pub start_pulled : ContainerConfig Cpus → Option DockerError × W → Option DockerError × W
  start_pulled config (some e, w) = (some (failed_to_pull_image e), w)
  start_pulled config (none, w) = start_listed config (list_containers daemon w)

  unfoldable pub start_service :
      ComposeManager Cpus → ServiceDefinition Cpus → W → Option DockerError × W
  start_service cm service w =
      start_pulled (config_of (get_container_name cm service.name) service)
        (pull_image daemon service.image w)

  unfoldable pub start_services :
      ComposeManager Cpus → List (ServiceDefinition Cpus) → W → List DockerError × W
  start_services cm [] w = ([], w)
  start_services cm (service ∷ rest) w =
      let (failed, w') = start_service cm service w in
      let (errors, final) = start_services cm rest w' in
      (elim failed [ none ↦ errors | some e ↦ service_failed service.name e ∷ errors ], final)

  -- The errors; there are none where the source returns nil. Its createNetwork does nothing.
  unfoldable pub start_all : ComposeManager Cpus → W → List DockerError × W
  start_all cm w = start_services cm cm.services w

-- The first container of that name.
unfoldable pub first_named : String → List ContainerStatus → Option ContainerStatus
first_named name [] = none
first_named name (c ∷ cs) =
    let rest = first_named name cs in if is_named name c then some c else rest

unfoldable pub statuses :
    {Cpus : Type 0}
    → ComposeManager Cpus
    → List (ServiceDefinition Cpus)
    → List ContainerStatus
    → Dict ContainerStatus
    → Dict ContainerStatus
statuses cm [] cs found = found
statuses cm (service ∷ rest) cs found = elim (first_named (get_container_name cm service.name) cs) [
  | none ↦ statuses cm rest cs found
  | some c ↦ statuses cm rest cs (insert service.name c found)
]

unfoldable pub get_service_status :
    {W Cpus : Type 0}
    → Daemon W
    → ComposeManager Cpus
    → W
    → Result DockerError (Dict ContainerStatus) × W
get_service_status daemon cm w =
    let (containers, w') = list_containers daemon w in
    (containers >>= (λ cs. ok (statuses cm cm.services cs [])), w')
