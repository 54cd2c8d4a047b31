-- ===== src/Docker.antt =====
-- packages/cli/internal/docker/client.go: the client. `W` is the state of the world; Docker's API, the
-- parsing of ports and the printing of numbers are parameters, as are the numbers of processors.
pub mod Compose
pub mod Running
use sentra_lab.Base.{
  ℕ, String, ◌<>◌, Bool, true, false, Option, none, some, List, [], ◌∷◌, Dict, insert, ℤ, pos,
  negsuc, str_eq, Result, ok, err, ◌>>=◌,
}

-- Of a container in Docker's list, the first of its names, of which Docker gives it one at least.
pub record Listed : Type 0 where
  pub id : String
  pub name : String
  pub state : String

-- What a container is created from; `exposed` are the keys of `bindings`, and 0 is no limit.
pub record Creation : Type 0 where
  pub name : String
  pub image : String
  pub env : List String
  pub bindings : Dict (String × String)
  pub binds : List String
  pub restart_policy : String
  pub memory : ℕ
  pub nano_cpus : ℕ

-- Docker's API. A pull is read to its end; a removal is forced.
pub record Daemon (W : Type 0) : Type 0 where
  pub image_pull : String → W → Bool × W
  pub container_create : Creation → W → Option String × W
  pub container_start : String → W → Bool × W
  pub container_stop : String → ℕ → W → Bool × W
  pub container_remove : String → W → Bool × W
  pub container_list : W → Option (List Listed) × W

-- nat.NewPort("tcp", _), %d, and int64(_ * 1e9) of what is above 0, else 0.
pub record Numbers (Cpus : Type 0) : Type 0 where
  pub new_port : String → Option String
  pub show : ℤ → String
  pub nano : Cpus → ℕ

pub data DockerError : Type 0 where
  failed_to_pull invalid_port failed_to_create : String → DockerError
  failed_to_start failed_to_stop failed_to_remove : String → DockerError
  failed_to_list : DockerError
  failed_to_pull_image failed_to_remove_existing : DockerError → DockerError
  failed_to_create_container failed_to_start_container : DockerError → DockerError
  failed_to_stop_service failed_to_remove_service : String → DockerError → DockerError
  service_failed : String → DockerError → DockerError

pub record ContainerConfig (Cpus : Type 0) : Type 0 where
  pub name : String
  pub image : String
  pub ports : Dict ℤ
  pub environment : Dict String
  pub volumes : List String
  pub memory : ℤ
  pub cpus : Cpus

-- The times of the status are left out.
pub record ContainerStatus : Type 0 where
  pub id : String
  pub name : String
  pub state : String
  pub running : Bool

abbrev pub status_of : Listed → ContainerStatus
status_of c = record {
  id = c.id;
  name = c.name;
  state = c.state;
  running = str_eq c.state "running";
}

unfoldable pub statuses_of : List Listed → List ContainerStatus
statuses_of [] = []
statuses_of (c ∷ cs) = status_of c ∷ statuses_of cs

unfoldable pub env_vars : Dict String → List String
env_vars [] = []
env_vars ((key, value) ∷ rest) = (key <> "=" <> value) ∷ env_vars rest

abbrev pub above_0 : ℤ → ℕ
above_0 (pos n) = n
above_0 (negsuc n) = 0

unfoldable pub port_bindings :
    {Cpus : Type 0}
    → Numbers Cpus
    → Dict ℤ
    → Dict (String × String)
    → Result DockerError (Dict (String × String))
port_bindings numbers [] bound = ok bound
port_bindings numbers ((container_port, host_port) ∷ rest) bound =
    elim (numbers.new_port container_port) [
      | none ↦ err (invalid_port container_port)
      | some port ↦
          port_bindings numbers rest (insert port ("0.0.0.0", numbers.show host_port) bound)
    ]

-- nil where the call was made, else the error.
abbrev pub nil_or : {W : Type 0} → DockerError → Bool × W → Option DockerError × W
nil_or e (done, w) = (elim done [ true ↦ none | false ↦ some e ], w)

module _ {W : Type 0} (daemon : Daemon W) where
  unfoldable pub pull_image : String → W → Option DockerError × W
  pull_image name w = nil_or (failed_to_pull name) (daemon.image_pull name w)

  unfoldable pub start_container : String → W → Option DockerError × W
  start_container id w = nil_or (failed_to_start id) (daemon.container_start id w)

  unfoldable pub stop_container : String → ℕ → W → Option DockerError × W
  stop_container id seconds w = nil_or (failed_to_stop id) (daemon.container_stop id seconds w)

  unfoldable pub remove_container : String → W → Option DockerError × W
  remove_container id w = nil_or (failed_to_remove id) (daemon.container_remove id w)

  abbrev pub listed : Option (List Listed) × W → Result DockerError (List ContainerStatus) × W
  listed (none, w) = (err failed_to_list, w)
  listed (some cs, w) = (ok (statuses_of cs), w)

  unfoldable pub list_containers : W → Result DockerError (List ContainerStatus) × W
  list_containers w = listed (daemon.container_list w)

module _ {W Cpus : Type 0} (daemon : Daemon W) (numbers : Numbers Cpus) where
  abbrev pub created : String → Option String × W → Result DockerError String × W
  created name (none, w) = (err (failed_to_create name), w)
  created name (some id, w) = (ok id, w)

  abbrev pub creation_of : ContainerConfig Cpus → Dict (String × String) → Creation
  creation_of config bound = record {
    name = config.name;
    image = config.image;
    env = env_vars config.environment;
    bindings = bound;
    binds = config.volumes;
    restart_policy = "unless-stopped";
    memory = above_0 config.memory;
    nano_cpus = numbers.nano config.cpus;
  }

  unfoldable pub create_container : ContainerConfig Cpus → W → Result DockerError String × W
  create_container config w = elim (port_bindings numbers config.ports []) [
    | err e ↦ (err e, w)
    | ok bound ↦ created config.name (daemon.container_create (creation_of config bound) w)
  ]
