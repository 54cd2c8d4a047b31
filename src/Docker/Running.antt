-- ===== src/Docker/Running.antt =====
-- packages/cli/internal/docker/compose.go: a service that was started runs.
use sentra_lab.Base.{
  String, ◌≡◌, ap, ◌&&◌, ◌||◌, refl, Bool, true, false, Option, none, some, List, [], ◌∷◌, arith,
  ◌⊎◌, inl, inr, Result, ok, err, Bool-cases, Option-cases,
}
use sentra_lab.Docker.{
  Daemon, Numbers, DockerError, ContainerConfig, ContainerStatus, create_container, start_container,
  remove_container, list_containers, pull_image,
}
use sentra_lab.Docker.Compose.{
  ServiceDefinition, ComposeManager, get_container_name, is_named, config_of, clear_old,
  start_created, start_cleared, start_listed, start_pulled, start_service,
}

-- A container of the list runs under the name.
unfoldable pub any_running : String → List ContainerStatus → Bool
any_running name [] = false
any_running name (c ∷ cs) = is_named name c && c.running || any_running name cs

module _ {W : Type 0} (daemon : Daemon W) where
  clear_old-running :
      (name : String) (cs : List ContainerStatus) (w : W)
      → (clear_old daemon name cs w).0 ≡ ok true
      → any_running name cs ≡ true
  unfolding clear_old any_running
  clear_old-running name [] w h = absurd (cc)
  clear_old-running name (c ∷ cs) w h = elim (Bool-cases (is_named name c)) [
    | inr other ↦ ground (arith, clear_old-running name cs w, h, other)
    | inl same ↦ elim (Bool-cases c.running) [
      | inl runs ↦ ground arith
      | inr stopped ↦ elim (Option-cases (remove_container daemon c.id w).0) [
        | inr (e, failed) ↦ absurd (ground arith)
        | inl gone ↦ ground (arith, clear_old-running name cs (remove_container daemon c.id w).1)
      ]
    ]
  ]

  start_created-running :
      (r : Result DockerError String × W)
      → (start_created daemon r).0 ≡ none
      → (id : String) × (r.0 ≡ ok id)
        × (start_container daemon id r.1 ≡ (none, (start_created daemon r).1))
  start_created-running (err e, w) h = absurd (cc)
  start_created-running (ok id, w) h = elim (Option-cases (start_container daemon id w).0) [
    | inr (e, failed) ↦ absurd (ground arith)
    | inl started ↦ (id, refl, ap (λ o. (o, (start_container daemon id w).1)) started)
  ]

module _ {W Cpus : Type 0} (daemon : Daemon W) (numbers : Numbers Cpus) where
  -- A container was created from the configuration, and started as the last thing done.
  abbrev pub IsStarted : ContainerConfig Cpus → W → Type 0
  IsStarted config final =
      (id : String) × (v : W) × ((create_container daemon numbers config v).0 ≡ ok id)
      × (start_container daemon id (create_container daemon numbers config v).1 ≡ (none, final))

  -- A container of the list runs under the name, or one was created and started.
  abbrev pub IsUp : ContainerConfig Cpus → List ContainerStatus → W → Type 0
  IsUp config cs final = (any_running config.name cs ≡ true) ⊎ IsStarted config final

  start_cleared-IsUp :
      (config : ContainerConfig Cpus) (cs : List ContainerStatus) (r : Result DockerError Bool × W)
      → (r.0 ≡ ok true → any_running config.name cs ≡ true)
      → (start_cleared daemon numbers config r).0 ≡ none
      → IsUp config cs (start_cleared daemon numbers config r).1
  start_cleared-IsUp config cs (err e, w) found h = absurd (cc)
  start_cleared-IsUp config cs (ok true, w) found h = inl (found refl)
  start_cleared-IsUp config cs (ok false, w) found h =
      let (id, made, started) =
        start_created-running daemon (create_container daemon numbers config w) h in
      inr (id, w, made, started)

  start_listed-IsUp :
      (config : ContainerConfig Cpus) (r : Result DockerError (List ContainerStatus) × W)
      → (start_listed daemon numbers config r).0 ≡ none
      → (cs : List ContainerStatus) × (r.0 ≡ ok cs)
        × IsUp config cs (start_listed daemon numbers config r).1
  start_listed-IsUp config (err e, w) h = absurd (cc)
  start_listed-IsUp config (ok cs, w) h = (
    cs,
    refl,
    start_cleared-IsUp config cs (clear_old daemon config.name cs w)
        (clear_old-running daemon config.name cs w) h,
  )

  start_pulled-IsUp :
      (config : ContainerConfig Cpus) (r : Option DockerError × W)
      → (start_pulled daemon numbers config r).0 ≡ none
      → (cs : List ContainerStatus) × ((list_containers daemon r.1).0 ≡ ok cs)
        × IsUp config cs (start_pulled daemon numbers config r).1
  start_pulled-IsUp config (some e, w) h = absurd (cc)
  start_pulled-IsUp config (none, w) h = start_listed-IsUp config (list_containers daemon w) h

  -- Where startService returns no error, Docker was asked for its containers after the pull, and
  -- either one of them runs under the service's name, or a container was created from the service and
  -- started as the last thing done, both without an error.
  pub start_service-IsUp :
      (cm : ComposeManager Cpus) (service : ServiceDefinition Cpus) (w : W)
      → (start_service daemon numbers cm service w).0 ≡ none
      → (cs : List ContainerStatus) × ((list_containers daemon
            (pull_image daemon service.image w).1).0
          ≡ ok cs)
        × IsUp
            (config_of (get_container_name cm service.name) service)
            cs
            (start_service daemon numbers cm service w).1
  unfolding start_service
  start_service-IsUp cm service w h =
      start_pulled-IsUp (config_of (get_container_name cm service.name) service)
        (pull_image daemon service.image w) h
