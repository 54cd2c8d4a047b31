-- ===== src/Start/Published.antt =====
-- packages/cli/cmd/start/docker_manager.go: the health checks of the services that are generated.
use sentra_lab.Base.{
  String, ◌<>◌, ◌≡◌, refl, sym, ap, Bool, true, false, Option, none, some, List, [], ◌∷◌, ◌++◌, All,
  ℤ, pos, lookup, Value, Table, look, as_bool, as_table, inl, inr, ◌⊎◌,
}
use sentra_lab.Start.{ServiceConfig}
use sentra_lab.Start.Services.{
  generate_service_configs, if_on, if_enabled, openai_config, stripe_config, coreledger_config,
}

All-append : {A : Type 0} (P : A → Type 0) (xs ys : List A) → All P xs → All P ys → All P (xs ++ ys)
All-append P [] ys h k = k
All-append P (x ∷ xs) ys (p, h) k = (p, All-append P xs ys h k)

module _ {F : Type 0} (show_int : ℤ → String) (show : Option (Value F) → String) where
  -- A service is checked by gRPC or by HTTP, in both cases at the host's port under which the port
  -- that its container serves, 50051 or 8080, is published.
  abbrev pub IsPublished : ServiceConfig → Type 0
  IsPublished c =
      ((c.health_check.kind ≡ "grpc")
        × (port : ℤ) × (lookup "50051" c.ports ≡ some port)
        × (c.health_check.address ≡ "localhost:" <> show_int port))
      ⊎ ((c.health_check.kind ≡ "http")
          × (port : ℤ) × (lookup "8080" c.ports ≡ some port)
          × (c.health_check.url ≡ "http://localhost:" <> show_int port <> "/health"))

  if_on-All : (o : Option Bool) (c : ServiceConfig) → IsPublished c → All IsPublished (if_on o c)
  unfolding if_on
  if_on-All none c h = tt
  if_on-All (some true) c h = (h, tt)
  if_on-All (some false) c h = tt

  if_enabled-All :
      (config : Table F → ServiceConfig) (o : Option (Table F))
      → ((mock : Table F) → IsPublished (config mock))
      → All IsPublished (if_enabled config o)
  unfolding if_enabled
  if_enabled-All config none h = tt
  if_enabled-All config (some mock) h =
      if_on-All (as_bool (look "enabled" mock)) (config mock) (h mock)

  -- Every service that is generated, whatever the configuration of the mocks, is checked by gRPC at
  -- the host's port that its container's port 50051 is published under, or by HTTP, at the path
  -- /health, at the one that its port 8080 is published under. (%d prints 50051 as "50051".)
  pub generate_service_configs-All :
      show_int (pos 50051) ≡ "50051"
      → (mock_config : Table F)
      → All IsPublished (generate_service_configs show_int show mock_config)
  unfolding generate_service_configs openai_config stripe_config coreledger_config lookup
  generate_service_configs-All printed mock_config = (
    inl (refl, pos 50051, refl, ap (λ t. "localhost:" <> t) (sym printed)),
    All-append IsPublished
        (if_enabled (openai_config show_int show) (as_table (look "openai" mock_config))) _
        (if_enabled-All (openai_config show_int show) _ (λ mock. inr (refl, _, refl, refl)))
        (All-append IsPublished
          (if_enabled (stripe_config show_int show) (as_table (look "stripe" mock_config))) _
          (if_enabled-All (stripe_config show_int show) _ (λ mock. inr (refl, _, refl, refl)))
          (if_enabled-All (coreledger_config show_int show) _ (λ mock. inr (refl, _, refl, refl)))),
  )
