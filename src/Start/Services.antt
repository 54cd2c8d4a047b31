-- ===== src/Start/Services.antt =====
-- packages/cli/cmd/start/docker_manager.go: GenerateServiceConfigs. %d and %v are parameters.
use sentra_lab.Base.{
  String, ◌<>◌, Bool, true, false, Option, none, some, List, [], ◌∷◌, ◌++◌, ℤ, pos, Value, Table,
  look, as_int, as_bool, as_table,
}
use sentra_lab.Start.{ServiceConfig, HealthCheckConfig}

abbrev pub no_check : HealthCheckConfig
no_check = record { kind = ""; url = ""; host = ""; port = pos 0; address = "" }

abbrev pub engine_config : ServiceConfig
engine_config = record {
  name = "simulation-engine";
  image = "sentra/lab-engine:latest";
  ports = ("50051", pos 50051) ∷ [];
  environment =
      ("LOG_LEVEL", "info") ∷ ("STORAGE_PATH", "/data") ∷ ("ENABLE_RECORDER", "true") ∷ [];
  volumes = "./.sentra-lab:/data" ∷ [];
  health_check = record no_check { kind = "grpc"; address = "localhost:50051" };
  depends_on = [];
}

abbrev pub port_or : ℤ → Option ℤ → ℤ
port_or default none = default
port_or default (some p) = p

-- enabled, ok := mock["enabled"].(bool); ok && enabled
unfoldable pub if_on : Option Bool → ServiceConfig → List ServiceConfig
if_on none config = []
if_on (some true) config = config ∷ []
if_on (some false) config = []

-- The service of a mock that is there and enabled.
unfoldable pub if_enabled :
    {F : Type 0} → (Table F → ServiceConfig) → Option (Table F) → List ServiceConfig
unfolding if_on
if_enabled config none = []
if_enabled config (some mock) = if_on (as_bool (look "enabled" mock)) (config mock)

module _ {F : Type 0} (show_int : ℤ → String) (show : Option (Value F) → String) where
  abbrev pub http_check : ℤ → HealthCheckConfig
  http_check port = record no_check {
    kind = "http";
    url = "http://localhost:" <> show_int port <> "/health";
  }

  unfoldable pub openai_config : Table F → ServiceConfig
  openai_config openai =
      let port = port_or (pos 8080) (as_int (look "port" openai)) in
      record {
        name = "mock-openai";
        image = "sentra/mock-openai:latest";
        ports = ("8080", port) ∷ [];
        environment =
            ("LATENCY_MS", show (look "latency_ms" openai))
            ∷ ("RATE_LIMIT", show (look "rate_limit" openai))
            ∷ ("ERROR_RATE", show (look "error_rate" openai))
            ∷ [];
        volumes = "./fixtures:/fixtures:ro" ∷ [];
        health_check = http_check port;
        depends_on = [];
      }

  unfoldable pub stripe_config : Table F → ServiceConfig
  stripe_config stripe =
      let port = port_or (pos 8081) (as_int (look "port" stripe)) in
      record {
        name = "mock-stripe";
        image = "sentra/mock-stripe:latest";
        ports = ("8080", port) ∷ [];
        environment = ("LATENCY_MS", show (look "latency_ms" stripe)) ∷ [];
        volumes = "./fixtures:/fixtures:ro" ∷ [];
        health_check = http_check port;
        depends_on = [];
      }

  unfoldable pub coreledger_config : Table F → ServiceConfig
  coreledger_config coreledger =
      let port = port_or (pos 8082) (as_int (look "port" coreledger)) in
      record {
        name = "mock-coreledger";
        image = "sentra/mock-coreledger:latest";
        ports = ("8080", port) ∷ [];
        environment = [];
        volumes = "./fixtures:/fixtures:ro" ∷ [];
        health_check = http_check port;
        depends_on = [];
      }

  unfoldable pub generate_service_configs : Table F → List ServiceConfig
  unfolding if_enabled
  generate_service_configs mock_config =
      engine_config
      ∷ (if_enabled openai_config (as_table (look "openai" mock_config))
          ++ (if_enabled stripe_config (as_table (look "stripe" mock_config))
              ++ if_enabled coreledger_config (as_table (look "coreledger" mock_config))))
