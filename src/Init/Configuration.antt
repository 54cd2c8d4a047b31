-- ===== src/Init/Configuration.antt =====
-- packages/cli/cmd/init/templates.go: the texts of the configuration files, line by line.
use sentra_lab.Base.{String, [], ◌∷◌, ◌<>◌, lines}

unfoldable pub generate_lab_yaml : String → String
generate_lab_yaml name = lines (
    "# Sentra Lab Configuration"
    ∷ ("name: " <> name)
    ∷ "version: \"1.0\""
    ∷ ""
    ∷ "# Agent configuration"
    ∷ "agent:"
    ∷ "  runtime: python  # python, nodejs, go"
    ∷ "  entry_point: agent.py"
    ∷ "  timeout: 30s"
    ∷ ""
    ∷ "# Mock services"
    ∷ "mocks:"
    ∷ "  openai:"
    ∷ "    enabled: true"
    ∷ "    port: 8080"
    ∷ "    latency_ms: 1000"
    ∷ "    rate_limit: 3500  # requests per minute"
    ∷ "    error_rate: 0.01  # 1% random errors"
    ∷ "  "
    ∷ "  stripe:"
    ∷ "    enabled: true"
    ∷ "    port: 8081"
    ∷ "    latency_ms: 500"
    ∷ "  "
    ∷ "  coreledger:"
    ∷ "    enabled: true"
    ∷ "    port: 8082"
    ∷ ""
    ∷ "# Simulation settings"
    ∷ "simulation:"
    ∷ "  record_full_trace: true"
    ∷ "  enable_cost_tracking: true"
    ∷ "  max_concurrent_scenarios: 10"
    ∷ ""
    ∷ "# Storage"
    ∷ "storage:"
    ∷ "  recordings_dir: .sentra-lab/recordings"
    ∷ "  database: .sentra-lab/sentra.db"
    ∷ [])

unfoldable pub generate_mocks_yaml : String
generate_mocks_yaml = lines (
    "# Mock Service Configuration" ∷ "mocks:" ∷ "  openai:" ∷ "    models:" ∷ "      - gpt-4"
    ∷ "      - gpt-4-turbo-preview" ∷ "      - gpt-3.5-turbo" ∷ "    " ∷ "    behavior:"
    ∷ "      latency:" ∷ "        min_ms: 500" ∷ "        max_ms: 3000"
    ∷ "        distribution: normal" ∷ "      " ∷ "      rate_limiting:" ∷ "        enabled: true"
    ∷ "        rpm: 3500" ∷ "        tpm: 90000" ∷ "      " ∷ "      errors:"
    ∷ "        - type: rate_limit_exceeded" ∷ "          probability: 0.01"
    ∷ "          status_code: 429" ∷ "        " ∷ "        - type: service_unavailable"
    ∷ "          probability: 0.005" ∷ "          status_code: 503" ∷ "    " ∷ "    fixtures:"
    ∷ "      responses: fixtures/openai-responses.yaml"
    ∷ "      patterns: fixtures/openai-patterns.yaml" ∷ "" ∷ "  stripe:" ∷ "    behavior:"
    ∷ "      latency:" ∷ "        min_ms: 100" ∷ "        max_ms: 1000"
    ∷ "        distribution: normal" ∷ "      " ∷ "      webhooks:" ∷ "        enabled: true"
    ∷ "        delivery_delay_ms: 1000" ∷ "    " ∷ "    fixtures:"
    ∷ "      cards: fixtures/stripe-cards.yaml" ∷ "      errors: fixtures/stripe-errors.yaml" ∷ ""
    ∷ "  coreledger:" ∷ "    behavior:" ∷ "      latency:" ∷ "        min_ms: 200"
    ∷ "        max_ms: 800" ∷ "    " ∷ "    fixtures:"
    ∷ "      agents: fixtures/coreledger-agents.yaml" ∷ [])

unfoldable pub generate_gitignore : String
generate_gitignore = lines (
    ".sentra-lab/recordings/" ∷ ".sentra-lab/sentra.db" ∷ ".sentra-lab/cache/" ∷ "" ∷ "__pycache__/"
    ∷ "*.py[cod]" ∷ "*$py.class" ∷ "*.so" ∷ ".Python" ∷ "env/" ∷ "venv/" ∷ "ENV/" ∷ ""
    ∷ "node_modules/" ∷ "dist/" ∷ "build/" ∷ "*.log" ∷ "" ∷ ".DS_Store" ∷ ".idea/" ∷ ".vscode/"
    ∷ "*.swp" ∷ "*.swo" ∷ [])
