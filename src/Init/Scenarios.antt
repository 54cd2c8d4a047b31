-- ===== src/Init/Scenarios.antt =====
-- packages/cli/cmd/init/templates.go: the texts of the example scenarios, line by line.
use sentra_lab.Base.{String, [], ◌∷◌, ◌<>◌, lines}

unfoldable pub generate_basic_scenario : String → String
generate_basic_scenario name = lines (
    "# Basic Test Scenario"
    ∷ "name: \"Basic Agent Test\""
    ∷ "description: \"Verify agent responds to simple input\""
    ∷ "version: \"1.0\""
    ∷ ""
    ∷ "variables:"
    ∷ "  user_input: \"Hello, can you help me?\""
    ∷ ""
    ∷ "steps:"
    ∷ "  - id: \"agent-initialization\""
    ∷ "    action: verify_agent_ready"
    ∷ "    expect:"
    ∷ "      - status: ready"
    ∷ "      - timeout: 5s"
    ∷ "  "
    ∷ "  - id: \"simple-request\""
    ∷ "    action: agent_request"
    ∷ "    input: \"{{user_input}}\""
    ∷ "    expect:"
    ∷ "      - status: success"
    ∷ "      - response_time: <10s"
    ∷ "      - response_not_empty: true"
    ∷ "  "
    ∷ "  - id: \"verify-no-errors\""
    ∷ "    action: assert"
    ∷ "    conditions:"
    ∷ "      - no_errors: true"
    ∷ "      - execution_time: <15s"
    ∷ ""
    ∷ ("# Project: " <> name)
    ∷ [])

unfoldable pub generate_openai_scenario : String
generate_openai_scenario = lines (
    "# OpenAI API Test" ∷ "name: \"OpenAI Integration Test\""
    ∷ "description: \"Test agent's interaction with OpenAI mock\"" ∷ "version: \"1.0\"" ∷ ""
    ∷ "steps:" ∷ "  - id: \"openai-request\"" ∷ "    action: agent_request"
    ∷ "    input: \"What is 2+2?\"" ∷ "    expect:" ∷ "      - calls: [\"openai.chat.completions\"]"
    ∷ "      - response_contains: \"4\"" ∷ "  " ∷ "  - id: \"verify-cost\""
    ∷ "    action: verify_cost" ∷ "    expect:" ∷ "      - total_cost: <$0.10"
    ∷ "      - openai_tokens: <500" ∷ "  " ∷ "  - id: \"rate-limit-handling\""
    ∷ "    action: inject_error" ∷ "    service: openai" ∷ "    error: rate_limit_exceeded"
    ∷ "    probability: 1.0" ∷ "  " ∷ "  - id: \"agent-retry\"" ∷ "    action: agent_request"
    ∷ "    input: \"What is 3+3?\"" ∷ "    expect:" ∷ "      - retry_count: >0"
    ∷ "      - backoff_strategy: exponential" ∷ "      - final_status: success" ∷ [])

unfoldable pub generate_payment_scenario : String
generate_payment_scenario = lines (
    "# Payment Flow Test" ∷ "name: \"Payment Processing\""
    ∷ "description: \"Test complete payment flow with Stripe\"" ∷ "version: \"1.0\"" ∷ ""
    ∷ "variables:" ∷ "  amount: 99.99" ∷ "  currency: \"usd\""
    ∷ "  customer_email: \"test@example.com\"" ∷ "" ∷ "steps:" ∷ "  - id: \"create-payment-intent\""
    ∷ "    action: agent_request" ∷ "    input: \"Process payment for ${{amount}}\"" ∷ "    expect:"
    ∷ "      - calls: [\"stripe.payment_intents.create\"]"
    ∷ "      - payment_status: \"requires_payment_method\"" ∷ "  "
    ∷ "  - id: \"attach-payment-method\"" ∷ "    action: mock_response" ∷ "    service: stripe"
    ∷ "    endpoint: /v1/payment_methods" ∷ "    response:" ∷ "      id: \"pm_test_visa\""
    ∷ "      type: \"card\"" ∷ "      card:" ∷ "        brand: \"visa\"" ∷ "        last4: \"4242\""
    ∷ "  " ∷ "  - id: \"confirm-payment\"" ∷ "    action: agent_request"
    ∷ "    input: \"Confirm payment\"" ∷ "    expect:"
    ∷ "      - calls: [\"stripe.payment_intents.confirm\"]"
    ∷ "      - payment_status: \"succeeded\"" ∷ "  " ∷ "  - id: \"verify-webhook\""
    ∷ "    action: verify_webhook" ∷ "    service: stripe"
    ∷ "    event_type: \"payment_intent.succeeded\"" ∷ "    timeout: 5s" ∷ [])
