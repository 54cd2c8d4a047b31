-- ===== src/Init/LedgerFixtures.antt =====
-- packages/cli/cmd/init/scaffolding.go: the texts of the ledger's fixtures, line by line.
use sentra_lab.Base.{String, [], ◌∷◌, lines}

unfoldable pub generate_coreledger_agents : String
generate_coreledger_agents = lines (
    "# CoreLedger Agent Fixtures" ∷ "agents:" ∷ "  - id: agent_001"
    ∷ "    name: \"Payment Processor\"" ∷ "    type: payment" ∷ "    balance_usd: 1000.00"
    ∷ "    transaction_limit: 500.00" ∷ "    status: active" ∷ "  " ∷ "  - id: agent_002"
    ∷ "    name: \"Data Analyst\"" ∷ "    type: analytics" ∷ "    balance_usd: 500.00"
    ∷ "    transaction_limit: 100.00" ∷ "    status: active" ∷ "  " ∷ "  - id: agent_003"
    ∷ "    name: \"Customer Support\"" ∷ "    type: support" ∷ "    balance_usd: 250.00"
    ∷ "    transaction_limit: 50.00" ∷ "    status: active" ∷ "" ∷ "policies:" ∷ "  payment:"
    ∷ "    max_transaction: 500.00" ∷ "    daily_limit: 5000.00" ∷ "    require_approval: false"
    ∷ "  " ∷ "  analytics:" ∷ "    max_transaction: 100.00" ∷ "    daily_limit: 1000.00"
    ∷ "    require_approval: false" ∷ "  " ∷ "  support:" ∷ "    max_transaction: 50.00"
    ∷ "    daily_limit: 500.00" ∷ "    require_approval: true" ∷ [])
