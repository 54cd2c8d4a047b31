-- ===== src/Init/OpenaiFixtures.antt =====
-- packages/cli/cmd/init/scaffolding.go: the texts of the OpenAI fixtures, line by line.
use sentra_lab.Base.{String, [], ◌∷◌, lines}

unfoldable pub generate_openai_fixtures : String
generate_openai_fixtures = lines (
    "# OpenAI Mock Response Fixtures" ∷ "responses:" ∷ "  - pattern: \"what is.*\""
    ∷ "    model: gpt-4" ∷ "    response: |"
    ∷ "      Let me help you with that question. Based on my knowledge, I can provide you with a detailed answer."
    ∷ "    tokens:" ∷ "      prompt: 20" ∷ "      completion: 25" ∷ "  "
    ∷ "  - pattern: \"hello|hi|hey\"" ∷ "    model: gpt-4" ∷ "    response: |"
    ∷ "      Hello! How can I assist you today?" ∷ "    tokens:" ∷ "      prompt: 10"
    ∷ "      completion: 12" ∷ "  " ∷ "  - pattern: \".*math.*|.*calculate.*\"" ∷ "    model: gpt-4"
    ∷ "    response: |"
    ∷ "      I'll help you with that calculation. Let me work through this step by step."
    ∷ "    tokens:" ∷ "      prompt: 15" ∷ "      completion: 30" ∷ ""
    ∷ "  - pattern: \".*code.*|.*program.*\"" ∷ "    model: gpt-4" ∷ "    response: |"
    ∷ "      Here's a code example that addresses your question:" ∷ "      " ∷ "      ```python"
    ∷ "      def example_function():" ∷ "          return \"Hello, World!\"" ∷ "      ```"
    ∷ "    tokens:" ∷ "      prompt: 25" ∷ "      completion: 45" ∷ "" ∷ "default:"
    ∷ "  model: gpt-4" ∷ "  response: |"
    ∷ "    I understand your question. Let me provide a comprehensive response based on the information available."
    ∷ "  tokens:" ∷ "    prompt: 20" ∷ "    completion: 30" ∷ [])

unfoldable pub generate_openai_patterns : String
generate_openai_patterns = lines (
    "# OpenAI Pattern Matching Rules" ∷ "patterns:" ∷ "  greetings:" ∷ "    - hello" ∷ "    - hi"
    ∷ "    - hey" ∷ "    - good morning" ∷ "    - good afternoon" ∷ "    - good evening" ∷ "  "
    ∷ "  questions:" ∷ "    - what is" ∷ "    - what are" ∷ "    - how do" ∷ "    - how can"
    ∷ "    - why is" ∷ "    - why are" ∷ "    - where is" ∷ "    - when is" ∷ "  " ∷ "  math:"
    ∷ "    - calculate" ∷ "    - compute" ∷ "    - solve"
    ∷ "    - \"\\\\d+\\\\s*[+\\\\-*/]\\\\s*\\\\d+\"" ∷ "  " ∷ "  coding:" ∷ "    - write code"
    ∷ "    - write a program" ∷ "    - write a function" ∷ "    - create a script"
    ∷ "    - implement" ∷ "" ∷ "response_strategies:" ∷ "  greetings:" ∷ "    tone: friendly"
    ∷ "    length: short" ∷ "  " ∷ "  questions:" ∷ "    tone: informative" ∷ "    length: medium"
    ∷ "    include_examples: true" ∷ "  " ∷ "  math:" ∷ "    tone: precise"
    ∷ "    include_calculation_steps: true" ∷ "  " ∷ "  coding:" ∷ "    tone: technical"
    ∷ "    include_code_blocks: true" ∷ "    language: auto-detect" ∷ [])
