-- ===== src/Init/Agents.antt =====
-- packages/cli/cmd/init/templates.go: the texts of the Python and the Go agent, line by line.
use sentra_lab.Base.{String, [], ◌∷◌, ◌<>◌, lines}

unfoldable pub generate_python_agent : String
generate_python_agent = lines (
    "#!/usr/bin/env python3" ∷ "\"\"\"" ∷ "Example Python agent using OpenAI." ∷ "\"\"\""
    ∷ "import os" ∷ "from openai import OpenAI" ∷ "" ∷ "# Use Sentra Lab mock endpoint"
    ∷ "client = OpenAI(" ∷ "    api_key=\"mock_key_123\","
    ∷ "    base_url=os.getenv(\"OPENAI_API_BASE\", \"http://localhost:8080/v1\")" ∷ ")" ∷ ""
    ∷ "def handle_query(user_input: str) -> str:"
    ∷ "    \"\"\"Process user query using OpenAI.\"\"\""
    ∷ "    response = client.chat.completions.create(" ∷ "        model=\"gpt-4\","
    ∷ "        messages=["
    ∷ "            {\"role\": \"system\", \"content\": \"You are a helpful assistant.\"},"
    ∷ "            {\"role\": \"user\", \"content\": user_input}" ∷ "        ],"
    ∷ "        temperature=0.7," ∷ "        max_tokens=500" ∷ "    )" ∷ "    "
    ∷ "    return response.choices[0].message.content" ∷ "" ∷ "if __name__ == \"__main__\":"
    ∷ "    print(\"Agent ready. Enter 'quit' to exit.\")" ∷ "    " ∷ "    while True:"
    ∷ "        user_input = input(\"\\nYou: \").strip()" ∷ "        "
    ∷ "        if user_input.lower() == \"quit\":" ∷ "            break" ∷ "        "
    ∷ "        if not user_input:" ∷ "            continue" ∷ "        " ∷ "        try:"
    ∷ "            response = handle_query(user_input)"
    ∷ "            print(f\"\\nAgent: {response}\")" ∷ "        except Exception as e:"
    ∷ "            print(f\"\\nError: {e}\")" ∷ [])

unfoldable pub generate_python_requirements : String
generate_python_requirements = lines (
    "openai>=1.0.0" ∷ "requests>=2.31.0" ∷ "pydantic>=2.0.0" ∷ "pytest>=7.4.0"
    ∷ "pytest-asyncio>=0.21.0" ∷ [])

unfoldable pub generate_go_agent : String
generate_go_agent = lines (
    "package main" ∷ "" ∷ "import (" ∷ "\t\"context\"" ∷ "\t\"fmt\"" ∷ "\t\"os\"" ∷ ""
    ∷ "\t\"github.com/sashabaranov/go-openai\"" ∷ ")" ∷ "" ∷ "func main() {"
    ∷ "\t// Use Sentra Lab mock endpoint" ∷ "\tconfig := openai.DefaultConfig(\"mock_key_123\")"
    ∷ "\tbaseURL := os.Getenv(\"OPENAI_API_BASE\")" ∷ "\tif baseURL == \"\" {"
    ∷ "\t\tbaseURL = \"http://localhost:8080/v1\"" ∷ "\t}" ∷ "\tconfig.BaseURL = baseURL" ∷ ""
    ∷ "\tclient := openai.NewClientWithConfig(config)" ∷ ""
    ∷ "\tfmt.Println(\"Agent ready. Enter 'quit' to exit.\")" ∷ "" ∷ "\tfor {"
    ∷ "\t\tfmt.Print(\"\\nYou: \")" ∷ "\t\tvar input string" ∷ "\t\tfmt.Scanln(&input)" ∷ ""
    ∷ "\t\tif input == \"quit\" {" ∷ "\t\t\tbreak" ∷ "\t\t}" ∷ "" ∷ "\t\tif input == \"\" {"
    ∷ "\t\t\tcontinue" ∷ "\t\t}" ∷ "" ∷ "\t\tresponse, err := handleQuery(client, input)"
    ∷ "\t\tif err != nil {" ∷ "\t\t\tfmt.Printf(\"\\nError: %v\\n\", err)" ∷ "\t\t\tcontinue"
    ∷ "\t\t}" ∷ "" ∷ "\t\tfmt.Printf(\"\\nAgent: %s\\n\", response)" ∷ "\t}" ∷ "}" ∷ ""
    ∷ "func handleQuery(client *openai.Client, userInput string) (string, error) {"
    ∷ "\tresp, err := client.CreateChatCompletion(" ∷ "\t\tcontext.Background(),"
    ∷ "\t\topenai.ChatCompletionRequest{" ∷ "\t\t\tModel: openai.GPT4,"
    ∷ "\t\t\tMessages: []openai.ChatCompletionMessage{" ∷ "\t\t\t\t{"
    ∷ "\t\t\t\t\tRole:    openai.ChatMessageRoleSystem,"
    ∷ "\t\t\t\t\tContent: \"You are a helpful assistant.\"," ∷ "\t\t\t\t}," ∷ "\t\t\t\t{"
    ∷ "\t\t\t\t\tRole:    openai.ChatMessageRoleUser," ∷ "\t\t\t\t\tContent: userInput,"
    ∷ "\t\t\t\t}," ∷ "\t\t\t}," ∷ "\t\t\tTemperature: 0.7," ∷ "\t\t\tMaxTokens:   500," ∷ "\t\t},"
    ∷ "\t)" ∷ "" ∷ "\tif err != nil {" ∷ "\t\treturn \"\", err" ∷ "\t}" ∷ ""
    ∷ "\treturn resp.Choices[0].Message.Content, nil" ∷ "}" ∷ [])

unfoldable pub generate_go_mod : String → String
generate_go_mod name = lines (
    ("module " <> name)
    ∷ ""
    ∷ "go 1.21"
    ∷ ""
    ∷ "require github.com/sashabaranov/go-openai v1.17.0"
    ∷ [])
