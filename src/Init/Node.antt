-- ===== src/Init/Node.antt =====
-- packages/cli/cmd/init/templates.go: the texts of the Node project files, line by line.
use sentra_lab.Base.{String, [], ◌∷◌, ◌<>◌, lines}

unfoldable pub generate_package_json : String → String
generate_package_json name = lines (
    "{"
    ∷ ("  \"name\": \"" <> name <> "\",")
    ∷ "  \"version\": \"1.0.0\","
    ∷ "  \"description\": \"Sentra Lab agent\","
    ∷ "  \"main\": \"agent.ts\","
    ∷ "  \"scripts\": {"
    ∷ "    \"start\": \"ts-node agent.ts\","
    ∷ "    \"test\": \"jest\""
    ∷ "  },"
    ∷ "  \"dependencies\": {"
    ∷ "    \"openai\": \"^4.0.0\""
    ∷ "  },"
    ∷ "  \"devDependencies\": {"
    ∷ "    \"@types/node\": \"^20.0.0\","
    ∷ "    \"ts-node\": \"^10.9.0\","
    ∷ "    \"typescript\": \"^5.0.0\""
    ∷ "  }"
    ∷ "}"
    ∷ [])

unfoldable pub generate_ts_config : String
generate_ts_config = lines (
    "{" ∷ "  \"compilerOptions\": {" ∷ "    \"target\": \"ES2020\","
    ∷ "    \"module\": \"commonjs\"," ∷ "    \"lib\": [\"ES2020\"]," ∷ "    \"outDir\": \"./dist\","
    ∷ "    \"rootDir\": \"./\"," ∷ "    \"strict\": true," ∷ "    \"esModuleInterop\": true,"
    ∷ "    \"skipLibCheck\": true," ∷ "    \"forceConsistentCasingInFileNames\": true,"
    ∷ "    \"resolveJsonModule\": true" ∷ "  }," ∷ "  \"include\": [\"*.ts\"],"
    ∷ "  \"exclude\": [\"node_modules\", \"dist\"]" ∷ "}" ∷ [])
