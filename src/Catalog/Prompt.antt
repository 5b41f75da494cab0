-- ===== src/Catalog/Prompt.antt =====
-- catalog/prompt.go: the text that shows a catalog to a language model, as bytes.
mod Decimal
use neuralgentics_broker.Prelude.{
  ℕ, zero, suc, ◌+◌, ◌/◌, ◌%◌, String, true, false, List, [], ◌∷◌, ◌++◌, ◌==◌, ltb, if◌then◌else◌,
  is_empty, bytes,
}
use neuralgentics_broker.Catalog.{ServerSummary, ServerCatalog}

-- `%d`: a number has at most as many digits as its successor counts
unfoldable pub digits : ℕ → ℕ → List ℕ → List ℕ
digits zero n acc = acc
digits (suc fuel) n acc = elim (ltb n 10) [
  | true ↦ (48 + n) ∷ acc
  | false ↦ digits fuel (n / 10) ((48 + n % 10) ∷ acc)
]

unfoldable pub decimal : ℕ → List ℕ
unfolding digits
decimal n = digits (suc n) n []

-- the loop that counts the running servers
abbrev pub count_running : List ServerSummary → ℕ
count_running [] = 0
count_running (s ∷ ss) = (if s.status == "running" then 1 else 0) + count_running ss

-- `strings.Join(caps, ", ")`, of texts
unfoldable pub join_commas : List String → List ℕ
unfolding bytes
join_commas [] = []
join_commas (c ∷ []) = bytes c
join_commas (c ∷ d ∷ cs) = bytes c ++ bytes ", " ++ join_commas (d ∷ cs)

abbrev pub or_general : List ℕ → List ℕ
or_general [] = bytes "general"
or_general (b ∷ bs) = b ∷ bs

-- the loop over the servers: `| %s | %s | %s | %d |`
unfoldable pub row : ServerSummary → List ℕ
unfolding join_commas decimal bytes
row s =
    bytes "| "
    ++ bytes s.name
    ++ bytes " | "
    ++ s.description
    ++ bytes " | "
    ++ or_general (join_commas s.capabilities)
    ++ bytes " | "
    ++ decimal s.tools_count
    ++ bytes " |\n"

unfoldable pub rows : List ServerSummary → List ℕ
unfolding row
rows [] = []
rows (s ∷ ss) = row s ++ rows ss

abbrev pub no_servers : String
no_servers = "## Available MCP Servers\n\nNo MCP servers are currently available."

abbrev pub introduction : List String
introduction =
    "## Available MCP Servers\n\n"
    ∷ "You have access to the following MCP servers through the Neuralgentics broker.\n"
    ∷ "Use the broker.MatchIntent() function to select the right tool by describing\n"
    ∷ "what you want to do. You do NOT need to know tool names — the broker's\n"
    ∷ "intent matcher selects the best tool for you.\n\n" ∷ []

abbrev pub table_head : List String
table_head =
    "| Server | Description | Capabilities | Tools |\n"
    ∷ "|--------|-------------|--------------|-------|\n" ∷ []

abbrev pub usage : List String
usage =
    "\n### How to Use MCP Tools\n\n"
    ∷ "1. **Describe your intent:** Call `broker.MatchIntent(\"search my memories\")`\n"
    ∷ "2. **The broker finds the tool:** Returns `{server: \"...\", tool: \"...\"}`\n"
    ∷ "3. **The broker calls it:** Returns the result directly\n\n"
    ∷ "If you need to see all tools on a specific server, call:\n"
    ∷ "  broker.ExpandServer(\"<server-name>\")\n" ∷ []

unfoldable pub written : List String → List ℕ
unfolding bytes
written [] = []
written (t ∷ ts) = bytes t ++ written ts

-- `### Active Servers (%d running, %d tools total)`
unfoldable pub active_servers : ℕ → ℕ → List ℕ
unfolding decimal bytes
active_servers running total =
    bytes "### Active Servers ("
    ++ decimal running
    ++ bytes " running, "
    ++ decimal total
    ++ bytes " tools total)\n\n"

-- `FormatForPrompt`
unfoldable pub format_for_prompt : ServerCatalog → List ℕ
unfolding rows written active_servers bytes
format_for_prompt cat =
    if is_empty cat.servers
    then bytes no_servers
    else written introduction
      ++ active_servers (count_running cat.servers) cat.total_tools
      ++ written table_head
      ++ rows cat.servers
      ++ written usage
