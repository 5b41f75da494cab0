-- ===== src/Demo.antt =====
-- cmd/broker/main.go below the audit flags: the demonstration. What it prints is a record of the values.
pub mod Setup
use neuralgentics_broker.Prelude.{
  ℕ, zero, suc, ◌+◌, ◌-◌, ◌*◌, ◌/◌, ◌%◌, ◌^◌, ◌≤◌, ◌<◌, String, ◌≡◌, refl, sym, ap, ◌∙◌, ◌≢◌, ◌↔◌,
  ◌⊎◌, inl, inr, Bool, true, false, not, ◌&&◌, ◌||◌, Option, none, some, List, [], ◌∷◌, ◌++◌, map,
  reverse, arith, ◌==◌, eq_iff, eq_refl, ltb, leb, eqb, if◌then◌else◌, Bool-cases, Option-cases,
  is_some, Result, is_ok, put_at, ok, err, length, is_empty, keep_if, take, All, length-append,
  length-keep_if, All-keep_if, Listed, All-Listed, Listed-All, keep_if-Listed, All-keep_if_tested,
  elem, elem-append, elem-keep_if, Dict, get, put, delete, keys, has_key, IsMap, get-put,
  get-delete, has_key-get, has_key-put, has_key-delete, put-IsMap, delete-IsMap, dict_laws, text_le,
  text_le_total, sort_strings, IsSorted, sort_strings-IsSorted, elem-sort_strings, encode, bytes,
  later, last_index, last_index-lt, eq_bytes, drop, starts_with, contains, has_suffix, one_more,
  index,
}
use neuralgentics_broker.Errors.{Outcome, ErrUnauthorized}
use neuralgentics_broker.Types.{ServerConfig, ToolSummary, ServerStatus}
use neuralgentics_broker.Access.{can_access, get_accessible_servers}
use neuralgentics_broker.Audit.{AuditWriter}
use neuralgentics_broker.Catalog.{ServerCatalog, ToolCatalog}
use neuralgentics_broker.Intent.{Unicode, Floats, ToolMatch}
use neuralgentics_broker.Broker.{Broker, Action, pure, follow, ◌>>=◌, ◌>>◌, change}
use neuralgentics_broker.Broker.Lifecycle.{register_server}
use neuralgentics_broker.Broker.Views.{
  Assembly, new_broker_with_workspace, set_audit_writer, set_server_tools, list_servers,
  build_server_catalog, expand_server_of, inject_prompt, match_for_role,
}

abbrev pub test_servers : List ServerConfig
test_servers =
    record {
      name = "filesystem";
      command = "npx";
      args = "-y" ∷ "@modelcontextprotocol/server-filesystem" ∷ "/tmp" ∷ [];
      env = some (("NODE_PATH", "/usr/local/lib/node_modules") ∷ []);
      type = "stdio";
      description = "File system operations for reading and writing files";
      capabilities = "file" ∷ "io" ∷ [];
    }
    ∷ record {
      name = "memory";
      command = "npx";
      args = "-y" ∷ "@modelcontextprotocol/server-memory" ∷ [];
      env = none;
      type = "stdio";
      description = "Persistent knowledge graph and memory storage";
      capabilities = "memory" ∷ "search" ∷ [];
    }
    ∷ record {
      name = "playwright";
      command = "npx";
      args = "-y" ∷ "@modelcontextprotocol/server-playwright" ∷ [];
      env = none;
      type = "stdio";
      description = "Browser automation and web scraping";
      capabilities = "browser" ∷ "scraping" ∷ [];
    }
    ∷ []

abbrev pub tool : String → String → String → ToolSummary
tool server name description = record { server = server; name = name; description = description }

abbrev pub demo_tools : List ToolSummary
demo_tools =
    tool "filesystem" "read_file" "Read a file from disk"
    ∷ tool "filesystem" "write_file" "Write content to a file on disk"
    ∷ tool "memory" "create_entity" "Create a knowledge graph entity"
    ∷ tool "memory" "search_memories" "Search stored memories by query"
    ∷ tool "playwright" "browser_click" "Click a browser element"
    ∷ tool "playwright" "browser_navigate" "Navigate to a URL"
    ∷ []

-- the loop that registers the servers; the first error ends the program
unfoldable pub register_all : List ServerConfig → Action (Unit {0})
unfolding register_server
register_all [] = pure tt
register_all (c ∷ cs) = register_server c >> register_all cs

-- the inner loop that gathers a server's tools
unfoldable pub server_tools : String → List ToolSummary → List ToolSummary
server_tools name tools = keep_if (λ t. t.server == name) tools

-- the loop that sets them
unfoldable pub populate : List ToolSummary → List ServerConfig → Broker → Broker
unfolding server_tools set_server_tools
populate tools [] b = b
populate tools (c ∷ cs) b =
    populate tools cs (set_server_tools c.name (server_tools c.name tools) b)

-- the broker that the demonstration starts with
abbrev pub assembled : AuditWriter → Assembly
assembled writer = set_audit_writer (some writer) (new_broker_with_workspace ".")

-- the broker that it shows
unfoldable pub prepared : List ServerConfig → List ToolSummary → Action (Unit {0})
unfolding register_all populate
prepared servers tools = register_all servers >> change (populate tools servers)

abbrev pub intents : List String
intents = "read a file" ∷ "search my memories" ∷ "write data to disk" ∷ "create a new entity" ∷ []

pub record Report (F : Type 0) : Type 0 where
  pub servers : List ServerStatus
  pub orchestrator_catalog : ServerCatalog
  pub coder_catalog : ServerCatalog
  pub filesystem_tools : Outcome ToolCatalog
  pub coder_filesystem : Bool
  pub coder_playwright : Bool
  pub orchestrator_playwright : Bool
  pub refusal : ErrUnauthorized
  pub prompt : List ℕ
  pub orchestrator_matches : List (Outcome (ToolMatch F))
  pub coder_matches : List (Outcome (ToolMatch F))

module _ {F : Type 0} (floats : Floats F) (u : Unicode) (threshold : F) where
  -- the loops over the intents
  unfoldable pub match_each : Broker → String → List String → List (Outcome (ToolMatch F))
  unfolding match_for_role
  match_each b role [] = []
  match_each b role (i ∷ is) = match_for_role floats u threshold b role i ∷ match_each b role is

  unfoldable pub report : Broker → Report F
  unfolding match_each list_servers build_server_catalog expand_server_of inject_prompt can_access
      get_accessible_servers
  report b = record {
    servers = list_servers b;
    orchestrator_catalog = build_server_catalog b "orchestrator";
    coder_catalog = build_server_catalog b "coder";
    filesystem_tools = expand_server_of b "filesystem";
    coder_filesystem = can_access b.access "coder" "filesystem";
    coder_playwright = can_access b.access "coder" "playwright";
    orchestrator_playwright = can_access b.access "orchestrator" "playwright";
    refusal = record {
      role = "coder";
      server = "playwright";
      reason = "role coder cannot access server playwright";
      available_servers = get_accessible_servers b.access "coder";
    };
    prompt = inject_prompt b "orchestrator";
    orchestrator_matches = match_each b "orchestrator" intents;
    coder_matches = match_each b "coder" intents;
  }
