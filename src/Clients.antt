-- ===== src/Clients.antt =====
-- The clients of proxy/proxy.go and proxy/http_client.go: which client a configuration gets, and what
-- an HTTP client makes of an answer.
pub mod Environment
use neuralgentics_broker.Prelude.{
  String, ◌&&◌, ◌||◌, Option, none, some, List, [], ◌∷◌, ◌==◌, eqb, if◌then◌else◌, get,
}
use Prim.Native.Char.{code}
use neuralgentics_broker.Types.{ServerConfig, ToolSummary, Env, mcp_url}

pub data Client : Type 0 where
  stdio_client : ServerConfig → Client
  http_client : String → String → Client

-- `strings.TrimRight(s, "/")`
unfoldable pub trim_slashes : String → String
trim_slashes String.[] = ""
trim_slashes (String.◌∷◌ c s) =
    let rest = trim_slashes s in if rest == "" && eqb (code c) b'/' then "" else String.◌∷◌ c rest

-- a read of a map that may be nil, which gives "" for a missing key
abbrev pub value_or_empty : Option String → String
value_or_empty none = ""
value_or_empty (some v) = v

abbrev pub env_value : String → Env → String
env_value k none = ""
env_value k (some m) = value_or_empty (get k m)

-- `NewClientForConfig`; `none` is its error
unfoldable pub new_client_for_config : ServerConfig → Option Client
unfolding trim_slashes
new_client_for_config c =
    if c.type == "stdio"
    then some (stdio_client c)
    else if c.type == "http" || c.type == "sse"
    then (if env_value mcp_url c.env == ""
        then none
        else some (
            http_client (trim_slashes (env_value mcp_url c.env))
              (env_value "NEURALGENTICS_MCP_AUTH" c.env)))
    else none

-- `ListTools` of an HTTP client: the tools carry no server name
abbrev pub http_tools : List (String × String) → List ToolSummary
http_tools [] = []
http_tools ((name, description) ∷ ts) =
    record { server = ""; name = name; description = description } ∷ http_tools ts

-- `ListTools` of the proxy
abbrev pub stdio_tools : String → List (String × String) → List ToolSummary
stdio_tools server [] = []
stdio_tools server ((name, description) ∷ ts) =
    record { server = server; name = name; description = description } ∷ stdio_tools server ts
