-- ===== src/Types.antt =====
-- types/types.go: server configurations and the conversion of a transport to the legacy form. A nil
-- map is `none`. Which binaries are on PATH is an argument, `look_path`.
pub mod Conversion
pub mod Sharing
use neuralgentics_broker.Prelude.{
  ℕ, zero, suc, ◌+◌, ◌-◌, ◌*◌, ◌/◌, ◌%◌, ◌^◌, ◌≤◌, ◌<◌, String, ◌≡◌, refl, sym, ap, ◌∙◌, ◌≢◌, ◌↔◌,
  ◌⊎◌, inl, inr, Bool, true, false, not, ◌&&◌, ◌||◌, Option, none, some, List, [], ◌∷◌, ◌++◌, map,
  reverse, arith, ◌==◌, eq_iff, eq_refl, ltb, leb, eqb, if◌then◌else◌, Bool-cases, Option-cases,
  is_some, Result, is_ok, put_at, ok, err, length, is_empty, keep_if, take, All, length-append,
  length-keep_if, All-keep_if, Listed, All-Listed, Listed-All, keep_if-Listed, All-keep_if_tested,
  elem, elem-append, elem-keep_if, Dict, get, put, delete, keys, has_key, IsMap, get-put,
  get-delete, has_key-get, has_key-put, has_key-delete, put-IsMap, delete-IsMap, dict_laws, text_le,
  text_le_total, sort_strings, IsSorted, sort_strings-IsSorted, elem-sort_strings, encode, bytes,
  later, last_index, last_index-lt, eq_bytes, drop, starts_with, contains, has_suffix, one_more,
  index,
}

-- `map[string]string`, which may be nil
abbrev pub Env : Type 0
Env = Option (Dict String)

pub record ServerConfig : Type 0 where
  pub name : String
  pub command : String
  pub args : List String
  pub env : Env
  pub type : String
  pub description : String
  pub capabilities : List String

pub record ToolSummary : Type 0 where
  pub server : String
  pub name : String
  pub description : String

-- `LastError` is never written.
pub record ServerStatus : Type 0 where
  pub name : String
  pub running : Bool
  pub tools : List ToolSummary

pub record TransportConfig : Type 0 where
  pub type : String
  pub package_name : String
  pub args : List String
  pub env : Env
  pub url : String
  pub default : Bool
  pub description : String

pub record McpServerConfig : Type 0 where
  pub name : String
  pub transports : List TransportConfig
  pub description : String
  pub capabilities : List String

-- `detectContainerRuntime`
unfoldable pub detect_container_runtime : (String → Bool) → String
detect_container_runtime look_path =
    if look_path "docker" then "docker" else if look_path "podman" then "podman" else "docker"

abbrev pub mcp_url : String
mcp_url = "NEURALGENTICS_MCP_URL"

-- a write to a map that is made first if it is nil
abbrev pub put_env : String → String → Env → Env
put_env k v none = some ((k, v) ∷ [])
put_env k v (some m) = some (put k v m)

-- `sc.Env` at the end of `ToServerConfig`
unfoldable pub converted_env : TransportConfig → Env
converted_env t =
    if "http" == t.type then if t.url == "" then t.env else put_env mcp_url t.url t.env else t.env

-- `ToServerConfig`: the switch on the type, with the map of the transport as a value. Types.Sharing has the
-- map as a reference, which other configurations may hold.
unfoldable pub to_server_config :
    (String → Bool) → TransportConfig → String → String → List String → ServerConfig
unfolding detect_container_runtime
to_server_config look_path t name description capabilities =
    let sc : ServerConfig = record {
      name = name;
      command = "";
      args = [];
      env = converted_env t;
      type = "";
      description = description;
      capabilities = capabilities;
    } in
    if "npx" == t.type
    then record sc { command = "npx"; args = "-y" ∷ t.package_name ∷ t.args; type = "stdio" }
    else if "uvx" == t.type
    then record sc { command = "uvx"; args = t.package_name ∷ t.args; type = "stdio" }
    else if "local" == t.type
    then record sc { command = t.package_name; args = t.args; type = "stdio" }
    else if "docker" == t.type
    then record sc {
      command = detect_container_runtime look_path;
      args =
          ("run" ∷ "-i" ∷ "--rm" ∷ t.args)
          ++ (if t.package_name == "" then [] else t.package_name ∷ []);
      type = "stdio";
    }
    else if "http" == t.type
    then record sc { type = "http" }
    else sc

-- `ToLegacyServerConfig`; `none` is the error for a list with no transport
unfoldable pub to_legacy_server_config : (String → Bool) → McpServerConfig → Option ServerConfig
unfolding to_server_config
to_legacy_server_config look_path c = elim c.transports [
  | [] ↦ none
  | t ∷ rest ↦ some (to_server_config look_path t c.name c.description c.capabilities)
]
