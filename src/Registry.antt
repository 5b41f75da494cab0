-- ===== src/Registry.antt =====
-- registry/registry.go: the entries of the registered servers, by name. Every method holds the
-- registry's or the entry's lock from its first read to its last write, so it is one step here. An
-- entry is reached through its name: the code's pointer to an entry is used only while the name is
-- registered to it. A process handle and a pipe are numbers.
pub mod Names
pub mod Laws
pub mod Capabilities
use neuralgentics_broker.Prelude.{
  ℕ, zero, suc, ◌+◌, ◌-◌, ◌*◌, ◌/◌, ◌%◌, ◌^◌, ◌≤◌, ◌<◌, String, ◌≡◌, refl, sym, ap, ◌∙◌, ◌≢◌, ◌↔◌,
  ◌⊎◌, inl, inr, Bool, true, false, not, ◌&&◌, ◌||◌, Option, none, some, List, [], ◌∷◌, ◌++◌, map,
  reverse, arith, ◌==◌, eq_iff, eq_refl, ltb, leb, eqb, if◌then◌else◌, Bool-cases, Option-cases,
  is_some, Result, is_ok, ok, err, length, is_empty, keep_if, take, All, length-append,
  length-keep_if, All-keep_if, elem, elem-append, elem-keep_if, Dict, get, put, delete, keys,
  has_key, IsMap, get-put, get-delete, has_key-get, has_key-put, has_key-delete, put-IsMap,
  delete-IsMap, dict_laws, text_le, text_le_total, sort_strings, IsSorted, sort_strings-IsSorted,
  elem-sort_strings,
}
use neuralgentics_broker.Errors.{
  BrokerError, Outcome, name_required, transport_required, no_transports, not_found,
}
use neuralgentics_broker.Types.{
  ServerConfig, ToolSummary, ServerStatus, McpServerConfig, to_legacy_server_config,
}

pub record ServerEntry : Type 0 where
  pub config : ServerConfig
  pub process : Option ℕ
  pub tools : List ToolSummary
  pub stdin : Option ℕ
  pub stdout : Option ℕ

-- `SetRuntime`
abbrev pub set_runtime :
    Option ℕ → Option ℕ → Option ℕ → List ToolSummary → ServerEntry → ServerEntry
set_runtime proc stdin stdout tools e = record e {
  process = proc;
  stdin = stdin;
  stdout = stdout;
  tools = tools;
}

-- `SetTools`
abbrev pub set_tools : List ToolSummary → ServerEntry → ServerEntry
set_tools tools e = record e { tools = tools }

-- `SetConfig`
abbrev pub set_config : ServerConfig → ServerEntry → ServerEntry
set_config c e = record e { config = c }

-- `ClearRuntime`
abbrev pub clear_runtime : ServerEntry → ServerEntry
clear_runtime e = record e { process = none; stdin = none; stdout = none }

pub record Registry : Type 0 where
  pub servers : Dict ServerEntry

abbrev pub new_registry : Registry
new_registry = record { servers = [] }

-- `Register`
unfoldable pub register : ServerConfig → Registry → Registry
register c r = record {
  servers =
      put c.name (record { config = c; process = none; tools = []; stdin = none; stdout = none })
        r.servers;
}

-- `Deregister`
unfoldable pub deregister : String → Registry → Outcome Registry
deregister name r =
    if has_key name r.servers
    then ok (record { servers = delete name r.servers })
    else err (not_found name)

-- `Get`, and the `Snapshot` of what it finds
abbrev pub find : String → Registry → Option ServerEntry
find name r = get name r.servers

-- a mutation through the pointer that `Get` returns
abbrev pub modify_found :
    (ServerEntry → ServerEntry) → String → Registry → Option ServerEntry → Registry
modify_found f name r none = r
modify_found f name r (some e) = record { servers = put name (f e) r.servers }

unfoldable pub modify : (ServerEntry → ServerEntry) → String → Registry → Registry
modify f name r = modify_found f name r (find name r)

-- `UpdateEntry`
unfoldable pub update_entry : String → ServerEntry → Registry → Registry
update_entry name e r = record { servers = put name e r.servers }

-- The loop of `List`, which Go ranges in an order of its own in each call: that of the entries here.
unfoldable pub statuses : Dict ServerEntry → List ServerStatus
statuses [] = []
statuses ((name, e) ∷ m) =
    record { name = name; running = is_some e.process; tools = e.tools } ∷ statuses m

-- `List`
unfoldable pub list : Registry → List ServerStatus
unfolding statuses
list r = statuses r.servers

abbrev pub tools_of : Option ServerEntry → List ToolSummary
tools_of none = []
tools_of (some e) = e.tools

-- `GetTools`
unfoldable pub get_tools : String → Registry → List ToolSummary
get_tools name r = tools_of (find name r)

-- the two loops of `GetAllTools`
unfoldable pub all_tools : Dict ServerEntry → List ToolSummary
all_tools [] = []
all_tools ((name, e) ∷ m) = e.tools ++ all_tools m

unfoldable pub get_all_tools : Registry → List ToolSummary
unfolding all_tools
get_all_tools r = all_tools r.servers

-- `GetServerNames`: in the order of the map
unfoldable pub get_server_names : Registry → List String
get_server_names r = keys r.servers

-- `RegisterMCPServer`
unfoldable pub register_mcp_server : (String → Bool) → McpServerConfig → Registry → Outcome Registry
unfolding register
register_mcp_server look_path c r =
    if c.name == ""
    then err name_required
    else if is_empty c.transports
    then err transport_required
    else elim (to_legacy_server_config look_path c) [
      | none ↦ err (no_transports c.name)
      | some sc ↦ ok (register sc r)
    ]
