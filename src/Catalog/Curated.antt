-- ===== src/Catalog/Curated.antt =====
-- catalog/curated.go: the curated servers and which of their transports the binaries on PATH allow.
-- The bytes of mcp_catalog.json and their parser are outside; a parsed catalog is an argument.
pub mod Available
use neuralgentics_broker.Prelude.{
  ℕ, zero, suc, ◌+◌, ◌-◌, ◌*◌, ◌/◌, ◌%◌, ◌^◌, ◌≤◌, ◌<◌, String, ◌≡◌, refl, sym, ap, ◌∙◌, ◌≢◌, ◌↔◌,
  ◌⊎◌, inl, inr, Bool, true, false, not, ◌&&◌, ◌||◌, Option, none, some, List, [], ◌∷◌, ◌++◌, map,
  reverse, arith, ◌==◌, eq_iff, eq_refl, ltb, leb, eqb, if◌then◌else◌, Bool-cases, Option-cases,
  is_some, Result, is_ok, ok, err, length, is_empty, keep_if, take, All, length-append,
  length-keep_if, All-keep_if, elem, elem-append, elem-keep_if, Dict, get, put, delete, keys,
  has_key, IsMap, get-put, get-delete, has_key-get, has_key-put, has_key-delete, put-IsMap,
  delete-IsMap, dict_laws, text_le, text_le_total, sort_strings, IsSorted, sort_strings-IsSorted,
  elem-sort_strings, encode, bytes, later, last_index, last_index-lt, eq_bytes, drop, starts_with,
  contains, has_suffix, one_more, index,
}
use neuralgentics_broker.Types.{Env, TransportConfig, McpServerConfig}

pub record CuratedTransport : Type 0 where
  pub type : String
  pub package_name : String
  pub args : List String
  pub env : Env
  pub url : String
  pub default : Bool
  pub description : String

pub record CuratedServer : Type 0 where
  pub name : String
  pub description : String
  pub homepage : String
  pub category : String
  pub capabilities : List String
  pub transports : List CuratedTransport
  pub required_env : List String

pub record CuratedCatalog : Type 0 where
  pub version : String
  pub updated : String
  pub description : String
  pub servers : List CuratedServer
  pub provenance : String

-- `transportBinary`
unfoldable pub transport_binary : String → String
transport_binary type =
    if type == "npx"
    then "npx"
    else if type == "uvx"
    then "uvx"
    else if type == "docker"
    then "docker"
    else ""

-- `binaryAvailable`, which answers false for any other name
unfoldable pub binary_available : (String → Bool) → String → Bool
binary_available look_path name =
    if name == "npx" || name == "uvx" || name == "docker" || name == "podman"
    then look_path name
    else false

-- the transports accepted so far, and the types refused so far, each once
abbrev pub Checked : Type 0
Checked = List CuratedTransport × List String

-- the body of the loop
unfoldable pub check_transport : (String → Bool) → Checked → CuratedTransport → Checked
unfolding transport_binary binary_available
check_transport look_path (available, unavailable) t =
    if transport_binary t.type == ""
    then (available ++ t ∷ [], unavailable)
    else if binary_available look_path (transport_binary t.type)
    then (available ++ t ∷ [], unavailable)
    else if elem t.type unavailable
    then (available, unavailable)
    else (available, unavailable ++ t.type ∷ [])

unfoldable pub check_loop : (String → Bool) → Checked → List CuratedTransport → Checked
unfolding check_transport
check_loop look_path acc [] = acc
check_loop look_path acc (t ∷ ts) = check_loop look_path (check_transport look_path acc t) ts

-- `CheckTransportAvailability`
unfoldable pub check_transport_availability : (String → Bool) → List CuratedTransport → Checked
unfolding check_loop
check_transport_availability look_path ts = check_loop look_path ([], []) ts

-- the loops of broker.go that look for a server by its name
unfoldable pub find_curated : String → List CuratedServer → Option CuratedServer
find_curated name [] = none
find_curated name (s ∷ ss) =
    let rest = find_curated name ss in if s.name == name then some s else rest

-- the conversion of `ActivateFromCatalog`
abbrev pub transport_config : CuratedTransport → TransportConfig
transport_config t = record {
  type = t.type;
  package_name = t.package_name;
  args = t.args;
  env = t.env;
  url = t.url;
  default = t.default;
  description = t.description;
}

abbrev pub transport_configs : List CuratedTransport → List TransportConfig
transport_configs [] = []
transport_configs (t ∷ ts) = transport_config t ∷ transport_configs ts

abbrev pub mcp_config : CuratedServer → McpServerConfig
mcp_config s = record {
  name = s.name;
  transports = transport_configs s.transports;
  description = s.description;
  capabilities = s.capabilities;
}
