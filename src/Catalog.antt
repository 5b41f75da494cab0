-- ===== src/Catalog.antt =====
-- catalog/catalog.go: the server catalog that a role is shown, and the tools of one server. A
-- description that may be cut is a list of bytes.
pub mod Curated
pub mod Truncation
pub mod Filtering
pub mod Prompt
use neuralgentics_broker.Prelude.{
  ℕ, zero, suc, ◌+◌, ◌-◌, ◌*◌, ◌/◌, ◌%◌, ◌^◌, ◌≤◌, ◌<◌, String, ◌≡◌, refl, sym, ap, ◌∙◌, ◌≢◌, ◌↔◌,
  ◌⊎◌, inl, inr, Bool, true, false, not, ◌&&◌, ◌||◌, Option, none, some, List, [], ◌∷◌, ◌++◌, map,
  reverse, arith, ◌==◌, eq_iff, eq_refl, ltb, leb, eqb, if◌then◌else◌, Bool-cases, Option-cases,
  is_some, Result, is_ok, ok, err, length, is_empty, keep_if, take, All, length-append,
  length-keep_if, All-keep_if, elem, elem-append, elem-keep_if, Dict, get, put, delete, keys,
  has_key, IsMap, get-put, get-delete, has_key-get, has_key-put, has_key-delete, put-IsMap,
  delete-IsMap, dict_laws, text_le, text_le_total, sort_strings, IsSorted, sort_strings-IsSorted,
  elem-sort_strings, encode, bytes, later, last_index, last_index-lt,
}
use neuralgentics_broker.Errors.{Outcome, not_found}
use neuralgentics_broker.Types.{ServerConfig, ServerStatus, ToolSummary}
use neuralgentics_broker.Access.{AccessControl, can_access}
use neuralgentics_broker.Registry.{ServerEntry, Registry, find, list}
use neuralgentics_broker.Registry.Names.{split_once, first_part}

pub record ServerSummary : Type 0 where
  pub name : String
  pub description : List ℕ
  pub capabilities : List String
  pub tools_count : ℕ
  pub status : String

pub record ServerCatalog : Type 0 where
  pub servers : List ServerSummary
  pub total_tools : ℕ
  pub role : String

pub record CatalogTool : Type 0 where
  pub name : String
  pub description : String

pub record ToolCatalog : Type 0 where
  pub server : String
  pub status : String
  pub tools : List CatalogTool

-- `truncate`, below its two early returns: `lastSpace` is `none` for -1
abbrev pub cut : List ℕ → ℕ → Option ℕ → List ℕ
cut s cut_at none = take cut_at s ++ bytes "..."
cut s cut_at (some last_space) =
    if ltb 0 last_space then take last_space s ++ bytes " ..." else take cut_at s ++ bytes "..."

unfoldable pub truncate : List ℕ → ℕ → List ℕ
unfolding bytes last_index
truncate s max_len =
    if leb (length s) max_len
    then s
    else if leb max_len 3
    then take max_len s
    else cut s (max_len - 3) (last_index b' ' (take (max_len - 3) s))

-- the status of `ExpandServer` and of `buildSummary`
abbrev pub status_of : ServerEntry → String
status_of e =
    if is_some e.process
    then "running"
    else if not (e.config.command == "")
    then "stopped"
    else "registered"

abbrev pub part_or_empty : Option String → String
part_or_empty none = ""
part_or_empty (some p) = p

-- `parts[0]` of `inferCapabilities`
abbrev pub prefix : ToolSummary → String
prefix t = part_or_empty (first_part (split_once b'_' t.name))

-- The loop of `inferCapabilities`, over `seen` and `caps`.
unfoldable pub infer_loop : List String → List String → List ToolSummary → List String
infer_loop seen caps [] = caps
infer_loop seen caps (t ∷ ts) = elim (not (prefix t == "") && not (elem (prefix t) seen)) [
  | true ↦ infer_loop (prefix t ∷ seen) (caps ++ prefix t ∷ []) ts
  | false ↦ infer_loop seen caps ts
]

unfoldable pub infer_capabilities : List ToolSummary → List String
unfolding infer_loop split_once
infer_capabilities tools = infer_loop [] [] tools

-- `desc` and `caps` of `buildSummary`, with their fallbacks
abbrev pub description_of : String → List ToolSummary → List ℕ
description_of description [] = bytes description
description_of description (t ∷ ts) =
    if description == "" then truncate (bytes t.description) 80 else bytes description

abbrev pub capabilities_of : List String → List ToolSummary → List String
capabilities_of (c ∷ cs) tools = c ∷ cs
capabilities_of [] [] = []
capabilities_of [] (t ∷ ts) = infer_capabilities (t ∷ ts)

unfoldable pub build_summary : ServerEntry → ServerSummary
unfolding truncate infer_capabilities bytes
build_summary e = record {
  name = e.config.name;
  description = description_of e.config.description e.tools;
  capabilities = capabilities_of e.config.capabilities e.tools;
  tools_count = length e.tools;
  status = status_of e;
}

-- whether the loop of `Build` goes on with a server
abbrev pub visible : AccessControl → String → String → Bool
visible ac role name = role == "" || can_access ac role name

-- the summaries and the total so far
abbrev pub Progress : Type 0
Progress = List ServerSummary × ℕ

abbrev pub add_summary : Progress → Option ServerEntry → Progress
add_summary acc none = acc
add_summary (servers, total) (some e) =
    (servers ++ build_summary e ∷ [], total + (build_summary e).tools_count)

-- the body of the loop of `Build`
abbrev pub build_step : AccessControl → String → Registry → Progress → ServerStatus → Progress
build_step ac role r acc s = if visible ac role s.name then add_summary acc (find s.name r) else acc

unfoldable pub build_loop :
    AccessControl → String → Registry → Progress → List ServerStatus → Progress
build_loop ac role r acc [] = acc
build_loop ac role r acc (s ∷ ss) = build_loop ac role r (build_step ac role r acc s) ss

unfoldable pub build : AccessControl → Registry → String → ServerCatalog
unfolding build_loop build_summary list can_access
build ac r role =
    let (servers, total) = build_loop ac role r ([], 0) (list r) in
    record { servers = servers; total_tools = total; role = role }

abbrev pub catalog_tools : List ToolSummary → List CatalogTool
catalog_tools [] = []
catalog_tools (t ∷ ts) = record { name = t.name; description = t.description } ∷ catalog_tools ts

abbrev pub expanded : String → Option ServerEntry → Outcome ToolCatalog
expanded name none = err (not_found name)
expanded name (some e) =
    ok (record { server = name; status = status_of e; tools = catalog_tools e.tools })

unfoldable pub expand_server : Registry → String → Outcome ToolCatalog
expand_server r name = expanded name (find name r)
