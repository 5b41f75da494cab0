-- ===== src/Broker/Views.antt =====
-- broker.go: how a broker is put together, and the methods that show what it holds: the catalogs, the
-- tools of a server, the prompt, the tool for an intent. `Assembly` adds to `Broker` the fields that
-- only these methods read; the catalog builder shares the registry and the access control.
pub mod Hidden
pub mod Unseen
mod Orders
pub mod Matching
use neuralgentics_broker.Prelude.{
  ℕ, zero, suc, ◌+◌, ◌-◌, ◌*◌, ◌/◌, ◌%◌, ◌^◌, ◌≤◌, ◌<◌, String, ◌≡◌, refl, sym, ap, ◌∙◌, ◌≢◌, ◌↔◌,
  ◌⊎◌, inl, inr, Bool, true, false, not, ◌&&◌, ◌||◌, Option, none, some, List, [], ◌∷◌, ◌++◌, map,
  reverse, arith, ◌==◌, eq_iff, eq_refl, ltb, leb, eqb, if◌then◌else◌, Bool-cases, Option-cases,
  is_some, Result, is_ok, put_at, ok, err, length, is_empty, keep_if, take, All, length-append,
  length-keep_if, All-keep_if, elem, elem-append, elem-keep_if, Dict, get, put, delete, keys,
  has_key, IsMap, get-put, get-delete, has_key-get, has_key-put, has_key-delete, put-IsMap,
  delete-IsMap, dict_laws, text_le, text_le_total, sort_strings, IsSorted, sort_strings-IsSorted,
  elem-sort_strings, encode, bytes, later, last_index, last_index-lt, eq_bytes, drop, starts_with,
  contains, has_suffix, one_more, index,
}
use neuralgentics_broker.Errors.{Outcome, no_tools_available}
use neuralgentics_broker.Types.{ToolSummary, ServerStatus}
use neuralgentics_broker.Access.{
  AccessControl, new_access_control, default_access_control, default_server_roles,
}
use neuralgentics_broker.Registry.{Registry, new_registry, list, get_all_tools, modify, set_tools}
use neuralgentics_broker.Audit.{AuditWriter}
use neuralgentics_broker.Catalog.{ServerCatalog, ToolCatalog, build, expand_server}
use neuralgentics_broker.Catalog.Prompt.{format_for_prompt}
use neuralgentics_broker.Intent.{Unicode, Floats, ToolMatch, match_intent}
use neuralgentics_broker.Skills.{SkillCatalog, Workspace, load_external_manifest}
use neuralgentics_broker.Skills.Local.{Builder, Files}
use neuralgentics_broker.Skills.Walk.{build_skills}
use neuralgentics_broker.Broker.{Broker}
use neuralgentics_broker.Broker.Calls.{candidates}

pub record Assembly : Type 0 where
  pub core : Broker
  pub builder : Builder
  pub workspace_root : String
  pub external_dir : String

-- `NewBuilderWithAccess`, and `NewBuilder`, whose access control is the default one
abbrev pub new_builder : Builder
new_builder = record { workspace_root = ""; external_dir = ""; manifest = [] }

-- `NewBuilderWithExternal`
unfoldable pub new_builder_with_external : Workspace → String → String → Builder
unfolding load_external_manifest
new_builder_with_external w workspace_root external_dir = record new_builder {
  workspace_root = workspace_root;
  external_dir = external_dir;
  manifest = load_external_manifest w external_dir;
}

-- `Builder.SetExternalDir`
unfoldable pub set_external_dir : Workspace → String → Builder → Builder
unfolding load_external_manifest
set_external_dir w external_dir b = record b {
  external_dir = external_dir;
  manifest = load_external_manifest w external_dir;
}

abbrev pub new_core : Broker
new_core = record {
  registry = new_registry;
  access = new_access_control default_server_roles;
  http_clients = [];
  proxy = record { next_id = 1; running = false };
  audit_writer = none;
  clock = 0;
}

-- `NewBrokerWithWorkspace`; `NewBroker` gives it the working directory
abbrev pub new_broker_with_workspace : String → Assembly
new_broker_with_workspace workspace_root = record {
  core = new_core;
  builder = new_builder;
  workspace_root = workspace_root;
  external_dir = "";
}

-- `NewBrokerWithExternal`
abbrev pub new_broker_with_external : Workspace → String → String → Assembly
new_broker_with_external w workspace_root external_dir = record {
  core = new_core;
  builder = new_builder_with_external w workspace_root external_dir;
  workspace_root = workspace_root;
  external_dir = external_dir;
}

-- `SetExternalSkillsDir`
abbrev pub set_external_skills_dir : Workspace → String → Assembly → Assembly
set_external_skills_dir w external_dir a = record a {
  external_dir = external_dir;
  builder = set_external_dir w external_dir a.builder;
}

-- `SetAuditWriter`
abbrev pub set_audit_writer : Option AuditWriter → Assembly → Assembly
set_audit_writer writer a = record a { core = record a.core { audit_writer = writer } }

-- `ListServers`
unfoldable pub list_servers : Broker → List ServerStatus
unfolding list
list_servers b = list b.registry

-- `ListTools`
unfoldable pub list_tools : Broker → List ToolSummary
unfolding get_all_tools
list_tools b = get_all_tools b.registry

-- `BuildServerCatalog`
unfoldable pub build_server_catalog : Broker → String → ServerCatalog
unfolding build
build_server_catalog b role = build b.access b.registry role

-- `BuildSkills`
unfoldable pub build_skill_catalog : Files → Assembly → String → SkillCatalog
unfolding build_skills
build_skill_catalog f a role = build_skills f a.builder role a.workspace_root

-- `ExpandServer`
unfoldable pub expand_server_of : Broker → String → Outcome ToolCatalog
unfolding expand_server
expand_server_of b name = expand_server b.registry name

-- `InjectPrompt`
unfoldable pub inject_prompt : Broker → String → List ℕ
unfolding build format_for_prompt
inject_prompt b role = format_for_prompt (build b.access b.registry role)

-- `SetTools`
unfoldable pub set_server_tools : String → List ToolSummary → Broker → Broker
unfolding modify
set_server_tools name tools b = record b { registry = modify (set_tools tools) name b.registry }

module _ {F : Type 0} (floats : Floats F) (u : Unicode) (threshold : F) where
  abbrev pub match_among : String → List ToolSummary → Outcome (ToolMatch F)
  match_among intent [] = err no_tools_available
  match_among intent (t ∷ ts) = match_intent floats u threshold (t ∷ ts) intent

  -- `MatchIntent`
  unfoldable pub match_for_role : Broker → String → String → Outcome (ToolMatch F)
  unfolding candidates match_intent
  match_for_role b role intent = match_among intent (candidates b role)
