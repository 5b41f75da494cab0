-- ===== src/Access.antt =====
-- access/access.go: roles, the permission matrix, and the operations on it. A role is its text. The
-- order of the matrix's entries stands for the order in which Go ranges over the map.
pub mod Queries
pub mod Changes
use neuralgentics_broker.Prelude.{
  ℕ, zero, suc, ◌+◌, ◌-◌, ◌*◌, ◌/◌, ◌%◌, ◌^◌, ◌≤◌, ◌<◌, String, ◌≡◌, refl, sym, ap, ◌∙◌, ◌≢◌, ◌↔◌,
  ◌⊎◌, inl, inr, Bool, true, false, not, ◌&&◌, ◌||◌, Option, none, some, List, [], ◌∷◌, ◌++◌, map,
  reverse, arith, ◌==◌, eq_iff, eq_refl, ltb, leb, eqb, if◌then◌else◌, Bool-cases, Option-cases,
  is_some, Result, is_ok, ok, err, length, is_empty, keep_if, take, All, length-append,
  length-keep_if, All-keep_if, elem, elem-append, elem-keep_if, Dict, get, put, delete, keys,
  has_key, IsMap, get-put, get-delete, has_key-get, has_key-put, has_key-delete, put-IsMap,
  delete-IsMap, dict_laws, text_le, text_le_total, sort_strings, IsSorted, sort_strings-IsSorted,
  elem-sort_strings,
}

abbrev pub role_orchestrator : String
role_orchestrator = "orchestrator"

abbrev pub base_roles : List String
base_roles =
    "coder" ∷ "architect" ∷ "explorer" ∷ "tester" ∷ "writer" ∷ "linter" ∷ "git" ∷ "researcher"
    ∷ "reviewer" ∷ []

abbrev pub boomerang_roles : List String
boomerang_roles =
    "boomerang-coder" ∷ "boomerang-architect" ∷ "boomerang-explorer" ∷ "boomerang-tester"
    ∷ "boomerang-linter" ∷ "boomerang-git" ∷ "boomerang-writer" ∷ "boomerang-scraper"
    ∷ "boomerang-release" ∷ "boomerang-init" ∷ "boomerang-handoff" ∷ "boomerang-agent-builder" ∷ []

-- `AllRoles`
abbrev pub all_roles : List String
all_roles = role_orchestrator ∷ (base_roles ++ (boomerang_roles ++ ("mcp-specialist" ∷ [])))

-- `DefaultServerRoles`
abbrev pub default_server_roles : Dict (List String)
default_server_roles =
    ("memoryManager", [])
    ∷ ("neuralgentics", [])
    ∷ ("github-mcp", "boomerang-git" ∷ [])
    ∷ ("playwright", "tester" ∷ "boomerang-tester" ∷ "boomerang-scraper" ∷ "researcher" ∷ [])
    ∷ (
      "searxng",
      "architect" ∷ "coder" ∷ "boomerang-architect" ∷ "boomerang-coder" ∷ "boomerang-scraper"
          ∷ "researcher" ∷ "linter" ∷ "boomerang-linter" ∷ "git" ∷ "boomerang-git" ∷ [],
    )
    ∷ (
      "webfetch",
      "architect" ∷ "coder" ∷ "boomerang-architect" ∷ "boomerang-coder" ∷ "boomerang-scraper"
          ∷ "researcher" ∷ "tester" ∷ "boomerang-tester" ∷ "linter" ∷ "boomerang-linter" ∷ "git"
          ∷ "boomerang-git" ∷ [],
    )
    ∷ (
      "websearch",
      "architect" ∷ "coder" ∷ "boomerang-architect" ∷ "boomerang-coder" ∷ "boomerang-scraper"
          ∷ "researcher" ∷ "tester" ∷ "boomerang-tester" ∷ "linter" ∷ "boomerang-linter" ∷ "git"
          ∷ "boomerang-git" ∷ [],
    )
    ∷ (
      "markitdown",
      "architect" ∷ "boomerang-architect" ∷ "writer" ∷ "boomerang-writer" ∷ "git" ∷ "boomerang-git"
          ∷ "boomerang-release" ∷ [],
    )
    ∷ []

pub record AccessControl : Type 0 where
  pub server_roles : Dict (List String)

-- the loop of `NewAccessControl`; a copy of a list of roles is that list
unfoldable pub copy_roles : Dict (List String) → Dict (List String) → Dict (List String)
copy_roles copied [] = copied
copy_roles copied ((k, v) ∷ m) = copy_roles (put k v copied) m

unfoldable pub new_access_control : Dict (List String) → AccessControl
unfolding copy_roles
new_access_control server_roles = record { server_roles = copy_roles [] server_roles }

unfoldable pub default_access_control : AccessControl
unfolding new_access_control
default_access_control = new_access_control default_server_roles

-- what `CanAccess` makes of `ac.serverRoles[serverName]`
abbrev pub admits : Option (List String) → String → Bool
admits none role = true
admits (some []) role = true
admits (some (r ∷ rs)) role = elem role (r ∷ rs)

unfoldable pub can_access : AccessControl → String → String → Bool
can_access ac role server_name =
    if role == role_orchestrator then true else admits (get server_name ac.server_roles) role

-- the loop of `GetAccessibleServers` for a role other than the orchestrator
unfoldable pub accessible_names : String → Dict (List String) → List String
accessible_names role [] = []
accessible_names role ((name, roles) ∷ m) =
    let rest = accessible_names role m in if admits (some roles) role then name ∷ rest else rest

unfoldable pub get_accessible_servers : AccessControl → String → List String
unfolding accessible_names
get_accessible_servers ac role =
    if role == role_orchestrator
    then sort_strings (keys ac.server_roles)
    else sort_strings (accessible_names role ac.server_roles)

unfoldable pub server_names : AccessControl → List String
server_names ac = sort_strings (keys ac.server_roles)

-- the body of `Grant` below its first look at the map
abbrev pub granted : Option (List String) → String → List String
granted none role = role ∷ []
granted (some roles) role = if elem role roles then roles else roles ++ role ∷ []

unfoldable pub grant : AccessControl → String → String → AccessControl
grant ac role server_name = record {
  server_roles = put server_name (granted (get server_name ac.server_roles) role) ac.server_roles;
}

-- the loop of `Revoke`
abbrev pub without_role : String → List String → List String
without_role role = keep_if (λ r. not (r == role))

abbrev pub revoke_found : AccessControl → String → String → Option (List String) → AccessControl
revoke_found ac role server_name none = ac
revoke_found ac role server_name (some roles) = record {
  server_roles = put server_name (without_role role roles) ac.server_roles;
}

unfoldable pub revoke : AccessControl → String → String → AccessControl
revoke ac role server_name = revoke_found ac role server_name (get server_name ac.server_roles)

-- `Roles`: the snapshot for the profile export
unfoldable pub roles_snapshot : AccessControl → Dict (List String)
unfolding copy_roles
roles_snapshot ac = copy_roles [] ac.server_roles
