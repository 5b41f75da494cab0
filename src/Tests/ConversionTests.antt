-- ===== src/Tests/ConversionTests.antt =====
-- Configurations, capabilities and catalogs at concrete inputs.
use neuralgentics_broker.Prelude.{
  ◌≤◌, String, ◌≡◌, refl, Bool, true, ◌&&◌, ◌||◌, none, some, List, [], ◌∷◌, arith, ◌==◌,
  if◌then◌else◌, length, elem, has_key, bytes,
}
use neuralgentics_broker.Types.{ToolSummary, TransportConfig, to_server_config}
use neuralgentics_broker.Types.Sharing.{
  Heap, env_at, convert_env, holds_map, over_heap, convert_env_lem,
}
use neuralgentics_broker.Access.{AccessControl, default_server_roles, can_access}
use neuralgentics_broker.Registry.{Registry, ServerEntry, get_all_tools}
use neuralgentics_broker.Catalog.{truncate, build}
use neuralgentics_broker.Catalog.Truncation.{length-truncate-le}
use neuralgentics_broker.Catalog.Filtering.{names, sum_counts, build_lem}

abbrev has_docker : String → Bool
has_docker s = s == "docker"

abbrev remote : TransportConfig
remote = record {
  type = "http";
  package_name = "";
  args = [];
  env = some (("KEY", "1") ∷ []);
  url = "http://localhost";
  default = true;
  description = "";
}

abbrev two_tools : List ToolSummary
two_tools =
    record { server = "git"; name = "repo_list"; description = "" }
    ∷ record { server = "git"; name = "repo_clone"; description = "" }
    ∷ []

length-truncate-le_example : length (truncate (bytes "clone a repository") 8) ≤ 8
length-truncate-le_example = length-truncate-le (bytes "clone a repository") 8

abbrev git_entry : ServerEntry
git_entry = record {
  config = record {
    name = "github-mcp";
    command = "git";
    args = [];
    env = none;
    type = "stdio";
    description = "";
    capabilities = [];
  };
  process = none;
  tools = two_tools;
  stdin = none;
  stdout = none;
}

abbrev git_only : Registry
git_only = record { servers = ("github-mcp", git_entry) ∷ [] }

abbrev shipped : AccessControl
shipped = record { server_roles = default_server_roles }

build_lem_example :
    ((s : String)
      → elem s (names (build shipped git_only "tester").servers)
        ≡ (has_key s git_only.servers && ("tester" == "" || can_access shipped "tester" s)))
    × ((build shipped git_only "tester").total_tools
        ≡ sum_counts (build shipped git_only "tester").servers)
    × ((build shipped git_only "").total_tools ≡ length (get_all_tools git_only))
build_lem_example =
    build_lem shipped git_only "tester" (record { unique = (refl, tt); named = (refl, tt) })

-- map 0 is the transport's
abbrev heap : Heap
heap = record { maps = λ r. ("KEY", "1") ∷ []; next = 1 }

convert_env_lem_example :
    let (h', ref') = convert_env remote (some 0) heap in
    let sc = to_server_config has_docker (over_heap heap (some 0) remote) "git" "" [] in
    (env_at h' ref' ≡ sc.env)
    × (env_at h' (some 0) ≡ (if holds_map 0 (some 0) then sc.env else env_at heap (some 0)))
convert_env_lem_example =
    convert_env_lem has_docker remote (some 0) heap 0 "git" "" [] (omega arith)
