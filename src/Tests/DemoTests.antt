-- ===== src/Tests/DemoTests.antt =====
-- The demonstration and the environment of a subprocess, at concrete inputs.
use neuralgentics_broker.Prelude.{
  String, ◌≡◌, refl, ◌≢◌, false, some, List, [], ◌∷◌, arith, ◌==◌, eq_iff, if◌then◌else◌, ok,
  keep_if, elem,
}
use neuralgentics_broker.Types.{Env}
use neuralgentics_broker.Registry.{get_tools}
use neuralgentics_broker.Broker.Views.{new_core}
use neuralgentics_broker.Demo.{test_servers, demo_tools, prepared}
use neuralgentics_broker.Demo.Setup.{config_names, prepared-tools}
use neuralgentics_broker.Clients.Environment.{command_env, build_env, effective, value_in}
use neuralgentics_broker.Clients.Environment.Values.{build_env_lem}

-- a text that another test tells from the empty one
not_empty : (s : String) → (s == "") ≡ false → s ≢ ""
not_empty s h e = ground (arith, eq_iff s "", h, e)

prepared-tools_example :
    ((prepared test_servers demo_tools new_core).1 ≡ ok tt)
    × ((name : String)
        → get_tools name (prepared test_servers demo_tools new_core).0.registry ≡ (
            if elem name (config_names test_servers)
            then keep_if (λ t. t.server == name) demo_tools
            else get_tools name new_core.registry))
prepared-tools_example = prepared-tools test_servers demo_tools new_core (
  (not_empty "filesystem" refl, not_empty "npx" refl),
  (
    (not_empty "memory" refl, not_empty "npx" refl),
    ((not_empty "playwright" refl, not_empty "npx" refl), tt),
  ),
)

abbrev environ : List String
environ = "PATH=/bin" ∷ "TOKEN=old" ∷ []

abbrev env : Env
env = some (("TOKEN", "a=b") ∷ ("NEURALGENTICS_MCP_AUTH", "key") ∷ [])

build_env_lem_example :
    (value_in "TOKEN" (effective environ (command_env environ env)) ≡ some "a=b")
    × (value_in "TOKEN" (build_env environ env) ≡ some "a=b")
unfolding value_in
build_env_lem_example = build_env_lem environ env "TOKEN" ((refl, (refl, tt)), (refl, (refl, tt)))
