-- ===== src/Tests/CuratedTests.antt =====
-- The curated catalog at concrete inputs.
use neuralgentics_broker.Prelude.{
  String, ◌≡◌, refl, Bool, true, false, none, some, [], ◌∷◌, ◌==◌, elem,
}
use neuralgentics_broker.Types.{to_server_config}
use neuralgentics_broker.Access.{can_access}
use neuralgentics_broker.Host.{Host, error_reply}
use neuralgentics_broker.Broker.{Broker}
use neuralgentics_broker.Broker.Activation.Fallback.{Settled, chosen}
use neuralgentics_broker.Catalog.Curated.{
  CuratedTransport, CuratedServer, CuratedCatalog, check_transport_availability, mcp_config,
  transport_config, find_curated,
}
use neuralgentics_broker.Catalog.Curated.Available.{
  has_type, OnlyOnce, check_transport_availability-podman,
}
use neuralgentics_broker.Broker.Discovery.{discover_catalog, activate_from_catalog}
use neuralgentics_broker.Broker.Discovery.Offered.{offered_names, activate_from_catalog-Settled}

abbrev over : String → CuratedTransport
over type = record {
  type = type;
  package_name = "serve";
  args = [];
  env = none;
  url = "";
  default = false;
  description = "";
}

abbrev search : CuratedServer
search = record {
  name = "search";
  description = "";
  homepage = "";
  category = "web";
  capabilities = [];
  transports = over "docker" ∷ over "local" ∷ [];
  required_env = [];
}

abbrev curated : CuratedCatalog
curated = record {
  version = "1";
  updated = "";
  description = "";
  servers = search ∷ [];
  provenance = "";
}

-- no process starts here
abbrev host : Host
host = record {
  look_path = λ s. s == "podman";
  stdin_pipe = λ n. none;
  stdout_pipe = λ n. none;
  start_process = λ n c. none;
  alive = λ n p. false;
  initialize = λ n s. error_reply;
  notify_initialized = λ n s. false;
  list_tools = λ n s. error_reply;
  call_tool = λ n s t a. error_reply;
  http_initialize = λ n u. error_reply;
  http_list_tools = λ n u. error_reply;
  http_call = λ n u t a. error_reply;
  now = λ n. n;
  digest = λ e. "";
}

abbrev broker : Broker
broker = record {
  registry = record { servers = [] };
  access = record { server_roles = ("search", "coder" ∷ []) ∷ [] };
  http_clients = [];
  proxy = record { next_id = 1; running = false };
  audit_writer = none;
  clock = 0;
}

activate_from_catalog-Settled_example :
    let done = activate_from_catalog host (some curated) "coder" "search" none broker in
    Settled host "search"
      (mcp_config search)
      (chosen host "search" (mcp_config search) (transport_config (over "docker")))
      done
    × (elem "search" (offered_names (discover_catalog (some curated) "coder" done.0).1) ≡ false)
unfolding find_curated can_access
activate_from_catalog-Settled_example =
    activate_from_catalog-Settled host curated search (over "docker") (over "local" ∷ []) "coder"
      "search" "coder" none broker refl refl refl refl

abbrev podman_only : String → Bool
podman_only binary = binary == "podman"

check_transport_availability-podman_example :
    let (available, unavailable) = check_transport_availability podman_only search.transports in
    let sc = to_server_config podman_only (transport_config (over "docker")) "search" "" [] in
    (elem "docker" unavailable ≡ true)
    × OnlyOnce unavailable
    × (has_type "docker" available ≡ false)
    × (sc.command ≡ "podman")
    × (sc.type ≡ "stdio")
check_transport_availability-podman_example =
    check_transport_availability-podman podman_only search.transports (over "docker") "search" "" []
      refl refl refl refl
