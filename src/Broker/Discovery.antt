-- ===== src/Broker/Discovery.antt =====
-- The methods of broker.go on the curated catalog. What the embedded JSON parses to is an argument;
-- `none` is the error of `LoadCuratedCatalog`.
pub mod Offered
use neuralgentics_broker.Prelude.{
  ℕ, String, not, ◌&&◌, Option, none, some, List, [], ◌∷◌, ◌==◌, if◌then◌else◌, err, is_empty, elem,
}
use neuralgentics_broker.Errors.{
  load_catalog_failed, not_in_catalog, no_transports, register_failed, unauthorized,
}
use neuralgentics_broker.Types.{ServerStatus}
use neuralgentics_broker.Access.{AccessControl, can_access}
use neuralgentics_broker.Registry.{list}
use neuralgentics_broker.Host.{Host}
use neuralgentics_broker.Catalog.Curated.{
  CuratedTransport, CuratedServer, CuratedCatalog, check_transport_availability, find_curated,
  mcp_config,
}
use neuralgentics_broker.Broker.{Action, pure, ◌>>=◌, ◌>>◌, wrap, or_fail}
use neuralgentics_broker.Broker.Lifecycle.{register_mcp}
use neuralgentics_broker.Broker.Activation.{activate}

-- `registeredNames`
abbrev pub registered_names : List ServerStatus → List String
registered_names [] = []
registered_names (s ∷ ss) = s.name ∷ registered_names ss

-- the loop of `DiscoverCatalog`
unfoldable pub discover_loop :
    AccessControl → String → List String → List CuratedServer → List CuratedServer
discover_loop ac role registered [] = []
discover_loop ac role registered (s ∷ ss) =
    let rest = discover_loop ac role registered ss in
    if elem s.name registered
    then rest
    else if not (role == "") && not (can_access ac role s.name)
    then rest
    else s ∷ rest

abbrev pub servers_of : Option CuratedCatalog → Option (List CuratedServer)
servers_of none = none
servers_of (some c) = some c.servers

-- `DiscoverCatalog`
unfoldable pub discover_catalog : Option CuratedCatalog → String → Action (List CuratedServer)
unfolding discover_loop list
discover_catalog parsed role b =
    (do
      servers ← or_fail load_catalog_failed (servers_of parsed)
      pure (discover_loop b.access role (registered_names (list b.registry)) servers))
      b

-- `ActivateFromCatalog` after the server is found
unfoldable pub activate_found : Host → String → String → Option ℕ → CuratedServer → Action String
unfolding register_mcp activate
activate_found host role name transport_index found b =
    if not (role == "") && not (can_access b.access role name)
    then (
      b,
      err (
          unauthorized (record {
            role = role;
            server = name;
            reason = "role cannot access this catalog server";
            available_servers = [];
          })),
    )
    else if is_empty found.transports
    then (b, err (no_transports name))
    else (wrap (register_failed name) (register_mcp host (mcp_config found))
          >> activate host name (mcp_config found) transport_index)
        b

-- `ActivateFromCatalog`
unfoldable pub activate_from_catalog :
    Host → Option CuratedCatalog → String → String → Option ℕ → Action String
unfolding activate_found find_curated
activate_from_catalog host parsed role name transport_index = do
  servers ← or_fail load_catalog_failed (servers_of parsed)
  found ← or_fail (not_in_catalog name) (find_curated name servers)
  activate_found host role name transport_index found

-- `ListTransports`
unfoldable pub list_transports :
    Host → Option CuratedCatalog → String → Action (List CuratedTransport × List String)
unfolding check_transport_availability find_curated
list_transports host parsed name = do
  servers ← or_fail load_catalog_failed (servers_of parsed)
  found ← or_fail (not_in_catalog name) (find_curated name servers)
  pure (found.transports, (check_transport_availability host.look_path found.transports).1)
