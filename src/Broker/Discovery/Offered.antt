-- ===== src/Broker/Discovery/Offered.antt =====
-- What an activation from the curated catalog of broker.go leaves, and what `DiscoverCatalog` offers.
use neuralgentics_broker.Prelude.{
  ℕ, String, ◌≡◌, refl, sym, ap, ◌∙◌, inl, inr, Bool, true, false, not, ◌&&◌, ◌||◌, Option, some,
  List, [], ◌∷◌, arith, ◌==◌, eq_iff, if◌then◌else◌, Bool-cases, Option-cases, ok, err, is_empty,
  elem, Dict, keys, has_key, has_key-get,
}
use mathlib.Core.Option.{map as option_map}
use mathlib.Core.Path.{subst}
use neuralgentics_broker.Types.Conversion.{to_server_config_lem}
use neuralgentics_broker.Errors.{Outcome}
use neuralgentics_broker.Types.{
  ServerConfig, to_legacy_server_config, McpServerConfig, TransportConfig,
}
use neuralgentics_broker.Access.{AccessControl, can_access}
use neuralgentics_broker.Registry.{ServerEntry, list, statuses, find, register_mcp_server, register}
use neuralgentics_broker.Registry.Laws.{find-register}
use neuralgentics_broker.Host.{Host}
use neuralgentics_broker.Catalog.Curated.{
  CuratedTransport, CuratedServer, CuratedCatalog, find_curated, mcp_config, transport_config,
}
use neuralgentics_broker.Broker.{Broker}
use neuralgentics_broker.Broker.Lifecycle.{register_mcp}
use neuralgentics_broker.Broker.Activation.{activate}
use neuralgentics_broker.Broker.Activation.Fallback.{config_of, Settled, activate-Settled, chosen}
use neuralgentics_broker.Broker.Discovery.{
  registered_names, discover_loop, discover_catalog, activate_found, activate_from_catalog,
}

abbrev pub curated_names : List CuratedServer → List String
curated_names [] = []
curated_names (s ∷ ss) = s.name ∷ curated_names ss

-- the names that `DiscoverCatalog` answers with
abbrev pub offered_names : Outcome (List CuratedServer) → List String
offered_names (ok ss) = curated_names ss
offered_names (err e) = []

registered_names-statuses : (m : Dict ServerEntry) → registered_names (statuses m) ≡ keys m
unfolding statuses
registered_names-statuses [] = refl
registered_names-statuses ((k, e) ∷ m) = ap (◌∷◌ k) (registered_names-statuses m)

elem-choice :
    (name : String) (ss rest : List CuratedServer) (s : CuratedServer) (taken denied out : Bool)
    → elem name (curated_names rest) ≡ (elem name (curated_names ss) && out)
    → ((s.name == name) ≡ true → out ≡ (not taken && not denied))
    → elem name (curated_names (if taken then rest else if denied then rest else s ∷ rest))
      ≡ (elem name (curated_names (s ∷ ss)) && out)
elem-choice name ss rest s taken denied out h k = elim (Bool-cases (s.name == name)) [
  | inl here ↦ ground (arith, here, k here, h)
  | inr away ↦ ground (arith, away, h)
]

elem-discover_loop :
    (ac : AccessControl) (role : String) (registered : List String) (ss : List CuratedServer)
    (name : String)
    → elem name (curated_names (discover_loop ac role registered ss)) ≡ (
        elem name (curated_names ss)
        && (not (elem name registered) && (role == "" || can_access ac role name)))
unfolding discover_loop
elem-discover_loop ac role registered [] name = refl
elem-discover_loop ac role registered (s ∷ ss) name =
    elem-choice name ss (discover_loop ac role registered ss) s (elem s.name registered)
      (not (role == "") && not (can_access ac role s.name))
      (not (elem name registered) && (role == "" || can_access ac role name))
      (elem-discover_loop ac role registered ss name)
      (λ here. rw ((eq_iff s.name name).0 here) (ground arith))

-- The names that `DiscoverCatalog` offers to a role are exactly those of the curated catalog that are
-- not registered and that the role may access, where no role may access them all.
discover_catalog_lem :
    (catalog : CuratedCatalog) (role name : String) (b : Broker)
    → elem name (offered_names (discover_catalog (some catalog) role b).1) ≡ (
        elem name (curated_names catalog.servers)
        && (not (has_key name b.registry.servers) && (role == "" || can_access b.access role name)))
unfolding discover_catalog list
discover_catalog_lem catalog role name b = rw (sym (registered_names-statuses b.registry.servers)) (
    elem-discover_loop b.access role (registered_names (statuses b.registry.servers))
      catalog.servers name)

pub find_curated-name :
    (name : String) (ss : List CuratedServer) (s : CuratedServer)
    → find_curated name ss ≡ some s
    → s.name ≡ name
unfolding find_curated
find_curated-name name [] s h = cc
find_curated-name name (x ∷ ss) s h =
    ground (arith, eq_iff x.name name, find_curated-name name ss s)

-- the broker right after the registration
registered_from :
    (host : Host) (found : CuratedServer) (t : CuratedTransport) (ts : List CuratedTransport)
    (b : Broker)
    → (found.name == "") ≡ false
    → found.transports ≡ t ∷ ts
    → register_mcp host (mcp_config found) b ≡ (
      record b {
        registry =
            register (chosen host found.name (mcp_config found) (transport_config t)) b.registry;
      },
      ok tt,
    )
unfolding register_mcp register_mcp_server to_legacy_server_config
registered_from host found t ts b named some_transports = rw (named, some_transports) refl

has_key-config_of :
    (name : String) (sc : ServerConfig) (b : Broker)
    → config_of name b ≡ some sc
    → has_key name b.registry.servers ≡ true
has_key-config_of name sc b h = elim (Option-cases (find name b.registry)) [
  | inl absent ↦ cc
  | inr (e, there) ↦ has_key-get name b.registry.servers ∙ rw there refl
]

has_key-Settled :
    (host : Host) (name : String) (c : McpServerConfig) (old : ServerConfig)
    (done : Broker × Outcome String)
    → Settled host name c old done
    → has_key name done.0.registry.servers ≡ true
has_key-Settled host name c old (b, ok type) (i, t, p, q, h) =
    has_key-config_of name (chosen host name c t) b h
has_key-Settled host name c old (b, err e) h = has_key-config_of name old b h

config_of-register :
    (host : Host) (name : String) (c : McpServerConfig) (t : TransportConfig) (b : Broker)
    → config_of name (record b { registry = register (chosen host name c t) b.registry })
      ≡ some (chosen host name c t)
config_of-register host name c t b =
    let sc = chosen host name c t in
    let same = (to_server_config_lem host.look_path t name c.description c.capabilities).0 in
    ap (option_map (λ (e : ServerEntry). e.config)) (find-register sc name b.registry)
    ∙ ground (arith, (eq_iff sc.name name).1 same)

activate_found_lem :
    (host : Host) (found : CuratedServer) (t : CuratedTransport) (ts : List CuratedTransport)
    (role : String) (i : Option ℕ) (b : Broker)
    → found.transports ≡ t ∷ ts
    → (found.name == "") ≡ false
    → (role == "" || can_access b.access role found.name) ≡ true
    → activate_found host role found.name i found b
      ≡ activate host found.name (mcp_config found) i (record b {
        registry =
            register (chosen host found.name (mcp_config found) (transport_config t)) b.registry;
      })
unfolding activate_found
activate_found_lem host found t ts role i b transports named allowed =
    let admitted : (not (role == "") && not (can_access b.access role found.name)) ≡ false =
      ground arith in
    let declared : is_empty found.transports ≡ false = rw transports refl in
    rw (admitted, declared, registered_from host found t ts b named transports) refl

-- the end of an activation that was allowed, by the curated server's own name
activate_found-Settled :
    (host : Host) (found : CuratedServer) (t : CuratedTransport) (ts : List CuratedTransport)
    (role : String) (i : Option ℕ) (b : Broker)
    → found.transports ≡ t ∷ ts
    → (found.name == "") ≡ false
    → (role == "" || can_access b.access role found.name) ≡ true
    → Settled host found.name
        (mcp_config found)
        (chosen host found.name (mcp_config found) (transport_config t))
        (activate_found host role found.name i found b)
unfolding activate_found
activate_found-Settled host found t ts role i b transports named allowed =
    let c = mcp_config found in
    let sc = chosen host found.name c (transport_config t) in
    subst (Settled host found.name c sc)
      (sym (activate_found_lem host found t ts role i b transports named allowed))
      (activate-Settled host found.name c i sc (record b { registry = register sc b.registry })
        (config_of-register host found.name c (transport_config t) b))

-- An activation of a curated server with a transport, by a role that may access it, whatever the
-- surroundings answer and even if the server was registered before: on success the server has the
-- configuration of one of the curated transports, whose type is returned; on failure it stays
-- registered with the configuration of the first one. Either way it is no longer offered to any role.
pub activate_from_catalog-Settled :
    (host : Host) (catalog : CuratedCatalog) (found : CuratedServer) (t : CuratedTransport)
    (ts : List CuratedTransport) (role name other : String) (i : Option ℕ) (b : Broker)
    → find_curated name catalog.servers ≡ some found
    → found.transports ≡ t ∷ ts
    → (name == "") ≡ false
    → (role == "" || can_access b.access role name) ≡ true
    → let done = activate_from_catalog host (some catalog) role name i b in
      Settled host name
        (mcp_config found)
        (chosen host name (mcp_config found) (transport_config t))
        done
      × (elem name (offered_names (discover_catalog (some catalog) other done.0).1) ≡ false)
unfolding activate_from_catalog activate_found
activate_from_catalog-Settled host catalog found t ts role name other i b there transports named
      allowed =
    let same = find_curated-name name catalog.servers found there in
    let end =
      subst
        (λ n.
          Settled host n (mcp_config found) (chosen host n (mcp_config found) (transport_config t))
            (activate_found host role n i found b))
        same
        (activate_found-Settled host found t ts role i b transports (rw same named)
          (rw same allowed)) in
    let done = activate_found host role name i found b in
    let known = has_key-Settled host name (mcp_config found) _ done end in
    rw there (end, discover_catalog_lem catalog other name done.0 ∙ rw known (ground arith))
