-- ===== src/Broker/Stable.antt =====
-- What the methods of broker.go keep of a property that is stable on the names that they are about.
use neuralgentics_broker.Prelude.{
  ℕ, String, ◌≡◌, refl, sym, inl, inr, Bool, true, false, not, ◌&&◌, Option, none, some, List, [],
  ◌∷◌, arith, ◌==◌, if◌then◌else◌, Bool-cases, Option-cases, is_some, Result, ok, err, is_empty,
}
use mathlib.Core.Path.{subst}
use neuralgentics_broker.Errors.{Outcome, register_failed, load_catalog_failed, not_in_catalog}
use neuralgentics_broker.Types.{
  ServerConfig, McpServerConfig, to_legacy_server_config, to_server_config,
}
use neuralgentics_broker.Registry.{register, Registry, ServerEntry, find, register_mcp_server}
use neuralgentics_broker.Host.{Host}
use neuralgentics_broker.Audit.{Payload}
use neuralgentics_broker.Broker.{◌>>=◌, or_fail, Broker}
use neuralgentics_broker.Broker.Keeps.{
  Keeps, IsStable, Keeps-pure, Keeps-or_fail, Keeps-bind, Keeps-wrap,
}
use neuralgentics_broker.Broker.Lifecycle.{
  register_server, register_mcp, deactivate_found, deactivate_mcp_server,
}
use neuralgentics_broker.Broker.Lifecycle.Registered.{
  register_server-Keeps, deregister_server-Keeps, set_registry-Keeps,
}
use neuralgentics_broker.Broker.Calls.{Request, route, audit, call, denial}
use neuralgentics_broker.Broker.Calls.Audited.{route-Frame}
use neuralgentics_broker.Broker.Discovery.{servers_of, activate_found, activate_from_catalog}
use neuralgentics_broker.Broker.Profiles.{
  LockEntry, LockCodec, config_in, restore_entry, restore, restore_lock, apply_profile,
}
use neuralgentics_broker.Catalog.Curated.{CuratedServer, CuratedCatalog, find_curated, mcp_config}
use neuralgentics_broker.Profile.{Profile, ProfileError}
use neuralgentics_broker.Access.{can_access}
use neuralgentics_broker.Broker.Discovery.Offered.{find_curated-name}
use neuralgentics_broker.Broker.Activation.Sound.{activate-Keeps}

name-to_legacy :
    (look_path : String → Bool) (c : McpServerConfig) {sc : ServerConfig}
    → to_legacy_server_config look_path c ≡ some sc
    → sc.name ≡ c.name
unfolding to_legacy_server_config to_server_config
name-to_legacy look_path c {sc} e = ground (arith, e)

module _ {On : String → Type 0} {P : Broker → Type 0} (stable : IsStable On P) where
  deactivate_found-Keeps :
      (name : String) → On name → (o : Option ServerEntry) → Keeps P (deactivate_found name o)
  deactivate_found-Keeps name on none = Keeps-pure tt
  deactivate_found-Keeps name on (some e) = deregister_server-Keeps stable name on

  pub deactivate-Keeps : (name : String) → On name → Keeps P (deactivate_mcp_server name)
  unfolding deactivate_mcp_server
  deactivate-Keeps name on = record {
    at = λ b h. (deactivate_found-Keeps name on (find name b.registry)).at b h;
  }

  register_mcp_server-P :
      (look_path : String → Bool) (c : McpServerConfig) (b : Broker) (r : Registry)
      → On c.name
      → register_mcp_server look_path c b.registry ≡ ok r
      → P b
      → P (record b { registry = r })
  unfolding register_mcp_server
  register_mcp_server-P look_path c b r on e h =
      elim (Option-cases (to_legacy_server_config look_path c)) [
        | inl absent ↦ absurd (ground (arith, e, absent))
        | inr (sc, there) ↦
            let same : register sc b.registry ≡ r = ground (arith, e, there) in
            subst (λ s. P (record b { registry = s })) same
              (stable.registers sc (subst On (sym (name-to_legacy look_path c there)) on) b h)
      ]

  pub register_mcp-Keeps :
      (host : Host) (c : McpServerConfig) → On c.name → Keeps P (register_mcp host c)
  unfolding register_mcp
  register_mcp-Keeps host c on = record {
    at = λ b h.
        set_registry-Keeps stable b (register_mcp_server host.look_path c b.registry)
          (λ s e. register_mcp_server-P host.look_path c b s on e h) h;
  }

  audit-P :
      (host : Host) (start : ℕ) (q : Request) (r : Outcome Payload) (b : Broker)
      → P b
      → P (audit host start q r b)
  unfolding audit
  audit-P host start q r b h = stable.frames b _ refl refl refl h

  pub call-Keeps : (host : Host) (q : Request) → Keeps P (call host q)
  unfolding call
  call-Keeps host q = record {
    at = λ b h. elim (Bool-cases (can_access b.access q.role q.server)) [
      | inr deny ↦ rw (deny, call) (audit-P host b.clock q (err (denial b q)) b h)
      | inl allow ↦
          rw (allow, call)
            (let (b', r) = route host q b in
              let f = route-Frame host q b in
              audit-P host b.clock q r b' (stable.frames b b' f.0 f.1 f.2 h))
    ];
  }

  activate_found-Keeps :
      (host : Host) (role name : String) (i : Option ℕ) (found : CuratedServer)
      → On name
      → found.name ≡ name
      → Keeps P (activate_found host role name i found)
  unfolding activate_found
  activate_found-Keeps host role name i found on same = record {
    at = λ b h. elim (Bool-cases (not (role == "") && not (can_access b.access role name))) [
      | inl denied ↦ rw denied h
      | inr admitted ↦ elim (Bool-cases (is_empty found.transports)) [
        | inl none_declared ↦ rw (admitted, none_declared) h
        | inr declared ↦
            rw (admitted, declared)
              ((Keeps-bind _ _
                  (Keeps-wrap (register_failed name) _
                    (register_mcp-Keeps host (mcp_config found) (subst On (sym same) on)))
                  (λ u. activate-Keeps stable host name (mcp_config found) i on)).at
                b h)
      ]
    ];
  }

  found_or_fail-Keeps :
      (host : Host) (role name : String) (i : Option ℕ) (o : Option CuratedServer)
      → On name
      → ((s : CuratedServer) → o ≡ some s → s.name ≡ name)
      → Keeps P (or_fail (not_in_catalog name) o >>= activate_found host role name i)
  found_or_fail-Keeps host role name i none on same = record { at = λ b h. h }
  found_or_fail-Keeps host role name i (some s) on same = record {
    at = λ b h. (activate_found-Keeps host role name i s on (same s refl)).at b h;
  }

  pub activate_from_catalog-Keeps :
      (host : Host) (parsed : Option CuratedCatalog) (role name : String) (i : Option ℕ)
      → On name
      → Keeps P (activate_from_catalog host parsed role name i)
  unfolding activate_from_catalog
  activate_from_catalog-Keeps host parsed role name i on =
      Keeps-bind (or_fail load_catalog_failed (servers_of parsed)) _ (Keeps-or_fail _ _) (λ servers.
        found_or_fail-Keeps host role name i (find_curated name servers) on
          (λ s e. find_curated-name name servers s e))

  if-P : (t : Bool) (b b' : Broker) → P b → P b' → P (if t then b else b')
  if-P true b b' h h' = h
  if-P false b b' h h' = h'

  restore_entry-P :
      (mcp : LockEntry) (b : Broker) → On (config_in mcp).name → P b → P (restore_entry mcp b)
  unfolding restore_entry
  restore_entry-P mcp b on h =
      let c = config_in mcp in
      let added = (register_server c b).0 in
      let there = is_some (find c.name b.registry) in
      if-P (c.name == "") b (if there then b else added) h
        (if-P there b added h ((register_server-Keeps stable c on).at b h))

  restore-P :
      (mcps : List LockEntry) (b : Broker) → ((name : String) → On name) → P b → P (restore mcps b)
  unfolding restore
  restore-P [] b on h = h
  restore-P (mcp ∷ mcps) b on h =
      restore-P mcps (restore_entry mcp b) on (restore_entry-P mcp b (on (config_in mcp).name) h)

  restore_lock-P :
      (p : Profile) (o : Option (List LockEntry)) (b : Broker)
      → ((name : String) → On name)
      → P b
      → P (restore_lock p o b).0
  restore_lock-P p none b on h = h
  restore_lock-P p (some mcps) b on h = restore-P mcps b on h

  pub apply_profile-P :
      (l : LockCodec) (r : Result ProfileError Profile) (b : Broker)
      → ((name : String) → On name)
      → P b
      → P (apply_profile l r b).0
  apply_profile-P l (err e) b on h = h
  apply_profile-P l (ok p) b on h = restore_lock-P p (l.parse_lock p.catalog) b on h
