-- ===== src/Broker/Soundness.antt =====
-- The methods of broker.go that register, start, reload, activate, call, deactivate, deregister and
-- import, the changes of the access control, and the exit of a process, each as one step; what all runs of such steps keep.
use neuralgentics_broker.Prelude.{ℕ, String, Option, List, [], ◌∷◌, All}
use neuralgentics_broker.Types.{ServerConfig, McpServerConfig}
use neuralgentics_broker.Host.{Host}
use neuralgentics_broker.Broker.{Broker}
use neuralgentics_broker.Broker.Keeps.{IsStable, IsSound, IsSound-IsStable}
use neuralgentics_broker.Broker.Stable.{
  deactivate-Keeps, register_mcp-Keeps, call-Keeps, activate_from_catalog-Keeps, apply_profile-P,
}
use neuralgentics_broker.Broker.Lifecycle.{
  register_server, register_mcp, clear_after_exit, start_server, reload_server,
  reload_server_with_config, deregister_server, deactivate_mcp_server,
}
use neuralgentics_broker.Broker.Lifecycle.Registered.{
  clear_after_exit-Keeps, start_server-Keeps, reload_server-Keeps, reload_server_with_config-Keeps,
  register_server-Keeps, deregister_server-Keeps,
}
use neuralgentics_broker.Broker.Activation.{activate}
use neuralgentics_broker.Broker.Calls.{Request, call}
use neuralgentics_broker.Broker.Discovery.{activate_from_catalog}
use neuralgentics_broker.Broker.Profiles.{LockCodec, import_profile}
use neuralgentics_broker.Catalog.Curated.{CuratedCatalog}
use neuralgentics_broker.Profile.{Codec, import}
use neuralgentics_broker.Access.{grant, revoke}
use neuralgentics_broker.Broker.Activation.Sound.{activate-Keeps}

-- one call of a method, or the exit of a process
pub data Step : Type 0 where
  registers : ServerConfig → Step
  registers_mcp : McpServerConfig → Step
  starts reloads deregisters deactivates exits : String → Step
  reloads_with : String → ServerConfig → Step
  activates : String → McpServerConfig → Option ℕ → Step
  activates_curated : Option CuratedCatalog → String → String → Option ℕ → Step
  imports : Codec → LockCodec → List ℕ → String → Step
  grants revokes : String → String → Step
  calls : Request → Step

unfoldable pub perform : Host → Step → Broker → Broker
unfolding register_server register_mcp start_server reload_server deregister_server
    deactivate_mcp_server clear_after_exit reload_server_with_config activate call
    activate_from_catalog import_profile grant revoke
perform host (registers c) b = (register_server c b).0
perform host (registers_mcp c) b = (register_mcp host c b).0
perform host (starts name) b = (start_server host name b).0
perform host (reloads name) b = (reload_server host name b).0
perform host (deregisters name) b = (deregister_server name b).0
perform host (deactivates name) b = (deactivate_mcp_server name b).0
perform host (exits name) b = (clear_after_exit name b).0
perform host (reloads_with name c) b = (reload_server_with_config host name c b).0
perform host (activates name c i) b = (activate host name c i b).0
perform host (activates_curated parsed role name i) b =
    (activate_from_catalog host parsed role name i b).0
perform host (imports c l archive passphrase) b = (import_profile c l archive passphrase b).0
perform host (grants role name) b = record b { access = grant b.access role name }
perform host (revokes role name) b = record b { access = revoke b.access role name }
perform host (calls q) b = (call host q b).0

unfoldable pub run_steps : Host → List Step → Broker → Broker
unfolding perform
run_steps host [] b = b
run_steps host (s ∷ ss) b = run_steps host ss (perform host s b)

-- the names that a step is about; a change of the access control is about none of them
abbrev pub Within : (String → Type 0) → Step → Type 0
Within On (registers c) = On c.name
Within On (registers_mcp c) = On c.name
Within On (starts name) = On name
Within On (reloads name) = On name
Within On (deregisters name) = On name
Within On (deactivates name) = On name
Within On (exits name) = On name
Within On (reloads_with name c) = On name
Within On (activates name c i) = On name
Within On (activates_curated parsed role name i) = On name
Within On (imports c l archive passphrase) = (name : String) → On name
Within On (grants role name) = ⊥
Within On (revokes role name) = ⊥
Within On (calls q) = Unit

module _ {On : String → Type 0} {P : Broker → Type 0} (stable : IsStable On P) where
  perform-stable : (host : Host) (s : Step) (b : Broker) → Within On s → P b → P (perform host s b)
  unfolding perform import_profile
  perform-stable host (registers c) b on h = (register_server-Keeps stable c on).at b h
  perform-stable host (registers_mcp c) b on h = (register_mcp-Keeps stable host c on).at b h
  perform-stable host (starts name) b on h = (start_server-Keeps stable.local host name on).at b h
  perform-stable host (reloads name) b on h = (reload_server-Keeps stable.local host name on).at b h
  perform-stable host (deregisters name) b on h = (deregister_server-Keeps stable name on).at b h
  perform-stable host (deactivates name) b on h = (deactivate-Keeps stable name on).at b h
  perform-stable host (exits name) b on h = (clear_after_exit-Keeps stable.local name on).at b h
  perform-stable host (reloads_with name c) b on h =
      (reload_server_with_config-Keeps stable host name c on).at b h
  perform-stable host (activates name c i) b on h = (activate-Keeps stable host name c i on).at b h
  perform-stable host (activates_curated parsed role name i) b on h =
      (activate_from_catalog-Keeps stable host parsed role name i on).at b h
  perform-stable host (imports c l archive passphrase) b on h =
      apply_profile-P stable l (import c archive passphrase) b on h
  perform-stable host (grants role name) b on h = absurd on
  perform-stable host (revokes role name) b on h = absurd on
  perform-stable host (calls q) b on h = (call-Keeps stable host q).at b h

  pub run_steps-stable :
      (host : Host) (ss : List Step) (b : Broker)
      → All (Within On) ss
      → P b
      → P (run_steps host ss b)
  unfolding run_steps
  run_steps-stable host [] b on h = h
  run_steps-stable host (s ∷ ss) b on h =
      run_steps-stable host ss (perform host s b) on.1 (perform-stable host s b on.0 h)

perform-IsSound : (host : Host) (s : Step) (b : Broker) → IsSound b → IsSound (perform host s b)
unfolding perform
perform-IsSound host (grants role name) b h = record { valid = h.valid; clients = h.clients }
perform-IsSound host (revokes role name) b h = record { valid = h.valid; clients = h.clients }
perform-IsSound host (imports c l archive passphrase) b h =
    perform-stable IsSound-IsStable host (imports c l archive passphrase) b (λ name. tt) h
perform-IsSound host s b h = perform-stable IsSound-IsStable host s b tt h

-- Whatever of these methods are called in whatever order, whatever the surroundings answer, wherever a method
-- fails and whenever a process exits: if at the start each name is registered once, each entry's
-- configuration has the name it is registered under, and each server has at most one HTTP client,
-- then so it is at the end.
pub run_steps-IsSound :
    (host : Host) (ss : List Step) (b : Broker) → IsSound b → IsSound (run_steps host ss b)
unfolding run_steps
run_steps-IsSound host [] b h = h
run_steps-IsSound host (s ∷ ss) b h =
    run_steps-IsSound host ss (perform host s b) (perform-IsSound host s b h)
