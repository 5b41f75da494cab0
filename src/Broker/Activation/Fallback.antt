-- ===== src/Broker/Activation/Fallback.antt =====
-- What `ActivateMCPServerWithTransport` leaves of a server's configuration.
use neuralgentics_broker.Prelude.{
  ℕ, zero, suc, ◌+◌, ◌%◌, String, ◌≡◌, refl, sym, ap, ◌∙◌, inl, inr, Bool, true, false, ◌||◌,
  Option, none, some, List, ◌==◌, eq_iff, eq_refl, if◌then◌else◌, Bool-cases, Option-cases, is_ok,
  ok, err, length, is_empty, put,
}
use mathlib.Core.Option.{map as option_map}
use neuralgentics_broker.Errors.{Outcome, no_transports}
use neuralgentics_broker.Types.{
  ServerConfig, TransportConfig, McpServerConfig, to_server_config, ToolSummary,
}
use neuralgentics_broker.Registry.{ServerEntry, find, modify, set_config, set_runtime}
use neuralgentics_broker.Registry.Laws.{find-modify}
use neuralgentics_broker.Host.{Host}
use neuralgentics_broker.Clients.{Client, new_client_for_config}
use neuralgentics_broker.Broker.{Broker, Action, fail, follow, ◌>>◌, change, modify_entry}
use neuralgentics_broker.Broker.Keeps.{Anywhere, IsLocal}
use neuralgentics_broker.Broker.Lifecycle.{start_server}
use neuralgentics_broker.Broker.Lifecycle.Registered.{start_server-Keeps}
use neuralgentics_broker.Broker.Activation.Local.{client_tools-Keeps}
use neuralgentics_broker.Broker.Activation.{
  client_tools, activate_http, activate_stdio, roll_back, attempt, nth, settle, attempt_at,
  activate_loop, start_index, activate,
}

-- the configuration that a name is registered with
abbrev pub config_of : String → Broker → Option ServerConfig
config_of name b = option_map (λ (e : ServerEntry). e.config) (find name b.registry)

config-option_map :
    (f : ServerEntry → ServerEntry) (o : Option ServerEntry)
    → ((e : ServerEntry) → (f e).config ≡ e.config)
    → option_map (λ (e : ServerEntry). e.config) (option_map f o)
      ≡ option_map (λ (e : ServerEntry). e.config) o
config-option_map f none k = refl
config-option_map f (some e) k = ap some (k e)

config_of-modify :
    (f : ServerEntry → ServerEntry) (other name : String) (b : Broker)
    → ((e : ServerEntry) → (f e).config ≡ e.config)
    → config_of name (record b { registry = modify f other b.registry }) ≡ config_of name b
config_of-modify f other name b k = elim (Bool-cases (other == name)) [
  | inl same ↦
      rw
        (
          find-modify,
          same,
          config-option_map f (find other b.registry) k,
          (eq_iff other name).0 same,
        )
        refl
  | inr differ ↦ rw (find-modify, differ) refl
]

config_of-set_config :
    (name : String) (c : ServerConfig) (b : Broker) {old : ServerConfig}
    → config_of name b ≡ some old
    → config_of name (modify_entry (set_config c) name b).0 ≡ some c
config_of-set_config name c b {old} h = elim (Option-cases (find name b.registry)) [
  | inl absent ↦ cc
  | inr (e, there) ↦ rw (find-modify, eq_refl name, there) refl
]

-- A property of the configuration of one name is left alone by all that a start changes.
config_of-IsLocal :
    (name : String) (o : Option ServerConfig) → IsLocal Anywhere (λ b. config_of name b ≡ o)
config_of-IsLocal name o = record {
  asks = λ n b h. h;
  proxies = λ p b h. h;
  owns = λ other b e on h there. tt;
  entries = λ f other on k b h. config_of-modify f other name b k ∙ h;
}

rolled_back :
    (name : String) (old sc : ServerConfig) (b : Broker) (r : Outcome (Unit {0}))
    → config_of name b ≡ some sc
    → let done = roll_back name old b r in
      config_of name done.0 ≡ some (if is_ok done.1 then sc else old)
rolled_back name old sc b (ok u) h = h
rolled_back name old sc b (err e) h = config_of-set_config name old b h

config-found :
    (name : String) (b : Broker) {old : ServerConfig} {e : ServerEntry}
    → config_of name b ≡ some old
    → find name b.registry ≡ some e
    → e.config ≡ old
config-found name b {old} {e} h there =
    let q : some e.config ≡ some old =
      sym (ap (option_map (λ (x : ServerEntry). x.config)) there) ∙ h in
    cc

config_of-activate_stdio :
    (host : Host) (name : String) (sc old : ServerConfig) (b : Broker)
    → config_of name b ≡ some old
    → let done = activate_stdio host name sc b in
      config_of name done.0 ≡ some (if is_ok done.1 then sc else old)
unfolding activate_stdio
config_of-activate_stdio host name sc old b h = elim (Option-cases (find name b.registry)) [
  | inl absent ↦ cc
  | inr (e, there) ↦
      let b1 = (modify_entry (set_config sc) name b).0 in
      let started = start_server host name b1 in
      let kept =
        (start_server-Keeps (config_of-IsLocal name (some sc)) host name tt).at b1
          (config_of-set_config name sc b h) in
      rw (there, activate_stdio)
        (rolled_back name e.config sc started.0 started.1 kept
          ∙ ap (λ c. some (if is_ok (roll_back name e.config started.0 started.1).1 then sc else c))
              (config-found name b h there))
]

published :
    (name : String) (sc old : ServerConfig) (client : Client) (b : Broker)
    (r : Outcome (List ToolSummary))
    → config_of name b ≡ some old
    → let done =
        follow
          (λ tools. do
            modify_entry (set_config sc) name
            modify_entry (set_runtime none none none tools) name
            change (λ b. record b { http_clients = put name client b.http_clients }))
          b
          r in
      config_of name done.0 ≡ some (if is_ok done.1 then sc else old)
published name sc old client b (ok tools) h =
    config_of-modify (set_runtime none none none tools) name name
      (modify_entry (set_config sc) name b).0 (λ e. refl)
    ∙ config_of-set_config name sc b h
published name sc old client b (err e) h = h

config_of-activate_http :
    (host : Host) (name : String) (sc old : ServerConfig) (b : Broker)
    → config_of name b ≡ some old
    → let done = activate_http host name sc b in
      config_of name done.0 ≡ some (if is_ok done.1 then sc else old)
unfolding activate_http
config_of-activate_http host name sc old b h = elim (Option-cases (new_client_for_config sc)) [
  | inl absent ↦ rw (absent, activate_http) h
  | inr (client, there) ↦
      rw (there, activate_http)
        (let asked = client_tools host client b in
          published name sc old client asked.0 asked.1
            ((client_tools-Keeps (config_of-IsLocal name (some old)) host client).at b h))
]

-- the configuration that a transport of the server stands for
abbrev pub chosen : Host → String → McpServerConfig → TransportConfig → ServerConfig
chosen host name c t = to_server_config host.look_path t name c.description c.capabilities

if-config_of :
    (name : String) (sc old : ServerConfig) (t : Bool) (m k : Action (Unit {0})) (b : Broker)
    → config_of name (m b).0 ≡ some (if is_ok (m b).1 then sc else old)
    → config_of name (k b).0 ≡ some (if is_ok (k b).1 then sc else old)
    → let done = (if t then m else k) b in
      config_of name done.0 ≡ some (if is_ok done.1 then sc else old)
if-config_of name sc old true m k b p q = p
if-config_of name sc old false m k b p q = q

pub config_of-attempt :
    (host : Host) (name : String) (c : McpServerConfig) (t : TransportConfig) (old : ServerConfig)
    (b : Broker)
    → config_of name b ≡ some old
    → let done = attempt host name c t b in
      config_of name done.0 ≡ some (if is_ok done.1 then chosen host name c t else old)
unfolding attempt
config_of-attempt host name c t old b h =
    let sc = chosen host name c t in
    if-config_of name sc old (sc.type == "http" || sc.type == "sse") (activate_http host name sc)
      (activate_stdio host name sc) b (config_of-activate_http host name sc old b h)
      (config_of-activate_stdio host name sc old b h)

-- What an activation may leave: on success the configuration of one of the transports, whose type is
-- the one returned; on failure the configuration from before.
abbrev pub Settled :
    Host → String → McpServerConfig → ServerConfig → Broker × Outcome String → Type 0
Settled host name c old (b, ok type) =
    (i : ℕ) × (t : TransportConfig) × (nth c.transports i ≡ some t)
    × (type ≡ t.type)
    × (config_of name b ≡ some (chosen host name c t))
Settled host name c old (b, err e) = config_of name b ≡ some old

settled :
    (host : Host) (name : String) (c : McpServerConfig) (old : ServerConfig) (i : ℕ)
    (t : TransportConfig) (next : Broker → Broker × Outcome String) (b : Broker)
    (r : Outcome (Unit {0}))
    → nth c.transports i ≡ some t
    → config_of name b ≡ some (if is_ok r then chosen host name c t else old)
    → (config_of name b ≡ some old → Settled host name c old (next b))
    → Settled host name c old (settle t next b r)
settled host name c old i t next b (ok u) p h k = (i, t, p, refl, h)
settled host name c old i t next b (err e) p h k = k h

attempted :
    (host : Host) (name : String) (c : McpServerConfig) (old : ServerConfig) (i : ℕ)
    (o : Option TransportConfig) (next : Broker → Broker × Outcome String) (b : Broker)
    → nth c.transports i ≡ o
    → config_of name b ≡ some old
    → ((b' : Broker) → config_of name b' ≡ some old → Settled host name c old (next b'))
    → Settled host name c old (attempt_at host name c o next b)
attempted host name c old i none next b p h k = k b h
attempted host name c old i (some t) next b p h k =
    let done = attempt host name c t b in
    settled host name c old i t next done.0 done.1 p (config_of-attempt host name c t old b h)
      (k done.0)

activate_loop-Settled :
    (host : Host) (name : String) (c : McpServerConfig) (old : ServerConfig)
    (n start_idx i left : ℕ) (b : Broker)
    → config_of name b ≡ some old
    → Settled host name c old (activate_loop host name c n start_idx i left b)
unfolding activate_loop
activate_loop-Settled host name c old n start_idx i zero b h = h
activate_loop-Settled host name c old n start_idx i (suc left) b h =
    attempted host name c old ((start_idx + i) % n) _
      (activate_loop host name c n start_idx (suc i) left) b refl h
      (λ b' h'. activate_loop-Settled host name c old n start_idx (suc i) left b' h')

if-Settled :
    (host : Host) (name : String) (c : McpServerConfig) (old : ServerConfig) (t : Bool)
    (m k : Action String) (b : Broker)
    → Settled host name c old (m b)
    → Settled host name c old (k b)
    → Settled host name c old ((if t then m else k) b)
if-Settled host name c old true m k b p q = p
if-Settled host name c old false m k b p q = q

-- If a registered server's activation succeeds, then the transport type that it returns is that of one
-- of the given transports, and the server's configuration is the legacy form of that transport. If it
-- fails, after whatever attempts, the server has the configuration that it had before.
pub activate-Settled :
    (host : Host) (name : String) (c : McpServerConfig) (i : Option ℕ) (old : ServerConfig)
    (b : Broker)
    → config_of name b ≡ some old
    → Settled host name c old (activate host name c i b)
unfolding activate
activate-Settled host name c i old b h = elim (Option-cases (find name b.registry)) [
  | inl absent ↦ rw (absent, activate) h
  | inr (e, there) ↦
      rw (there, activate)
        (if-Settled host name c old (is_empty c.transports) (fail (no_transports name)) _ b h (
          activate_loop-Settled host name c old (length c.transports)
            (start_index (length c.transports) i) 0 (length c.transports) b h))
]
