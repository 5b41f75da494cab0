-- ===== src/Broker/Activation/Sound.antt =====
-- An activation keeps the registry sound, whichever transports fail.
use neuralgentics_broker.Prelude.{
  ℕ, zero, suc, ◌+◌, ◌%◌, String, ◌≡◌, inl, inr, Bool, true, false, ◌||◌, Option, none, some, List,
  arith, ◌==◌, if◌then◌else◌, Bool-cases, Option-cases, ok, err, length, is_empty, put,
}
use neuralgentics_broker.Errors.{not_registered, Outcome}
use neuralgentics_broker.Types.{ServerConfig, TransportConfig, McpServerConfig, to_server_config}
use neuralgentics_broker.Registry.{find, set_config, set_runtime}
use neuralgentics_broker.Host.{Host}
use neuralgentics_broker.Clients.{Client, new_client_for_config}
use neuralgentics_broker.Broker.{entry_of, Broker, Action, change, or_fail, modify_entry}
use neuralgentics_broker.Broker.Keeps.{
  Keeps, IsStable, Keeps-bind, Keeps-or_fail, Keeps-modify_entry, keeps_rules,
}
use neuralgentics_broker.Broker.Lifecycle.{start_server}
use neuralgentics_broker.Broker.Lifecycle.Registered.{start_server-Keeps}
use neuralgentics_broker.Broker.Activation.Local.{client_tools-Keeps}
use neuralgentics_broker.Broker.Activation.{
  start_index, failed_attempt, client_tools, activate_http, activate_stdio, roll_back, attempt, nth,
  settle, attempt_at, activate_loop, activate,
}

name-to_server_config :
    (look_path : String → Bool) (t : TransportConfig) (name d : String) (cs : List String)
    → (to_server_config look_path t name d cs).name ≡ name
unfolding to_server_config
name-to_server_config look_path t name d cs = ground arith

module _ {On : String → Type 0} {P : Broker → Type 0} (stable : IsStable On P) where
  Keeps-if :
      {A : Type 0} (t : Bool) (m k : Action A)
      → Keeps P m
      → Keeps P k
      → Keeps P (if t then m else k)
  Keeps-if true m k p q = p
  Keeps-if false m k p q = q

  put_client-Keeps :
      (name : String) (c : Client)
      → On name
      → Keeps P (change (λ b. record b { http_clients = put name c b.http_clients }))
  put_client-Keeps name c on = record { at = λ b h. stable.puts name c on b h }

  activate_http-Keeps :
      (host : Host) (name : String) (sc : ServerConfig)
      → sc.name ≡ name
      → On name
      → Keeps P (activate_http host name sc)
  unfolding activate_http
  activate_http-Keeps host name sc same on =
      Keeps-bind (or_fail failed_attempt (new_client_for_config sc)) _ (Keeps-or_fail _ _)
        (λ client.
          Keeps-bind (client_tools host client) _ (client_tools-Keeps stable.local host client)
            (λ tools.
              Keeps-bind (modify_entry (set_config sc) name) _
                (Keeps-modify_entry stable (set_config sc) name on (λ e p. same))
                (λ _.
                  Keeps-bind (modify_entry (set_runtime none none none tools) name) _
                    (Keeps-modify_entry stable (set_runtime none none none tools) name on
                      (λ e p. p))
                    (λ _. put_client-Keeps name client on))))

  roll_back-P :
      (name : String) (old : ServerConfig) (b : Broker) (r : Outcome (Unit {0}))
      → old.name ≡ name
      → On name
      → P b
      → P (roll_back name old b r).0
  roll_back-P name old b (ok done) p on h = h
  roll_back-P name old b (err e) p on h =
      (Keeps-modify_entry stable (set_config old) name on (λ e q. p)).at b h

  -- the entry that is rolled back had its name before
  activate_stdio-Keeps :
      (host : Host) (name : String) (sc : ServerConfig)
      → sc.name ≡ name
      → On name
      → Keeps P (activate_stdio host name sc)
  unfolding activate_stdio
  activate_stdio-Keeps host name sc same on = record {
    at = λ b h. elim (Option-cases (find name b.registry)) [
      | inl absent ↦ rw (absent, activate_stdio) h
      | inr (e, there) ↦
          rw (there, activate_stdio)
            (let b1 = (modify_entry (set_config sc) name b).0 in
              let h1 = (Keeps-modify_entry stable (set_config sc) name on (λ e p. same)).at b h in
              let (b2, r) = start_server host name b1 in
              roll_back-P name e.config b2 r (stable.named name b e h there) on
                ((start_server-Keeps stable.local host name on).at b1 h1))
    ];
  }

  attempt-Keeps :
      (host : Host) (name : String) (c : McpServerConfig) (t : TransportConfig)
      → On name
      → Keeps P (attempt host name c t)
  unfolding attempt
  attempt-Keeps host name c t on =
      let sc = to_server_config host.look_path t name c.description c.capabilities in
      let same = name-to_server_config host.look_path t name c.description c.capabilities in
      Keeps-if (sc.type == "http" || sc.type == "sse") (activate_http host name sc)
        (activate_stdio host name sc) (activate_http-Keeps host name sc same on)
        (activate_stdio-Keeps host name sc same on)

  settle-P :
      (t : TransportConfig) (next : Action String) (b : Broker) (r : Outcome (Unit {0}))
      → Keeps P next
      → P b
      → P (settle t next b r).0
  settle-P t next b (ok done) k h = h
  settle-P t next b (err e) k h = k.at b h

  attempt_at-Keeps :
      (host : Host) (name : String) (c : McpServerConfig) (o : Option TransportConfig)
      (next : Action String)
      → On name
      → Keeps P next
      → Keeps P (attempt_at host name c o next)
  attempt_at-Keeps host name c none next on k = record { at = λ b h. k.at b h }
  attempt_at-Keeps host name c (some t) next on k = record {
    at = λ b h.
        let (b', r) = attempt host name c t b in
        settle-P t next b' r k ((attempt-Keeps host name c t on).at b h);
  }

  activate_loop-Keeps :
      (host : Host) (name : String) (c : McpServerConfig) (n start_idx i left : ℕ)
      → On name
      → Keeps P (activate_loop host name c n start_idx i left)
  unfolding activate_loop
  activate_loop-Keeps host name c n start_idx i zero on = record { at = λ b h. h }
  activate_loop-Keeps host name c n start_idx i (suc left) on = record {
    at = λ b h.
        (attempt_at-Keeps host name c (nth c.transports ((start_idx + i) % n)) _ on
            (activate_loop-Keeps host name c n start_idx (suc i) left on)).at
          b h;
  }

  pub activate-Keeps :
      (host : Host) (name : String) (c : McpServerConfig) (i : Option ℕ)
      → On name
      → Keeps P (activate host name c i)
  unfolding activate
  activate-Keeps host name c i on = elim (Bool-cases (is_empty c.transports)) [
    | inl e ↦ rw (e, activate) (search keeps_rules)
    | inr m ↦
        rw (m, activate)
          ((Keeps-bind (entry_of name (not_registered name)) _ (search keeps_rules) (λ e.
            activate_loop-Keeps host name c (length c.transports)
              (start_index (length c.transports) i) 0 (length c.transports) on)))
  ]
