-- ===== src/Broker/Lifecycle/Registered.antt =====
-- The methods of broker.go that register, start, reload, stop and deregister a server keep the
-- registry sound, whatever the surroundings answer and wherever they fail.
use neuralgentics_broker.Prelude.{
  ℕ, ◌+◌, String, ◌≡◌, refl, inl, inr, Bool, true, false, ◌||◌, Option, none, some, ◌==◌,
  if◌then◌else◌, Bool-cases, ok, err, delete,
}
use neuralgentics_broker.Errors.{
  BrokerError, Outcome, not_registered, disappeared, no_pipes, start_failed, stop_failed,
  restart_failed,
}
use neuralgentics_broker.Types.{ServerConfig}
use neuralgentics_broker.Registry.{Registry, set_runtime, set_tools, set_config, clear_runtime}
use neuralgentics_broker.Host.{Host, RpcOutcome, no_answer, error_reply, malformed, result}
use neuralgentics_broker.Broker.{
  Broker, Action, ◌>>=◌, ◌>>◌, wrap, ask, or_fail, start_reader, entry_of, stop_proxy, modify_entry,
}
use neuralgentics_broker.Broker.Keeps.{
  Keeps, IsLocal, IsStable, Keeps-found, Keeps-wrap, Keeps-ask, Keeps-or_fail, Keeps-entries,
  Keeps-bind, Keeps-proxy, Keeps-entry_of, Keeps-modify_entry, keeps_rules,
}
use neuralgentics_broker.Broker.Lifecycle.{
  build_command, launch, clear_after_exit, stop_process, stop, send_rpc, expect, assert, initialize,
  list_tools, give_up, or_give_up, or_give_up_found, start_server, restart, has_pipes,
  reload_server, reload_server_with_config, register_server, deregister_server, set_registry,
}

module _ {On : String → Type 0} {P : Broker → Type 0} (local : IsLocal On P) where
  build_command-Keeps : (host : Host) (c : ServerConfig) → Keeps P (build_command host c)
  unfolding build_command
  build_command-Keeps host c = elim (Bool-cases (c.type == "stdio")) [
    | inl e ↦ rw e (search keeps_rules)
    | inr n ↦ rw n (elim (Bool-cases (c.type == "http" || c.type == "sse")) [
      | inl e ↦ rw e (search keeps_rules)
      | inr m ↦ rw m (search keeps_rules)
    ])
  ]

  launch-Keeps : (host : Host) (c : ServerConfig) → On c.name → Keeps P (launch host c)
  unfolding launch
  launch-Keeps host c on =
      Keeps-bind (entry_of c.name (not_registered c.name)) _ (search keeps_rules) (λ _.
        Keeps-bind (build_command host c) _ (build_command-Keeps host c) (λ pipes.
          Keeps-bind (ask (λ n. host.start_process n c)) _ (Keeps-ask local _) (λ started.
            Keeps-bind (or_fail (start_failed c.name) started) _ (Keeps-or_fail _ _) (λ process.
              Keeps-entries local (λ e. set_runtime (some process) pipes.0 pipes.1 e.tools e) c.name
                on (λ e. refl)))))

  -- A process may exit at any time: the watcher's step keeps the registry sound.
  pub clear_after_exit-Keeps : (name : String) → On name → Keeps P (clear_after_exit name)
  unfolding clear_after_exit
  clear_after_exit-Keeps name on = Keeps-entries local clear_runtime name on (λ e. refl)

  stop_process-Keeps : (name : String) → On name → (p : Option ℕ) → Keeps P (stop_process name p)
  stop_process-Keeps name on none = search keeps_rules
  stop_process-Keeps name on (some p) = Keeps-entries local clear_runtime name on (λ e. refl)

  stop-Keeps : (name : String) → On name → Keeps P (stop name)
  unfolding stop
  stop-Keeps name on = search (keeps_rules, stop_process-Keeps name on)

  if-Keeps : {A : Type 0} (t : Bool) (m k : Broker × A) → P m.0 → P k.0 → P (if t then m else k).0
  if-Keeps true m k p q = p
  if-Keeps false m k p q = q

  send_rpc-Keeps : {A : Type 0} (q : ℕ → RpcOutcome A) → Keeps P (send_rpc q)
  unfolding send_rpc
  send_rpc-Keeps q = record {
    at = λ b h. if-Keeps b.proxy.running _ _ (local.asks (b.clock + 1) _ (local.proxies _ b h)) h;
  }

  pub expect-Keeps : {A : Type 0} (e : BrokerError) (r : RpcOutcome A) → Keeps P (expect e r)
  expect-Keeps e (result a) = search keeps_rules
  expect-Keeps e no_answer = search keeps_rules
  expect-Keeps e error_reply = search keeps_rules
  expect-Keeps e malformed = search keeps_rules

  assert-Keeps : (t : Bool) (e : BrokerError) → Keeps P (assert t e)
  assert-Keeps true e = search keeps_rules
  assert-Keeps false e = search keeps_rules

  initialize-Keeps : (host : Host) (name : String) → Keeps P (initialize host name)
  unfolding initialize
  initialize-Keeps host name =
      search (keeps_rules, send_rpc-Keeps, expect-Keeps, assert-Keeps) depth 9

  list_tools-Keeps : (host : Host) (name : String) → Keeps P (list_tools host name)
  unfolding list_tools
  list_tools-Keeps host name = search (keeps_rules, send_rpc-Keeps, expect-Keeps) depth 9

  give_up-Keeps :
      {A : Type 0} (name : String) → On name → (e : BrokerError) → Keeps P (give_up {A = A} name e)
  unfolding give_up
  give_up-Keeps name on e = record {
    at = λ b h.
        (Keeps-bind stop_proxy (λ _. stop name) (Keeps-proxy local false)
            (λ _. stop-Keeps name on)).at
          b h;
  }

  or_give_up-Keeps :
      {A : Type 0} (name : String)
      → On name
      → (m : Action A) → Keeps P m
      → Keeps P (or_give_up name m)
  or_give_up-Keeps {A} name on m k = record {
    at = λ b h. let (b', r) = m b in found b' r (k.at b h);
  }
    where
      found : (b : Broker) (r : Outcome A) → P b → P (or_give_up_found name b r).0
      found b (ok a) h = h
      found b (err e) h = (give_up-Keeps name on e).at b h

  handshake-Keeps :
      (host : Host) (name : String)
      → On name
      → Keeps P (do
        or_give_up name (initialize host name)
        tools ← or_give_up name (list_tools host name)
        modify_entry (set_tools tools) name)
  handshake-Keeps host name on =
      Keeps-bind (or_give_up name (initialize host name)) _
        (or_give_up-Keeps name on _ (initialize-Keeps host name))
        (λ _.
          Keeps-bind (or_give_up name (list_tools host name)) _
            (or_give_up-Keeps name on _ (list_tools-Keeps host name))
            (λ tools. Keeps-entries local (set_tools tools) name on (λ e. refl)))

  pub start_server-Keeps :
      (host : Host) (name : String) → On name → Keeps P (start_server host name)
  unfolding start_server
  start_server-Keeps host name on = Keeps-found local name (not_registered name) _ on (λ e own.
      Keeps-bind (wrap (λ _. start_failed name) (launch host e.config)) _
        (Keeps-wrap _ _ (launch-Keeps host e.config own))
        (λ _. Keeps-bind (entry_of name (disappeared name)) _ (search keeps_rules) (λ snap.
          Keeps-bind (assert (has_pipes snap) (no_pipes name)) _
            (assert-Keeps (has_pipes snap) (no_pipes name))
            (λ _.
              Keeps-bind start_reader _ (Keeps-proxy local true)
                (λ _. handshake-Keeps host name on)))))

  restart-Keeps :
      (host : Host) (name : String) → On name → (p : Option ℕ) → Keeps P (restart host name p)
  restart-Keeps host name on none = start_server-Keeps host name on
  restart-Keeps host name on (some p) = Keeps-bind stop_proxy _ (Keeps-proxy local false) (λ _.
      Keeps-bind (wrap (λ _. stop_failed name) (stop name)) _ (Keeps-wrap _ _ (stop-Keeps name on))
        (λ _. Keeps-wrap (restart_failed name) _ (start_server-Keeps host name on)))

  pub reload_server-Keeps :
      (host : Host) (name : String) → On name → Keeps P (reload_server host name)
  unfolding reload_server
  reload_server-Keeps host name on = search (keeps_rules, restart-Keeps host name on)

module _ {On : String → Type 0} {P : Broker → Type 0} (stable : IsStable On P) where
  pub reload_server_with_config-Keeps :
      (host : Host) (name : String) (c : ServerConfig)
      → On name
      → Keeps P (reload_server_with_config host name c)
  unfolding reload_server_with_config
  reload_server_with_config-Keeps host name c on =
      Keeps-bind (entry_of name (not_registered name)) _ (Keeps-entry_of name (not_registered name))
        (λ e.
          Keeps-bind (modify_entry (set_config (record c { name = name })) name) _
            (Keeps-modify_entry stable (set_config (record c { name = name })) name on
              (λ e p. refl))
            (λ _. restart-Keeps stable.local host name on e.process))

  pub set_registry-Keeps :
      (b : Broker) (r : Outcome Registry)
      → ((s : Registry) → r ≡ ok s → P (record b { registry = s }))
      → P b
      → P (set_registry b r).0
  set_registry-Keeps b (ok s) v h = v s refl
  set_registry-Keeps b (err e) v h = h

  pub register_server-Keeps : (c : ServerConfig) → On c.name → Keeps P (register_server c)
  unfolding register_server
  register_server-Keeps c on = record {
    at = λ b h. elim (Bool-cases (c.name == "")) [
      | inl e ↦ rw (e, register_server) h
      | inr n ↦
          rw (n, register_server)
            (elim (Bool-cases (c.command == "")) [
              | inl e ↦ rw e h
              | inr m ↦ rw m (stable.registers c on b h)
            ])
    ];
  }

  pub deregister_server-Keeps : (name : String) → On name → Keeps P (deregister_server name)
  unfolding deregister_server
  deregister_server-Keeps name on = record {
    at = λ b h.
        let b1 : Broker = record b { http_clients = delete name b.http_clients } in
        let h2 : P (stop name b1).0 =
          (stop-Keeps stable.local name on).at b1 (stable.removes name on b h) in
        set_registry-Keeps (stop name b1).0 _
          (λ s e. stable.deregisters name s on (stop name b1).0 e h2) h2;
  }
