-- ===== src/Broker/Lifecycle.antt =====
-- launcher.go and the life of a server in broker.go: register, launch, handshake, reload, stop,
-- deregister. The background watcher of a process is the step `clear_after_exit`, which may happen
-- between two methods. The pause of a reload changes no state.
pub mod Registered
use neuralgentics_broker.Prelude.{
  ℕ, zero, suc, ◌+◌, ◌-◌, ◌*◌, ◌/◌, ◌%◌, ◌^◌, ◌≤◌, ◌<◌, String, ◌≡◌, refl, sym, ap, ◌∙◌, ◌≢◌, ◌↔◌,
  ◌⊎◌, inl, inr, Bool, true, false, not, ◌&&◌, ◌||◌, Option, none, some, List, [], ◌∷◌, ◌++◌, map,
  reverse, arith, ◌==◌, eq_iff, eq_refl, ltb, leb, eqb, if◌then◌else◌, Bool-cases, Option-cases,
  is_some, Result, is_ok, ok, err, length, is_empty, keep_if, take, All, length-append,
  length-keep_if, All-keep_if, elem, elem-append, elem-keep_if, Dict, get, put, delete, keys,
  has_key, IsMap, get-put, get-delete, has_key-get, has_key-put, has_key-delete, put-IsMap,
  delete-IsMap, dict_laws, text_le, text_le_total, sort_strings, IsSorted, sort_strings-IsSorted,
  elem-sort_strings, encode, bytes, later, last_index, last_index-lt,
}
use neuralgentics_broker.Errors.{
  BrokerError, Outcome, name_required, command_required, not_registered, not_found, disappeared,
  no_pipes, start_failed, initialize_failed, list_tools_failed, stop_failed, restart_failed,
}
use neuralgentics_broker.Types.{ServerConfig, ToolSummary, McpServerConfig}
use neuralgentics_broker.Registry.{
  ServerEntry, Registry, find, modify, register, deregister, register_mcp_server, set_runtime,
  set_tools, set_config, clear_runtime,
}
use neuralgentics_broker.Host.{Host, RpcOutcome, no_answer, error_reply, malformed, result}
use neuralgentics_broker.Clients.{stdio_tools}
use neuralgentics_broker.Broker.{
  Broker, Action, pure, fail, ◌>>=◌, ◌>>◌, change, wrap, ask, or_fail, entry_of, modify_entry,
  start_reader, stop_proxy,
}

-- what a method makes of a new registry
abbrev pub set_registry : Broker → Outcome Registry → Broker × Outcome (Unit {0})
set_registry b (ok r) = (record b { registry = r }, ok tt)
set_registry b (err e) = (b, err e)

-- `RegisterServer`
unfoldable pub register_server : ServerConfig → Action (Unit {0})
unfolding register
register_server c b =
    if c.name == ""
    then (b, err name_required)
    else if c.command == ""
    then (b, err command_required)
    else (record b { registry = register c b.registry }, ok tt)

-- `RegisterMCPServer`
unfoldable pub register_mcp : Host → McpServerConfig → Action (Unit {0})
register_mcp host c b = set_registry b (register_mcp_server host.look_path c b.registry)

abbrev pub Pipes : Type 0
Pipes = Option ℕ × Option ℕ

-- `BuildCommand`: the pipes by the type of the server
unfoldable pub build_command : Host → ServerConfig → Action Pipes
build_command host c =
    if c.type == "stdio"
    then (do
      stdin ← ask host.stdin_pipe
      stdin' ← or_fail (start_failed c.name) stdin
      stdout ← ask host.stdout_pipe
      stdout' ← or_fail (start_failed c.name) stdout
      pure (some stdin', some stdout'))
    else if c.type == "http" || c.type == "sse"
    then pure (none, none)
    else fail (start_failed c.name)

-- `Launcher.Start`
unfoldable pub launch : Host → ServerConfig → Action (Unit {0})
unfolding build_command modify
launch host c = do
  _ ← entry_of c.name (not_registered c.name)
  pipes ← build_command host c
  started ← ask (λ n. host.start_process n c)
  process ← or_fail (start_failed c.name) started
  modify_entry (λ e. set_runtime (some process) pipes.0 pipes.1 e.tools e) c.name

-- `clearAfterExit`
unfoldable pub clear_after_exit : String → Action (Unit {0})
unfolding modify
clear_after_exit name = modify_entry clear_runtime name

abbrev pub stop_process : String → Option ℕ → Action (Unit {0})
stop_process name none = pure tt
stop_process name (some process) = modify_entry clear_runtime name

-- `Launcher.Stop`: the process is interrupted, or killed, and waited for
unfoldable pub stop : String → Action (Unit {0})
unfolding modify
stop name = do e ← entry_of name (not_found name); stop_process name e.process

-- `sendRPC`: with no reader it fails at once; else the request gets the next number
unfoldable pub send_rpc : {A : Type 0} → (ℕ → RpcOutcome A) → Action (RpcOutcome A)
send_rpc q b =
    if b.proxy.running
    then (
      record b { proxy = record b.proxy { next_id = b.proxy.next_id + 1 }; clock = b.clock + 1 },
      ok (q b.clock),
    )
    else (b, ok no_answer)

-- an outcome that is not a result is an error
abbrev pub expect : {A : Type 0} → BrokerError → RpcOutcome A → Action A
expect e (result a) = pure a
expect e no_answer = fail e
expect e error_reply = fail e
expect e malformed = fail e

abbrev pub assert : Bool → BrokerError → Action (Unit {0})
assert true e = pure tt
assert false e = fail e

-- `MCPProxy.Initialize`
unfoldable pub initialize : Host → String → Action (Unit {0})
unfolding send_rpc
initialize host name = do
  reply ← send_rpc (λ n. host.initialize n name)
  _ ← expect (initialize_failed name) reply
  written ← ask (λ n. host.notify_initialized n name)
  assert written (initialize_failed name)

-- `MCPProxy.ListTools`
unfoldable pub list_tools : Host → String → Action (List ToolSummary)
unfolding send_rpc
list_tools host name = do
  reply ← send_rpc (λ n. host.list_tools n name)
  tools ← expect (list_tools_failed name) reply
  pure (stdio_tools name tools)

-- what `StartServer` does after a failed handshake: `b.proxy.Stop()`, `_ = b.launcher.Stop(name)`
unfoldable pub give_up : {A : Type 0} → String → BrokerError → Action A
unfolding stop
give_up name e b = let (b', _) = (do stop_proxy; stop name) b in (b', err e)

abbrev pub or_give_up_found : {A : Type 0} → String → Broker → Outcome A → Broker × Outcome A
or_give_up_found name b (ok a) = (b, ok a)
or_give_up_found name b (err e) = give_up name e b

abbrev pub or_give_up : {A : Type 0} → String → Action A → Action A
or_give_up name m b = let (b', r) = m b in or_give_up_found name b' r

abbrev pub has_pipes : ServerEntry → Bool
has_pipes e = is_some e.stdin && is_some e.stdout

-- `StartServer`
unfoldable pub start_server : Host → String → Action (Unit {0})
unfolding launch initialize list_tools give_up modify
start_server host name = do
  e ← entry_of name (not_registered name)
  wrap (λ _. start_failed name) (launch host e.config)
  snap ← entry_of name (disappeared name)
  assert (has_pipes snap) (no_pipes name)
  start_reader
  or_give_up name (initialize host name)
  tools ← or_give_up name (list_tools host name)
  modify_entry (set_tools tools) name

abbrev pub restart : Host → String → Option ℕ → Action (Unit {0})
restart host name none = start_server host name
restart host name (some process) = do
  stop_proxy
  wrap (λ _. stop_failed name) (stop name)
  wrap (restart_failed name) (start_server host name)

-- `ReloadServer`
unfoldable pub reload_server : Host → String → Action (Unit {0})
unfolding start_server stop
reload_server host name = do e ← entry_of name (not_registered name); restart host name e.process

-- `ReloadServerWithConfig`
unfoldable pub reload_server_with_config : Host → String → ServerConfig → Action (Unit {0})
unfolding start_server stop modify
reload_server_with_config host name c = do
  e ← entry_of name (not_registered name)
  modify_entry (set_config (record c { name = name })) name
  restart host name e.process

-- `DeregisterServer`
unfoldable pub deregister_server : String → Action (Unit {0})
unfolding stop deregister
deregister_server name b =
    let b1 = record b { http_clients = delete name b.http_clients } in
    let (b2, _) = stop name b1 in set_registry b2 (deregister name b2.registry)

-- `DeactivateMCPServer`
abbrev pub deactivate_found : String → Option ServerEntry → Action (Unit {0})
deactivate_found name none = pure tt
deactivate_found name (some e) = deregister_server name

unfoldable pub deactivate_mcp_server : String → Action (Unit {0})
unfolding deregister_server
deactivate_mcp_server name b = deactivate_found name (find name b.registry) b
