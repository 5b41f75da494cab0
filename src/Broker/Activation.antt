-- ===== src/Broker/Activation.antt =====
-- `ActivateMCPServerWithTransport` of broker.go: the transports are tried in turn, from the chosen one
-- on and around the end of the list, until one works.
pub mod Local
pub mod Sound
pub mod Fallback
pub mod Success
pub mod Remote
use neuralgentics_broker.Prelude.{
  ℕ, zero, suc, ◌+◌, ◌-◌, ◌*◌, ◌/◌, ◌%◌, ◌^◌, ◌≤◌, ◌<◌, String, ◌≡◌, refl, sym, ap, ◌∙◌, ◌≢◌, ◌↔◌,
  ◌⊎◌, inl, inr, Bool, true, false, not, ◌&&◌, ◌||◌, Option, none, some, List, [], ◌∷◌, ◌++◌, map,
  reverse, arith, ◌==◌, eq_iff, eq_refl, ltb, leb, eqb, if◌then◌else◌, Bool-cases, Option-cases,
  is_some, Result, is_ok, ok, err, length, is_empty, keep_if, take, All, length-append,
  length-keep_if, All-keep_if, elem, elem-append, elem-keep_if, Dict, get, put, delete, keys,
  has_key, IsMap, get-put, get-delete, has_key-get, has_key-put, has_key-delete, put-IsMap,
  delete-IsMap, dict_laws, text_le, text_le_total, sort_strings, IsSorted, sort_strings-IsSorted,
  elem-sort_strings, encode, bytes, later, last_index, last_index-lt,
}
use neuralgentics_broker.Errors.{
  BrokerError, Outcome, not_registered, no_transports, all_transports_failed,
}
use neuralgentics_broker.Types.{
  ServerConfig, ToolSummary, TransportConfig, McpServerConfig, to_server_config,
}
use neuralgentics_broker.Registry.{ServerEntry, Registry, find, modify, set_config, set_runtime}
use neuralgentics_broker.Host.{Host, RpcOutcome, no_answer, error_reply, malformed, result}
use neuralgentics_broker.Clients.{
  Client, stdio_client, http_client, new_client_for_config, http_tools,
}
use neuralgentics_broker.Broker.{
  Broker, Action, pure, fail, ◌>>=◌, ◌>>◌, change, ask, or_fail, entry_of, modify_entry,
}
use neuralgentics_broker.Broker.Lifecycle.{start_server, expect}

-- any error of an attempt: the loop goes on to the next transport
abbrev pub failed_attempt : BrokerError
failed_attempt = all_transports_failed 1 ""

-- the client's `Initialize` and `ListTools`; only an HTTP client is made on this path
abbrev pub client_tools : Host → Client → Action (List ToolSummary)
client_tools host (stdio_client c) = fail failed_attempt
client_tools host (http_client url auth) = do
  hello ← ask (λ n. host.http_initialize n url)
  _ ← expect failed_attempt hello
  tools ← ask (λ n. host.http_list_tools n url)
  listed ← expect failed_attempt tools
  pure (http_tools listed)

-- the branch for HTTP and SSE
unfoldable pub activate_http : Host → String → ServerConfig → Action (Unit {0})
unfolding modify new_client_for_config
activate_http host name sc = do
  client ← or_fail failed_attempt (new_client_for_config sc)
  tools ← client_tools host client
  modify_entry (set_config sc) name
  modify_entry (set_runtime none none none tools) name
  change (λ b. record b { http_clients = put name client b.http_clients })

-- the rollback of the stdio branch
abbrev pub roll_back :
    String → ServerConfig → Broker → Outcome (Unit {0}) → Broker × Outcome (Unit {0})
roll_back name old b (ok done) = (b, ok done)
roll_back name old b (err e) = (do modify_entry (set_config old) name; fail e) b

-- the branch for stdio
unfoldable pub activate_stdio : Host → String → ServerConfig → Action (Unit {0})
unfolding modify start_server
activate_stdio host name sc = do
  e ← entry_of name failed_attempt
  modify_entry (set_config sc) name
  λ b. let (b', r) = start_server host name b in roll_back name e.config b' r

-- the body of the loop
unfoldable pub attempt : Host → String → McpServerConfig → TransportConfig → Action (Unit {0})
unfolding activate_http activate_stdio to_server_config
attempt host name c t =
    let sc = to_server_config host.look_path t name c.description c.capabilities in
    if sc.type == "http" || sc.type == "sse"
    then activate_http host name sc
    else activate_stdio host name sc

abbrev pub nth : List TransportConfig → ℕ → Option TransportConfig
nth [] i = none
nth (t ∷ ts) zero = some t
nth (t ∷ ts) (suc i) = nth ts i

-- what the loop does with an attempt; `next` is the rest of the loop
abbrev pub settle :
    TransportConfig
    → (Broker → Broker × Outcome String)
    → Broker
    → Outcome (Unit {0})
    → Broker × Outcome String
settle t next b (ok done) = (b, ok t.type)
settle t next b (err e) = next b

-- An index is always in range; where it is not, the code would panic.
abbrev pub attempt_at :
    Host
    → String
    → McpServerConfig
    → Option TransportConfig
    → (Broker → Broker × Outcome String)
    → Action String
attempt_at host name c none next b = next b
attempt_at host name c (some t) next b = let (b', r) = attempt host name c t b in settle t next b' r

-- The loop with `left` rounds to go, at round `i` of `n`.
unfoldable pub activate_loop : Host → String → McpServerConfig → ℕ → ℕ → ℕ → ℕ → Action String
unfolding attempt
activate_loop host name c n start_idx i zero b = (b, err (all_transports_failed n name))
activate_loop host name c n start_idx i (suc left) b =
    attempt_at host name c (nth c.transports ((start_idx + i) % n))
      (activate_loop host name c n start_idx (suc i) left) b

-- A transport index; a negative one is `none`.
abbrev pub start_index : ℕ → Option ℕ → ℕ
start_index n none = 0
start_index n (some i) = if leb n i then 0 else i

-- `ActivateMCPServerWithTransport`
unfoldable pub activate : Host → String → McpServerConfig → Option ℕ → Action String
unfolding activate_loop
activate host name c transport_index = do
  _ ← entry_of name (not_registered name)
  (if is_empty c.transports
      then fail (no_transports name)
      else let n = length c.transports in
        activate_loop host name c n (start_index n transport_index) 0 n)
