-- ===== src/Broker/Calls.antt =====
-- `Call` and `MatchIntent` of broker.go, up to the matcher: access control, routing to the HTTP client
-- or to the shared proxy, and the audit record.
pub mod Audited
pub mod Routing
use neuralgentics_broker.Prelude.{
  ℕ, zero, suc, ◌+◌, ◌-◌, ◌*◌, ◌/◌, ◌%◌, ◌^◌, ◌≤◌, ◌<◌, String, ◌≡◌, refl, sym, ap, ◌∙◌, ◌≢◌, ◌↔◌,
  ◌⊎◌, inl, inr, Bool, true, false, not, ◌&&◌, ◌||◌, Option, none, some, List, [], ◌∷◌, ◌++◌, map,
  reverse, arith, ◌==◌, eq_iff, eq_refl, ltb, leb, eqb, if◌then◌else◌, Bool-cases, Option-cases,
  is_some, Result, is_ok, put_at, ok, err, length, is_empty, keep_if, take, All, length-append,
  length-keep_if, All-keep_if, Listed, All-Listed, Listed-All, keep_if-Listed, All-keep_if_tested,
  elem, elem-append, elem-keep_if, Dict, get, put, delete, keys, has_key, IsMap, get-put,
  get-delete, has_key-get, has_key-put, has_key-delete, put-IsMap, delete-IsMap, dict_laws, text_le,
  text_le_total, sort_strings, IsSorted, sort_strings-IsSorted, elem-sort_strings, encode, bytes,
  later, last_index, last_index-lt, eq_bytes, drop, starts_with, contains, has_suffix, one_more,
  index,
}
use Prim.Native.String
use neuralgentics_broker.Errors.{
  BrokerError, Outcome, ErrUnauthorized, not_found, no_pipes, unauthorized, call_failed,
  remote_error,
}
use neuralgentics_broker.Types.{ServerConfig, ToolSummary}
use neuralgentics_broker.Access.{AccessControl, can_access, get_accessible_servers}
use neuralgentics_broker.Registry.{ServerEntry, Registry, find, get_all_tools}
use neuralgentics_broker.Audit.{Payload, AuditRecord, AuditWriter, build_record, write}
use neuralgentics_broker.Host.{Host, RpcOutcome, no_answer, error_reply, malformed, result}
use neuralgentics_broker.Clients.{Client, stdio_client, http_client}
use neuralgentics_broker.Broker.{
  Broker, Action, pure, fail, ◌>>=◌, ◌>>◌, change, wrap, ask, or_fail, entry_of,
}
use neuralgentics_broker.Broker.Lifecycle.{send_rpc, expect, assert, has_pipes}

-- The request of a call: role, server, tool and arguments.
pub record Request : Type 0 where
  pub role : String
  pub server : String
  pub tool : String
  pub args : Option Payload

abbrev pub result_of : Outcome Payload → Option Payload
result_of (ok p) = some p
result_of (err e) = none

abbrev pub error_of : Outcome Payload → Option BrokerError
error_of (ok p) = none
error_of (err e) = some e

-- the record of a request that ended with this outcome
abbrev pub record_of : Host → ℕ → ℕ → Request → Outcome Payload → AuditRecord
record_of host start clock q r =
    build_record host.digest (host.now clock) q.role q.server q.tool q.args (result_of r)
      (error_of r) (host.now start)

abbrev pub write_audit : Option AuditWriter → AuditRecord → Option AuditWriter
write_audit none rec = none
write_audit (some w) rec = some (write w rec)

-- `b.auditWriter.Write(audit.BuildRecord(...))`, if there is a writer
unfoldable pub audit : Host → ℕ → Request → Outcome Payload → Broker → Broker
unfolding write build_record
audit host start q r b = record b {
  audit_writer = write_audit b.audit_writer (record_of host start b.clock q r);
}

-- `fmt.Sprintf("role %s cannot access server %s", role, serverName)`
unfoldable pub denied_reason : String → String → String
denied_reason role server =
    String.◌++◌ "role " (String.◌++◌ role (String.◌++◌ " cannot access server " server))

abbrev pub denial : Broker → Request → BrokerError
denial b q = unauthorized (record {
  role = q.role;
  server = q.server;
  reason = denied_reason q.role q.server;
  available_servers = get_accessible_servers b.access q.role;
})

-- `MCPProxy.Call`, with the error that `Call` wraps it in
unfoldable pub proxy_call : Host → Request → Action Payload
unfolding send_rpc
proxy_call host q = do
  reply ← send_rpc (λ n. host.call_tool n q.server q.tool q.args)
  expect (call_failed q.role q.server q.tool) reply

-- the stdio branch
unfoldable pub stdio_call : Host → Request → Action Payload
unfolding proxy_call
stdio_call host q = do
  e ← entry_of q.server (not_found q.server)
  assert (has_pipes e) (no_pipes q.server)
  proxy_call host q

-- `client.Call`
abbrev pub client_call : Host → Request → Client → Action Payload
client_call host q (stdio_client c) = fail (remote_error q.server)
client_call host q (http_client url auth) = do
  reply ← ask (λ n. host.http_call n url q.tool q.args)
  expect (remote_error q.server) reply

abbrev pub route_found : Host → Request → Option Client → Action Payload
route_found host q none = stdio_call host q
route_found host q (some client) = client_call host q client

-- the part of `Call` between the access check and the audit: an HTTP client comes first
unfoldable pub route : Host → Request → Action Payload
unfolding stdio_call
route host q b = route_found host q (get q.server b.http_clients) b

-- `Call`
unfoldable pub call : Host → Request → Action Payload
unfolding route audit can_access get_accessible_servers denied_reason
call host q b =
    if not (can_access b.access q.role q.server)
    then (audit host b.clock q (err (denial b q)) b, err (denial b q))
    else let (b', r) = route host q b in (audit host b.clock q r b', r)

-- the tools that `MatchIntent` hands to the matcher
unfoldable pub candidates : Broker → String → List ToolSummary
unfolding can_access get_all_tools
candidates b role =
    if role == ""
    then get_all_tools b.registry
    else keep_if (λ t. can_access b.access role t.server) (get_all_tools b.registry)
