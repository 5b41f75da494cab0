-- ===== src/Tests/BrokerTests.antt =====
-- The broker at concrete inputs.
use neuralgentics_broker.Prelude.{
  String, ◌≡◌, refl, true, false, none, some, [], ◌∷◌, ◌==◌, if◌then◌else◌, is_ok,
}
use neuralgentics_broker.Types.{ServerConfig, TransportConfig, McpServerConfig, converted_env}
use neuralgentics_broker.Registry.{ServerEntry}
use neuralgentics_broker.Audit.{AuditRecord, AuditWriter}
use neuralgentics_broker.Host.{Host, error_reply, result}
use neuralgentics_broker.Clients.{http_client}
use neuralgentics_broker.Broker.{Broker}
use neuralgentics_broker.Broker.Keeps.{IsSound}
use neuralgentics_broker.Broker.Lifecycle.{start_server}
use neuralgentics_broker.Broker.Activation.{activate, activate_stdio, activate_http}
use mathlib.Core.Option.{map as option_map}
use neuralgentics_broker.Broker.Activation.{attempt}
use neuralgentics_broker.Broker.Activation.Success.{Works, activate-succeeds}
use neuralgentics_broker.Broker.Activation.Fallback.{Settled, activate-Settled}
use neuralgentics_broker.Broker.Activation.Remote.{activate_stdio-route}
use neuralgentics_broker.Broker.Calls.{Request, call, route, client_call}
use neuralgentics_broker.Broker.Calls.Audited.{buffered, call_audited}
use neuralgentics_broker.Broker.Calls.Routing.{call-failed_start}
use neuralgentics_broker.Broker.Soundness.{
  registers, activates, exits, calls, deregisters, run_steps, run_steps-IsSound,
}

-- Every server answers over HTTP; over a pipe `git` does, and `broken` fails the handshake.
abbrev host : Host
host = record {
  look_path = λ s. true;
  stdin_pipe = λ n. some n;
  stdout_pipe = λ n. some n;
  start_process = λ n c. some n;
  alive = λ n p. true;
  initialize = λ n s. if s == "broken" then error_reply else result tt;
  notify_initialized = λ n s. true;
  list_tools = λ n s. result (("clone", "") ∷ []);
  call_tool = λ n s t a. result (record { encoding = some [] });
  http_initialize = λ n u. result tt;
  http_list_tools = λ n u. result (("search", "") ∷ []);
  http_call = λ n u t a. result (record { encoding = some [] });
  now = λ n. n;
  digest = λ e. "sha256:";
}

abbrev config_for : String → ServerConfig
config_for name = record {
  name = name;
  command = name;
  args = [];
  env = none;
  type = "stdio";
  description = "";
  capabilities = [];
}

abbrev entry_for : String → ServerEntry
entry_for name = record {
  config = config_for name;
  process = some 1;
  tools = [];
  stdin = some 1;
  stdout = some 2;
}

abbrev writer : AuditWriter
writer = record {
  sink = 2;
  batch_size = 100;
  buf = [];
  closed = false;
  jsonl_file = true;
  pg_db = false;
  jsonl = [];
  pg = [];
  signals = 0;
}

-- `git` runs, `broken` is registered, `remote` has an HTTP client; only the git role may use `git`
abbrev broker : Broker
broker = record {
  registry = record {
    servers =
        ("git", entry_for "git")
        ∷ ("broken", entry_for "broken")
        ∷ ("remote", entry_for "remote")
        ∷ [];
  };
  access = record { server_roles = ("git", "git" ∷ []) ∷ [] };
  http_clients = ("remote", http_client "http://localhost" "") ∷ [];
  proxy = record { next_id = 1; running = true };
  audit_writer = some writer;
  clock = 0;
}

abbrev by : String → String → Request
by role server = record { role = role; server = server; tool = "clone"; args = none }

abbrev over_pipe : TransportConfig
over_pipe = record {
  type = "local";
  package_name = "serve";
  args = [];
  env = none;
  url = "";
  default = false;
  description = "";
}

abbrev over_http : TransportConfig
over_http = record over_pipe { type = "http"; url = "http://localhost/" }

abbrev both_ways : McpServerConfig
both_ways = record {
  name = "broken";
  transports = over_pipe ∷ over_http ∷ [];
  description = "";
  capabilities = [];
}

broker-IsSound : IsSound broker
broker-IsSound = record {
  valid = record { unique = (refl, (refl, (refl, tt))); named = (refl, (refl, (refl, tt))) };
  clients = (refl, tt);
}

run_steps-IsSound_example : IsSound (
    run_steps host
      (registers (config_for "new")
        ∷ activates "broken" both_ways none
        ∷ exits "git"
        ∷ calls (by "git" "git")
        ∷ deregisters "git"
        ∷ [])
      broker)
run_steps-IsSound_example =
    run_steps-IsSound host
      (registers (config_for "new")
        ∷ activates "broken" both_ways none
        ∷ exits "git"
        ∷ calls (by "git" "git")
        ∷ deregisters "git"
        ∷ [])
      broker broker-IsSound

activate-Settled_example :
    Settled host "broken" both_ways
      (config_for "broken")
      (activate host "broken" both_ways none broker)
activate-Settled_example =
    activate-Settled host "broken" both_ways none (config_for "broken") broker refl

activate_stdio-route_example :
    let b' = (activate_stdio host "remote" (config_for "remote") broker).0 in
    route host (by "git" "remote") b'
    ≡ client_call host (by "git" "remote") (http_client "http://localhost" "") b'
activate_stdio-route_example =
    activate_stdio-route host (by "git" "remote") (config_for "remote")
      (http_client "http://localhost" "") broker refl

abbrev http_config : ServerConfig
http_config = record (config_for "git") {
  type = "http";
  env = some (("NEURALGENTICS_MCP_URL", "http://localhost") ∷ []);
}

call_audited_example :
    (rec : AuditRecord) × (buffered (call host (by "git" "git") broker).0.audit_writer ≡ rec ∷ [])
    × (rec.agent_role ≡ "git")
    × (rec.server ≡ "git")
    × (rec.tool ≡ "clone")
    × (rec.success ≡ is_ok (call host (by "git" "git") broker).1)
call_audited_example =
    call_audited host (by "git" "git") broker writer refl (record { on = refl; not_closed = refl })

-- `git` runs and has answered so far
call-failed_start_example :
    is_ok (call host (by "git" "git") (start_server host "broken" broker).0).1 ≡ false
unfolding start_server
call-failed_start_example = call-failed_start host "broken" (by "git" "git") broker refl refl

over_http-Works : Works host "broken" both_ways over_http
unfolding attempt activate_http converted_env
over_http-Works b sc h = refl

-- `broken` fails over the pipe, in the round that comes second here
activate-succeeds_example : is_ok (activate host "broken" both_ways (some 1) broker).1 ≡ true
activate-succeeds_example =
    activate-succeeds host "broken" both_ways (some 1) (config_for "broken") 1 over_http broker refl
      refl over_http-Works
