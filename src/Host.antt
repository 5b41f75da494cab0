-- ===== src/Host.antt =====
-- What the broker's surroundings answer: the operating system, the MCP servers at the other end of a
-- pipe, and those at the other end of an HTTP connection. Every question has a number, the count of
-- questions asked before, so that the same question may be answered differently each time.
use neuralgentics_broker.Prelude.{ℕ, String, Bool, Option, List}
use neuralgentics_broker.Types.{ServerConfig}
use neuralgentics_broker.Audit.{Payload}

-- The outcome of one JSON-RPC request: no answer (the request cannot be written, the time is up, or
-- the proxy is stopped), an answer that is an error, one that cannot be parsed, or a result.
pub data RpcOutcome (A : Type 0) : Type 0 where
  no_answer error_reply malformed : RpcOutcome A
  result : A → RpcOutcome A

pub record Host : Type 0 where
  pub look_path : String → Bool
  -- `StdinPipe`, `StdoutPipe` and `cmd.Start`
  pub stdin_pipe : ℕ → Option ℕ
  pub stdout_pipe : ℕ → Option ℕ
  pub start_process : ℕ → ServerConfig → Option ℕ
  -- whether signal 0 reaches a process
  pub alive : ℕ → ℕ → Bool
  -- requests over a pipe; a tool is a name and a description
  pub initialize : ℕ → String → RpcOutcome (Unit {0})
  pub notify_initialized : ℕ → String → Bool
  pub list_tools : ℕ → String → RpcOutcome (List (String × String))
  pub call_tool : ℕ → String → String → Option Payload → RpcOutcome Payload
  -- the same over HTTP
  pub http_initialize : ℕ → String → RpcOutcome (Unit {0})
  pub http_list_tools : ℕ → String → RpcOutcome (List (String × String))
  pub http_call : ℕ → String → String → Option Payload → RpcOutcome Payload
  -- the clock, and the digest of a record's arguments
  pub now : ℕ → ℕ
  pub digest : List ℕ → String
