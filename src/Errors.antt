-- ===== src/Errors.antt =====
-- The errors that the broker's packages return, one constructor for each text that they format, with
-- the values that the text names. An error that wraps another holds it.
use neuralgentics_broker.Prelude.{ℕ, String, List, Result}

-- access.go, `ErrUnauthorized`
pub record ErrUnauthorized : Type 0 where
  pub role : String
  pub server : String
  pub reason : String
  pub available_servers : List String

pub data BrokerError : Type 0 where
  name_required command_required transport_required : BrokerError
  no_transports not_registered not_found disappeared no_pipes : String → BrokerError
  start_failed initialize_failed list_tools_failed stop_failed : String → BrokerError
  restart_failed : String → BrokerError → BrokerError
  all_transports_failed : ℕ → String → BrokerError
  unauthorized : ErrUnauthorized → BrokerError
  call_failed : String → String → String → BrokerError
  remote_error : String → BrokerError
  no_tools_available : BrokerError
  no_matching_tool below_threshold : String → BrokerError
  load_catalog_failed : BrokerError
  not_in_catalog : String → BrokerError
  register_failed : String → BrokerError → BrokerError

abbrev pub Outcome : Type 0 → Type 0
Outcome = Result BrokerError
