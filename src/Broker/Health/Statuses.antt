-- ===== src/Broker/Health/Statuses.antt =====
-- What `Health` of broker.go says of each server.
use neuralgentics_broker.Prelude.{ℕ, Bool, true, false, Option, none, some}
use mathlib.Core.Option.{map as option_map}
use neuralgentics_broker.Registry.{ServerEntry}
use neuralgentics_broker.Host.{Host}
use neuralgentics_broker.Broker.{Broker}
use neuralgentics_broker.Broker.Health.{HealthStatus, stopped, dead, healthy, initializing}

-- The table of a process: by the answer whether it can be reached, and its two pipes.
abbrev pub status_of : Bool → Option ℕ → Option ℕ → HealthStatus
status_of false stdin stdout = dead
status_of true (some i) (some o) = healthy
status_of true (some i) none = initializing
status_of true none stdout = initializing

-- the status of an entry, by the answer to question `q`
abbrev pub process_status_at : Host → ℕ → ServerEntry → Option ℕ → HealthStatus
process_status_at host q e none = stopped
process_status_at host q e (some process) = status_of (host.alive q process) e.stdin e.stdout

abbrev pub status_at : Host → ℕ → ServerEntry → HealthStatus
status_at host q e = process_status_at host q e e.process

abbrev or_before : Option HealthStatus → Option HealthStatus → Option HealthStatus
or_before none before = before
or_before (some status) before = some status
