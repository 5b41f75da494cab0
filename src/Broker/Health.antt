-- ===== src/Broker/Health.antt =====
-- `Launcher.Health` of launcher.go, and `Health` and `HealthDeep` of broker.go.
pub mod Statuses
use neuralgentics_broker.Prelude.{
  ℕ, zero, suc, ◌+◌, ◌-◌, ◌*◌, ◌/◌, ◌%◌, ◌^◌, ◌≤◌, ◌<◌, String, ◌≡◌, refl, sym, ap, ◌∙◌, ◌≢◌, ◌↔◌,
  ◌⊎◌, inl, inr, Bool, true, false, not, ◌&&◌, ◌||◌, Option, none, some, List, [], ◌∷◌, ◌++◌, map,
  reverse, arith, ◌==◌, eq_iff, eq_refl, ltb, leb, eqb, if◌then◌else◌, Bool-cases, Option-cases,
  is_some, Result, is_ok, ok, err, length, is_empty, keep_if, take, All, length-append,
  length-keep_if, All-keep_if, elem, elem-append, elem-keep_if, Dict, get, put, delete, keys,
  has_key, IsMap, get-put, get-delete, has_key-get, has_key-put, has_key-delete, put-IsMap,
  delete-IsMap, dict_laws, text_le, text_le_total, sort_strings, IsSorted, sort_strings-IsSorted,
  elem-sort_strings, encode, bytes, later, last_index, last_index-lt, eq_bytes, drop, starts_with,
  contains, has_suffix, one_more, index,
}
use neuralgentics_broker.Errors.{Outcome}
use neuralgentics_broker.Types.{ServerStatus}
use neuralgentics_broker.Registry.{ServerEntry, Registry, find, list}
use neuralgentics_broker.Host.{Host}
use neuralgentics_broker.Broker.{Broker}
use neuralgentics_broker.Broker.Lifecycle.{has_pipes, initialize}

pub data HealthStatus : Type 0 where
  stopped dead initializing healthy unhealthy : HealthStatus

-- a question to the surroundings that cannot fail
abbrev pub asked : Broker → Broker
asked b = record b { clock = b.clock + 1 }

-- the status of an entry with a process, by whether signal 0 reaches it
abbrev pub process_status : ServerEntry → Bool → HealthStatus
process_status e false = dead
process_status e true = if has_pipes e then healthy else initializing

-- `Launcher.Health`
abbrev pub process_health : Host → ServerEntry → Option ℕ → Broker → Broker × HealthStatus
process_health host e none b = (b, stopped)
process_health host e (some process) b = (asked b, process_status e (host.alive b.clock process))

abbrev pub entry_health : Host → Option ServerEntry → Broker → Broker × HealthStatus
entry_health host none b = (b, stopped)
entry_health host (some e) b = process_health host e e.process b

unfoldable pub launcher_health : Host → String → Broker → Broker × HealthStatus
launcher_health host name b = entry_health host (find name b.registry) b

-- the body of the loop of `Health`, and the loop, with the map so far
unfoldable pub server_health : Host → ServerStatus → Broker → Broker × HealthStatus
unfolding launcher_health
server_health host s b = if s.running then launcher_health host s.name b else (b, stopped)

unfoldable pub health_loop :
    Host → Dict HealthStatus → List ServerStatus → Broker → Broker × Dict HealthStatus
unfolding server_health
health_loop host acc [] b = (b, acc)
health_loop host acc (s ∷ ss) b =
    let (b', status) = server_health host s b in health_loop host (put s.name status acc) ss b'

-- `Broker.Health`
unfoldable pub health : Host → Broker → Broker × Dict HealthStatus
unfolding health_loop list
health host b = health_loop host [] (list b.registry) b

-- The ping of `HealthDeep`: a handshake over the shared proxy. No answer in time is an error of it.
abbrev pub ping_status : Outcome (Unit {0}) → HealthStatus
ping_status (ok u) = healthy
ping_status (err e) = unhealthy

abbrev pub ping : Host → String → Broker → Broker × HealthStatus
ping host name b = let (b', r) = initialize host name b in (b', ping_status r)

abbrev pub process_deep : Host → String → ServerEntry → Option ℕ → Broker → Broker × HealthStatus
process_deep host name e none b = (b, stopped)
process_deep host name e (some process) b =
    if has_pipes e then ping host name b else launcher_health host name b

abbrev pub entry_deep : Host → String → Option ServerEntry → Broker → Broker × HealthStatus
entry_deep host name none b = (b, stopped)
entry_deep host name (some e) b = process_deep host name e e.process b

unfoldable pub server_deep : Host → ServerStatus → Broker → Broker × HealthStatus
unfolding launcher_health initialize
server_deep host s b =
    if s.running then entry_deep host s.name (find s.name b.registry) b else (b, stopped)

unfoldable pub deep_loop :
    Host → Dict HealthStatus → List ServerStatus → Broker → Broker × Dict HealthStatus
unfolding server_deep
deep_loop host acc [] b = (b, acc)
deep_loop host acc (s ∷ ss) b =
    let (b', status) = server_deep host s b in deep_loop host (put s.name status acc) ss b'

-- `HealthDeep`
unfoldable pub health_deep : Host → Broker → Broker × Dict HealthStatus
unfolding deep_loop list
health_deep host b = deep_loop host [] (list b.registry) b
