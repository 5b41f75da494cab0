-- ===== src/Broker.antt =====
-- broker.go: the state of the `Broker`, and the actions that its methods are made of. A method is an
-- action: it returns a result or an error, and what it changed before an error stays changed. The
-- shared proxy shows only whether its reader runs and which request number is next; `clock` counts
-- the questions put to the surroundings. The JSON-RPC requests of one method do not overlap with
-- those of another here.
pub mod Keeps
pub mod Lifecycle
pub mod Activation
pub mod Calls
pub mod Stable
pub mod Soundness
pub mod Profiles
pub mod Discovery
pub mod Health
pub mod Views
pub mod Exposure
use neuralgentics_broker.Prelude.{
  ℕ, zero, suc, ◌+◌, ◌-◌, ◌*◌, ◌/◌, ◌%◌, ◌^◌, ◌≤◌, ◌<◌, String, ◌≡◌, refl, sym, ap, ◌∙◌, ◌≢◌, ◌↔◌,
  ◌⊎◌, inl, inr, Bool, true, false, not, ◌&&◌, ◌||◌, Option, none, some, List, [], ◌∷◌, ◌++◌, map,
  reverse, arith, ◌==◌, eq_iff, eq_refl, ltb, leb, eqb, if◌then◌else◌, Bool-cases, Option-cases,
  is_some, Result, is_ok, ok, err, length, is_empty, keep_if, take, All, length-append,
  length-keep_if, All-keep_if, elem, elem-append, elem-keep_if, Dict, get, put, delete, keys,
  has_key, IsMap, get-put, get-delete, has_key-get, has_key-put, has_key-delete, put-IsMap,
  delete-IsMap, dict_laws, text_le, text_le_total, sort_strings, IsSorted, sort_strings-IsSorted,
  elem-sort_strings, encode, bytes, later, last_index, last_index-lt,
}
use neuralgentics_broker.Errors.{BrokerError, Outcome}
use neuralgentics_broker.Access.{AccessControl}
use neuralgentics_broker.Registry.{ServerEntry, Registry, find, modify}
use neuralgentics_broker.Audit.{AuditWriter}
use neuralgentics_broker.Clients.{Client}

pub record Proxy : Type 0 where
  pub next_id : ℕ
  pub running : Bool

pub record Broker : Type 0 where
  pub registry : Registry
  pub access : AccessControl
  pub http_clients : Dict Client
  pub proxy : Proxy
  pub audit_writer : Option AuditWriter
  pub clock : ℕ

abbrev pub Action : Type 0 → Type 0
Action A = Broker → Broker × Outcome A

abbrev pub pure : {A : Type 0} → A → Action A
pure a b = (b, ok a)

abbrev pub fail : {A : Type 0} → BrokerError → Action A
fail e b = (b, err e)

abbrev pub follow : {A B : Type 0} → (A → Action B) → Broker → Outcome A → Broker × Outcome B
follow f b (ok a) = f a b
follow f b (err e) = (b, err e)

infixl 5 ◌>>=◌ ◌>>◌
abbrev pub ◌>>=◌ : {A B : Type 0} → Action A → (A → Action B) → Action B
◌>>=◌ m f b = let (b', r) = m b in follow f b' r

abbrev pub ◌>>◌ : {B : Type 0} → Action (Unit {0}) → Action B → Action B
m >> k = m >>= λ _. k

-- a change that cannot fail
abbrev pub change : (Broker → Broker) → Action (Unit {0})
change f b = (f b, ok tt)

-- the errors of an action, wrapped or replaced
abbrev pub rename_error : {A : Type 0} → (BrokerError → BrokerError) → Outcome A → Outcome A
rename_error f (ok a) = ok a
rename_error f (err e) = err (f e)

abbrev pub wrap : {A : Type 0} → (BrokerError → BrokerError) → Action A → Action A
wrap f m b = let (b', r) = m b in (b', rename_error f r)

-- a question to the surroundings, by its number
abbrev pub ask : {A : Type 0} → (ℕ → A) → Action A
ask q b = (record b { clock = b.clock + 1 }, ok (q b.clock))

abbrev pub or_fail : {A : Type 0} → BrokerError → Option A → Action A
or_fail e none = fail e
or_fail e (some a) = pure a

-- `b.registry.Get(name)`, with the error for a missing name
abbrev pub entry_of : String → BrokerError → Action ServerEntry
entry_of name e b = or_fail e (find name b.registry) b

-- a mutation of the entry of a name
abbrev pub modify_entry : (ServerEntry → ServerEntry) → String → Action (Unit {0})
modify_entry f name = change (λ b. record b { registry = modify f name b.registry })

-- `proxy.StartReader` and `proxy.Stop`
abbrev pub start_reader : Action (Unit {0})
start_reader = change (λ b. record b { proxy = record b.proxy { running = true } })

abbrev pub stop_proxy : Action (Unit {0})
stop_proxy = change (λ b. record b { proxy = record b.proxy { running = false } })
