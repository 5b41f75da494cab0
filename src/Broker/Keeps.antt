-- ===== src/Broker/Keeps.antt =====
-- Invariants of actions of broker.go: one rule for each way to build an action.
use neuralgentics_broker.Prelude.{
  ℕ, ◌+◌, String, ◌≡◌, ap, ◌∙◌, inl, inr, Bool, Option, none, some, Option-cases, ok, err, put,
  delete, IsMap, put-IsMap, delete-IsMap,
}
use neuralgentics_broker.Types.{ServerConfig}
use neuralgentics_broker.Errors.{BrokerError, Outcome}
use neuralgentics_broker.Registry.{ServerEntry, Registry, find, register, deregister}
use neuralgentics_broker.Clients.{Client}
use neuralgentics_broker.Registry.Laws.{
  IsValid, Named-get, modify-IsValid, register-IsValid, deregister-IsValid,
}
use neuralgentics_broker.Broker.{
  modify, Broker, Proxy, Action, pure, fail, follow, ◌>>=◌, change, wrap, ask, or_fail, entry_of,
  modify_entry,
}

-- The action keeps the property, whether it returns or fails.
pub record Keeps {A : Type 0} (P : Broker → Type 0) (m : Action A) : Type 0 where
  pub at : (b : Broker) → P b → P (m b).0

module _ {A : Type 0} {P : Broker → Type 0} where
  pub Keeps-pure : (a : A) → Keeps P (pure a)
  Keeps-pure a = record { at = λ b h. h }

  pub Keeps-fail : (e : BrokerError) → Keeps P (fail {A = A} e)
  Keeps-fail e = record { at = λ b h. h }

  pub Keeps-or_fail : (e : BrokerError) (o : Option A) → Keeps P (or_fail e o)
  Keeps-or_fail e none = record { at = λ b h. h }
  Keeps-or_fail e (some a) = record { at = λ b h. h }

  pub Keeps-wrap : (f : BrokerError → BrokerError) (m : Action A) → Keeps P m → Keeps P (wrap f m)
  Keeps-wrap f m k = record { at = λ b h. k.at b h }

module _ {P : Broker → Type 0} where
  pub Keeps-entry_of : (name : String) (e : BrokerError) → Keeps P (entry_of name e)
  Keeps-entry_of name e = record {
    at = λ b h. (Keeps-or_fail {P = P} e (find name b.registry)).at b h;
  }

module _ {A B : Type 0} {P : Broker → Type 0} where
  Keeps-follow :
      (f : A → Action B) (b : Broker) (r : Outcome A)
      → ((a : A) → Keeps P (f a))
      → P b
      → P (follow f b r).0
  Keeps-follow f b (ok a) k h = (k a).at b h
  Keeps-follow f b (err e) k h = h

  pub Keeps-bind :
      (m : Action A) (f : A → Action B) → Keeps P m → ((a : A) → Keeps P (f a)) → Keeps P (m >>= f)
  Keeps-bind m f k l = record { at = λ b h. let (b', r) = m b in Keeps-follow f b' r l (k.at b h) }

-- Each entry has the name that it is registered under, each name is registered once, and each server
-- has at most one HTTP client.
pub record IsSound (b : Broker) : Type 0 where
  pub valid : IsValid b.registry
  pub clients : IsMap b.http_clients

abbrev pub Anywhere : String → Type 0
Anywhere name = Unit

-- A property that none of these changes touches: a question to the surroundings, the proxy's state,
-- and what an entry holds besides its configuration, if it stands under one of these names, and with it
-- the name in its configuration.
pub record IsLocal (On : String → Type 0) (P : Broker → Type 0) : Type 0 where
  pub asks : (n : ℕ) (b : Broker) → P b → P (record b { clock = n })
  pub proxies : (p : Proxy) (b : Broker) → P b → P (record b { proxy = p })
  pub entries :
      (f : ServerEntry → ServerEntry) (name : String)
      → On name
      → ((e : ServerEntry) → (f e).config ≡ e.config)
      → (b : Broker) → P b
      → P (record b { registry = modify f name b.registry })
  pub owns :
      (name : String) (b : Broker) (e : ServerEntry)
      → On name
      → P b
      → find name b.registry ≡ some e
      → On e.config.name

module _ {On : String → Type 0} {P : Broker → Type 0} (local : IsLocal On P) where
  pub Keeps-ask : {A : Type 0} (q : ℕ → A) → Keeps P (ask q)
  Keeps-ask q = record { at = λ b h. local.asks (b.clock + 1) b h }

  pub Keeps-proxy :
      (on : Bool) → Keeps P (change (λ b. record b { proxy = record b.proxy { running = on } }))
  Keeps-proxy on = record { at = λ b h. local.proxies _ b h }

  pub Keeps-entries :
      (f : ServerEntry → ServerEntry) (name : String)
      → On name
      → ((e : ServerEntry) → (f e).config ≡ e.config)
      → Keeps P (modify_entry f name)
  Keeps-entries f name on k = record { at = λ b h. local.entries f name on k b h }

  -- an entry that is found, with a name that its configuration may be published under
  pub Keeps-found :
      {A : Type 0} (name : String) (e : BrokerError) (f : ServerEntry → Action A)
      → On name
      → ((x : ServerEntry) → On x.config.name → Keeps P (f x))
      → Keeps P (entry_of name e >>= f)
  Keeps-found name e f on k = record {
    at = λ b h. elim (Option-cases (find name b.registry)) [
      | inl absent ↦ rw absent h
      | inr (x, there) ↦ rw there ((k x (local.owns name b x on h there)).at b h)
    ];
  }

-- A property that the methods on servers of these names keep: those that add and take away a server, set
-- its configuration, and add and take away its HTTP client; and what a call changes.
pub record IsStable (On : String → Type 0) (P : Broker → Type 0) : Type 0 where
  pub local : IsLocal On P
  pub named :
      (name : String) (b : Broker) (e : ServerEntry)
      → P b
      → find name b.registry ≡ some e
      → e.config.name ≡ name
  pub configs :
      (f : ServerEntry → ServerEntry) (name : String)
      → On name
      → ((e : ServerEntry) → e.config.name ≡ name → (f e).config.name ≡ name)
      → (b : Broker) → P b
      → P (record b { registry = modify f name b.registry })
  pub registers :
      (c : ServerConfig)
      → On c.name
      → (b : Broker) → P b
      → P (record b { registry = register c b.registry })
  pub deregisters :
      (name : String) (r : Registry)
      → On name
      → (b : Broker) → deregister name b.registry ≡ ok r
      → P b
      → P (record b { registry = r })
  pub puts :
      (name : String) (c : Client)
      → On name
      → (b : Broker) → P b
      → P (record b { http_clients = put name c b.http_clients })
  pub removes :
      (name : String)
      → On name
      → (b : Broker) → P b
      → P (record b { http_clients = delete name b.http_clients })
  pub frames :
      (b b' : Broker)
      → b'.registry ≡ b.registry
      → b'.access ≡ b.access
      → b'.http_clients ≡ b.http_clients
      → P b
      → P b'

pub Keeps-modify_entry :
    {On : String → Type 0} {P : Broker → Type 0} (stable : IsStable On P)
    (f : ServerEntry → ServerEntry) (name : String)
    → On name
    → ((e : ServerEntry) → e.config.name ≡ name → (f e).config.name ≡ name)
    → Keeps P (modify_entry f name)
Keeps-modify_entry stable f name on k = record { at = λ b h. stable.configs f name on k b h }

modify-IsSound :
    (f : ServerEntry → ServerEntry) (name : String)
    → ((e : ServerEntry) → e.config.name ≡ name → (f e).config.name ≡ name)
    → (b : Broker) → IsSound b
    → IsSound (record b { registry = modify f name b.registry })
modify-IsSound f name k b h = record {
  valid = modify-IsValid f name b.registry k h.valid;
  clients = h.clients;
}

IsSound-IsLocal : IsLocal Anywhere IsSound
IsSound-IsLocal = record {
  asks = λ n b h. record { valid = h.valid; clients = h.clients };
  proxies = λ p b h. record { valid = h.valid; clients = h.clients };
  entries = λ f name on k b h.
      modify-IsSound f name (λ e p. ap (λ (c : ServerConfig). c.name) (k e) ∙ p) b h;
  owns = λ name b e on h there. tt;
}

pub IsSound-IsStable : IsStable Anywhere IsSound
IsSound-IsStable = record {
  local = IsSound-IsLocal;
  named = λ name b e h there. Named-get name b.registry.servers there h.valid.named;
  configs = λ f name on k b h. modify-IsSound f name k b h;
  registers =
      λ c on b h. record { valid = register-IsValid c b.registry h.valid; clients = h.clients };
  deregisters = λ name r on b e h. record {
    valid = deregister-IsValid name b.registry {r' = r} e h.valid;
    clients = h.clients;
  };
  puts = λ name c on b h. record {
    valid = h.valid;
    clients = put-IsMap name c b.http_clients h.clients;
  };
  removes = λ name on b h. record {
    valid = h.valid;
    clients = delete-IsMap name b.http_clients h.clients;
  };
  frames = λ b b' r a c h. record { valid = rw r h.valid; clients = rw c h.clients };
}

pub ruleset keeps_rules = (
  Keeps-pure, Keeps-fail, Keeps-or_fail, Keeps-wrap, Keeps-entry_of, Keeps-bind, Keeps-ask,
  Keeps-proxy,
)
