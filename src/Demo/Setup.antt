-- ===== src/Demo/Setup.antt =====
-- What the demonstration of cmd/broker/main.go has set up before it shows anything.
use neuralgentics_broker.Prelude.{
  String, ◌≡◌, refl, ap, ◌∙◌, ◌≢◌, inl, inr, Bool, true, false, ◌||◌, List, [], ◌∷◌, arith, ◌==◌,
  eq_iff, eq_refl, if◌then◌else◌, Bool-cases, Option-cases, is_some, ok, keep_if, All, elem,
}
use neuralgentics_broker.Types.{ServerConfig, ToolSummary}
use neuralgentics_broker.Registry.{Registry, find, register, get_tools, modify, set_tools}
use neuralgentics_broker.Registry.Laws.{find-modify, find-register}
use neuralgentics_broker.Broker.{Broker}
use neuralgentics_broker.Broker.Lifecycle.{register_server}
use neuralgentics_broker.Broker.Views.{set_server_tools}
use neuralgentics_broker.Demo.{register_all, server_tools, populate, prepared}

-- a configuration that `RegisterServer` takes
abbrev pub IsComplete : ServerConfig → Type 0
IsComplete c = (c.name ≢ "") × (c.command ≢ "")

abbrev pub config_names : List ServerConfig → List String
config_names [] = []
config_names (c ∷ cs) = c.name ∷ config_names cs

register_server_complete :
    (c : ServerConfig) (b : Broker)
    → IsComplete c
    → register_server c b ≡ (record b { registry = register c b.registry }, ok tt)
unfolding register_server
register_server_complete c b (named, commanded) =
    ground (arith, eq_iff c.name "", eq_iff c.command "")

-- the entries after the registrations, as far as the tools go
abbrev known : String → Registry → Bool
known name r = is_some (find name r)

known-register :
    (c : ServerConfig) (name : String) (r : Registry)
    → known name (register c r) ≡ (c.name == name || known name r)
known-register c name r =
    rw (find-register c name r)
      (elim (Bool-cases (c.name == name)) [ inl same ↦ rw same refl | inr other ↦ rw other refl ])

tools-register :
    (c : ServerConfig) (name : String) (r : Registry)
    → get_tools name (register c r) ≡ (if c.name == name then [] else get_tools name r)
unfolding get_tools
tools-register c name r =
    rw (find-register c name r)
      (elim (Bool-cases (c.name == name)) [ inl same ↦ rw same refl | inr other ↦ rw other refl ])

known-modify :
    (c name : String) (ts : List ToolSummary) (r : Registry)
    → known name (modify (set_tools ts) c r) ≡ known name r
known-modify c name ts r =
    rw (find-modify (set_tools ts) c name r) (elim (Option-cases (find c r)) [
      | inl absent ↦ ground (arith, eq_iff c name, absent)
      | inr (e, there) ↦ ground (arith, eq_iff c name, there)
    ])

tools-modify :
    (c name : String) (ts : List ToolSummary) (r : Registry)
    → known c r ≡ true
    → get_tools name (modify (set_tools ts) c r) ≡ (if c == name then ts else get_tools name r)
unfolding get_tools
tools-modify c name ts r k =
    rw (find-modify (set_tools ts) c name r) (elim (Option-cases (find c r)) [
      | inl absent ↦ ground (arith, absent, k)
      | inr (e, there) ↦ ground (arith, eq_iff c name, there)
    ])

entered : List ServerConfig → Registry → Registry
entered [] r = r
entered (c ∷ cs) r = entered cs (register c r)

register_all-entered :
    (cs : List ServerConfig) (b : Broker)
    → All IsComplete cs
    → register_all cs b ≡ (record b { registry = entered cs b.registry }, ok tt)
unfolding register_all entered
register_all-entered [] b h = refl
register_all-entered (c ∷ cs) b h =
    rw (register_server_complete c b h.0)
      (register_all-entered cs (record b { registry = register c b.registry }) h.1)

known-entered :
    (cs : List ServerConfig) (name : String) (r : Registry)
    → known name (entered cs r) ≡ (elem name (config_names cs) || known name r)
unfolding entered
known-entered [] name r = refl
known-entered (c ∷ cs) name r =
    ground (arith, known-entered cs name (register c r), known-register c name r)

tools-entered :
    (cs : List ServerConfig) (name : String) (r : Registry)
    → get_tools name (entered cs r) ≡ (if elem name (config_names cs) then [] else get_tools name r)
unfolding entered
tools-entered [] name r = refl
tools-entered (c ∷ cs) name r =
    ground (arith, tools-entered cs name (register c r), tools-register c name r)

eq_texts : (s t : String) → (s == t) ≡ true → s ≡ t
eq_texts s t e = ground (arith, eq_iff s t, e)

if_true : (b v : Bool) → v ≡ true → (if b then true else v) ≡ true
if_true true v e = refl
if_true false v e = e

tools-populate :
    (tools : List ToolSummary) (cs : List ServerConfig) (b : Broker) (name : String)
    → ((n : String) → elem n (config_names cs) ≡ true → known n b.registry ≡ true)
    → get_tools name (populate tools cs b).registry
      ≡ (if elem name (config_names cs) then server_tools name tools else get_tools name b.registry)
unfolding populate set_server_tools
tools-populate tools [] b name h = refl
tools-populate tools (c ∷ cs) b name h =
    let ts = server_tools c.name tools in
    let rest = tools-populate tools cs (set_server_tools c.name ts b) name (λ n e.
      known-modify c.name n ts b.registry
      ∙ h n (if_true (c.name == n) (elem n (config_names cs)) e)) in
    let here_ = tools-modify c.name name ts b.registry (h c.name (rw (eq_refl c.name) refl)) in
    rest ∙ elim (Bool-cases (c.name == name)) [
      | inl same ↦
          let st = ap (λ n. server_tools n tools) (eq_texts c.name name same) in
          ground (arith, here_, same, st)
      | inr other ↦ ground (arith, here_, other)
    ]

or_true : (v w : Bool) → v ≡ true → (v || w) ≡ true
or_true v w e = rw e refl

overridden :
    (v : Bool) (xs ys : List ToolSummary) {zs : List ToolSummary}
    → zs ≡ (if v then [] else ys)
    → (if v then xs else zs) ≡ (if v then xs else ys)
overridden true xs ys e = refl
overridden false xs ys e = e

-- If every configuration has a name and a command, the registrations and the settings of the tools succeed,
-- and then each registered name has the tools that name it, in their order, whatever it had before, and any
-- other name has the tools that it had.
pub prepared-tools :
    (servers : List ServerConfig) (tools : List ToolSummary) (b : Broker)
    → All IsComplete servers
    → ((prepared servers tools b).1 ≡ ok tt)
      × ((name : String)
          → get_tools name (prepared servers tools b).0.registry ≡ (
              if elem name (config_names servers)
              then keep_if (λ t. t.server == name) tools
              else get_tools name b.registry))
unfolding prepared server_tools
prepared-tools servers tools b h =
    let r = entered servers b.registry in
    let b' = record b { registry = r } in
    let known_all = (λ (n : String) (e : elem n (config_names servers) ≡ true).
      known-entered servers n b.registry
      ∙ or_true (elem n (config_names servers)) (known n b.registry) e) in
    rw (register_all-entered servers b h) (
      refl,
      λ name.
          tools-populate tools servers b' name known_all
          ∙ overridden (elem name (config_names servers)) (server_tools name tools)
              (get_tools name b.registry) (tools-entered servers name b.registry),
    )
