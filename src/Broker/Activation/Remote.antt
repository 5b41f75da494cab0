-- ===== src/Broker/Activation/Remote.antt =====
-- Activations and the HTTP clients that they leave.
use mathlib.Core.Option.{map as option_map}
use neuralgentics_broker.Prelude.{
  String, ◌≡◌, refl, ◌∙◌, inl, inr, true, Option, none, some, List, [], ◌∷◌, ◌==◌, eq_iff, eq_refl,
  Bool-cases, Option-cases, is_some, is_ok, ok, err, keep_if, All, get, put,
}
use neuralgentics_broker.Access.{AccessControl, role_orchestrator, can_access}
use neuralgentics_broker.Errors.{Outcome}
use neuralgentics_broker.Types.{ServerConfig, ToolSummary}
use neuralgentics_broker.Registry.{find, get_tools, set_config, set_runtime}
use neuralgentics_broker.Registry.Laws.{find-modify}
use neuralgentics_broker.Host.{Host}
use neuralgentics_broker.Clients.{
  Client, stdio_client, http_client, new_client_for_config, http_tools,
}
use neuralgentics_broker.Broker.{
  Broker, Action, ask, pure, follow, ◌>>=◌, ◌>>◌, change, modify_entry,
}
use neuralgentics_broker.Broker.Keeps.{Anywhere, IsLocal}
use neuralgentics_broker.Broker.Lifecycle.{start_server, expect}
use neuralgentics_broker.Broker.Lifecycle.Registered.{start_server-Keeps}
use neuralgentics_broker.Broker.Activation.Local.{client_tools-Keeps}
use neuralgentics_broker.Broker.Activation.{
  client_tools, failed_attempt, activate_http, activate_stdio, roll_back,
}
use neuralgentics_broker.Broker.Calls.{Request, route, client_call}

-- the HTTP client of a server
abbrev pub client_of : String → Broker → Option Client
client_of name b = get name b.http_clients

client_of-IsLocal :
    (name : String) (o : Option Client) → IsLocal Anywhere (λ b. client_of name b ≡ o)
client_of-IsLocal name o = record {
  asks = λ n b h. h;
  proxies = λ p b h. h;
  entries = λ f other on k b h. h;
  owns = λ other b e on h there. tt;
}

client_of-roll_back :
    (name other : String) (old : ServerConfig) (b : Broker) (r : Outcome (Unit {0}))
    → client_of other (roll_back name old b r).0 ≡ client_of other b
client_of-roll_back name other old b (ok u) = refl
client_of-roll_back name other old b (err e) = refl

client_of-activate_stdio :
    (host : Host) (name : String) (sc : ServerConfig) (b : Broker)
    → client_of name (activate_stdio host name sc b).0 ≡ client_of name b
unfolding activate_stdio
client_of-activate_stdio host name sc b = elim (Option-cases (find name b.registry)) [
  | inl absent ↦ rw (absent, activate_stdio) refl
  | inr (e, there) ↦
      rw (there, activate_stdio)
        (let b1 = (modify_entry (set_config sc) name b).0 in
          let started = start_server host name b1 in
          client_of-roll_back name name e.config started.0 started.1
          ∙ (start_server-Keeps (client_of-IsLocal name (client_of name b)) host name tt).at b1
              refl)
]

-- If a server has an HTTP client, from an earlier activation, then also after an activation over
-- stdio, whether it succeeds or not, every call to the server goes to that client, not to the process.
pub activate_stdio-route :
    (host : Host) (q : Request) (sc : ServerConfig) (client : Client) (b : Broker)
    → client_of q.server b ≡ some client
    → let b' = (activate_stdio host q.server sc b).0 in
      route host q b' ≡ client_call host q client b'
unfolding route
activate_stdio-route host q sc client b h =
    rw (client_of-activate_stdio host q.server sc b ∙ h) refl

-- a property of what an action returns
Holds : {A : Type 0} → (A → Type 0) → Outcome A → Type 0
Holds Q (ok a) = Q a
Holds Q (err e) = Unit

Holds-follow :
    {A B : Type 0} (Q : B → Type 0) (f : A → Action B) (b : Broker) (r : Outcome A)
    → ((a : A) (b' : Broker) → Holds Q (f a b').1)
    → Holds Q (follow f b r).1
unfolding Holds
Holds-follow Q f b (ok a) k = k a b
Holds-follow Q f b (err e) k = tt

record Returns {A : Type 0} (Q : A → Type 0) (m : Action A) : Type 0 where
  at : (b : Broker) → Holds Q (m b).1

Returns-bind :
    {A B : Type 0} {Q : B → Type 0} (m : Action A) (f : A → Action B)
    → ((a : A) → Returns Q (f a))
    → Returns Q (m >>= f)
Returns-bind {Q} m f k = record { at = λ b. Holds-follow Q f (m b).0 (m b).1 (λ a b'. (k a).at b') }

abbrev Serverless : List ToolSummary → Type 0
Serverless ts = All (λ (t : ToolSummary). t.server ≡ "") ts

http_tools-Serverless : (ts : List (String × String)) → Serverless (http_tools ts)
http_tools-Serverless [] = tt
http_tools-Serverless ((name, description) ∷ ts) = (refl, http_tools-Serverless ts)

client_tools-Serverless : (host : Host) (c : Client) → Returns Serverless (client_tools host c)
unfolding Holds
client_tools-Serverless host (stdio_client c) = record { at = λ b. tt }
client_tools-Serverless host (http_client url auth) =
    Returns-bind (ask (λ n. host.http_initialize n url)) _ (λ hello.
      Returns-bind (expect failed_attempt hello) _ (λ _.
        Returns-bind (ask (λ n. host.http_list_tools n url)) _ (λ tools.
          Returns-bind (expect failed_attempt tools) (λ listed. pure (http_tools listed))
            (λ listed. record { at = λ b. http_tools-Serverless listed }))))

keep_if-Serverless :
    (access : AccessControl) (role : String) (ts : List ToolSummary)
    → can_access access role "" ≡ true
    → Serverless ts
    → keep_if (λ (t : ToolSummary). can_access access role t.server) ts ≡ ts
keep_if-Serverless access role [] h s = refl
keep_if-Serverless access role (t ∷ ts) h s =
    rw (s.0, h, keep_if-Serverless access role ts h s.1) refl

can_access-unlisted :
    (access : AccessControl) (role name : String)
    → get name access.server_roles ≡ none
    → can_access access role name ≡ true
unfolding can_access
can_access-unlisted access role name h = elim (Bool-cases (role == role_orchestrator)) [
  | inl e ↦ rw e refl
  | inr n ↦ rw (n, h) refl
]

is_some-option_map :
    {A B : Type 0} (f : A → B) (o : Option A) → is_some (option_map f o) ≡ is_some o
is_some-option_map f none = refl
is_some-option_map f (some a) = refl

found-IsLocal : (name : String) → IsLocal Anywhere (λ b. is_some (find name b.registry) ≡ true)
found-IsLocal name = record {
  asks = λ n b h. h;
  proxies = λ p b h. h;
  owns = λ other b e on h there. tt;
  entries = λ f other on k b h. elim (Bool-cases (other == name)) [
    | inl same ↦
        rw
          (
            find-modify,
            same,
            is_some-option_map f (find other b.registry),
            (eq_iff other name).0 same,
          )
          h
    | inr differ ↦ rw (find-modify, differ) h
  ];
}

published_tools :
    (name : String) (sc : ServerConfig) (client : Client) (b : Broker)
    (r : Outcome (List ToolSummary)) (access : AccessControl) (role : String)
    → can_access access role "" ≡ true
    → Holds Serverless r
    → is_some (find name b.registry) ≡ true
    → let done =
        follow
          (λ tools. do
            modify_entry (set_config sc) name
            modify_entry (set_runtime none none none tools) name
            change (λ b. record b { http_clients = put name client b.http_clients }))
          b
          r in
      is_ok done.1 ≡ true
      → keep_if
          (λ (t : ToolSummary). can_access access role t.server)
          (get_tools name done.0.registry)
        ≡ get_tools name done.0.registry
unfolding Holds get_tools
published_tools name sc client b (ok tools) access role h s there i =
    elim (Option-cases (find name b.registry)) [
      | inl absent ↦ cc
      | inr (e, found) ↦
          rw (find-modify, eq_refl name, find-modify, eq_refl name, found)
            (keep_if-Serverless access role tools h s)
    ]
published_tools name sc client b (err e) access role h s there i = cc

-- After a successful activation over HTTP, unless the empty name has a list of roles, the filter of
-- `MatchIntent` drops none of the server's tools for any role, also where the role may not call the
-- server.
activate_http-unfiltered :
    (host : Host) (name role : String) (sc : ServerConfig) (b : Broker)
    → is_some (find name b.registry) ≡ true
    → get "" b.access.server_roles ≡ none
    → is_ok (activate_http host name sc b).1 ≡ true
    → let b' = (activate_http host name sc b).0 in
      keep_if (λ (t : ToolSummary). can_access b.access role t.server) (get_tools name b'.registry)
      ≡ get_tools name b'.registry
unfolding activate_http
activate_http-unfiltered host name role sc b there open_name =
    elim (Option-cases (new_client_for_config sc)) [
      | inl absent ↦ rw (absent, activate_http) (λ i. cc)
      | inr (client, found) ↦
          rw (found, activate_http)
            (let asked = client_tools host client b in
              published_tools name sc client asked.0 asked.1 b.access role
                (can_access-unlisted b.access role "" open_name)
                ((client_tools-Serverless host client).at b)
                ((client_tools-Keeps (found-IsLocal name) host client).at b there))
    ]
