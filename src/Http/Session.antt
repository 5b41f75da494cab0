-- ===== src/Http/Session.antt =====
-- The session of a client of proxy/http_client.go, across its requests.
use neuralgentics_broker.Prelude.{
  ℕ, String, ◌≡◌, refl, ◌∙◌, inl, inr, Option, none, some, List, [], arith, ◌==◌, eq_iff,
  if◌then◌else◌, Bool-cases, Dict, get, put, get-put,
}
use neuralgentics_broker.Http.{
  HttpClient, HttpRequest, RpcBody, HttpResponse, Web, Reply, with_header, headers_of,
  do_request_raw, do_request, initialize, initialize_body,
}

-- a header that is not empty
abbrev pub if_set : String → Option String
if_set value = if value == "" then none else some value

get-with_header :
    (k name value : String) (m : Dict String)
    → get name m ≡ none
    → get k (with_header name value m) ≡ (if name == k then if_set value else get k m)
get-with_header k name value m h = elim (Bool-cases (value == "")) [
  | inl e ↦ rw e (elim (Bool-cases (name == k)) [
    | inl same ↦ rw same (ground (arith, h, (eq_iff name k).0 same))
    | inr other ↦ rw other refl
  ])
  | inr n ↦ rw n (get-put k name value m)
]

-- The session and authorization headers of every request are those of the client, where they are not
-- empty.
headers_of_lem :
    (h : HttpClient) (accept : String)
    → (get "Mcp-Session-Id" (headers_of h accept) ≡ if_set h.session_id)
      × (get "Authorization" (headers_of h accept) ≡ if_set h.auth_header)
      × (get "Accept" (headers_of h accept) ≡ some accept)
unfolding headers_of
headers_of_lem h accept =
    let plain = put "Accept" accept (put "Content-Type" "application/json" []) in
    let authorized = with_header "Authorization" h.auth_header plain in
    let known = λ (k : String). get-with_header k "Authorization" h.auth_header plain refl in
    let fresh : get "Mcp-Session-Id" authorized ≡ none = known "Mcp-Session-Id" in
    let all = λ (k : String). get-with_header k "Mcp-Session-Id" h.session_id authorized fresh in
    (
      all "Mcp-Session-Id",
      all "Authorization" ∙ known "Authorization",
      all "Accept" ∙ known "Accept",
    )

-- Whatever the surroundings answer to requests from here on, the client sends for this body exactly this
-- request.
abbrev pub Sends : Web → ℕ → HttpClient → RpcBody → String → HttpRequest → Type 0
Sends w m h body accept r =
    (send : ℕ → HttpRequest → Option HttpResponse)
    → do_request_raw (record w { send = send }) m h body accept ≡ send m r

do_request_raw-Sends :
    (w : Web) (m : ℕ) (h : HttpClient) (body : RpcBody) (accept : String) (bs : List ℕ)
    → w.marshal body ≡ some bs
    → Sends w m h body accept
        (record { url = h.base_url; headers = headers_of h accept; body = bs })
unfolding do_request_raw
do_request_raw-Sends w m h body accept bs e send = rw e refl

-- After an `Initialize` that was answered with status 200 and JSON, be it an error, every further
-- request whose body can be encoded is sent, to the same address, with that body, with the session of
-- that answer and the authorization of the client, each if it is not empty, and with the kind of answer
-- that it accepts.
pub initialize-session :
    (w : Web) (n m : ℕ) (h : HttpClient) (raw : HttpResponse) (reply : Reply) (body : RpcBody)
    (bs : List ℕ) (accept : String)
    → do_request_raw w n h initialize_body "application/json" ≡ some raw
    → raw.status ≡ 200
    → w.decode raw.body ≡ some reply
    → w.marshal body ≡ some bs
    → (r : HttpRequest) × Sends w m (initialize w n h).0 body accept r
      × (r.url ≡ h.base_url)
      × (r.body ≡ bs)
      × (get "Mcp-Session-Id" r.headers ≡ if_set raw.session)
      × (get "Authorization" r.headers ≡ if_set h.auth_header)
      × (get "Accept" r.headers ≡ some accept)
unfolding initialize do_request
initialize-session w n m h raw reply body bs accept sent good read coded =
    let h' = record h { session_id = raw.session } in
    let after = headers_of_lem h' accept in
    let there = do_request_raw-Sends w m h' body accept bs coded in
    rw (sent, good, read)
      (
        record { url = h.base_url; headers = headers_of h' accept; body = bs },
        there,
        refl,
        refl,
        after.0,
        after.1,
        after.2,
      )
