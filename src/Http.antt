-- ===== src/Http.antt =====
-- proxy/http_client.go: the requests of an HTTP client, the session that it keeps, and what it makes of
-- an answer, JSON or a stream of events. JSON and the transport are arguments. Each answer has the
-- number of its request, so that a server may answer the same request differently.
pub mod Stream
pub mod Session
use neuralgentics_broker.Prelude.{
  ℕ, zero, suc, ◌+◌, ◌-◌, ◌*◌, ◌/◌, ◌%◌, ◌^◌, ◌≤◌, ◌<◌, String, ◌≡◌, refl, sym, ap, ◌∙◌, ◌≢◌, ◌↔◌,
  ◌⊎◌, inl, inr, Bool, true, false, not, ◌&&◌, ◌||◌, Option, none, some, List, [], ◌∷◌, ◌++◌, map,
  reverse, arith, ◌==◌, eq_iff, eq_refl, ltb, leb, eqb, if◌then◌else◌, Bool-cases, Option-cases,
  is_some, Result, is_ok, ok, err, length, is_empty, keep_if, take, All, length-append,
  length-keep_if, All-keep_if, elem, elem-append, elem-keep_if, Dict, get, put, delete, keys,
  has_key, IsMap, get-put, get-delete, has_key-get, has_key-put, has_key-delete, put-IsMap,
  delete-IsMap, dict_laws, text_le, text_le_total, sort_strings, IsSorted, sort_strings-IsSorted,
  elem-sort_strings, encode, bytes, later, last_index, last_index-lt, eq_bytes, drop, starts_with,
  contains, has_suffix, one_more, index,
}
use neuralgentics_broker.Audit.{Payload}
use neuralgentics_broker.Clients.{trim_slashes, value_or_empty}

pub record HttpClient : Type 0 where
  pub base_url : String
  pub auth_header : String
  pub session_id : String

-- a JSON-RPC request: its id, its method, and the tool with its arguments, if it has parameters of a call
pub record RpcBody : Type 0 where
  pub id : ℕ
  pub method : String
  pub tool : Option (String × Option Payload)

pub record HttpRequest : Type 0 where
  pub url : String
  pub headers : Dict String
  pub body : List ℕ

-- An item of `tools` is a map, from which texts are read, or not.
pub data ToolItem : Type 0 where
  tool_map : Option String → Option String → ToolItem
  no_map : ToolItem

-- `result`, where it is a map: its encoding, and its `tools`, where that is a list
pub record ResultMap : Type 0 where
  pub payload : Payload
  pub tools : Option (List ToolItem)

-- a decoded response: whether it has an `error`, and its `result`, where that is a map
pub record Reply : Type 0 where
  pub has_error : Bool
  pub result : Option ResultMap

-- an answer: its status, the header `Mcp-Session-Id`, its body, and the body as lines, with whether a
-- line could not be scanned after them
pub record HttpResponse : Type 0 where
  pub status : ℕ
  pub session : String
  pub body : List ℕ
  pub lines : List (List ℕ)
  pub is_broken : Bool

pub record Web : Type 0 where
  pub marshal : RpcBody → Option (List ℕ)
  pub send : ℕ → HttpRequest → Option HttpResponse
  pub decode : List ℕ → Option Reply

pub data HttpError : Type 0 where
  request_failed decode_failed reply_error missing_result scan_failed no_result : HttpError
  status_error : ℕ → HttpError

abbrev pub Outcome : Type 0 → Type 0
Outcome = Result HttpError

-- `NewHTTPClient`
unfoldable pub new_http_client : String → String → HttpClient
unfolding trim_slashes
new_http_client base_url auth_header = record {
  base_url = trim_slashes base_url;
  auth_header = auth_header;
  session_id = "";
}

-- the headers of a request
abbrev pub with_header : String → String → Dict String → Dict String
with_header name value m = if value == "" then m else put name value m

unfoldable pub headers_of : HttpClient → String → Dict String
headers_of h accept = with_header "Mcp-Session-Id" h.session_id (
    with_header "Authorization" h.auth_header
      (put "Accept" accept (put "Content-Type" "application/json" [])))

-- `doRequestRaw`, request number `n`
abbrev pub send_marshalled : Web → ℕ → HttpClient → String → Option (List ℕ) → Option HttpResponse
send_marshalled w n h accept none = none
send_marshalled w n h accept (some bs) =
    w.send n (record { url = h.base_url; headers = headers_of h accept; body = bs })

unfoldable pub do_request_raw : Web → ℕ → HttpClient → RpcBody → String → Option HttpResponse
unfolding headers_of
do_request_raw w n h body accept = send_marshalled w n h accept (w.marshal body)

-- `doRequest`: the response and the session
abbrev pub decoded : String → Option Reply → Outcome (Reply × String)
decoded session none = err decode_failed
decoded session (some reply) = ok (reply, session)

abbrev pub checked : Web → Option HttpResponse → Outcome (Reply × String)
checked w none = err request_failed
checked w (some raw) =
    if eqb raw.status 200
    then decoded raw.session (w.decode raw.body)
    else err (status_error raw.status)

unfoldable pub do_request : Web → ℕ → HttpClient → RpcBody → Outcome (Reply × String)
unfolding do_request_raw
do_request w n h body = checked w (do_request_raw w n h body "application/json")

abbrev pub initialize_body : RpcBody
initialize_body = record { id = 1; method = "initialize"; tool = none }

abbrev pub list_body : RpcBody
list_body = record { id = 2; method = "tools/list"; tool = none }

-- `Initialize`: the session is kept even if the response is an error
abbrev pub initialized : HttpClient → Outcome (Reply × String) → HttpClient × Outcome (Unit {0})
initialized h (err e) = (h, err e)
initialized h (ok (reply, session)) =
    (record h { session_id = session }, if reply.has_error then err reply_error else ok tt)

unfoldable pub initialize : Web → ℕ → HttpClient → HttpClient × Outcome (Unit {0})
unfolding do_request
initialize w n h = initialized h (do_request w n h initialize_body)

abbrev pub result_of : Reply → Outcome ResultMap
result_of reply = elim reply.result [ none ↦ err missing_result | some r ↦ ok r ]

abbrev pub answered : Outcome (Reply × String) → Outcome ResultMap
answered (err e) = err e
answered (ok (reply, session)) = if reply.has_error then err reply_error else result_of reply

-- `ListTools`, as names and descriptions
unfoldable pub tool_items : List ToolItem → List (String × String)
tool_items [] = []
tool_items (no_map ∷ ts) = tool_items ts
tool_items (tool_map name description ∷ ts) =
    (value_or_empty name, value_or_empty description) ∷ tool_items ts

abbrev pub listed_tools : Option (List ToolItem) → List (String × String)
listed_tools none = []
listed_tools (some ts) = tool_items ts

abbrev pub listed : Outcome ResultMap → Outcome (List (String × String))
listed (err e) = err e
listed (ok r) = ok (listed_tools r.tools)

unfoldable pub list_tools : Web → ℕ → HttpClient → Outcome (List (String × String))
unfolding do_request tool_items
list_tools w n h = listed (answered (do_request w n h list_body))

-- `Call`
abbrev pub paid : Outcome ResultMap → Outcome Payload
paid (err e) = err e
paid (ok r) = ok r.payload

unfoldable pub call_tool : Web → ℕ → HttpClient → String → Option Payload → Outcome Payload
unfolding do_request
call_tool w n h name args = paid (
    answered
      (do_request w n h (record { id = 3; method = "tools/call"; tool = some (name, args) })))

-- the end of an event in `CallSSE`: what the loop returns there, if it does
abbrev pub reply_end : Option Reply → Option (Outcome Payload)
reply_end none = none
reply_end (some reply) = elim reply.result [
  | some r ↦ some (ok r.payload)
  | none ↦ if reply.has_error then some (err reply_error) else none
]

abbrev pub event_end : Web → List ℕ → Option (Outcome Payload)
event_end w bs = if is_empty bs then none else reply_end (w.decode bs)

abbrev pub data_prefix : List ℕ
data_prefix = b'd' ∷ b'a' ∷ b't' ∷ b'a' ∷ b':' ∷ b' ' ∷ []

abbrev pub or_go_on : Outcome Payload → Option (Outcome Payload) → Outcome Payload
or_go_on rest none = rest
or_go_on rest (some o) = o

-- the loop over the lines, with the data of the event so far
unfoldable pub scan_lines : Web → Bool → List ℕ → List (List ℕ) → Outcome Payload
unfolding starts_with drop
scan_lines w is_broken acc [] = if is_broken then err scan_failed else err no_result
scan_lines w is_broken acc ([] ∷ ls) = or_go_on (scan_lines w is_broken [] ls) (event_end w acc)
scan_lines w is_broken acc ((c ∷ l) ∷ ls) =
    scan_lines w is_broken (if starts_with data_prefix (c ∷ l) then acc ++ drop 6 (c ∷ l) else acc)
      ls

-- `CallSSE`: the status is not looked at
abbrev pub streamed : Web → Option HttpResponse → Outcome Payload
streamed w none = err request_failed
streamed w (some raw) = scan_lines w raw.is_broken [] raw.lines

unfoldable pub call_sse : Web → ℕ → HttpClient → String → Option Payload → Outcome Payload
unfolding do_request_raw scan_lines
call_sse w n h name args = streamed w (
    do_request_raw w n h (record { id = 4; method = "tools/call"; tool = some (name, args) })
      "text/event-stream")
