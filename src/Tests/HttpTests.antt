-- ===== src/Tests/HttpTests.antt =====
-- An HTTP client at concrete inputs.
use neuralgentics_broker.Prelude.{
  ℕ, ◌≡◌, refl, true, false, none, some, List, [], ◌∷◌, eqb, if◌then◌else◌, length, get,
}
use neuralgentics_broker.Http.{
  HttpClient, HttpRequest, HttpResponse, Web, Reply, initialize, list_body, do_request_raw,
  scan_lines,
}
use neuralgentics_broker.Http.Stream.{written, first_end, scan_lines-written}
use neuralgentics_broker.Http.Session.{Sends, initialize-session}

-- an answer with a session, and an error in its body
abbrev answer : HttpResponse
answer = record { status = 200; session = "s1"; body = 1 ∷ []; lines = []; is_broken = false }

abbrev failure : Reply
failure = record { has_error = true; result = none }

abbrev success : Reply
success = record {
  has_error = false;
  result = some (record { payload = record { encoding = some [] }; tools = none });
}

abbrev web : Web
web = record {
  marshal = λ b. some (b.id ∷ []);
  send = λ n r. some answer;
  decode = λ bs. if eqb (length bs) 1 then some failure else some success;
}

abbrev client : HttpClient
client = record { base_url = "http://localhost"; auth_header = ""; session_id = "" }

initialize-session_example :
    (r : HttpRequest) × Sends web 1 (initialize web 0 client).0 list_body "application/json" r
    × (r.url ≡ "http://localhost")
    × (r.body ≡ 2 ∷ [])
    × (get "Mcp-Session-Id" r.headers ≡ some "s1")
    × (get "Authorization" r.headers ≡ none)
    × (get "Accept" r.headers ≡ some "application/json")
unfolding do_request_raw
initialize-session_example =
    initialize-session web 0 1 client answer failure list_body (2 ∷ []) "application/json" refl refl
      refl refl

-- an event without data, one in two lines, and an error
abbrev events : List (List (List ℕ))
events = [] ∷ ((1 ∷ []) ∷ (2 ∷ []) ∷ []) ∷ ((1 ∷ []) ∷ []) ∷ []

scan_lines-written_example : scan_lines web false [] (written events) ≡ first_end web events
scan_lines-written_example = scan_lines-written web events
