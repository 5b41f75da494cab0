-- ===== src/Rpc.antt =====
-- proxy/proxy.go: the concurrent part of `MCPProxy`. The goroutines are the callers of `sendRPC` and
-- one reader for each `StartReader`; between two accesses to what they share, any other may move. A
-- move is what one goroutine does in one such access, and a move that is not its turn changes nothing.
-- The channel of a request is named by the request's id, since `sendRPC` makes one for each.
pub mod Goroutines
pub mod Invariant
pub mod Callers
pub mod Readers
pub mod Safety
pub mod Endings
pub mod Beside
pub mod Calm
pub mod Advance
pub mod Progress
pub mod Lively
pub mod Twice
use neuralgentics_broker.Prelude.{
  ℕ, zero, suc, ◌+◌, ◌-◌, ◌*◌, ◌/◌, ◌%◌, ◌^◌, ◌≤◌, ◌<◌, String, ◌≡◌, refl, sym, ap, ◌∙◌, ◌≢◌, ◌↔◌,
  ◌⊎◌, inl, inr, Bool, true, false, not, ◌&&◌, ◌||◌, Option, none, some, List, [], ◌∷◌, ◌++◌, map,
  reverse, arith, ◌==◌, eq_iff, eq_refl, ltb, leb, eqb, if◌then◌else◌, Bool-cases, Option-cases,
  is_some, Result, is_ok, put_at, ok, err, length, is_empty, keep_if, take, All, length-append,
  length-keep_if, All-keep_if, elem, elem-append, elem-keep_if, Dict, get, put, delete, keys,
  has_key, IsMap, get-put, get-delete, has_key-get, has_key-put, has_key-delete, put-IsMap,
  delete-IsMap, dict_laws, text_le, text_le_total, sort_strings, IsSorted, sort_strings-IsSorted,
  elem-sort_strings, encode, bytes, later, last_index, last_index-lt, eq_bytes, drop, starts_with,
  contains, has_suffix, one_more, index,
}
use neuralgentics_broker.Prelude.Int.{ℤ}

pub record JsonrpcError : Type 0 where
  pub code : ℤ
  pub message : String

pub record JsonrpcResponse : Type 0 where
  pub id : ℕ
  pub result : List ℕ
  pub error : Option JsonrpcError

-- What a line holds: nothing, no JSON, an id with the rest of a response or without, a negative id, or
-- no id. A notification has its method, if it can be read.
pub data Line : Type 0 where
  empty_line malformed_line bad_response negative_id : Line
  response : JsonrpcResponse → Line
  notification : Option String → Line

-- a channel with room for one response
pub record Channel : Type 0 where
  pub buffer : Option JsonrpcResponse
  pub is_closed : Bool

pub data CallError : Type 0 where
  not_started marshal_failed write_failed proxy_stopped timed_out : CallError

-- where a call of `sendRPC` is
pub data Caller : Type 0 where
  idle : Caller
  registered waiting : ℕ → Caller
  leaving : ℕ → Result CallError JsonrpcResponse → Caller
  returned : Result CallError JsonrpcResponse → Caller

-- where a reader is: before `Scan`, with a line and before the first lock, after it, past the test
-- whether to stop, about to send, or between the end of the loop and `close(p.readerDone)`
pub data Reader : Type 0 where
  unborn scanning exiting gone : Reader
  scanned : Line → Reader
  checking : Line → Option ℕ → Reader
  routing : Line → Reader
  sending : JsonrpcResponse → Reader

pub record McpProxy : Type 0 where
  pub next_id : ℕ
  pub pending : List ℕ
  pub reader_ch : Option ℕ
  pub reader_done : ℕ
  pub running : Bool
  pub on_notify : Bool

-- the proxy, the channels with the count of those for readers, the goroutines, the methods that the
-- notification handler was called with, and whether a goroutine has panicked
pub record System : Type 0 where
  pub proxy : McpProxy
  pub channel : ℕ → Channel
  pub is_closed_reader_ch : ℕ → Bool
  pub is_closed_reader_done : ℕ → Bool
  pub made : ℕ
  pub caller : ℕ → Caller
  pub reader : ℕ → Reader
  pub notified : List String
  pub panicked : Bool

abbrev pub elem_id : ℕ → List ℕ → Bool
elem_id n [] = false
elem_id n (m ∷ ms) = eqb m n || elem_id n ms

-- `delete(p.pending, id)`
abbrev pub remove_id : ℕ → List ℕ → List ℕ
remove_id n [] = []
remove_id n (m ∷ ms) = let rest = remove_id n ms in if eqb m n then rest else m ∷ rest

-- `NewMCPProxy`, with no goroutine
unfoldable pub new_system : System
new_system = record {
  proxy = record {
    next_id = 1;
    pending = [];
    reader_ch = none;
    reader_done = 0;
    running = false;
    on_notify = false;
  };
  channel = λ n. record { buffer = none; is_closed = false };
  is_closed_reader_ch = λ n. false;
  is_closed_reader_done = λ n. false;
  made = 1;
  caller = λ k. idle;
  reader = λ k. unborn;
  notified = [];
  panicked = false;
}

abbrev pub set_caller : ℕ → Caller → System → System
set_caller k c s = record s { caller = put_at s.caller k c }

abbrev pub set_reader : ℕ → Reader → System → System
set_reader k r s = record s { reader = put_at s.reader k r }

abbrev pub forget : ℕ → System → System
forget id s = record s { proxy = record s.proxy { pending = remove_id id s.proxy.pending } }

-- `sendRPC` up to the first unlock
unfoldable pub register_request : ℕ → System → System
register_request k s =
    if s.proxy.running
    then set_caller k (registered s.proxy.next_id) (record s {
      proxy = record s.proxy {
        next_id = s.proxy.next_id + 1;
        pending = s.proxy.next_id ∷ s.proxy.pending;
      };
      channel = put_at s.channel s.proxy.next_id (record { buffer = none; is_closed = false });
    })
    else set_caller k (returned (err not_started)) s

-- `close(ch)` on a closed channel panics.
abbrev pub close_reader_ch : Option ℕ → System → System
close_reader_ch none s = s
close_reader_ch (some ch) s = record s {
  is_closed_reader_ch = put_at s.is_closed_reader_ch ch true;
  panicked = s.panicked || s.is_closed_reader_ch ch;
}

-- `StartReader`, whose goroutine is reader `k`
unfoldable pub start_reader : ℕ → System → System
start_reader k s =
    let s' = close_reader_ch s.proxy.reader_ch s in
    set_reader k scanning (record s' {
      proxy = record s'.proxy { reader_ch = some s.made; reader_done = s.made; running = true };
      made = s.made + 1;
    })

-- the loop of `Stop`
unfoldable pub close_pending : List ℕ → System → System
close_pending [] s = s
close_pending (id ∷ ids) s = close_pending ids (
    forget id (record s {
      channel = put_at s.channel id (record (s.channel id) { is_closed = true });
      panicked = s.panicked || (s.channel id).is_closed;
    }))

-- `Stop`
unfoldable pub stop : System → System
unfolding close_pending
stop s =
    let s' = close_reader_ch s.proxy.reader_ch s in
    close_pending s.proxy.pending
      (record s' { proxy = record s'.proxy { reader_ch = none; running = false } })
