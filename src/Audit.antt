-- ===== src/Audit.antt =====
-- audit/audit.go and audit/helpers.go: the writer that buffers one record per tool call and flushes
-- them to a JSONL file and to a table. A method that holds the lock for its whole body is one step;
-- `Flush` and `Close` take the buffer under the lock and write it outside. What a sink has received
-- is part of the state. How many records the file takes before a write fails, and whether the
-- transaction commits, are arguments.
pub mod Sinks
pub mod Delivery
use neuralgentics_broker.Prelude.{
  ℕ, zero, suc, ◌+◌, ◌-◌, ◌*◌, ◌/◌, ◌%◌, ◌^◌, ◌≤◌, ◌<◌, String, ◌≡◌, refl, sym, ap, ◌∙◌, ◌≢◌, ◌↔◌,
  ◌⊎◌, inl, inr, Bool, true, false, not, ◌&&◌, ◌||◌, Option, none, some, List, [], ◌∷◌, ◌++◌, map,
  reverse, arith, ◌==◌, eq_iff, eq_refl, ltb, leb, eqb, if◌then◌else◌, Bool-cases, Option-cases,
  is_some, Result, is_ok, ok, err, length, is_empty, keep_if, take, All, length-append,
  length-keep_if, All-keep_if, elem, elem-append, elem-keep_if, Dict, get, put, delete, keys,
  has_key, IsMap, get-put, get-delete, has_key-get, has_key-put, has_key-delete, put-IsMap,
  delete-IsMap, dict_laws, text_le, text_le_total, sort_strings, IsSorted, sort_strings-IsSorted,
  elem-sort_strings, encode, bytes, later, last_index, last_index-lt,
}
use Prim.Native.Nat.{bit_and}
use neuralgentics_broker.Errors.{BrokerError}

-- A `map[string]any`, by what `json.Marshal` makes of it.
pub record Payload : Type 0 where
  pub encoding : Option (List ℕ)

-- `Error` is empty for no error; here it is the error whose text it holds.
pub record AuditRecord : Type 0 where
  pub ts : ℕ
  pub agent_role : String
  pub server : String
  pub tool : String
  pub args_hash : String
  pub success : Bool
  pub result_size : Option ℕ
  pub duration_ms : ℕ
  pub error : Option BrokerError

abbrev pub hash_encoding : (List ℕ → String) → Option (List ℕ) → String
hash_encoding digest none = "sha256:marshal-error"
hash_encoding digest (some encoded) = digest encoded

-- `HashArgs`; `digest` is the text "sha256:" with the first 16 bytes of the hash in hexadecimal
abbrev pub hash_args : (List ℕ → String) → Option Payload → String
hash_args digest none = ""
hash_args digest (some args) = hash_encoding digest args.encoding

abbrev pub encoded_length : Option (List ℕ) → Option ℕ
encoded_length none = none
encoded_length (some encoded) = some (length encoded)

-- `ResultSize`
abbrev pub result_size : Option Payload → Option ℕ
result_size none = none
result_size (some result) = encoded_length result.encoding

-- `BuildRecord`, at the time `now`
unfoldable pub build_record :
    (List ℕ → String)
    → ℕ
    → String
    → String
    → String
    → Option Payload
    → Option Payload
    → Option BrokerError
    → ℕ
    → AuditRecord
build_record digest now role server tool args result call_err start = record {
  ts = start;
  agent_role = role;
  server = server;
  tool = tool;
  args_hash = hash_args digest args;
  success = not (is_some call_err);
  result_size = result_size result;
  duration_ms = now - start;
  error = call_err;
}

abbrev pub sink_off : ℕ
sink_off = 0

-- `1 << iota` on the second line of the block
abbrev pub sink_jsonl : ℕ
sink_jsonl = 2

abbrev pub sink_pg : ℕ
sink_pg = 4

abbrev pub sink_jsonl_and_pg : ℕ
sink_jsonl_and_pg = 6

pub record AuditWriter : Type 0 where
  pub sink : ℕ
  pub batch_size : ℕ
  pub buf : List AuditRecord
  pub closed : Bool
  pub jsonl_file : Bool
  pub pg_db : Bool
  pub jsonl : List AuditRecord
  pub pg : List AuditRecord
  pub signals : ℕ

-- `Write`. The signal at a full batch has no waiter: only the count of signals shows it.
unfoldable pub write : AuditWriter → AuditRecord → AuditWriter
write w rec =
    if eqb w.sink sink_off
    then w
    else if w.closed
    then w
    else let w' = record w { buf = w.buf ++ rec ∷ [] } in
      if ltb 0 w.batch_size && leb w.batch_size (length w'.buf)
      then record w' { signals = w'.signals + 1 }
      else w'

-- How the sinks answer one batch: how many records the file takes before it fails, if it does, and
-- whether the transaction commits.
pub record Answer : Type 0 where
  pub fails_after : Option ℕ
  pub commits : Bool

-- `writeJSONL`: the records that reach the file, and whether an error is returned
abbrev pub write_jsonl : Option ℕ → List AuditRecord → List AuditRecord × Bool
write_jsonl none recs = (recs, false)
write_jsonl (some n) recs = (take n recs, ltb n (length recs))

-- `writePG`: one transaction
abbrev pub write_pg : Bool → List AuditRecord → List AuditRecord × Bool
write_pg true recs = (recs, false)
write_pg false recs = ([], true)

-- `writeAll`: both sinks are tried; the Boolean says that an error is returned
unfoldable pub write_all : Answer → AuditWriter → List AuditRecord → AuditWriter × Bool
write_all a w [] = (w, false)
write_all a w (r ∷ recs) =
    let (lines, file_err) =
      if w.jsonl_file then write_jsonl a.fails_after (r ∷ recs) else ([], false) in
    let (rows, pg_err) = if w.pg_db then write_pg a.commits (r ∷ recs) else ([], false) in
    (record w { jsonl = w.jsonl ++ lines; pg = w.pg ++ rows }, file_err || pg_err)

-- `Flush`, with `takeBufferLocked`
unfoldable pub flush : Answer → AuditWriter → AuditWriter × Bool
unfolding write_all
flush a w = if eqb w.sink sink_off then (w, false) else write_all a (record w { buf = [] }) w.buf

-- `Close` of a writer that is not nil, where the files close without an error
unfoldable pub close : Answer → AuditWriter → AuditWriter × Bool
unfolding write_all
close a w =
    if w.closed
    then (w, false)
    else let (w', failed) = write_all a (record w { closed = true; buf = [] }) w.buf in
      (record w' { jsonl_file = false; pg_db = false }, failed)
