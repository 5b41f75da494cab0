-- ===== src/Audit/Sinks.antt =====
-- Which sinks audit.go opens, and the configuration that cmd/broker/main.go asks it for.
use neuralgentics_broker.Prelude.{
  ℕ, String, ◌≡◌, refl, ◌≢◌, Bool, true, false, not, ◌&&◌, [], arith, ◌==◌, eq_iff, eqb,
  if◌then◌else◌, Result, ok, err,
}
use Prim.Native.Nat.{bit_and}
use neuralgentics_broker.Audit.{AuditWriter, sink_off, sink_jsonl, sink_pg, sink_jsonl_and_pg}

pub data AuditError : Type 0 where
  unknown_sink : String → AuditError
  path_required mkdir_failed open_failed url_required open_pg_failed schema_failed : AuditError

-- `ParseSink`
unfoldable pub parse_sink : String → Result AuditError ℕ
parse_sink s =
    if s == "off"
    then ok sink_off
    else if s == "jsonl"
    then ok sink_jsonl
    else if s == "jsonl+pg"
    then ok sink_jsonl_and_pg
    else err (unknown_sink s)

pub record Config : Type 0 where
  pub sink : ℕ
  pub jsonl_path : String
  pub pg_url : String
  pub batch_size : ℕ

-- `cfg.Sink&bit != 0`
abbrev pub has_sink : ℕ → ℕ → Bool
has_sink sink bit = not (eqb (bit_and sink bit) 0)

-- How the operating system and the database answer `NewAuditWriter`.
pub record Openings : Type 0 where
  pub mkdir : Bool
  pub open_file : Bool
  pub open_db : Bool
  pub apply_schema : Bool

-- the two blocks that open a sink: whether it is open, or the error
abbrev pub open_jsonl : Openings → Config → Result AuditError Bool
open_jsonl o cfg =
    if not (has_sink cfg.sink sink_jsonl)
    then ok false
    else if cfg.jsonl_path == ""
    then err path_required
    else if not o.mkdir
    then err mkdir_failed
    else if not o.open_file
    then err open_failed
    else ok true

abbrev pub open_pg : Openings → Config → Result AuditError Bool
open_pg o cfg =
    if not (has_sink cfg.sink sink_pg)
    then ok false
    else if cfg.pg_url == ""
    then err url_required
    else if not o.open_db
    then err open_pg_failed
    else if not o.apply_schema
    then err schema_failed
    else ok true

abbrev pub fresh : Config → Bool → Bool → AuditWriter
fresh cfg jsonl_file pg_db = record {
  sink = cfg.sink;
  batch_size = cfg.batch_size;
  buf = [];
  closed = false;
  jsonl_file = jsonl_file;
  pg_db = pg_db;
  jsonl = [];
  pg = [];
  signals = 0;
}

abbrev pub with_pg : Config → Bool → Result AuditError Bool → Result AuditError AuditWriter
with_pg cfg jsonl_file (ok pg_db) = ok (fresh cfg jsonl_file pg_db)
with_pg cfg jsonl_file (err e) = err e

abbrev pub with_jsonl : Openings → Config → Result AuditError Bool → Result AuditError AuditWriter
with_jsonl o cfg (ok jsonl_file) = with_pg cfg jsonl_file (open_pg o cfg)
with_jsonl o cfg (err e) = err e

-- `NewAuditWriter`; the file and the table start empty here
unfoldable pub new_audit_writer : Openings → Config → Result AuditError AuditWriter
new_audit_writer o cfg =
    if eqb cfg.sink sink_off
    then ok (fresh cfg false false)
    else with_jsonl o cfg (open_jsonl o cfg)

-- The flags of the command line; an empty text is a flag that is not given.
pub record Flags : Type 0 where
  pub audit : String
  pub audit_jsonl_path : String
  pub audit_pg_url : String

abbrev pub or_default : String → String → String
or_default s d = if s == "" then d else s

-- the downgrade of `main`
abbrev pub downgraded : Config → Config
downgraded cfg =
    if eqb cfg.sink sink_jsonl_and_pg && cfg.pg_url == ""
    then record cfg { sink = sink_jsonl }
    else cfg

abbrev pub configure_sink : String → Flags → Result AuditError ℕ → Result AuditError Config
configure_sink default_path flags (err e) = err e
configure_sink default_path flags (ok sink) = ok (
    downgraded (record {
      sink = sink;
      jsonl_path = or_default flags.audit_jsonl_path default_path;
      pg_url = flags.audit_pg_url;
      batch_size = 100;
    }))

-- `main`, from the flags to the configuration; `default_path` is that of `DefaultConfig`
unfoldable pub configure : String → Flags → Result AuditError Config
unfolding parse_sink
configure default_path flags = configure_sink default_path flags (parse_sink flags.audit)

-- A configuration that `main` builds never fails for a missing path or a missing URL: if everything
-- can be opened, the writer is made, and it has a file exactly if the flag is not "off", and a
-- table exactly if the flag is "jsonl+pg" and a URL is given.
pub new_audit_writer-configure :
    (default_path : String) (flags : Flags) (o : Openings) (cfg : Config)
    → default_path ≢ ""
    → configure default_path flags ≡ ok cfg
    → (o.mkdir ≡ true) × (o.open_file ≡ true) × (o.open_db ≡ true) × (o.apply_schema ≡ true)
    → (w : AuditWriter) × (new_audit_writer o cfg ≡ ok w)
      × (w.jsonl_file ≡ not (flags.audit == "off"))
      × (w.pg_db ≡ (flags.audit == "jsonl+pg" && not (flags.audit_pg_url == "")))
unfolding new_audit_writer configure
new_audit_writer-configure default_path flags o cfg d h p = (
  fresh cfg (not (flags.audit == "off"))
      (flags.audit == "jsonl+pg" && not (flags.audit_pg_url == "")),
  ground (
    arith,
    eq_iff flags.audit "off",
    eq_iff flags.audit "jsonl",
    eq_iff flags.audit "jsonl+pg",
    eq_iff cfg.jsonl_path "",
    eq_iff flags.audit_jsonl_path "",
    eq_iff default_path "",
    eq_iff cfg.pg_url "",
    eq_iff "jsonl" "jsonl+pg",
    eq_iff "off" "jsonl+pg",
    eq_iff "off" "jsonl",
  ),
  refl,
  refl,
)
