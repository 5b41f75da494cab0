-- ===== src/Tests/AuditTests.antt =====
-- The audit writer at concrete inputs.
use neuralgentics_broker.Prelude.{◌≡◌, refl, true, false, none, some, [], ◌∷◌, arith, eq_iff, ok}
use neuralgentics_broker.Audit.{AuditRecord, AuditWriter, Answer, close}
use neuralgentics_broker.Audit.Sinks.{
  Config, Openings, configure, new_audit_writer, new_audit_writer-configure,
}
use neuralgentics_broker.Audit.Delivery.{wrote, flushed, run, IsOpen, close-run_file}

abbrev all_open : Openings
all_open = record { mkdir = true; open_file = true; open_db = true; apply_schema = true }

abbrev plain : Config
plain = record { sink = 2; jsonl_path = "audit.jsonl"; pg_url = ""; batch_size = 100 }

-- `-audit jsonl+pg` with no URL
new_audit_writer-configure_example :
    (w : AuditWriter) × (new_audit_writer all_open plain ≡ ok w)
    × (w.jsonl_file ≡ true)
    × (w.pg_db ≡ false)
unfolding configure
new_audit_writer-configure_example =
    new_audit_writer-configure "audit.jsonl"
      (record { audit = "jsonl+pg"; audit_jsonl_path = ""; audit_pg_url = "" }) all_open plain
      (λ e. ground (arith, eq_iff "audit.jsonl" "")) refl (refl, refl, refl, refl)

abbrev rec : AuditRecord
rec = record {
  ts = 3;
  agent_role = "coder";
  server = "git";
  tool = "clone";
  args_hash = "";
  success = true;
  result_size = none;
  duration_ms = 1;
  error = none;
}

abbrev both_sinks : AuditWriter
both_sinks = record {
  sink = 6;
  batch_size = 1;
  buf = [];
  closed = false;
  jsonl_file = true;
  pg_db = true;
  jsonl = [];
  pg = [];
  signals = 0;
}

abbrev file_only : Answer
file_only = record { fails_after = none; commits = false }

abbrev table_only : Answer
table_only = record { fails_after = some 0; commits = true }

both_sinks-IsOpen : IsOpen both_sinks
both_sinks-IsOpen = record { on = refl; not_closed = refl }

close-run_file_example :
    (close file_only (run both_sinks (wrote rec ∷ flushed file_only ∷ wrote rec ∷ []))).0.jsonl
    ≡ rec ∷ rec ∷ []
close-run_file_example =
    close-run_file (wrote rec ∷ flushed file_only ∷ wrote rec ∷ []) file_only both_sinks
      both_sinks-IsOpen refl (refl, tt) refl
