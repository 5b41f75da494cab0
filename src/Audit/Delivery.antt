-- ===== src/Audit/Delivery.antt =====
-- Which records of the audit writer reach its sinks.
use neuralgentics_broker.Prelude.{
  ◌≡◌, refl, sym, ap, ◌∙◌, inl, inr, true, false, none, List, [], ◌∷◌, ◌++◌, arith, eqb, Bool-cases,
}
use mathlib.Core.Path.{ap₂}
use mathlib.Core.List.{append-nil, append_assoc}
use neuralgentics_broker.Audit.{
  AuditRecord, AuditWriter, Answer, write, write_all, flush, close, sink_off,
}

-- What happens to a writer: a record, or a flush by the timer.
pub data Event : Type 0 where
  wrote : AuditRecord → Event
  flushed : Answer → Event

abbrev pub handle : AuditWriter → Event → AuditWriter
handle w (wrote r) = write w r
handle w (flushed a) = (flush a w).0

unfoldable pub run : AuditWriter → List Event → AuditWriter
unfolding write flush
run w [] = w
run w (e ∷ es) = run (handle w e) es

-- the records of the events, in order
abbrev pub records : List Event → List AuditRecord
records [] = []
records (wrote r ∷ es) = r ∷ records es
records (flushed a ∷ es) = records es

-- A writer that is in use: it has a sink and is not closed.
pub record IsOpen (w : AuditWriter) : Type 0 where
  pub on : eqb w.sink sink_off ≡ false
  pub not_closed : w.closed ≡ false

-- the records on the way to the file: those in it, then those in the buffer
abbrev pub logged : AuditWriter → List AuditRecord
logged w = w.jsonl ++ w.buf

abbrev pub stored : AuditWriter → List AuditRecord
stored w = w.pg ++ w.buf

module _ (w : AuditWriter) (v : IsOpen w) where
  write-IsOpen : (r : AuditRecord) → IsOpen (write w r)
  unfolding write
  write-IsOpen r = ground arith

  pub write-buf :
      (r : AuditRecord)
      → ((write w r).buf ≡ w.buf ++ r ∷ [])
        × ((write w r).jsonl ≡ w.jsonl)
        × ((write w r).pg ≡ w.pg)
        × ((write w r).jsonl_file ≡ w.jsonl_file)
        × ((write w r).pg_db ≡ w.pg_db)
  unfolding write
  write-buf r = ground arith

-- a batch that the file takes whole; one that the table commits
abbrev pub FileTakes : Answer → Type 0
FileTakes a = a.fails_after ≡ none

abbrev pub TableTakes : Answer → Type 0
TableTakes a = a.commits ≡ true

abbrev pub AllFlushes : (Answer → Type 0) → List Event → Type 0
AllFlushes P [] = Unit
AllFlushes P (wrote r ∷ es) = AllFlushes P es
AllFlushes P (flushed a ∷ es) = P a × AllFlushes P es

module _ (a : Answer) (w : AuditWriter) where
  write_all_frame :
      (recs : List AuditRecord)
      → ((write_all a w recs).0.buf ≡ w.buf)
        × ((write_all a w recs).0.closed ≡ w.closed)
        × ((write_all a w recs).0.sink ≡ w.sink)
        × ((write_all a w recs).0.jsonl_file ≡ w.jsonl_file)
        × ((write_all a w recs).0.pg_db ≡ w.pg_db)
  unfolding write_all
  write_all_frame [] = (refl, refl, refl, refl, refl)
  write_all_frame (r ∷ recs) = (refl, refl, refl, refl, refl)

  jsonl-write_all :
      (recs : List AuditRecord)
      → w.jsonl_file ≡ true
      → FileTakes a
      → (write_all a w recs).0.jsonl ≡ w.jsonl ++ recs
  unfolding write_all
  jsonl-write_all [] f t = sym (append-nil w.jsonl)
  jsonl-write_all (r ∷ recs) f t = rw (f, t) refl

  pg-write_all :
      (recs : List AuditRecord)
      → w.pg_db ≡ true
      → TableTakes a
      → (write_all a w recs).0.pg ≡ w.pg ++ recs
  unfolding write_all
  pg-write_all [] f t = sym (append-nil w.pg)
  pg-write_all (r ∷ recs) f t = rw (f, t) refl

module _ (a : Answer) (w : AuditWriter) (v : IsOpen w) where
  flush-IsOpen : IsOpen (flush a w).0
  unfolding flush
  flush-IsOpen =
      let f = write_all_frame a (record w { buf = [] }) w.buf in
      rw v.on (record { on = rw f.2 v.on; not_closed = f.1 ∙ v.not_closed })

  jsonl-flush : w.jsonl_file ≡ true → FileTakes a → logged (flush a w).0 ≡ logged w
  unfolding flush
  jsonl-flush f t =
      let r : AuditWriter = record w { buf = [] } in
      rw v.on (
        ap₂ (λ (x y : List AuditRecord). x ++ y) (jsonl-write_all a r w.buf f t)
          (write_all_frame a r w.buf).0
        ∙ append-nil (w.jsonl ++ w.buf))

  pg-flush : w.pg_db ≡ true → TableTakes a → stored (flush a w).0 ≡ stored w
  unfolding flush
  pg-flush f t =
      let r : AuditWriter = record w { buf = [] } in
      rw v.on (
        ap₂ (λ (x y : List AuditRecord). x ++ y) (pg-write_all a r w.buf f t)
          (write_all_frame a r w.buf).0
        ∙ append-nil (w.pg ++ w.buf))

  flush_frame : ((flush a w).0.jsonl_file ≡ w.jsonl_file) × ((flush a w).0.pg_db ≡ w.pg_db)
  unfolding flush
  flush_frame = let f = write_all_frame a (record w { buf = [] }) w.buf in rw v.on (f.3, f.4)

append-move :
    (xs ys zs : List AuditRecord) (r : AuditRecord)
    → (xs ++ (ys ++ r ∷ [])) ++ zs ≡ (xs ++ ys) ++ (r ∷ zs)
append-move xs ys zs r = simp append_assoc

logged-run :
    (es : List Event) (w : AuditWriter)
    → IsOpen w
    → w.jsonl_file ≡ true
    → AllFlushes FileTakes es
    → IsOpen (run w es)
      × ((run w es).jsonl_file ≡ true)
      × (logged (run w es) ≡ logged w ++ records es)
unfolding run
logged-run [] w v f t = (v, f, sym (append-nil (logged w)))
logged-run (wrote r ∷ es) w v f t =
    let b = write-buf w v r in
    let ih = logged-run es (write w r) (write-IsOpen w v r) (b.3 ∙ f) t in
    (ih.0, ih.1, ih.2 ∙ rw (b.0, b.1) (append-move w.jsonl w.buf (records es) r))
logged-run (flushed a ∷ es) w v f t =
    let ih = logged-run es (flush a w).0 (flush-IsOpen a w v) ((flush_frame a w v).0 ∙ f) t.1 in
    (ih.0, ih.1, ih.2 ∙ ap (λ (x : List AuditRecord). x ++ records es) (jsonl-flush a w v f t.0))

stored-run :
    (es : List Event) (w : AuditWriter)
    → IsOpen w
    → w.pg_db ≡ true
    → AllFlushes TableTakes es
    → IsOpen (run w es) × ((run w es).pg_db ≡ true) × (stored (run w es) ≡ stored w ++ records es)
unfolding run
stored-run [] w v f t = (v, f, sym (append-nil (stored w)))
stored-run (wrote r ∷ es) w v f t =
    let b = write-buf w v r in
    let ih = stored-run es (write w r) (write-IsOpen w v r) (b.4 ∙ f) t in
    (ih.0, ih.1, ih.2 ∙ rw (b.0, b.2) (append-move w.pg w.buf (records es) r))
stored-run (flushed a ∷ es) w v f t =
    let ih = stored-run es (flush a w).0 (flush-IsOpen a w v) ((flush_frame a w v).1 ∙ f) t.1 in
    (ih.0, ih.1, ih.2 ∙ ap (λ (x : List AuditRecord). x ++ records es) (pg-flush a w v f t.0))

-- Any mix of writes and timer flushes, then `Close`: if the file takes every batch, it ends with
-- every record, once and in order, behind what it held, whatever the table does.
pub close-run_file :
    (es : List Event) (a : Answer) (w : AuditWriter)
    → IsOpen w
    → w.jsonl_file ≡ true
    → AllFlushes FileTakes es
    → FileTakes a
    → (close a (run w es)).0.jsonl ≡ (w.jsonl ++ w.buf) ++ records es
unfolding close
close-run_file es a w v f t ta =
    let r = logged-run es w v f t in
    let u : AuditWriter = record (run w es) { closed = true; buf = [] } in
    rw (r.0.not_closed) (jsonl-write_all a u (run w es).buf r.1 ta ∙ r.2)

-- The same for the table: if every transaction commits, it ends with every record, once and in
-- order, whatever the file does. A failing file does not keep records from the table.
close-run_table :
    (es : List Event) (a : Answer) (w : AuditWriter)
    → IsOpen w
    → w.pg_db ≡ true
    → AllFlushes TableTakes es
    → TableTakes a
    → (close a (run w es)).0.pg ≡ (w.pg ++ w.buf) ++ records es
unfolding close
close-run_table es a w v f t ta =
    let r = stored-run es w v f t in
    let u : AuditWriter = record (run w es) { closed = true; buf = [] } in
    rw (r.0.not_closed) (pg-write_all a u (run w es).buf r.1 ta ∙ r.2)

abbrev pub all_wrote : List AuditRecord → List Event
all_wrote [] = []
all_wrote (r ∷ rs) = wrote r ∷ all_wrote rs

-- However many records are written, and whatever the batch size, writing alone sends nothing to a
-- sink: all stay in the buffer until a flush.
run-all_wrote :
    (rs : List AuditRecord) (w : AuditWriter)
    → IsOpen w
    → ((run w (all_wrote rs)).buf ≡ w.buf ++ rs)
      × ((run w (all_wrote rs)).jsonl ≡ w.jsonl)
      × ((run w (all_wrote rs)).pg ≡ w.pg)
unfolding run
run-all_wrote [] w v = (sym (append-nil w.buf), refl, refl)
run-all_wrote (r ∷ rs) w v =
    let b = write-buf w v r in
    let ih = run-all_wrote rs (write w r) (write-IsOpen w v r) in
    (ih.0 ∙ rw b.0 (append_assoc w.buf (r ∷ []) rs), ih.1 ∙ b.1, ih.2 ∙ b.2)

closed-write_all :
    (a : Answer) (w : AuditWriter) (recs : List AuditRecord)
    → (write_all a w recs).0.closed ≡ w.closed
closed-write_all a w recs = (write_all_frame a w recs).1

closed-close : (a : Answer) (w : AuditWriter) → (close a w).0.closed ≡ true
unfolding close
closed-close a w = elim (Bool-cases w.closed) [
  | inl c ↦ rw (c, close) refl
  | inr o ↦ rw (o, close) (closed-write_all a (record w { closed = true; buf = [] }) w.buf)
]

write_closed : (w : AuditWriter) (r : AuditRecord) → w.closed ≡ true → write w r ≡ w
unfolding write
write_closed w r c = ground arith

close_closed : (b : Answer) (w : AuditWriter) → w.closed ≡ true → close b w ≡ (w, false)
unfolding close
close_closed b w c = ground arith

-- A closed writer drops what it is given, and a second `Close` does nothing.
close_twice :
    (a b : Answer) (w : AuditWriter) (r : AuditRecord)
    → (write (close a w).0 r ≡ (close a w).0) × (close b (close a w).0 ≡ ((close a w).0, false))
close_twice a b w r =
    let c = closed-close a w in (write_closed (close a w).0 r c, close_closed b (close a w).0 c)
