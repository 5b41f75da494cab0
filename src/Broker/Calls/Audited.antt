-- ===== src/Broker/Calls/Audited.antt =====
-- What `Call` of broker.go lets through, and what it records.
use neuralgentics_broker.Prelude.{
  ℕ, ◌≡◌, refl, ◌∙◌, inl, inr, Option, none, some, List, [], ◌∷◌, ◌++◌, Bool-cases, Option-cases,
  is_ok, ok, err, get,
}
use neuralgentics_broker.Errors.{BrokerError, Outcome}
use neuralgentics_broker.Access.{can_access}
use neuralgentics_broker.Audit.{Payload, AuditRecord, AuditWriter}
use neuralgentics_broker.Audit.Delivery.{IsOpen, write-buf}
use neuralgentics_broker.Host.{Host}
use neuralgentics_broker.Broker.{Broker}
use neuralgentics_broker.Broker.Lifecycle.{expect, assert, has_pipes}
use neuralgentics_broker.Host.{RpcOutcome, no_answer, error_reply, malformed, result}
use neuralgentics_broker.Clients.{Client, stdio_client, http_client}
use neuralgentics_broker.Registry.{find}
use neuralgentics_broker.Audit.{build_record}
use neuralgentics_broker.Broker.Calls.{proxy_call, stdio_call, route_found}
use neuralgentics_broker.Broker.Calls.{Request, call, route, audit, denial, record_of}

-- the records that wait in the buffer of the writer, if there is one
abbrev pub buffered : Option AuditWriter → List AuditRecord
buffered none = []
buffered (some w) = w.buf

expect-frame : {A : Type 0} (e : BrokerError) (r : RpcOutcome A) (b : Broker) → (expect e r b).0 ≡ b
expect-frame e (result a) b = refl
expect-frame e no_answer b = refl
expect-frame e error_reply b = refl
expect-frame e malformed b = refl

-- what the way of a call to a server leaves alone
abbrev pub Frame : Broker → Broker → Type 0
Frame b b' =
    (b'.registry ≡ b.registry)
    × (b'.access ≡ b.access)
    × (b'.http_clients ≡ b.http_clients)
    × (b'.audit_writer ≡ b.audit_writer)

Frame-eq : (b b' c : Broker) → Frame b b' → c ≡ b' → Frame b c
Frame-eq b b' c f e = rw e f

proxy_call-Frame : (host : Host) (q : Request) (b : Broker) → Frame b (proxy_call host q b).0
unfolding proxy_call
proxy_call-Frame host q b = elim (Bool-cases b.proxy.running) [
  | inl on ↦ rw (on, proxy_call) (rw expect-frame (refl, refl, refl, refl))
  | inr off ↦ rw (off, proxy_call) (refl, refl, refl, refl)
]

stdio_call-Frame : (host : Host) (q : Request) (b : Broker) → Frame b (stdio_call host q b).0
unfolding stdio_call
stdio_call-Frame host q b = elim (Option-cases (find q.server b.registry)) [
  | inl absent ↦ rw (absent, stdio_call) (refl, refl, refl, refl)
  | inr (e, there) ↦
      rw (there, stdio_call)
        (elim (Bool-cases (has_pipes e)) [
          | inl on ↦ rw (on, assert) (proxy_call-Frame host q b)
          | inr off ↦ rw (off, assert) (refl, refl, refl, refl)
        ])
]

route_found-Frame :
    (host : Host) (q : Request) (c : Option Client) (b : Broker)
    → Frame b (route_found host q c b).0
route_found-Frame host q none b = stdio_call-Frame host q b
route_found-Frame host q (some (stdio_client c)) b = (refl, refl, refl, refl)
route_found-Frame host q (some (http_client url auth)) b = rw expect-frame (refl, refl, refl, refl)

pub route-Frame : (host : Host) (q : Request) (b : Broker) → Frame b (route host q b).0
unfolding route
route-Frame host q b = route_found-Frame host q (get q.server b.http_clients) b

-- one record in the buffer of an open writer
audit-buffered :
    (host : Host) (start : ℕ) (q : Request) (r : Outcome Payload) (b : Broker) (w : AuditWriter)
    → b.audit_writer ≡ some w
    → IsOpen w
    → buffered (audit host start q r b).audit_writer
      ≡ w.buf ++ record_of host start b.clock q r ∷ []
unfolding audit
audit-buffered host start q r b w h v = rw h (write-buf w v (record_of host start b.clock q r)).0

success-record_of :
    (host : Host) (start clock : ℕ) (q : Request) (r : Outcome Payload)
    → (record_of host start clock q r).success ≡ is_ok r
unfolding build_record
success-record_of host start clock q (ok p) = refl
success-record_of host start clock q (err e) = refl

-- Every call, denied, failed or successful, adds exactly one record to the buffer of an open audit
-- writer. The record names the call's role, server and tool, and says success exactly if the call
-- returned no error.
pub call_audited :
    (host : Host) (q : Request) (b : Broker) (w : AuditWriter)
    → b.audit_writer ≡ some w
    → IsOpen w
    → (rec : AuditRecord) × (buffered (call host q b).0.audit_writer ≡ w.buf ++ rec ∷ [])
      × (rec.agent_role ≡ q.role)
      × (rec.server ≡ q.server)
      × (rec.tool ≡ q.tool)
      × (rec.success ≡ is_ok (call host q b).1)
unfolding call build_record
call_audited host q b w h v = elim (Bool-cases (can_access b.access q.role q.server)) [
  | inr deny ↦
      rw (deny, call)
        (
          record_of host b.clock b.clock q (err (denial b q)),
          audit-buffered host b.clock q (err (denial b q)) b w h v,
          refl,
          refl,
          refl,
          refl,
        )
  | inl allow ↦
      rw (allow, call)
        (let b' = (route host q b).0 in
          let r = (route host q b).1 in
          (
            record_of host b.clock b'.clock q r,
            audit-buffered host b.clock q r b' w ((route-Frame host q b).3 ∙ h) v,
            refl,
            refl,
            refl,
            success-record_of host b.clock b'.clock q r,
          ))
]
