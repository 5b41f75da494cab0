-- ===== src/Broker/Calls/Routing.antt =====
-- Calls to a server over the shared proxy.
use neuralgentics_broker.Prelude.{
  ℕ, String, ◌≡◌, refl, ap, ◌≢◌, inl, inr, Bool, true, false, Option, none, some, Bool-cases,
  Option-cases, is_ok, ok, err, get,
}
use neuralgentics_broker.Errors.{
  BrokerError, Outcome, not_registered, disappeared, no_pipes, start_failed, initialize_failed,
}
use neuralgentics_broker.Access.{can_access}
use neuralgentics_broker.Registry.{find, set_tools}
use neuralgentics_broker.Host.{Host}
use neuralgentics_broker.Broker.{
  Broker, Action, follow, ◌>>=◌, wrap, rename_error, or_fail, entry_of, start_reader, modify_entry,
}
use neuralgentics_broker.Broker.Lifecycle.{
  start_server, launch, initialize, list_tools, assert, has_pipes, give_up, or_give_up,
  or_give_up_found, stop, stop_process,
}
use neuralgentics_broker.Broker.Calls.{Request, call, route, stdio_call, proxy_call}

-- The reader of the proxy has stopped wherever the action ends with this error.
record StopsOn {A : Type 0} (e : BrokerError) (m : Action A) : Type 0 where
  at : (b : Broker) → (m b).1 ≡ err e → (m b).0.proxy.running ≡ false

module _ {A B : Type 0} (e : BrokerError) where
  StopsOn-follow :
      (f : A → Action B) (b : Broker) (r : Outcome A)
      → (r ≡ err e → b.proxy.running ≡ false)
      → ((a : A) → StopsOn e (f a))
      → (follow f b r).1 ≡ err e
      → (follow f b r).0.proxy.running ≡ false
  StopsOn-follow f b (ok a) k l h = (l a).at b h
  StopsOn-follow f b (err x) k l h = k (ap (λ (r : Outcome B). match_error r) h)
    where
      match_error : Outcome B → Outcome A
      match_error (ok a) = err e
      match_error (err x) = err x

  StopsOn-bind :
      (m : Action A) (f : A → Action B)
      → StopsOn e m
      → ((a : A) → StopsOn e (f a))
      → StopsOn e (m >>= f)
  StopsOn-bind m f k l = record { at = λ b h. StopsOn-follow f (m b).0 (m b).1 (k.at b) l h }

-- an action that cannot end with the error
StopsOn-never :
    {A : Type 0} (e : BrokerError) (m : Action A) → ((b : Broker) → (m b).1 ≢ err e) → StopsOn e m
StopsOn-never e m k = record { at = λ b h. absurd (k b h) }

running-stop_process :
    (name : String) (p : Option ℕ) (b : Broker)
    → (stop_process name p b).0.proxy.running ≡ b.proxy.running
running-stop_process name none b = refl
running-stop_process name (some p) b = refl

running-stop : (name : String) (b : Broker) → (stop name b).0.proxy.running ≡ b.proxy.running
unfolding stop
running-stop name b = elim (Option-cases (find name b.registry)) [
  | inl absent ↦ rw (absent, stop) refl
  | inr (e, there) ↦ rw (there, stop) (running-stop_process name e.process b)
]

running-or_give_up_found :
    {A : Type 0} (name : String) (e : BrokerError) (b : Broker) (r : Outcome A)
    → (or_give_up_found name b r).1 ≡ err e
    → (or_give_up_found name b r).0.proxy.running ≡ false
unfolding give_up
running-or_give_up_found name e b (ok a) h = cc
running-or_give_up_found name e b (err x) h =
    running-stop name (record b { proxy = record b.proxy { running = false } })

StopsOn-or_give_up :
    {A : Type 0} (name : String) (e : BrokerError) (m : Action A) → StopsOn e (or_give_up name m)
StopsOn-or_give_up {A} name e m = record {
  at = λ b. running-or_give_up_found name e (m b).0 (m b).1;
}

never-or_fail : {A : Type 0} (e e' : BrokerError) (o : Option A) → e' ≢ e → StopsOn e (or_fail e' o)
never-or_fail e e' none k = record { at = λ b h. absurd (k cc) }
never-or_fail e e' (some a) k = record { at = λ b h. cc }

never-entry_of :
    (e : BrokerError) (name : String) (e' : BrokerError) → e' ≢ e → StopsOn e (entry_of name e')
never-entry_of e name e' k = record { at = λ b. (never-or_fail e e' (find name b.registry) k).at b }

never-wrap :
    {A : Type 0} (e : BrokerError) (f : BrokerError → BrokerError) (m : Action A)
    → ((x : BrokerError) → f x ≢ e)
    → StopsOn e (wrap f m)
never-wrap {A} e f m k = record { at = λ b. found (m b).0 (m b).1 }
  where
    found : (b : Broker) (r : Outcome A) → rename_error f r ≡ err e → b.proxy.running ≡ false
    found b (ok a) h = cc
    found b (err x) h = absurd (k x cc)

never-assert : (t : Bool) (e e' : BrokerError) → e' ≢ e → StopsOn e (assert t e')
never-assert true e e' k = record { at = λ b h. cc }
never-assert false e e' k = record { at = λ b h. absurd (k cc) }

start_server-StopsOn :
    (host : Host) (name : String) → StopsOn (initialize_failed name) (start_server host name)
unfolding start_server
start_server-StopsOn host name =
    StopsOn-bind e (entry_of name (not_registered name)) _
      (never-entry_of e name (not_registered name) (λ h. cc))
      (λ entry.
        StopsOn-bind e (wrap (λ _. start_failed name) (launch host entry.config)) _
          (never-wrap e _ _ (λ x h. cc))
          (λ _.
            StopsOn-bind e (entry_of name (disappeared name)) _
              (never-entry_of e name (disappeared name) (λ h. cc))
              (λ snap.
                StopsOn-bind e (assert (has_pipes snap) (no_pipes name)) _
                  (never-assert (has_pipes snap) e (no_pipes name) (λ h. cc))
                  (λ _.
                    StopsOn-bind e start_reader _ (record { at = λ b h. cc })
                      (λ _.
                        StopsOn-bind e (or_give_up name (initialize host name)) _
                          (StopsOn-or_give_up name e (initialize host name))
                          (λ _.
                            StopsOn-bind e (or_give_up name (list_tools host name))
                              (λ tools. modify_entry (set_tools tools) name)
                              (StopsOn-or_give_up name e (list_tools host name))
                              (λ tools. record { at = λ b h. cc })))))))
  where
    e : BrokerError
    e = initialize_failed name

proxy_call-stopped :
    (host : Host) (q : Request) (b : Broker)
    → b.proxy.running ≡ false
    → is_ok (proxy_call host q b).1 ≡ false
unfolding proxy_call
proxy_call-stopped host q b h = rw h refl

stdio_call-stopped :
    (host : Host) (q : Request) (b : Broker)
    → b.proxy.running ≡ false
    → is_ok (stdio_call host q b).1 ≡ false
unfolding stdio_call
stdio_call-stopped host q b h = elim (Option-cases (find q.server b.registry)) [
  | inl absent ↦ rw (absent, stdio_call) refl
  | inr (e, there) ↦
      rw (there, stdio_call)
        (elim (Bool-cases (has_pipes e)) [
          | inl on ↦ rw (on, assert) (proxy_call-stopped host q b h)
          | inr off ↦ rw (off, assert) refl
        ])
]

call-stopped :
    (host : Host) (q : Request) (b : Broker)
    → b.proxy.running ≡ false
    → get q.server b.http_clients ≡ none
    → is_ok (call host q b).1 ≡ false
unfolding call route
call-stopped host q b h local = elim (Bool-cases (can_access b.access q.role q.server)) [
  | inl allow ↦ rw (allow, call, local) (stdio_call-stopped host q b h)
  | inr deny ↦ rw (deny, call) refl
]

-- If the handshake of one server fails, then every call to a server without an HTTP client fails in
-- the state that this leaves, also to a server that was started before and has its process and its
-- pipes.
pub call-failed_start :
    (host : Host) (name : String) (q : Request) (b : Broker)
    → (start_server host name b).1 ≡ err (initialize_failed name)
    → get q.server (start_server host name b).0.http_clients ≡ none
    → is_ok (call host q (start_server host name b).0).1 ≡ false
call-failed_start host name q b h local =
    call-stopped host q (start_server host name b).0 ((start_server-StopsOn host name).at b h) local
