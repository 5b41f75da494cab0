-- ===== src/Rpc/Callers.antt =====
-- The moves of the callers of `sendRPC` in proxy/proxy.go keep what holds of the requests.
use neuralgentics_broker.Prelude.{
  ℕ, ◌≡◌, refl, ◌≢◌, inl, inr, none, some, arith, eqb, Bool-cases, Option-cases, Result, put_at, ok,
  err,
}
use mathlib.Core.Path.{subst}
use neuralgentics_broker.Rpc.{
  System, Caller, idle, registered, waiting, leaving, returned, JsonrpcResponse, CallError,
  not_started, proxy_stopped, timed_out, set_caller, register_request,
}
use neuralgentics_broker.Rpc.Goroutines.{
  give_up, write_request, receive_from, receive, time_out, leave, call_idle,
}
use neuralgentics_broker.Rpc.Invariant.{
  id_of, IsPlaced, IsRouted, put_at-IsRouted, remove_id-IsRouted, put_buffer-IsRouted,
  register-IsRouted, next-fresh,
}

abbrev pub IsSane : System → Type 0
IsSane s = IsRouted s.proxy.next_id s.proxy.pending s.channel s.caller

pub here :
    (k : ℕ) (c : Caller) (s : System)
    → s.caller k ≡ c
    → IsSane s
    → IsPlaced s.proxy.next_id s.proxy.pending s.channel c
here k c s q h = subst (IsPlaced s.proxy.next_id s.proxy.pending s.channel) q (h.placed k)

-- a caller goes on with its id, or without one
pub on :
    (k : ℕ) (c : Caller) (s : System)
    → IsPlaced s.proxy.next_id s.proxy.pending s.channel c
    → ((id : ℕ) → id_of c ≡ some id → id_of (s.caller k) ≡ some id)
    → IsSane s
    → IsSane (set_caller k c s)
on k c s p u h = put_at-IsRouted k c p (λ id e j f. h.distinct k j id (u id e) f) h

register_request-IsSane : (k : ℕ) (s : System) → IsSane s → IsSane (register_request k s)
unfolding register_request
register_request-IsSane k s h = elim (Bool-cases s.proxy.running) [
  | inl live ↦ rw live (
      put_at-IsRouted k (registered s.proxy.next_id) (omega arith, ground arith)
        (λ id e j f. absurd (next-fresh j h (ground (arith, e, f)))) (register-IsRouted h))
  | inr down ↦
      rw down (put_at-IsRouted k (returned (err not_started)) tt (λ id e j f. ground arith) h)
]

pub give_up-IsSane :
    (e : CallError) (k : ℕ) (c : Caller) (s : System)
    → s.caller k ≡ c
    → IsSane s
    → IsSane (give_up e k c s)
give_up-IsSane e k (registered id) s q h =
    on k (leaving id (err e)) s ((here k (registered id) s q h).0, tt) (λ m f. rw q f) h
give_up-IsSane e k c s q h = h

pub write_request-IsSane :
    (k : ℕ) (c : Caller) (s : System) → s.caller k ≡ c → IsSane s → IsSane (write_request k c s)
write_request-IsSane k (registered id) s q h =
    on k (waiting id) s (here k (registered id) s q h) (λ m f. rw q f) h
write_request-IsSane k c s q h = h

pub time_out-IsSane :
    (k : ℕ) (c : Caller) (s : System) → s.caller k ≡ c → IsSane s → IsSane (time_out k c s)
time_out-IsSane k (waiting id) s q h =
    on k (leaving id (err timed_out)) s ((here k (waiting id) s q h).0, tt) (λ m f. rw q f) h
time_out-IsSane k c s q h = h

receive_from-IsSane :
    (k id : ℕ) (s : System)
    → s.caller k ≡ waiting id
    → IsSane s
    → IsSane (receive_from k id (s.channel id) s)
receive_from-IsSane k id s q h =
    let placed = here k (waiting id) s q h in
    elim (Option-cases (s.channel id).buffer) [
      | inl empty ↦ elim (Bool-cases (s.channel id).is_closed) [
        | inl closed ↦
            rw (empty, closed)
              (on k (leaving id (err proxy_stopped)) s (placed.0, tt) (λ m f. rw q f) h)
        | inr open_ ↦ rw (empty, open_) h
      ]
      | inr (r, full) ↦ rw full (
          on k (leaving id (ok r))
            (record s { channel = put_at s.channel id (record (s.channel id) { buffer = none }) })
            (placed.0, h.own id r full) (λ m f. rw q f)
            (put_buffer-IsRouted id none (λ x e. ground arith) h))
    ]

pub receive-IsSane :
    (k : ℕ) (c : Caller) (s : System) → s.caller k ≡ c → IsSane s → IsSane (receive k c s)
receive-IsSane k (waiting id) s q h = receive_from-IsSane k id s q h
receive-IsSane k c s q h = h

freed :
    (k id : ℕ) (r : Result CallError JsonrpcResponse) (s : System)
    → s.caller k ≡ leaving id r
    → IsSane s
    → (j : ℕ) → id_of (put_at s.caller k (returned r) j) ≢ some id
freed k id r s q h j f = elim (Bool-cases (eqb k j)) [
  | inl same ↦ ground (arith, f, same)
  | inr away ↦
      let met = h.distinct k j id (rw q refl) (ground (arith, f, away)) in ground (arith, away, met)
]

pub leave-IsSane :
    (k : ℕ) (c : Caller) (s : System) → s.caller k ≡ c → IsSane s → IsSane (leave k c s)
leave-IsSane k (leaving id r) s q h =
    remove_id-IsRouted id (freed k id r s q h) (on k (returned r) s tt (λ m f. ground arith) h)
leave-IsSane k c s q h = h

pub call_idle-IsSane : (k : ℕ) (c : Caller) (s : System) → IsSane s → IsSane (call_idle k c s)
call_idle-IsSane k idle s h = register_request-IsSane k s h
call_idle-IsSane k c s h = h
