-- ===== src/Rpc/Advance.antt =====
-- No move of a goroutine of proxy/proxy.go sets a call of `sendRPC` back.
use neuralgentics_broker.Prelude.{
  ℕ, ◌≤◌, ◌≡◌, refl, sym, inl, inr, List, [], ◌∷◌, arith, eqb, if◌then◌else◌, Bool-cases,
  Option-cases, ok, err,
}
use mathlib.Core.Path.{subst}
use neuralgentics_broker.Rpc.{
  System, Caller, idle, registered, waiting, leaving, returned, Reader, sending, CallError,
  not_started, marshal_failed, write_failed, proxy_stopped, timed_out, set_caller, register_request,
}
use neuralgentics_broker.Rpc.Goroutines.{
  give_up, write_request, receive, time_out, leave, scan, end_scan, look_at_stop, check_stop, route,
  send, exit, call_idle, launch, Move, stops, sets_handler, calls, marshal_fails, write_fails,
  writes, receives, times_out, leaves, starts, ends, looks_at_stop, checks_stop, routes, sends,
  exits, scans, move, run,
}
use neuralgentics_broker.Rpc.Readers.{
  Apart, launch-Apart, scan-Apart, end_scan-Apart, look_at_stop-Apart, check_stop-Apart,
  route-Apart, exit-Apart,
}
use neuralgentics_broker.Rpc.Endings.{stop-IsStopped}

-- how far a call is from its return; an idle goroutine has not called
abbrev pub left_to_do : Caller → ℕ
left_to_do idle = 4
left_to_do (registered id) = 3
left_to_do (waiting id) = 2
left_to_do (leaving id r) = 1
left_to_do (returned r) = 0

-- nobody is set back
abbrev pub NoneBack : System → System → Type 0
NoneBack s s' = (k : ℕ) → left_to_do (s'.caller k) ≤ left_to_do (s.caller k)

self-NoneBack : (s : System) → NoneBack s s
self-NoneBack s k = omega arith

set_caller-NoneBack :
    (j : ℕ) (c : Caller) (s : System)
    → left_to_do c ≤ left_to_do (s.caller j)
    → NoneBack s (set_caller j c s)
set_caller-NoneBack j c s h k = elim (Bool-cases (eqb j k)) [
  | inl same ↦ let e : j ≡ k = ground arith in rw (same, sym e) h
  | inr other ↦ rw other (omega arith)
]

Apart-NoneBack : (s s' : System) → Apart s s' → NoneBack s s'
Apart-NoneBack s s' a k = rw a.3 (omega arith)

register_request-NoneBack :
    (j : ℕ) (s : System) → s.caller j ≡ idle → NoneBack s (register_request j s)
unfolding register_request
register_request-NoneBack j s q = elim (Bool-cases s.proxy.running) [
  | inl live ↦ rw live (set_caller-NoneBack j (registered s.proxy.next_id) s (rw q (omega arith)))
  | inr down ↦ rw down (set_caller-NoneBack j (returned (err not_started)) s (rw q (omega arith)))
]

call_idle-NoneBack :
    (j : ℕ) (c : Caller) (s : System) → s.caller j ≡ c → NoneBack s (call_idle j c s)
call_idle-NoneBack j idle s q = register_request-NoneBack j s q
call_idle-NoneBack j c s q = self-NoneBack s

give_up-NoneBack :
    (e : CallError) (j : ℕ) (c : Caller) (s : System)
    → s.caller j ≡ c
    → NoneBack s (give_up e j c s)
give_up-NoneBack e j (registered id) s q =
    set_caller-NoneBack j (leaving id (err e)) s (rw q (omega arith))
give_up-NoneBack e j c s q = self-NoneBack s

write_request-NoneBack :
    (j : ℕ) (c : Caller) (s : System) → s.caller j ≡ c → NoneBack s (write_request j c s)
write_request-NoneBack j (registered id) s q =
    set_caller-NoneBack j (waiting id) s (rw q (omega arith))
write_request-NoneBack j c s q = self-NoneBack s

time_out-NoneBack : (j : ℕ) (c : Caller) (s : System) → s.caller j ≡ c → NoneBack s (time_out j c s)
time_out-NoneBack j (waiting id) s q =
    set_caller-NoneBack j (leaving id (err timed_out)) s (rw q (omega arith))
time_out-NoneBack j c s q = self-NoneBack s

leave-NoneBack : (j : ℕ) (c : Caller) (s : System) → s.caller j ≡ c → NoneBack s (leave j c s)
leave-NoneBack j (leaving id r) s q = set_caller-NoneBack j (returned r) s (rw q (omega arith))
leave-NoneBack j c s q = self-NoneBack s

receive-NoneBack : (j : ℕ) (c : Caller) (s : System) → s.caller j ≡ c → NoneBack s (receive j c s)
receive-NoneBack j (waiting id) s q = elim (Option-cases (s.channel id).buffer) [
  | inl empty ↦ elim (Bool-cases (s.channel id).is_closed) [
    | inl closed ↦
        rw (empty, closed)
          (set_caller-NoneBack j (leaving id (err proxy_stopped)) s (rw q (omega arith)))
    | inr open_ ↦ rw (empty, open_) (self-NoneBack s)
  ]
  | inr (r, full) ↦ rw full (set_caller-NoneBack j (leaving id (ok r)) s (rw q (omega arith)))
]
receive-NoneBack j c s q = self-NoneBack s

send-caller : (j : ℕ) (r : Reader) (s : System) → (send j r s).caller ≡ s.caller
send-caller j (sending r) s = elim (Bool-cases (s.channel r.id).is_closed) [
  | inl closed ↦ rw closed refl
  | inr open_ ↦ elim (Option-cases (s.channel r.id).buffer) [
    | inl empty ↦ rw (open_, empty) refl
    | inr (x, full) ↦ rw (open_, full) refl
  ]
]
send-caller j r s = refl

move-NoneBack : (m : Move) (s : System) → NoneBack s (move m s)
unfolding move
move-NoneBack stops s = λ k. rw (stop-IsStopped s).callers (omega arith)
move-NoneBack sets_handler s = self-NoneBack s
move-NoneBack (calls j) s = call_idle-NoneBack j (s.caller j) s refl
move-NoneBack (marshal_fails j) s = give_up-NoneBack marshal_failed j (s.caller j) s refl
move-NoneBack (write_fails j) s = give_up-NoneBack write_failed j (s.caller j) s refl
move-NoneBack (writes j) s = write_request-NoneBack j (s.caller j) s refl
move-NoneBack (receives j) s = receive-NoneBack j (s.caller j) s refl
move-NoneBack (times_out j) s = time_out-NoneBack j (s.caller j) s refl
move-NoneBack (leaves j) s = leave-NoneBack j (s.caller j) s refl
move-NoneBack (starts j) s =
    Apart-NoneBack s (launch j (s.reader j) s) (launch-Apart j (s.reader j) s)
move-NoneBack (ends j) s =
    Apart-NoneBack s (end_scan j (s.reader j) s) (end_scan-Apart j (s.reader j) s)
move-NoneBack (looks_at_stop j) s =
    Apart-NoneBack s (look_at_stop j (s.reader j) s) (look_at_stop-Apart j (s.reader j) s)
move-NoneBack (checks_stop j) s =
    Apart-NoneBack s (check_stop j (s.reader j) s) (check_stop-Apart j (s.reader j) s)
move-NoneBack (routes j) s =
    Apart-NoneBack s (route j (s.reader j) s) (route-Apart j (s.reader j) s)
move-NoneBack (sends j) s = λ k. rw (send-caller j (s.reader j) s) (omega arith)
move-NoneBack (exits j) s = Apart-NoneBack s (exit j (s.reader j) s) (exit-Apart j (s.reader j) s)
move-NoneBack (scans j l) s =
    Apart-NoneBack s (scan j l (s.reader j) s) (scan-Apart j l (s.reader j) s)

pub run-NoneBack : (ms : List Move) (s : System) → NoneBack s (run ms s)
unfolding run
run-NoneBack [] s k = omega arith
run-NoneBack (m ∷ ms) s k = elim (Bool-cases s.panicked) [
  | inl over ↦
      subst
        (λ b. left_to_do ((run ms (if b then s else move m s)).caller k) ≤ left_to_do (s.caller k))
        (sym over) (run-NoneBack ms s k)
  | inr live ↦
      let first = move-NoneBack m s k in
      let others = run-NoneBack ms (move m s) k in
      subst
        (λ b. left_to_do ((run ms (if b then s else move m s)).caller k) ≤ left_to_do (s.caller k))
        (sym live) (omega (arith, first, others))
]
