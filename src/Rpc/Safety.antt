-- ===== src/Rpc/Safety.antt =====
-- What holds in every run of the goroutines of proxy/proxy.go.
use neuralgentics_broker.Prelude.{
  ℕ, ◌≡◌, refl, ap, ◌≢◌, Bool, true, false, some, List, [], ◌∷◌, arith, if◌then◌else◌, ok,
}
use neuralgentics_broker.Rpc.{
  System, leaving, JsonrpcResponse, marshal_failed, write_failed, new_system,
}
use neuralgentics_broker.Rpc.Goroutines.{
  scan, end_scan, look_at_stop, check_stop, route, exit, launch, Move, stops, sets_handler, calls,
  marshal_fails, write_fails, writes, receives, times_out, leaves, starts, ends, looks_at_stop,
  checks_stop, routes, sends, exits, scans, move, run,
}
use neuralgentics_broker.Rpc.Callers.{
  IsSane, here, give_up-IsSane, write_request-IsSane, time_out-IsSane, receive-IsSane, leave-IsSane,
  call_idle-IsSane,
}
use neuralgentics_broker.Rpc.Readers.{
  Apart-IsSane, stop-IsSane, launch-Apart, scan-Apart, end_scan-Apart, look_at_stop-Apart,
  check_stop-Apart, route-Apart, exit-Apart, send-IsSane,
}

move-IsSane : (m : Move) (s : System) → IsSane s → IsSane (move m s)
unfolding move
move-IsSane stops s h = stop-IsSane s h
move-IsSane sets_handler s h = h
move-IsSane (calls k) s h = call_idle-IsSane k (s.caller k) s h
move-IsSane (marshal_fails k) s h = give_up-IsSane marshal_failed k (s.caller k) s refl h
move-IsSane (write_fails k) s h = give_up-IsSane write_failed k (s.caller k) s refl h
move-IsSane (writes k) s h = write_request-IsSane k (s.caller k) s refl h
move-IsSane (receives k) s h = receive-IsSane k (s.caller k) s refl h
move-IsSane (times_out k) s h = time_out-IsSane k (s.caller k) s refl h
move-IsSane (leaves k) s h = leave-IsSane k (s.caller k) s refl h
move-IsSane (starts k) s h =
    Apart-IsSane s (launch k (s.reader k) s) (launch-Apart k (s.reader k) s) h
move-IsSane (ends k) s h =
    Apart-IsSane s (end_scan k (s.reader k) s) (end_scan-Apart k (s.reader k) s) h
move-IsSane (looks_at_stop k) s h =
    Apart-IsSane s (look_at_stop k (s.reader k) s) (look_at_stop-Apart k (s.reader k) s) h
move-IsSane (checks_stop k) s h =
    Apart-IsSane s (check_stop k (s.reader k) s) (check_stop-Apart k (s.reader k) s) h
move-IsSane (routes k) s h =
    Apart-IsSane s (route k (s.reader k) s) (route-Apart k (s.reader k) s) h
move-IsSane (sends k) s h = send-IsSane k (s.reader k) s h
move-IsSane (exits k) s h = Apart-IsSane s (exit k (s.reader k) s) (exit-Apart k (s.reader k) s) h
move-IsSane (scans k l) s h =
    Apart-IsSane s (scan k l (s.reader k) s) (scan-Apart k l (s.reader k) s) h

if-IsSane : (t : Bool) (s s' : System) → IsSane s → IsSane s' → IsSane (if t then s else s')
if-IsSane true s s' h h' = h
if-IsSane false s s' h h' = h'

pub run-IsSane : (ms : List Move) (s : System) → IsSane s → IsSane (run ms s)
unfolding run
run-IsSane [] s h = h
run-IsSane (m ∷ ms) s h =
    run-IsSane ms (if s.panicked then s else move m s)
      (if-IsSane s.panicked s (move m s) h (move-IsSane m s h))

pub new_system-IsSane : IsSane new_system
unfolding new_system
new_system-IsSane = record {
  known = λ id e. ground arith;
  opened = λ id e. refl;
  once = tt;
  placed = λ k. tt;
  distinct = λ j k id e f. ground arith;
  own = λ id r e. ground arith;
}

-- In every run of callers, readers, `StartReader` and `Stop` in any order, on whatever lines the servers
-- write: if two calls are about to return a response, each returns one with the id of its own request,
-- and the two ids differ.
pub run-own_response :
    (ms : List Move) (j k id id' : ℕ) (r r' : JsonrpcResponse)
    → (run ms new_system).caller j ≡ leaving id (ok r)
    → (run ms new_system).caller k ≡ leaving id' (ok r')
    → j ≢ k
    → (r.id ≡ id) × (r'.id ≡ id') × (id ≢ id')
run-own_response ms j k id id' r r' p q n =
    let s = run ms new_system in
    let h = run-IsSane ms new_system new_system-IsSane in
    (
      (here j (leaving id (ok r)) s p h).1,
      (here k (leaving id' (ok r')) s q h).1,
      λ e. n (h.distinct j k id' (rw p (ap some e)) (rw q refl)),
    )
