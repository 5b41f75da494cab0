-- ===== src/Tests/RpcTests.antt =====
-- The goroutines of the proxy in concrete runs.
use neuralgentics_broker.Prelude.{
  ℕ, zero, suc, ◌≡◌, refl, ◌≢◌, true, false, none, List, [], ◌∷◌, ◌++◌, arith, Result, ok,
}
use neuralgentics_broker.Rpc.{
  System, leaving, returned, CallError, JsonrpcResponse, response, elem_id, stop, new_system,
}
use neuralgentics_broker.Rpc.Progress.{call-terminates}
use neuralgentics_broker.Rpc.Goroutines.{
  times_out, leaves, Move, calls, writes, receives, starts, ends, looks_at_stop, checks_stop,
  routes, sends, exits, scans, move, run,
}
use neuralgentics_broker.Rpc.Safety.{run-own_response}
use neuralgentics_broker.Rpc.Calm.{run-quiet}
use neuralgentics_broker.Rpc.Endings.{stop-releases}
use neuralgentics_broker.Rpc.Twice.{run-panics}

abbrev answer : ℕ → JsonrpcResponse
answer id = record { id = id; result = []; error = none }

-- reader 0 takes a line with a response
abbrev reads : ℕ → List Move
reads id = scans 0 (response (answer id)) ∷ looks_at_stop 0 ∷ checks_stop 0 ∷ routes 0 ∷ []

-- two calls, answered in the other order
abbrev two_calls : List Move
two_calls =
    starts 0
    ∷ calls 0
    ∷ calls 1
    ∷ writes 0
    ∷ writes 1
    ∷ (reads 2 ++ sends 0 ∷ reads 1 ++ sends 0 ∷ receives 0 ∷ receives 1 ∷ [])

run-own_response_example : ((answer 1).id ≡ 1) × ((answer 2).id ≡ 2) × (suc zero ≢ 2)
unfolding run new_system
run-own_response_example =
    run-own_response two_calls 0 1 1 2 (answer 1) (answer 2) refl refl (omega arith)

abbrev one_call : List Move
one_call = starts 0 ∷ calls 0 ∷ writes 0 ∷ []

stop-releases_example :
    let s = run (one_call ++ reads 1 ++ sends 0 ∷ []) new_system in
    ((move (receives 0) (stop s)).caller 0 ≡ leaving 1 (ok (answer 1)))
    × ((answer 1).id ≡ 1)
    × (elem_id 1 (stop s).proxy.pending ≡ false)
unfolding run new_system
stop-releases_example = stop-releases (one_call ++ reads 1 ++ sends 0 ∷ []) 0 1 1 refl

abbrev two_readers : System
two_readers = run (starts 0 ∷ starts 1 ∷ []) new_system

-- a call is made while the readers end
abbrev both_end : List Move
both_end = ends 0 ∷ calls 0 ∷ exits 0 ∷ ends 1 ∷ exits 1 ∷ []

run-panics_example : (run both_end two_readers).panicked ≡ true
unfolding run new_system
run-panics_example =
    run-panics both_end 0 1 two_readers (tt, (tt, (tt, (tt, (tt, tt))))) (omega arith) refl refl
      refl refl

abbrev about_to_send : System
about_to_send = run (one_call ++ reads 1) new_system

-- one server that answers two calls and ends
run-quiet_example : (run (two_calls ++ ends 0 ∷ exits 0 ∷ []) new_system).panicked ≡ false
run-quiet_example = run-quiet 0 (two_calls ++ ends 0 ∷ exits 0 ∷ []) refl

abbrev called : System
called = run (starts 0 ∷ calls 0 ∷ []) new_system

-- the call that nobody answers
call-terminates_example :
    (r : Result CallError JsonrpcResponse) × ((run
          ((starts 1 ∷ calls 1 ∷ [])
            ++ writes 0 ∷ ((ends 1 ∷ []) ++ times_out 0 ∷ ((exits 1 ∷ []) ++ leaves 0 ∷ [])))
          called).caller
        0
      ≡ returned r)
unfolding run new_system
call-terminates_example =
    call-terminates (starts 1 ∷ calls 1 ∷ []) (ends 1 ∷ []) (exits 1 ∷ []) [] 0 called
      (λ e. ground (arith, e)) refl
