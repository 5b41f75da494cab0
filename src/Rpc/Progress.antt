-- ===== src/Rpc/Progress.antt =====
-- A call of `sendRPC` in proxy/proxy.go comes to its end, whatever the other goroutines do.
use neuralgentics_broker.Prelude.{
  ℕ, ◌≤◌, ◌≡◌, refl, sym, ap, ◌∙◌, ◌≢◌, inl, inr, false, List, [], ◌∷◌, ◌++◌, arith, if◌then◌else◌,
  Bool-cases, Result, put_at, err,
}
use neuralgentics_broker.Rpc.{
  System, Caller, idle, registered, waiting, leaving, returned, JsonrpcResponse, CallError,
  timed_out,
}
use neuralgentics_broker.Rpc.Goroutines.{
  write_request, time_out, leave, Move, writes, times_out, leaves, move, run,
}
use neuralgentics_broker.Rpc.Endings.{run-over, run-step}
use neuralgentics_broker.Rpc.Advance.{left_to_do, run-NoneBack}

put_at_self : (j : ℕ) (c : Caller) (s : System) → put_at s.caller j c j ≡ c
put_at_self j c s = ground arith

write_request-own :
    (k : ℕ) (c : Caller) (s : System)
    → s.caller k ≡ c
    → left_to_do c ≤ 3
    → left_to_do ((write_request k c s).caller k) ≤ 2
write_request-own k idle s q l = omega (arith, l)
write_request-own k (registered id) s q l = rw (put_at_self k (waiting id) s) (omega arith)
write_request-own k (waiting id) s q l = rw q (omega arith)
write_request-own k (leaving id r) s q l = rw q (omega arith)
write_request-own k (returned r) s q l = rw q (omega arith)

time_out-own :
    (k : ℕ) (c : Caller) (s : System)
    → s.caller k ≡ c
    → left_to_do c ≤ 2
    → left_to_do ((time_out k c s).caller k) ≤ 1
time_out-own k (waiting id) s q l = rw (put_at_self k (leaving id (err timed_out)) s) (omega arith)
time_out-own k (leaving id r) s q l = rw q (omega arith)
time_out-own k (returned r) s q l = rw q (omega arith)
time_out-own k idle s q l = omega (arith, l)
time_out-own k (registered id) s q l = omega (arith, l)

leave-own :
    (k : ℕ) (c : Caller) (s : System)
    → s.caller k ≡ c
    → left_to_do c ≤ 1
    → left_to_do ((leave k c s).caller k) ≤ 0
leave-own k (leaving id r) s q l = rw (put_at_self k (returned r) s) (omega arith)
leave-own k (returned r) s q l = rw q (omega arith)
leave-own k idle s q l = omega (arith, l)
leave-own k (registered id) s q l = omega (arith, l)
leave-own k (waiting id) s q l = omega (arith, l)

returned_at :
    (c : Caller) → left_to_do c ≤ 0 → (r : Result CallError JsonrpcResponse) × (c ≡ returned r)
returned_at (returned r) l = (r, refl)
returned_at idle l = absurd (omega (arith, l))
returned_at (registered id) l = absurd (omega (arith, l))
returned_at (waiting id) l = absurd (omega (arith, l))
returned_at (leaving id r) l = absurd (omega (arith, l))

run-append : (ms ns : List Move) (s : System) → run (ms ++ ns) s ≡ run ns (run ms s)
unfolding run
run-append [] ns s = refl
run-append (m ∷ ms) ns s = run-append ms ns (if s.panicked then s else move m s)

-- a run that has not crashed had not crashed before
live_before : (ms : List Move) (s : System) → (run ms s).panicked ≡ false → s.panicked ≡ false
live_before ms s h = elim (Bool-cases s.panicked) [
  | inl over ↦ let e = run-over ms s over in ground (arith, h, e)
  | inr live ↦ live
]

-- others move, and then the goroutine itself
after :
    (ms : List Move) (m : Move) (rest : List Move) (s : System) (k i j : ℕ)
    → ((s' : System) → left_to_do (s'.caller k) ≤ i → left_to_do ((move m s').caller k) ≤ j)
    → left_to_do (s.caller k) ≤ i
    → (run (ms ++ m ∷ rest) s).panicked ≡ false
    → (s' : System) × (run (ms ++ m ∷ rest) s ≡ run rest s') × (left_to_do (s'.caller k) ≤ j)
after ms m rest s k i j step l quiet =
    let s1 = run ms s in
    let whole = run-append ms (m ∷ rest) s in
    let live : s1.panicked ≡ false =
      live_before (m ∷ rest) s1 (sym (ap (λ (x : System). x.panicked) whole) ∙ quiet) in
    let back = run-NoneBack ms s k in
    (move m s1, whole ∙ run-step m rest s1 live, step s1 (omega (arith, back, l)))

under_way : (c : Caller) → c ≢ idle → left_to_do c ≤ 3
under_way idle busy = absurd (busy refl)
under_way (registered id) busy = omega arith
under_way (waiting id) busy = omega arith
under_way (leaving id r) busy = omega arith
under_way (returned r) busy = omega arith

-- A call that is under way returns, whatever the other goroutines do before, between and after, once its
-- write has ended, its time is up and it goes on to leave: unless the process crashes.
pub call-terminates :
    (ms1 ms2 ms3 ms4 : List Move) (k : ℕ) (s : System)
    → s.caller k ≢ idle
    → (run (ms1 ++ writes k ∷ (ms2 ++ times_out k ∷ (ms3 ++ leaves k ∷ ms4))) s).panicked ≡ false
    → (r : Result CallError JsonrpcResponse) × ((run
            (ms1 ++ writes k ∷ (ms2 ++ times_out k ∷ (ms3 ++ leaves k ∷ ms4)))
            s).caller
          k
        ≡ returned r)
unfolding move
call-terminates ms1 ms2 ms3 ms4 k s busy quiet =
    let (s1, e1, l1) =
      after ms1 (writes k) (ms2 ++ times_out k ∷ (ms3 ++ leaves k ∷ ms4)) s k 3 2
        (λ x. write_request-own k (x.caller k) x refl) (under_way (s.caller k) busy) quiet in
    let (s2, e2, l2) =
      after ms2 (times_out k) (ms3 ++ leaves k ∷ ms4) s1 k 2 1
        (λ x. time_out-own k (x.caller k) x refl) l1
        (sym (ap (λ (x : System). x.panicked) e1) ∙ quiet) in
    let (s3, e3, l3) =
      after ms3 (leaves k) ms4 s2 k 1 0 (λ x. leave-own k (x.caller k) x refl) l2
        (sym (ap (λ (x : System). x.panicked) (e1 ∙ e2)) ∙ quiet) in
    let back = run-NoneBack ms4 s3 k in
    let (r, done) = returned_at ((run ms4 s3).caller k) (omega (arith, back, l3)) in
    (r, ap (λ (x : System). x.caller k) (e1 ∙ e2 ∙ e3) ∙ done)
