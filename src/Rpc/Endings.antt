-- ===== src/Rpc/Endings.antt =====
-- What `Stop` of proxy/proxy.go does to the calls that wait, and to a reader that is about to send.
use neuralgentics_broker.Prelude.{
  ℕ, ◌≡◌, refl, ap, ◌∙◌, inl, inr, true, false, not, ◌&&◌, ◌||◌, Option, none, some, List, [], ◌∷◌,
  arith, if◌then◌else◌, Bool-cases, Option-cases, Result, ok, err,
}
use neuralgentics_broker.Rpc.{
  System, waiting, leaving, sending, JsonrpcResponse, CallError, proxy_stopped, elem_id,
  close_reader_ch, close_pending, stop, new_system,
}
use neuralgentics_broker.Rpc.Goroutines.{
  receive_from, receive, send, Move, stops, receives, sends, move, run,
}
use neuralgentics_broker.Rpc.Invariant.{IsOwn, elem_id-remove_id}
use neuralgentics_broker.Rpc.Callers.{IsSane, here}
use neuralgentics_broker.Rpc.Readers.{stop-IsSane}
use neuralgentics_broker.Rpc.Safety.{run-IsSane, new_system-IsSane}

close_pending-pending :
    (n : ℕ) (ids : List ℕ) (s : System)
    → elem_id n (close_pending ids s).proxy.pending
      ≡ (elem_id n s.proxy.pending && not (elem_id n ids))
unfolding close_pending
close_pending-pending n [] s = ground arith
close_pending-pending n (id ∷ ids) s =
    close_pending-pending n ids _ ∙ ground (arith, elem_id-remove_id n id s.proxy.pending)

close_pending-closed :
    (n : ℕ) (ids : List ℕ) (s : System)
    → ((close_pending ids s).channel n).is_closed ≡ (elem_id n ids || (s.channel n).is_closed)
unfolding close_pending
close_pending-closed n [] s = refl
close_pending-closed n (id ∷ ids) s = close_pending-closed n ids _ ∙ ground arith

close_pending-caller : (ids : List ℕ) (s : System) → (close_pending ids s).caller ≡ s.caller
unfolding close_pending
close_pending-caller [] s = refl
close_pending-caller (id ∷ ids) s = close_pending-caller ids _

close_pending-reader : (ids : List ℕ) (s : System) → (close_pending ids s).reader ≡ s.reader
unfolding close_pending
close_pending-reader [] s = refl
close_pending-reader (id ∷ ids) s = close_pending-reader ids _

close_reader_ch-caller : (ch : Option ℕ) (s : System) → (close_reader_ch ch s).caller ≡ s.caller
close_reader_ch-caller none s = refl
close_reader_ch-caller (some ch) s = refl

close_reader_ch-reader : (ch : Option ℕ) (s : System) → (close_reader_ch ch s).reader ≡ s.reader
close_reader_ch-reader none s = refl
close_reader_ch-reader (some ch) s = refl

close_reader_ch-proxy : (ch : Option ℕ) (s : System) → (close_reader_ch ch s).proxy ≡ s.proxy
close_reader_ch-proxy none s = refl
close_reader_ch-proxy (some ch) s = refl

-- `Stop` has moved no goroutine, left no id pending, and closed the channels of those that were.
pub record IsStopped (s s' : System) : Type 0 where
  pub callers : s'.caller ≡ s.caller
  pub readers : s'.reader ≡ s.reader
  emptied : (n : ℕ) → elem_id n s'.proxy.pending ≡ false
  closed : (n : ℕ) → elem_id n s.proxy.pending ≡ true → (s'.channel n).is_closed ≡ true

pub stop-IsStopped : (s : System) → IsStopped s (stop s)
unfolding stop
stop-IsStopped s =
    let s' = close_reader_ch s.proxy.reader_ch s in
    let s'' = record s' { proxy = record s'.proxy { reader_ch = none; running = false } } in
    let same = close_reader_ch-proxy s.proxy.reader_ch s in
    let ids = s.proxy.pending in
    record {
      callers = close_pending-caller ids s'' ∙ close_reader_ch-caller s.proxy.reader_ch s;
      readers = close_pending-reader ids s'' ∙ close_reader_ch-reader s.proxy.reader_ch s;
      emptied = λ n. close_pending-pending n ids s'' ∙ rw same (ground arith);
      closed = λ n e. close_pending-closed n ids s'' ∙ rw e refl;
    }

-- what a call whose channel holds this, closed by `Stop`, returns
abbrev pub end_of : Option JsonrpcResponse → Result CallError JsonrpcResponse
end_of (some r) = ok r
end_of none = err proxy_stopped

close_pending-buffer :
    (n : ℕ) (ids : List ℕ) (s : System)
    → ((close_pending ids s).channel n).buffer ≡ (s.channel n).buffer
unfolding close_pending
close_pending-buffer n [] s = refl
close_pending-buffer n (id ∷ ids) s = close_pending-buffer n ids _ ∙ ground arith

close_reader_ch-channel : (ch : Option ℕ) (s : System) → (close_reader_ch ch s).channel ≡ s.channel
close_reader_ch-channel none s = refl
close_reader_ch-channel (some ch) s = refl

stop-buffer : (n : ℕ) (s : System) → ((stop s).channel n).buffer ≡ (s.channel n).buffer
unfolding stop
stop-buffer n s =
    close_pending-buffer n s.proxy.pending _
    ∙ ap (λ c. (c n).buffer) (close_reader_ch-channel s.proxy.reader_ch s)

stopped :
    (k id : ℕ) (s s' : System)
    → s.caller k ≡ waiting id
    → IsSane s
    → IsSane s'
    → IsStopped s s'
    → (s'.channel id).is_closed ≡ true
stopped k id s s' q h h' st =
    let p = (here k (waiting id) s' (rw st.callers q) h').1 in ground (arith, st.emptied id, p)

received :
    (k id : ℕ) (s : System)
    → (s.channel id).is_closed ≡ true
    → (receive_from k id (s.channel id) s).caller k ≡ leaving id (end_of (s.channel id).buffer)
received k id s closed = elim (Option-cases (s.channel id).buffer) [
  | inl empty ↦ rw (empty, closed) (ground arith)
  | inr (r, full) ↦ rw full (ground arith)
]

end_of-IsOwn : (id : ℕ) (s : System) → IsSane s → IsOwn id (end_of (s.channel id).buffer)
end_of-IsOwn id s h = elim (Option-cases (s.channel id).buffer) [
  | inl empty ↦ rw empty tt
  | inr (r, full) ↦ rw full (h.own id r full)
]

-- After any run and a `Stop`, a call that was waiting has its end at once: it returns the response that had
-- arrived on its channel before the `Stop`, which has its own id, and if none had, the error that the proxy
-- is stopped. No id stays pending.
pub stop-releases :
    (ms : List Move) (k id n : ℕ)
    → (run ms new_system).caller k ≡ waiting id
    → let s = run ms new_system in
      let r = end_of (s.channel id).buffer in
      ((move (receives k) (stop s)).caller k ≡ leaving id r)
      × IsOwn id r
      × (elem_id n (stop s).proxy.pending ≡ false)
unfolding move
stop-releases ms k id n q =
    let s = run ms new_system in
    let h = run-IsSane ms new_system new_system-IsSane in
    let st = stop-IsStopped s in
    let c = stopped k id s (stop s) q h (stop-IsSane s h) st in
    let still : (stop s).caller k ≡ waiting id = rw st.callers q in
    (
      ap (λ c'. (receive k c' (stop s)).caller k) still
          ∙ received k id (stop s) c
          ∙ ap (λ b. leaving id (end_of b)) (stop-buffer id s),
      end_of-IsOwn id s h,
      st.emptied n,
    )

pub run-over : (ms : List Move) (s : System) → s.panicked ≡ true → (run ms s).panicked ≡ true
unfolding run
run-over [] s h = h
run-over (m ∷ ms) s h =
    run-over ms (if s.panicked then s else move m s)
      (ap (λ t. (if t then s else move m s).panicked) h ∙ h)

pub run-step :
    (m : Move) (ms : List Move) (s : System)
    → s.panicked ≡ false
    → run (m ∷ ms) s ≡ run ms (move m s)
unfolding run
run-step m ms s h = ap (λ t. run ms (if t then s else move m s)) h

-- A reader that has found a call's channel and has not sent yet when `Stop` runs crashes the broker: it
-- sends on a closed channel.
stop-sends-panics :
    (k : ℕ) (r : JsonrpcResponse) (s : System)
    → s.reader k ≡ sending r
    → elem_id r.id s.proxy.pending ≡ true
    → (run (stops ∷ sends k ∷ []) s).panicked ≡ true
unfolding run move
stop-sends-panics k r s q e = elim (Bool-cases s.panicked) [
  | inl over ↦ run-over (stops ∷ sends k ∷ []) s over
  | inr live ↦
      let st = stop-IsStopped s in
      let still : (stop s).reader k ≡ sending r = rw st.readers q in
      ap (λ (x : System). x.panicked) (run-step stops (sends k ∷ []) s live)
      ∙ elim (Bool-cases (stop s).panicked) [
        | inl over ↦ run-over (sends k ∷ []) (stop s) over
        | inr live' ↦
            ap (λ (x : System). x.panicked) (run-step (sends k) [] (stop s) live')
            ∙ ap (λ x. (send k x (stop s)).panicked) still
            ∙ rw (st.closed r.id e) refl
      ]
]
