-- ===== src/Rpc/Calm.antt =====
-- When no goroutine of proxy/proxy.go panics: with one reader and without `Stop`.
use neuralgentics_broker.Prelude.{
  ℕ, ◌≡◌, refl, sym, ap, ◌∙◌, ◌≢◌, inl, inr, Bool, true, false, ◌&&◌, none, some, List, [], ◌∷◌,
  arith, eqb, if◌then◌else◌, Bool-cases, Option-cases, put_at,
}
use mathlib.Core.Path.{subst}
use neuralgentics_broker.Rpc.{
  System, Reader, unborn, scanning, exiting, gone, scanned, checking, routing, sending, Line,
  response, notification, JsonrpcResponse, marshal_failed, write_failed, elem_id, set_reader,
  start_reader, new_system,
}
use neuralgentics_broker.Rpc.Goroutines.{
  is_told_to_stop, give_up, write_request, receive, time_out, leave, scan, end_scan, look_at_stop,
  check_stop, notify, route_line, route, send, exit, call_idle, launch, Move, stops, sets_handler,
  calls, marshal_fails, write_fails, writes, receives, times_out, leaves, starts, ends,
  looks_at_stop, checks_stop, routes, sends, exits, scans, move, run,
}
use neuralgentics_broker.Rpc.Beside.{
  Beside, call_idle-Beside, give_up-Beside, write_request-Beside, time_out-Beside, leave-Beside,
  receive-Beside, notify-Beside,
}

-- Nothing has panicked, every channel of a request is open, reader `k` is the only one, and a channel
-- for its end is closed only once it is gone.
record IsCalm (k : ℕ) (s : System) : Type 0 where
  quiet : s.panicked ≡ false
  opened : (id : ℕ) → (s.channel id).is_closed ≡ false
  alone : (j : ℕ) → j ≢ k → s.reader j ≡ unborn
  unbegun : s.reader k ≡ unborn → s.proxy.reader_ch ≡ none
  ended : (n : ℕ) → s.is_closed_reader_done n ≡ true → s.reader k ≡ gone

Beside-IsCalm : (k : ℕ) (s s' : System) → Beside s s' → IsCalm k s → IsCalm k s'
Beside-IsCalm k s s' d h = record {
  quiet = d.0 ∙ h.quiet;
  opened = λ id. d.4 id (h.opened id);
  alone = rw d.1 h.alone;
  unbegun = rw (d.1, d.2) h.unbegun;
  ended = rw (d.1, d.3) h.ended;
}

checked : (t : Bool) (l : Line) → (if t then exiting else routing l) ≢ unborn
checked true l e = ground arith
checked false l e = ground arith

found : (t : Bool) (r : JsonrpcResponse) → (if t then sending r else scanning) ≢ unborn
found true r e = ground arith
found false r e = ground arith

module _ {k : ℕ} where
  only : (j : ℕ) (r : Reader) (s : System) → s.reader j ≡ r → r ≢ unborn → IsCalm k s → j ≡ k
  only j r s q n h = elim (Bool-cases (eqb j k)) [
    | inl same ↦ ground arith
    | inr other ↦ absurd (n (sym q ∙ h.alone j (ground (arith, other))))
  ]

  -- the reader goes on
  go :
      (j : ℕ) (before after : Reader) (s : System)
      → s.reader j ≡ before
      → before ≢ unborn
      → before ≢ gone
      → after ≢ unborn
      → IsCalm k s
      → IsCalm k (set_reader j after s)
  go j before after s q n g a h =
      let same = only j before s q n h in
      let now : s.reader k ≡ before = ap s.reader (sym same) ∙ q in
      record {
        quiet = h.quiet;
        opened = h.opened;
        alone = λ i d. elim (Bool-cases (eqb j i)) [
          | inl here ↦ absurd (d (ground arith))
          | inr away ↦ rw away (h.alone i d)
        ];
        unbegun = λ e. absurd (a (ground (arith, e, same)));
        ended = λ m e. absurd (g (sym now ∙ h.ended m e));
      }

  scan-IsCalm :
      (j : ℕ) (l : Line) (r : Reader) (s : System)
      → s.reader j ≡ r
      → IsCalm k s
      → IsCalm k (scan j l r s)
  scan-IsCalm j l scanning s q h =
      go j scanning (scanned l) s q (λ e. ground arith) (λ e. ground arith) (λ e. ground arith) h
  scan-IsCalm j l r s q h = h

  end_scan-IsCalm :
      (j : ℕ) (r : Reader) (s : System) → s.reader j ≡ r → IsCalm k s → IsCalm k (end_scan j r s)
  end_scan-IsCalm j scanning s q h =
      go j scanning exiting (record s { proxy = record s.proxy { running = false } }) q
        (λ e. ground arith) (λ e. ground arith) (λ e. ground arith)
        (Beside-IsCalm k s _ (refl, refl, refl, refl, λ id e. e) h)
  end_scan-IsCalm j r s q h = h

  look_at_stop-IsCalm :
      (j : ℕ) (r : Reader) (s : System)
      → s.reader j ≡ r
      → IsCalm k s
      → IsCalm k (look_at_stop j r s)
  look_at_stop-IsCalm j (scanned l) s q h =
      go j (scanned l) (checking l s.proxy.reader_ch) s q (λ e. ground arith) (λ e. ground arith)
        (λ e. ground arith) h
  look_at_stop-IsCalm j r s q h = h

  check_stop-IsCalm :
      (j : ℕ) (r : Reader) (s : System) → s.reader j ≡ r → IsCalm k s → IsCalm k (check_stop j r s)
  check_stop-IsCalm j (checking l ch) s q h =
      go j (checking l ch) (if is_told_to_stop s.is_closed_reader_ch ch then exiting else routing l)
        s q (λ e. ground arith) (λ e. ground arith)
        (checked (is_told_to_stop s.is_closed_reader_ch ch) l) h
  check_stop-IsCalm j r s q h = h

  -- back to the next line
  again :
      (j : ℕ) (l : Line) (s : System)
      → s.reader j ≡ routing l
      → IsCalm k s
      → IsCalm k (set_reader j scanning s)
  again j l s q h =
      go j (routing l) scanning s q (λ e. ground arith) (λ e. ground arith) (λ e. ground arith) h

  route_line-IsCalm :
      (j : ℕ) (l : Line) (s : System)
      → s.reader j ≡ routing l
      → IsCalm k s
      → IsCalm k (route_line j l s)
  route_line-IsCalm j (response r) s q h =
      go j (routing (response r)) (if elem_id r.id s.proxy.pending then sending r else scanning) s q
        (λ e. ground arith) (λ e. ground arith) (found (elem_id r.id s.proxy.pending) r) h
  route_line-IsCalm j (notification method) s q h =
      let d = notify-Beside method s in
      again j (notification method) (notify method s) (rw d.1 q)
        (Beside-IsCalm k s (notify method s) d h)
  route_line-IsCalm j l s q h = again j l s q h

  route-IsCalm :
      (j : ℕ) (r : Reader) (s : System) → s.reader j ≡ r → IsCalm k s → IsCalm k (route j r s)
  route-IsCalm j (routing l) s q h = route_line-IsCalm j l s q h
  route-IsCalm j r s q h = h

  send-IsCalm :
      (j : ℕ) (r : Reader) (s : System) → s.reader j ≡ r → IsCalm k s → IsCalm k (send j r s)
  send-IsCalm j (sending r) s q h = elim (Option-cases (s.channel r.id).buffer) [
    | inl empty ↦
        rw (h.opened r.id, empty)
          (go j (sending r) scanning
            (record s {
              channel = put_at s.channel r.id (record (s.channel r.id) { buffer = some r });
            })
            q (λ e. ground arith) (λ e. ground arith) (λ e. ground arith)
            (Beside-IsCalm k s
              (record s {
                channel = put_at s.channel r.id (record (s.channel r.id) { buffer = some r });
              })
              (refl, refl, refl, refl, λ m e. ground (arith, e)) h))
    | inr (x, full) ↦ rw (h.opened r.id, full) h
  ]
  send-IsCalm j r s q h = h

  exit-IsCalm :
      (j : ℕ) (r : Reader) (s : System) → s.reader j ≡ r → IsCalm k s → IsCalm k (exit j r s)
  exit-IsCalm j exiting s q h =
      let same = only j exiting s q (λ e. ground arith) h in
      let now : s.reader k ≡ exiting = ap s.reader (sym same) ∙ q in
      let open_ : s.is_closed_reader_done s.proxy.reader_done ≡ false =
        elim (Bool-cases (s.is_closed_reader_done s.proxy.reader_done)) [
          | inl closed ↦ absurd (ground (arith, sym now ∙ h.ended s.proxy.reader_done closed))
          | inr still ↦ still
        ] in
      record {
        quiet = ground (arith, h.quiet, open_);
        opened = h.opened;
        alone = λ i d. elim (Bool-cases (eqb j i)) [
          | inl here ↦ absurd (d (ground arith))
          | inr away ↦ rw away (h.alone i d)
        ];
        unbegun = λ e. ground (arith, e, same);
        ended = λ m e. ground (arith, same);
      }
  exit-IsCalm j r s q h = h

  launch-IsCalm :
      (j : ℕ) (r : Reader) (s : System)
      → s.reader j ≡ r
      → j ≡ k
      → IsCalm k s
      → IsCalm k (launch j r s)
  unfolding start_reader
  launch-IsCalm j unborn s q same h =
      let now : s.reader k ≡ unborn = ap s.reader (sym same) ∙ q in
      rw (h.unbegun now) (record {
        quiet = h.quiet;
        opened = h.opened;
        alone = λ i d. elim (Bool-cases (eqb j i)) [
          | inl here ↦ absurd (d (ground arith))
          | inr away ↦ rw away (h.alone i d)
        ];
        unbegun = λ e. ground (arith, e, same);
        ended = λ m e. ground (arith, sym now ∙ h.ended m e);
      })
  launch-IsCalm j r s q same h = h

-- a move that is not `Stop`, and starts no reader but `k`
abbrev pub is_gentle : ℕ → Move → Bool
is_gentle k stops = false
is_gentle k (starts j) = eqb j k
is_gentle k m = true

abbrev pub all_gentle : ℕ → List Move → Bool
all_gentle k [] = true
all_gentle k (m ∷ ms) = is_gentle k m && all_gentle k ms

move-IsCalm :
    (k : ℕ) (m : Move) (s : System) → is_gentle k m ≡ true → IsCalm k s → IsCalm k (move m s)
unfolding move
move-IsCalm k stops s g h = ground (arith, g)
move-IsCalm k sets_handler s g h = Beside-IsCalm k s _ (refl, refl, refl, refl, λ id e. e) h
move-IsCalm k (calls j) s g h =
    Beside-IsCalm k s (call_idle j (s.caller j) s) (call_idle-Beside j (s.caller j) s) h
move-IsCalm k (marshal_fails j) s g h =
    Beside-IsCalm k s (give_up marshal_failed j (s.caller j) s)
      (give_up-Beside marshal_failed j (s.caller j) s) h
move-IsCalm k (write_fails j) s g h =
    Beside-IsCalm k s (give_up write_failed j (s.caller j) s)
      (give_up-Beside write_failed j (s.caller j) s) h
move-IsCalm k (writes j) s g h =
    Beside-IsCalm k s (write_request j (s.caller j) s) (write_request-Beside j (s.caller j) s) h
move-IsCalm k (receives j) s g h =
    Beside-IsCalm k s (receive j (s.caller j) s) (receive-Beside j (s.caller j) s) h
move-IsCalm k (times_out j) s g h =
    Beside-IsCalm k s (time_out j (s.caller j) s) (time_out-Beside j (s.caller j) s) h
move-IsCalm k (leaves j) s g h =
    Beside-IsCalm k s (leave j (s.caller j) s) (leave-Beside j (s.caller j) s) h
move-IsCalm k (starts j) s g h = launch-IsCalm j (s.reader j) s refl (ground (arith, g)) h
move-IsCalm k (ends j) s g h = end_scan-IsCalm j (s.reader j) s refl h
move-IsCalm k (looks_at_stop j) s g h = look_at_stop-IsCalm j (s.reader j) s refl h
move-IsCalm k (checks_stop j) s g h = check_stop-IsCalm j (s.reader j) s refl h
move-IsCalm k (routes j) s g h = route-IsCalm j (s.reader j) s refl h
move-IsCalm k (sends j) s g h = send-IsCalm j (s.reader j) s refl h
move-IsCalm k (exits j) s g h = exit-IsCalm j (s.reader j) s refl h
move-IsCalm k (scans j l) s g h = scan-IsCalm j l (s.reader j) s refl h

run-IsCalm :
    (k : ℕ) (ms : List Move) (s : System)
    → all_gentle k ms ≡ true
    → IsCalm k s
    → IsCalm k (run ms s)
unfolding run
run-IsCalm k [] s g h = h
run-IsCalm k (m ∷ ms) s g h =
    let first : is_gentle k m ≡ true = ground (arith, g) in
    let others : all_gentle k ms ≡ true = ground (arith, g) in
    subst (λ b. IsCalm k (run ms (if b then s else move m s))) (sym h.quiet)
      (run-IsCalm k ms (move m s) others (move-IsCalm k m s first h))

-- Without `Stop` and with one reader at most, no goroutine of the proxy panics, whatever the lines and
-- the order of the moves.
pub run-quiet :
    (k : ℕ) (ms : List Move) → all_gentle k ms ≡ true → (run ms new_system).panicked ≡ false
unfolding new_system
run-quiet k ms g =
    (run-IsCalm k ms new_system g (record {
      quiet = refl;
      opened = λ id. refl;
      alone = λ j d. refl;
      unbegun = λ e. refl;
      ended = λ n e. ground arith;
    })).quiet
