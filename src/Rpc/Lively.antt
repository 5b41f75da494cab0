-- ===== src/Rpc/Lively.antt =====
-- What the moves of proxy/proxy.go that start and end no reader leave of the readers that live, and of the
-- channel that a reader closes when it ends.
use neuralgentics_broker.Prelude.{
  ℕ, String, ◌≡◌, refl, ◌∙◌, inl, inr, Bool, true, false, Option, none, some, List, [], ◌∷◌, ◌++◌,
  eqb, if◌then◌else◌, Bool-cases, Option-cases, put_at,
}
use neuralgentics_broker.Rpc.{
  System, Caller, idle, registered, waiting, leaving, Reader, unborn, scanning, exiting, gone,
  scanned, checking, routing, sending, Line, response, notification, empty_line, malformed_line,
  bad_response, negative_id, JsonrpcResponse, CallError, close_reader_ch, close_pending, stop,
  set_reader, Channel, elem_id, marshal_failed, write_failed, register_request,
}
use neuralgentics_broker.Rpc.Goroutines.{
  call_idle, give_up, write_request, receive, time_out, leave, scan, end_scan, look_at_stop,
  is_told_to_stop, check_stop, notify, route_line, route, send_to, send, Move, stops, sets_handler,
  calls, marshal_fails, write_fails, writes, receives, times_out, leaves, starts, ends,
  looks_at_stop, checks_stop, routes, sends, exits, scans, move,
}
use neuralgentics_broker.Rpc.Endings.{stop-IsStopped}

-- a reader that has been started and has not ended
abbrev pub is_alive : Reader → Bool
is_alive unborn = false
is_alive gone = false
is_alive scanning = true
is_alive exiting = true
is_alive (scanned l) = true
is_alive (checking l ch) = true
is_alive (routing l) = true
is_alive (sending r) = true

-- whether the channel that a reader closes at its end is closed already
abbrev pub is_done : System → Bool
is_done s = s.is_closed_reader_done s.proxy.reader_done

-- Nothing that lives ends, and the channel stays as it is.
abbrev pub Lively : System → System → Type 0
Lively s s' =
    ((x : ℕ) → is_alive (s.reader x) ≡ true → is_alive (s'.reader x) ≡ true)
    × (is_done s' ≡ is_done s)

Lively-same : (s : System) → Lively s s
Lively-same s = (λ x e. e, refl)

turned : (k : ℕ) (r : Reader) (s : System) → is_alive r ≡ true → Lively s (set_reader k r s)
turned k r s e =
    (λ x a. elim (Bool-cases (eqb k x)) [ inl same ↦ rw same e | inr other ↦ rw other a ], refl)

close_pending-is_done : (ids : List ℕ) (s : System) → is_done (close_pending ids s) ≡ is_done s
unfolding close_pending
close_pending-is_done [] s = refl
close_pending-is_done (id ∷ ids) s = close_pending-is_done ids _

closed-is_done :
    (ch : Option ℕ) (s : System)
    → let s' = close_reader_ch ch s in
      is_done (record s' { proxy = record s'.proxy { reader_ch = none; running = false } })
      ≡ is_done s
closed-is_done none s = refl
closed-is_done (some ch) s = refl

stop-Lively : (s : System) → Lively s (stop s)
unfolding stop
stop-Lively s = (
  λ x e. rw (stop-IsStopped s).readers e,
  close_pending-is_done s.proxy.pending _ ∙ closed-is_done s.proxy.reader_ch s,
)

-- the moves of callers
module _ (k : ℕ) (s : System) where
  call_idle-Lively : (c : Caller) → Lively s (call_idle k c s)
  unfolding register_request
  call_idle-Lively idle = elim (Bool-cases s.proxy.running) [
    | inl on ↦ rw on (λ x e. e, refl)
    | inr off ↦ rw off (λ x e. e, refl)
  ]
  call_idle-Lively c = Lively-same s

  give_up-Lively : (e : CallError) (c : Caller) → Lively s (give_up e k c s)
  give_up-Lively e (registered id) = (λ x a. a, refl)
  give_up-Lively e c = Lively-same s

  write_request-Lively : (c : Caller) → Lively s (write_request k c s)
  write_request-Lively (registered id) = (λ x a. a, refl)
  write_request-Lively c = Lively-same s

  time_out-Lively : (c : Caller) → Lively s (time_out k c s)
  time_out-Lively (waiting id) = (λ x a. a, refl)
  time_out-Lively c = Lively-same s

  leave-Lively : (c : Caller) → Lively s (leave k c s)
  leave-Lively (leaving id r) = (λ x a. a, refl)
  leave-Lively c = Lively-same s

  receive-Lively : (c : Caller) → Lively s (receive k c s)
  receive-Lively (waiting id) = elim (Option-cases (s.channel id).buffer) [
    | inl empty ↦ elim (Bool-cases (s.channel id).is_closed) [
      | inl closed ↦ rw (empty, closed) (λ x e. e, refl)
      | inr open_ ↦ rw (empty, open_) (λ x e. e, refl)
    ]
    | inr (r, full) ↦ rw full (λ x e. e, refl)
  ]
  receive-Lively c = Lively-same s

  -- the moves of readers
  scan-Lively : (l : Line) (r : Reader) → Lively s (scan k l r s)
  scan-Lively l scanning = turned k (scanned l) s refl
  scan-Lively l r = Lively-same s

  look_at_stop-Lively : (r : Reader) → Lively s (look_at_stop k r s)
  look_at_stop-Lively (scanned l) = turned k (checking l s.proxy.reader_ch) s refl
  look_at_stop-Lively r = Lively-same s

  check_stop-Lively : (r : Reader) → Lively s (check_stop k r s)
  check_stop-Lively (checking l ch) = elim (Bool-cases (is_told_to_stop s.is_closed_reader_ch ch)) [
    | inl told ↦ rw told (turned k exiting s refl)
    | inr untold ↦ rw untold (turned k (routing l) s refl)
  ]
  check_stop-Lively r = Lively-same s

  end_scan-Lively : (r : Reader) → Lively s (end_scan k r s)
  end_scan-Lively scanning =
      turned k exiting (record s { proxy = record s.proxy { running = false } }) refl
  end_scan-Lively r = Lively-same s

  handled-Lively :
      (b : Bool) (methods : List String)
      → Lively s (set_reader k scanning (if b then record s { notified = methods } else s))
  handled-Lively true methods = turned k scanning (record s { notified = methods }) refl
  handled-Lively false methods = turned k scanning s refl

  notify-Lively : (method : Option String) → Lively s (set_reader k scanning (notify method s))
  notify-Lively none = turned k scanning s refl
  notify-Lively (some method) = handled-Lively s.proxy.on_notify (s.notified ++ method ∷ [])

  route_line-Lively : (l : Line) → Lively s (route_line k l s)
  route_line-Lively (response r) = elim (Bool-cases (elem_id r.id s.proxy.pending)) [
    | inl there ↦ rw there (turned k (sending r) s refl)
    | inr absent ↦ rw absent (turned k scanning s refl)
  ]
  route_line-Lively (notification method) = notify-Lively method
  route_line-Lively empty_line = turned k scanning s refl
  route_line-Lively malformed_line = turned k scanning s refl
  route_line-Lively bad_response = turned k scanning s refl
  route_line-Lively negative_id = turned k scanning s refl

  route-Lively : (r : Reader) → Lively s (route k r s)
  route-Lively (routing l) = route_line-Lively l
  route-Lively r = Lively-same s

  send_to-Lively : (r : JsonrpcResponse) (c : Channel) → Lively s (send_to k r c s)
  send_to-Lively r c = elim (Bool-cases c.is_closed) [
    | inl closed ↦ rw closed (λ x e. e, refl)
    | inr open_ ↦ elim (Option-cases c.buffer) [
      | inr (other, full) ↦ rw (open_, full) (λ x e. e, refl)
      | inl empty ↦
          rw (open_, empty)
            (turned k scanning
              (record s { channel = put_at s.channel r.id (record c { buffer = some r }) }) refl)
    ]
  ]

  send-Lively : (r : Reader) → Lively s (send k r s)
  send-Lively (sending r) = send_to-Lively r (s.channel r.id)
  send-Lively r = Lively-same s

-- moves that start no reader and end none
abbrev pub IsBetween : Move → Type 0
IsBetween (starts k) = ⊥
IsBetween (exits k) = ⊥
IsBetween m = Unit

pub move-Lively : (m : Move) (s : System) → IsBetween m → Lively s (move m s)
unfolding move
move-Lively stops s h = stop-Lively s
move-Lively sets_handler s h = (λ x e. e, refl)
move-Lively (calls k) s h = call_idle-Lively k s (s.caller k)
move-Lively (marshal_fails k) s h = give_up-Lively k s marshal_failed (s.caller k)
move-Lively (write_fails k) s h = give_up-Lively k s write_failed (s.caller k)
move-Lively (writes k) s h = write_request-Lively k s (s.caller k)
move-Lively (receives k) s h = receive-Lively k s (s.caller k)
move-Lively (times_out k) s h = time_out-Lively k s (s.caller k)
move-Lively (leaves k) s h = leave-Lively k s (s.caller k)
move-Lively (ends k) s h = end_scan-Lively k s (s.reader k)
move-Lively (looks_at_stop k) s h = look_at_stop-Lively k s (s.reader k)
move-Lively (checks_stop k) s h = check_stop-Lively k s (s.reader k)
move-Lively (routes k) s h = route-Lively k s (s.reader k)
move-Lively (sends k) s h = send-Lively k s (s.reader k)
move-Lively (starts k) s h = elim h [ ]
move-Lively (exits k) s h = elim h [ ]
move-Lively (scans k l) s h = scan-Lively k s l (s.reader k)
