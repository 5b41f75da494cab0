-- ===== src/Rpc/Goroutines.antt =====
-- The moves of the goroutines of proxy/proxy.go: `sendRPC` after its first unlock, the iterations of
-- `readLoop`, and the methods that may be called between them. A send on a full channel waits.
use neuralgentics_broker.Prelude.{
  ℕ, String, Bool, true, false, ◌||◌, Option, none, some, List, [], ◌∷◌, ◌++◌, if◌then◌else◌,
  put_at, ok, err,
}
use neuralgentics_broker.Rpc.{
  System, Caller, idle, registered, waiting, leaving, returned, Reader, unborn, scanning, exiting,
  gone, scanned, checking, routing, sending, Line, empty_line, malformed_line, bad_response,
  negative_id, response, notification, JsonrpcResponse, Channel, CallError, marshal_failed,
  write_failed, proxy_stopped, timed_out, elem_id, set_caller, set_reader, forget, register_request,
  start_reader, stop,
}

-- `json.Marshal` or `stdin.Write` fails, and the entry is to be deleted
abbrev pub give_up : CallError → ℕ → Caller → System → System
give_up e k (registered id) s = set_caller k (leaving id (err e)) s
give_up e k c s = s

abbrev pub write_request : ℕ → Caller → System → System
write_request k (registered id) s = set_caller k (waiting id) s
write_request k c s = s

-- `resp, ok := <-ch`: a value first, then the end of a closed channel
abbrev pub receive_from : ℕ → ℕ → Channel → System → System
receive_from k id c s = elim c.buffer [
  | some r ↦
      set_caller k (leaving id (ok r))
        (record s { channel = put_at s.channel id (record c { buffer = none }) })
  | none ↦ if c.is_closed then set_caller k (leaving id (err proxy_stopped)) s else s
]

abbrev pub receive : ℕ → Caller → System → System
receive k (waiting id) s = receive_from k id (s.channel id) s
receive k c s = s

-- `<-time.After(timeout)`
abbrev pub time_out : ℕ → Caller → System → System
time_out k (waiting id) s = set_caller k (leaving id (err timed_out)) s
time_out k c s = s

-- `delete(p.pending, id)` and the return
abbrev pub leave : ℕ → Caller → System → System
leave k (leaving id r) s = set_caller k (returned r) (forget id s)
leave k c s = s

abbrev pub scan : ℕ → Line → Reader → System → System
scan k l scanning s = set_reader k (scanned l) s
scan k l r s = s

-- the end of the loop, which may be the end of this reader's pipe alone
abbrev pub end_scan : ℕ → Reader → System → System
end_scan k scanning s =
    set_reader k exiting (record s { proxy = record s.proxy { running = false } })
end_scan k r s = s

-- `ch := p.readerCh` under the lock
abbrev pub look_at_stop : ℕ → Reader → System → System
look_at_stop k (scanned l) s = set_reader k (checking l s.proxy.reader_ch) s
look_at_stop k r s = s

-- the `select` on `ch`, if it is not nil
abbrev pub is_told_to_stop : (ℕ → Bool) → Option ℕ → Bool
is_told_to_stop closed none = false
is_told_to_stop closed (some ch) = closed ch

abbrev pub check_stop : ℕ → Reader → System → System
check_stop k (checking l ch) s =
    set_reader k (if is_told_to_stop s.is_closed_reader_ch ch then exiting else routing l) s
check_stop k r s = s

-- the handler, which runs if it is set and the line can be read
abbrev pub notify : Option String → System → System
notify none s = s
notify (some method) s =
    if s.proxy.on_notify then record s { notified = s.notified ++ method ∷ [] } else s

abbrev pub route_line : ℕ → Line → System → System
route_line k (response r) s =
    set_reader k (if elem_id r.id s.proxy.pending then sending r else scanning) s
route_line k (notification method) s = set_reader k scanning (notify method s)
route_line k empty_line s = set_reader k scanning s
route_line k malformed_line s = set_reader k scanning s
route_line k bad_response s = set_reader k scanning s
route_line k negative_id s = set_reader k scanning s

abbrev pub route : ℕ → Reader → System → System
route k (routing l) s = route_line k l s
route k r s = s

-- `ch <- &resp`
abbrev pub send_to : ℕ → JsonrpcResponse → Channel → System → System
send_to k r c s = if c.is_closed then record s { panicked = true } else elim c.buffer [
  | some other ↦ s
  | none ↦
      set_reader k scanning
        (record s { channel = put_at s.channel r.id (record c { buffer = some r }) })
]

abbrev pub send : ℕ → Reader → System → System
send k (sending r) s = send_to k r (s.channel r.id) s
send k r s = s

-- `close(p.readerDone)`
abbrev pub exit : ℕ → Reader → System → System
exit k exiting s = set_reader k gone (record s {
  is_closed_reader_done = put_at s.is_closed_reader_done s.proxy.reader_done true;
  panicked = s.panicked || s.is_closed_reader_done s.proxy.reader_done;
})
exit k r s = s

abbrev pub call_idle : ℕ → Caller → System → System
call_idle k idle s = register_request k s
call_idle k c s = s

abbrev pub launch : ℕ → Reader → System → System
launch k unborn s = start_reader k s
launch k r s = s

pub data Move : Type 0 where
  stops sets_handler : Move
  calls marshal_fails write_fails writes receives times_out leaves : ℕ → Move
  starts ends looks_at_stop checks_stop routes sends exits : ℕ → Move
  scans : ℕ → Line → Move

unfoldable pub move : Move → System → System
unfolding register_request start_reader stop
move stops s = stop s
move sets_handler s = record s { proxy = record s.proxy { on_notify = true } }
move (calls k) s = call_idle k (s.caller k) s
move (marshal_fails k) s = give_up marshal_failed k (s.caller k) s
move (write_fails k) s = give_up write_failed k (s.caller k) s
move (writes k) s = write_request k (s.caller k) s
move (receives k) s = receive k (s.caller k) s
move (times_out k) s = time_out k (s.caller k) s
move (leaves k) s = leave k (s.caller k) s
move (starts k) s = launch k (s.reader k) s
move (ends k) s = end_scan k (s.reader k) s
move (looks_at_stop k) s = look_at_stop k (s.reader k) s
move (checks_stop k) s = check_stop k (s.reader k) s
move (routes k) s = route k (s.reader k) s
move (sends k) s = send k (s.reader k) s
move (exits k) s = exit k (s.reader k) s
move (scans k l) s = scan k l (s.reader k) s

-- After a panic the process is gone.
unfoldable pub run : List Move → System → System
unfolding move
run [] s = s
run (m ∷ ms) s = run ms (if s.panicked then s else move m s)
