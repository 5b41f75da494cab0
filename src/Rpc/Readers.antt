-- ===== src/Rpc/Readers.antt =====
-- The moves of the readers of proxy/proxy.go, of `StartReader` and of `Stop`, and what they leave of the
-- requests.
use neuralgentics_broker.Prelude.{
  ℕ, String, ◌≡◌, refl, inl, inr, false, Option, none, some, List, [], ◌∷◌, arith, Bool-cases,
  Option-cases,
}
use neuralgentics_broker.Rpc.{
  System, Reader, unborn, scanning, exiting, scanned, checking, routing, sending, Line,
  notification, start_reader, close_reader_ch, close_pending, stop,
}
use neuralgentics_broker.Rpc.Goroutines.{
  scan, end_scan, look_at_stop, check_stop, notify, route_line, route, send, exit, launch,
}
use neuralgentics_broker.Rpc.Invariant.{put_buffer-IsRouted, close-IsRouted}
use neuralgentics_broker.Rpc.Callers.{IsSane}

-- what the requests and their channels are made of stays as it was
abbrev pub Apart : System → System → Type 0
Apart s s' =
    (s'.proxy.next_id ≡ s.proxy.next_id)
    × (s'.proxy.pending ≡ s.proxy.pending)
    × (s'.channel ≡ s.channel)
    × (s'.caller ≡ s.caller)

pub Apart-IsSane : (s s' : System) → Apart s s' → IsSane s → IsSane s'
Apart-IsSane s s' a h = rw (a.0, a.1, a.2, a.3) h

close_reader_ch-Apart : (ch : Option ℕ) (s : System) → Apart s (close_reader_ch ch s)
close_reader_ch-Apart none s = (refl, refl, refl, refl)
close_reader_ch-Apart (some ch) s = (refl, refl, refl, refl)

close_pending-IsSane : (ids : List ℕ) (s : System) → IsSane s → IsSane (close_pending ids s)
unfolding close_pending
close_pending-IsSane [] s h = h
close_pending-IsSane (id ∷ ids) s h = close_pending-IsSane ids _ (close-IsRouted id h)

pub stop-IsSane : (s : System) → IsSane s → IsSane (stop s)
unfolding stop
stop-IsSane s h =
    let s' = close_reader_ch s.proxy.reader_ch s in
    close_pending-IsSane s.proxy.pending
      (record s' { proxy = record s'.proxy { reader_ch = none; running = false } })
      (Apart-IsSane s s' (close_reader_ch-Apart s.proxy.reader_ch s) h)

pub launch-Apart : (k : ℕ) (r : Reader) (s : System) → Apart s (launch k r s)
unfolding start_reader
launch-Apart k unborn s = close_reader_ch-Apart s.proxy.reader_ch s
launch-Apart k r s = (refl, refl, refl, refl)

pub scan-Apart : (k : ℕ) (l : Line) (r : Reader) (s : System) → Apart s (scan k l r s)
scan-Apart k l scanning s = (refl, refl, refl, refl)
scan-Apart k l r s = (refl, refl, refl, refl)

pub end_scan-Apart : (k : ℕ) (r : Reader) (s : System) → Apart s (end_scan k r s)
end_scan-Apart k scanning s = (refl, refl, refl, refl)
end_scan-Apart k r s = (refl, refl, refl, refl)

pub look_at_stop-Apart : (k : ℕ) (r : Reader) (s : System) → Apart s (look_at_stop k r s)
look_at_stop-Apart k (scanned l) s = (refl, refl, refl, refl)
look_at_stop-Apart k r s = (refl, refl, refl, refl)

pub check_stop-Apart : (k : ℕ) (r : Reader) (s : System) → Apart s (check_stop k r s)
check_stop-Apart k (checking l ch) s = (refl, refl, refl, refl)
check_stop-Apart k r s = (refl, refl, refl, refl)

notify-Apart : (method : Option String) (s : System) → Apart s (notify method s)
notify-Apart none s = (refl, refl, refl, refl)
notify-Apart (some method) s = elim (Bool-cases s.proxy.on_notify) [
  | inl set ↦ rw set (refl, refl, refl, refl)
  | inr unset ↦ rw unset (refl, refl, refl, refl)
]

route_line-Apart : (k : ℕ) (l : Line) (s : System) → Apart s (route_line k l s)
route_line-Apart k (notification method) s = notify-Apart method s
route_line-Apart k l s = (refl, refl, refl, refl)

pub route-Apart : (k : ℕ) (r : Reader) (s : System) → Apart s (route k r s)
route-Apart k (routing l) s = route_line-Apart k l s
route-Apart k r s = (refl, refl, refl, refl)

pub exit-Apart : (k : ℕ) (r : Reader) (s : System) → Apart s (exit k r s)
exit-Apart k exiting s = (refl, refl, refl, refl)
exit-Apart k r s = (refl, refl, refl, refl)

pub send-IsSane : (k : ℕ) (r : Reader) (s : System) → IsSane s → IsSane (send k r s)
send-IsSane k (sending r) s h = elim (Bool-cases (s.channel r.id).is_closed) [
  | inl closed ↦ rw closed h
  | inr open_ ↦ elim (Option-cases (s.channel r.id).buffer) [
    | inl empty ↦ rw (open_, empty) (put_buffer-IsRouted r.id (some r) (λ x e. ground arith) h)
    | inr (x, full) ↦ rw (open_, full) h
  ]
]
send-IsSane k r s h = h
