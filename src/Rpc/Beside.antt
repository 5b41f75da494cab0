-- ===== src/Rpc/Beside.antt =====
-- What the callers of proxy/proxy.go leave alone.
use neuralgentics_broker.Prelude.{
  ℕ, String, ◌≡◌, refl, inl, inr, false, Option, none, some, arith, Bool-cases, Option-cases,
}
use neuralgentics_broker.Rpc.{
  System, Caller, idle, registered, waiting, leaving, CallError, register_request,
}
use neuralgentics_broker.Rpc.Goroutines.{
  give_up, write_request, receive, time_out, leave, notify, call_idle,
}

-- what the callers leave alone, but for the values in the channels
abbrev pub Beside : System → System → Type 0
Beside s s' =
    (s'.panicked ≡ s.panicked)
    × (s'.reader ≡ s.reader)
    × (s'.proxy.reader_ch ≡ s.proxy.reader_ch)
    × (s'.is_closed_reader_done ≡ s.is_closed_reader_done)
    × ((id : ℕ) → (s.channel id).is_closed ≡ false → (s'.channel id).is_closed ≡ false)

Beside-same : (s : System) → Beside s s
Beside-same s = (refl, refl, refl, refl, λ id e. e)

register_request-Beside : (j : ℕ) (s : System) → Beside s (register_request j s)
unfolding register_request
register_request-Beside j s = elim (Bool-cases s.proxy.running) [
  | inl live ↦ rw live (refl, refl, refl, refl, λ id e. ground (arith, e))
  | inr down ↦ rw down (refl, refl, refl, refl, λ id e. e)
]

pub call_idle-Beside : (j : ℕ) (c : Caller) (s : System) → Beside s (call_idle j c s)
call_idle-Beside j idle s = register_request-Beside j s
call_idle-Beside j c s = Beside-same s

pub give_up-Beside : (e : CallError) (j : ℕ) (c : Caller) (s : System) → Beside s (give_up e j c s)
give_up-Beside e j (registered id) s = (refl, refl, refl, refl, λ id e. e)
give_up-Beside e j c s = Beside-same s

pub write_request-Beside : (j : ℕ) (c : Caller) (s : System) → Beside s (write_request j c s)
write_request-Beside j (registered id) s = (refl, refl, refl, refl, λ id e. e)
write_request-Beside j c s = Beside-same s

pub time_out-Beside : (j : ℕ) (c : Caller) (s : System) → Beside s (time_out j c s)
time_out-Beside j (waiting id) s = (refl, refl, refl, refl, λ id e. e)
time_out-Beside j c s = Beside-same s

pub leave-Beside : (j : ℕ) (c : Caller) (s : System) → Beside s (leave j c s)
leave-Beside j (leaving id r) s = (refl, refl, refl, refl, λ id e. e)
leave-Beside j c s = Beside-same s

pub receive-Beside : (j : ℕ) (c : Caller) (s : System) → Beside s (receive j c s)
receive-Beside j (waiting id) s = elim (Option-cases (s.channel id).buffer) [
  | inl empty ↦ elim (Bool-cases (s.channel id).is_closed) [
    | inl closed ↦ rw (empty, closed) (refl, refl, refl, refl, λ id e. e)
    | inr open_ ↦ rw (empty, open_) (Beside-same s)
  ]
  | inr (r, full) ↦ rw full (refl, refl, refl, refl, λ m e. ground (arith, e))
]
receive-Beside j c s = Beside-same s

pub notify-Beside : (method : Option String) (s : System) → Beside s (notify method s)
notify-Beside none s = Beside-same s
notify-Beside (some method) s = elim (Bool-cases s.proxy.on_notify) [
  | inl set ↦ rw set (refl, refl, refl, refl, λ id e. e)
  | inr unset ↦ rw unset (Beside-same s)
]
