-- ===== src/Broker/Activation/Success.antt =====
-- When an activation of broker.go succeeds: one transport that works is enough, wherever it stands.
use neuralgentics_broker.Prelude.{
  ℕ, zero, suc, ◌+◌, ◌-◌, ◌%◌, ◌≤◌, ◌<◌, String, ◌≡◌, refl, ap, ◌∙◌, inl, inr, true, false, Option,
  none, some, List, [], ◌∷◌, arith, leb, eqb, if◌then◌else◌, Bool-cases, Option-cases, is_ok, ok,
  err, length, is_empty,
}
use native.Mathlib.Nat.{mod-eq_of_lt, add-mod_right}
use neuralgentics_broker.Errors.{Outcome}
use neuralgentics_broker.Types.{ServerConfig, TransportConfig, McpServerConfig}
use neuralgentics_broker.Registry.{find}
use neuralgentics_broker.Host.{Host}
use neuralgentics_broker.Broker.{Broker}
use neuralgentics_broker.Broker.Activation.{
  attempt, attempt_at, settle, nth, activate_loop, start_index, activate,
}
use neuralgentics_broker.Broker.Activation.Fallback.{config_of, config_of-attempt, chosen}

-- The attempt with this transport succeeds whenever the server is registered.
abbrev pub Works : Host → String → McpServerConfig → TransportConfig → Type 0
Works host name c t =
    (b : Broker) (sc : ServerConfig)
    → config_of name b ≡ some sc
    → is_ok (attempt host name c t b).1 ≡ true

-- the round in which a transport's turn comes
abbrev round_of : ℕ → ℕ → ℕ → ℕ
round_of n start_idx k = if leb start_idx k then k - start_idx else k + n - start_idx

round_of-lt : (n start_idx k : ℕ) → k < n → start_idx < n → round_of n start_idx k < n
round_of-lt n start_idx k h l = ground arith

round_of_lem :
    (n start_idx k : ℕ) → k < n → start_idx < n → (start_idx + round_of n start_idx k) % n ≡ k
round_of_lem n start_idx k h l = elim (Bool-cases (leb start_idx k)) [
  | inl here ↦ rw here (ap (λ x. x % n) (ground arith) ∙ mod-eq_of_lt h)
  | inr before ↦ rw before (ap (λ x. x % n) (ground arith) ∙ add-mod_right k n ∙ mod-eq_of_lt h)
]

settle-ok :
    (sc old : ServerConfig) (name : String) (t : TransportConfig)
    (next : Broker → Broker × Outcome String) (b : Broker) (r : Outcome (Unit {0}))
    → config_of name b ≡ some (if is_ok r then sc else old)
    → ((b' : Broker) → config_of name b' ≡ some old → is_ok (next b').1 ≡ true)
    → is_ok (settle t next b r).1 ≡ true
settle-ok sc old name t next b (ok u) h k = refl
settle-ok sc old name t next b (err e) h k = k b h

settle-done :
    (t : TransportConfig) (next : Broker → Broker × Outcome String) (b : Broker)
    (r : Outcome (Unit {0}))
    → is_ok r ≡ true
    → is_ok (settle t next b r).1 ≡ true
settle-done t next b (ok u) h = refl
settle-done t next b (err e) h = ground (arith, h)

module _ (host : Host) (name : String) (c : McpServerConfig) (old : ServerConfig) where
  attempt_at-ok :
      (o : Option TransportConfig) (next : Broker → Broker × Outcome String) (b : Broker)
      → config_of name b ≡ some old
      → ((b' : Broker) → config_of name b' ≡ some old → is_ok (next b').1 ≡ true)
      → is_ok (attempt_at host name c o next b).1 ≡ true
  attempt_at-ok none next b h k = k b h
  attempt_at-ok (some t) next b h k =
      let done = attempt host name c t b in
      settle-ok (chosen host name c t) old name t next done.0 done.1
        (config_of-attempt host name c t old b h) k

  activate_loop-ok :
      (n start_idx turn i left : ℕ) (t : TransportConfig) (b : Broker)
      → i + left ≡ n
      → i ≤ turn
      → turn < n
      → nth c.transports ((start_idx + turn) % n) ≡ some t
      → Works host name c t
      → config_of name b ≡ some old
      → is_ok (activate_loop host name c n start_idx i left b).1 ≡ true
  unfolding activate_loop
  activate_loop-ok n start_idx turn i zero t b e l m p w h = ground (arith, e, l, m)
  activate_loop-ok n start_idx turn i (suc left) t b e l m p w h =
      let next = activate_loop host name c n start_idx (suc i) left in
      elim (Bool-cases (eqb i turn)) [
        | inl now ↦
            let same : i ≡ turn = ground arith in
            let done = attempt host name c t b in
            rw (same, p)
              (settle-done t (activate_loop host name c n start_idx (suc turn) left) done.0 done.1
                (w b old h))
        | inr later_on ↦ attempt_at-ok (nth c.transports ((start_idx + i) % n)) next b h (λ b' h'.
            activate_loop-ok n start_idx turn (suc i) left t b' (omega (arith, e))
              (ground (arith, l, later_on)) m p w h')
      ]

nth-length :
    (ts : List TransportConfig) (k : ℕ) {t : TransportConfig} → nth ts k ≡ some t → k < length ts
nth-length [] k h = ground (arith, h)
nth-length (x ∷ ts) zero h = omega arith
nth-length (x ∷ ts) (suc k) h = let l = nth-length ts k h in omega (arith, l)

start_index-lt : (n : ℕ) (i : Option ℕ) → 0 < n → start_index n i < n
start_index-lt n none h = h
start_index-lt n (some i) h = ground (arith, h)

is_empty-nth :
    (ts : List TransportConfig) (k : ℕ) {t : TransportConfig}
    → nth ts k ≡ some t
    → is_empty ts ≡ false
is_empty-nth [] k h = ground (arith, h)
is_empty-nth (x ∷ ts) k h = refl

-- If a server is registered and one of the given transports works, then the activation succeeds,
-- whatever index it is asked to start with and whatever the other transports do.
pub activate-succeeds :
    (host : Host) (name : String) (c : McpServerConfig) (i : Option ℕ) (old : ServerConfig) (k : ℕ)
    (t : TransportConfig) (b : Broker)
    → config_of name b ≡ some old
    → nth c.transports k ≡ some t
    → Works host name c t
    → is_ok (activate host name c i b).1 ≡ true
unfolding activate
activate-succeeds host name c i old k t b h p w = elim (Option-cases (find name b.registry)) [
  | inl absent ↦ cc
  | inr (e, there) ↦
      let n = length c.transports in
      let start_idx = start_index n i in
      let below = nth-length c.transports k p in
      let first = start_index-lt n i (omega (arith, below)) in
      rw (there, is_empty-nth c.transports k p, activate)
        (activate_loop-ok host name c old n start_idx (round_of n start_idx k) 0 n t b (omega arith)
          (omega arith) (round_of-lt n start_idx k below first)
          (ap (nth c.transports) (round_of_lem n start_idx k below first) ∙ p) w h)
]
