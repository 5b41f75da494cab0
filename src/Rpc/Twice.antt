-- ===== src/Rpc/Twice.antt =====
-- Two readers of the one proxy of proxy/proxy.go: `StartReader` of a second server replaces the channel that
-- both goroutines close when they end.
use neuralgentics_broker.Prelude.{
  ℕ, ◌≡◌, refl, sym, ◌∙◌, ◌≢◌, inl, inr, true, false, List, [], ◌∷◌, arith, eqb, Bool-cases, All,
}
use mathlib.Core.Path.{subst}
use neuralgentics_broker.Rpc.{System, Reader, exiting}
use neuralgentics_broker.Rpc.Goroutines.{exit, Move, starts, exits, move, run}
use neuralgentics_broker.Rpc.Lively.{is_alive, is_done, Lively, move-Lively}
use neuralgentics_broker.Rpc.Endings.{run-over, run-step}

-- moves that start no reader
abbrev pub StartsNone : Move → Type 0
StartsNone (starts k) = ⊥
StartsNone m = Unit

-- Of two readers, both live, or one lives and the channel is closed, or the broker has crashed.
data Fate (j k : ℕ) (s : System) : Type 0 where
  crashed : s.panicked ≡ true → Fate j k s
  both : is_alive (s.reader j) ≡ true → is_alive (s.reader k) ≡ true → Fate j k s
  first : is_alive (s.reader j) ≡ true → is_done s ≡ true → Fate j k s
  second : is_alive (s.reader k) ≡ true → is_done s ≡ true → Fate j k s

Lively-Fate :
    (j k : ℕ) (s s' : System) → Lively s s' → s.panicked ≡ false → Fate j k s → Fate j k s'
Lively-Fate j k s s' l live (crashed p) = absurd (ground (arith, p, live))
Lively-Fate j k s s' l live (both a b) = both (l.0 j a) (l.0 k b)
Lively-Fate j k s s' l live (first a d) = first (l.0 j a) (l.1 ∙ d)
Lively-Fate j k s s' l live (second a d) = second (l.0 k a) (l.1 ∙ d)

left :
    (i x : ℕ) (s : System)
    → i ≢ x
    → is_alive (s.reader x) ≡ true
    → is_alive ((exit i exiting s).reader x) ≡ true
left i x s d a = ground (arith, d, a)

exiting-Fate : (i j k : ℕ) (s : System) → j ≢ k → Fate j k s → Fate j k (exit i exiting s)
exiting-Fate i j k s d (crashed p) = crashed (rw p refl)
exiting-Fate i j k s d (first a done) = crashed (ground (arith, done))
exiting-Fate i j k s d (second a done) = crashed (ground (arith, done))
exiting-Fate i j k s d (both a b) = elim (Bool-cases (eqb i j)) [
  | inl same ↦ second (left i k s (ground (arith, same, d)) b) (ground arith)
  | inr other ↦ first (left i j s (ground (arith, other)) a) (ground arith)
]

exit-Fate : (i j k : ℕ) (r : Reader) (s : System) → j ≢ k → Fate j k s → Fate j k (exit i r s)
exit-Fate i j k exiting s d f = exiting-Fate i j k s d f
exit-Fate i j k r s d f = f

move-Fate :
    (m : Move) (j k : ℕ) (s : System)
    → StartsNone m
    → j ≢ k
    → s.panicked ≡ false
    → Fate j k s
    → Fate j k (move m s)
unfolding move
move-Fate (exits i) j k s h d live f = exit-Fate i j k (s.reader i) s d f
move-Fate m j k s h d live f = Lively-Fate j k s (move m s) (move-Lively m s h) live f

run-Fate :
    (ms : List Move) (j k : ℕ) (s : System)
    → All StartsNone ms
    → j ≢ k
    → Fate j k s
    → Fate j k (run ms s)
unfolding run
run-Fate [] j k s h d f = f
run-Fate (m ∷ ms) j k s h d f = elim (Bool-cases s.panicked) [
  | inl over ↦ crashed (run-over (m ∷ ms) s over)
  | inr live ↦
      subst (Fate j k) (sym (run-step m ms s live))
        (run-Fate ms j k (move m s) h.1 d (move-Fate m j k s h.0 d live f))
]

-- If two readers of the one proxy live and no other is started from then on, then every run of the other
-- moves after which neither of the two lives has crashed the broker: both close the channel of the last
-- `StartReader`.
pub run-panics :
    (ms : List Move) (j k : ℕ) (s : System)
    → All StartsNone ms
    → j ≢ k
    → is_alive (s.reader j) ≡ true
    → is_alive (s.reader k) ≡ true
    → is_alive ((run ms s).reader j) ≡ false
    → is_alive ((run ms s).reader k) ≡ false
    → (run ms s).panicked ≡ true
run-panics ms j k s h d a b dead_j dead_k = elim (run-Fate ms j k s h d (both a b)) [
  | crashed p ↦ p
  | both a' b' ↦ absurd (ground (arith, a', dead_j))
  | first a' done ↦ absurd (ground (arith, a', dead_j))
  | second a' done ↦ absurd (ground (arith, a', dead_k))
]
