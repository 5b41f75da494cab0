-- ===== src/Launcher/Handles.antt =====
-- Which processes keep their handle in the registry of launcher.go, and which lose it.
use neuralgentics_broker.Prelude.{
  ℕ, String, ◌≡◌, refl, sym, ap, ◌∙◌, ◌≢◌, Bool, true, false, not, Option, none, some, arith, ◌==◌,
  eq_iff, if◌then◌else◌, put_at,
}
use mathlib.Core.Path.{subst}
use neuralgentics_broker.Types.{ServerConfig}
use neuralgentics_broker.Registry.{
  ServerEntry, Registry, find, modify, register, set_runtime, set_tools, set_config, clear_runtime,
}
use neuralgentics_broker.Launcher.{
  Pipes, Site, with_registry, clear_after_exit, start_found, start, has_failed, watch, signal,
  signal_found, begin_stop, end_stop, Step, registers, deregisters, configures, caches,
  publishes_remote, starts, exits, sees, misses, stops, stopped, Run, here, more, process_of,
}
use neuralgentics_broker.Launcher.Processes.{
  process_of-register, process_of-deregister, process_of-modify, process_of-modify-none,
  process_of-clear, process_of-start,
}

-- steps that do not start, stop, register or deregister a name, or activate it over HTTP
abbrev pub Spares : (n : String) (s t : Site) → Step s t → Type 0
Spares n s t (registers c) = c.name ≢ n
Spares n s t (deregisters name r e) = name ≢ n
Spares n s t (configures name c) = Unit
Spares n s t (caches name tools) = Unit
Spares n s t (publishes_remote name tools) = name ≢ n
Spares n s t (starts c pipes) = c.name ≢ n
Spares n s t (exits p success e) = Unit
Spares n s t (sees p name success e gone) = Unit
Spares n s t (misses p name success e gone) = Unit
Spares n s t (stops k name e) = name ≢ n
Spares n s t (stopped k name e) = Unit

abbrev pub SparesAll : (n : String) (s t : Site) → Run s t → Type 0
SparesAll n s t here = Unit
SparesAll n s t (more {t = u} r st) = SparesAll n s u r × Spares n u t st

-- A process is registered under a name, nobody waits for another process of that name, and nobody stops it.
pub record IsHeld (n : String) (p : ℕ) (s : Site) : Type 0 where
  pub held : process_of n s.registry ≡ some p
  pub own : (q : ℕ) → s.watcher q ≡ some n → q ≡ p
  pub unstopped : (k : ℕ) → s.stopping k ≢ some n

-- how a process ended does not change
start-exit : (c : ServerConfig) (pipes : Pipes) (s : Site) → (start c pipes s).exit ≡ s.exit
unfolding start
start-exit c pipes s = by_found (find c.name s.registry)
  where
    by_found : (o : Option ServerEntry) → (start_found c pipes s o).exit ≡ s.exit
    by_found none = refl
    by_found (some e) = refl

pub watch-exit :
    (p : ℕ) (name : String) (state : Option Bool) (s : Site) → (watch p name state s).exit ≡ s.exit
unfolding watch clear_after_exit
watch-exit p name state s = by_case (has_failed state)
  where
    by_case : (b : Bool) → (if b then clear_after_exit name s else s).exit ≡ s.exit
    by_case true = refl
    by_case false = refl

signal-exit : (k : ℕ) (name : String) (o : Option ℕ) (s : Site) → (signal k name o s).exit ≡ s.exit
signal-exit k name none s = refl
signal-exit k name (some p) s = refl

begin_stop-exit : (k : ℕ) (name : String) (s : Site) → (begin_stop k name s).exit ≡ s.exit
unfolding begin_stop
begin_stop-exit k name s = by_found (find name s.registry)
  where
    by_found : (o : Option ServerEntry) → (signal_found k name s o).exit ≡ s.exit
    by_found none = refl
    by_found (some e) = signal-exit k name e.process s

fails_later : (s t : Site) (st : Step s t) (p : ℕ) → s.exit p ≡ some false → t.exit p ≡ some false
unfolding end_stop clear_after_exit
fails_later s t (publishes_remote name tools) p h = h
fails_later s t (starts c pipes) p h = rw (start-exit c pipes s) h
fails_later s t (exits q success e) p h = ground (arith, e, h)
fails_later s t (sees q name success e gone) p h = rw (watch-exit q name (some success) s) h
fails_later s t (misses q name success e gone) p h = rw (watch-exit q name none s) h
fails_later s t (stops k name e) p h = rw (begin_stop-exit k name s) h
fails_later s t (registers c) p h = h
fails_later s t (deregisters name r e) p h = h
fails_later s t (configures name c) p h = h
fails_later s t (caches name tools) p h = h
fails_later s t (stopped k name e) p h = h

-- a name other than the one that is started
spared :
    (b : Bool) (x o : Option ℕ) {p : ℕ} → b ≡ false → o ≡ some p → (if b then x else o) ≡ some p
spared b x o e h = ground (arith, e, h)

-- a name other than the one that is cleared
cleared :
    (b : Bool) (o : Option ℕ) {p : ℕ} → b ≡ false → o ≡ some p → (if b then none else o) ≡ some p
cleared b o e h = ground (arith, e, h)

differs : (a b : String) → a ≢ b → (a == b) ≡ false
differs a b d = ground (arith, eq_iff a b, d)

module _ (n : String) (p : ℕ) (s : Site) (h : IsHeld n p s) where
  reset-IsHeld :
      (name : String) (r : Registry)
      → name ≢ n
      → process_of n r ≡ (if name == n then none else process_of n s.registry)
      → IsHeld n p (with_registry r s)
  reset-IsHeld name r d e = record {
    held = e ∙ cleared (name == n) (process_of n s.registry) (differs name n d) h.held;
    own = h.own;
    unstopped = h.unstopped;
  }

  kept-IsHeld :
      (r : Registry) → process_of n r ≡ process_of n s.registry → IsHeld n p (with_registry r s)
  kept-IsHeld r e = record { held = e ∙ h.held; own = h.own; unstopped = h.unstopped }

  clear-IsHeld : (name : String) → name ≢ n → IsHeld n p (clear_after_exit name s)
  unfolding clear_after_exit
  clear-IsHeld name d =
      reset-IsHeld name (modify clear_runtime name s.registry) d (process_of-clear name n s)

  clear_if-IsHeld :
      (b : Bool) (name : String)
      → (b ≡ true → name ≢ n)
      → IsHeld n p (if b then clear_after_exit name s else s)
  clear_if-IsHeld true name d = clear-IsHeld name (d refl)
  clear_if-IsHeld false name d = h

  start_found-IsHeld :
      (c : ServerConfig) (pipes : Pipes) (o : Option ServerEntry)
      → find c.name s.registry ≡ o
      → c.name ≢ n
      → IsHeld n p (start_found c pipes s o)
  start_found-IsHeld c pipes none found d = h
  start_found-IsHeld c pipes (some e) found d = record {
    held =
        process_of-start c pipes n s e found
        ∙ spared (c.name == n) (some s.next_process) (process_of n s.registry) (differs c.name n d)
            h.held;
    own = λ q w. h.own q (ground (arith, w, d));
    unstopped = h.unstopped;
  }

  signal-IsHeld : (k : ℕ) (name : String) (o : Option ℕ) → name ≢ n → IsHeld n p (signal k name o s)
  signal-IsHeld k name none d = h
  signal-IsHeld k name (some q) d = record {
    held = h.held;
    own = h.own;
    unstopped = λ j e. h.unstopped j (ground (arith, e, d));
  }

  signal_found-IsHeld :
      (k : ℕ) (name : String) (o : Option ServerEntry)
      → name ≢ n
      → IsHeld n p (signal_found k name s o)
  signal_found-IsHeld k name none d = h
  signal_found-IsHeld k name (some e) d = signal-IsHeld k name e.process d

-- a goroutine has ended
idle_watcher-IsHeld :
    (n : String) (p q : ℕ) (t : Site)
    → IsHeld n p t
    → IsHeld n p (record t { watcher = put_at t.watcher q none })
idle_watcher-IsHeld n p q t h = record {
  held = h.held;
  own = λ j w. h.own j (ground (arith, w));
  unstopped = h.unstopped;
}

idle_stop-IsHeld :
    (n : String) (p k : ℕ) (t : Site)
    → IsHeld n p t
    → IsHeld n p (record t { stopping = put_at t.stopping k none })
idle_stop-IsHeld n p k t h = record {
  held = h.held;
  own = h.own;
  unstopped = λ j e. h.unstopped j (ground (arith, e));
}

-- the watcher of a failed process clears another name, if this one has not failed
clears_other :
    (n name : String) (p q : ℕ) (success : Bool) (s : Site)
    → IsHeld n p s
    → s.watcher q ≡ some name
    → s.exit q ≡ some success
    → s.exit p ≢ some false
    → has_failed (some success) ≡ true
    → name ≢ n
clears_other n name p q success s h w gone fine failed same =
    let e = h.own q (w ∙ ap some same) in
    fine (sym (ap s.exit e) ∙ gone ∙ ap some (ground (arith, failed)))

step-IsHeld :
    (n : String) (p : ℕ) (s t : Site) (st : Step s t)
    → Spares n s t st
    → t.exit p ≢ some false
    → IsHeld n p s
    → IsHeld n p t
unfolding start watch begin_stop end_stop
step-IsHeld n p s t (registers c) d fine h =
    reset-IsHeld n p s h c.name (register c s.registry) d (process_of-register c n s.registry)
step-IsHeld n p s t (deregisters name r e) d fine h =
    reset-IsHeld n p s h name r d (process_of-deregister name n s.registry e)
step-IsHeld n p s t (configures name c) d fine h =
    kept-IsHeld n p s h (modify (set_config c) name s.registry)
      (process_of-modify (set_config c) name n s.registry (λ e. refl))
step-IsHeld n p s t (caches name tools) d fine h =
    kept-IsHeld n p s h (modify (set_tools tools) name s.registry)
      (process_of-modify (set_tools tools) name n s.registry (λ e. refl))
step-IsHeld n p s t (publishes_remote name tools) d fine h =
    let f = set_runtime none none none tools in
    reset-IsHeld n p s h name (modify f name s.registry) d
      (process_of-modify-none f name n s.registry (λ e. refl))
step-IsHeld n p s t (starts c pipes) d fine h =
    start_found-IsHeld n p s h c pipes (find c.name s.registry) refl d
step-IsHeld n p s t (exits q success e) d fine h = record {
  held = h.held;
  own = h.own;
  unstopped = h.unstopped;
}
step-IsHeld n p s t (sees q name success w gone) d fine h =
    idle_watcher-IsHeld n p q (if not success then clear_after_exit name s else s) (
      clear_if-IsHeld n p s h (not success) name (
        clears_other n name p q success s h w gone
          (subst (λ f. f p ≢ some false) (watch-exit q name (some success) s) fine)))
step-IsHeld n p s t (misses q name success w gone) d fine h = idle_watcher-IsHeld n p q s h
step-IsHeld n p s t (stops k name e) d fine h =
    signal_found-IsHeld n p s h k name (find name s.registry) d
step-IsHeld n p s t (stopped k name e) d fine h =
    idle_stop-IsHeld n p k (clear_after_exit name s)
      (clear-IsHeld n p s h name (λ same. h.unstopped k (e ∙ ap some same)))

-- If a process is registered under a name, no other process of that name is still watched and nobody is
-- stopping the name, all this holds after any steps that do not start, stop, register or deregister the
-- name or activate it over HTTP, as long as the process does not end with a failure, also when it ends with
-- success.
pub run-IsHeld :
    (n : String) (p : ℕ) (s t : Site) (r : Run s t)
    → SparesAll n s t r
    → t.exit p ≢ some false
    → IsHeld n p s
    → IsHeld n p t
run-IsHeld n p s t here d fine h = h
run-IsHeld n p s t (more {t = u} r st) d fine h =
    step-IsHeld n p u t st d.1 fine
      (run-IsHeld n p s u r d.0 (λ failed. fine (fails_later u t st p failed)) h)
