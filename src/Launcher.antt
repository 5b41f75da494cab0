-- ===== src/Launcher.antt =====
-- launcher/launcher.go with the goroutines that it leaves behind. `Start` leaves a watcher, which waits
-- for the process and clears the entry of the server's name if the process failed; `Stop` waits between
-- its signal and its clearing. Meanwhile other methods run and processes end. `Start` is one step, since
-- all that it leaves to see is what `SetRuntime` publishes at its end, and it has one here only if the
-- command could be built and started. A process is a number that is not used again. One `Wait` at most
-- is told how a process ended.
mod Processes
pub mod Watchers
pub mod Handles
pub mod Lost
use neuralgentics_broker.Prelude.{
  ℕ, zero, suc, ◌+◌, ◌-◌, ◌*◌, ◌/◌, ◌%◌, ◌^◌, ◌≤◌, ◌<◌, String, ◌≡◌, refl, sym, ap, ◌∙◌, ◌≢◌, ◌↔◌,
  ◌⊎◌, inl, inr, Bool, true, false, not, ◌&&◌, ◌||◌, Option, none, some, List, [], ◌∷◌, ◌++◌, map,
  reverse, arith, ◌==◌, eq_iff, eq_refl, ltb, leb, eqb, if◌then◌else◌, Bool-cases, Option-cases,
  is_some, Result, is_ok, put_at, ok, err, length, is_empty, keep_if, take, All, length-append,
  length-keep_if, All-keep_if, Listed, All-Listed, Listed-All, keep_if-Listed, All-keep_if_tested,
  elem, elem-append, elem-keep_if, Dict, get, put, delete, keys, has_key, IsMap, get-put,
  get-delete, has_key-get, has_key-put, has_key-delete, put-IsMap, delete-IsMap, dict_laws, text_le,
  text_le_total, sort_strings, IsSorted, sort_strings-IsSorted, elem-sort_strings, encode, bytes,
  later, last_index, last_index-lt, eq_bytes, drop, starts_with, contains, has_suffix, one_more,
  index,
}
use neuralgentics_broker.Types.{ServerConfig, ToolSummary}
use neuralgentics_broker.Registry.{
  ServerEntry, Registry, find, modify, register, deregister, set_runtime, set_tools, set_config,
  clear_runtime, new_registry,
}

abbrev pub Pipes : Type 0
Pipes = Option ℕ × Option ℕ

pub record Site : Type 0 where
  pub registry : Registry
  pub next_process : ℕ
  -- how the processes that ended did: successfully or not
  pub exit : ℕ → Option Bool
  -- the watcher that `Start` left for a process: the name that it clears
  pub watcher : ℕ → Option String
  -- a goroutine in `Stop`, between the signal and the clearing: the name
  pub stopping : ℕ → Option String

abbrev pub new_site : Site
new_site = record {
  registry = new_registry;
  next_process = 0;
  exit = λ p. none;
  watcher = λ p. none;
  stopping = λ k. none;
}

abbrev pub with_registry : Registry → Site → Site
with_registry r s = record s { registry = r }

-- `clearAfterExit`
unfoldable pub clear_after_exit : String → Site → Site
clear_after_exit name s = with_registry (modify clear_runtime name s.registry) s

abbrev pub start_found : ServerConfig → Pipes → Site → Option ServerEntry → Site
start_found c pipes s none = s
start_found c pipes s (some e) = record s {
  registry =
      modify (λ e. set_runtime (some s.next_process) pipes.0 pipes.1 e.tools e) c.name s.registry;
  next_process = s.next_process + 1;
  watcher = put_at s.watcher s.next_process (some c.name);
}

-- `Start`
unfoldable pub start : ServerConfig → Pipes → Site → Site
start c pipes s = start_found c pipes s (find c.name s.registry)

-- `state != nil && !state.Success()`
abbrev pub has_failed : Option Bool → Bool
has_failed none = false
has_failed (some success) = not success

-- the watcher from the end of its `Wait`, which returned `state`
unfoldable pub watch : ℕ → String → Option Bool → Site → Site
unfolding clear_after_exit
watch p name state s =
    let t = (if has_failed state then clear_after_exit name s else s) in
    record t { watcher = put_at t.watcher p none }

abbrev pub signal : ℕ → String → Option ℕ → Site → Site
signal k name none s = s
signal k name (some p) s = record s { stopping = put_at s.stopping k (some name) }

abbrev pub signal_found : ℕ → String → Site → Option ServerEntry → Site
signal_found k name s none = s
signal_found k name s (some e) = signal k name e.process s

-- `Stop` up to the signal; the process ends by it or not
unfoldable pub begin_stop : ℕ → String → Site → Site
begin_stop k name s = signal_found k name s (find name s.registry)

-- the rest of `Stop`, when the process has ended or after five seconds
unfoldable pub end_stop : ℕ → String → Site → Site
unfolding clear_after_exit
end_stop k name s =
    let t = clear_after_exit name s in record t { stopping = put_at t.stopping k none }

-- One step of a goroutine or of the operating system.
pub data Step (s : Site) : Site → Type 0 where
  registers : (c : ServerConfig) → Step s (with_registry (register c s.registry) s)
  deregisters :
      (name : String) (r : Registry)
      → deregister name s.registry ≡ ok r
      → Step s (with_registry r s)
  configures :
      (name : String) (c : ServerConfig)
      → Step s (with_registry (modify (set_config c) name s.registry) s)
  caches :
      (name : String) (tools : List ToolSummary)
      → Step s (with_registry (modify (set_tools tools) name s.registry) s)
  -- an activation over HTTP publishes an entry without a process, `SetRuntime(nil, nil, nil, tools)`
  publishes_remote :
      (name : String) (tools : List ToolSummary)
      → Step s (with_registry (modify (set_runtime none none none tools) name s.registry) s)
  starts : (c : ServerConfig) (pipes : Pipes) → Step s (start c pipes s)
  exits :
      (p : ℕ) (success : Bool)
      → s.exit p ≡ none
      → Step s (record s { exit = put_at s.exit p (some success) })
  -- the watcher is told how the process ended, or another `Wait` was
  sees :
      (p : ℕ) (name : String) (success : Bool)
      → s.watcher p ≡ some name
      → s.exit p ≡ some success
      → Step s (watch p name (some success) s)
  misses :
      (p : ℕ) (name : String) (success : Bool)
      → s.watcher p ≡ some name
      → s.exit p ≡ some success
      → Step s (watch p name none s)
  stops : (k : ℕ) (name : String) → s.stopping k ≡ none → Step s (begin_stop k name s)
  stopped : (k : ℕ) (name : String) → s.stopping k ≡ some name → Step s (end_stop k name s)

pub data Run (s : Site) : Site → Type 0 where
  here : Run s s
  more : {t u : Site} → Run s t → Step t u → Run s u

-- the process that is registered under a name
abbrev pub process_of_found : Option ServerEntry → Option ℕ
process_of_found none = none
process_of_found (some e) = e.process

unfoldable pub process_of : String → Registry → Option ℕ
process_of name r = process_of_found (find name r)
