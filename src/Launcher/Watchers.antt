-- ===== src/Launcher/Watchers.antt =====
-- What the watchers and `Stop` of launcher.go make of the registered processes.
use neuralgentics_broker.Prelude.{
  ℕ, ◌<◌, String, ◌≡◌, refl, sym, ◌∙◌, ◌⊎◌, inl, inr, Bool, true, false, Option, none, some, arith,
  ◌==◌, eq_iff, eqb, if◌then◌else◌, Bool-cases, Option-cases, put_at,
}
use mathlib.Core.Path.{subst}
use neuralgentics_broker.Types.{ServerConfig}
use neuralgentics_broker.Registry.{
  ServerEntry, Registry, find, modify, register, set_runtime, set_tools, set_config, clear_runtime,
}
use neuralgentics_broker.Launcher.{
  Pipes, Site, new_site, with_registry, clear_after_exit, start_found, start, has_failed, watch,
  signal, signal_found, begin_stop, end_stop, Step, registers, deregisters, configures, caches,
  publishes_remote, starts, exits, sees, misses, stops, stopped, Run, here, more, process_of,
}
use neuralgentics_broker.Launcher.Processes.{
  process_of-register, process_of-deregister, process_of-modify, process_of-modify-none,
  process_of-clear, process_of-start,
}

-- Every process that is registered and has not ended is watched under its name, and no two names have
-- the same process.
pub record IsWatched (s : Site) : Type 0 where
  pub older : (n : String) (p : ℕ) → process_of n s.registry ≡ some p → p < s.next_process
  pub watched :
      (n : String) (p : ℕ)
      → process_of n s.registry ≡ some p
      → s.exit p ≡ none
      → s.watcher p ≡ some n
  pub alone :
      (n m : String) (p : ℕ)
      → process_of n s.registry ≡ some p
      → process_of m s.registry ≡ some p
      → n ≡ m

-- a step that starts nothing
record Sheds (s t : Site) : Type 0 where
  kept :
      (n : String)
      → (process_of n t.registry ≡ none) ⊎ (process_of n t.registry ≡ process_of n s.registry)
  count : t.next_process ≡ s.next_process
  ends : (p : ℕ) → t.exit p ≡ none → (s.exit p ≡ none) × (t.watcher p ≡ s.watcher p)

had :
    (s t : Site)
    → Sheds s t
    → (n : String) (p : ℕ) → process_of n t.registry ≡ some p
    → process_of n s.registry ≡ some p
had s t h n p e = elim (h.kept n) [ inl gone ↦ cc | inr same ↦ cc ]

Sheds-IsWatched : (s t : Site) → Sheds s t → IsWatched s → IsWatched t
Sheds-IsWatched s t h w = record {
  older =
      λ n p e. let old = w.older n p (had s t h n p e) in let c = h.count in omega (arith, old, c);
  watched = λ n p e live. (h.ends p live).1 ∙ w.watched n p (had s t h n p e) (h.ends p live).0;
  alone = λ n m p e e'. w.alone n m p (had s t h n p e) (had s t h m p e');
}

if_none :
    (b : Bool) (o : Option ℕ) → ((if b then none else o) ≡ none) ⊎ ((if b then none else o) ≡ o)
if_none true o = inl refl
if_none false o = inr refl

Sheds-registry :
    (r : Registry) (s : Site)
    → ((n : String) → (process_of n r ≡ none) ⊎ (process_of n r ≡ process_of n s.registry))
    → Sheds s (with_registry r s)
Sheds-registry r s k = record { kept = k; count = refl; ends = λ p e. (e, refl) }

quiet : (s : Site) → Sheds s s
quiet s = record { kept = λ n. inr refl; count = refl; ends = λ p e. (e, refl) }

clear-Sheds : (name : String) (s : Site) → Sheds s (clear_after_exit name s)
unfolding clear_after_exit
clear-Sheds name s =
    Sheds-registry (modify clear_runtime name s.registry) s
      (λ n. rw (process_of-clear name n s) (if_none (name == n) (process_of n s.registry)))

clear_if-Sheds :
    (b : Bool) (name : String) (s : Site) → Sheds s (if b then clear_after_exit name s else s)
clear_if-Sheds true name s = clear-Sheds name s
clear_if-Sheds false name s = quiet s

watch-Sheds :
    (p : ℕ) (name : String) (state : Option Bool) {success : Bool} (s : Site)
    → s.exit p ≡ some success
    → Sheds s (watch p name state s)
unfolding watch
watch-Sheds p name state {success} s gone =
    let c = clear_if-Sheds (has_failed state) name s in
    record {
      kept = c.kept;
      count = c.count;
      ends = λ q e.
          let o = c.ends q e in
          (
            o.0,
            elim (Bool-cases (eqb p q)) [
              | inl same ↦ absurd (ground (arith, same, gone, o.0))
              | inr other ↦ rw other o.1
            ],
          );
    }

signal-Sheds : (k : ℕ) (name : String) (o : Option ℕ) (s : Site) → Sheds s (signal k name o s)
signal-Sheds k name none s = quiet s
signal-Sheds k name (some p) s = record {
  kept = λ n. inr refl;
  count = refl;
  ends = λ p e. (e, refl);
}

signal_found-Sheds :
    (k : ℕ) (name : String) (s : Site) (o : Option ServerEntry) → Sheds s (signal_found k name s o)
signal_found-Sheds k name s none = record {
  kept = λ n. inr refl;
  count = refl;
  ends = λ p e. (e, refl);
}
signal_found-Sheds k name s (some e) = signal-Sheds k name e.process s

begin_stop-Sheds : (k : ℕ) (name : String) (s : Site) → Sheds s (begin_stop k name s)
unfolding begin_stop
begin_stop-Sheds k name s = signal_found-Sheds k name s (find name s.registry)

end_stop-Sheds : (k : ℕ) (name : String) (s : Site) → Sheds s (end_stop k name s)
unfolding end_stop
end_stop-Sheds k name s =
    let c = clear-Sheds name s in record { kept = c.kept; count = c.count; ends = c.ends }

exits-Sheds :
    (p : ℕ) (success : Bool) (s : Site)
    → Sheds s (record s { exit = put_at s.exit p (some success) })
exits-Sheds p success s = record {
  kept = λ n. inr refl;
  count = refl;
  ends = λ q e. ground (arith, e);
}

module _ (c : ServerConfig) (pipes : Pipes) (s : Site) (e : ServerEntry)
    (found : find c.name s.registry ≡ some e) where
  -- a process after a start is the new one, or it was there
  origin :
      (n : String) (p : ℕ)
      → process_of n (start_found c pipes s (some e)).registry ≡ some p
      → ((c.name ≡ n) × (p ≡ s.next_process)) ⊎ (process_of n s.registry ≡ some p)
  origin n p h =
      let now = process_of-start c pipes n s e found in
      elim (Bool-cases (c.name == n)) [
        | inl same ↦ inl (ground (arith, same, eq_iff c.name n), ground (arith, now, same, h))
        | inr other ↦ inr (ground (arith, now, other, h))
      ]

  start_found-IsWatched : IsWatched s → IsWatched (start_found c pipes s (some e))
  start_found-IsWatched w = record {
    older = λ n p h. elim (origin n p h) [
      | inl (same, new) ↦ omega (arith, new)
      | inr old ↦ let l = w.older n p old in omega (arith, l)
    ];
    watched = λ n p h live. elim (origin n p h) [
      | inl (same, new) ↦
          subst (λ q. put_at s.watcher s.next_process (some c.name) q ≡ some n) (sym new)
            (ground (arith, same))
      | inr old ↦ let l = w.older n p old in let k = w.watched n p old live in ground (arith, l, k)
    ];
    alone = λ n m p h h'. elim (origin n p h) [
      | inl (same, new) ↦ elim (origin m p h') [
        | inl (same', new') ↦ sym same ∙ same'
        | inr old' ↦ let l = w.older m p old' in absurd (omega (arith, l, new))
      ]
      | inr old ↦ elim (origin m p h') [
        | inl (same', new') ↦ let l = w.older n p old in absurd (omega (arith, l, new'))
        | inr old' ↦ w.alone n m p old old'
      ]
    ];
  }

start-IsWatched :
    (c : ServerConfig) (pipes : Pipes) (s : Site) → IsWatched s → IsWatched (start c pipes s)
unfolding start
start-IsWatched c pipes s w = elim (Option-cases (find c.name s.registry)) [
  | inl e ↦ subst (λ o. IsWatched (start_found c pipes s o)) (sym e) w
  | inr (x, e) ↦
      subst (λ o. IsWatched (start_found c pipes s o)) (sym e)
        (start_found-IsWatched c pipes s x e w)
]

step-IsWatched : (s t : Site) → Step s t → IsWatched s → IsWatched t
step-IsWatched s t (registers c) w =
    Sheds-IsWatched s t
      (Sheds-registry (register c s.registry) s (λ n.
        rw (process_of-register c n s.registry) (if_none (c.name == n) (process_of n s.registry))))
      w
step-IsWatched s t (deregisters name r e) w =
    Sheds-IsWatched s t
      (Sheds-registry r s (λ n.
        rw (process_of-deregister name n s.registry e)
          (if_none (name == n) (process_of n s.registry))))
      w
step-IsWatched s t (configures name c) w =
    Sheds-IsWatched s t
      (Sheds-registry (modify (set_config c) name s.registry) s
        (λ n. inr (process_of-modify (set_config c) name n s.registry (λ e. refl))))
      w
step-IsWatched s t (caches name tools) w =
    Sheds-IsWatched s t
      (Sheds-registry (modify (set_tools tools) name s.registry) s
        (λ n. inr (process_of-modify (set_tools tools) name n s.registry (λ e. refl))))
      w
step-IsWatched s t (publishes_remote name tools) w =
    let f = set_runtime none none none tools in
    Sheds-IsWatched s t
      (Sheds-registry (modify f name s.registry) s (λ n.
        rw (process_of-modify-none f name n s.registry (λ e. refl))
          (if_none (name == n) (process_of n s.registry))))
      w
step-IsWatched s t (starts c pipes) w = start-IsWatched c pipes s w
step-IsWatched s t (exits p success e) w = Sheds-IsWatched s t (exits-Sheds p success s) w
step-IsWatched s t (sees p name success e gone) w =
    Sheds-IsWatched s t (watch-Sheds p name (some success) s gone) w
step-IsWatched s t (misses p name success e gone) w =
    Sheds-IsWatched s t (watch-Sheds p name none s gone) w
step-IsWatched s t (stops k name e) w = Sheds-IsWatched s t (begin_stop-Sheds k name s) w
step-IsWatched s t (stopped k name e) w = Sheds-IsWatched s t (end_stop-Sheds k name s) w

run-step-IsWatched : {s t : Site} → Run s t → IsWatched s → IsWatched t
run-step-IsWatched here w = w
run-step-IsWatched (more r st) w = step-IsWatched _ _ st (run-step-IsWatched r w)

new_site-IsWatched : IsWatched new_site
unfolding process_of
new_site-IsWatched = record {
  older = λ n p h. ground (arith, h);
  watched = λ n p h live. ground (arith, h);
  alone = λ n m p h h'. ground (arith, h);
}

-- In every order of starts, watchers, stops, registrations, activations over HTTP and ends of processes,
-- every process that is registered and has not ended has its watcher, under the name that it is registered
-- under, and no two names hold the same process.
pub run-IsWatched : {s : Site} → Run new_site s → IsWatched s
run-IsWatched r = run-step-IsWatched r new_site-IsWatched
