-- ===== src/Launcher/Lost.antt =====
-- How a watcher of launcher.go that comes late loses a live process.
use neuralgentics_broker.Prelude.{
  ℕ, String, ◌≡◌, refl, sym, ◌∙◌, ◌≢◌, inl, inr, false, Option, none, some, arith, ◌==◌, eq_iff,
  eq_refl, Bool-cases,
}
use neuralgentics_broker.Registry.{ServerEntry, find}
use neuralgentics_broker.Launcher.Watchers.{IsWatched, run-IsWatched}
use neuralgentics_broker.Launcher.{
  Site, new_site, watch, signal_found, begin_stop, Step, sees, Run, process_of_found, process_of,
}
use neuralgentics_broker.Launcher.Processes.{process_of-clear}
use neuralgentics_broker.Launcher.Handles.{watch-exit}

begin_stop-unheld :
    (k : ℕ) (n : String) (s : Site) → process_of n s.registry ≡ none → begin_stop k n s ≡ s
unfolding begin_stop process_of
begin_stop-unheld k n s e = by_found (find n s.registry) e
  where
    by_found : (o : Option ServerEntry) → process_of_found o ≡ none → signal_found k n s o ≡ s
    by_found none e = refl
    by_found (some x) e = rw e refl

unheld_by_all :
    (n m : String) (q p : ℕ) (s : Site)
    → IsWatched s
    → process_of n s.registry ≡ some p
    → process_of m (watch q n (some false) s).registry ≢ some p
unfolding watch
unheld_by_all n m q p s v held e =
    let c = sym (process_of-clear n m s) ∙ e in
    elim (Bool-cases (n == m)) [
      | inl same ↦ absurd (ground (arith, c, same))
      | inr other ↦
          let alone = v.alone n m p held (ground (arith, c, other)) in
          absurd (ground (arith, eq_iff n m, other, alone))
    ]

-- In a state that can be reached in which an earlier process of a name has failed and is still watched,
-- and a live process is registered under the name, there is a step after which the process lives but is
-- registered under no name, and a `Stop` of the name does nothing.
pub sees-forgets :
    (n : String) (q p : ℕ) (s : Site)
    → Run new_site s
    → s.watcher q ≡ some n
    → s.exit q ≡ some false
    → process_of n s.registry ≡ some p
    → s.exit p ≡ none
    → (t : Site) × Step s t
      × (t.exit p ≡ none)
      × ((m : String) → process_of m t.registry ≢ some p)
      × ((k : ℕ) → begin_stop k n t ≡ t)
unfolding watch
sees-forgets n q p s r w gone held live =
    let t = watch q n (some false) s in
    (
      t,
      sees q n false w gone,
      rw (watch-exit q n (some false) s) live,
      (λ m. unheld_by_all n m q p s (run-IsWatched r) held),
      λ k. begin_stop-unheld k n t (process_of-clear n n s ∙ rw (eq_refl n) refl),
    )
