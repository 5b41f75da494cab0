-- ===== src/Launcher/Processes.antt =====
-- What the operations of registry.go and launcher.go make of the process registered under a name.
use neuralgentics_broker.Prelude.{
  ℕ, String, ◌≡◌, refl, inl, inr, true, Option, none, some, arith, ◌==◌, eq_iff, if◌then◌else◌,
  Bool-cases, Option-cases, is_some, ok, get-delete,
}
use neuralgentics_broker.Types.{ServerConfig}
use neuralgentics_broker.Registry.{
  ServerEntry, Registry, find, modify, modify_found, register, deregister, set_runtime,
  clear_runtime,
}
use neuralgentics_broker.Registry.Laws.{find-modify, find-register}
use neuralgentics_broker.Launcher.{Pipes, Site, clear_after_exit, start_found, process_of}

-- what the operations of the registry make of a name's process
pub process_of-register :
    (c : ServerConfig) (n : String) (r : Registry)
    → process_of n (register c r) ≡ (if c.name == n then none else process_of n r)
unfolding process_of
process_of-register c n r =
    rw (find-register c n r)
      (elim (Bool-cases (c.name == n)) [ inl same ↦ rw same refl | inr other ↦ rw other refl ])

pub process_of-deregister :
    (name n : String) (r : Registry) {r' : Registry}
    → deregister name r ≡ ok r'
    → process_of n r' ≡ (if name == n then none else process_of n r)
unfolding process_of deregister
process_of-deregister name n r {r'} h = ground (arith, h, get-delete n name r.servers)

module _ (f : ServerEntry → ServerEntry) (name n : String) (r : Registry) where
  pub process_of-modify :
      ((e : ServerEntry) → (f e).process ≡ e.process)
      → process_of n (modify f name r) ≡ process_of n r
  unfolding process_of
  process_of-modify same = rw (find-modify f name n r) (elim (Bool-cases (name == n)) [
    | inl here_ ↦ elim (Option-cases (find name r)) [
      | inl e ↦ ground (arith, eq_iff name n, same)
      | inr (x, e) ↦ ground (arith, eq_iff name n, same x)
    ]
    | inr other ↦ rw other refl
  ])

  process_of-modify_to :
      (o : Option ℕ)
      → ((e : ServerEntry) → (f e).process ≡ o)
      → is_some (find name r) ≡ true
      → process_of n (modify f name r) ≡ (if name == n then o else process_of n r)
  unfolding process_of
  process_of-modify_to o sets found = rw (find-modify f name n r) (elim (Bool-cases (name == n)) [
    | inl here_ ↦ elim (Option-cases (find name r)) [
      | inl e ↦ ground (arith, eq_iff name n, found)
      | inr (x, e) ↦ ground (arith, eq_iff name n, sets x)
    ]
    | inr other ↦ rw other refl
  ])

modify-absent :
    (f : ServerEntry → ServerEntry) (name : String) (r : Registry)
    → find name r ≡ none
    → modify f name r ≡ r
unfolding modify
modify-absent f name r e = rw (e, modify_found) refl

process_of-absent :
    (name n : String) (r : Registry)
    → find name r ≡ none
    → process_of n r ≡ (if name == n then none else process_of n r)
unfolding process_of
process_of-absent name n r e = elim (Bool-cases (name == n)) [
  | inl same ↦ ground (arith, eq_iff name n, e)
  | inr other ↦ rw other refl
]

-- a change of an entry that leaves it no process, whether it is there or not
pub process_of-modify-none :
    (f : ServerEntry → ServerEntry) (name n : String) (r : Registry)
    → ((e : ServerEntry) → (f e).process ≡ none)
    → process_of n (modify f name r) ≡ (if name == n then none else process_of n r)
process_of-modify-none f name n r drops = elim (Option-cases (find name r)) [
  | inl e ↦ rw (modify-absent f name r e) (process_of-absent name n r e)
  | inr (x, e) ↦ process_of-modify_to f name n r none drops (rw e refl)
]

pub process_of-clear :
    (name n : String) (s : Site)
    → process_of n (clear_after_exit name s).registry
      ≡ (if name == n then none else process_of n s.registry)
unfolding clear_after_exit
process_of-clear name n s = process_of-modify-none clear_runtime name n s.registry (λ e. refl)

pub process_of-start :
    (c : ServerConfig) (pipes : Pipes) (n : String) (s : Site) (e : ServerEntry)
    → find c.name s.registry ≡ some e
    → process_of n (start_found c pipes s (some e)).registry
      ≡ (if c.name == n then some s.next_process else process_of n s.registry)
process_of-start c pipes n s e found =
    process_of-modify_to (λ e. set_runtime (some s.next_process) pipes.0 pipes.1 e.tools e) c.name n
      s.registry (some s.next_process) (λ e. refl) (rw found refl)
