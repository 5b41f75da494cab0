-- ===== src/Broker/Profiles/Restoring.antt =====
-- Which servers `ImportProfile` of broker.go registers from an exported profile.
use neuralgentics_broker.Prelude.{
  String, ◌≡◌, refl, sym, ap, ◌∙◌, inl, inr, true, false, ◌||◌, Option, none, some, List, [], ◌∷◌,
  arith, ◌==◌, eq_iff, eq_refl, if◌then◌else◌, Bool-cases, Option-cases, is_some, Dict, get, IsMap,
  has_key-get,
}
use neuralgentics_broker.Registry.{ServerEntry, Registry, find, statuses}
use neuralgentics_broker.Registry.Laws.{find-register}
use neuralgentics_broker.Catalog.Filtering.{Inside, Inside-self}
use neuralgentics_broker.Skills.Tags.{texts}
use neuralgentics_broker.Broker.{Broker}
use neuralgentics_broker.Broker.Lifecycle.{register_server}
use neuralgentics_broker.Broker.Profiles.{
  lock_entry, lock_loop, catalog_lock, texts_as_items, config_in, restore_entry, restore,
}

texts-texts_as_items : (ss : List String) → texts (texts_as_items ss) ≡ ss
texts-texts_as_items [] = refl
texts-texts_as_items (s ∷ ss) = ap (◌∷◌ s) (texts-texts_as_items ss)

-- what is left of an entry: its name, command, arguments and type
abbrev pub restored : String → Option ServerEntry → Option ServerEntry
restored name none = none
restored name (some e) =
    if name == "" || e.config.command == ""
    then none
    else some (record {
      config = record {
        name = name;
        command = e.config.command;
        args = e.config.args;
        env = none;
        type = e.config.type;
        description = "";
        capabilities = [];
      };
      process = none;
      tools = [];
      stdin = none;
      stdout = none;
    })

abbrev pub or_restored : Option ServerEntry → String → Option ServerEntry → Option ServerEntry
or_restored none name o = restored name o
or_restored (some e) name o = some e

restored_unnamed : (n : String) (e : ServerEntry) → (n == "") ≡ true → none ≡ restored n (some e)
restored_unnamed n e unnamed = rw unnamed refl

restored_self :
    (n : String) (e : ServerEntry) (b : Broker)
    → find n (restore_entry (lock_entry n e) b).registry
      ≡ or_restored (find n b.registry) n (some e)
unfolding restore_entry register_server
restored_self n e b = elim (Option-cases (find n b.registry)) [
  | inl absent ↦ elim (Bool-cases (n == "")) [
    | inl unnamed ↦ rw (unnamed, absent) (restored_unnamed n e unnamed)
    | inr named ↦ elim (Bool-cases (e.config.command == "")) [
      | inl no_command ↦ rw (named, absent, no_command) (absent ∙ rw named refl)
      | inr command ↦
          rw (named, absent, command)
            (rw
              (
                find-register (config_in (lock_entry n e)) n b.registry,
                eq_refl n,
                named,
                texts-texts_as_items e.config.args,
              )
              refl)
    ]
  ]
  | inr (x, there) ↦ elim (Bool-cases (n == "")) [
    | inl unnamed ↦ rw (unnamed, there) refl
    | inr named ↦ rw (named, there) there
  ]
]

restored_other :
    (k n : String) (e : ServerEntry) (b : Broker)
    → (k == n) ≡ false
    → find n (restore_entry (lock_entry k e) b).registry ≡ find n b.registry
unfolding restore_entry register_server
restored_other k n e b differ = elim (Bool-cases (k == "")) [
  | inl unnamed ↦ rw unnamed refl
  | inr named ↦ elim (Bool-cases (is_some (find k b.registry))) [
    | inl there ↦ rw (named, there) refl
    | inr absent ↦ elim (Bool-cases (e.config.command == "")) [
      | inl no_command ↦ rw (named, absent, no_command) refl
      | inr command ↦
          rw (named, absent, command)
            (rw (find-register (config_in (lock_entry k e)) n b.registry, differ) refl)
    ]
  ]
]

or_restored-none : (o : Option ServerEntry) (n : String) → or_restored o n none ≡ o
or_restored-none none n = refl
or_restored-none (some e) n = refl

none_there : (n : String) (m : Dict ServerEntry) → is_some (get n m) ≡ false → get n m ≡ none
none_there n m h = ground arith

-- one part of the lock's loop after another
find-restore :
    (r : Registry) (m : Dict ServerEntry) (n : String) (b : Broker)
    → IsMap m
    → Inside r m
    → find n (restore (lock_loop r (statuses m)) b).registry
      ≡ or_restored (find n b.registry) n (get n m)
unfolding restore lock_loop statuses
find-restore r [] n b u h = elim (Option-cases (find n b.registry)) [
  | inl absent ↦ rw absent refl
  | inr (x, there) ↦ rw there refl
]
find-restore r ((k, e) ∷ m) n b u h =
    let b1 = restore_entry (lock_entry k e) b in
    let ih = find-restore r m n b1 u.1 h.1 in
    rw (h.0, lock_loop)
      (elim (Bool-cases (k == n)) [
        | inl same ↦
            let here = (eq_iff k n).0 same in
            let gone = none_there n m (sym (has_key-get n m) ∙ rw (sym here) u.0) in
            ih
            ∙ rw (gone, same)
                (or_restored-none (find n b1.registry) n
                  ∙ ap (λ x. find n (restore_entry (lock_entry x e) b).registry) here
                  ∙ restored_self n e b)
        | inr differ ↦ ih ∙ rw (restored_other k n e b differ, differ) refl
      ])

-- A profile's lock of a valid registry, restored into any broker: a server that the broker has stays
-- as it is; any other name has a fresh server exactly if the registry had one with a name and a
-- command, which has that command and those arguments and that type, and nothing else.
pub find-restore-catalog_lock :
    (r : Registry) (n : String) (b : Broker)
    → IsMap r.servers
    → find n (restore (catalog_lock r) b).registry ≡ or_restored (find n b.registry) n (find n r)
unfolding catalog_lock
find-restore-catalog_lock r n b u = find-restore r r.servers n b u (Inside-self r.servers u)
