-- ===== src/Broker/Views/Unseen.antt =====
-- What the methods of broker.go do to servers that a role may not access leaves no trace in what the role is
-- shown.
use neuralgentics_broker.Prelude.{String, ◌≡◌, refl, sym, ap, ◌∙◌, false, List, All, Dict}
use mathlib.Core.Path.{subst}
use mathlib.Core.List.{Perm}
use neuralgentics_broker.Broker.Views.Orders.{reorder}
use neuralgentics_broker.Access.{AccessControl}
use neuralgentics_broker.Registry.{ServerEntry, Registry, register, modify}
use neuralgentics_broker.Catalog.{visible, build}
use neuralgentics_broker.Catalog.Prompt.{format_for_prompt}
use neuralgentics_broker.Host.{Host}
use neuralgentics_broker.Broker.{Broker}
use neuralgentics_broker.Broker.Keeps.{IsLocal, IsStable, IsSound, IsSound-IsStable}
use neuralgentics_broker.Broker.Soundness.{Step, Within, run_steps, run_steps-stable}
use neuralgentics_broker.Broker.Views.{build_server_catalog, inject_prompt}
use neuralgentics_broker.Broker.Views.Hidden.{
  shown, Shows, register-Shows, deregister-Shows, modify-Shows,
}

-- a name that a role may not access
abbrev pub IsHidden : AccessControl → String → String → Type 0
IsHidden ac role name = visible ac role name ≡ false

module _ (ac : AccessControl) (role : String) (s : Dict ServerEntry) where
  -- a sound broker with this access control that shows these entries
  record Hides (b : Broker) : Type 0 where
    sound : IsSound b
    access : b.access ≡ ac
    shows : shown ac role b.registry.servers ≡ s

  to_Shows : (b : Broker) → Hides b → Shows ac role s b.registry
  to_Shows b h = record { unique = h.sound.valid.unique; shows = h.shows }

  with_registry :
      (b : Broker) (r : Registry)
      → Hides b
      → Shows ac role s r
      → IsSound (record b { registry = r })
      → Hides (record b { registry = r })
  with_registry b r h shows sound = record { sound = sound; access = h.access; shows = shows.shows }

  Hides-IsLocal : IsLocal (IsHidden ac role) Hides
  Hides-IsLocal = record {
    asks = λ n b h. record {
      sound = IsSound-IsStable.local.asks n b h.sound;
      access = h.access;
      shows = h.shows;
    };
    proxies = λ p b h. record {
      sound = IsSound-IsStable.local.proxies p b h.sound;
      access = h.access;
      shows = h.shows;
    };
    entries = λ f name on k b h.
        with_registry b (modify f name b.registry) h
          (modify-Shows ac role s f name b.registry on (to_Shows b h))
          (IsSound-IsStable.local.entries f name tt k b h.sound);
    owns = λ name b e on h there.
        subst (IsHidden ac role) (sym (IsSound-IsStable.named name b e h.sound there)) on;
  }

  Hides-IsStable : IsStable (IsHidden ac role) Hides
  Hides-IsStable = record {
    local = Hides-IsLocal;
    named = λ name b e h there. IsSound-IsStable.named name b e h.sound there;
    configs = λ f name on k b h.
        with_registry b (modify f name b.registry) h
          (modify-Shows ac role s f name b.registry on (to_Shows b h))
          (IsSound-IsStable.configs f name tt k b h.sound);
    registers = λ c on b h.
        with_registry b (register c b.registry) h
          (register-Shows ac role s c b.registry on (to_Shows b h))
          (IsSound-IsStable.registers c tt b h.sound);
    deregisters = λ name r on b e h.
        with_registry b r h (deregister-Shows ac role s name b.registry r on e (to_Shows b h))
          (IsSound-IsStable.deregisters name r tt b e h.sound);
    puts = λ name c on b h. record {
      sound = IsSound-IsStable.puts name c tt b h.sound;
      access = h.access;
      shows = h.shows;
    };
    removes = λ name on b h. record {
      sound = IsSound-IsStable.removes name tt b h.sound;
      access = h.access;
      shows = h.shows;
    };
    frames = λ b b' r a c h. record {
      sound = IsSound-IsStable.frames b b' r a c h.sound;
      access = a ∙ h.access;
      shows = ap (λ (x : Registry). shown ac role x.servers) r ∙ h.shows;
    };
  }

-- a broker whose registry is ranged in this order
abbrev pub ordered : Dict ServerEntry → Broker → Broker
ordered m b = record b { registry = record { servers = m } }

-- From a broker in which each name is registered once, under a configuration of that name: whatever methods
-- are called, in any order, on servers that a role may not access, with calls to any server and exits of
-- processes of such servers, whatever the surroundings answer and wherever a method fails, the catalog and
-- the prompt for the role are, in whatever order the map of the registry is ranged afterwards, those that
-- some order of the map gave before.
pub run_steps-unseen :
    (host : Host) (b : Broker) (role : String) (ss : List Step) (after : Dict ServerEntry)
    → IsSound b
    → All (Within (IsHidden b.access role)) ss
    → Perm (run_steps host ss b).registry.servers after
    → let b' = ordered after (run_steps host ss b) in
      (before : Dict ServerEntry) × Perm b.registry.servers before
      × (build_server_catalog b' role ≡ build_server_catalog (ordered before b) role)
      × (inject_prompt b' role ≡ inject_prompt (ordered before b) role)
unfolding build_server_catalog inject_prompt
run_steps-unseen host b role ss after sound hidden p =
    let s = shown b.access role b.registry.servers in
    let start : Hides b.access role s b = record { sound = sound; access = refl; shows = refl } in
    let b' = run_steps host ss b in
    let end = run_steps-stable (Hides-IsStable b.access role s) host ss b hidden start in
    let (before, q, same) =
      reorder b.access role b.registry.servers b'.registry.servers after sound.valid.unique
        end.sound.valid.unique end.shows p in
    let alike = ap (λ ac. build ac (record { servers = after }) role) end.access ∙ same in
    (before, q, alike, ap format_for_prompt alike)
