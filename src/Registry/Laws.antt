-- ===== src/Registry/Laws.antt =====
-- The invariant of the registry, and what its operations change.
use neuralgentics_broker.Prelude.{
  String, ◌≡◌, refl, inl, inr, none, some, [], ◌∷◌, arith, ◌==◌, eq_iff, if◌then◌else◌,
  Option-cases, ok, Dict, get, put, delete, IsMap, get-put, put-IsMap, delete-IsMap,
}
use mathlib.Core.Option.{map as option_map}
use neuralgentics_broker.Types.{ServerConfig}
use neuralgentics_broker.Registry.{
  ServerEntry, Registry, register, deregister, find, modify_found, modify,
}

-- Each entry carries the name that it is registered under.
abbrev pub Named : Dict ServerEntry → Type 0
Named [] = Unit
Named ((k, e) ∷ m) = (e.config.name ≡ k) × Named m

pub record IsValid (r : Registry) : Type 0 where
  pub unique : IsMap r.servers
  pub named : Named r.servers

Named-put :
    (k : String) (e : ServerEntry) (m : Dict ServerEntry)
    → e.config.name ≡ k
    → Named m
    → Named (put k e m)
Named-put k e [] p h = (p, tt)
Named-put k e ((j, w) ∷ m) p h = ground (arith, eq_iff j k, Named-put k e m p h.1)

Named-delete : (k : String) (m : Dict ServerEntry) → Named m → Named (delete k m)
Named-delete k [] h = tt
Named-delete k ((j, w) ∷ m) h = ground (arith, Named-delete k m h.1)

pub Named-get :
    (k : String) (m : Dict ServerEntry) {e : ServerEntry}
    → get k m ≡ some e
    → Named m
    → e.config.name ≡ k
Named-get k [] g h = cc
Named-get k ((j, w) ∷ m) {e} g h = ground (arith, eq_iff j k, Named-get k m {e = e})

pub register-IsValid : (c : ServerConfig) (r : Registry) → IsValid r → IsValid (register c r)
unfolding register
register-IsValid c r v = record {
  unique = put-IsMap c.name _ r.servers v.unique;
  named = Named-put c.name _ r.servers refl v.named;
}

pub deregister-IsValid :
    (name : String) (r : Registry) {r' : Registry}
    → deregister name r ≡ ok r'
    → IsValid r
    → IsValid r'
unfolding deregister
deregister-IsValid name r {r'} h v = record {
  unique = ground (arith, delete-IsMap name r.servers v.unique);
  named = ground (arith, Named-delete name r.servers v.named);
}

pub modify-IsValid :
    (f : ServerEntry → ServerEntry) (name : String) (r : Registry)
    → ((e : ServerEntry) → e.config.name ≡ name → (f e).config.name ≡ name)
    → IsValid r
    → IsValid (modify f name r)
unfolding modify
modify-IsValid f name r keeps v = elim (Option-cases (find name r)) [
  | inl e ↦ rw (e, modify_found) v
  | inr (x, e) ↦
      rw (e, modify_found)
        (record {
          unique = put-IsMap name (f x) r.servers v.unique;
          named =
              Named-put name (f x) r.servers (keeps x (Named-get name r.servers e v.named)) v.named;
        })
]

pub find-modify :
    (f : ServerEntry → ServerEntry) (name other : String) (r : Registry)
    → find other (modify f name r)
      ≡ (if name == other then option_map f (find name r) else find other r)
unfolding modify
find-modify f name other r = elim (Option-cases (find name r)) [
  | inl e ↦ ground (arith, eq_iff name other)
  | inr (x, e) ↦ ground (arith, get-put other name (f x) r.servers)
]

-- After `Register` the name has a fresh entry, and the others are as before.
pub find-register :
    (c : ServerConfig) (other : String) (r : Registry)
    → find other (register c r) ≡ (
        if c.name == other
        then some (record { config = c; process = none; tools = []; stdin = none; stdout = none })
        else find other r)
unfolding register
find-register c other r = get-put other c.name _ r.servers
