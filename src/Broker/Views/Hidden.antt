-- ===== src/Broker/Views/Hidden.antt =====
-- What `Build` of catalog/catalog.go reads of a registry: the entries that the role is shown.
use neuralgentics_broker.Prelude.{
  String, ◌≡◌, refl, ap, ◌∙◌, inl, inr, Bool, true, false, some, [], ◌∷◌, arith, eq_iff,
  if◌then◌else◌, Bool-cases, Option-cases, is_some, ok, Dict, put, delete, has_key, IsMap,
  put-IsMap, delete-IsMap,
}
use mathlib.Core.Path.{subst}
use neuralgentics_broker.Types.{ServerConfig}
use neuralgentics_broker.Access.{AccessControl}
use neuralgentics_broker.Registry.{
  ServerEntry, Registry, find, list, statuses, register, deregister, modify_found, modify,
}
use neuralgentics_broker.Catalog.{Progress, visible, add_summary, build_step, build_loop, build}
use neuralgentics_broker.Catalog.Filtering.{Inside, Inside-self}

module _ (ac : AccessControl) (role : String) where
  -- the entries that the role is shown
  unfoldable pub shown : Dict ServerEntry → Dict ServerEntry
  shown [] = []
  shown ((k, e) ∷ m) = let rest = shown m in if visible ac role k then (k, e) ∷ rest else rest

  pub add_all : Progress → Dict ServerEntry → Progress
  add_all acc [] = acc
  add_all acc ((k, e) ∷ m) = add_all (add_summary acc (some e)) m

  build_step-shown :
      (r : Registry) (acc : Progress) (k : String) (e : ServerEntry)
      → find k r ≡ some e
      → build_step ac role r acc (record { name = k; running = is_some e.process; tools = e.tools })
        ≡ (if visible ac role k then add_summary acc (some e) else acc)
  build_step-shown r acc k e there =
      ap (λ o. if visible ac role k then add_summary acc o else acc) there

  add_all-if :
      (v : Bool) (acc : Progress) (k : String) (e : ServerEntry) (m : Dict ServerEntry)
      → add_all (if v then add_summary acc (some e) else acc) m
        ≡ add_all acc (if v then (k, e) ∷ m else m)
  unfolding add_all
  add_all-if true acc k e m = refl
  add_all-if false acc k e m = refl

  build_loop-shown :
      (r : Registry) (acc : Progress) (m : Dict ServerEntry)
      → Inside r m
      → build_loop ac role r acc (statuses m) ≡ add_all acc (shown m)
  unfolding build_loop statuses shown add_all
  build_loop-shown r acc [] h = refl
  build_loop-shown r acc ((k, e) ∷ m) h =
      build_loop-shown r
        (build_step ac role r acc
          (record { name = k; running = is_some e.process; tools = e.tools }))
        m h.1
      ∙ ap (λ a. add_all a (shown m)) (build_step-shown r acc k e h.0)
      ∙ add_all-if (visible ac role k) acc k e (shown m)

  shown-put :
      (k : String) (e : ServerEntry) (m : Dict ServerEntry)
      → visible ac role k ≡ false
      → shown (put k e m) ≡ shown m
  unfolding shown
  shown-put k e [] v = rw v refl
  shown-put k e ((j, w) ∷ m) v = ground (arith, v, eq_iff j k, shown-put k e m v)

  shown-delete :
      (k : String) (m : Dict ServerEntry) → visible ac role k ≡ false → shown (delete k m) ≡ shown m
  unfolding shown
  shown-delete k [] v = refl
  shown-delete k ((j, w) ∷ m) v = ground (arith, v, eq_iff j k, shown-delete k m v)

  -- a registry with unique names that shows these entries
  pub record Shows (s : Dict ServerEntry) (r : Registry) : Type 0 where
    pub unique : IsMap r.servers
    pub shows : shown r.servers ≡ s

  pub build-Shows :
      (s : Dict ServerEntry) (r : Registry)
      → Shows s r
      → build ac r role ≡ (
          let (servers, total) = add_all ([], 0) s in
          record { servers = servers; total_tools = total; role = role })
  unfolding build list
  build-Shows s r h =
      ap (λ (p : Progress). record { servers = p.0; total_tools = p.1; role = role })
        (build_loop-shown r ([], 0) r.servers (Inside-self r.servers h.unique)
          ∙ ap (add_all ([], 0)) h.shows)

  pub register-Shows :
      (s : Dict ServerEntry) (c : ServerConfig) (r : Registry)
      → visible ac role c.name ≡ false
      → Shows s r
      → Shows s (register c r)
  unfolding register
  register-Shows s c r v h = record {
    unique = put-IsMap c.name _ r.servers h.unique;
    shows = shown-put c.name _ r.servers v ∙ h.shows;
  }

  pub deregister-Shows :
      (s : Dict ServerEntry) (name : String) (r r' : Registry)
      → visible ac role name ≡ false
      → deregister name r ≡ ok r'
      → Shows s r
      → Shows s r'
  unfolding deregister
  deregister-Shows s name r r' v e h = elim (Bool-cases (has_key name r.servers)) [
    | inl there ↦
        let left : Registry = record { servers = delete name r.servers } in
        let same : left ≡ r' = ground (arith, e, there) in
        subst (Shows s) same (record {
          unique = delete-IsMap name r.servers h.unique;
          shows = shown-delete name r.servers v ∙ h.shows;
        })
    | inr absent ↦ absurd (ground (arith, e, absent))
  ]

  pub modify-Shows :
      (s : Dict ServerEntry) (f : ServerEntry → ServerEntry) (name : String) (r : Registry)
      → visible ac role name ≡ false
      → Shows s r
      → Shows s (modify f name r)
  unfolding modify
  modify-Shows s f name r v h = elim (Option-cases (find name r)) [
    | inl absent ↦ rw (absent, modify_found) h
    | inr (e, there) ↦
        rw (there, modify_found)
          (record {
            unique = put-IsMap name (f e) r.servers h.unique;
            shows = shown-put name (f e) r.servers v ∙ h.shows;
          })
  ]
