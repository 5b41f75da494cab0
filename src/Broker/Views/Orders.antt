-- ===== src/Broker/Views/Orders.antt =====
-- The order in which `List` of registry/registry.go happens to range the registry, and what a role is shown
-- of it.
use neuralgentics_broker.Prelude.{
  String, ◌≡◌, refl, sym, ap, ◌∙◌, inl, inr, Option, none, some, [], ◌∷◌, ◌++◌, if◌then◌else◌,
  Bool-cases, Dict, IsMap,
}
use mathlib.Core.Path.{subst}
use mathlib.Core.List.{Perm, append-nil, perm_middle}
use mathlib.Core.List as List
use mathlib.Core.List.Perm
use neuralgentics_broker.Prelude.Orders.{Perm-IsMap}
use neuralgentics_broker.Access.{AccessControl}
use neuralgentics_broker.Registry.{ServerEntry}
use neuralgentics_broker.Catalog.{visible, build}
use neuralgentics_broker.Broker.Views.Hidden.{shown, build-Shows}

module _ (ac : AccessControl) (role : String) where
  -- the entries that the role is not shown
  hidden : Dict ServerEntry → Dict ServerEntry
  hidden [] = []
  hidden ((k, e) ∷ m) = let rest = hidden m in if visible ac role k then rest else (k, e) ∷ rest

  shown-append-hidden : (m : Dict ServerEntry) → Perm (shown ac role m ++ hidden m) m
  unfolding shown hidden
  shown-append-hidden [] = Perm.rfl
  shown-append-hidden ((k, e) ∷ m) = elim (Bool-cases (visible ac role k)) [
    | inl v ↦ rw v (Perm.cons (k, e) (shown-append-hidden m))
    | inr v ↦ rw v (
        Perm.trans (perm_middle (shown ac role m) (hidden m))
          (Perm.cons (k, e) (shown-append-hidden m)))
  ]

  pick : String × ServerEntry → Option (String × ServerEntry)
  pick p = if visible ac role p.0 then some p else none

  shown-filter_map : (m : Dict ServerEntry) → shown ac role m ≡ List.filter_map pick m
  unfolding shown pick List.filter_map
  shown-filter_map [] = refl
  shown-filter_map ((k, e) ∷ m) = elim (Bool-cases (visible ac role k)) [
    | inl v ↦ rw v (ap (◌∷◌ (k, e)) (shown-filter_map m))
    | inr v ↦ rw v (shown-filter_map m)
  ]

  shown-Perm : {m n : Dict ServerEntry} → Perm m n → Perm (shown ac role m) (shown ac role n)
  shown-Perm {m} {n} p =
      subst (λ x. Perm x (shown ac role n)) (sym (shown-filter_map m))
        (subst (λ x. Perm (List.filter_map pick m) x) (sym (shown-filter_map n))
          (Perm.filter_map pick p))

  shown-append :
      (m n : Dict ServerEntry) → shown ac role (m ++ n) ≡ shown ac role m ++ shown ac role n
  unfolding shown
  shown-append [] n = refl
  shown-append ((k, e) ∷ m) n = elim (Bool-cases (visible ac role k)) [
    | inl v ↦ rw v (ap (◌∷◌ (k, e)) (shown-append m n))
    | inr v ↦ rw v (shown-append m n)
  ]

  shown-shown : (m : Dict ServerEntry) → shown ac role (shown ac role m) ≡ shown ac role m
  unfolding shown
  shown-shown [] = refl
  shown-shown ((k, e) ∷ m) = elim (Bool-cases (visible ac role k)) [
    | inl v ↦ rw v (rw v (ap (◌∷◌ (k, e)) (shown-shown m)))
    | inr v ↦ rw v (shown-shown m)
  ]

  shown-hidden : (m : Dict ServerEntry) → shown ac role (hidden m) ≡ []
  unfolding shown hidden
  shown-hidden [] = refl
  shown-hidden ((k, e) ∷ m) = elim (Bool-cases (visible ac role k)) [
    | inl v ↦ rw v (shown-hidden m)
    | inr v ↦ rw v (rw v (shown-hidden m))
  ]

  -- For two registries that show the same entries, and any order of the second, there is an order of the
  -- first that gives the same catalog.
  pub reorder :
      (m m' after : Dict ServerEntry)
      → IsMap m
      → IsMap m'
      → shown ac role m' ≡ shown ac role m
      → Perm m' after
      → (before : Dict ServerEntry) × Perm m before
        × (build ac (record { servers = after }) role ≡ build ac (record { servers = before }) role)
  reorder m m' after u u' same p =
      let s = shown ac role after in
      let before = s ++ hidden m in
      let q : Perm (shown ac role m) s = subst (λ x. Perm x s) same (shown-Perm p) in
      let r : Perm m before =
        Perm.trans (Perm.symm (shown-append-hidden m)) (Perm.append_right (hidden m) q) in
      let there : shown ac role before ≡ s =
        shown-append s (hidden m)
        ∙ ap (λ x. x ++ shown ac role (hidden m)) (shown-shown after)
        ∙ ap (λ x. s ++ x) (shown-hidden m)
        ∙ append-nil s in
      (
        before,
        r,
        build-Shows ac role s (record { servers = after })
              (record { unique = Perm-IsMap p u'; shows = refl })
            ∙ sym (
                build-Shows ac role s (record { servers = before })
                  (record { unique = Perm-IsMap r u; shows = there })),
      )
