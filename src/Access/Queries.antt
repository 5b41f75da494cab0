-- ===== src/Access/Queries.antt =====
-- What the queries of access.go answer: `CanAccess`, `GetAccessibleServers`, `ServerNames`, `Roles`.
use neuralgentics_broker.Prelude.{
  String, ◌≡◌, refl, ◌∙◌, inl, inr, ◌&&◌, List, [], ◌∷◌, arith, ◌==◌, eq_iff, if◌then◌else◌,
  Bool-cases, elem, Dict, get, put, keys, has_key, IsMap, get-put, has_key-get, put-IsMap, IsSorted,
  sort_strings-IsSorted, elem-sort_strings,
}
use neuralgentics_broker.Access.{
  AccessControl, role_orchestrator, admits, can_access, accessible_names, get_accessible_servers,
  server_names, copy_roles, new_access_control, roles_snapshot, default_server_roles,
}

elem-accessible_names :
    (s role : String) (m : Dict (List String))
    → IsMap m
    → elem s (accessible_names role m) ≡ (has_key s m && admits (get s m) role)
unfolding accessible_names
elem-accessible_names s role [] h = refl
elem-accessible_names s role ((k, []) ∷ m) h =
    ground (arith, eq_iff k s, elem-accessible_names s role m h.1)
elem-accessible_names s role ((k, r ∷ rs) ∷ m) h =
    ground (arith, eq_iff k s, elem-accessible_names s role m h.1)

-- `GetAccessibleServers` returns exactly the registered servers that `CanAccess` lets the role use,
-- in sorted order, whatever the order in which the map is visited.
pub get_accessible_servers-can_access :
    (ac : AccessControl) (role : String)
    → IsMap ac.server_roles
    → IsSorted (get_accessible_servers ac role)
      × ((s : String)
          → elem s (get_accessible_servers ac role)
            ≡ (has_key s ac.server_roles && can_access ac role s))
unfolding get_accessible_servers can_access
get_accessible_servers-can_access ac role h = elim (Bool-cases (role == role_orchestrator)) [
  | inl boss ↦ rw boss (
    sort_strings-IsSorted (keys ac.server_roles),
    λ s. ground (arith, elem-sort_strings s (keys ac.server_roles)),
  )
  | inr other ↦ rw other (
    sort_strings-IsSorted (accessible_names role ac.server_roles),
    λ s.
        elem-sort_strings s (accessible_names role ac.server_roles)
        ∙ elem-accessible_names s role ac.server_roles h,
  )
]

-- The names are sorted, and they are the keys of the map.
server_names_lem :
    (ac : AccessControl)
    → IsSorted (server_names ac)
      × ((s : String) → elem s (server_names ac) ≡ has_key s ac.server_roles)
unfolding server_names
server_names_lem ac =
    (sort_strings-IsSorted (keys ac.server_roles), λ s. elem-sort_strings s (keys ac.server_roles))

get-copy_roles :
    (s : String) (copied m : Dict (List String))
    → IsMap m
    → get s (copy_roles copied m) ≡ (if has_key s m then get s m else get s copied)
unfolding copy_roles
get-copy_roles s copied [] h = refl
get-copy_roles s copied ((k, v) ∷ m) h = ground (
  arith,
  eq_iff k s,
  get-put s k v copied,
  get-copy_roles s (put k v copied) m h.1,
  has_key-get s m,
)

copy_roles-IsMap : (copied m : Dict (List String)) → IsMap copied → IsMap (copy_roles copied m)
unfolding copy_roles
copy_roles-IsMap copied [] h = h
copy_roles-IsMap copied ((k, v) ∷ m) h =
    copy_roles-IsMap (put k v copied) m (put-IsMap k v copied h)

get-copy_roles_nil :
    (s : String) (m : Dict (List String)) → IsMap m → get s (copy_roles [] m) ≡ get s m
get-copy_roles_nil s m h = ground (arith, get-copy_roles s [] m h, has_key-get s m)

-- The defensive copy is a map that gives every server the roles of the map that was passed in, and
-- the snapshot of it gives them back.
new_access_control-copies :
    (m : Dict (List String)) (s : String)
    → IsMap m
    → IsMap (new_access_control m).server_roles
      × (get s (new_access_control m).server_roles ≡ get s m)
      × (get s (roles_snapshot (new_access_control m)) ≡ get s m)
unfolding new_access_control roles_snapshot
new_access_control-copies m s h =
    let c = copy_roles-IsMap [] m tt in
    (
      c,
      get-copy_roles_nil s m h,
      get-copy_roles_nil s (copy_roles [] m) c ∙ get-copy_roles_nil s m h,
    )

pub default_server_roles-IsMap : IsMap default_server_roles
default_server_roles-IsMap = ground arith
