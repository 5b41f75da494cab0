-- ===== src/Access/Changes.antt =====
-- What `Grant` and `Revoke` of access.go change.
use neuralgentics_broker.Prelude.{
  String, ◌≡◌, refl, Bool, true, false, not, ◌&&◌, ◌||◌, Option, none, some, List, [], ◌∷◌, ◌++◌,
  arith, ◌==◌, eq_iff, eq_refl, if◌then◌else◌, is_empty, All, elem, elem-append, elem-keep_if, get,
  put, get-put,
}
use neuralgentics_broker.Access.{
  AccessControl, role_orchestrator, admits, can_access, granted, grant, without_role, revoke,
}

-- A server's list of roles that restricts it.
abbrev pub restricts : Option (List String) → Bool
restricts (some (r ∷ rs)) = true
restricts _ = false

admits-granted :
    (o : Option (List String)) (role other : String)
    → admits (some (granted o role)) other ≡ (role == other || (restricts o && admits o other))
admits-granted none role other = ground arith
admits-granted (some []) role other = ground arith
admits-granted (some (r ∷ rs)) role other =
    ground (arith, eq_iff r role, eq_iff role other, elem-append other rs (role ∷ []))

-- After `Grant(role, server)` the role may use the server. Every other role, but the orchestrator,
-- may use that server only if it could before and the server already had a non-empty list: a grant
-- on an unregistered or allow-all server locks the others out. Other servers are as before.
pub can_access-grant :
    (ac : AccessControl) (role server other s : String)
    → can_access (grant ac role server) other s ≡ (
        if server == s
        then (other == role_orchestrator
            || role == other
            || (restricts (get s ac.server_roles) && can_access ac other s))
        else can_access ac other s)
unfolding can_access grant
can_access-grant ac role server other s = ground (
  arith,
  eq_iff server s,
  get-put s server (granted (get server ac.server_roles) role) ac.server_roles,
  admits-granted (get server ac.server_roles) role other,
)

admits-without_role :
    (role other : String) (roles : List String)
    → admits (some (without_role role roles)) other
      ≡ (is_empty (without_role role roles) || (not (other == role) && elem other roles))
admits-without_role role other roles =
    ground (arith, elem-keep_if other (λ r. not (r == role)) roles)

without_role-append :
    (role : String) (roles : List String)
    → elem role roles ≡ false
    → without_role role (roles ++ role ∷ []) ≡ roles
without_role-append role [] h = rw (eq_refl role)
without_role-append role (r ∷ rs) h = ground (arith, without_role-append role rs)

-- `Revoke(role, server)` on a server with a list of roles: another server is as before, and the
-- server itself lets in the orchestrator, the other roles of its list, and, if no role is left on
-- the list, everybody.
pub can_access-revoke :
    (ac : AccessControl) (role server : String) (roles : List String)
    → get server ac.server_roles ≡ some roles
    → (other s : String)
    → can_access (revoke ac role server) other s ≡ (
        if server == s
        then (other == role_orchestrator
            || is_empty (without_role role roles)
            || (not (other == role) && elem other roles))
        else can_access ac other s)
unfolding can_access revoke
can_access-revoke ac role server roles h other s = ground (
  arith,
  eq_iff server s,
  get-put s server (without_role role roles) ac.server_roles,
  admits-without_role role other roles,
)

without_role-All :
    (role : String) (roles : List String) → All (λ r. r ≡ role) roles → without_role role roles ≡ []
without_role-All role [] h = refl
without_role-All role (r ∷ rs) h = ground (arith, eq_iff r role, without_role-All role rs h.1)

-- Revoking the last role of a server does not shut the server: from then on every role may use it,
-- those that could not before included.
revoke_last-opens :
    (ac : AccessControl) (role server : String) (roles : List String)
    → get server ac.server_roles ≡ some roles
    → All (λ r. r ≡ role) roles
    → (other : String) → can_access (revoke ac role server) other server ≡ true
revoke_last-opens ac role server roles h all other = ground (
  arith,
  eq_refl server,
  can_access-revoke ac role server roles h other server,
  without_role-All role roles all,
)

-- Revoking a role right after granting it gives every server the list that it had, if the server
-- was registered and the role was not on its list.
revoke-grant :
    (ac : AccessControl) (role server : String) (roles : List String)
    → get server ac.server_roles ≡ some roles
    → elem role roles ≡ false
    → (s : String)
    → get s (revoke (grant ac role server) role server).server_roles ≡ get s ac.server_roles
unfolding grant revoke
revoke-grant ac role server roles h new s = ground (
  arith,
  eq_iff server s,
  eq_refl server,
  get-put server server (roles ++ role ∷ []) ac.server_roles,
  get-put s server (roles ++ role ∷ []) ac.server_roles,
  get-put s server (without_role role (roles ++ role ∷ []))
      (put server (roles ++ role ∷ []) ac.server_roles),
  without_role-append role roles new,
)
