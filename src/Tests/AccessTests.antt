-- ===== src/Tests/AccessTests.antt =====
-- Access control at concrete inputs.
use neuralgentics_broker.Prelude.{
  String, ◌≡◌, refl, true, false, ◌&&◌, [], ◌∷◌, elem, has_key, IsSorted,
}
use neuralgentics_broker.Access.{
  AccessControl, can_access, get_accessible_servers, grant, revoke, default_server_roles,
}
use neuralgentics_broker.Access.Queries.{
  get_accessible_servers-can_access, default_server_roles-IsMap,
}
use neuralgentics_broker.Access.Changes.{can_access-grant, can_access-revoke}

abbrev shipped : AccessControl
shipped = record { server_roles = default_server_roles }

get_accessible_servers-can_access_example :
    IsSorted (get_accessible_servers shipped "tester")
    × ((s : String)
        → elem s (get_accessible_servers shipped "tester")
          ≡ (has_key s default_server_roles && can_access shipped "tester" s))
get_accessible_servers-can_access_example =
    get_accessible_servers-can_access shipped "tester" default_server_roles-IsMap

-- `memoryManager` is open to all: after a grant to the tester a coder is locked out
can_access-grant_example :
    can_access (grant shipped "tester" "memoryManager") "coder" "memoryManager" ≡ false
unfolding can_access
can_access-grant_example = can_access-grant shipped "tester" "memoryManager" "coder" "memoryManager"

can_access-revoke_example :
    can_access (revoke shipped "tester" "playwright") "researcher" "playwright" ≡ true
can_access-revoke_example =
    can_access-revoke shipped "tester" "playwright"
      ("tester" ∷ "boomerang-tester" ∷ "boomerang-scraper" ∷ "researcher" ∷ []) refl "researcher"
      "playwright"
