-- ===== src/Types/Conversion.antt =====
-- What the conversion of types.go keeps.
use neuralgentics_broker.Prelude.{
  String, ◌≡◌, refl, ◌≢◌, inl, inr, Bool, true, not, ◌||◌, List, [], ◌∷◌, arith, ◌==◌, eq_iff,
  Bool-cases, elem,
}
use neuralgentics_broker.Types.{TransportConfig, to_server_config, detect_container_runtime}

-- the transport types that the switch knows
abbrev pub transport_types : List String
transport_types = "npx" ∷ "uvx" ∷ "local" ∷ "docker" ∷ "http" ∷ []

-- the server types that the rest of the broker knows how to run
abbrev pub server_types : List String
server_types = "stdio" ∷ "http" ∷ []

detect_container_runtime-ne : (look_path : String → Bool) → detect_container_runtime look_path ≢ ""
unfolding detect_container_runtime
detect_container_runtime-ne look_path = ground (arith, eq_iff "docker" "", eq_iff "podman" "")

-- The configuration has the name, description and capabilities that were asked for; its type is one
-- that the broker can run exactly when the transport's type is one of the five that are declared;
-- and a transport of any type but http has a command, if its package is not empty.
pub to_server_config_lem :
    (look_path : String → Bool) (t : TransportConfig) (name description : String)
    (capabilities : List String)
    → let sc = to_server_config look_path t name description capabilities in
      (sc.name ≡ name)
      × (sc.description ≡ description)
      × (sc.capabilities ≡ capabilities)
      × (elem sc.type server_types ≡ elem t.type transport_types)
      × ((not (sc.type == "stdio") || t.package_name == "" || not (sc.command == "")) ≡ true)
unfolding to_server_config
to_server_config_lem look_path t name description capabilities =
    elim (Bool-cases ("npx" == t.type)) [
      | inl e ↦ rw e (refl, refl, refl, refl, ground arith)
      | inr n ↦ rw n (elim (Bool-cases ("uvx" == t.type)) [
        | inl e ↦ rw e (refl, refl, refl, refl, ground arith)
        | inr n ↦ rw n (elim (Bool-cases ("local" == t.type)) [
          | inl e ↦ rw e (refl, refl, refl, refl, ground arith)
          | inr n ↦ rw n (elim (Bool-cases ("docker" == t.type)) [
            | inl e ↦ rw e (
              refl,
              refl,
              refl,
              refl,
              ground (
                arith,
                detect_container_runtime-ne look_path,
                eq_iff (detect_container_runtime look_path) "",
              ),
            )
            | inr n ↦ rw n (elim (Bool-cases ("http" == t.type)) [
              | inl e ↦ rw e (refl, refl, refl, refl, ground arith)
              | inr n ↦ rw n (refl, refl, refl, refl, refl)
            ])
          ])
        ])
      ])
    ]
