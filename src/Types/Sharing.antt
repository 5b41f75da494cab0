-- ===== src/Types/Sharing.antt =====
-- The maps of environments in types/types.go as references: `ToServerConfig` gives the configuration the
-- transport's own map and may write to it, which everything that holds the map sees.
use neuralgentics_broker.Prelude.{
  ℕ, ◌+◌, ◌<◌, String, ◌≡◌, refl, inl, inr, Bool, false, Option, none, some, List, [], ◌∷◌, arith,
  ◌==◌, eqb, if◌then◌else◌, Bool-cases, put_at, Dict, put,
}
use neuralgentics_broker.Types.{
  Env, TransportConfig, mcp_url, put_env, converted_env, to_server_config,
}

-- the maps that are allocated, by number
pub record Heap : Type 0 where
  pub maps : ℕ → Dict String
  pub next : ℕ

-- what a variable of type `map[string]string` holds, which may be nil
abbrev pub env_at : Heap → Option ℕ → Env
env_at h none = none
env_at h (some r) = some (h.maps r)

-- `sc.Env[...] = t.URL`, with a new map for nil
abbrev pub write_url : String → Option ℕ → Heap → Heap × Option ℕ
write_url url none h =
    (record { maps = put_at h.maps h.next ((mcp_url, url) ∷ []); next = h.next + 1 }, some h.next)
write_url url (some r) h =
    (record h { maps = put_at h.maps r (put mcp_url url (h.maps r)) }, some r)

-- what `ToServerConfig` makes of the heap and of `sc.Env`, from `t.Env`
unfoldable pub convert_env : TransportConfig → Option ℕ → Heap → Heap × Option ℕ
convert_env t ref h =
    if "http" == t.type then if t.url == "" then (h, ref) else write_url t.url ref h else (h, ref)

-- whether a variable holds this map
abbrev pub holds_map : ℕ → Option ℕ → Bool
holds_map r none = false
holds_map r (some q) = eqb q r

-- a transport whose map is this one
abbrev pub over_heap : Heap → Option ℕ → TransportConfig → TransportConfig
over_heap h ref t = record t { env = env_at h ref }

write_url_lem :
    (url : String) (ref : Option ℕ) (h : Heap) (r : ℕ)
    → r < h.next
    → let (h', ref') = write_url url ref h in
      let env = put_env mcp_url url (env_at h ref) in
      (env_at h' ref' ≡ env)
      × (env_at h' (some r) ≡ (if holds_map r ref then env else env_at h (some r)))
write_url_lem url none h r l = (ground arith, ground (arith, l))
write_url_lem url (some q) h r l = (ground arith, ground arith)

unwritten :
    (ref : Option ℕ) (h : Heap) (r : ℕ)
    → env_at h (some r) ≡ (if holds_map r ref then env_at h ref else env_at h (some r))
unwritten none h r = refl
unwritten (some q) h r = ground arith

to_server_config-env :
    (look_path : String → Bool) (t : TransportConfig) (name description : String)
    (capabilities : List String)
    → (to_server_config look_path t name description capabilities).env ≡ converted_env t
unfolding to_server_config
to_server_config-env look_path t name description capabilities =
    elim (Bool-cases ("npx" == t.type)) [
      | inl e ↦ rw e refl
      | inr n ↦ rw n (elim (Bool-cases ("uvx" == t.type)) [
        | inl e ↦ rw e refl
        | inr n ↦ rw n (elim (Bool-cases ("local" == t.type)) [
          | inl e ↦ rw e refl
          | inr n ↦ rw n (elim (Bool-cases ("docker" == t.type)) [
            | inl e ↦ rw e refl
            | inr n ↦
                rw n
                  (elim (Bool-cases ("http" == t.type)) [ inl e ↦ rw e refl | inr n ↦ rw n refl ])
          ])
        ])
      ])
    ]

convert_env-converted_env :
    (t : TransportConfig) (ref : Option ℕ) (h : Heap) (r : ℕ)
    → r < h.next
    → let (h', ref') = convert_env t ref h in
      let env = converted_env (over_heap h ref t) in
      (env_at h' ref' ≡ env)
      × (env_at h' (some r) ≡ (if holds_map r ref then env else env_at h (some r)))
unfolding convert_env converted_env
convert_env-converted_env t ref h r l = elim (Bool-cases ("http" == t.type)) [
  | inr other ↦ rw other (refl, unwritten ref h r)
  | inl http ↦ elim (Bool-cases (t.url == "")) [
    | inl empty ↦ rw (http, empty) (refl, unwritten ref h r)
    | inr url ↦ rw (http, url) (write_url_lem t.url ref h r l)
  ]
]

-- Whatever holds the map of a transport: after `ToServerConfig` the configuration's environment is the one
-- of the conversion by value, every variable that holds the transport's own map has that environment too,
-- and every other map is as it was.
pub convert_env_lem :
    (look_path : String → Bool) (t : TransportConfig) (ref : Option ℕ) (h : Heap) (r : ℕ)
    (name description : String) (capabilities : List String)
    → r < h.next
    → let (h', ref') = convert_env t ref h in
      let sc = to_server_config look_path (over_heap h ref t) name description capabilities in
      (env_at h' ref' ≡ sc.env)
      × (env_at h' (some r) ≡ (if holds_map r ref then sc.env else env_at h (some r)))
unfolding convert_env to_server_config
convert_env_lem look_path t ref h r name description capabilities l =
    rw (to_server_config-env look_path (over_heap h ref t) name description capabilities)
      (convert_env-converted_env t ref h r l)
